-- ===== src/Link/Machine/Steps.antt =====
-- What SetLinkingState, ClearSession and UpdateLinkState of src/Services/Link/LoLaLinkService.h do to
-- the values of the machine.
use lo_la.Prelude.{
  ℕ, true, false, ◌≡◌, refl, sym, ◌∙◌, ap, subst, ◌==◌, ◌⊎◌, inl, inr, Bool-cases, arith,
}
use lo_la.Crypto.Encoder.{Stage, all_clear, all_ready, full_power}
use lo_la.Crypto.Encoder
use lo_la.Driver.State.{
  Driver, set_link_status, reset_live_data, emit, add_async_action, reset_statistics,
}
use lo_la.Driver.Receive.{Node}
use lo_la.Services.Manager.{notify_services_link_updated}
use lo_la.Driver.Power.{
  on_start, set_channel, set_transmit_power, on_channel_updated, on_transmit_power_updated,
  restore_to_receiving,
}
use lo_la.Services.Send.{schedule}
use lo_la.Link.Info.{
  is_linked, LinkState, awaiting_link, linking, linked, disabled, setup, awaiting_sleeping,
  update_state, stamp_link_started,
}
use lo_la.Link.Info
use lo_la.Link.Service.{
  Platform, Moment, LinkClient, Link, on_client, is_awaiting_link, is_linking,
  reset_state_start_time, reset_last_sent_time_stamp,
}
use lo_la.Link.Service.Session.{
  Housekeeping, code, set_linking_state, clear_session, tune_to_reset_channel, start_driver,
  transmit_at_max_power, notify, leave, enter_awaiting_link, change_state, enter_linking,
  enter_linked, enter_disabled, enter, update_link_state,
}
use lo_la.Link.Machine.{
  Phase, Moves, stay, rest, halt, start, establish, is_resting, rests_from, resting, enabled_stage,
}

abbrev driver_stage : Driver → Stage
driver_stage d = d.encoder.encoder_state

stage-set_channel :
    (channel : ℕ) (d : Driver) → driver_stage (set_channel channel d) ≡ driver_stage d
unfolding set_channel on_channel_updated restore_to_receiving emit add_async_action
stage-set_channel channel d = ground arith

pub stage-set_transmit_power :
    (map_range : ℕ → ℕ) (value : ℕ) (d : Driver)
    → driver_stage (set_transmit_power map_range value d) ≡ driver_stage d
unfolding set_transmit_power on_transmit_power_updated restore_to_receiving emit add_async_action
stage-set_transmit_power map_range value d = ground arith

Stage-cases : (e : Stage) → (e ≡ all_clear) ⊎ ((e ≡ all_ready) ⊎ (e ≡ full_power))
Stage-cases all_clear = inl refl
Stage-cases all_ready = inr (inl refl)
Stage-cases full_power = inr (inr refl)

awaiting_code :
    (state : LinkState) → is_awaiting_link state ≡ true → (code state == code awaiting_link) ≡ true
awaiting_code state h = ground arith

awaiting_unlinked : (state : LinkState) → is_awaiting_link state ≡ true → is_linked state ≡ false
awaiting_unlinked state h = ground arith

linking_unlinked : (state : LinkState) → is_linking state ≡ true → is_linked state ≡ false
linking_unlinked state h = ground arith

with_state :
    (x : Phase) (state : LinkState) (n : ℕ) (e : Stage)
    → x.stage ≡ n
    → x.encoder_stage ≡ e
    → record x { link_state = state } ≡ record { link_state = state; stage = n; encoder_stage = e }
with_state x state n e h g = rw (h, g) refl

-- The services that are told of the link leave the encoder as it is.
abbrev pub KeepsEncoder : {B S : Type 0} → Platform B S → Type 0
KeepsEncoder {S = S} p =
    (n : Node S)
    → (notify_services_link_updated true p.manager n).driver.encoder.encoder_state
      ≡ n.driver.encoder.encoder_state

module _ {B S P : Type 0} where
  abbrev pub client_stage : LinkClient B S P → Stage
  client_stage c = c.node.driver.encoder.encoder_state

  unfoldable pub phase_of : Link B S P → Phase
  phase_of s = record {
    link_state = s.client.info.link_state;
    stage = s.client.linking_state;
    encoder_stage = s.client.node.driver.encoder.encoder_state;
  }

  pub phase-set_linking_state :
      (n : ℕ) (s : Link B S P)
      → phase_of (set_linking_state n s) ≡ record (phase_of s) { stage = n }
  unfolding phase_of set_linking_state schedule reset_last_sent_time_stamp
  phase-set_linking_state n s = refl

  module _ (p : Platform B S) (k : Housekeeping P) (m : Moment) where
    pub phase-clear_session :
        (s : Link B S P)
        → phase_of (on_client (clear_session p k m) s)
          ≡ record (phase_of s) { encoder_stage = all_clear }
    unfolding phase_of clear_session Info.reset Encoder.clear set_link_status reset_live_data
    phase-clear_session s = refl

    stage-tune_to_reset_channel :
        (c : LinkClient B S P) → client_stage (tune_to_reset_channel p k m c) ≡ client_stage c
    unfolding tune_to_reset_channel
    stage-tune_to_reset_channel c = stage-set_channel _ c.node.driver

    stage-transmit_at_max_power :
        (c : LinkClient B S P) → client_stage (transmit_at_max_power p k m c) ≡ client_stage c
    unfolding transmit_at_max_power
    stage-transmit_at_max_power c = stage-set_transmit_power p.map_range _ c.node.driver

    stage-start_driver :
        (c : LinkClient B S P) → client_stage (start_driver p k m c) ≡ client_stage c
    unfolding start_driver on_start restore_to_receiving emit
    stage-start_driver c = refl

    stage-clear_session : (c : LinkClient B S P) → client_stage (clear_session p k m c) ≡ all_clear
    unfolding clear_session Encoder.clear
    stage-clear_session c = refl

    module _ (hook : LinkState → Link B S P → Link B S P) where
      abbrev entered : LinkState → Link B S P → Link B S P
      entered state s = enter p k m hook state (
          on_client
            (λ c.
              leave p k m c.info.link_state
                (reset_last_sent_time_stamp (reset_state_start_time m.millis c)))
            s)

      -- What the derived class's method does to the values.
      pub record IsHook : Type 0 where
        pub hook_stage :
            (state : LinkState) (s : Link B S P)
            → (phase_of (hook state s)).stage ≡ (phase_of s).stage
        pub hook_clear :
            (state : LinkState) (s : Link B S P)
            → (phase_of s).encoder_stage ≡ all_clear
            → (phase_of (hook state s)).encoder_stage ≡ all_clear
        pub hook_encoder :
            (state : LinkState) (s : Link B S P)
            → is_awaiting_link state ≡ false
            → (phase_of (hook state s)).encoder_stage ≡ (phase_of s).encoder_stage

      phase-update_link_state :
          (state : LinkState) (s : Link B S P)
          → (code s.client.info.link_state == code state) ≡ false
          → phase_of (update_link_state p k m hook state s)
            ≡ record (phase_of (hook state (entered state s))) { link_state = state }
      unfolding update_link_state change_state phase_of update_state
      phase-update_link_state state s e = rw e refl

      phase-same :
          (state : LinkState) (s : Link B S P)
          → (code s.client.info.link_state == code state) ≡ true
          → phase_of (update_link_state p k m hook state s) ≡ phase_of s
      unfolding update_link_state change_state
      phase-same state s e = rw e refl

      abbrev halted : Link B S P → LinkClient B S P
      halted s = (set_linking_state 0 (on_client (clear_session p k m) s)).client

      stage-halted : (s : Link B S P) → client_stage (halted s) ≡ all_clear
      unfolding set_linking_state schedule reset_last_sent_time_stamp
      stage-halted s = stage-clear_session s.client

      -- Entering a state of rest clears the encoder, whatever the session was.
      enter-clears_encoder :
          (state : LinkState) (s : Link B S P)
          → is_resting state ≡ true
          → client_stage (enter p k m hook state s).client ≡ all_clear
      unfolding enter enter_awaiting_link schedule
      enter-clears_encoder setup s h =
          let c = (set_linking_state 0 (on_client (start_driver p k m) s)).client in
          stage-start_driver (tune_to_reset_channel p k m (clear_session p k m c))
          ∙ (stage-tune_to_reset_channel (clear_session p k m c) ∙ stage-clear_session c)
      enter-clears_encoder awaiting_link s h =
          stage-tune_to_reset_channel (transmit_at_max_power p k m (halted s))
          ∙ (stage-transmit_at_max_power (halted s) ∙ stage-halted s)
      enter-clears_encoder awaiting_sleeping s h =
          stage-start_driver (tune_to_reset_channel p k m (halted s))
          ∙ (stage-tune_to_reset_channel (halted s) ∙ stage-halted s)
      enter-clears_encoder disabled s h = ground arith
      enter-clears_encoder linking s h = ground arith
      enter-clears_encoder linked s h = ground arith

      enter-first_stage :
          (state : LinkState) (s : Link B S P)
          → is_resting state ≡ true
          → (phase_of (enter p k m hook state s)).stage ≡ 0
      unfolding phase_of enter enter_awaiting_link set_linking_state reset_last_sent_time_stamp
          schedule start_driver tune_to_reset_channel clear_session transmit_at_max_power
      enter-first_stage setup s h = refl
      enter-first_stage awaiting_link s h = refl
      enter-first_stage awaiting_sleeping s h = refl
      enter-first_stage disabled s h = ground arith
      enter-first_stage linking s h = ground arith
      enter-first_stage linked s h = ground arith

      abbrev left_from : LinkState → Link B S P → Link B S P
      left_from state s =
          on_client
            (λ c.
              leave p k m state (reset_last_sent_time_stamp (reset_state_start_time m.millis c)))
            s

      stage-left :
          (state : LinkState) (s : Link B S P)
          → (enter p k m hook disabled (left_from state s)).client.linking_state
            ≡ s.client.linking_state
      unfolding enter enter_disabled leave notify start_driver tune_to_reset_channel clear_session
          reset_last_sent_time_stamp reset_state_start_time
      stage-left linked s = refl
      stage-left disabled s = refl
      stage-left setup s = refl
      stage-left awaiting_link s = refl
      stage-left awaiting_sleeping s = refl
      stage-left linking s = refl

      left_unlinked :
          (state : LinkState) (s : Link B S P)
          → is_linked state ≡ false
          → (client_stage (left_from state s).client ≡ client_stage s.client)
            × ((left_from state s).client.linking_state ≡ s.client.linking_state)
            × ((left_from state s).client.info.link_state ≡ s.client.info.link_state)
      unfolding leave reset_last_sent_time_stamp reset_state_start_time
      left_unlinked awaiting_link s h = (refl, refl, refl)
      left_unlinked disabled s h = (refl, refl, refl)
      left_unlinked setup s h = (refl, refl, refl)
      left_unlinked awaiting_sleeping s h = (refl, refl, refl)
      left_unlinked linking s h = (refl, refl, refl)
      left_unlinked linked s h = ground arith

      -- Where the encoder is not ready, the call back to AwaitingLink finds that state.
      enter_linking_lem :
          (s : Link B S P)
          → (code s.client.info.link_state == code awaiting_link) ≡ true
          → ((enter_linking p k m hook s).client.linking_state ≡ 0)
            × (client_stage (enter_linking p k m hook s).client
                ≡ enabled_stage (client_stage s.client))
      unfolding enter_linking change_state set_linking_state schedule reset_last_sent_time_stamp
          Encoder.set_enabled
      enter_linking_lem s h = elim (Stage-cases s.client.node.driver.encoder.encoder_state) [
        | inl e ↦ rw (e, h) (refl, refl)
        | inr (inl e) ↦ rw e (refl, refl)
        | inr (inr e) ↦ rw e (refl, refl)
      ]

      enter_linked_lem :
          KeepsEncoder p
          → (s : Link B S P)
          → ((enter_linked p k m hook s).client.linking_state ≡ s.client.linking_state)
            × (client_stage (enter_linked p k m hook s).client ≡ client_stage s.client)
      unfolding enter_linked notify schedule reset_statistics stamp_link_started set_link_status
      enter_linked_lem keeps s = (refl, keeps _)

      -- A move that holds where the state changes, and nothing where it does not.
      move_unless_same :
          (state : LinkState) (s : Link B S P) (n : ℕ) (e : Stage)
          → ((code s.client.info.link_state == code state) ≡ false
              → ((phase_of (hook state (entered state s))).stage ≡ n)
                × ((phase_of (hook state (entered state s))).encoder_stage ≡ e))
          → Moves (phase_of s) (record { link_state = state; stage = n; encoder_stage = e })
          → Moves (phase_of s) (phase_of (update_link_state p k m hook state s))
      move_unless_same state s n e f move =
          elim (Bool-cases (code s.client.info.link_state == code state)) [
            | inl same ↦ subst (λ y. Moves (phase_of s) y) (sym (phase-same state s same)) stay
            | inr changed ↦
                subst (λ y. Moves (phase_of s) y)
                  (sym (
                    phase-update_link_state state s changed
                    ∙ with_state (phase_of (hook state (entered state s))) state n e (f changed).0
                        (f changed).1))
                  move
          ]

      module _ (law : IsHook) where
        pub phase-update_rest :
            (state : LinkState) (s : Link B S P)
            → is_resting state ≡ true
            → (code s.client.info.link_state == code state) ≡ false
            → phase_of (update_link_state p k m hook state s)
              ≡ record { link_state = state; stage = 0; encoder_stage = all_clear }
        unfolding phase_of
        phase-update_rest state s h changed =
            phase-update_link_state state s changed
            ∙ with_state (phase_of (hook state (entered state s))) state 0 all_clear
                (law.hook_stage state (entered state s) ∙ enter-first_stage state _ h)
                (law.hook_clear state (entered state s) (enter-clears_encoder state _ h))

        pub update-rests :
            (state : LinkState) (s : Link B S P)
            → rests_from state s.client.info.link_state ≡ true
            → Moves (phase_of s) (phase_of (update_link_state p k m hook state s))
        unfolding phase_of
        update-rests state s h =
            let clean = resting state s.client.info.link_state h in
            move_unless_same state s 0 all_clear
              (λ changed. (
                law.hook_stage state (entered state s) ∙ enter-first_stage state _ clean,
                law.hook_clear state (entered state s) (enter-clears_encoder state _ clean),
              ))
              (rest h)

        pub update-halts :
            (s : Link B S P)
            → Moves (phase_of s) (phase_of (update_link_state p k m hook disabled s))
        unfolding phase_of
        update-halts s =
            move_unless_same disabled s s.client.linking_state
              (client_stage (hook disabled (entered disabled s)).client)
              (λ changed. (
                law.hook_stage disabled (entered disabled s)
                    ∙ stage-left s.client.info.link_state s,
                refl,
              ))
              (halt (client_stage (hook disabled (entered disabled s)).client))

        pub update-starts :
            (s : Link B S P)
            → is_awaiting_link s.client.info.link_state ≡ true
            → s.client.linking_state ≡ 5
            → Moves (phase_of s) (phase_of (update_link_state p k m hook linking s))
        unfolding phase_of enter
        update-starts s a n =
            let state = s.client.info.link_state in
            let left = left_unlinked state s (awaiting_unlinked state a) in
            let lem =
              enter_linking_lem (left_from state s)
                (awaiting_code _ (ap is_awaiting_link left.2 ∙ a)) in
            move_unless_same linking s 0 (enabled_stage (client_stage s.client))
              (λ changed. (
                law.hook_stage linking (entered linking s) ∙ lem.0,
                law.hook_encoder linking (entered linking s) refl
                    ∙ (lem.1 ∙ ap enabled_stage left.0),
              ))
              (start a n)

        pub update-establishes :
            KeepsEncoder p
            → (s : Link B S P) → is_linking s.client.info.link_state ≡ true
            → s.client.linking_state ≡ 3
            → Moves (phase_of s) (phase_of (update_link_state p k m hook linked s))
        unfolding phase_of enter
        update-establishes keeps s a n =
            let state = s.client.info.link_state in
            let left = left_unlinked state s (linking_unlinked state a) in
            let lem = enter_linked_lem keeps (left_from state s) in
            move_unless_same linked s 3 (client_stage s.client)
              (λ changed. (
                law.hook_stage linked (entered linked s) ∙ (lem.0 ∙ (left.1 ∙ n)),
                law.hook_encoder linked (entered linked s) refl ∙ (lem.1 ∙ left.0),
              ))
              (establish a n)
