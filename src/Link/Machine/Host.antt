-- ===== src/Link/Machine/Host.antt =====
-- The host of src/Services/Link/LoLaLinkHostService.h moves along the machine.
pub mod Linking
pub mod Steps
use lo_la.Prelude.{
  ℕ, Bool, true, false, if◌then◌else◌, ◌≡◌, refl, sym, ◌∙◌, Bool-cases, inl, inr, ap, subst, ◌&&◌,
  ◌||◌, ltb, ◌==◌, arith,
}
use lo_la.Crypto.Encoder.{all_clear, set_iv_data}
use lo_la.Crypto.Encoder
use lo_la.Driver.State.{set_link_status, reset_live_data}
use lo_la.Services.Task.{run_asap}
use lo_la.Services.Send.{schedule}
use lo_la.Link.Info.{LinkInfo, LinkState, awaiting_link, linking, linked, set_session_id}
use lo_la.Link.Info
use lo_la.Link.Service.{
  Platform, Moment, is_awaiting_link, is_linking, on_client, reset_last_sent_time_stamp,
}
use lo_la.Link.Service.Session.{set_linking_state, clear_session}
use lo_la.Link.Host.{
  Host, housekeeping, on_link_state_changed, new_session, give_up, restart_awaiting_link,
  clear_host,
}
use lo_la.Link.Host.Awaiting.{
  agree_on_key, on_got_shared_key, on_processing_pkc, on_awaiting_stage, on_broadcasting,
  broadcast_id, on_validating_partner, set_iv, needs_new_session, sub_state_expired,
  on_sending_public_key,
}
use lo_la.Link.Machine.{Phase, Moves, stay, advance, restage, key}
use lo_la.Link.Machine.Steps.{phase_of, IsHook, client_stage, update-starts}
use lo_la.Link.Machine.Kept.{
  Goes, goes, choose, here, stays_client, after_client, keys_awaiting, agree_on_key_lem,
  client-send_prepared, client-send_after, rests_awaiting, awaiting_stage, ==→≡,
}

module _ {B S : Type 0} (p : Platform B S) (m : Moment) where
  phase-new_session :
      (s : Host B S)
      → phase_of (new_session p m s) ≡ record (phase_of s) { encoder_stage = all_clear }
  unfolding phase_of new_session set_session_id clear_session Info.reset Encoder.clear
      set_link_status reset_live_data
  phase-new_session s = refl

  phase-give_up :
      (s : Host B S)
      → phase_of (give_up p m s) ≡ record (phase_of s) { stage = 0; encoder_stage = all_clear }
  unfolding phase_of give_up restart_awaiting_link set_linking_state reset_last_sent_time_stamp
      schedule clear_session Info.reset Encoder.clear set_link_status reset_live_data
  phase-give_up s = refl

  give_up-goes :
      (s : Host B S)
      → is_awaiting_link s.client.info.link_state ≡ true
      → Goes (phase_of s) (give_up p m s)
  unfolding phase_of
  give_up-goes s a = goes (
      rests_awaiting a (ap Phase.link_state (phase-give_up s)) (ap Phase.stage (phase-give_up s))
        (ap Phase.encoder_stage (phase-give_up s)))

  hook_values :
      (state : LinkState) (s : Host B S)
      → (phase_of (on_link_state_changed p m state s)).stage ≡ (phase_of s).stage
  unfolding phase_of on_link_state_changed schedule
  hook_values awaiting_link s = ap Phase.stage (phase-new_session s)
  hook_values LinkState.disabled s = refl
  hook_values LinkState.setup s = refl
  hook_values LinkState.awaiting_sleeping s = refl
  hook_values linking s = refl
  hook_values linked s = refl

  hook_clear :
      (state : LinkState) (s : Host B S)
      → (phase_of s).encoder_stage ≡ all_clear
      → (phase_of (on_link_state_changed p m state s)).encoder_stage ≡ all_clear
  unfolding phase_of on_link_state_changed schedule
  hook_clear awaiting_link s h = ap Phase.encoder_stage (phase-new_session s)
  hook_clear LinkState.disabled s h = h
  hook_clear LinkState.setup s h = h
  hook_clear LinkState.awaiting_sleeping s h = h
  hook_clear linking s h = h
  hook_clear linked s h = h

  hook_encoder :
      (state : LinkState) (s : Host B S)
      → is_awaiting_link state ≡ false
      → (phase_of (on_link_state_changed p m state s)).encoder_stage ≡ (phase_of s).encoder_stage
  unfolding phase_of on_link_state_changed schedule
  hook_encoder awaiting_link s h = ground arith
  hook_encoder LinkState.disabled s h = refl
  hook_encoder LinkState.setup s h = refl
  hook_encoder LinkState.awaiting_sleeping s h = refl
  hook_encoder linking s h = refl
  hook_encoder linked s h = refl

  -- OnLinkStateChanged of the host keeps to what the machine asks of it.
  pub host-IsHook : IsHook p (housekeeping p.rssi_ring) m (on_link_state_changed p m)
  host-IsHook = record {
    hook_stage = hook_values;
    hook_clear = hook_clear;
    hook_encoder = hook_encoder;
  }

  -- The handshake of the host.
  module _ (s : Host B S) (a : is_awaiting_link s.client.info.link_state ≡ true) where
    broadcasting_goes : s.client.linking_state ≡ 0 → Goes (phase_of s) (on_broadcasting p m s)
    unfolding on_broadcasting broadcast_id phase_of
    broadcasting_goes e = after_client (client-send_after _ _ _ _) (
        choose (needs_new_session p m s)
          (λ n. goes (
            rests_awaiting a (ap Phase.link_state (phase-new_session s))
              (ap Phase.stage (phase-new_session s) ∙ e)
              (ap Phase.encoder_stage (phase-new_session s))))
          (λ n. here))

    validating_goes : s.client.linking_state ≡ 1 → Goes (phase_of s) (on_validating_partner p m s)
    unfolding on_validating_partner phase_of set_linking_state reset_last_sent_time_stamp schedule
        set_iv set_iv_data
    validating_goes e = goes (advance e (awaiting_stage _ 1 a refl))

    sending_goes : Goes (phase_of s) (on_sending_public_key p m s)
    unfolding on_sending_public_key
    sending_goes =
        choose (sub_state_expired p m s) (λ e. give_up-goes s a)
          (λ e. stays_client s (client-send_after _ _ _ s))

    got_goes : Goes (phase_of s) (on_got_shared_key p m s)
    unfolding on_got_shared_key
    got_goes =
        choose (sub_state_expired p m s) (λ e. give_up-goes s a)
          (λ e. stays_client s (client-send_after _ _ _ s))

    processing_goes : s.client.linking_state ≡ 3 → Goes (phase_of s) (on_processing_pkc p m s)
    unfolding on_processing_pkc phase_of set_linking_state reset_last_sent_time_stamp schedule
    processing_goes e =
        let lem = agree_on_key_lem p s.client in
        let agreed = record s { client = (agree_on_key p s.client).0 } in
        let state = ap LinkInfo.link_state lem.0 in
        elim (Bool-cases (agree_on_key p s.client).1) [
          | inl h ↦ rw h (goes (keys_awaiting a e state refl (lem.2 h)))
          | inr h ↦ rw h (
              goes (
                rests_awaiting a (ap Phase.link_state (phase-give_up agreed) ∙ state)
                  (ap Phase.stage (phase-give_up agreed))
                  (ap Phase.encoder_stage (phase-give_up agreed))))
        ]

    default_goes : Goes (phase_of s) (schedule run_asap (set_linking_state 0 s))
    unfolding phase_of set_linking_state reset_last_sent_time_stamp schedule
    default_goes = goes (restage a (omega arith))

    pub stage_goes : Goes (phase_of s) (on_awaiting_stage p m s.client.linking_state s)
    unfolding on_awaiting_stage
    stage_goes =
        let n = s.client.linking_state in
        choose (n == 0) (λ e. broadcasting_goes (==→≡ e))
          (λ e0.
            choose (n == 1) (λ e. validating_goes (==→≡ e))
              (λ e1.
                choose (n == 2) (λ e. sending_goes)
                  (λ e2.
                    choose (n == 3) (λ e. processing_goes (==→≡ e))
                      (λ e3.
                        choose (n == 4) (λ e. got_goes)
                          (λ e4.
                            choose (n == 5)
                              (λ e. goes (update-starts p _ m _ host-IsHook s a (==→≡ e)))
                              (λ e5. default_goes))))))
