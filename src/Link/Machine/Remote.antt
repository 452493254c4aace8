-- ===== src/Link/Machine/Remote.antt =====
-- The remote of src/Services/Link/LoLaLinkRemoteService.h moves along the machine.
pub mod Linking
pub mod Steps
use lo_la.Prelude.{
  ℕ, Bool, true, false, not, if◌then◌else◌, ◌≡◌, refl, sym, ◌∙◌, Bool-cases, inl, inr, ap, subst,
  ◌&&◌, ◌||◌, ltb, ◌==◌, u8, List, arith,
}
use lo_la.Crypto.Encoder.{all_clear, set_iv_data}
use lo_la.Crypto.Encoder
use lo_la.Crypto.KeyExchange.{set_partner_public_key}
use lo_la.Driver.State.{set_link_status, reset_live_data}
use lo_la.Packet.Buffer.{Packet}
use lo_la.Services.Send.{schedule}
use lo_la.Link.Info.{
  LinkInfo, LinkState, awaiting_link, awaiting_sleeping, linking, linked, set_session_id,
  set_partner_id, has_session, has_session_id,
}
use lo_la.Link.Info
use lo_la.Link.Service.{
  Platform, Moment, is_awaiting_link, is_linking, on_client, reset_last_sent_time_stamp,
}
use lo_la.Link.Service.Session.{set_linking_state, clear_session}
use lo_la.Link.Service.Runtime.{generate_keys}
use lo_la.Link.Host.Awaiting.{set_iv, agree_on_key}
use lo_la.Link.Remote.{
  RemoteLink, remote_housekeeping, on_remote_state_changed, search_again, update_remote_state,
}
use lo_la.Link.Remote.Awaiting.{
  remote_expired, on_searching, on_validating_host, on_awaiting_host_key, on_processing_shared_key,
  remote_on_sending_public_key, remote_awaiting_stage, take_broadcast, broadcast_in,
  on_id_broadcast_received, on_crypto_start_received, decodes_local_id, on_host_public_key_received,
}
use lo_la.Link.Machine.{Phase, Moves, stay, advance, restage, wake, rests_from}
use lo_la.Link.Machine.Steps.{
  phase_of, IsHook, client_stage, update-starts, update-rests, phase-update_rest,
}
use lo_la.Link.Machine.Kept.{
  Goes, goes, choose, here, stays, stays_client, kept, keys_awaiting, agree_on_key_lem,
  client-send_after, rests_awaiting, awaiting_stage, ==→≡,
}

module _ {B S : Type 0} (p : Platform B S) (m : Moment) where
  phase-search_again :
      (s : RemoteLink B S)
      → phase_of (search_again p m s) ≡ record (phase_of s) { stage = 0; encoder_stage = all_clear }
  unfolding phase_of search_again set_linking_state reset_last_sent_time_stamp schedule
      clear_session Info.reset Encoder.clear set_link_status reset_live_data
  phase-search_again s = refl

  search_again-goes :
      (s : RemoteLink B S)
      → is_awaiting_link s.client.info.link_state ≡ true
      → Goes (phase_of s) (search_again p m s)
  unfolding phase_of
  search_again-goes s a = goes (
      rests_awaiting a (ap Phase.link_state (phase-search_again s))
        (ap Phase.stage (phase-search_again s)) (ap Phase.encoder_stage (phase-search_again s)))

  phase-remote_state_changed :
      (state : LinkState) (s : RemoteLink B S)
      → phase_of (on_remote_state_changed p m state s) ≡ phase_of s
  unfolding phase_of on_remote_state_changed schedule generate_keys
  phase-remote_state_changed awaiting_link s = refl
  phase-remote_state_changed LinkState.disabled s = refl
  phase-remote_state_changed LinkState.setup s = refl
  phase-remote_state_changed awaiting_sleeping s = refl
  phase-remote_state_changed linking s = refl
  phase-remote_state_changed linked s = refl

  -- OnLinkStateChanged of the remote keeps to what the machine asks of it.
  pub remote-IsHook : IsHook p remote_housekeeping m (on_remote_state_changed p m)
  remote-IsHook = record {
    hook_stage = λ state s. ap Phase.stage (phase-remote_state_changed state s);
    hook_clear = λ state s h. ap Phase.encoder_stage (phase-remote_state_changed state s) ∙ h;
    hook_encoder = λ state s h. ap Phase.encoder_stage (phase-remote_state_changed state s);
  }

  pub remote_rests :
      (state : LinkState) (s : RemoteLink B S)
      → rests_from state s.client.info.link_state ≡ true
      → Goes (phase_of s) (update_remote_state p m state s)
  remote_rests state s h = goes (update-rests p _ m _ remote-IsHook state s h)

  -- The handshake of the remote.
  module _ (s : RemoteLink B S) (a : is_awaiting_link s.client.info.link_state ≡ true) where
    validating_goes : s.client.linking_state ≡ 1 → Goes (phase_of s) (on_validating_host p m s)
    unfolding on_validating_host phase_of set_linking_state reset_last_sent_time_stamp schedule
        set_iv set_iv_data
    validating_goes e = goes (advance e (awaiting_stage _ 1 a refl))

    host_key_goes : Goes (phase_of s) (on_awaiting_host_key p m s)
    unfolding on_awaiting_host_key
    host_key_goes =
        choose (remote_expired p m s) (λ e. search_again-goes s a)
          (λ e. stays_client s (client-send_after _ _ _ s))

    sending_goes : Goes (phase_of s) (remote_on_sending_public_key p m s)
    unfolding remote_on_sending_public_key
    sending_goes =
        choose (remote_expired p m s) (λ e. search_again-goes s a)
          (λ e. stays_client s (client-send_after _ _ _ s))

    processing_goes :
        s.client.linking_state ≡ 3 → Goes (phase_of s) (on_processing_shared_key p m s)
    unfolding on_processing_shared_key phase_of set_linking_state reset_last_sent_time_stamp
        schedule
    processing_goes e =
        let lem = agree_on_key_lem p s.client in
        let agreed = record s { client = (agree_on_key p s.client).0 } in
        let state = ap LinkInfo.link_state lem.0 in
        elim (Bool-cases (agree_on_key p s.client).1) [
          | inl h ↦ rw h (goes (keys_awaiting a e state refl (lem.2 h)))
          | inr h ↦ rw h (
              goes (
                rests_awaiting a (ap Phase.link_state (phase-search_again agreed) ∙ state)
                  (ap Phase.stage (phase-search_again agreed))
                  (ap Phase.encoder_stage (phase-search_again agreed))))
        ]

    pub remote_stage_goes : Goes (phase_of s) (remote_awaiting_stage p m s.client.linking_state s)
    unfolding remote_awaiting_stage on_searching
    remote_stage_goes =
        let n = s.client.linking_state in
        choose (n == 0) (λ e. stays_client s (client-send_after _ _ _ s))
          (λ e0.
            choose (n == 1) (λ e. validating_goes (==→≡ e))
              (λ e1.
                choose (n == 2) (λ e. host_key_goes)
                  (λ e2.
                    choose (n == 3) (λ e. processing_goes (==→≡ e))
                      (λ e3.
                        choose (n == 4) (λ e. sending_goes)
                          (λ e4.
                            choose (n == 5)
                              (λ e. goes (update-starts p _ m _ remote-IsHook s a (==→≡ e)))
                              (λ e5. here))))))

    -- SetLinkingState of ValidatingPartner, after a session was taken or refused.
    pub remote_crypto_goes :
        (id : ℕ) (packet : Packet) → Goes (phase_of s) (on_crypto_start_received p m id packet s).0
    unfolding on_crypto_start_received phase_of set_linking_state reset_last_sent_time_stamp
        schedule
    remote_crypto_goes id packet =
        elim (Bool-cases (
          s.client.linking_state == 4
          && has_session_id s.client.info
          && s.client.info.session_id == id
          && decodes_local_id p m packet s)) [
            | inl e ↦ rw e (goes (advance {n = 4} (ground arith) (awaiting_stage _ 4 a refl)))
            | inr e ↦ rw e (stays s refl)
          ]

  -- A broadcast that is taken begins the second stage.
  take_broadcast_goes :
      {x : Phase} (s : RemoteLink B S) (id host : ℕ)
      → Goes x s
      → Moves x (record (phase_of s) { stage = 1 })
      → Goes x (take_broadcast p m id host s)
  unfolding take_broadcast phase_of set_linking_state reset_last_sent_time_stamp schedule
      set_session_id set_partner_id
  take_broadcast_goes s id host still begun =
      let n = s.client.linking_state in
      let taken = not (u8 id == 0) in
      choose (n == 0)
        (λ e.
          choose (not (has_session s.client.info))
            (λ f. elim (Bool-cases taken) [
              | inl t ↦ rw t (goes begun)
              | inr t ↦ rw t (kept {s = s} refl still)
            ])
            (λ f. still))
        (λ e.
          choose (n == 1 || n == 2)
            (λ f.
              choose (has_session s.client.info && s.client.info.partner_id == host)
                (λ g. elim (Bool-cases taken) [
                  | inl t ↦ rw t (goes begun)
                  | inr t ↦ rw t (kept {s = s} refl still)
                ])
                (λ g. still))
            (λ f. still))

  -- A packet wakes a sleeping remote.
  awoken :
      (s : RemoteLink B S)
      → s.client.info.link_state ≡ awaiting_sleeping
      → phase_of (update_remote_state p m awaiting_link s)
        ≡ record { link_state = awaiting_link; stage = 0; encoder_stage = all_clear }
  awoken s e = phase-update_rest p _ m _ remote-IsHook awaiting_link s refl (rw e refl)

  broadcast_in_goes :
      (state : LinkState) (id host : ℕ) (s : RemoteLink B S)
      → s.client.info.link_state ≡ state
      → Goes (phase_of s) (broadcast_in p m state id host s)
  unfolding broadcast_in phase_of
  broadcast_in_goes awaiting_sleeping id host s e =
      let woken = sym (awoken s e) in
      take_broadcast_goes (update_remote_state p m awaiting_link s) id host
        (goes (subst (λ y. Moves (phase_of s) y) woken (wake e (omega arith))))
        (subst (λ y. Moves (phase_of s) (record y { stage = 1 })) woken (wake e (omega arith)))
  broadcast_in_goes awaiting_link id host s e =
      take_broadcast_goes s id host here (restage {n = 1} (ap is_awaiting_link e) (omega arith))
  broadcast_in_goes LinkState.disabled id host s e = here
  broadcast_in_goes LinkState.setup id host s e = here
  broadcast_in_goes linking id host s e = here
  broadcast_in_goes linked id host s e = here

  pub remote_broadcast_goes :
      (id host : ℕ) (s : RemoteLink B S)
      → Goes (phase_of s) (on_id_broadcast_received p m id host s)
  unfolding on_id_broadcast_received
  remote_broadcast_goes id host s = broadcast_in_goes s.client.info.link_state id host s refl

module _ {B S : Type 0} where
  pub remote_host_key_goes :
      (i : ℕ) (k : List ℕ) (s : RemoteLink B S)
      → Goes (phase_of s) (on_host_public_key_received i k s)
  unfolding on_host_public_key_received set_linking_state reset_last_sent_time_stamp schedule
      phase_of
  remote_host_key_goes i k s =
      choose
        (is_awaiting_link s.client.info.link_state
          && s.client.linking_state == 2
          && has_session s.client.info
          && s.client.info.session_id == i)
        (λ e. elim (Bool-cases (set_partner_public_key k s.client.exchanger).1) [
          | inl f ↦ rw f (
              goes (
                advance {n = 2} (ground arith)
                  (awaiting_stage s.client.info.link_state 2 (ground arith) refl)))
          | inr f ↦ rw f (stays s refl)
        ])
        (λ e. stays s refl)
