-- ===== src/Link/Machine/Remote/Linking.antt =====
-- The remote of src/Services/Link/LoLaLinkRemoteService.h moves along the machine while it links
-- and is linked.
use lo_la.Prelude.{ℕ, true, not, ◌≡◌, refl, ◌&&◌, ◌||◌, ltb, ◌==◌, ap, Bool-cases, inl, inr, arith}
use lo_la.Packet.Definition.{header_short_with_ack}
use lo_la.Packet.Buffer.{Packet, get_data_header, get_id}
use lo_la.Driver.State.{set_ettm}
use lo_la.Services.Send.{schedule}
use lo_la.Link.Info.{
  LinkState, disabled, setup, awaiting_link, awaiting_sleeping, linking, linked, is_linked, set_rtt,
  set_partner_rssi_normalized, stamp_clock_sync_adjustment,
}
use lo_la.Link.Transaction.{is_requested, is_result_waiting, is_fresh, set_result}
use lo_la.Link.ClockSync.Remote.{is_time_to_tune}
use lo_la.Link.Service.{
  Platform, Moment, is_awaiting_link, is_linking, reset_last_sent_time_stamp,
  get_elapsed_millis_since_last_sent, on_client,
}
use lo_la.Link.Service.Builders.{get_word}
use lo_la.Link.Service.Session.{set_linking_state}
use lo_la.Link.Service.Runtime.{max_before_linking_cancel}
use lo_la.Link.Host.Awaiting.{resend_period}
use lo_la.Link.Remote.{RemoteLink}
use lo_la.Link.Remote.Linking.{
  remote_on_info_sync, request_clock_sync, take_estimate, remote_on_clock_sync, finish_linking,
  after_info_sync, acked_in, remote_on_linking, note_tune_error, remote_on_keeping_link,
  on_host_info_sync_received, on_clock_sync_response_received, on_link_protocol_received,
  on_acked_packet_received, on_host_info_sync_request_received,
  on_clock_sync_tune_response_received,
}
use lo_la.Link.Machine.{linking_rests, Phase, advance}
use lo_la.Link.Machine.Steps.{phase_of, KeepsEncoder, update-establishes}
use lo_la.Link.Machine.Kept.{
  Goes, goes, choose, stays, stays_client, here, sends, waits, linking_stage, client-send_after,
  ==→≡,
}
use lo_la.Link.Machine.Remote.{remote-IsHook, remote_rests, remote_crypto_goes}

module _ {B S : Type 0} (p : Platform B S) (m : Moment) where
  requests :
      {x : Phase} (sub_header : ℕ) (s : RemoteLink B S)
      → Goes x s
      → Goes x (request_clock_sync p m sub_header s)
  unfolding request_clock_sync phase_of
  requests sub_header s g = sends m.millis _ (record { moves = g.moves })

  info_sync_goes :
      (s : RemoteLink B S)
      → is_linking s.client.info.link_state ≡ true
      → s.client.linking_state ≡ 0
      → Goes (phase_of s) (after_info_sync p m (remote_on_info_sync p m s))
  unfolding remote_on_info_sync after_info_sync schedule set_linking_state
      reset_last_sent_time_stamp phase_of
  info_sync_goes s a e =
      let stage = s.client.info_sync_stage in
      elim (Bool-cases (stage == 0)) [
        | inl f ↦ rw f (waits here)
        | inr f ↦ rw f (elim (Bool-cases (stage == 1)) [
          | inl g ↦ rw g (stays_client s (client-send_after _ _ _ s))
          | inr g ↦ rw g (elim (Bool-cases (stage == 2)) [
            | inl h ↦ rw h (goes (advance e (linking_stage _ 0 a refl)))
            | inr h ↦ rw h here
          ])
        ])
      ]

  estimate_goes : (s : RemoteLink B S) → Goes (phase_of s) (take_estimate p m s)
  unfolding take_estimate schedule phase_of
  estimate_goes s =
      choose (is_result_waiting s.client.part.request) (λ e. stays s refl) (λ e. stays s refl)

  clock_sync_goes : (s : RemoteLink B S) → Goes (phase_of s) (remote_on_clock_sync p m s)
  unfolding remote_on_clock_sync
  clock_sync_goes s =
      let taken = take_estimate p m s in
      let request = taken.client.part.request in
      choose
        ((not (is_requested request) || not (is_fresh m.millis max_before_linking_cancel request))
          && ltb resend_period (get_elapsed_millis_since_last_sent m.millis taken.client))
        (λ e. requests _ taken (estimate_goes s)) (λ e. waits (estimate_goes s))

  tuned :
      (error : ℕ) (s : RemoteLink B S)
      → phase_of (on_client (note_tune_error p m error) s) ≡ phase_of s
  unfolding note_tune_error phase_of stamp_clock_sync_adjustment
  tuned error s = ground arith

  pub remote_keeping_goes : (s : RemoteLink B S) → Goes (phase_of s) (remote_on_keeping_link p m s)
  unfolding remote_on_keeping_link schedule phase_of
  remote_keeping_goes s =
      let request = s.client.part.request in
      choose (is_result_waiting request) (λ e. stays s (tuned request.result s))
        (λ e.
          choose (is_time_to_tune m.millis s.client.syncer && not (is_requested request))
            (λ f. requests _ s here) (λ f. stays s refl))

  pub remote_linking_goes :
      KeepsEncoder p
      → (s : RemoteLink B S) → is_linking s.client.info.link_state ≡ true
      → Goes (phase_of s) (remote_on_linking p m s)
  unfolding remote_on_linking finish_linking phase_of set_linking_state reset_last_sent_time_stamp
      schedule
  remote_linking_goes keeps s a =
      let n = s.client.linking_state in
      choose (n == 0) (λ e. info_sync_goes s a (==→≡ e))
        (λ e.
          choose (n == 1) (λ e. clock_sync_goes s)
            (λ e.
              choose (n == 2) (λ e. goes (advance (==→≡ e) (linking_stage _ 2 a refl)))
                (λ e.
                  choose (n == 3)
                    (λ e. goes (update-establishes p _ m _ (remote-IsHook p m) keeps s a (==→≡ e)))
                    (λ e. remote_rests p m awaiting_link s (linking_rests _ a)))))

  pub host_info_goes :
      (rssi rtt : ℕ) (s : RemoteLink B S)
      → Goes (phase_of s) (on_host_info_sync_received p m rssi rtt s)
  unfolding on_host_info_sync_received set_rtt set_ettm set_partner_rssi_normalized phase_of
      schedule
  host_info_goes rssi rtt s =
      choose
        (is_linking s.client.info.link_state
          && s.client.linking_state == 0
          && s.client.info_sync_stage == 1)
        (λ e. stays s refl) (λ e. stays s refl)

  pub clock_response_goes :
      (i w : ℕ) (s : RemoteLink B S) → Goes (phase_of s) (on_clock_sync_response_received p m i w s)
  unfolding on_clock_sync_response_received phase_of schedule
  clock_response_goes i w s =
      let request = s.client.part.request in
      choose
        (is_linking s.client.info.link_state
          && s.client.linking_state == 1
          && is_requested request
          && is_fresh m.millis max_before_linking_cancel request)
        (λ e. choose (set_result i w request).1 (λ f. stays s refl) (λ f. stays s refl))
        (λ e. stays s refl)

  protocol_goes :
      (i w : ℕ) (s : RemoteLink B S) → Goes (phase_of s) (on_link_protocol_received p m i w s).0
  unfolding on_link_protocol_received phase_of set_linking_state reset_last_sent_time_stamp schedule
  protocol_goes i w s =
      elim (Bool-cases (
        is_linking s.client.info.link_state
        && s.client.linking_state == 1
        && s.client.info.session_id == i
        && p.local_id == w)) [
          | inl e ↦ rw e (
              goes (
                advance {n = 1} (ground arith)
                  (linking_stage s.client.info.link_state 1 (ground arith) refl)))
          | inr e ↦ rw e (stays s refl)
        ]

  acked_in_goes :
      (state : LinkState) (packet : Packet) (s : RemoteLink B S)
      → s.client.info.link_state ≡ state
      → Goes (phase_of s) (acked_in p m state packet s).0
  unfolding acked_in
  acked_in_goes awaiting_link packet s e =
      remote_crypto_goes p m s (ap is_awaiting_link e) (get_id packet) packet
  acked_in_goes linking packet s e = protocol_goes (get_id packet) (get_word 0 packet) s
  acked_in_goes disabled packet s e = here
  acked_in_goes setup packet s e = here
  acked_in_goes awaiting_sleeping packet s e = here
  acked_in_goes linked packet s e = here

  pub remote_acked_goes :
      (packet : Packet) (s : RemoteLink B S)
      → Goes (phase_of s) (on_acked_packet_received p m packet s).0
  unfolding on_acked_packet_received
  remote_acked_goes packet s = elim (Bool-cases (get_data_header packet == header_short_with_ack)) [
    | inl e ↦ rw e (acked_in_goes s.client.info.link_state packet s refl)
    | inr e ↦ rw e here
  ]

module _ {B S : Type 0} where
  pub info_request_goes :
      (s : RemoteLink B S) → Goes (phase_of s) (on_host_info_sync_request_received s)
  unfolding on_host_info_sync_request_received phase_of schedule
  info_request_goes s =
      choose
        (is_linking s.client.info.link_state
          && s.client.linking_state == 0
          && s.client.info_sync_stage == 0)
        (λ e. stays s refl) (λ e. stays s refl)

  pub tune_response_goes :
      (i w : ℕ) (s : RemoteLink B S)
      → Goes (phase_of s) (on_clock_sync_tune_response_received i w s)
  unfolding on_clock_sync_tune_response_received phase_of schedule
  tune_response_goes i w s =
      choose (is_linked s.client.info.link_state && is_requested s.client.part.request)
        (λ e. stays s refl) (λ e. stays s refl)
