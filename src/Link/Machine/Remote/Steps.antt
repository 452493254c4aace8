-- ===== src/Link/Machine/Remote/Steps.antt =====
-- Every call of the base classes moves the remote of src/Services/Link/LoLaLinkRemoteService.h along
-- the machine, so its link is secured at all times.
use lo_la.Prelude.{
  false, ℕ, true, ◌≡◌, refl, ◌==◌, ◌&&◌, ◌||◌, ltb, List, subst, sym, Bool-cases, inl, inr, arith,
}
use lo_la.Crypto.Encoder.{encode, encrypt_block}
use lo_la.Packet.Definition.{header_short, header_ping_with_ack}
use lo_la.Packet.Buffer.{get_data_header, get_payload}
use lo_la.Link.Info.{disabled, setup}
use lo_la.Link.Service.{
  Platform, Moment, is_awaiting_link, takes_pings, on_ack_received,
  get_elapsed_millis_since_state_start,
}
use lo_la.Link.Service.Builders.{ntp_request, ntp_tune_request}
use lo_la.Link.Service.Runtime.{on_enable, on_disable}
use lo_la.Link.Host.Runs.{
  LinkEvent, served, pre_sent, failed, enabled, stopped, sent, received, acked, acknowledged,
}
use lo_la.Link.Remote.{RemoteLink, remote_on_pre_send, update_remote_state}
use lo_la.Link.Remote.Awaiting.{remote_on_awaiting_link, remote_max_before_sleep}
use lo_la.Link.Remote.Linking.{on_acked_packet_received}
use lo_la.Link.Remote.Runs.{remote_step, remote_handlers, remote_routines}
use lo_la.Link.Machine.{Moves, IsSecured, moves-IsSecured, disabled-IsSecured}
use lo_la.Link.Machine.Steps.{phase_of, KeepsEncoder, update-halts}
use lo_la.Link.Machine.Kept.{Goes, goes, choose, stays, here}
use lo_la.Link.Machine.Service.{
  service-goes, on_send_ok-goes, on_send_failed-goes, process_acked_packet-goes,
}
use lo_la.Link.Machine.Process.{HandlersGo, process_packet-goes}
use lo_la.Link.Machine.Remote.{
  remote-IsHook, remote_rests, remote_stage_goes, remote_broadcast_goes, remote_host_key_goes,
}
use lo_la.Link.Machine.Remote.Linking.{
  remote_linking_goes, remote_keeping_goes, host_info_goes, clock_response_goes, remote_acked_goes,
  info_request_goes, tune_response_goes,
}

module _ {B S : Type 0} (p : Platform B S) (m : Moment) where
  handlers_go : HandlersGo (remote_handlers p m)
  handlers_go = record {
    discovery_goes = λ s. here;
    pkc_goes = λ i w s. here;
    remote_key_goes = λ i k s. here;
    remote_info_goes = λ r s. here;
    info_request_goes = info_request_goes;
    clock_request_goes = λ i w s. here;
    tune_request_goes = λ i w s. here;
    broadcast_goes = remote_broadcast_goes p m;
    host_key_goes = remote_host_key_goes;
    host_info_goes = host_info_goes p m;
    clock_response_goes = clock_response_goes p m;
    tune_response_goes = tune_response_goes;
  }

  awaits :
      (s : RemoteLink B S)
      → is_awaiting_link s.client.info.link_state ≡ true
      → Goes (phase_of s) (remote_on_awaiting_link p m s).0
  unfolding remote_on_awaiting_link
  awaits s a =
      elim (Bool-cases
        (ltb remote_max_before_sleep (get_elapsed_millis_since_state_start m.millis s.client))) [
          | inl e ↦ rw e here
          | inr e ↦ rw e (remote_stage_goes p m s a)
        ]

  sleeps :
      (s : RemoteLink B S)
      → (remote_on_awaiting_link p m s).1 ≡ false
      → (remote_on_awaiting_link p m s).0 ≡ s
  unfolding remote_on_awaiting_link
  sleeps s h = ground (arith, h)

  pre_send_goes : (s : RemoteLink B S) → Goes (phase_of s) (remote_on_pre_send m s)
  unfolding remote_on_pre_send phase_of
  pre_send_goes s =
      choose
        (get_data_header s.packet == header_short
          && (get_payload 0 s.packet == ntp_request || get_payload 0 s.packet == ntp_tune_request))
        (λ e. stays s refl) (λ e. stays s refl)

  step_goes :
      KeepsEncoder p
      → (event : LinkEvent) (s : RemoteLink B S) → Goes (phase_of s) (remote_step p m event s)
  unfolding remote_step on_ack_received on_enable on_disable
  step_goes keeps served s =
      service-goes p m (remote_routines p m) (update_remote_state p m) (remote_rests p m) awaits
        sleeps (remote_linking_goes p m keeps) (remote_keeping_goes p m) s
  step_goes keeps pre_sent s = pre_send_goes s
  step_goes keeps failed s = on_send_failed-goes s
  step_goes keeps enabled s = remote_rests p m setup s refl
  step_goes keeps stopped s = goes (update-halts p _ m _ (remote-IsHook p m) s)
  step_goes keeps (sent header) s = on_send_ok-goes m header s
  step_goes keeps (received packet) s =
      process_packet-goes (remote_handlers p m) handlers_go p.rssi_ring m.millis packet s
  step_goes keeps (acked packet) s =
      process_acked_packet-goes (on_acked_packet_received p m) (remote_acked_goes p m) packet s
  step_goes keeps (acknowledged header id) s =
      choose (header == header_ping_with_ack) (λ e. here) (λ e. here)

  -- Every call of the remote makes at most one move of the machine, if the services that are told of
  -- the link leave the encoder's stage as it is. A stage of the handshake or of Linking leads to the
  -- next one only, or, in the handshake, back to the first two; the stage behind 3 is entered with a
  -- key alone; Linking begins only from the stage 5, where the encoder is enabled, and Linked only
  -- from the stage 3 of Linking. All else clears the session and enters Setup, AwaitingLink, from
  -- any state but Disabled, or AwaitingSleeping, from AwaitingLink; from AwaitingSleeping it may go
  -- straight to the second stage of AwaitingLink; or it disables the link.
  pub remote_step-moves :
      KeepsEncoder p
      → (event : LinkEvent) (s : RemoteLink B S)
      → Moves (phase_of s) (phase_of (remote_step p m event s))
  remote_step-moves keeps event s = (step_goes keeps event s).moves

-- What a remote comes to: by its calls, at any time and in any order, and by what the driver and the
-- other services do without a change of the three values.
pub data RemoteReaches {B S : Type 0} (p : Platform B S) (s : RemoteLink B S)
    : RemoteLink B S → Type 0 where
  begin : RemoteReaches p s s
  by_event :
      {t : RemoteLink B S} (m : Moment) (event : LinkEvent)
      → RemoteReaches p s t
      → RemoteReaches p s (remote_step p m event t)
  by_others :
      {t u : RemoteLink B S} → RemoteReaches p s t → phase_of u ≡ phase_of t → RemoteReaches p s u

module _ {B S : Type 0} (p : Platform B S) (keeps : KeepsEncoder p) where
  reached-IsSecured :
      {s t : RemoteLink B S} → RemoteReaches p s t → IsSecured (phase_of s) → IsSecured (phase_of t)
  reached-IsSecured begin h = h
  reached-IsSecured (by_event {t} m event r) h =
      moves-IsSecured (remote_step-moves p m keeps event t) (reached-IsSecured r h)
  reached-IsSecured (by_others r e) h = subst IsSecured (sym e) (reached-IsSecured r h)

  -- However a remote came to its state from Disabled, while it is in Linking or Linked all that its
  -- driver encodes is encrypted, if the services that are told of the link leave the encoder's stage
  -- as it is.
  pub remote_link_is_encrypted :
      (s t : RemoteLink B S)
      → s.client.info.link_state ≡ disabled
      → RemoteReaches p s t
      → takes_pings t.client.info.link_state ≡ true
      → (message : List ℕ)
      → (encode p.crypto t.client.node.driver.encoder message).0
        ≡ encrypt_block p.crypto t.client.node.driver.encoder message
  unfolding encode phase_of
  remote_link_is_encrypted s t d r linked message =
      let secured = reached-IsSecured r (disabled-IsSecured (phase_of s) d) in
      rw (secured.enciphers linked) refl
