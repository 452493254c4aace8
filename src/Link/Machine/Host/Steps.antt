-- ===== src/Link/Machine/Host/Steps.antt =====
-- Every call of the base classes moves the host of src/Services/Link/LoLaLinkHostService.h along the
-- machine, so its link is secured at all times.
use lo_la.Prelude.{
  ℕ, true, false, ◌≡◌, refl, ◌==◌, ◌&&◌, ltb, List, subst, sym, Bool-cases, inl, inr, arith,
}
use lo_la.Crypto.Encoder.{encode, encrypt_block}
use lo_la.Packet.Definition.{header_ping_with_ack}
use lo_la.Packet.Buffer.{get_data_header}
use lo_la.Link.Info.{LinkState, disabled, setup}
use lo_la.Link.Service.{
  Platform, Moment, is_awaiting_link, is_linking, takes_pings, on_ack_received,
  get_elapsed_millis_since_state_start,
}
use lo_la.Link.Service.Runtime.{on_enable, on_disable}
use lo_la.Link.Host.{Host, on_pre_send, update_host_state, info_sync_stage}
use lo_la.Link.Host.Awaiting.{on_awaiting_link, host_max_before_sleep}
use lo_la.Link.Host.Runs.{
  LinkEvent, served, pre_sent, failed, enabled, stopped, sent, received, acked, acknowledged,
  host_step, host_handlers, host_routines,
}
use lo_la.Link.Machine.{Moves, IsSecured, rests_from, moves-IsSecured, disabled-IsSecured}
use lo_la.Link.Machine.Steps.{phase_of, KeepsEncoder, update-rests, update-halts}
use lo_la.Link.Machine.Kept.{Goes, goes, choose, stays, here}
use lo_la.Link.Machine.Service.{
  service-goes, on_send_ok-goes, on_send_failed-goes, process_acked_packet-goes,
}
use lo_la.Link.Machine.Process.{HandlersGo, process_packet-goes}
use lo_la.Link.Machine.Host.{host-IsHook, stage_goes}
use lo_la.Link.Machine.Host.Linking.{
  linking_goes, keeping_goes, ping_goes, ack_goes, pkc_goes, remote_key_goes, discovery_goes,
  remote_info_goes, clock_request_goes, tune_request_goes,
}

module _ {B S : Type 0} (p : Platform B S) (m : Moment) where
  handlers_go : HandlersGo (host_handlers p m)
  handlers_go = record {
    discovery_goes = discovery_goes;
    pkc_goes = pkc_goes;
    remote_key_goes = remote_key_goes;
    remote_info_goes = remote_info_goes p m;
    info_request_goes = λ s. here;
    clock_request_goes = clock_request_goes p m;
    tune_request_goes = tune_request_goes p m;
    broadcast_goes = λ i w s. here;
    host_key_goes = λ i k s. here;
    host_info_goes = λ r t s. here;
    clock_response_goes = λ i w s. here;
    tune_response_goes = λ i w s. here;
  }

  awaits :
      (s : Host B S)
      → is_awaiting_link s.client.info.link_state ≡ true
      → Goes (phase_of s) (on_awaiting_link p m s).0
  unfolding on_awaiting_link
  awaits s a =
      elim (Bool-cases
        (ltb host_max_before_sleep (get_elapsed_millis_since_state_start m.millis s.client))) [
          | inl e ↦ rw e here
          | inr e ↦ rw e (stage_goes p m s a)
        ]

  sleeps : (s : Host B S) → (on_awaiting_link p m s).1 ≡ false → (on_awaiting_link p m s).0 ≡ s
  unfolding on_awaiting_link
  sleeps s h = ground (arith, h)

  rests :
      (state : LinkState) (s : Host B S)
      → rests_from state s.client.info.link_state ≡ true
      → Goes (phase_of s) (update_host_state p m state s)
  rests state s h = goes (update-rests p _ m _ (host-IsHook p m) state s h)

  pre_send_goes : (s : Host B S) → Goes (phase_of s) (on_pre_send p m s)
  unfolding on_pre_send phase_of
  pre_send_goes s =
      choose
        (is_linking s.client.info.link_state
          && s.client.linking_state == info_sync_stage
          && get_data_header s.packet == header_ping_with_ack)
        (λ e. stays s refl) (λ e. stays s refl)

  step_goes :
      KeepsEncoder p
      → (event : LinkEvent) (s : Host B S) → Goes (phase_of s) (host_step p m event s)
  unfolding host_step on_ack_received on_enable on_disable
  step_goes keeps served s =
      service-goes p m (host_routines p m) (update_host_state p m) rests awaits sleeps
        (linking_goes p m keeps) (keeping_goes p m) s
  step_goes keeps pre_sent s = pre_send_goes s
  step_goes keeps failed s = on_send_failed-goes s
  step_goes keeps enabled s = rests setup s refl
  step_goes keeps stopped s = goes (update-halts p _ m _ (host-IsHook p m) s)
  step_goes keeps (sent header) s = on_send_ok-goes m header s
  step_goes keeps (received packet) s =
      process_packet-goes (host_handlers p m) handlers_go p.rssi_ring m.millis packet s
  step_goes keeps (acked packet) s =
      process_acked_packet-goes (λ packet' s'. (s', false)) (λ packet' s'. here) packet s
  step_goes keeps (acknowledged header id) s =
      choose (header == header_ping_with_ack) (λ e. ping_goes p m id s) (λ e. ack_goes header id s)

  -- Every call of the host makes at most one move of the machine, if the services that are told of
  -- the link leave the encoder's stage as it is. A stage of the handshake or of Linking leads to the
  -- next one only, or, in the handshake, back to the first two; the stage behind 3 is entered with a
  -- key alone; Linking begins only from the stage 5, where the encoder is enabled, and Linked only
  -- from the stage 3 of Linking. All else clears the session and enters Setup, AwaitingLink, from
  -- any state but Disabled, or AwaitingSleeping, from AwaitingLink; from AwaitingSleeping it may go
  -- straight to the second stage of AwaitingLink; or it disables the link.
  pub host_step-moves :
      KeepsEncoder p
      → (event : LinkEvent) (s : Host B S) → Moves (phase_of s) (phase_of (host_step p m event s))
  host_step-moves keeps event s = (step_goes keeps event s).moves

-- What a host comes to: by its calls, at any time and in any order, and by what the driver and the
-- other services do without a change of the three values.
pub data HostReaches {B S : Type 0} (p : Platform B S) (s : Host B S) : Host B S → Type 0 where
  begin : HostReaches p s s
  by_event :
      {t : Host B S} (m : Moment) (event : LinkEvent)
      → HostReaches p s t
      → HostReaches p s (host_step p m event t)
  by_others : {t u : Host B S} → HostReaches p s t → phase_of u ≡ phase_of t → HostReaches p s u

module _ {B S : Type 0} (p : Platform B S) (keeps : KeepsEncoder p) where
  reached-IsSecured :
      {s t : Host B S} → HostReaches p s t → IsSecured (phase_of s) → IsSecured (phase_of t)
  reached-IsSecured begin h = h
  reached-IsSecured (by_event {t} m event r) h =
      moves-IsSecured (host_step-moves p m keeps event t) (reached-IsSecured r h)
  reached-IsSecured (by_others r e) h = subst IsSecured (sym e) (reached-IsSecured r h)

  -- However a host came to its state from Disabled, while it is in Linking or Linked all that its
  -- driver encodes is encrypted, if the services that are told of the link leave the encoder's stage
  -- as it is.
  pub host_link_is_encrypted :
      (s t : Host B S)
      → s.client.info.link_state ≡ disabled
      → HostReaches p s t
      → takes_pings t.client.info.link_state ≡ true
      → (message : List ℕ)
      → (encode p.crypto t.client.node.driver.encoder message).0
        ≡ encrypt_block p.crypto t.client.node.driver.encoder message
  unfolding encode phase_of
  host_link_is_encrypted s t d r linked message =
      let secured = reached-IsSecured r (disabled-IsSecured (phase_of s) d) in
      rw (secured.enciphers linked) refl
