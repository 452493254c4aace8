-- ===== src/Link/Machine/Host/Linking.antt =====
-- The host of src/Services/Link/LoLaLinkHostService.h moves along the machine while it links and is
-- linked, and with every packet and acknowledgement.
use lo_la.Prelude.{
  ℕ, true, not, ◌≡◌, refl, ◌&&◌, ◌||◌, ltb, ◌==◌, List, Bool-cases, inl, inr, arith,
}
use lo_la.Packet.Definition.{header_short_with_ack}
use lo_la.Driver.State.{set_ettm}
use lo_la.Services.Send.{schedule}
use lo_la.Link.Info.{
  awaiting_link, is_linked, has_partner_rssi, set_rtt, set_partner_rssi_normalized,
  stamp_clock_sync_adjustment, set_partner_id,
}
use lo_la.Link.ClockSync.Host.{is_synced}
use lo_la.Link.Service.{
  Platform, Moment, is_awaiting_link, is_linking, is_awaiting_sleeping, check_again,
  reset_last_sent_time_stamp, get_elapsed_millis_since_last_sent, on_client,
}
use lo_la.Link.Service.Session.{set_linking_state}
use lo_la.Link.Host.{Host}
use lo_la.Link.Host.Awaiting.{
  expects, on_pkc_request_received, on_remote_public_key_received, on_link_discovery_received,
}
use lo_la.Link.Latency
use lo_la.Crypto.KeyExchange.{set_partner_public_key}
use lo_la.Link.Host.Linking.{
  has_samples, take_latency, measure_latency, request_info, send_host_info, on_info_sync,
  answer_clock_sync, on_clock_sync, on_estimate_kept, on_clock_sync_request_received,
  on_clock_sync_tune_request_received, keep_estimate, on_remote_info_sync_received,
  on_ping_ack_received, on_link_ack_received, on_linking, on_keeping_link, note_tuning,
  ping_resend_period_max,
}
use lo_la.Link.Machine.{linking_rests, Phase, advance}
use lo_la.Link.Machine.Steps.{phase_of, KeepsEncoder, update-rests, update-establishes}
use lo_la.Link.Machine.Kept.{
  Goes, goes, choose, here, stays, stays_client, sends, then_goes, linking_stage, awaiting_stage,
  client-send_after, ==→≡,
}
use lo_la.Link.Machine.Host.{host-IsHook}

module _ {B S : Type 0} (p : Platform B S) (m : Moment) where
  answer_goes :
      {x : Phase} (sub_header : ℕ) (s : Host B S)
      → Goes x s
      → Goes x (answer_clock_sync p m sub_header s)
  unfolding answer_clock_sync phase_of
  answer_goes sub_header s g = sends m.millis _ (record { moves = g.moves })

  info_sync_goes : (s : Host B S) → Goes (phase_of s) (on_info_sync p m s)
  unfolding on_info_sync measure_latency request_info send_host_info take_latency phase_of schedule
      set_rtt set_ettm check_again
  info_sync_goes s =
      let n = s.client.info_sync_stage in
      choose (n == 0)
        (λ e.
          choose (has_samples p m s) (λ e. stays s refl)
            (λ e.
              choose
                (s.client.part.ping_acked
                  || ltb ping_resend_period_max
                      (get_elapsed_millis_since_last_sent m.millis s.client))
                (λ e. sends m.millis _ (stays s refl)) (λ e. stays s refl)))
        (λ e.
          choose (n == 1)
            (λ e.
              choose (has_partner_rssi p.rssi_ring s.client.info) (λ e. stays s refl)
                (λ e. stays_client s (client-send_after _ _ _ s)))
            (λ e.
              choose (n == 2) (λ e. stays_client s (client-send_after _ _ _ s))
                (λ e. stays s refl)))

  clock_sync_goes : (s : Host B S) → Goes (phase_of s) (on_clock_sync p m s)
  unfolding on_clock_sync check_again schedule phase_of
  clock_sync_goes s =
      choose s.client.part.response.response_ready (λ e. answer_goes _ _ (stays s refl))
        (λ e. stays s refl)

  noted : (error : ℕ) (s : Host B S) → phase_of (on_client (note_tuning p m error) s) ≡ phase_of s
  unfolding note_tuning phase_of stamp_clock_sync_adjustment
  noted error s = ground arith

  pub keeping_goes : (s : Host B S) → Goes (phase_of s) (on_keeping_link p m s)
  unfolding on_keeping_link schedule phase_of
  keeping_goes s =
      choose s.client.part.response.response_ready
        (λ e. answer_goes _ _ (stays s (noted s.client.part.response.response_result s)))
        (λ e. stays s refl)

  module _ (keeps : KeepsEncoder p) where
    pub linking_goes :
        (s : Host B S)
        → is_linking s.client.info.link_state ≡ true
        → Goes (phase_of s) (on_linking p m s)
    unfolding on_linking phase_of set_linking_state reset_last_sent_time_stamp schedule
    linking_goes s a =
        let n = s.client.linking_state in
        choose (n == 0) (λ e. info_sync_goes s)
          (λ e.
            choose (n == 1)
              (λ e.
                choose (is_synced s.client.syncer)
                  (λ f. goes (advance (==→≡ e) (linking_stage _ 1 a refl)))
                  (λ f. clock_sync_goes s))
              (λ e.
                choose (n == 2) (λ e. stays_client s (client-send_after _ _ _ s))
                  (λ e.
                    choose (n == 3)
                      (λ e. goes (update-establishes p _ m _ (host-IsHook p m) keeps s a (==→≡ e)))
                      (λ e. goes (
                        update-rests p _ m _ (host-IsHook p m) awaiting_link s
                          (linking_rests _ a))))))

  estimate_goes :
      {x : Phase} (s : Host B S)
      → is_linking s.client.info.link_state ≡ true
      → phase_of s ≡ x
      → Goes x (on_estimate_kept p m s)
  unfolding on_estimate_kept phase_of schedule set_linking_state reset_last_sent_time_stamp
  estimate_goes s a g =
      let n = s.client.linking_state in
      choose (n == 0)
        (λ e.
          choose (has_samples p m s && has_partner_rssi p.rssi_ring s.client.info)
            (λ f. then_goes g (goes (advance (==→≡ e) (linking_stage _ 0 a refl))))
            (λ f. then_goes g here))
        (λ e. choose (n == 1) (λ f. then_goes g (stays s refl)) (λ f. then_goes g (stays s refl)))

  pub clock_request_goes :
      (i w : ℕ) (s : Host B S) → Goes (phase_of s) (on_clock_sync_request_received p m i w s)
  unfolding on_clock_sync_request_received keep_estimate phase_of
  clock_request_goes i w s =
      choose (is_linking s.client.info.link_state)
        (λ e. estimate_goes (keep_estimate p m i w s) e refl) (λ e. stays s refl)

  pub tune_request_goes :
      (i w : ℕ) (s : Host B S) → Goes (phase_of s) (on_clock_sync_tune_request_received p m i w s)
  unfolding on_clock_sync_tune_request_received keep_estimate phase_of schedule
  tune_request_goes i w s =
      choose (is_linked s.client.info.link_state) (λ e. stays s refl) (λ e. stays s refl)

  pub remote_info_goes :
      (rssi : ℕ) (s : Host B S) → Goes (phase_of s) (on_remote_info_sync_received p m rssi s)
  unfolding on_remote_info_sync_received set_partner_rssi_normalized phase_of schedule
  remote_info_goes rssi s =
      choose (is_linking s.client.info.link_state && s.client.linking_state == 0)
        (λ e. stays s refl) (λ e. stays s refl)

  pub ping_goes : (id : ℕ) (s : Host B S) → Goes (phase_of s) (on_ping_ack_received p m id s)
  unfolding on_ping_ack_received phase_of schedule
  ping_goes id s =
      choose (is_linking s.client.info.link_state && s.client.linking_state == 0)
        (λ e.
          choose (Latency.on_ack_received p.rssi_ring m.micros id s.client.part.latency).1
            (λ f. stays s refl) (λ f. stays s refl))
        (λ e. stays s refl)

module _ {B S : Type 0} where
  pub ack_goes :
      (header id : ℕ) (s : Host B S) → Goes (phase_of s) (on_link_ack_received header id s)
  unfolding on_link_ack_received phase_of set_linking_state reset_last_sent_time_stamp schedule
  ack_goes header id s =
      let c = s.client in
      let at = λ (n : ℕ). c.linking_state == n && c.info.session_id == id in
      choose (not (header == header_short_with_ack)) (λ e. stays s refl)
        (λ e.
          choose (is_awaiting_link c.info.link_state)
            (λ a.
              choose (at 4) (λ f. goes (advance (ground arith) (awaiting_stage _ 4 a refl)))
                (λ f. stays s refl))
            (λ a.
              choose (is_linking c.info.link_state)
                (λ l.
                  choose (at 2) (λ f. goes (advance (ground arith) (linking_stage _ 2 l refl)))
                    (λ f. stays s refl))
                (λ l. stays s refl)))

  expects_lem :
      (stage id : ℕ) (s : Host B S)
      → expects stage id s ≡ true
      → (is_awaiting_link s.client.info.link_state ≡ true) × (s.client.linking_state ≡ stage)
  unfolding expects
  expects_lem stage id s h = (ground arith, ground arith)

  pub pkc_goes : (i w : ℕ) (s : Host B S) → Goes (phase_of s) (on_pkc_request_received i w s)
  unfolding on_pkc_request_received set_linking_state reset_last_sent_time_stamp schedule phase_of
      set_partner_id
  pkc_goes i w s =
      choose (expects 0 i s)
        (λ e. let lem = expects_lem 0 i s e in goes (advance lem.1 (awaiting_stage _ 0 lem.0 refl)))
        (λ e. stays s refl)

  pub remote_key_goes :
      (i : ℕ) (k : List ℕ) (s : Host B S) → Goes (phase_of s) (on_remote_public_key_received i k s)
  unfolding on_remote_public_key_received set_linking_state reset_last_sent_time_stamp schedule
      phase_of
  remote_key_goes i k s =
      choose (expects 2 i s)
        (λ e.
          let lem = expects_lem 2 i s e in
          elim (Bool-cases (set_partner_public_key k s.client.exchanger).1) [
            | inl f ↦ rw f (goes (advance lem.1 (awaiting_stage _ 2 lem.0 refl)))
            | inr f ↦ rw f (stays s refl)
          ])
        (λ e. stays s refl)

  pub discovery_goes : (s : Host B S) → Goes (phase_of s) (on_link_discovery_received s)
  unfolding on_link_discovery_received schedule phase_of
  discovery_goes s =
      choose (is_awaiting_sleeping s.client.info.link_state) (λ e. stays s refl) (λ e. stays s refl)
