-- ===== src/Link/Host/Linking.antt =====
-- The host of src/Services/Link/LoLaLinkHostService.h in the states Linking and Linked: OnLinking,
-- OnInfoSync, OnClockSync, OnKeepingLink, and the packets and acknowledgements that it takes there.
use lo_la.Prelude.{ℕ, ◌/◌, Bool, true, false, not, ◌&&◌, ◌||◌, if◌then◌else◌, ltb, leb, ◌==◌, sub32}
use lo_la.Packet.Definition.{header_short_with_ack}
use lo_la.Driver.Clock.{get_sync_micros_of}
use lo_la.Services.Task.{run_asap, run_delayed}
use lo_la.Services.Send.{schedule}
use lo_la.Link.Latency.{get_sample_count, get_average_latency}
use lo_la.Link.Latency
use lo_la.Link.Transaction.{set_response, reset_response}
use lo_la.Link.ClockSync.Host.{is_synced, on_estimation_received}
use lo_la.Link.Info.{
  awaiting_link, linked, is_linked, has_partner_rssi, set_rtt, get_rtt, set_partner_rssi_normalized,
  stamp_clock_sync_adjustment,
}
use lo_la.Link.Service.{
  Platform, Moment, LinkClient, on_client, check_again, idle_period, send_prepared, send_after,
  get_elapsed_millis_since_last_sent, is_awaiting_link, is_linking,
}
use lo_la.Link.Service.Builders.{
  ntp_reply, ntp_tune_reply, prepare_ping, prepare_info_sync_request, prepare_host_info_sync,
  prepare_word_packet, prepare_link_protocol_switch_over,
}
use lo_la.Link.Service.Session.{set_linking_state, on_syncer}
use lo_la.Link.Service.Runtime.{rssi_of}
use lo_la.Link.Host.{
  HostPart, Host, got_shared_key, linking_switch_over, info_sync_stage, clock_sync_stage,
  link_protocol_switch_over, linking_done, awaiting_latency_measurement, sending_info_request,
  sending_host_info, on_part, update_host_state,
}
use lo_la.Link.Host.Awaiting.{resend_period}

-- LOLA_LINK_SERVICE_UNLINK_MIN_LATENCY_SAMPLES, LOLA_LINK_SERVICE_UNLINK_PING_RESEND_PERIOD_MAX.
abbrev pub min_latency_samples : ℕ
min_latency_samples = 2

abbrev pub ping_resend_period_max : ℕ
ping_resend_period_max = 10 / 4

module _ {B S : Type 0} (p : Platform B S) (m : Moment) where
  abbrev pub has_samples : Host B S → Bool
  has_samples s = leb min_latency_samples (get_sample_count p.rssi_ring s.client.part.latency)

  -- SetRTT of the average, and the next stage.
  unfoldable pub take_latency : Host B S → Host B S
  unfolding set_rtt
  take_latency s = schedule run_asap (
      on_client
        (λ c.
          let (info, driver) =
            set_rtt (get_average_latency p.rssi_ring c.part.latency) c.info c.node.driver in
          record c {
            info = info;
            node = record (c.node) { driver = driver };
            info_sync_stage = sending_info_request;
          })
        s)

  unfoldable pub measure_latency : Host B S → Host B S
  measure_latency s =
      if has_samples s
      then take_latency s
      else if s.client.part.ping_acked
          || ltb ping_resend_period_max (get_elapsed_millis_since_last_sent m.millis s.client)
      then send_prepared m.millis (prepare_ping (m.random 0 255))
          (on_part (λ h. record h { ping_acked = false }) s)
      else check_again s

  unfoldable pub request_info : Host B S → Host B S
  unfolding has_partner_rssi
  request_info s =
      if has_partner_rssi p.rssi_ring s.client.info
      then schedule run_asap (on_client (λ c. record c { info_sync_stage = sending_host_info }) s)
      else send_after m.millis resend_period prepare_info_sync_request s

  unfoldable pub send_host_info : Host B S → Host B S
  unfolding get_rtt
  send_host_info s =
      send_after m.millis resend_period
        (prepare_host_info_sync (rssi_of p m s.client) (get_rtt s.client.info)) s

  unfoldable pub on_info_sync : Host B S → Host B S
  on_info_sync s =
      let stage = s.client.info_sync_stage in
      if stage == awaiting_latency_measurement
      then measure_latency s
      else if stage == sending_info_request
      then request_info s
      else if stage == sending_host_info
      then send_host_info s
      else s

  -- The response of the waiting result, under one of the two sub-headers.
  unfoldable pub answer_clock_sync : (sub_header : ℕ) → Host B S → Host B S
  answer_clock_sync sub_header s =
      let response = s.client.part.response in
      send_prepared m.millis
        (prepare_word_packet response.response_id sub_header response.response_result)
        (on_part (λ h. record h { response = reset_response response }) s)

  unfoldable pub on_clock_sync : Host B S → Host B S
  on_clock_sync s =
      let error = s.client.part.response.response_result in
      if s.client.part.response.response_ready
      then answer_clock_sync ntp_reply
          (on_client (on_syncer (λ x. (on_estimation_received error x).0)) s)
      else check_again s

  unfoldable pub on_linking : Host B S → Host B S
  unfolding is_synced
  on_linking s =
      let stage = s.client.linking_state in
      if stage == info_sync_stage
      then on_info_sync s
      else if stage == clock_sync_stage
      then (if is_synced s.client.syncer
          then set_linking_state link_protocol_switch_over s
          else on_clock_sync s)
      else if stage == link_protocol_switch_over
      then send_after m.millis resend_period
          (prepare_link_protocol_switch_over s.client.info.session_id s.client.info.partner_id) s
      else if stage == linking_done
      then update_host_state p m linked s
      else update_host_state p m awaiting_link s

  unfoldable pub on_remote_info_sync_received : (rssi : ℕ) → Host B S → Host B S
  unfolding set_partner_rssi_normalized
  on_remote_info_sync_received rssi s =
      if is_linking s.client.info.link_state && s.client.linking_state == info_sync_stage
      then schedule run_asap (
          on_client (λ c. record c { info = set_partner_rssi_normalized p.rssi_ring rssi c.info })
            s)
      else s

  -- The error of the remote's estimate, at the time that the driver received it.
  abbrev pub estimation_error : ℕ → Host B S → ℕ
  estimation_error estimated_micros s =
      let d = s.client.node.driver in
      sub32 (get_sync_micros_of d.last_valid_received.micros d.clock) estimated_micros

  unfoldable pub keep_estimate : (request_id estimated_micros : ℕ) → Host B S → Host B S
  unfolding set_response
  keep_estimate request_id estimated_micros s =
      let error = estimation_error estimated_micros s in
      on_part (λ h. record h { response = set_response request_id error h.response }) s

  unfoldable pub on_estimate_kept : Host B S → Host B S
  unfolding has_partner_rssi
  on_estimate_kept s =
      if s.client.linking_state == info_sync_stage
      then (if has_samples s && has_partner_rssi p.rssi_ring s.client.info
          then set_linking_state clock_sync_stage s
          else s)
      else if s.client.linking_state == clock_sync_stage
      then schedule run_asap s
      else on_part (λ h. record h { response = reset_response h.response }) s

  unfoldable pub on_clock_sync_request_received :
      (request_id estimated_micros : ℕ) → Host B S → Host B S
  unfolding on_estimate_kept
  on_clock_sync_request_received request_id estimated_micros s =
      if is_linking s.client.info.link_state
      then on_estimate_kept (keep_estimate request_id estimated_micros s)
      else s

  unfoldable pub on_clock_sync_tune_request_received :
      (request_id estimated_micros : ℕ) → Host B S → Host B S
  on_clock_sync_tune_request_received request_id estimated_micros s =
      if is_linked s.client.info.link_state
      then schedule run_asap (keep_estimate request_id estimated_micros s)
      else s

  -- OnEstimationReceived, with a stamp of the adjustment if it answers false.
  unfoldable pub note_tuning : ℕ → LinkClient B S (HostPart B) → LinkClient B S (HostPart B)
  note_tuning error c =
      let (_, small) = on_estimation_received error c.syncer in
      let noted = on_syncer (λ x. (on_estimation_received error x).0) c in
      if small then noted else record noted { info = stamp_clock_sync_adjustment noted.info }

  unfoldable pub on_keeping_link : Host B S → Host B S
  on_keeping_link s =
      if s.client.part.response.response_ready
      then answer_clock_sync ntp_tune_reply
          (on_client (note_tuning s.client.part.response.response_result) s)
      else schedule (run_delayed idle_period) s

  unfoldable pub on_ping_ack_received : (id : ℕ) → Host B S → Host B S
  on_ping_ack_received id s =
      let (latency, taken) =
        Latency.on_ack_received p.rssi_ring m.micros id s.client.part.latency in
      let noted = on_part (λ h. record h { latency = latency }) s in
      if is_linking s.client.info.link_state && s.client.linking_state == info_sync_stage
      then (if taken
          then schedule run_asap (on_part (λ h. record h { ping_acked = true }) noted)
          else noted)
      else s

module _ {B S : Type 0} where
  unfoldable pub on_link_ack_received : (header id : ℕ) → Host B S → Host B S
  on_link_ack_received header id s =
      let c = s.client in
      if not (header == header_short_with_ack)
      then s
      else if is_awaiting_link c.info.link_state
      then (if c.linking_state == got_shared_key && c.info.session_id == id
          then set_linking_state linking_switch_over s
          else s)
      else if is_linking c.info.link_state
      then (if c.linking_state == link_protocol_switch_over && c.info.session_id == id
          then set_linking_state linking_done s
          else s)
      else s
