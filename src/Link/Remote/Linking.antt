-- ===== src/Link/Remote/Linking.antt =====
-- The remote of src/Services/Link/LoLaLinkRemoteService.h in the states Linking and Linked:
-- OnLinking, OnInfoSync, OnClockSync, OnKeepingLink, and the packets that it takes there.
use lo_la.Prelude.{ℕ, ◌/◌, Bool, true, false, not, ◌&&◌, ◌||◌, if◌then◌else◌, ltb, ◌==◌}
use lo_la.Packet.Definition.{header_short_with_ack}
use lo_la.Packet.Buffer.{Packet, get_data_header, get_id}
use lo_la.Services.Task.{run_asap, run_delayed}
use lo_la.Services.Send.{schedule}
use lo_la.Link.Transaction.{
  RequestTransaction, is_requested, is_result_waiting, is_fresh, set_requested, set_result,
}
use lo_la.Link.Transaction
use lo_la.Link.ClockSync.Remote.{
  is_time_to_tune, set_synced, on_estimation_error_received, on_tune_error_received,
}
use lo_la.Link.Info.{
  LinkState, awaiting_link, linking, linked, is_linked, set_rtt, set_partner_rssi_normalized,
  stamp_clock_sync_adjustment,
}
use lo_la.Link.Service.{
  Platform, Moment, LinkClient, on_client, check_again, idle_period, send_prepared, send_after,
  get_elapsed_millis_since_last_sent, is_linking,
}
use lo_la.Link.Service.Builders.{
  ntp_request, ntp_tune_request, prepare_short_packet, prepare_remote_info_sync, get_word,
}
use lo_la.Link.Service.Session.{set_linking_state, on_syncer}
use lo_la.Link.Service.Runtime.{rssi_of, max_before_linking_cancel}
use lo_la.Link.Host.{info_sync_stage, clock_sync_stage, link_protocol_switch_over, linking_done}
use lo_la.Link.Host.Awaiting.{resend_period}
use lo_la.Link.Remote.{
  RemotePart, RemoteLink, awaiting_host_request, sending_remote_info, info_sync_done, on_request,
  update_remote_state,
}
use lo_la.Link.Remote.Awaiting.{on_crypto_start_received}

module _ {B S : Type 0} (p : Platform B S) (m : Moment) where
  unfoldable pub remote_on_info_sync : RemoteLink B S → RemoteLink B S × Bool
  remote_on_info_sync s =
      let stage = s.client.info_sync_stage in
      if stage == awaiting_host_request
      then (check_again s, false)
      else if stage == sending_remote_info
      then (
        send_after m.millis resend_period (prepare_remote_info_sync (rssi_of p m s.client)) s,
        false,
      )
      else if stage == info_sync_done
      then (s, true)
      else (s, false)

  -- `Reset(); SetRequested();` and the packet with the drawn id. Its word is set before the send.
  unfoldable pub request_clock_sync : (sub_header : ℕ) → RemoteLink B S → RemoteLink B S
  unfolding set_requested
  request_clock_sync sub_header s =
      let request =
        set_requested m.millis (m.random 0 255) (Transaction.reset s.client.part.request) in
      send_prepared m.millis (prepare_short_packet request.id sub_header)
        (on_request (λ t. request) s)

  -- The waiting estimate moves the clock.
  unfoldable pub take_estimate : RemoteLink B S → RemoteLink B S
  unfolding is_result_waiting
  take_estimate s =
      let error = s.client.part.request.result in
      if is_result_waiting s.client.part.request
      then schedule run_asap (
          on_request Transaction.reset
            (on_client (on_syncer (on_estimation_error_received error)) s))
      else s

  unfoldable pub remote_on_clock_sync : RemoteLink B S → RemoteLink B S
  unfolding take_estimate is_requested is_fresh
  remote_on_clock_sync s =
      let taken = take_estimate s in
      let request = taken.client.part.request in
      if (not (is_requested request) || not (is_fresh m.millis max_before_linking_cancel request))
        && ltb resend_period (get_elapsed_millis_since_last_sent m.millis taken.client)
      then request_clock_sync ntp_request taken
      else check_again taken

  -- `ClockSyncer.SetSynced()`, and a delay of the transmission time.
  unfoldable pub finish_linking : RemoteLink B S → RemoteLink B S
  finish_linking s =
      schedule (run_delayed (s.client.node.driver.ettm / 1000))
        (set_linking_state linking_done (on_client (on_syncer (set_synced m.millis)) s))

  unfoldable pub after_info_sync : RemoteLink B S × Bool → RemoteLink B S
  after_info_sync (s, true) = set_linking_state clock_sync_stage s
  after_info_sync (s, false) = s

  unfoldable pub remote_on_linking : RemoteLink B S → RemoteLink B S
  unfolding after_info_sync
  remote_on_linking s =
      let stage = s.client.linking_state in
      if stage == info_sync_stage
      then after_info_sync (remote_on_info_sync s)
      else if stage == clock_sync_stage
      then remote_on_clock_sync s
      else if stage == link_protocol_switch_over
      then finish_linking s
      else if stage == linking_done
      then update_remote_state p m linked s
      else update_remote_state p m awaiting_link s

  -- OnTuneErrorReceived, with a stamp of the adjustment if it answers false.
  unfoldable pub note_tune_error : ℕ → LinkClient B S RemotePart → LinkClient B S RemotePart
  note_tune_error error c =
      let (_, small) = on_tune_error_received m.millis error c.syncer in
      let tuned = on_syncer (λ x. (on_tune_error_received m.millis error x).0) c in
      if small then tuned else record tuned { info = stamp_clock_sync_adjustment tuned.info }

  unfoldable pub remote_on_keeping_link : RemoteLink B S → RemoteLink B S
  unfolding is_result_waiting is_requested is_time_to_tune
  remote_on_keeping_link s =
      let request = s.client.part.request in
      if is_result_waiting request
      then schedule run_asap
          (on_request Transaction.reset (on_client (note_tune_error request.result) s))
      else if is_time_to_tune m.millis s.client.syncer && not (is_requested request)
      then request_clock_sync ntp_tune_request s
      else schedule (run_delayed idle_period) s

  unfoldable pub on_host_info_sync_received : (rssi rtt : ℕ) → RemoteLink B S → RemoteLink B S
  unfolding set_rtt set_partner_rssi_normalized
  on_host_info_sync_received rssi rtt s =
      if is_linking s.client.info.link_state
        && s.client.linking_state == info_sync_stage
        && s.client.info_sync_stage == sending_remote_info
      then schedule run_asap (
          on_client
            (λ c.
              let (info, driver) = set_rtt rtt c.info c.node.driver in
              record c {
                info = set_partner_rssi_normalized p.rssi_ring rssi info;
                node = record (c.node) { driver = driver };
                info_sync_stage = info_sync_done;
              })
            s)
      else s

  unfoldable pub on_clock_sync_response_received :
      (request_id estimated_error : ℕ) → RemoteLink B S → RemoteLink B S
  unfolding is_requested is_fresh set_result
  on_clock_sync_response_received request_id estimated_error s =
      let request = s.client.part.request in
      let (after, taken) = set_result request_id estimated_error request in
      if is_linking s.client.info.link_state
        && s.client.linking_state == clock_sync_stage
        && is_requested request
        && is_fresh m.millis max_before_linking_cancel request
      then (if taken
          then schedule run_asap (on_request (λ t. after) s)
          else on_request (λ t. after) s)
      else s

  unfoldable pub on_link_protocol_received :
      (session_id host_id : ℕ) → RemoteLink B S → RemoteLink B S × Bool
  on_link_protocol_received session_id host_id s =
      if is_linking s.client.info.link_state
        && s.client.linking_state == clock_sync_stage
        && s.client.info.session_id == session_id
        && p.local_id == host_id
      then (set_linking_state link_protocol_switch_over s, true)
      else (s, false)

  unfoldable pub acked_in : LinkState → Packet → RemoteLink B S → RemoteLink B S × Bool
  unfolding get_id get_word
  acked_in awaiting_link packet s = on_crypto_start_received p m (get_id packet) packet s
  acked_in linking packet s = on_link_protocol_received (get_id packet) (get_word 0 packet) s
  acked_in _ packet s = (s, false)

  unfoldable pub on_acked_packet_received : Packet → RemoteLink B S → RemoteLink B S × Bool
  unfolding get_data_header acked_in
  on_acked_packet_received packet s =
      if get_data_header packet == header_short_with_ack
      then acked_in s.client.info.link_state packet s
      else (s, false)

module _ {B S : Type 0} where
  unfoldable pub on_host_info_sync_request_received : RemoteLink B S → RemoteLink B S
  on_host_info_sync_request_received s =
      if is_linking s.client.info.link_state
        && s.client.linking_state == info_sync_stage
        && s.client.info_sync_stage == awaiting_host_request
      then schedule run_asap (on_client (λ c. record c { info_sync_stage = sending_remote_info }) s)
      else s

  unfoldable pub on_clock_sync_tune_response_received :
      (request_id estimated_error : ℕ) → RemoteLink B S → RemoteLink B S
  unfolding is_requested set_result
  on_clock_sync_tune_response_received request_id estimated_error s =
      if is_linked s.client.info.link_state && is_requested s.client.part.request
      then schedule run_asap (on_request (λ t. (set_result request_id estimated_error t).0) s)
      else s
