-- ===== src/Link/Service/Process.antt =====
-- ProcessPacket and OnLinkInfoReportReceived of src/Services/Link/LoLaLinkService.h.
use lo_la.Prelude.{ℕ, ◌+◌, ◌*◌, Bool, true, false, if◌then◌else◌, List, drop, ◌==◌, u16}
use lo_la.Packet.Definition.{header_short, header_long, header_report, payload_index}
use lo_la.Packet.Buffer.{Packet, get_data_header, get_id, get_payload}
use lo_la.Services.Task.{run_asap}
use lo_la.Services.Send.{schedule}
use lo_la.Link.RingBuffer.{RingBuffer}
use lo_la.Link.Info.{
  is_linked, stamp_partner_info_updated, set_partner_rssi_normalized, set_partner_received_count,
}
use lo_la.Link.Service.{Link, on_client}
use lo_la.Link.Service.Builders.{
  link_discovery, host_id_broadcast, host_public_key, remote_pkc_start_request, remote_public_key,
  info_sync_request, info_sync_host, ntp_reply, info_sync_remote, ntp_request, ntp_tune_request,
  ntp_tune_reply, link_report, link_report_with_reply, get_word,
}

-- The virtual methods for the packets, over the state `L` of the service. The two of a packet that
-- starts an acknowledgement are not among them.
pub record PacketHandlers (L : Type 0) : Type 0 where
  pub on_link_discovery_received : L → L
  pub on_pkc_request_received : (session_id remote_id : ℕ) → L → L
  pub on_remote_public_key_received : (session_id : ℕ) (encoded_public_key : List ℕ) → L → L
  pub on_remote_info_sync_received : (rssi : ℕ) → L → L
  pub on_host_info_sync_request_received : L → L
  pub on_clock_sync_request_received : (request_id estimated_micros : ℕ) → L → L
  pub on_clock_sync_tune_request_received : (request_id estimated_micros : ℕ) → L → L
  pub on_id_broadcast_received : (session_id host_id : ℕ) → L → L
  pub on_host_public_key_received : (session_id : ℕ) (host_public_key : List ℕ) → L → L
  pub on_host_info_sync_received : (rssi rtt : ℕ) → L → L
  pub on_clock_sync_response_received : (request_id estimated_error : ℕ) → L → L
  pub on_clock_sync_tune_response_received : (request_id estimated_error : ℕ) → L → L

-- The methods of the base class, which do nothing.
abbrev pub no_handlers : {L : Type 0} → PacketHandlers L
no_handlers = record {
  on_link_discovery_received = λ s. s;
  on_pkc_request_received = λ session_id remote_id s. s;
  on_remote_public_key_received = λ session_id encoded_public_key s. s;
  on_remote_info_sync_received = λ rssi s. s;
  on_host_info_sync_request_received = λ s. s;
  on_clock_sync_request_received = λ request_id estimated_micros s. s;
  on_clock_sync_tune_request_received = λ request_id estimated_micros s. s;
  on_id_broadcast_received = λ session_id host_id s. s;
  on_host_public_key_received = λ session_id host_public_key s. s;
  on_host_info_sync_received = λ rssi rtt s. s;
  on_clock_sync_response_received = λ request_id estimated_error s. s;
  on_clock_sync_tune_response_received = λ request_id estimated_error s. s;
}

-- The bytes from `&GetPayload()[1]` on.
abbrev pub payload_behind : Packet → List ℕ
payload_behind packet = drop (payload_index + 1) packet.raw

module _ {L : Type 0} (handlers : PacketHandlers L) where
  -- The `switch` on the sub-header of a short packet.
  unfoldable pub process_short : Packet → L → L
  unfolding get_payload get_id get_word
  process_short packet s =
      let sub_header = get_payload 0 packet in
      if sub_header == link_discovery
      then handlers.on_link_discovery_received s
      else if sub_header == remote_pkc_start_request
      then handlers.on_pkc_request_received (get_id packet) (get_word 1 packet) s
      else if sub_header == host_id_broadcast
      then handlers.on_id_broadcast_received (get_id packet) (get_word 1 packet) s
      else if sub_header == ntp_request
      then handlers.on_clock_sync_request_received (get_id packet) (get_word 1 packet) s
      else if sub_header == ntp_reply
      then handlers.on_clock_sync_response_received (get_id packet) (get_word 1 packet) s
      else if sub_header == ntp_tune_request
      then handlers.on_clock_sync_tune_request_received (get_id packet) (get_word 1 packet) s
      else if sub_header == ntp_tune_reply
      then handlers.on_clock_sync_tune_response_received (get_id packet) (get_word 1 packet) s
      else s

  unfoldable pub process_long : Packet → L → L
  unfolding get_payload get_id
  process_long packet s =
      let sub_header = get_payload 0 packet in
      if sub_header == remote_public_key
      then handlers.on_remote_public_key_received (get_id packet) (payload_behind packet) s
      else if sub_header == host_public_key
      then handlers.on_host_public_key_received (get_id packet) (payload_behind packet) s
      else s

  -- `on_report` takes the flag that a reply is wanted and the two bytes of a report.
  unfoldable pub process_report :
      (on_report : (with_reply : Bool) (rssi partner_received_count : ℕ) → L → L) → Packet → L → L
  unfolding get_payload get_id
  process_report on_report packet s =
      let first = get_payload 0 packet in
      let second = get_payload 1 packet in
      if get_id packet == link_report_with_reply
      then on_report true first second s
      else if get_id packet == link_report
      then on_report false first second s
      else if get_id packet == info_sync_host
      then handlers.on_host_info_sync_received first (u16 (second + get_payload 2 packet * 256)) s
      else if get_id packet == info_sync_remote
      then handlers.on_remote_info_sync_received first s
      else if get_id packet == info_sync_request
      then handlers.on_host_info_sync_request_received s
      else s

  unfoldable pub process_with :
      (on_report : (with_reply : Bool) (rssi partner_received_count : ℕ) → L → L)
      → Packet
      → L
      → L × Bool
  unfolding get_data_header
  process_with on_report packet s =
      if get_data_header packet == header_short
      then (process_short packet s, true)
      else if get_data_header packet == header_long
      then (process_long packet s, true)
      else if get_data_header packet == header_report
      then (process_report on_report packet s, true)
      else (s, false)

module _ {B S P : Type 0} (ring : RingBuffer B) (millis : ℕ) where
  unfoldable pub on_link_info_report_received :
      (rssi partner_received_count : ℕ) → Link B S P → Link B S P
  unfolding stamp_partner_info_updated set_partner_rssi_normalized set_partner_received_count
  on_link_info_report_received rssi partner_received_count s =
      if is_linked s.client.info.link_state
      then schedule run_asap (
          on_client
            (λ c. record c {
              info = set_partner_received_count partner_received_count (
                  set_partner_rssi_normalized ring rssi (stamp_partner_info_updated millis c.info));
            })
            s)
      else s

  -- A report, after ReportPending was set if it wants a reply.
  unfoldable pub on_report_received :
      (with_reply : Bool) (rssi partner_received_count : ℕ) → Link B S P → Link B S P
  on_report_received true rssi count s =
      on_link_info_report_received rssi count
        (on_client (λ c. record c { report_pending = true }) s)
  on_report_received false rssi count s = on_link_info_report_received rssi count s

  unfoldable pub process_packet :
      PacketHandlers (Link B S P) → Packet → Link B S P → Link B S P × Bool
  process_packet handlers packet s = process_with handlers on_report_received packet s
