-- ===== src/Link/Service/Builders.antt =====
-- The packet builders of src/Services/Link/AbstractLinkService.h, and what
-- src/Services/Link/LoLaLinkService.h, LoLaLinkHostService.h and LoLaLinkRemoteService.h build with
-- them, on OutPacket.
use lo_la.Prelude.{
  ℕ, ◌+◌, ◌%◌, ◌/◌, Bool, if◌then◌else◌, Option, none, some, List, [], ◌∷◌, u8, word_bytes,
  bytes_word, u8_max,
}
use lo_la.Packet.Definition.{
  PacketDefinition, ping_definition, report_definition, short_definition, short_with_ack_definition,
  long_definition,
}
use lo_la.Packet.Buffer.{Packet, set_definition, set_id, set_payload, get_payload}

-- LOLA_LINK_SUBHEADER_*, with LOLA_LINK_PROTOCOL_VERSION 1.
abbrev pub link_discovery : ℕ
link_discovery = 0x01

abbrev pub host_id_broadcast : ℕ
host_id_broadcast = 0x11

abbrev pub host_public_key : ℕ
host_public_key = 0x20

abbrev pub remote_pkc_start_request : ℕ
remote_pkc_start_request = 0x30

abbrev pub remote_public_key : ℕ
remote_public_key = 0x31

abbrev pub info_sync_request : ℕ
info_sync_request = 0x40

abbrev pub info_sync_host : ℕ
info_sync_host = 0x41

abbrev pub ntp_reply : ℕ
ntp_reply = 0x42

abbrev pub info_sync_remote : ℕ
info_sync_remote = 0x50

abbrev pub ntp_request : ℕ
ntp_request = 0x51

abbrev pub ntp_tune_request : ℕ
ntp_tune_request = 0x90

abbrev pub ntp_tune_reply : ℕ
ntp_tune_reply = 0x91

abbrev pub link_report : ℕ
link_report = 0x0A

abbrev pub link_report_with_reply : ℕ
link_report_with_reply = 0x0B

-- `SetDefinition(&definition); SetId(id);`
abbrev pub begin_packet : PacketDefinition → ℕ → Packet → Packet
begin_packet definition id p = set_id id (set_definition (some definition) p).0

-- Bytes from an index of the payload on.
abbrev pub write_payload : ℕ → List ℕ → Packet → Packet
write_payload i [] p = p
write_payload i (b ∷ bytes) p = write_payload (i + 1) bytes (set_payload i b p)

-- The word that stands from an index of the payload on, as ArrayToR_Array reads it.
unfoldable pub get_word : ℕ → Packet → ℕ
unfolding get_payload
get_word i p =
    bytes_word (get_payload i p) (get_payload (i + 1) p) (get_payload (i + 2) p)
      (get_payload (i + 3) p)

-- The id is a random byte.
unfoldable pub prepare_ping : ℕ → Packet → Packet
prepare_ping id p = begin_packet ping_definition (u8 id) p

unfoldable pub prepare_report_packet : ℕ → Packet → Packet
prepare_report_packet sub_header p = begin_packet report_definition sub_header p

unfoldable pub prepare_short_packet : (request_id sub_header : ℕ) → Packet → Packet
prepare_short_packet request_id sub_header p =
    set_payload 0 sub_header (begin_packet short_definition request_id p)

unfoldable pub prepare_long_packet : (request_id sub_header : ℕ) → Packet → Packet
prepare_long_packet request_id sub_header p =
    set_payload 0 sub_header (begin_packet long_definition request_id p)

unfoldable pub prepare_short_packet_with_ack : ℕ → Packet → Packet
prepare_short_packet_with_ack request_id p = begin_packet short_with_ack_definition request_id p

-- S_ArrayToPayload, of the word in ATUI_S.
unfoldable pub s_array_to_payload : ℕ → Packet → Packet
s_array_to_payload word p = write_payload 1 (word_bytes word) p

-- A short packet with a word: PrepareIdBroadcast, PreparePKCStartRequest, PrepareClockSyncResponse
-- and PrepareClockSyncTuneResponse are this with their sub-headers.
unfoldable pub prepare_word_packet : (request_id sub_header word : ℕ) → Packet → Packet
unfolding prepare_short_packet s_array_to_payload
prepare_word_packet request_id sub_header word p =
    s_array_to_payload word (prepare_short_packet request_id sub_header p)

-- The key is what GetPublicKeyCompressed writes, if it answers true.
unfoldable pub prepare_public_key_packet :
    (session_id sub_header : ℕ) → Option (List ℕ) → Packet → Packet
unfolding prepare_long_packet
prepare_public_key_packet session_id sub_header none p = prepare_long_packet session_id sub_header p
prepare_public_key_packet session_id sub_header (some key) p =
    write_payload 1 key (prepare_long_packet session_id sub_header p)

-- The counts are those of the driver.
unfoldable pub prepare_link_report :
    (request_reply : Bool) (rssi received_count : ℕ) → Packet → Packet
unfolding prepare_report_packet
prepare_link_report request_reply rssi received_count p =
    write_payload 0 (rssi ∷ (received_count % u8_max) ∷ [])
      (prepare_report_packet (if request_reply then link_report_with_reply else link_report) p)

unfoldable pub prepare_host_info_sync : (rssi rtt : ℕ) → Packet → Packet
unfolding prepare_report_packet
prepare_host_info_sync rssi rtt p =
    write_payload 0 (rssi ∷ u8 rtt ∷ u8 (rtt / 256) ∷ []) (prepare_report_packet info_sync_host p)

unfoldable pub prepare_info_sync_request : Packet → Packet
unfolding prepare_report_packet
prepare_info_sync_request p =
    write_payload 0 (u8_max ∷ u8_max ∷ u8_max ∷ []) (prepare_report_packet info_sync_request p)

unfoldable pub prepare_remote_info_sync : ℕ → Packet → Packet
unfolding prepare_report_packet
prepare_remote_info_sync rssi p =
    write_payload 0 (rssi ∷ u8_max ∷ u8_max ∷ []) (prepare_report_packet info_sync_remote p)

unfoldable pub prepare_link_discovery : ℕ → Packet → Packet
unfolding prepare_short_packet
prepare_link_discovery session_id p =
    write_payload 1 (u8_max ∷ u8_max ∷ u8_max ∷ u8_max ∷ [])
      (prepare_short_packet session_id link_discovery p)

unfoldable pub prepare_link_protocol_switch_over : (session_id partner_id : ℕ) → Packet → Packet
unfolding prepare_short_packet_with_ack
prepare_link_protocol_switch_over session_id partner_id p =
    write_payload 0 (word_bytes partner_id) (prepare_short_packet_with_ack session_id p)
