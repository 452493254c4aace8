-- ===== src/Packet/Definition.antt =====
-- src/Packet/PacketDefinition.h, and the definitions that derive from it:
-- AckPacketDefinition of src/Packet/LoLaPacketMap.h, the link's of
-- src/Services/Link/LoLaLinkDefinitions.h and the surface's of
-- src/Services/SyncSurface/SyncPacketDefinitions.h. An object of such a class is what its
-- three virtual getters answer.
use lo_la.Prelude.{ℕ, ◌+◌, ◌-◌, ◌≤◌, min, bit_and, Bool, not, ◌==◌, ◌≡◌, arith, u8}

pub record PacketDefinition : Type 0 where
  pub configuration : ℕ
  pub header : ℕ
  pub payload_size : ℕ

abbrev pub mask_basic : ℕ
mask_basic = 0b00000000

abbrev pub mask_is_ack : ℕ
mask_is_ack = 0b01000000

abbrev pub mask_has_ack : ℕ
mask_has_ack = 0b10000000

-- Packet: [MACCRC1|MACCRC2|HEADER|ID|PAYLOAD]
abbrev pub maccrc_index : ℕ
maccrc_index = 0

abbrev pub header_index : ℕ
header_index = 2

abbrev pub id_index : ℕ
id_index = 3

abbrev pub payload_index : ℕ
payload_index = 4

abbrev pub min_packet_size : ℕ
min_packet_size = payload_index

abbrev pub max_packet_size : ℕ
max_packet_size = 22 + min_packet_size

unfoldable pub get_total_size : PacketDefinition → ℕ
get_total_size d = u8 (min_packet_size + d.payload_size)

unfoldable pub get_content_size : PacketDefinition → ℕ
unfolding get_total_size
get_content_size d = u8 (get_total_size d + 256 - header_index)

-- The static overload, for a size that came over the air.
unfoldable pub get_content_size_of : ℕ → ℕ
get_content_size_of unknown_total_size =
    u8 (min max_packet_size unknown_total_size + 256 - header_index)

-- No size checks.
unfoldable pub get_content_size_quick : ℕ → ℕ
get_content_size_quick unknown_total_size = u8 (unknown_total_size + 256 - header_index)

unfoldable pub is_ack : PacketDefinition → Bool
is_ack d = not (bit_and d.configuration mask_is_ack == 0)

unfoldable pub has_ack : PacketDefinition → Bool
has_ack d = not (bit_and d.configuration mask_has_ack == 0)

-- PACKET_DEFINITION_ACK_HEADER, LINK_START_HEADER and USER_HEADERS_START.
abbrev pub ack_header : ℕ
ack_header = 0

abbrev pub link_start_header : ℕ
link_start_header = ack_header + 1

abbrev pub user_headers_start : ℕ
user_headers_start = link_start_header + 5

-- Payload is the original header.
abbrev pub ack_definition : PacketDefinition
ack_definition = record { configuration = mask_is_ack; header = ack_header; payload_size = 1 }

abbrev pub header_ping_with_ack : ℕ
header_ping_with_ack = link_start_header

abbrev pub header_short : ℕ
header_short = header_ping_with_ack + 1

abbrev pub header_short_with_ack : ℕ
header_short_with_ack = header_short + 1

abbrev pub header_long : ℕ
header_long = header_short_with_ack + 1

abbrev pub header_report : ℕ
header_report = header_long + 1

abbrev pub ping_definition : PacketDefinition
ping_definition = record {
  configuration = mask_has_ack;
  header = header_ping_with_ack;
  payload_size = 0;
}

abbrev pub report_definition : PacketDefinition
report_definition = record { configuration = mask_basic; header = header_report; payload_size = 3 }

-- A sub-header and a uint32.
abbrev pub short_definition : PacketDefinition
short_definition = record {
  configuration = mask_basic;
  header = header_short;
  payload_size = 1 + 4;
}

abbrev pub short_with_ack_definition : PacketDefinition
short_with_ack_definition = record {
  configuration = mask_has_ack;
  header = header_short_with_ack;
  payload_size = 4;
}

-- A sub-header and a compressed public key, LoLaCryptoKeyExchanger::KEY_MAX_SIZE bytes.
abbrev pub key_max_size : ℕ
key_max_size = 20 + 1

abbrev pub long_definition : PacketDefinition
long_definition = record {
  configuration = mask_basic;
  header = header_long;
  payload_size = 1 + key_max_size;
}

-- The template argument BaseHeader is the argument.
abbrev pub sync_meta_definition : ℕ → PacketDefinition
sync_meta_definition base_header = record {
  configuration = mask_basic;
  header = u8 (base_header + 0);
  payload_size = 1;
}

abbrev pub sync_data_definition : ℕ → PacketDefinition
sync_data_definition base_header = record {
  configuration = mask_basic;
  header = u8 (base_header + 1);
  payload_size = 4;
}

-- For a payload that fits a packet no size wraps.
pub get_total_size-eq :
    (d : PacketDefinition) → d.payload_size ≤ 22 → get_total_size d ≡ d.payload_size + 4
unfolding get_total_size
get_total_size-eq d h = omega arith

pub get_content_size-eq :
    (d : PacketDefinition) → d.payload_size ≤ 22 → get_content_size d ≡ d.payload_size + 2
unfolding get_content_size
get_content_size-eq d h = omega arith

-- The size that a receiver takes from the radio is the size that the sender encoded.
pub get_content_size_quick-get_total_size :
    (d : PacketDefinition)
    → d.payload_size ≤ 22
    → get_content_size_quick (get_total_size d) ≡ get_content_size d
unfolding get_content_size_quick get_content_size
get_content_size_quick-get_total_size d h = omega arith
