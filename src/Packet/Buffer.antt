-- ===== src/Packet/Buffer.antt =====
-- src/Packet/LoLaPacket.h: ILoLaPacket and TemplateLoLaPacket, a definition beside a raw buffer.
-- A read out of the buffer gives 0 and a write out of it changes nothing.
use lo_la.Prelude.{
  ℕ, ◌+◌, ◌*◌, ◌/◌, ◌≤◌, ◌<◌, Bool, true, false, Option, none, some, List, ◌≡◌, arith, u8, get_or,
  set, drop, replicate, length, length-set, get_or-set_self, get_or-set_ne,
}
use lo_la.Packet.Definition.{PacketDefinition, maccrc_index, header_index, id_index, payload_index}

pub record Packet : Type 0 where
  pub definition : Option PacketDefinition
  pub raw : List ℕ

-- TemplateLoLaPacket<DataSize>; C++ leaves the bytes undefined, here they are 0.
unfoldable pub template_packet : ℕ → Packet
template_packet data_size = record { definition = none; raw = replicate data_size 0 }

unfoldable pub get_max_size : Packet → ℕ
get_max_size p = length p.raw

unfoldable pub clear_definition : Packet → Packet
clear_definition p = record p { definition = none }

unfoldable pub get_id : Packet → ℕ
get_id p = get_or p.raw id_index 0

unfoldable pub set_id : ℕ → Packet → Packet
set_id id p = record p { raw = set p.raw id_index id }

unfoldable pub get_mac_crc : Packet → ℕ
get_mac_crc p = get_or p.raw maccrc_index 0 + get_or p.raw (maccrc_index + 1) 0 * 256

unfoldable pub set_mac_crc : ℕ → Packet → Packet
set_mac_crc crc p = record p {
  raw = set (set p.raw maccrc_index (u8 crc)) (maccrc_index + 1) (u8 (crc / 256));
}

unfoldable pub get_data_header : Packet → ℕ
get_data_header p = get_or p.raw header_index 0

-- The new packet and the result: whether there is a definition.
unfoldable pub set_definition : Option PacketDefinition → Packet → Packet × Bool
set_definition none p = (record p { definition = none }, false)
set_definition (some d) p =
    (record { definition = some d; raw = set p.raw header_index d.header }, true)

-- GetPayload()[i], read and written.
unfoldable pub get_payload : ℕ → Packet → ℕ
get_payload i p = get_or p.raw (payload_index + i) 0

unfoldable pub set_payload : ℕ → ℕ → Packet → Packet
set_payload i v p = record p { raw = set p.raw (payload_index + i) v }

unfoldable pub get_raw_content : Packet → List ℕ
get_raw_content p = drop header_index p.raw

-- A CRC of 16 bits that is set in a packet of at least two bytes is read back.
pub get_mac_crc-set_mac_crc :
    (crc : ℕ) (p : Packet) → 2 ≤ length p.raw → crc < 65536 → get_mac_crc (set_mac_crc crc p) ≡ crc
unfolding get_mac_crc set_mac_crc
get_mac_crc-set_mac_crc crc p h c = omega (
  arith,
  get_or-set_ne (set p.raw 0 (u8 crc)) 1 0 (u8 (crc / 256)) 0 (omega arith),
  get_or-set_self p.raw 0 (u8 crc) 0 (omega arith),
  get_or-set_self (set p.raw 0 (u8 crc)) 1 (u8 (crc / 256)) 0
      (omega (arith, length-set p.raw 0 (u8 crc))),
)
