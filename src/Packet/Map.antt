-- ===== src/Packet/Map.antt =====
-- src/Packet/LoLaPacketMap.h: the array of packet definitions, indexed by their headers.
-- `none` of an operation is an access out of the array, which C++ leaves undefined.
mod Slots
pub mod Laws
use lo_la.Prelude.{
  ℕ, zero, suc, ◌+◌, ◌≤◌, ◌<◌, Bool, true, false, ◌||◌, if◌then◌else◌, Option, none, some, is_some,
  List, ◌≡◌, refl, arith, u8, leb, get_or, set, length, replicate,
}
use lo_la.Packet.Definition.{PacketDefinition, ack_definition}

-- LOLA_PACKET_MAP_TOTAL_SIZE
abbrev pub map_total_size : ℕ
map_total_size = 20

pub record PacketMap : Type 0 where
  pub mapping_size : ℕ
  pub mapping : List (Option PacketDefinition)

-- `Mapping[header]`
read_slot : ℕ → PacketMap → Option (Option PacketDefinition)
read_slot header m = if leb map_total_size header then none else some (get_or m.mapping header none)

-- The full test stands before the read, as in the source's `||`.
unfoldable pub add_mapping : PacketDefinition → PacketMap → Option (PacketMap × Bool)
unfolding read_slot
add_mapping d m =
    if leb map_total_size m.mapping_size then some (m, false) else elim (read_slot d.header m) [
      | none ↦ none
      | some (some _) ↦ some (m, false)
      | some none ↦ some (
        record {
          mapping_size = u8 (m.mapping_size + 1);
          mapping = set m.mapping d.header (some d);
        },
        true,
      )
    ]

-- The loop that clears slots `i` to 19, `rounds` being 20 - i.
clear_from : ℕ → ℕ → List (Option PacketDefinition) → List (Option PacketDefinition)
clear_from zero i slots = slots
clear_from (suc rounds) i slots = clear_from rounds (i + 1) (set slots i none)

-- The result of the `AddMapping` call is dropped.
unfoldable pub clear_mapping : PacketMap → Option PacketMap
unfolding clear_from add_mapping
clear_mapping m =
    let cleared : PacketMap = record {
      mapping_size = 0;
      mapping = clear_from map_total_size 0 m.mapping;
    } in
    elim (add_mapping ack_definition cleared) [ none ↦ none | some (m', _) ↦ some m' ]

unfoldable pub get_definition : ℕ → PacketMap → Option PacketDefinition
get_definition header m = if leb map_total_size header then none else get_or m.mapping header none
