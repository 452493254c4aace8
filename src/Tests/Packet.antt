-- ===== src/Tests/Packet.antt =====
-- The theorems on src/Packet at concrete definitions and maps.
use lo_la.Prelude.{true, if◌then◌else◌, some, ◌≡◌, refl, arith, ◌==◌}
use lo_la.Packet.Definition.{ping_definition, report_definition}
use lo_la.Packet.Map.{PacketMap, add_mapping, get_definition}
use lo_la.Packet.Map.Laws.{
  IsValid, inserted, empty_map, empty_map-IsValid, add_mapping-IsValid, get_definition-add_mapping,
}

abbrev pinging : PacketMap
pinging = inserted ping_definition empty_map

adds_ping : add_mapping ping_definition empty_map ≡ some (pinging, true)
unfolding add_mapping
adds_ping = refl

adds_report :
    add_mapping report_definition pinging ≡ some (inserted report_definition pinging, true)
unfolding add_mapping
adds_report = refl

pinging-IsValid : IsValid pinging
pinging-IsValid =
    add_mapping-IsValid ping_definition empty_map empty_map-IsValid (omega arith) adds_ping

get_definition-add_mapping_example :
    get_definition 1 (inserted report_definition pinging)
    ≡ (if 1 == report_definition.header then some report_definition else get_definition 1 pinging)
get_definition-add_mapping_example =
    get_definition-add_mapping report_definition pinging 1 pinging-IsValid (omega arith) adds_report
