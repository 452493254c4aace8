-- ===== src/Packet/Map/Laws.antt =====
-- What src/Packet/LoLaPacketMap.h promises: a map from headers to the definitions that carry them.
use lo_la.Prelude.{
  ℕ, zero, suc, ◌+◌, ◌<◌, Bool, true, false, if◌then◌else◌, Option, none, some, is_some, List, sym,
  ◌∙◌, subst, inl, inr, Option-cases, ℕ_discrete, append_assoc, ◌++◌, [], ◌∷◌, ◌≡◌, refl, arith,
  ◌==◌, get_or, set, length, replicate, length-set, get_or-set_self, get_or-set_ne,
  get_or-replicate, set-append, length-snoc,
}
use lo_la.Packet.Definition.{PacketDefinition, ack_definition}
use lo_la.Packet.Map.{
  PacketMap, map_total_size, add_mapping, clear_mapping, clear_from, get_definition,
}
use lo_la.Packet.Map.Slots.{count_some, count_some-lt-length, count_some-set}

-- Twenty slots, counted right, and each definition stands at its own header.
pub record IsValid (m : PacketMap) : Type 0 where
  pub slots : length m.mapping ≡ map_total_size
  pub counted : m.mapping_size ≡ count_some m.mapping
  pub placed : (h : ℕ) (d : PacketDefinition) → get_or m.mapping h none ≡ some d → d.header ≡ h

-- The map with `d` in its free slot.
abbrev pub inserted : PacketDefinition → PacketMap → PacketMap
inserted d m = record {
  mapping_size = m.mapping_size + 1;
  mapping = set m.mapping d.header (some d);
}

-- For a header in range, in a valid map, `add_mapping` stores the definition exactly if its slot
-- is free, and otherwise changes nothing.
pub add_mapping_lem :
    (d : PacketDefinition) (m : PacketMap)
    → IsValid m
    → d.header < map_total_size
    → add_mapping d m
      ≡ some (if is_some (get_or m.mapping d.header none) then (m, false) else (inserted d m, true))
unfolding add_mapping
add_mapping_lem d m v h = ground (arith, count_some-lt-length m.mapping d.header)

inserted-IsValid :
    (d : PacketDefinition) (m : PacketMap)
    → IsValid m
    → d.header < map_total_size
    → get_or m.mapping d.header none ≡ none
    → IsValid (inserted d m)
inserted-IsValid d m v h free = record {
  slots = omega (arith, length-set m.mapping d.header (some d), v.slots);
  counted =
      omega (arith, count_some-set m.mapping d.header d (omega (arith, v.slots)) free, v.counted);
  placed = placed_at;
}
  where
    placed_at :
        (i : ℕ) (e : PacketDefinition)
        → get_or (set m.mapping d.header (some d)) i none ≡ some e
        → e.header ≡ i
    placed_at i e s = elim (ℕ_discrete d.header i) [
      | yes p ↦
          ground (arith, get_or-set_self m.mapping d.header (some d) none (omega (arith, v.slots)))
      | no p ↦ v.placed i e (sym (get_or-set_ne m.mapping d.header i (some d) none p) ∙ s)
    ]

-- For a header in range `add_mapping` keeps a valid map valid, whatever it answers.
pub add_mapping-IsValid :
    (d : PacketDefinition) (m : PacketMap) {m' : PacketMap} {done : Bool}
    → IsValid m
    → d.header < map_total_size
    → add_mapping d m ≡ some (m', done)
    → IsValid m'
add_mapping-IsValid d m {m'} {done} v h e = elim (Option-cases (get_or m.mapping d.header none)) [
  | inl free ↦
      subst IsValid (ground (arith, add_mapping_lem d m v h)) (inserted-IsValid d m v h free)
  | inr taken ↦ subst IsValid (ground (arith, add_mapping_lem d m v h)) v
]

-- A lookup in a valid map after an insertion that was accepted, of a header in range: the new
-- definition at its header, and at every other header, in range or not, what stood there before.
pub get_definition-add_mapping :
    (d : PacketDefinition) (m : PacketMap) {m' : PacketMap} (h : ℕ)
    → IsValid m
    → d.header < map_total_size
    → add_mapping d m ≡ some (m', true)
    → get_definition h m' ≡ (if h == d.header then some d else get_definition h m)
unfolding get_definition
get_definition-add_mapping d m {m'} h v r e = elim (ℕ_discrete d.header h) [
  | yes p ↦
      ground
        (arith, add_mapping_lem d m v r, v.slots, get_or-set_self m.mapping d.header (some d) none)
  | no p ↦
      ground (arith, add_mapping_lem d m v r, get_or-set_ne m.mapping d.header h (some d) none p)
]

-- What a lookup finds carries the header that was looked up.
pub header-get_definition :
    (h : ℕ) (m : PacketMap) {d : PacketDefinition}
    → IsValid m
    → get_definition h m ≡ some d
    → (d.header ≡ h) × (h < map_total_size)
unfolding get_definition
header-get_definition h m {d} v e = ground (arith, v.placed h d)

-- The loop clears what it has not passed.
clear_from-append :
    (rounds i : ℕ) (done rest : List (Option PacketDefinition))
    → i ≡ length done
    → length rest ≡ rounds
    → clear_from rounds i (done ++ rest) ≡ done ++ replicate rounds none
unfolding clear_from
clear_from-append zero i done [] e r = refl
clear_from-append zero i done (x ∷ rest) e r = absurd (omega arith)
clear_from-append (suc n) i done [] e r = absurd (omega arith)
clear_from-append (suc n) i done (x ∷ rest) e r =
    rw (e, set-append done x none rest)
      (clear_from-append n (length done + 1) (done ++ (none ∷ [])) rest
          (omega (arith, length-snoc {A = Option PacketDefinition} done none)) (omega arith)
        ∙ append_assoc done (none ∷ []) (replicate n none))

abbrev pub empty_map : PacketMap
empty_map = record { mapping_size = 0; mapping = replicate map_total_size none }

pub empty_map-IsValid : IsValid empty_map
empty_map-IsValid = record {
  slots = refl;
  counted = refl;
  placed = λ h d e. cc (get_or-replicate {A = Option PacketDefinition} map_total_size h none, e);
}

inserted_ack :
    (h : ℕ)
    → get_definition h (inserted ack_definition empty_map)
      ≡ (if h == 0 then some ack_definition else none)
unfolding get_definition
inserted_ack zero = refl
inserted_ack (suc h) = ground (arith, get_or-replicate {A = Option PacketDefinition} 19 h none)

-- Whatever the twenty slots held (the constructor finds them undefined), `clear_mapping` leaves
-- the map that holds the acknowledgement's definition alone.
pub clear_mapping_lem :
    (m : PacketMap)
    → length m.mapping ≡ map_total_size
    → (m' : PacketMap) × (clear_mapping m ≡ some m')
      × IsValid m'
      × (m'.mapping_size ≡ 1)
      × ((h : ℕ) → get_definition h m' ≡ (if h == 0 then some ack_definition else none))
unfolding clear_mapping get_definition
clear_mapping_lem m l = (
  inserted ack_definition empty_map,
  ground (
    arith,
    clear_from-append map_total_size 0 [] m.mapping refl l,
    add_mapping_lem ack_definition empty_map empty_map-IsValid (omega arith),
  ),
  inserted-IsValid ack_definition empty_map empty_map-IsValid (omega arith) refl,
  refl,
  inserted_ack,
)
