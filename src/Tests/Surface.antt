-- ===== src/Tests/Surface.antt =====
-- The theorems on src/Services/SyncSurface/ITrackedSurface.h at a surface of three blocks.
use lo_la.Prelude.{ℕ, ◌≡◌, true, List, [], ◌∷◌, arith, length, replicate}
use lo_la.Surface.{BitTracker, Surface, get_32, set_32}
use lo_la.Surface.RoundTrip.{get_32-set_32, set_32-elsewhere}

-- A tracker that lists the bits that were set.
abbrev listing : BitTracker (List ℕ)
listing = record {
  set_bit = λ i bits. i ∷ bits;
  set_all = λ bits. 0 ∷ 1 ∷ 2 ∷ [];
  clear_all = λ bits. [];
}

abbrev surface : Surface (List ℕ)
surface = record {
  data_good = true;
  last_crc = 0;
  hash_needs_update = true;
  tracker = [];
  bytes = 1 ∷ 2 ∷ 3 ∷ 4 ∷ 5 ∷ 6 ∷ 7 ∷ 8 ∷ replicate 4 0;
  fired = [];
}

get_32-set_32_example : get_32 1 (set_32 listing 305419896 1 surface) ≡ 305419896
get_32-set_32_example =
    get_32-set_32 listing 305419896 1 surface (omega arith) (omega arith) (omega arith)

set_32-elsewhere_example :
    let s' = set_32 listing 305419896 1 surface in
    (get_32 0 s' ≡ get_32 0 surface)
    × (s'.tracker ≡ 1 ∷ [])
    × (s'.fired ≡ true ∷ [])
    × (length s'.bytes ≡ 12)
set_32-elsewhere_example =
    set_32-elsewhere listing 305419896 1 0 surface (omega arith) (omega arith)
      (λ e. omega (arith, e))
