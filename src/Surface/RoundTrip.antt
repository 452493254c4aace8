-- ===== src/Surface/RoundTrip.antt =====
-- What is set on the surface of src/Services/SyncSurface/ITrackedSurface.h is what is got.
use lo_la.Prelude.{
  ℕ, ◌+◌, ◌*◌, ◌/◌, ◌≤◌, ◌<◌, ◌≢◌, ◌≡◌, ◌∙◌, refl, sym, arith, List, ◌∷◌, u8, u32, get_or, set,
  length, length-set, get_or-set_self, get_or-set_ne,
}
use lo_la.Surface.{
  BitTracker, Surface, block_size, get_32, set_32, invalidate_block, on_data_changed,
}

-- Four bytes from `i` on.
abbrev write_four : (i a b c d : ℕ) → List ℕ → List ℕ
write_four i a b c d xs = set (set (set (set xs i a) (i + 1) b) (i + 2) c) (i + 3) d

get_or-write_four :
    (i a b c d : ℕ) (xs : List ℕ)
    → i + 3 < length xs
    → let ys = write_four i a b c d xs in
      (get_or ys i 0 ≡ a)
      × (get_or ys (i + 1) 0 ≡ b)
      × (get_or ys (i + 2) 0 ≡ c)
      × (get_or ys (i + 3) 0 ≡ d)
get_or-write_four i a b c d xs h = (
  past (i + 3) i d s3 (λ e. omega (arith, e))
      ∙ past (i + 2) i c s2 (λ e. omega (arith, e))
      ∙ past (i + 1) i b s1 (λ e. omega (arith, e))
      ∙ get_or-set_self xs i a 0 (omega arith),
  past (i + 3) (i + 1) d s3 (λ e. omega (arith, e))
      ∙ past (i + 2) (i + 1) c s2 (λ e. omega (arith, e))
      ∙ get_or-set_self s1 (i + 1) b 0 (omega (arith, l1)),
  past (i + 3) (i + 2) d s3 (λ e. omega (arith, e))
      ∙ get_or-set_self s2 (i + 2) c 0 (omega (arith, l1, l2)),
  get_or-set_self s3 (i + 3) d 0 (omega (arith, l1, l2, l3)),
)
  where
    past : (j k v : ℕ) (ys : List ℕ) → j ≢ k → get_or (set ys j v) k 0 ≡ get_or ys k 0
    past j k v ys n = get_or-set_ne ys j k v 0 n

    s1 : List ℕ
    s1 = set xs i a

    s2 : List ℕ
    s2 = set s1 (i + 1) b

    s3 : List ℕ
    s3 = set s2 (i + 2) c

    l1 : length s1 ≡ length xs
    l1 = length-set xs i a

    l2 : length s2 ≡ length s1
    l2 = length-set s1 (i + 1) b

    l3 : length s3 ≡ length s2
    l3 = length-set s2 (i + 2) c

write_four-outside :
    (i a b c d j : ℕ) (xs : List ℕ)
    → j ≢ i
    → j ≢ i + 1
    → j ≢ i + 2
    → j ≢ i + 3
    → get_or (write_four i a b c d xs) j 0 ≡ get_or xs j 0
write_four-outside i a b c d j xs n0 n1 n2 n3 =
    get_or-set_ne (set (set (set xs i a) (i + 1) b) (i + 2) c) (i + 3) j d 0 (λ e. n3 (sym e))
    ∙ get_or-set_ne (set (set xs i a) (i + 1) b) (i + 2) j c 0 (λ e. n2 (sym e))
    ∙ get_or-set_ne (set xs i a) (i + 1) j b 0 (λ e. n1 (sym e))
    ∙ get_or-set_ne xs i j a 0 (λ e. n0 (sym e))

module _ {T : Type 0} (tracking : BitTracker T) where
  -- A 32 bit value that is set in a block of the surface is got from it. The index is a byte, so the
  -- surface may have at most 64 blocks.
  pub get_32-set_32 :
      (value block_index : ℕ) (s : Surface T)
      → value < 4294967296
      → block_index < 64
      → block_index * block_size + 4 ≤ length s.bytes
      → get_32 block_index (set_32 tracking value block_index s) ≡ value
  unfolding get_32 set_32 invalidate_block on_data_changed
  get_32-set_32 value block_index s h k l = omega (
    arith,
    get_or-write_four (u8 (block_index * block_size)) (u8 value) (u8 (value / 256))
        (u8 (value / 65536)) (u8 (value / 16777216)) s.bytes (omega (arith, k, l)),
    h,
  )

  -- Setting a block below 64 leaves what every other block below 64 holds, tells the tracker
  -- of the block that was set alone, fires the signal once, and keeps the size of the data.
  pub set_32-elsewhere :
      (value block_index other : ℕ) (s : Surface T)
      → block_index < 64
      → other < 64
      → block_index ≢ other
      → let s' = set_32 tracking value block_index s in
        (get_32 other s' ≡ get_32 other s)
        × (s'.tracker ≡ tracking.set_bit block_index s.tracker)
        × (s'.fired ≡ s.data_good ∷ s.fired)
        × (length s'.bytes ≡ length s.bytes)
  unfolding get_32 set_32 invalidate_block on_data_changed
  set_32-elsewhere value block_index other s k l n = (
    word (at o 0 (omega arith) (omega arith)) (at (o + 1) 1 refl (omega arith))
        (at (o + 2) 2 refl (omega arith)) (at (o + 3) 3 refl (omega arith)),
    refl,
    refl,
    length-set _ (i + 3) _
        ∙ length-set _ (i + 2) _
        ∙ length-set _ (i + 1) _
        ∙ length-set s.bytes i _,
  )
    where
      i : ℕ
      i = u8 (block_index * block_size)

      o : ℕ
      o = u8 (other * block_size)

      ys : List ℕ
      ys =
          write_four i (u8 value) (u8 (value / 256)) (u8 (value / 65536)) (u8 (value / 16777216))
            s.bytes

      at : (j r : ℕ) → j ≡ o + r → r < 4 → get_or ys j 0 ≡ get_or s.bytes j 0
      at j r q h =
          write_four-outside i _ _ _ _ j s.bytes (λ e. omega (arith, e, q, n, h, k, l))
            (λ e. omega (arith, e, q, n, h, k, l)) (λ e. omega (arith, e, q, n, h, k, l))
            (λ e. omega (arith, e, q, n, h, k, l))

      word :
          {a a' b b' c c' d d' : ℕ}
          → a ≡ a'
          → b ≡ b'
          → c ≡ c'
          → d ≡ d'
          → u32 (a + b * 256 + c * 65536 + d * 16777216)
            ≡ u32 (a' + b' * 256 + c' * 65536 + d' * 16777216)
      word p q r t = omega (arith, p, q, r, t)
