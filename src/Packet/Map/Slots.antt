-- ===== src/Packet/Map/Slots.antt =====
-- Facts on the array of src/Packet/LoLaPacketMap.h: how many slots are taken, and by what.
use lo_la.Prelude.{
  ℕ, zero, suc, ◌≤◌, ◌<◌, Option, none, some, List, [], ◌∷◌, ◌≡◌, refl, arith, get_or, set, length,
}

module _ {ℓ} {A : Type ℓ} where
  abbrev pub count_some : List (Option A) → ℕ
  count_some [] = 0
  count_some (none ∷ xs) = count_some xs
  count_some (some _ ∷ xs) = suc (count_some xs)

  pub count_some-le-length : (xs : List (Option A)) → count_some xs ≤ length xs
  count_some-le-length [] = omega arith
  count_some-le-length (none ∷ xs) = omega (arith, count_some-le-length xs)
  count_some-le-length (some _ ∷ xs) = omega (arith, count_some-le-length xs)

  -- A free slot leaves the count below the length.
  pub count_some-lt-length :
      (xs : List (Option A)) (i : ℕ)
      → i < length xs
      → get_or xs i none ≡ none
      → count_some xs < length xs
  count_some-lt-length [] i h e = absurd (omega arith)
  count_some-lt-length (none ∷ xs) zero h e = omega (arith, count_some-le-length xs)
  count_some-lt-length (some _ ∷ xs) zero h e = cc
  count_some-lt-length (none ∷ xs) (suc i) h e = omega (arith, count_some-le-length xs)
  count_some-lt-length (some _ ∷ xs) (suc i) h e =
      omega (arith, count_some-lt-length xs i (omega arith) e)

  pub count_some-set :
      (xs : List (Option A)) (i : ℕ) (a : A)
      → i < length xs
      → get_or xs i none ≡ none
      → count_some (set xs i (some a)) ≡ suc (count_some xs)
  count_some-set [] i a h e = absurd (omega arith)
  count_some-set (none ∷ xs) zero a h e = refl
  count_some-set (some _ ∷ xs) zero a h e = cc
  count_some-set (none ∷ xs) (suc i) a h e = count_some-set xs i a (omega arith) e
  count_some-set (some _ ∷ xs) (suc i) a h e = omega (arith, count_some-set xs i a (omega arith) e)
