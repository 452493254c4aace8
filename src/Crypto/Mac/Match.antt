-- ===== src/Crypto/Mac/Match.antt =====
-- Match of src/LoLaCrypto/PseudoMacGenerator.h compares whole MACs.
use lo_la.Prelude.{
  ℕ, zero, suc, ◌+◌, ◌≡◌, refl, sym, ap₂, ◌∙◌, ◌↔◌, true, false, List, [], ◌∷◌, length, get_or,
  if◌then◌else◌, ◌==◌, ==_self, ==_iff, Bool, arith,
}
use lo_la.Crypto.Mac.{match_from, matches}

match_from-suc :
    (rounds i x y : ℕ) (xs ys : List ℕ)
    → match_from rounds (suc i) (x ∷ xs) (y ∷ ys) ≡ match_from rounds i xs ys
unfolding match_from
match_from-suc zero i x y xs ys = refl
match_from-suc (suc rounds) i x y xs ys =
    let next : suc i + 1 ≡ suc (i + 1) = omega arith in
    rw (next, match_from-suc rounds (i + 1) x y xs ys) refl

match_from_self : (rounds i : ℕ) (xs : List ℕ) → match_from rounds i xs xs ≡ true
unfolding match_from
match_from_self zero i xs = refl
match_from_self (suc rounds) i xs =
    rw (==_self (get_or xs i 0), match_from_self rounds (i + 1) xs) refl

both : (b c : Bool) → (if b then c else false) ≡ true → (b ≡ true) × (c ≡ true)
both true c h = (refl, h)
both false c h = ground arith

match_from-eq :
    (xs ys : List ℕ) → length xs ≡ length ys → match_from (length xs) 0 xs ys ≡ true → xs ≡ ys
unfolding match_from
match_from-eq [] [] e h = refl
match_from-eq [] (y ∷ ys) e h = absurd (omega (arith, e))
match_from-eq (x ∷ xs) [] e h = absurd (omega (arith, e))
match_from-eq (x ∷ xs) (y ∷ ys) e h =
    let (same, rest) = both (x == y) _ h in
    ap₂ (λ a l. a ∷ l) ((==_iff x y).0 same)
      (match_from-eq xs ys (omega (arith, e)) (sym (match_from-suc (length xs) 0 x y xs ys) ∙ rest))

-- Two MACs of the right length match only if they are equal.
pub matches_iff :
    (mac1 mac2 : List ℕ) (n : ℕ)
    → length mac1 ≡ n
    → length mac2 ≡ n
    → (matches n mac1 mac2 ≡ true) ↔ (mac1 ≡ mac2)
unfolding matches
matches_iff mac1 mac2 n e f = (
  λ h. match_from-eq mac1 mac2 (e ∙ sym f) (rw e h),
  λ same. rw (sym same) (match_from_self n 0 mac1),
)
