-- ===== src/Link/Handshake.antt =====
-- Host and remote of src/Services/Link together: what one builds, the other reads.
pub mod Packets
pub mod Requests
pub mod Keys
pub mod Clocks
pub mod Agreement
use lo_la.Prelude.{ℕ, zero, suc, ◌≤◌, List, [], ◌∷◌, ◌≡◌, refl, ap, get_or, drop, length, arith}

-- The first bytes of a buffer, written out.
abbrev pub expose : ℕ → List ℕ → List ℕ
expose zero xs = xs
expose (suc n) xs = get_or xs 0 0 ∷ expose n (drop 1 xs)

pub expose-eq : (n : ℕ) (xs : List ℕ) → n ≤ length xs → expose n xs ≡ xs
expose-eq zero xs h = refl
expose-eq (suc n) [] h = absurd (omega arith)
expose-eq (suc n) (x ∷ xs) h = ap (λ l. x ∷ l) (expose-eq n xs (omega (arith, h)))
