-- ===== src/Crypto/Mac/Identifier.antt =====
-- What the MAC of src/LoLaCrypto/PseudoMacGenerator.h takes of the unique identifier.
use lo_la.Prelude.{
  ℕ, zero, suc, ◌+◌, ◌-◌, ◌≤◌, ◌<◌, ◌≡◌, refl, ap, true, false, List, [], ◌∷◌, ◌++◌, length, take,
  drop, get_or, leb, lt→ltb, Bool-cases, inl, inr, arith,
}
use lo_la.Crypto.Mac.{
  Crc8, IsForgetful, LolaMac, mac_bytes, last_byte, update_mac, lazy_load, get_mac_hash,
  get_mac_pointer,
}

get_or-before : (xs ys : List ℕ) (i : ℕ) → i < length xs → get_or (xs ++ ys) i 0 ≡ get_or xs i 0
get_or-before [] ys i h = absurd (omega arith)
get_or-before (x ∷ xs) ys zero h = refl
get_or-before (x ∷ xs) ys (suc i) h = get_or-before xs ys i (omega arith)

take-before : (k : ℕ) (xs ys : List ℕ) → k ≤ length xs → take k (xs ++ ys) ≡ take k xs
take-before zero xs ys h = refl
take-before (suc k) [] ys h = absurd (omega arith)
take-before (suc k) (x ∷ xs) ys h = ap (λ l. x ∷ l) (take-before k xs ys (omega arith))

take-drop-before :
    (k j : ℕ) (xs ys : List ℕ) → j + k ≤ length xs → take k (drop j (xs ++ ys)) ≡ take k (drop j xs)
take-drop-before k zero xs ys h = take-before k xs ys (omega (arith, h))
take-drop-before zero (suc j) [] ys h = refl
take-drop-before (suc k) (suc j) [] ys h = absurd (omega arith)
take-drop-before k (suc j) (x ∷ xs) ys h = take-drop-before k j xs ys (omega (arith, h))

module _ {C : Type 0} (crc : Crc8 C) (n : ℕ) where
  mac_bytes-before :
      (rounds i : ℕ) (xs ys zs : List ℕ) (c : C)
      → i + rounds ≤ length xs
      → mac_bytes crc n (xs ++ ys) rounds i c ≡ mac_bytes crc n (xs ++ zs) rounds i c
  unfolding mac_bytes
  mac_bytes-before zero i xs ys zs c h = refl
  mac_bytes-before (suc rounds) i xs ys zs c h =
      rw
        (
          get_or-before xs ys i (omega arith),
          get_or-before xs zs i (omega arith),
          mac_bytes-before rounds (i + 1) xs ys zs _ (omega arith),
        )
        refl

  -- The last byte hashes the identifier from `n - 1` on, up to its byte 13.
  last_byte-before :
      (xs ys zs : List ℕ) (c : C)
      → 1 ≤ n
      → n < 16
      → length xs ≡ 14
      → last_byte crc n (xs ++ ys) c ≡ last_byte crc n (xs ++ zs) c
  unfolding last_byte
  last_byte-before xs ys zs c low high h =
      rw
        (
          lt→ltb n 16 high,
          take-drop-before (16 - n - 1) (n - 1) xs ys (omega arith),
          take-drop-before (16 - n - 1) (n - 1) xs zs (omega arith),
        )
        refl

  -- From where the CRC object stood nothing is left.
  mac_bytes-anew :
      IsForgetful crc
      → (rounds : ℕ) (uuid : List ℕ) (c d : C)
      → mac_bytes crc n uuid (suc rounds) 0 c ≡ mac_bytes crc n uuid (suc rounds) 0 d
  unfolding mac_bytes
  mac_bytes-anew forgetful rounds uuid c d =
      rw (forgetful.smbus_anew (get_or uuid 0 0 ∷ []) c d) refl

  loaded_agree :
      IsForgetful crc
      → (xs ys zs : List ℕ) (s t : LolaMac C) → 1 < n
      → n < 16
      → length xs ≡ 14
      → s.cached ≡ false
      → t.cached ≡ false
      → lazy_load crc n (xs ++ ys) s ≡ lazy_load crc n (xs ++ zs) t
  unfolding lazy_load update_mac
  loaded_agree forgetful xs ys zs s t low high h e f =
      let leb_n : leb n 16 ≡ true = ground arith in
      let rounds : n - 1 ≡ suc (n - 2) = omega arith in
      rw
        (
          e,
          f,
          leb_n,
          rounds,
          mac_bytes-before (suc (n - 2)) 0 xs ys zs s.crc8 (omega arith),
          mac_bytes-anew forgetful (n - 2) (xs ++ zs) s.crc8 t.crc8,
          last_byte-before xs ys zs _ (omega arith) high h,
        )
        refl

  -- Two objects that have not made their MAC yet answer the same MAC and the same hash, if their
  -- identifiers agree in the first 14 bytes and the MAC has 4 to 15 bytes: it is a function of the
  -- identifier, and the last two bytes of that are not used.
  pub mac_of_identifier :
      IsForgetful crc
      → (xs ys zs : List ℕ) (s t : LolaMac C) → 3 < n
      → n < 16
      → length xs ≡ 14
      → s.cached ≡ false
      → t.cached ≡ false
      → ((get_mac_hash crc n (xs ++ ys) s).0 ≡ (get_mac_hash crc n (xs ++ zs) t).0)
        × ((get_mac_pointer crc n (xs ++ ys) s).0 ≡ (get_mac_pointer crc n (xs ++ zs) t).0)
  unfolding get_mac_hash get_mac_pointer
  mac_of_identifier forgetful xs ys zs s t low high h e f =
      let same = loaded_agree forgetful xs ys zs s t (omega arith) high h e f in
      (ap (λ m. m.mac_hash) same, ap (λ m. m.mac) same)

  -- A second question gets the same answer and leaves the object as it is.
  pub get_mac_hash-again :
      (uuid : List ℕ) (s : LolaMac C)
      → get_mac_hash crc n uuid (get_mac_hash crc n uuid s).1 ≡ get_mac_hash crc n uuid s
  unfolding get_mac_hash lazy_load
  get_mac_hash-again uuid s = elim (Bool-cases s.cached) [
    | inl e ↦ rw e refl
    | inr e ↦ elim (Bool-cases (leb n 16)) [ inl l ↦ rw (e, l) refl | inr l ↦ rw (e, l) refl ]
  ]
