-- ===== src/Crypto/KeyExchange/Agreement.antt =====
-- Two exchangers of src/LoLaCrypto/LoLaCryptoKeyExchange.h that swap their public keys.
use lo_la.Prelude.{
  ℕ, true, some, List, ◌≡◌, inl, inr, sym, ◌∙◌, ap, arith, take, take-all, Option-cases,
}
use lo_la.Packet.Definition.{key_max_size}
use lo_la.Crypto.KeyExchange.{
  EccLibrary, IsLawful, KeyExchanger, generate_new_key_pair, generate_shared_key,
  get_public_key_compressed, set_partner_public_key, is_ready_to_use,
}

module _ (ecc : EccLibrary) (lawful : IsLawful ecc) where
  -- The state of an exchanger that made the pair `(p, k)` and was told the key of `(q, l)`.
  abbrev paired : (p k q : List ℕ) → KeyExchanger → KeyExchanger
  paired p k q x =
      (set_partner_public_key (ecc.compress q) (generate_new_key_pair ecc (some (p, k)) x).0).0

  take-compress :
      (q l : List ℕ)
      → ecc.is_key_pair q l ≡ true
      → take key_max_size (ecc.compress q) ≡ ecc.compress q
  take-compress q l h =
      ap (λ n. take n (ecc.compress q)) (sym (lawful.length-compress q l h))
      ∙ take-all (ecc.compress q)

  public_key :
      (p k : List ℕ) (x : KeyExchanger)
      → ecc.is_key_pair p k ≡ true
      → get_public_key_compressed (generate_new_key_pair ecc (some (p, k)) x).0
        ≡ some (ecc.compress p)
  unfolding get_public_key_compressed generate_new_key_pair
  public_key p k x h = ap some (take-compress p k h)

  generate_paired :
      (p k q l s : List ℕ) (x : KeyExchanger)
      → ecc.is_key_pair q l ≡ true
      → ecc.shared_secret q k ≡ some s
      → let y = generate_shared_key ecc (paired p k q x) in
        (y.1 ≡ true) × (y.0.shared_key ≡ s) × (is_ready_to_use y.0 ≡ true)
  unfolding generate_shared_key set_partner_public_key generate_new_key_pair is_ready_to_use
  generate_paired p k q l s x h e =
      ground (arith, take-compress q l h, lawful.decompress-compress q l h)

  -- Each side makes a key pair, reads its public key, is told the partner's and generates the
  -- shared key: both sides succeed, whatever state they were in, and hold the same shared key.
  -- The curve is as micro-ecc documents it.
  pub shared_key_agrees :
      (p k q l : List ℕ) (x y : KeyExchanger)
      → ecc.is_key_pair p k ≡ true
      → ecc.is_key_pair q l ≡ true
      → let x1 = (generate_new_key_pair ecc (some (p, k)) x).0 in
        let y1 = (generate_new_key_pair ecc (some (q, l)) y).0 in
        (px : List ℕ) × (py : List ℕ) × (get_public_key_compressed x1 ≡ some px)
        × (get_public_key_compressed y1 ≡ some py)
        × (let x3 = generate_shared_key ecc (set_partner_public_key py x1).0 in
            let y3 = generate_shared_key ecc (set_partner_public_key px y1).0 in
            (x3.1 ≡ true)
            × (y3.1 ≡ true)
            × (x3.0.shared_key ≡ y3.0.shared_key)
            × (is_ready_to_use x3.0 ≡ true)
            × (is_ready_to_use y3.0 ≡ true))
  shared_key_agrees p k q l x y hp hq = elim (Option-cases (ecc.shared_secret q k)) [
    | inl e ↦ absurd (ground (arith, lawful.shared_secret-is_some p k q l hp hq))
    | inr (s, e) ↦
        let gx = generate_paired p k q l s x hq e in
        let gy =
          generate_paired q l p k s y hp (sym (lawful.shared_secret_comm p k q l hp hq) ∙ e) in
        (
          ecc.compress p,
          ecc.compress q,
          public_key p k x hp,
          public_key q l y hq,
          (gx.0, gy.0, gx.1 ∙ sym gy.1, gx.2, gy.2),
        )
  ]
