-- ===== src/Crypto/KeyExchange/Stages.antt =====
-- The stages of src/LoLaCrypto/LoLaCryptoKeyExchange.h under any sequence of calls.
use lo_la.Prelude.{ℕ, true, Option, some, List, [], ◌∷◌, ◌≡◌, arith}
use lo_la.Crypto.KeyExchange.{
  EccLibrary, KeyExchanger, generate_new_key_pair, generate_shared_key, new_exchanger,
  set_partner_public_key, is_ready_to_use, setup, clear, clear_partner,
}

-- The calls that change an exchanger.
pub data Call : Type 0 where
  call_setup call_clear call_clear_partner call_generate_shared : Call
  call_generate : Option (List ℕ × List ℕ) → Call
  call_set_partner : List ℕ → Call

module _ (ecc : EccLibrary) where
  unfoldable pub perform : Call → KeyExchanger → KeyExchanger
  perform call_setup x = (setup x).0
  perform call_clear x = clear x
  perform call_clear_partner x = clear_partner x
  perform call_generate_shared x = (generate_shared_key ecc x).0
  perform (call_generate made) x = (generate_new_key_pair ecc made x).0
  perform (call_set_partner key) x = (set_partner_public_key key x).0

  unfoldable pub perform_all : List Call → KeyExchanger → KeyExchanger
  perform_all [] x = x
  perform_all (c ∷ cs) x = perform_all cs (perform c x)

  -- A key that is ready is the secret of the private key and the partner's key that stand there.
  pub record IsSound (x : KeyExchanger) : Type 0 where
    pub sound :
        is_ready_to_use x ≡ true
        → ecc.shared_secret (ecc.decompress x.partner_public_key_compressed) x.private_key
          ≡ some x.shared_key

  pub perform-IsSound : (c : Call) (x : KeyExchanger) → IsSound x → IsSound (perform c x)
  unfolding perform setup clear clear_partner generate_shared_key generate_new_key_pair
      set_partner_public_key is_ready_to_use
  perform-IsSound c x v = ground (arith, v.sound)

  perform_all-IsSound : (cs : List Call) (x : KeyExchanger) → IsSound x → IsSound (perform_all cs x)
  unfolding perform_all
  perform_all-IsSound [] x v = v
  perform_all-IsSound (c ∷ cs) x v = perform_all-IsSound cs (perform c x) (perform-IsSound c x v)

  new_exchanger-IsSound : IsSound new_exchanger
  unfolding is_ready_to_use
  new_exchanger-IsSound = ground arith

  -- After any calls on a new exchanger: a key that is ready to use is the ECDH secret of the
  -- private key and the partner's public key that the exchanger holds.
  pub ready_key_sound :
      (cs : List Call)
      → is_ready_to_use (perform_all cs new_exchanger) ≡ true
      → let x = perform_all cs new_exchanger in
        ecc.shared_secret (ecc.decompress x.partner_public_key_compressed) x.private_key
        ≡ some x.shared_key
  ready_key_sound cs h = (perform_all-IsSound cs new_exchanger new_exchanger-IsSound).sound h
