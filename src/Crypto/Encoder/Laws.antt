-- ===== src/Crypto/Encoder/Laws.antt =====
-- What src/LoLaCrypto/LoLaCryptoEncoder.h promises to the packet driver and to the link.
use lo_la.Prelude.{ℕ, ◌-◌, ◌<◌, true, List, [], ◌∷◌, ◌++◌, ◌≡◌, arith, length, take, word_bytes}
use lo_la.Crypto.Library.{CryptoLibrary, HashCall, update, finalize, IsLawful, HashIsLawful}
use lo_la.Crypto.Encoder.{Encoder, key_size, encode, decode, set_secret_key, set_iv_data}

module _ (lib : CryptoLibrary) (lawful : IsLawful lib) where
  pub length-encode :
      (e : Encoder) (message : List ℕ) → length (encode lib e message).0 ≡ length message
  unfolding encode
  length-encode e message =
      ground (arith, lawful.length-encrypt e.key_holder e.iv_holder e.token_holder message)

  pub encode-crc-lt : (e : Encoder) (message : List ℕ) → (encode lib e message).1 < 65536
  unfolding encode
  encode-crc-lt e message = lawful.modbus-lt (encode lib e message).0

  -- Two encoders whose stage, key, IV and token agree understand one another: what one encodes,
  -- the other accepts and decodes to the message, in every stage.
  pub decode-encode :
      (sender receiver : Encoder) (message : List ℕ)
      → sender.encoder_state ≡ receiver.encoder_state
      → sender.key_holder ≡ receiver.key_holder
      → sender.iv_holder ≡ receiver.iv_holder
      → sender.token_holder ≡ receiver.token_holder
      → let (out, crc) = encode lib sender message in decode lib receiver out crc ≡ (message, true)
  unfolding encode decode
  decode-encode sender receiver message s k i t = ground (
    arith,
    lawful.decrypt-encrypt receiver.key_holder receiver.iv_holder receiver.token_holder message,
  )

module _ (lib : CryptoLibrary) (lawful : HashIsLawful lib) where
  -- The IV depends on the session and the two ids alone, not on what the encoder did before: both
  -- partners derive the same one.
  pub set_iv_data_agrees :
      (session id1 id2 : ℕ) (e e' : Encoder)
      → (set_iv_data lib session id1 id2 e).iv_holder
        ≡ (set_iv_data lib session id1 id2 e').iv_holder
  unfolding set_iv_data
  set_iv_data_agrees session id1 id2 e e' = cc (
    at (u id1 ∷ update (take 1 (word_bytes session)) ∷ []) e.hasher e'.hasher,
    at (u id2 ∷ s ∷ []) (finalize ∷ h1 e) (finalize ∷ h1 e'),
    at (u id2 ∷ u id1 ∷ s ∷ []) (finalize ∷ h2 e) (finalize ∷ h2 e'),
    at (s ∷ []) (finalize ∷ h3 e) (finalize ∷ h3 e'),
  )
    where
      at :
          (calls before before' : List HashCall)
          → lib.hash_word (calls ++ (HashCall.clear ∷ before))
            ≡ lib.hash_word (calls ++ (HashCall.clear ∷ before'))
      at = lawful.hash_word-clear

      u : ℕ → HashCall
      u id = update (word_bytes id)

      s : HashCall
      s = u session

      h1 : Encoder → List HashCall
      h1 d = u id1 ∷ update (take 1 (word_bytes session)) ∷ HashCall.clear ∷ d.hasher

      h2 : Encoder → List HashCall
      h2 d = u id2 ∷ s ∷ HashCall.clear ∷ finalize ∷ h1 d

      h3 : Encoder → List HashCall
      h3 d = u id2 ∷ u id1 ∷ s ∷ HashCall.clear ∷ finalize ∷ h2 d

  -- The token seed that `set_secret_key` derives is the same whatever the secret key is.
  pub token_seed-set_secret_key :
      (key key' : List ℕ) (n : ℕ) (e e' : Encoder)
      → e.iv_holder ≡ e'.iv_holder
      → e.token_holder ≡ e'.token_holder
      → (set_secret_key lib key n e).1 ≡ true
      → (set_secret_key lib key' n e').1 ≡ true
      → (set_secret_key lib key n e).0.token_seed ≡ (set_secret_key lib key' n e').0.token_seed
  unfolding set_secret_key
  token_seed-set_secret_key key key' n e e' i t h h' = ground (
    arith,
    lawful.hash_word-clear (update (take (n - key_size) (e.iv_holder ++ e.token_holder)) ∷ [])
        e.hasher e'.hasher,
  )
