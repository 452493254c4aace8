-- ===== src/Crypto/Encoder.antt =====
-- src/LoLaCrypto/LoLaCryptoEncoder.h, with LOLA_LINK_USE_ENCRYPTION as LoLaDefinitions.h sets it.
-- A message is the bytes that its pointer and length give.
pub mod Laws
use lo_la.Prelude.{
  ℕ, ◌+◌, ◌-◌, ◌*◌, ◌/◌, ◌%◌, Bool, true, false, not, if◌then◌else◌, List, [], ◌∷◌, ◌++◌, ltb, ◌==◌,
  u8, word_bytes, bytes_word, take, drop, get_or, replicate, length,
}
use lo_la.Crypto.Library.{CryptoLibrary, HashCall, update, finalize}

pub data Stage : Type 0 where
  all_clear all_ready full_power : Stage

abbrev pub key_size : ℕ
key_size = 16

abbrev pub token_size : ℕ
token_size = 4

-- `hasher` is the calls that the SHA256 object has had, the last one first. The union ATUI is
-- written before each read, so it is no part of the state.
pub record Encoder : Type 0 where
  pub encoder_state : Stage
  pub hasher : List HashCall
  pub key_holder : List ℕ
  pub iv_holder : List ℕ
  pub token_holder : List ℕ
  pub token_seed : ℕ

abbrev pub is_full_power : Stage → Bool
is_full_power full_power = true
is_full_power _ = false

module _ (lib : CryptoLibrary) where
  -- `ResetCypherBlock` loads key, IV and token, and `encrypt` runs from there.
  unfoldable pub encrypt_block : Encoder → List ℕ → List ℕ
  encrypt_block e message = lib.encrypt e.key_holder e.iv_holder e.token_holder message

  unfoldable pub decrypt_block : Encoder → List ℕ → List ℕ
  decrypt_block e message = lib.decrypt e.key_holder e.iv_holder e.token_holder message

  -- Both overloads of `Encode`: the bytes that stand in the output after it, and the CRC.
  unfoldable pub encode : Encoder → List ℕ → List ℕ × ℕ
  unfolding encrypt_block
  encode e message =
      let out = if is_full_power e.encoder_state then encrypt_block e message else message in
      (out, lib.modbus out)

  -- The message in place after it, and whether it was accepted.
  unfoldable pub decode : Encoder → List ℕ → ℕ → List ℕ × Bool
  unfolding decrypt_block
  decode e message crc =
      if not (crc == lib.modbus message)
      then (message, false)
      else (if is_full_power e.encoder_state then decrypt_block e message else message, true)

  unfoldable pub encode_direct : Encoder → List ℕ → List ℕ
  unfolding encrypt_block
  encode_direct e message = encrypt_block e message

  unfoldable pub decode_direct : Encoder → List ℕ → List ℕ
  unfolding decrypt_block
  decode_direct e message = decrypt_block e message

  -- `Hasher.clear(); Hasher.update(seedBytes, length); Hasher.finalize(...)`.
  unfoldable pub set_token_seed : List ℕ → Encoder → Encoder
  set_token_seed seed_bytes e =
      let calls = update seed_bytes ∷ HashCall.clear ∷ e.hasher in
      record e { hasher = finalize ∷ calls; token_seed = lib.hash_word calls }

  -- `&KeyHolder[KeySize]` points behind KeyHolder. The next members are IVHolder and TokenHolder,
  -- byte arrays that follow without a gap: those are the bytes read, for keys of up to 36 bytes (the
  -- link service gives 20).
  unfoldable pub set_secret_key : List ℕ → ℕ → Encoder → Encoder × Bool
  unfolding set_token_seed
  set_secret_key secret_key key_length e =
      if ltb key_length (key_size + token_size)
      then (e, false)
      else let keyed = record e { key_holder = take key_size secret_key } in
        if not (lib.set_key_ok keyed.key_holder)
        then (keyed, false)
        else if not (lib.set_iv_ok keyed.iv_holder)
        then (keyed, false)
        else let behind = take (key_length - key_size) (keyed.iv_holder ++ keyed.token_holder) in
          (record (set_token_seed behind keyed) { encoder_state = all_ready }, true)

  -- Four hashes, each of four bytes of the IV. The first takes one byte of the session only,
  -- `sizeof(uint8_t)`.
  unfoldable pub set_iv_data : ℕ → ℕ → ℕ → Encoder → Encoder
  set_iv_data session id1 id2 e =
      let h1 =
        update (word_bytes id1)
        ∷ update (take 1 (word_bytes session))
        ∷ HashCall.clear
        ∷ e.hasher in
      let h2 =
        update (word_bytes id2) ∷ update (word_bytes session) ∷ HashCall.clear ∷ finalize ∷ h1 in
      let h3 =
        update (word_bytes id2)
        ∷ update (word_bytes id1)
        ∷ update (word_bytes session)
        ∷ HashCall.clear
        ∷ finalize
        ∷ h2 in
      let h4 = update (word_bytes session) ∷ HashCall.clear ∷ finalize ∷ h3 in
      record e {
        hasher = finalize ∷ h4;
        iv_holder =
            word_bytes (lib.hash_word h1)
            ++ (word_bytes (lib.hash_word h2)
                ++ (word_bytes (lib.hash_word h3) ++ word_bytes (lib.hash_word h4)));
      }

  -- No `clear` before the `update`, as in the source.
  unfoldable pub set_token : ℕ → Encoder → Encoder
  set_token token e =
      let calls = update (word_bytes token) ∷ e.hasher in
      record e { hasher = finalize ∷ calls; token_holder = word_bytes (lib.hash_word calls) }

unfoldable pub get_token : Encoder → ℕ
get_token e =
    bytes_word (get_or e.token_holder 0 0) (get_or e.token_holder 1 0) (get_or e.token_holder 2 0)
      (get_or e.token_holder 3 0)

unfoldable pub clear : Encoder → Encoder
clear e = record e {
  encoder_state = all_clear;
  token_holder = replicate token_size 0;
  key_holder = replicate key_size 0;
  iv_holder = replicate key_size 0;
  token_seed = 0;
}

enable_from : Stage → Encoder → Encoder × Bool
enable_from all_ready e = (record e { encoder_state = full_power }, true)
enable_from full_power e = (e, true)
enable_from all_clear e = (e, false)

unfoldable pub set_enabled : Encoder → Encoder × Bool
unfolding enable_from
set_enabled e = enable_from e.encoder_state e
