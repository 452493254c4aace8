-- ===== src/Crypto/Library.antt =====
-- The libraries that src/LoLaCrypto calls and that are not of the repository: Ascon128 and
-- SHA256 of arduinolibs, FastCRC and micro-ecc. Their operations are parameters; a law
-- states what their documentation promises.
use lo_la.Prelude.{ℕ, ◌<◌, ◌≡◌, List, ◌++◌, ◌∷◌, Bool, length}

-- The calls that a SHA256 object has had. What it answers is a function of them.
pub data HashCall : Type 0 where
  clear : HashCall
  update : List ℕ → HashCall
  finalize : HashCall

pub record CryptoLibrary : Type 0 where
  -- Ascon128: `setKey`, `setIV`, `addAuthData`, then `encrypt` or `decrypt`.
  pub set_key_ok : List ℕ → Bool
  pub set_iv_ok : List ℕ → Bool
  pub encrypt : (key iv auth message : List ℕ) → List ℕ
  pub decrypt : (key iv auth message : List ℕ) → List ℕ
  -- FastCRC16 `modbus` and FastCRC8 `smbus` over the bytes given.
  pub modbus : List ℕ → ℕ
  pub smbus : List ℕ → ℕ
  -- The word that the first four bytes of `finalize` hold, after these calls, the last one first.
  pub hash_word : List HashCall → ℕ

-- What is promised of the cypher and of the checksums.
pub record IsLawful (l : CryptoLibrary) : Type 0 where
  pub decrypt-encrypt :
      (key iv auth message : List ℕ)
      → l.decrypt key iv auth (l.encrypt key iv auth message) ≡ message
  pub length-encrypt :
      (key iv auth message : List ℕ) → length (l.encrypt key iv auth message) ≡ length message
  pub modbus-lt : (bytes : List ℕ) → l.modbus bytes < 65536

-- `clear` makes a hasher forget what it was fed.
pub record HashIsLawful (l : CryptoLibrary) : Type 0 where
  pub hash_word-clear :
      (calls before before' : List HashCall)
      → l.hash_word (calls ++ (clear ∷ before)) ≡ l.hash_word (calls ++ (clear ∷ before'))
  pub hash_word-lt : (calls : List HashCall) → l.hash_word calls < 4294967296
