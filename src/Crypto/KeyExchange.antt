-- ===== src/Crypto/KeyExchange.antt =====
-- src/LoLaCrypto/LoLaCryptoKeyExchange.h. micro-ecc (secp160r1) is the parameter `ecc`; the key
-- pair that `uECC_make_key` makes of its random numbers is an argument, `none` when it fails.
-- The random source RNG itself reads an analog pin and is not modelled.
pub mod Agreement
pub mod Stages
use lo_la.Prelude.{
  ℕ, Bool, true, false, if◌then◌else◌, Option, none, some, List, [], ◌≡◌, take, replicate, length,
  is_some,
}
use lo_la.Packet.Definition.{key_max_size}

pub record EccLibrary : Type 0 where
  pub is_key_pair : (public private : List ℕ) → Bool
  pub compress : List ℕ → List ℕ
  pub decompress : List ℕ → List ℕ
  -- `none` stands for the result 0.
  pub shared_secret : (public private : List ℕ) → Option (List ℕ)

-- What micro-ecc promises of the key pairs that it makes.
pub record IsLawful (ecc : EccLibrary) : Type 0 where
  pub decompress-compress :
      (p k : List ℕ) → ecc.is_key_pair p k ≡ true → ecc.decompress (ecc.compress p) ≡ p
  pub length-compress :
      (p k : List ℕ) → ecc.is_key_pair p k ≡ true → length (ecc.compress p) ≡ key_max_size
  pub shared_secret_comm :
      (p k q l : List ℕ)
      → ecc.is_key_pair p k ≡ true
      → ecc.is_key_pair q l ≡ true
      → ecc.shared_secret q k ≡ ecc.shared_secret p l
  pub shared_secret-is_some :
      (p k q l : List ℕ)
      → ecc.is_key_pair p k ≡ true
      → ecc.is_key_pair q l ≡ true
      → is_some (ecc.shared_secret q k) ≡ true

pub data PairingStage : Type 0 where
  stage_clear stage_local_key stage_partner_key stage_shared_key : PairingStage

pub record KeyExchanger : Type 0 where
  pub pairing_stage : PairingStage
  pub partner_public_key_compressed : List ℕ
  pub local_public_key_compressed : List ℕ
  pub private_key : List ℕ
  pub shared_key : List ℕ
  pub uncompressed_key : List ℕ

-- KEY_CURVE_SIZE
abbrev pub key_curve_size : ℕ
key_curve_size = 20

-- The constructor. C++ leaves the arrays undefined, here they are 0.
abbrev pub new_exchanger : KeyExchanger
new_exchanger = record {
  pairing_stage = stage_clear;
  partner_public_key_compressed = replicate key_max_size 0;
  local_public_key_compressed = replicate key_max_size 0;
  private_key = replicate key_max_size 0;
  shared_key = replicate key_curve_size 0;
  uncompressed_key = replicate 40 0;
}

abbrev pub is_local : PairingStage → Bool
is_local stage_local_key = true
is_local _ = false

unfoldable pub setup : KeyExchanger → KeyExchanger × Bool
setup x = (record x { pairing_stage = stage_clear }, true)

unfoldable pub clear : KeyExchanger → KeyExchanger
clear x = record x { pairing_stage = stage_clear }

cleared_stage : PairingStage → PairingStage
cleared_stage stage_partner_key = stage_local_key
cleared_stage stage_shared_key = stage_local_key
cleared_stage s = s

unfoldable pub clear_partner : KeyExchanger → KeyExchanger
unfolding cleared_stage
clear_partner x = record x { pairing_stage = cleared_stage x.pairing_stage }

abbrev pub is_shared : PairingStage → Bool
is_shared stage_shared_key = true
is_shared _ = false

unfoldable pub is_ready_to_use : KeyExchanger → Bool
is_ready_to_use x = is_shared x.pairing_stage

-- The bytes written to the target; `none` is the result `false`.
unfoldable pub get_shared_key : KeyExchanger → Option (List ℕ)
get_shared_key x =
    if is_shared x.pairing_stage then some (take key_curve_size x.shared_key) else none

abbrev pub is_clear : PairingStage → Bool
is_clear stage_clear = true
is_clear _ = false

unfoldable pub get_public_key_compressed : KeyExchanger → Option (List ℕ)
get_public_key_compressed x =
    if is_clear x.pairing_stage
    then none
    else some (take key_max_size x.local_public_key_compressed)

unfoldable pub set_partner_public_key : List ℕ → KeyExchanger → KeyExchanger × Bool
set_partner_public_key key_source x =
    if is_local x.pairing_stage
    then (
      record x {
        partner_public_key_compressed = take key_max_size key_source;
        pairing_stage = stage_partner_key;
      },
      true,
    )
    else (x, false)

module _ (ecc : EccLibrary) where
  -- The argument is what `uECC_make_key` made: a public and a private key.
  unfoldable pub generate_new_key_pair :
      Option (List ℕ × List ℕ) → KeyExchanger → KeyExchanger × Bool
  generate_new_key_pair none x = (x, false)
  generate_new_key_pair (some (public, private)) x = (
    record x {
      uncompressed_key = public;
      private_key = private;
      local_public_key_compressed = ecc.compress public;
      pairing_stage = stage_local_key;
    },
    true,
  )

  -- After `uECC_shared_secret`, with its result.
  shared_from : Option (List ℕ) → KeyExchanger → KeyExchanger × Bool
  shared_from none x =
      (record x { uncompressed_key = ecc.decompress x.partner_public_key_compressed }, false)
  shared_from (some secret) x = (
    record x {
      shared_key = secret;
      uncompressed_key = ecc.decompress x.local_public_key_compressed;
      pairing_stage = stage_shared_key;
    },
    true,
  )

  generate_from : PairingStage → KeyExchanger → KeyExchanger × Bool
  generate_from stage_partner_key x =
      shared_from (ecc.shared_secret (ecc.decompress x.partner_public_key_compressed) x.private_key)
        x
  generate_from stage_shared_key x = (x, true)
  generate_from _ x = (x, false)

  unfoldable pub generate_shared_key : KeyExchanger → KeyExchanger × Bool
  unfolding shared_from generate_from
  generate_shared_key x = generate_from x.pairing_stage x
