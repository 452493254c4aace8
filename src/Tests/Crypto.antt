-- ===== src/Tests/Crypto.antt =====
-- The theorems on src/LoLaCrypto at concrete keys and messages.
use lo_la.Prelude.{arith, ℕ, ◌+◌, ◌%◌, ◌++◌, false, true, some, List, [], ◌∷◌, ◌≡◌, refl, replicate}
use lo_la.Crypto.Encoder.{Encoder, encode, decode, set_iv_data, set_secret_key}
use lo_la.Crypto.Encoder.Laws.{decode-encode, set_iv_data_agrees, token_seed-set_secret_key}
use lo_la.Crypto.KeyExchange.{
  new_exchanger, generate_new_key_pair, get_public_key_compressed, set_partner_public_key,
  generate_shared_key, is_ready_to_use,
}
use lo_la.Crypto.KeyExchange.Agreement.{shared_key_agrees}
use lo_la.Crypto.KeyExchange.Stages.{
  Call, call_generate, call_set_partner, call_generate_shared, perform, perform_all,
  ready_key_sound,
}
use lo_la.Crypto.Mac.{
  Crc8, IsForgetful, LolaMac, mac_bytes, last_byte, update_mac, lazy_load, get_mac_hash,
  get_mac_pointer,
}
use lo_la.Crypto.Mac.Identifier.{mac_of_identifier}
use lo_la.Tests.Values.{toy, toy-IsLawful, toy-HashIsLawful, curve, curve-IsLawful, keyed, sum}

decode-encode_example :
    let (out, crc) = encode toy keyed (5 ∷ 4 ∷ 7 ∷ 8 ∷ 9 ∷ []) in
    decode toy keyed out crc ≡ (5 ∷ 4 ∷ 7 ∷ 8 ∷ 9 ∷ [], true)
decode-encode_example =
    decode-encode toy toy-IsLawful keyed keyed (5 ∷ 4 ∷ 7 ∷ 8 ∷ 9 ∷ []) refl refl refl refl

abbrev used : Encoder
used = (set_secret_key toy (replicate 20 9) 20 keyed).0

set_iv_data_agrees_example :
    (set_iv_data toy 77 1 2 keyed).iv_holder ≡ (set_iv_data toy 77 1 2 used).iv_holder
set_iv_data_agrees_example = set_iv_data_agrees toy toy-HashIsLawful 77 1 2 keyed used

accepts : (key : List ℕ) → (set_secret_key toy key 20 keyed).1 ≡ true
unfolding set_secret_key
accepts key = refl

token_seed-set_secret_key_example :
    (set_secret_key toy (replicate 20 9) 20 keyed).0.token_seed
    ≡ (set_secret_key toy (replicate 20 5) 20 keyed).0.token_seed
token_seed-set_secret_key_example =
    token_seed-set_secret_key toy toy-HashIsLawful (replicate 20 9) (replicate 20 5) 20 keyed keyed
      refl refl (accepts (replicate 20 9)) (accepts (replicate 20 5))

shared_key_agrees_example :
    let x1 = (generate_new_key_pair curve (some (replicate 21 5, 100 ∷ 5 ∷ [])) new_exchanger).0 in
    let y1 = (generate_new_key_pair curve (some (replicate 21 2, 42 ∷ [])) new_exchanger).0 in
    (px : List ℕ) × (py : List ℕ) × (get_public_key_compressed x1 ≡ some px)
    × (get_public_key_compressed y1 ≡ some py)
    × (let x3 = generate_shared_key curve (set_partner_public_key py x1).0 in
        let y3 = generate_shared_key curve (set_partner_public_key px y1).0 in
        (x3.1 ≡ true)
        × (y3.1 ≡ true)
        × (x3.0.shared_key ≡ y3.0.shared_key)
        × (is_ready_to_use x3.0 ≡ true)
        × (is_ready_to_use y3.0 ≡ true))
unfolding sum
shared_key_agrees_example =
    shared_key_agrees curve curve-IsLawful (replicate 21 5) (100 ∷ 5 ∷ []) (replicate 21 2)
      (42 ∷ []) new_exchanger new_exchanger five two
  where
    five : curve.is_key_pair (replicate 21 5) (100 ∷ 5 ∷ []) ≡ true
    five = refl

    two : curve.is_key_pair (replicate 21 2) (42 ∷ []) ≡ true
    two = refl

abbrev pairing : List Call
pairing =
    call_generate (some (replicate 21 5, 100 ∷ 5 ∷ []))
    ∷ call_set_partner (replicate 21 2)
    ∷ call_generate_shared
    ∷ []

pairing_ready : is_ready_to_use (perform_all curve pairing new_exchanger) ≡ true
unfolding perform_all perform generate_new_key_pair set_partner_public_key generate_shared_key
    is_ready_to_use
pairing_ready = refl

ready_key_sound_example :
    let x = perform_all curve pairing new_exchanger in
    curve.shared_secret (curve.decompress x.partner_public_key_compressed) x.private_key
    ≡ some x.shared_key
ready_key_sound_example = ready_key_sound curve pairing pairing_ready

-- A CRC that adds up its bytes.
abbrev adding : Crc8 ℕ
adding = record {
  smbus = λ bytes c. (sum bytes % 256, sum bytes % 256);
  smbus_upd = λ bytes c. ((c + sum bytes) % 256, (c + sum bytes) % 256);
}

adding-IsForgetful : IsForgetful adding
adding-IsForgetful = record { smbus_anew = λ bytes c d. refl }

abbrev unmade : ℕ → LolaMac ℕ
unmade c = record { mac = replicate 8 0; mac_hash = 0; cached = false; crc8 = c }

abbrev first_fourteen : List ℕ
first_fourteen = 1 ∷ 2 ∷ 3 ∷ 4 ∷ 5 ∷ 6 ∷ 7 ∷ 8 ∷ 9 ∷ 10 ∷ 11 ∷ 12 ∷ 13 ∷ 14 ∷ []

mac_of_identifier_example :
    ((get_mac_hash adding 8 (first_fourteen ++ (15 ∷ 16 ∷ [])) (unmade 3)).0
      ≡ (get_mac_hash adding 8 (first_fourteen ++ (99 ∷ 98 ∷ [])) (unmade 77)).0)
    × ((get_mac_pointer adding 8 (first_fourteen ++ (15 ∷ 16 ∷ [])) (unmade 3)).0
        ≡ (get_mac_pointer adding 8 (first_fourteen ++ (99 ∷ 98 ∷ [])) (unmade 77)).0)
mac_of_identifier_example =
    mac_of_identifier adding 8 adding-IsForgetful first_fourteen (15 ∷ 16 ∷ []) (99 ∷ 98 ∷ [])
      (unmade 3) (unmade 77) (omega arith) (omega arith) refl refl refl

-- The MAC of that identifier: the last byte adds the bytes 8 to 14.
mac_made :
    (get_mac_pointer adding 8
      (1 ∷ 2 ∷ 3 ∷ 4 ∷ 5 ∷ 6 ∷ 7 ∷ 8 ∷ 9 ∷ 10 ∷ 11 ∷ 12 ∷ 13 ∷ 14 ∷ 15 ∷ 16 ∷ [])
      (unmade 3)).0
    ≡ (1 ∷ 3 ∷ 6 ∷ 10 ∷ 15 ∷ 21 ∷ 28 ∷ 77 ∷ [])
unfolding get_mac_pointer lazy_load update_mac mac_bytes last_byte sum
mac_made = refl
