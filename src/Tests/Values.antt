-- ===== src/Tests/Values.antt =====
-- A small cypher and curve that keep the promises of src/LoLaCrypto's libraries, and states of the
-- driver.
use lo_la.Prelude.{
  ℕ, suc, ◌+◌, ◌*◌, ◌%◌, ◌<◌, Bool, true, false, ◌&&◌, none, some, List, [], ◌∷◌, ◌++◌, ◌≡◌, refl,
  ap, arith, ◌==◌, length, replicate,
}
use lo_la.Packet.Definition.{ack_definition, ping_definition, report_definition, key_max_size}
use lo_la.Packet.Buffer.{Packet}
use lo_la.Packet.Map.{PacketMap}
use lo_la.Crypto.Library.{CryptoLibrary, IsLawful, HashIsLawful, HashCall, clear, update, finalize}
use lo_la.Crypto.Encoder.{Encoder, full_power}
use lo_la.Crypto.KeyExchange
use lo_la.Driver.Clock.{new_clock}
use lo_la.Driver.State.{Driver, ActiveState, clear_input}
use lo_la.Driver.Receive.{Handlers}

-- A cypher that swaps neighbouring bytes.
unfoldable pub swap_pairs : List ℕ → List ℕ
swap_pairs [] = []
swap_pairs (x ∷ []) = x ∷ []
swap_pairs (x ∷ y ∷ xs) = y ∷ x ∷ swap_pairs xs

swap_pairs-swap_pairs : (xs : List ℕ) → swap_pairs (swap_pairs xs) ≡ xs
unfolding swap_pairs
swap_pairs-swap_pairs [] = refl
swap_pairs-swap_pairs (x ∷ []) = refl
swap_pairs-swap_pairs (x ∷ y ∷ xs) = ap (λ l. x ∷ y ∷ l) (swap_pairs-swap_pairs xs)

length-swap_pairs : (xs : List ℕ) → length (swap_pairs xs) ≡ length xs
unfolding swap_pairs
length-swap_pairs [] = refl
length-swap_pairs (x ∷ []) = refl
length-swap_pairs (x ∷ y ∷ xs) = ap (λ n. suc (suc n)) (length-swap_pairs xs)

unfoldable pub sum : List ℕ → ℕ
sum [] = 0
sum (x ∷ xs) = x + sum xs

-- A hash that `clear` resets.
unfoldable pub hash_of : List HashCall → ℕ
unfolding sum
hash_of [] = 0
hash_of (clear ∷ calls) = 0
hash_of (update bytes ∷ calls) = (sum bytes + 31 * hash_of calls) % 4294967296
hash_of (finalize ∷ calls) = hash_of calls

hash_of-clear :
    (calls before before' : List HashCall)
    → hash_of (calls ++ (clear ∷ before)) ≡ hash_of (calls ++ (clear ∷ before'))
unfolding hash_of
hash_of-clear [] before before' = refl
hash_of-clear (clear ∷ calls) before before' = refl
hash_of-clear (update bytes ∷ calls) before before' =
    ap (λ h. (sum bytes + 31 * h) % 4294967296) (hash_of-clear calls before before')
hash_of-clear (finalize ∷ calls) before before' = hash_of-clear calls before before'

hash_of-lt : (calls : List HashCall) → hash_of calls < 4294967296
unfolding hash_of
hash_of-lt [] = omega arith
hash_of-lt (clear ∷ calls) = omega arith
hash_of-lt (update bytes ∷ calls) = omega arith
hash_of-lt (finalize ∷ calls) = hash_of-lt calls

abbrev pub toy : CryptoLibrary
toy = record {
  set_key_ok = λ key. true;
  set_iv_ok = λ iv. true;
  encrypt = λ key iv auth message. swap_pairs message;
  decrypt = λ key iv auth message. swap_pairs message;
  modbus = λ bytes. sum bytes % 65536;
  smbus = λ bytes. sum bytes % 256;
  hash_word = hash_of;
}

pub toy-IsLawful : IsLawful toy
toy-IsLawful = record {
  decrypt-encrypt = λ key iv auth message. swap_pairs-swap_pairs message;
  length-encrypt = λ key iv auth message. length-swap_pairs message;
  modbus-lt = λ bytes. omega arith;
}

pub toy-HashIsLawful : HashIsLawful toy
toy-HashIsLawful = record { hash_word-clear = hash_of-clear; hash_word-lt = hash_of-lt }

-- A curve whose pairs are keys of the same sum; the secret is the sum of both.
abbrev pub curve : KeyExchange.EccLibrary
curve = record {
  is_key_pair = λ p k. length p == key_max_size && sum p == sum k;
  compress = λ p. p;
  decompress = λ p. p;
  shared_secret = λ q k. some ((sum q + sum k) ∷ []);
}

pub curve-IsLawful : KeyExchange.IsLawful curve
curve-IsLawful = record {
  decompress-compress = λ p k h. refl;
  length-compress = λ p k h. ground arith;
  shared_secret_comm = λ p k q l h h'. ap (λ n. some (n ∷ [])) (ground arith);
  shared_secret-is_some = λ p k q l h h'. refl;
}

abbrev pub keyed : Encoder
keyed = record {
  encoder_state = full_power;
  hasher = [];
  key_holder = replicate 16 1;
  iv_holder = replicate 16 2;
  token_holder = replicate 4 3;
  token_seed = 0;
}

-- Acknowledgement, ping and report.
abbrev pub known : PacketMap
known = record {
  mapping =
      some ack_definition
      ∷ some ping_definition
      ∷ none
      ∷ none
      ∷ none
      ∷ some report_definition
      ∷ replicate 14 none;
  mapping_size = 3;
}

-- A report with the payload 7, 8, 9 and the id 4.
abbrev pub report_packet : Packet
report_packet = record {
  definition = some report_definition;
  raw = 0 ∷ 0 ∷ 5 ∷ 4 ∷ 7 ∷ 8 ∷ 9 ∷ replicate 19 0;
}

abbrev pub driver_in : ActiveState → (even linked : Bool) (ettm : ℕ) → Driver
driver_in state even linked ettm = record {
  active_state = state;
  last_sent_header = 255;
  last_power = 10;
  last_channel = 3;
  channel_pending = false;
  last_received = clear_input;
  last_sent_micros = 0;
  last_valid_received = clear_input;
  last_valid_sent_micros = 0;
  transmited_count = 0;
  received_count = 0;
  rejected_count = 0;
  timing_collision_count = 0;
  current_transmit_power = 10;
  current_channel = 3;
  transmit_power_normalized = 10;
  link_active = linked;
  even_slot = even;
  ettm = ettm;
  packet_map = known;
  clock = new_clock;
  encoder = keyed;
  ack_definition = some ack_definition;
  incoming_packet = record { definition = none; raw = replicate 26 0 };
  incoming_packet_size = 7;
  outgoing_packet = record { definition = none; raw = replicate 26 0 };
  outgoing_packet_size = 0;
  ack_packet = record { definition = none; raw = replicate 4 0 };
  effects = [];
}

-- Services that count the packets shown to them.
abbrev pub counting : Handlers ℕ
counting = record {
  process_packet = λ packet n. record n { services = n.services + 1 };
  process_acked_packet = λ packet n. (record n { services = n.services + 1 }, true);
  process_ack = λ packet n. n;
  process_sent = λ header n. n;
}
