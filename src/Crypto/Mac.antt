-- ===== src/Crypto/Mac.antt =====
-- LoLaMAC of src/LoLaCrypto/PseudoMacGenerator.h: a MAC of `mac_length` bytes, 4 to 16, and its hash,
-- both made of the unique identifier at the first use. FastCRC8 is a parameter, and so are the bytes
-- of the identifier, which UniqueIdProvider reads from the processor or from EEPROM.
pub mod Identifier
pub mod Match
use lo_la.Prelude.{
  ℕ, zero, suc, ◌+◌, ◌-◌, ◌*◌, Bool, true, false, if◌then◌else◌, List, [], ◌∷◌, ◌++◌, take, drop,
  get_or, ltb, leb, ◌==◌, u32, ◌≡◌,
}

-- UNIQUE_ID_MAX_LENGTH.
abbrev pub uuid_length : ℕ
uuid_length = 16

-- A FastCRC8 object: what it answers for these bytes, and the object after the call.
pub record Crc8 (C : Type 0) : Type 0 where
  pub smbus : List ℕ → C → ℕ × C
  pub smbus_upd : List ℕ → C → ℕ × C

-- `smbus` begins anew, where `smbus_upd` goes on.
pub record IsForgetful {C : Type 0} (crc : Crc8 C) : Type 0 where
  pub smbus_anew : (bytes : List ℕ) (c d : C) → crc.smbus bytes c ≡ crc.smbus bytes d

pub record LolaMac (C : Type 0) : Type 0 where
  pub mac : List ℕ
  pub mac_hash : ℕ
  pub cached : Bool
  pub crc8 : C

module _ {C : Type 0} (crc : Crc8 C) where
  -- Each byte of the hash goes on from the byte before.
  unfoldable pub update_mac_hash : List ℕ → C → ℕ × C
  update_mac_hash mac c =
      let (h0, c0) = crc.smbus (get_or mac 0 0 ∷ []) c in
      let (h1, c1) = crc.smbus_upd (get_or mac 1 0 ∷ []) c0 in
      let (h2, c2) = crc.smbus_upd (get_or mac 2 0 ∷ []) c1 in
      let (h3, c3) = crc.smbus_upd (get_or mac 3 0 ∷ []) c2 in
      (u32 (u32 (u32 (h0 + h1 * 256) + h2 * 65536) + h3 * 16777216), c3)

module _ {C : Type 0} (crc : Crc8 C) (mac_length : ℕ) (uuid : List ℕ) where
  abbrev pub mac_byte : (i : ℕ) → C → ℕ × C
  mac_byte i c =
      if i == 0 then crc.smbus (get_or uuid i 0 ∷ []) c else crc.smbus_upd (get_or uuid i 0 ∷ []) c

  -- The loop of UpdateMAC from `i` on.
  unfoldable pub mac_bytes : (rounds i : ℕ) → C → List ℕ × C
  mac_bytes zero i c = ([], c)
  mac_bytes (suc rounds) i c =
      let (byte, next) = mac_byte i c in
      let (rest, after) = mac_bytes rounds (i + 1) next in (byte ∷ rest, after)

  unfoldable pub last_byte : C → ℕ × C
  last_byte c =
      if ltb mac_length uuid_length
      then crc.smbus (take (uuid_length - mac_length - 1) (drop (mac_length - 1) uuid)) c
      else (get_or uuid (mac_length - 1) 0, c)

  unfoldable pub update_mac : LolaMac C → LolaMac C
  update_mac s =
      let (bytes, c) = mac_bytes (mac_length - 1) 0 s.crc8 in
      let (last, d) = last_byte c in
      let mac = bytes ++ (last ∷ []) in
      let (hash, e) = update_mac_hash crc mac d in record s { mac = mac; mac_hash = hash; crc8 = e }

  unfoldable pub lazy_load : LolaMac C → LolaMac C
  lazy_load s =
      if s.cached
      then s
      else if leb mac_length uuid_length
      then record (update_mac s) { cached = true }
      else s

  unfoldable pub get_mac_hash : LolaMac C → ℕ × LolaMac C
  get_mac_hash s = let loaded = lazy_load s in (loaded.mac_hash, loaded)

  unfoldable pub get_mac_pointer : LolaMac C → List ℕ × LolaMac C
  get_mac_pointer s = let loaded = lazy_load s in (loaded.mac, loaded)

-- The loop of Match, over `rounds` bytes from `i` on.
unfoldable pub match_from : (rounds i : ℕ) (mac1 mac2 : List ℕ) → Bool
match_from zero i mac1 mac2 = true
match_from (suc rounds) i mac1 mac2 =
    let rest = match_from rounds (i + 1) mac1 mac2 in
    if get_or mac1 i 0 == get_or mac2 i 0 then rest else false

unfoldable pub matches : (mac_length : ℕ) (mac1 mac2 : List ℕ) → Bool
matches mac_length mac1 mac2 = match_from mac_length 0 mac1 mac2
