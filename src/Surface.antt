-- ===== src/Surface.antt =====
-- src/Services/SyncSurface/ITrackedSurface.h: ITrackedSurface and TemplateTrackedSurface of
-- `block_count` blocks. BitTracker is a third-party library, the parameter `tracking`; `fired` is
-- what the signal to the listeners was fired with, the last one first.
pub mod RoundTrip
use lo_la.Prelude.{
  ℕ, ◌+◌, ◌*◌, ◌/◌, Bool, true, false, if◌then◌else◌, List, [], ◌∷◌, u8, u16, u32, get_or, set,
  replicate, take,
}
use lo_la.Crypto.Library.{CryptoLibrary}

-- SYNC_SURFACE_BLOCK_SIZE
abbrev pub block_size : ℕ
block_size = 4

pub record BitTracker (T : Type 0) : Type 0 where
  pub set_bit : ℕ → T → T
  pub set_all : T → T
  pub clear_all : T → T

pub record Surface (T : Type 0) : Type 0 where
  pub data_good : Bool
  pub last_crc : ℕ
  pub hash_needs_update : Bool
  pub tracker : T
  pub bytes : List ℕ
  pub fired : List Bool

module _ {T : Type 0} where
  unfoldable pub on_data_changed : Surface T → Surface T
  on_data_changed s = record s { fired = s.data_good ∷ s.fired }

  unfoldable pub set_data_good : Bool → Surface T → Surface T
  set_data_good data_good s = record s { data_good = data_good }

  unfoldable pub invalidate_hash : Surface T → Surface T
  invalidate_hash s = record s { hash_needs_update = true }

  unfoldable pub update_hash : CryptoLibrary → (block_count : ℕ) → Surface T → Surface T
  update_hash lib block_count s =
      if s.hash_needs_update
      then record s {
        hash_needs_update = false;
        last_crc = lib.smbus (take (u8 (block_count * block_size)) s.bytes);
      }
      else s

  unfoldable pub get_8 : (block_index offset : ℕ) → Surface T → ℕ
  get_8 block_index offset s = get_or s.bytes (block_index * block_size + offset) 0

  -- IndexOffsetGrunt is a byte.
  unfoldable pub get_16 : (block_index offset : ℕ) → Surface T → ℕ
  get_16 block_index offset s =
      let i = u8 (block_index * block_size + offset * 2) in
      u16 (get_or s.bytes i 0 + get_or s.bytes (i + 1) 0 * 256)

  unfoldable pub get_32 : (block_index : ℕ) → Surface T → ℕ
  get_32 block_index s =
      let i = u8 (block_index * block_size) in
      u32 (
        get_or s.bytes i 0
        + get_or s.bytes (i + 1) 0 * 256
        + get_or s.bytes (i + 2) 0 * 65536
        + get_or s.bytes (i + 3) 0 * 16777216)

  module _ (tracking : BitTracker T) where
    -- The constructor.
    unfoldable pub new_surface : (block_count : ℕ) → T → Surface T
    new_surface block_count tracker = record {
      data_good = false;
      last_crc = 0;
      hash_needs_update = true;
      tracker = tracking.clear_all tracker;
      bytes = replicate (block_count * block_size) 0;
      fired = [];
    }

    unfoldable pub set_all_pending : Surface T → Surface T
    set_all_pending s = record s { tracker = tracking.set_all s.tracker }

    unfoldable pub invalidate_block : ℕ → Surface T → Surface T
    unfolding on_data_changed
    invalidate_block block_index s =
        on_data_changed (record s { tracker = tracking.set_bit block_index s.tracker })

    unfoldable pub set_8 : (value block_index offset : ℕ) → Surface T → Surface T
    unfolding invalidate_block
    set_8 value block_index offset s =
        invalidate_block block_index
          (record s { bytes = set s.bytes (block_index * block_size + offset) value })

    unfoldable pub set_16 : (value block_index offset : ℕ) → Surface T → Surface T
    unfolding invalidate_block
    set_16 value block_index offset s =
        let i = u8 (block_index * block_size + offset * 2) in
        invalidate_block block_index
          (record s { bytes = set (set s.bytes i (u8 value)) (i + 1) (u8 (value / 256)) })

    -- A value is stored in a byte by its last 8 bits.
    unfoldable pub set_32 : (value block_index : ℕ) → Surface T → Surface T
    unfolding invalidate_block
    set_32 value block_index s =
        let i = u8 (block_index * block_size) in
        invalidate_block block_index (record s {
          bytes =
              set
                (set (set (set s.bytes i (u8 value)) (i + 1) (u8 (value / 256))) (i + 2)
                  (u8 (value / 65536)))
                (i + 3) (u8 (value / 16777216));
        })
