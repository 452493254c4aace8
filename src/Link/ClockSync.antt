-- ===== src/Link/ClockSync.antt =====
-- src/Services/Link/LoLaLinkClockSyncer.h. An error is an `int32_t`, given by its bit pattern. The
-- clock is a pointer that may be null.
pub mod Remote
pub mod Host
pub mod Convergence
use lo_la.Prelude.{
  ℕ, ◌+◌, Bool, true, false, not, ◌&&◌, ◌||◌, if◌then◌else◌, Option, none, some, ltb, ◌==◌, u8,
  sub32, abs_i32, u8_max,
}
use lo_la.Driver.Clock.{Clock, add_offset_micros, set_random}
use lo_la.Driver.State.{invalid_millis}

-- MAX_TUNE_ERROR_MICROS, LOLA_LINK_SERVICE_LINKED_CLOCK_TUNE_PERIOD and
-- LOLA_LINK_SERVICE_UNLINK_MIN_CLOCK_SAMPLES.
abbrev pub max_tune_error_micros : ℕ
max_tune_error_micros = 100

abbrev pub clock_tune_period : ℕ
clock_tune_period = 10000

abbrev pub min_clock_samples : ℕ
min_clock_samples = 2

-- LoLaLinkClockSyncer, and HostSynced of LinkRemoteClockSyncer.
pub record ClockSyncer : Type 0 where
  pub synced_clock : Option Clock
  pub sync_good_count : ℕ
  pub last_synced : ℕ
  pub host_synced : Bool

unfoldable pub stamp_sync_good : ClockSyncer → ClockSyncer
stamp_sync_good s =
    if ltb s.sync_good_count u8_max then record s { sync_good_count = s.sync_good_count + 1 } else s

unfoldable pub add_offset : ℕ → ClockSyncer → ClockSyncer
add_offset offset s = record s {
  synced_clock = elim s.synced_clock [ none ↦ none | some c ↦ some (add_offset_micros offset c) ];
}

unfoldable pub stamp_synced : ℕ → ClockSyncer → ClockSyncer
stamp_synced millis s = record s { last_synced = millis }

abbrev pub reset_base : ClockSyncer → ClockSyncer
reset_base s = record s { sync_good_count = 0; last_synced = invalid_millis }

abbrev pub is_small : ℕ → Bool
is_small error = ltb (abs_i32 error) max_tune_error_micros
