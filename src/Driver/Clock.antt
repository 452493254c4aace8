-- ===== src/Driver/Clock.antt =====
-- src/LoLaClock: ILoLaClockSource.h with the overrides of RTCClockSource.h and RTCClockSource.cpp.
-- `micros` is what the Arduino core's `micros()` answers; the RTC's time is an argument.
use lo_la.Prelude.{ℕ, ◌+◌, ◌*◌, ◌%◌, Bool, true, false, if◌then◌else◌, u32, sub32}

pub record Clock : Type 0 where
  pub offset_micros : ℕ
  pub last_tick : ℕ
  pub last_seconds : ℕ
  pub attached : Bool

abbrev pub new_clock : Clock
new_clock = record { offset_micros = 0; last_tick = 0; last_seconds = 0; attached = false }

unfoldable pub reset : Clock → Clock
reset c = record c { offset_micros = 0 }

-- `random(INT32_MAX)` is the argument.
unfoldable pub set_random : ℕ → Clock → Clock
set_random drawn c = record c { offset_micros = u32 drawn }

-- The offset is an `int32_t`, given by its bit pattern.
unfoldable pub add_offset_micros : ℕ → Clock → Clock
add_offset_micros offset c = record c { offset_micros = u32 (c.offset_micros + offset) }

-- Only the last 16 bits of the seconds roll.
unfoldable pub get_base_rtc : Clock → ℕ
get_base_rtc c = u32 (c.last_seconds % 65536 * 1000000)

unfoldable pub get_currents_micros : ℕ → Clock → ℕ
unfolding get_base_rtc
get_currents_micros micros c = u32 (get_base_rtc c + sub32 micros c.last_tick)

unfoldable pub get_sync_micros : ℕ → Clock → ℕ
unfolding get_currents_micros
get_sync_micros micros c = u32 (get_currents_micros micros c + c.offset_micros)

-- The overload for a time stamp that was taken earlier.
unfoldable pub get_sync_micros_of : ℕ → Clock → ℕ
get_sync_micros_of source_micros c = u32 (source_micros + c.offset_micros)

unfoldable pub get_time_seconds : Clock → ℕ
get_time_seconds c = c.last_seconds

unfoldable pub attach : ℕ → Clock → Clock
attach rtc_time c = record c { last_seconds = u32 rtc_time }

unfoldable pub start : ℕ → Clock → Clock
unfolding attach
start rtc_time c =
    let attached = if c.attached then c else attach rtc_time (record c { attached = true }) in
    record attached { last_tick = 0; last_seconds = 0 }

unfoldable pub on_interrupt : ℕ → Clock → Clock
on_interrupt micros c = record c { last_tick = micros; last_seconds = u32 (c.last_seconds + 1) }
