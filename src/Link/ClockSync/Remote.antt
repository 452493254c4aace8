-- ===== src/Link/ClockSync/Remote.antt =====
-- LinkRemoteClockSyncer of src/Services/Link/LoLaLinkClockSyncer.h.
use lo_la.Prelude.{ℕ, Bool, true, false, ◌&&◌, ◌||◌, if◌then◌else◌, ltb, ◌==◌, sub32}
use lo_la.Driver.State.{invalid_millis}
use lo_la.Link.ClockSync.{
  ClockSyncer, reset_base, stamp_sync_good, stamp_synced, add_offset, is_small, clock_tune_period,
}

unfoldable pub reset : ClockSyncer → ClockSyncer
reset s = record (reset_base s) { host_synced = false }

unfoldable pub has_estimation : ClockSyncer → Bool
has_estimation s = ltb 0 s.sync_good_count

unfoldable pub is_synced : ClockSyncer → Bool
unfolding has_estimation
is_synced s = has_estimation s && s.host_synced

unfoldable pub is_time_to_tune : ℕ → ClockSyncer → Bool
is_time_to_tune millis s =
    s.last_synced == invalid_millis || ltb clock_tune_period (sub32 millis s.last_synced)

unfoldable pub set_ready_for_estimation : ℕ → ClockSyncer → ClockSyncer
unfolding is_synced
set_ready_for_estimation millis s =
    if is_synced s then record s { last_synced = sub32 millis clock_tune_period } else s

unfoldable pub set_synced : ℕ → ClockSyncer → ClockSyncer
unfolding stamp_synced
set_synced millis s = stamp_synced millis (record s { host_synced = true })

unfoldable pub on_estimation_error_received : ℕ → ClockSyncer → ClockSyncer
unfolding stamp_sync_good add_offset
on_estimation_error_received error s =
    add_offset error (if is_small error then stamp_sync_good s else s)

unfoldable pub on_tune_error_received : (millis error : ℕ) → ClockSyncer → ClockSyncer × Bool
unfolding stamp_sync_good stamp_synced add_offset
on_tune_error_received millis error s =
    let tuned = add_offset error s in
    if is_small error then (stamp_synced millis (stamp_sync_good tuned), true) else (tuned, false)
