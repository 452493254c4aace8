-- ===== src/Link/ClockSync/Host.antt =====
-- LinkHostClockSyncer of src/Services/Link/LoLaLinkClockSyncer.h.
use lo_la.Prelude.{ℕ, Bool, true, false, not, if◌then◌else◌, none, some, ltb}
use lo_la.Driver.Clock.{set_random}
use lo_la.Link.ClockSync.{ClockSyncer, reset_base, stamp_sync_good, is_small, min_clock_samples}

-- OnReset draws a random offset.
unfoldable pub reset : (drawn : ℕ) → ClockSyncer → ClockSyncer
reset drawn s = record (reset_base s) {
  synced_clock = elim s.synced_clock [ none ↦ none | some c ↦ some (set_random drawn c) ];
}

unfoldable pub is_synced : ClockSyncer → Bool
is_synced s = ltb min_clock_samples s.sync_good_count

unfoldable pub on_estimation_received : ℕ → ClockSyncer → ClockSyncer × Bool
unfolding stamp_sync_good is_synced
on_estimation_received error s =
    if is_small error
    then (stamp_sync_good s, true)
    else (if not (is_synced s) then record s { sync_good_count = 0 } else s, false)
