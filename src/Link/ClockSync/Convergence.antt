-- ===== src/Link/ClockSync/Convergence.antt =====
-- The clocks that src/Services/Link/LoLaLinkClockSyncer.h brings together.
use lo_la.Prelude.{ℕ, ◌<◌, true, false, some, ◌≡◌, ◌↔◌, arith, sub32}
use lo_la.Driver.Clock.{
  Clock, get_sync_micros, get_currents_micros, get_base_rtc, add_offset_micros,
}
use lo_la.Link.ClockSync.{ClockSyncer, is_small, add_offset, stamp_sync_good, stamp_synced}
use lo_la.Link.ClockSync.Remote
use lo_la.Link.ClockSync.Host

offset_lands :
    (micros host_time : ℕ) (clock : Clock)
    → host_time < 4294967296
    → get_sync_micros micros
        (add_offset_micros (sub32 host_time (get_sync_micros micros clock)) clock)
      ≡ host_time
unfolding get_sync_micros get_currents_micros get_base_rtc add_offset_micros
offset_lands micros host_time clock h = omega (arith, h)

-- For a syncer that has a clock: an error that says how far the host's time is ahead of the
-- remote's clock, modulo 2^32, brings the remote's clock to the host's time, as an estimation
-- and as a tuning alike.
pub error_received_syncs :
    (micros host_time millis : ℕ) (clock : Clock) (s : ClockSyncer)
    → s.synced_clock ≡ some clock
    → host_time < 4294967296
    → let error = sub32 host_time (get_sync_micros micros clock) in
      (clock' : Clock) × ((Remote.on_estimation_error_received error s).synced_clock ≡ some clock')
      × ((Remote.on_tune_error_received millis error s).0.synced_clock ≡ some clock')
      × (get_sync_micros micros clock' ≡ host_time)
unfolding Remote.on_estimation_error_received Remote.on_tune_error_received add_offset
    stamp_sync_good stamp_synced
error_received_syncs micros host_time millis clock s e h = (
  add_offset_micros (sub32 host_time (get_sync_micros micros clock)) clock,
  ground (arith, e),
  ground (arith, e),
  offset_lands micros host_time clock h,
)

-- Once synced the host stays so, whatever the estimations, until a reset.
pub host_stays_synced :
    (error : ℕ) (s : ClockSyncer)
    → Host.is_synced s ≡ true
    → Host.is_synced (Host.on_estimation_received error s).0 ≡ true
unfolding Host.is_synced Host.on_estimation_received stamp_sync_good
host_stays_synced error s h = ground arith

-- After a reset, whatever the three estimations that follow: after two of them the host is not
-- synced, and after the third it is exactly if all three errors were small.
pub host_syncs_after_three :
    (drawn e1 e2 e3 : ℕ) (s : ClockSyncer)
    → let s1 = (Host.on_estimation_received e1 (Host.reset drawn s)).0 in
      let s2 = (Host.on_estimation_received e2 s1).0 in
      let s3 = (Host.on_estimation_received e3 s2).0 in
      (Host.is_synced s2 ≡ false)
      × ((Host.is_synced s3 ≡ true)
          ↔ ((is_small e1 ≡ true) × (is_small e2 ≡ true) × (is_small e3 ≡ true)))
unfolding Host.is_synced Host.on_estimation_received Host.reset stamp_sync_good
host_syncs_after_three drawn e1 e2 e3 s = ground arith
