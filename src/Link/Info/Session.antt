-- ===== src/Link/Info/Session.antt =====
-- What src/LoLaLinkInfo.h keeps of a session and what it tells the driver.
use lo_la.Prelude.{ℕ, ◌≤◌, ◌<◌, false, ◌≡◌, refl, arith}
use lo_la.Driver.State.{
  Driver, half_duplex_period_micros, set_ettm, set_link_status, reset_live_data, reset_statistics,
  invalid_millis, get_elapsed_millis_last_valid_sent, get_elapsed_millis_last_valid_received,
}
use lo_la.Link.RingBuffer.{RingBuffer, IsLawful}
use lo_la.Link.Latency.{LatencyMeter, get_average_latency}
use lo_la.Link.Latency.Bounds.{IsBounded, get_average_latency-lt}
use lo_la.Link.Info.{
  LinkInfo, set_rtt, reset, has_partner_id, has_session, has_session_id,
  get_last_activity_elapsed_millis,
}

-- The ETTM that the average of a meter gives the driver as round trip is at most half a duplex
-- period, as the slots need it; the meter holds at least one sample, all below the time-out, in
-- a queue of fewer than 256.
pub measured_ettm_fits :
    {B : Type 0} (ring : RingBuffer B) (size : ℕ) (lawful : IsLawful size ring) (m : LatencyMeter B)
    (i : LinkInfo B) (d : Driver)
    → size < 256
    → IsBounded ring m.duration_stack
    → 0 < ring.num_elements m.duration_stack
    → (set_rtt (get_average_latency ring m) i d).1.ettm ≤ half_duplex_period_micros
unfolding set_rtt set_ettm
measured_ettm_fits ring size lawful m i d small v p =
    omega (arith, get_average_latency-lt ring size lawful small m v p)

-- A reset ends the session and leaves the driver unlinked, without latency compensation and with
-- no activity; the partner's id that it held is still answered to be there.
pub reset_ends_session :
    {B : Type 0} (ring : RingBuffer B) (micros : ℕ) (i : LinkInfo B) (d : Driver)
    → let (i', d') = reset ring i d in
      (has_session i' ≡ false)
      × (d'.link_active ≡ false)
      × (d'.ettm ≡ 0)
      × (get_last_activity_elapsed_millis micros d' ≡ invalid_millis)
      × (has_partner_id i' ≡ has_partner_id i)
unfolding reset has_session has_session_id has_partner_id reset_live_data reset_statistics
    set_link_status get_last_activity_elapsed_millis get_elapsed_millis_last_valid_sent
    get_elapsed_millis_last_valid_received
reset_ends_session ring micros i d = (refl, refl, refl, refl, refl)
