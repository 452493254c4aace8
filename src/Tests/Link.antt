-- ===== src/Tests/Link.antt =====
-- The theorems on src/Services/Link and src/LoLaLinkInfo.h at concrete values.
use lo_la.Prelude.{
  ℕ, zero, suc, ap, ◌+◌, ◌-◌, ◌≤◌, ◌<◌, ◌%◌, ◌/◌, ◌&&◌, min, true, false, some, List, [], ◌∷◌, ◌≡◌,
  ◌⊎◌, ◌↔◌, inl, inr, refl, arith, ◌==◌, length, take, get_or, u8, sub32, length-take,
}
use lo_la.Crypto.Token.{TokenSource}
use lo_la.Driver.Clock.{Clock, new_clock, get_sync_micros}
use lo_la.Driver.State.{Driver, ready_for_anything, half_duplex_period_micros, invalid_millis}
use lo_la.Link.RingBuffer.{RingBuffer, IsLawful}
use lo_la.Link.Latency.{LatencyMeter, get_average_latency, ping_timeout_micros}
use lo_la.Link.Latency.Bounds.{IsBounded, get_average_latency-lt}
use lo_la.Link.Power.{PowerBalancer, update}
use lo_la.Link.Power.Range.{IsBalanced, update-IsBalanced}
use lo_la.Link.Hopper.{callback, get_sync_millis, hop_period, setup}
use lo_la.Link.Hopper.Period.{callback_delay, callback_agrees}
use lo_la.Link.Transaction.{
  new_request, set_requested, set_result, is_result_waiting, result_taken_once,
}
use lo_la.Link.ClockSync.{ClockSyncer, is_small}
use lo_la.Link.ClockSync.Remote
use lo_la.Link.ClockSync.Host
use lo_la.Link.ClockSync.Convergence.{error_received_syncs, host_syncs_after_three}
use lo_la.Link.Info
use lo_la.Link.Info.Session.{measured_ettm_fits, reset_ends_session}
use lo_la.Tests.Values.{driver_in}

-- A queue of three that keeps all it was given, the newest first, and shows the last three.
abbrev pub three : RingBuffer (List ℕ)
three = record {
  is_empty = λ b. min 3 (length b) == 0;
  num_elements = λ b. min 3 (length b);
  peek = λ b i. get_or b (min 3 (length b) - 1 - i) 0;
  pull = λ b. take (min 3 (length b) - 1) b;
  add_force = λ x b. x ∷ b;
}

peek_cons :
    (x : ℕ) (b : List ℕ) (i k : ℕ)
    → i < min 3 (suc (length b))
    → min 3 (suc (length b)) - 1 - i ≡ k
    → (get_or (x ∷ b) k 0 ≡ x)
      ⊎ ((j : ℕ) × (j < min 3 (length b))
          × (get_or (x ∷ b) k 0 ≡ get_or b (min 3 (length b) - 1 - j) 0))
peek_cons x b i zero h e = inl refl
peek_cons x b i (suc k) h e =
    let l : k < min 3 (length b) = omega (arith, h, e) in
    inr (min 3 (length b) - 1 - k, omega (arith, l), back (min 3 (length b)) k l)
  where
    back : (n k : ℕ) → k < n → get_or b k 0 ≡ get_or b (n - 1 - (n - 1 - k)) 0
    back n k l = ap (λ j. get_or b j 0) (omega (arith, l))

three-IsLawful : IsLawful 3 three
three-IsLawful = record {
  is_empty-num_elements = λ b. refl;
  num_elements-le = λ b. omega arith;
  num_elements-pull = λ b. omega (arith, length-take (min 3 (length b) - 1) b (omega arith));
  num_elements-add_force = λ x b. omega arith;
  peek-add_force = λ x b i h. peek_cons x b i (min 3 (suc (length b)) - 1 - i) h refl;
}

abbrev meter : LatencyMeter (List ℕ)
meter = record { last_sent_with = 1000; last_sent_packet_id = 7; duration_stack = 2400 ∷ 2600 ∷ [] }

meter-IsBounded : IsBounded three meter.duration_stack
meter-IsBounded = record { below = at }
  where
    at : (i : ℕ) → i < 2 → get_or (2400 ∷ 2600 ∷ []) (1 - i) 0 < ping_timeout_micros
    at zero h = omega arith
    at (suc zero) h = omega arith
    at (suc (suc i)) h = absurd (omega arith)

get_average_latency-lt_example : get_average_latency three meter < ping_timeout_micros
get_average_latency-lt_example =
    get_average_latency-lt three 3 three-IsLawful (omega arith) meter meter-IsBounded (omega arith)

abbrev balancer : PowerBalancer
balancer = record { power = 90; last_updated = 1000; driver_power = 90 }

balancer-IsBalanced : IsBalanced balancer
balancer-IsBalanced = record { low = omega arith; high = omega arith; applied = refl }

update-IsBalanced_example : IsBalanced (update 2000 100 120 balancer).0
update-IsBalanced_example = update-IsBalanced 2000 100 120 balancer (inr balancer-IsBalanced)

abbrev seeded : TokenSource
seeded = record { totp_period_millis = 10000; totp_seed = 99 }

callback_delay_example :
    let (token, delay) = callback 12345000 12346000 seeded new_clock in
    ((get_sync_millis 12346000 new_clock + delay) % hop_period ≡ 0)
    × (0 < delay)
    × (delay ≤ hop_period)
callback_delay_example = callback_delay 12345000 12346000 seeded new_clock

same_period :
    get_sync_millis 12345000 new_clock / hop_period
    ≡ get_sync_millis 18345000 new_clock / hop_period
unfolding get_sync_millis get_sync_micros
same_period = refl

callback_agrees_example :
    (callback 12345000 12345000 (setup seeded) new_clock).0
    ≡ (callback 18345000 18345000 (setup seeded) new_clock).0
callback_agrees_example =
    callback_agrees 12345000 18345000 seeded seeded new_clock new_clock refl same_period

result_taken_once_example :
    let (t', taken) = set_result 33 500 (set_requested 1000 33 new_request) in
    ((taken ≡ true) ↔ (33 ≡ u8 33))
    × (is_result_waiting t' ≡ taken)
    × (taken && (set_result 33 600 t').1 ≡ false)
result_taken_once_example = result_taken_once 1000 33 33 500 33 600 new_request

abbrev syncer : ClockSyncer
syncer = record {
  synced_clock = some new_clock;
  sync_good_count = 3;
  last_synced = 0;
  host_synced = false;
}

error_received_syncs_example :
    let error = sub32 777777 (get_sync_micros 1000 new_clock) in
    (clock' : Clock) × ((Remote.on_estimation_error_received error syncer).synced_clock
      ≡ some clock')
    × ((Remote.on_tune_error_received 1 error syncer).0.synced_clock ≡ some clock')
    × (get_sync_micros 1000 clock' ≡ 777777)
error_received_syncs_example =
    error_received_syncs 1000 777777 1 new_clock syncer refl (omega arith)

is_synced : Host.is_synced syncer ≡ true
unfolding Host.is_synced
is_synced = refl

host_syncs_after_three_example :
    let s1 = (Host.on_estimation_received 10 (Host.reset 4 syncer)).0 in
    let s2 = (Host.on_estimation_received 20 s1).0 in
    let s3 = (Host.on_estimation_received 30 s2).0 in
    (Host.is_synced s2 ≡ false)
    × ((Host.is_synced s3 ≡ true)
        ↔ ((is_small 10 ≡ true) × (is_small 20 ≡ true) × (is_small 30 ≡ true)))
host_syncs_after_three_example = host_syncs_after_three 4 10 20 30 syncer

abbrev info : Info.LinkInfo (List ℕ)
info = record {
  link_state = Info.linked;
  rtt = 2500;
  link_started_seconds = 10;
  partner_info_last_updated = 5;
  partner_info_last_updated_remotely = 6;
  partner_rssi_samples = 130 ∷ 140 ∷ [];
  partner_received_count = 3;
  session_id = 9;
  partner_id_present = true;
  partner_id = 4242;
  clock_sync_adjustments = 1;
}

abbrev driver : Driver
driver = driver_in ready_for_anything true true 900

measured_ettm_fits_example :
    (Info.set_rtt (get_average_latency three meter) info driver).1.ettm ≤ half_duplex_period_micros
measured_ettm_fits_example =
    measured_ettm_fits three 3 three-IsLawful meter info driver (omega arith) meter-IsBounded
      (omega arith)

reset_ends_session_example :
    let (i', d') = Info.reset three info driver in
    (Info.has_session i' ≡ false)
    × (d'.link_active ≡ false)
    × (d'.ettm ≡ 0)
    × (Info.get_last_activity_elapsed_millis 7000 d' ≡ invalid_millis)
    × (Info.has_partner_id i' ≡ Info.has_partner_id info)
reset_ends_session_example = reset_ends_session three 7000 info driver
