-- ===== src/Link/Latency/Bounds.antt =====
-- The range of what src/Services/Link/LoLaLinkLatencyMeter.h measures.
use lo_la.Prelude.{
  ℕ, zero, suc, ◌+◌, ◌*◌, ◌/◌, ◌≤◌, ◌<◌, not, ◌&&◌, ◌≡◌, inl, inr, arith, ltb, ◌==◌, u32,
  Bool-cases, sub32,
}
use native.Mathlib.Nat.{div-lt_iff_lt-mul}
use lo_la.Link.RingBuffer.{RingBuffer, IsLawful}
use lo_la.Link.Latency.{
  LatencyMeter, drain, reset, sum_from, get_average_latency, on_ack_received, ping_timeout_micros,
}

module _ {B : Type 0} (ring : RingBuffer B) where
  -- Every sample is below the time-out.
  pub record IsBounded (b : B) : Type 0 where
    pub below : (i : ℕ) → i < ring.num_elements b → ring.peek b i < ping_timeout_micros

  module _ (size : ℕ) (lawful : IsLawful size ring) (small : size < 256) where
    add_force-IsBounded :
        (x : ℕ) (b : B) → x < ping_timeout_micros → IsBounded b → IsBounded (ring.add_force x b)
    add_force-IsBounded x b h v = record { below = at }
      where
        at :
            (i : ℕ)
            → i < ring.num_elements (ring.add_force x b)
            → ring.peek (ring.add_force x b) i < ping_timeout_micros
        at i k = elim (lawful.peek-add_force x b i k) [
          | inl e ↦ omega (arith, e, h)
          | inr (j, l, e) ↦ omega (arith, e, v.below j l)
        ]

    -- Whatever acknowledgement comes and whenever, the samples stay below the time-out.
    pub on_ack_received-IsBounded :
        (micros packet_id : ℕ) (m : LatencyMeter B)
        → IsBounded m.duration_stack
        → IsBounded (on_ack_received ring micros packet_id m).0.duration_stack
    unfolding on_ack_received
    on_ack_received-IsBounded micros packet_id m v =
        elim (Bool-cases
          (not (m.last_sent_with == 4294967295) && m.last_sent_packet_id == packet_id)) [
            | inl e ↦
                rw e (elim (Bool-cases (ltb (sub32 micros m.last_sent_with) ping_timeout_micros)) [
                  | inl l ↦ rw l (add_force-IsBounded _ m.duration_stack (ground arith) v)
                  | inr l ↦ rw l v
                ])
            | inr e ↦ rw e v
          ]

    drain_empties :
        (fuel : ℕ) (b : B) → ring.num_elements b ≤ fuel → ring.num_elements (drain ring fuel b) ≡ 0
    unfolding drain
    drain_empties zero b h = omega (arith, h)
    drain_empties (suc fuel) b h = elim (Bool-cases (ring.is_empty b)) [
      | inl e ↦ rw e (ground (arith, lawful.is_empty-num_elements b))
      | inr e ↦
          rw e (drain_empties fuel (ring.pull b) (omega (arith, lawful.num_elements-pull b, h)))
    ]

    -- A reset empties the queue: its loop ends.
    pub reset_empties : (m : LatencyMeter B) → ring.num_elements (reset ring m).duration_stack ≡ 0
    unfolding reset
    reset_empties m =
        drain_empties (ring.num_elements m.duration_stack) m.duration_stack (omega arith)

    sum_from-le :
        (rounds i s : ℕ) (b : B)
        → IsBounded b
        → i + rounds ≤ ring.num_elements b
        → s + rounds * 9999 < 4294967296
        → sum_from ring rounds i s b ≤ s + rounds * 9999
    unfolding sum_from
    sum_from-le zero i s b v h k = omega arith
    sum_from-le (suc rounds) i s b v h k = omega (
      arith,
      v.below i (omega (arith, h)),
      sum_from-le rounds (i + 1) (u32 (s + ring.peek b i)) b v (omega (arith, h))
          (omega (arith, v.below i (omega (arith, h)), k)),
    )

    -- The average of a meter with at least one sample, all of them below the time-out, is
    -- below the time-out.
    pub get_average_latency-lt :
        (m : LatencyMeter B)
        → IsBounded m.duration_stack
        → 0 < ring.num_elements m.duration_stack
        → get_average_latency ring m < ping_timeout_micros
    unfolding get_average_latency
    get_average_latency-lt m v p = elim (Bool-cases (ring.is_empty m.duration_stack)) [
      | inl e ↦ absurd (ground (arith, lawful.is_empty-num_elements m.duration_stack))
      | inr e ↦ rw e (omega (arith, quotient))
    ]
      where
        n : ℕ
        n = ring.num_elements m.duration_stack

        few : n ≤ size
        few = lawful.num_elements-le m.duration_stack

        bound : sum_from ring n 0 0 m.duration_stack ≤ 0 + n * 9999
        bound = sum_from-le n 0 0 m.duration_stack v (omega arith) (omega (arith, few, small))

        quotient : sum_from ring n 0 0 m.duration_stack / n < 10000
        quotient = (div-lt_iff_lt-mul p).1 (omega (arith, bound, p))
