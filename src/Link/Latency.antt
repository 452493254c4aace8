-- ===== src/Link/Latency.antt =====
-- src/Services/Link/LoLaLinkLatencyMeter.h. `micros` is what `micros()` answers.
pub mod Bounds
use lo_la.Prelude.{
  ℕ, zero, suc, ◌+◌, ◌*◌, ◌/◌, Bool, true, false, not, ◌&&◌, if◌then◌else◌, ltb, ◌==◌, u8, u16, u32,
  sub32, u16_max, u32_max,
}
use lo_la.Link.RingBuffer.{RingBuffer}
use lo_la.Driver.State.{invalid_micros}

-- ILOLA_INVALID_LATENCY and LOLA_LATENCY_SERVICE_PING_TIMEOUT_MICROS.
abbrev pub invalid_latency : ℕ
invalid_latency = u16_max

abbrev pub ping_timeout_micros : ℕ
ping_timeout_micros = 10 * 1000

-- `Grunt` and `DurationSum` are written before each read.
pub record LatencyMeter (B : Type 0) : Type 0 where
  pub last_sent_with : ℕ
  pub last_sent_packet_id : ℕ
  pub duration_stack : B

module _ {B : Type 0} (ring : RingBuffer B) where
  -- `while (!isEmpty()) pull();` on fuel.
  unfoldable pub drain : ℕ → B → B
  drain zero b = b
  drain (suc fuel) b = let rest = drain fuel (ring.pull b) in if ring.is_empty b then b else rest

  unfoldable pub reset : LatencyMeter B → LatencyMeter B
  reset m = record {
    last_sent_with = invalid_micros;
    last_sent_packet_id = 0;
    duration_stack = drain (ring.num_elements m.duration_stack) m.duration_stack;
  }

  unfoldable pub get_sample_count : LatencyMeter B → ℕ
  get_sample_count m = u8 (ring.num_elements m.duration_stack)

  -- The loop that sums the samples from `i` on.
  unfoldable pub sum_from : (rounds i : ℕ) (duration_sum : ℕ) → B → ℕ
  sum_from zero i duration_sum b = duration_sum
  sum_from (suc rounds) i duration_sum b =
      sum_from rounds (i + 1) (u32 (duration_sum + ring.peek b i)) b

  unfoldable pub get_average_latency : LatencyMeter B → ℕ
  get_average_latency m =
      let b = m.duration_stack in
      if ring.is_empty b
      then invalid_latency
      else u16 (sum_from (ring.num_elements b) 0 0 b / ring.num_elements b)

  unfoldable pub on_ack_packet_sent : (micros packet_id : ℕ) → LatencyMeter B → LatencyMeter B
  on_ack_packet_sent micros packet_id m = record m {
    last_sent_with = micros;
    last_sent_packet_id = packet_id;
  }

  unfoldable pub on_ack_received : (micros packet_id : ℕ) → LatencyMeter B → LatencyMeter B × Bool
  on_ack_received micros packet_id m =
      let grunt = sub32 micros m.last_sent_with in
      if not (m.last_sent_with == invalid_micros) && m.last_sent_packet_id == packet_id
      then (if ltb grunt ping_timeout_micros
          then (record m { duration_stack = ring.add_force (u16 grunt) m.duration_stack }, true)
          else (m, false))
      else (m, false)
