-- ===== src/Link/Power/Range.antt =====
-- The range and the direction of src/Services/Link/LoLaLinkPowerBalancer.h.
use lo_la.Prelude.{ℕ, ◌≤◌, ◌<◌, ◌≡◌, ◌⊎◌, inl, inr, arith}
use lo_la.Driver.State.{invalid_millis}
use lo_la.Link.Power.{PowerBalancer, update, next_transmit_power, power_min, power_max, rssi_target}

-- Within the limits, and the driver transmits with that power.
pub record IsBalanced (b : PowerBalancer) : Type 0 where
  pub low : power_min ≤ b.power
  pub high : b.power ≤ power_max
  pub applied : b.driver_power ≡ b.power

pub next_transmit_power-range :
    (rssi power : ℕ)
    → power_min ≤ power
    → power ≤ power_max
    → (power_min ≤ next_transmit_power rssi power) × (next_transmit_power rssi power ≤ power_max)
unfolding next_transmit_power
next_transmit_power-range rssi power l h = ground arith

-- The first update after the setup balances, and every later one keeps it.
pub update-IsBalanced :
    (millis elapsed rssi : ℕ) (b : PowerBalancer)
    → (b.last_updated ≡ invalid_millis) ⊎ IsBalanced b
    → IsBalanced (update millis elapsed rssi b).0
unfolding update
update-IsBalanced millis elapsed rssi b (inl e) = ground arith
update-IsBalanced millis elapsed rssi b (inr v) =
    ground (arith, v.low, v.high, v.applied, next_transmit_power-range rssi b.power v.low v.high)

-- The power moves against the partner's signal: not up while the partner receives more than the
-- target, not down while it receives less, and not at all at the target.
pub next_transmit_power-direction :
    (rssi power : ℕ)
    → power_min ≤ power
    → power ≤ power_max
    → let next = next_transmit_power rssi power in
      ((rssi_target < rssi) × (next ≤ power))
      ⊎ ((rssi < rssi_target) × (power ≤ next))
      ⊎ ((rssi ≡ rssi_target) × (next ≡ power))
unfolding next_transmit_power
next_transmit_power-direction rssi power l h = ground arith
