-- ===== src/Link/Power.antt =====
-- src/Services/Link/LoLaLinkPowerBalancer.h. `millis` is what `millis()` answers, and
-- `partner_rssi` what LinkInfo's GetPartnerRSSINormalized answers. The driver is set by the caller:
-- `driver_power` is the value of its last SetTransmitPower. `received_elapsed` is what the driver's
-- GetElapsedMillisLastValidReceived answers.
pub mod Range
use lo_la.Prelude.{
  ℕ, ◌+◌, ◌*◌, ◌-◌, ◌/◌, min, max, Bool, true, false, not, ◌&&◌, ◌||◌, if◌then◌else◌, leb, ltb,
  ◌==◌, u8, sub32,
}
use lo_la.Driver.State.{invalid_millis}

abbrev pub rssi_target_margin : ℕ
rssi_target_margin = 15

abbrev pub adjust_up_long : ℕ
adjust_up_long = 20

abbrev pub adjust_down_long : ℕ
adjust_down_long = 10

abbrev pub power_min : ℕ
power_min = 13

abbrev pub power_max : ℕ
power_max = 100

abbrev pub rssi_target : ℕ
rssi_target = 140

-- LOLA_LINK_SERVICE_LINKED_MAX_PANIC and LOLA_LINK_SERVICE_LINKED_POWER_UPDATE_PERIOD.
abbrev pub max_panic : ℕ
max_panic = 3000 * 8 / 10

abbrev pub power_update_period : ℕ
power_update_period = 3000 * 3 / 10

-- `CurrentPartnerRSSI` and `NextTransmitPower` are written before each read.
pub record PowerBalancer : Type 0 where
  pub power : ℕ
  pub last_updated : ℕ
  pub driver_power : ℕ

unfoldable pub setup : PowerBalancer → PowerBalancer
setup b = record b { power = 0; last_updated = invalid_millis }

unfoldable pub set_max_power : PowerBalancer → PowerBalancer
set_max_power b = record b { power = power_max; driver_power = power_max }

-- NextTransmitPower. The difference stands in `int`, as `max` of the Arduino core is a macro: below
-- 0 it is less than the minimum, as 0 is.
unfoldable pub next_transmit_power : (partner_rssi : ℕ) (power : ℕ) → ℕ
next_transmit_power partner_rssi power =
    if ltb rssi_target partner_rssi && ltb power_min power
    then (if ltb (rssi_target + rssi_target_margin) partner_rssi
        then max power_min (power - adjust_down_long)
        else if ltb power_min power
        then power - 1
        else power)
    else if ltb partner_rssi rssi_target && ltb power power_max
    then (if ltb partner_rssi (rssi_target - rssi_target_margin)
        then min power_max (power + adjust_up_long)
        else if ltb power power_max
        then power + 1
        else power)
    else power

unfoldable pub update :
    (millis received_elapsed partner_rssi : ℕ) → PowerBalancer → PowerBalancer × Bool
unfolding set_max_power
update millis received_elapsed partner_rssi b =
    if b.last_updated == invalid_millis || leb max_panic received_elapsed
    then (set_max_power (record b { last_updated = millis }), false)
    else if ltb power_update_period (sub32 millis b.last_updated)
    then (let next = next_transmit_power partner_rssi b.power in
        if not (next == b.power)
        then (record b { last_updated = millis; power = next; driver_power = next }, true)
        else (record b { last_updated = millis }, false))
    else (b, false)
