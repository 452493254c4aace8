-- ===== src/Driver/Events/Machine.antt =====
-- The driver of src/PacketDriver/LoLaPacketDriver.h as a state machine: the radio's callbacks, the
-- asynchronous actions, and what services and link ask of it, in any order, each run to its end.
use lo_la.Prelude.{ℕ, Bool, true, false, inl, inr, ◌≡◌, refl, arith}
use lo_la.Packet.Buffer.{Packet}
use lo_la.Crypto.Library.{CryptoLibrary}
use lo_la.Driver.State.{
  Driver, ActiveState, Action, processing_incoming, sending_ack, process_incoming_packet,
  process_sent_ok, process_battery_alarm, update_power, update_channel, async_restore, emit,
  add_async_action,
}
use lo_la.Driver.Power.{
  on_start, set_channel, set_transmit_power, restore_to_receiving, on_channel_updated,
  on_transmit_power_updated, on_async_restore,
}
use lo_la.Driver.Send.{send_packet}
use lo_la.Driver.Send.Laws.{Outcome, sent, refused, given_up, send_packet-Outcome}
use lo_la.Driver.Receive.{Node, Handlers, Env, on_driver, process_incoming, process_sent}
use lo_la.Driver.Receive.Laws.{IsSettled, process_incoming-IsSettled}
use lo_la.Driver.Events.{
  on_incoming, on_receive_begin, on_received_fail, on_sent_ok, on_battery_alarm, on_wake_up_timer,
  on_async_action,
}

pub data Event : Type 0 where
  incoming : (micros rssi : ℕ) → Event
  receive_begin : (length rssi : ℕ) → Event
  received_fail : (rssi : ℕ) → Event
  sent_ok battery_alarm wake_up_timer : Event
  async_action : Env → Action → Event
  ask_send : (micros : ℕ) (transmit_ok : Bool) → Packet → Event
  ask_channel ask_power : ℕ → Event

-- The two states that the driver is in only while it processes a packet.
abbrev pub is_resting : ActiveState → Bool
is_resting processing_incoming = false
is_resting sending_ack = false
is_resting _ = true

module _ {S : Type 0} (handlers : Handlers S) (lib : CryptoLibrary) (map_range : ℕ → ℕ) where
  unfoldable pub step : Event → Node S → Node S
  step (incoming micros rssi) n = on_driver handlers (on_incoming micros rssi) n
  step (receive_begin length rssi) n = on_driver handlers (on_receive_begin length rssi) n
  step (received_fail rssi) n = on_driver handlers (on_received_fail rssi) n
  step sent_ok n = on_driver handlers on_sent_ok n
  step battery_alarm n = on_driver handlers on_battery_alarm n
  step wake_up_timer n = on_driver handlers on_wake_up_timer n
  step (async_action env action) n = on_async_action handlers lib env action n
  step (ask_send micros transmit_ok packet) n =
      on_driver handlers (λ d. (send_packet lib micros transmit_ok packet d).0) n
  step (ask_channel channel) n = on_driver handlers (set_channel channel) n
  step (ask_power normalized) n = on_driver handlers (set_transmit_power map_range normalized) n

  -- What a started driver comes to.
  pub data IsReachable : Node S → Type 0 where
    started : (rtc_time : ℕ) (n : Node S) → IsReachable (on_driver handlers (on_start rtc_time) n)
    next : (e : Event) {n : Node S} → IsReachable n → IsReachable (step e n)

  resting_of_IsSettled : (d : Driver) → IsSettled d → is_resting d.active_state ≡ true
  resting_of_IsSettled d (es, q, inl e) = rw e refl
  resting_of_IsSettled d (es, q, inr e) = rw e refl

  resting_of_Outcome :
      {micros header : ℕ} {d : Driver} {r : Driver × Bool}
      → is_resting d.active_state ≡ true
      → Outcome micros header d r
      → is_resting r.0.active_state ≡ true
  resting_of_Outcome h (sent a _ _) = rw a refl
  resting_of_Outcome h refused = h
  resting_of_Outcome h (given_up _ a _) = rw a refl

  on_driver_resting :
      (d : Driver) (rtc_time : ℕ) → is_resting (on_start rtc_time d).active_state ≡ true
  unfolding on_start restore_to_receiving emit
  on_driver_resting d rtc_time = refl

  action_resting :
      (env : Env) (a : Action) (n : Node S)
      → is_resting n.driver.active_state ≡ true
      → is_resting (on_async_action handlers lib env a n).driver.active_state ≡ true
  unfolding on_async_action on_channel_updated on_transmit_power_updated on_async_restore
      restore_to_receiving process_sent add_async_action emit
  action_resting env process_incoming_packet n h =
      resting_of_IsSettled (process_incoming handlers lib env n).driver
        (process_incoming-IsSettled handlers lib env n)
  action_resting env (process_sent_ok header) n h = refl
  action_resting env process_battery_alarm n h = h
  action_resting env update_power n h = ground arith
  action_resting env update_channel n h = ground arith
  action_resting env async_restore n h = refl

  step_resting :
      (e : Event) (n : Node S)
      → is_resting n.driver.active_state ≡ true
      → is_resting (step e n).driver.active_state ≡ true
  unfolding step on_incoming on_receive_begin on_received_fail on_sent_ok on_battery_alarm
      on_wake_up_timer set_channel set_transmit_power on_channel_updated on_transmit_power_updated
      restore_to_receiving add_async_action emit
  step_resting (incoming micros rssi) n h = ground arith
  step_resting (receive_begin length rssi) n h = ground arith
  step_resting (received_fail rssi) n h = h
  step_resting sent_ok n h = ground arith
  step_resting battery_alarm n h = h
  step_resting wake_up_timer n h = h
  step_resting (async_action env action) n h = action_resting env action n h
  step_resting (ask_send micros transmit_ok packet) n h =
      resting_of_Outcome h (send_packet-Outcome lib micros transmit_ok packet n.driver)
  step_resting (ask_channel channel) n h = ground arith
  step_resting (ask_power normalized) n h = ground arith

  -- A started driver never stays in the middle of a packet: after every event, whatever the
  -- services did to it meanwhile, it is neither processing an incoming packet nor sending an
  -- acknowledgement.
  pub reachable_is_resting : (n : Node S) → IsReachable n → is_resting n.driver.active_state ≡ true
  reachable_is_resting _ (started rtc_time n) = on_driver_resting n.driver rtc_time
  reachable_is_resting _ (next e {n} r) = step_resting e n (reachable_is_resting n r)
