-- ===== src/Driver/Events.antt =====
-- The radio's callbacks (src/PacketDriver/LoLaSi446x/LoLaSi446xPacketDriver.cpp calls them) and
-- the asynchronous actions of src/PacketDriver/LoLaPacketDriver.h.
pub mod Machine
use lo_la.Prelude.{ℕ, ◌+◌, Bool, true, false, if◌then◌else◌, is_some, u64, u8, min_i16}
use lo_la.Packet.Definition.{ack_header}
use lo_la.Packet.Map.{get_definition}
use lo_la.Crypto.Library.{CryptoLibrary}
use lo_la.Driver.State.{
  Driver, ActiveState, Action, blocked_for_incoming, awaiting_processing,
  waiting_for_transmission_end, emit, irq_off, add_async_action, process_incoming_packet,
  process_sent_ok, update_power, update_channel, async_restore, process_battery_alarm,
}
use lo_la.Driver.Slot.{is_ready}
use lo_la.Driver.Power.{on_channel_updated, on_transmit_power_updated, on_async_restore}
use lo_la.Driver.Receive.{Node, Handlers, Env, process_incoming, process_sent}

-- `Setup`: the radio's own setup answers `radio_ok`.
unfoldable pub setup : (radio_ok : Bool) → Driver → Driver × Bool
setup radio_ok d =
    let found = get_definition ack_header d.packet_map in
    let d' = record d { ack_definition = found } in
    if is_some found then (d', radio_ok) else (d', false)

unfoldable pub on_incoming : (micros rssi : ℕ) → Driver → Driver
on_incoming micros rssi d =
    let stamped = record d { last_received = record { micros = micros; rssi = rssi } } in
    if is_ready d.active_state
    then record stamped { active_state = blocked_for_incoming }
    else stamped

abbrev pub is_blocked : ActiveState → Bool
is_blocked blocked_for_incoming = true
is_blocked _ = false

-- Interrupts are off before the state changes.
unfoldable pub on_receive_begin : (length rssi : ℕ) → Driver → Driver
on_receive_begin length rssi d =
    if is_blocked d.active_state
    then add_async_action process_incoming_packet false (record (emit irq_off d) {
      active_state = awaiting_processing;
      incoming_packet_size = u8 length;
      last_received = record (d.last_received) { rssi = min_i16 rssi d.last_received.rssi };
    })
    else add_async_action async_restore true d

unfoldable pub on_received_fail : (rssi : ℕ) → Driver → Driver
on_received_fail rssi d = add_async_action async_restore true d

abbrev pub is_transmitting : ActiveState → Bool
is_transmitting waiting_for_transmission_end = true
is_transmitting _ = false

unfoldable pub on_sent_ok : Driver → Driver
on_sent_ok d =
    if is_transmitting d.active_state
    then record (add_async_action (process_sent_ok d.last_sent_header) false (record d {
      last_valid_sent_micros = d.last_sent_micros;
      transmited_count = u64 (d.transmited_count + 1);
    })) { last_sent_header = 255 }
    else add_async_action async_restore true d

unfoldable pub on_battery_alarm : Driver → Driver
on_battery_alarm d = add_async_action process_battery_alarm false d

unfoldable pub on_wake_up_timer : Driver → Driver
on_wake_up_timer d = d

-- OnAsyncAction; the battery alarm only prints, in a debug build.
unfoldable pub on_async_action :
    {S : Type 0} → Handlers S → CryptoLibrary → Env → Action → Node S → Node S
on_async_action handlers lib env process_incoming_packet n = process_incoming handlers lib env n
on_async_action handlers lib env (process_sent_ok header) n = process_sent handlers header n
on_async_action handlers lib env process_battery_alarm n = n
on_async_action handlers lib env update_power n = record n {
  driver = on_transmit_power_updated n.driver;
}
on_async_action handlers lib env update_channel n = record n {
  driver = on_channel_updated n.driver;
}
on_async_action handlers lib env async_restore n = record n { driver = on_async_restore n.driver }
