-- ===== src/Driver/Power.antt =====
-- Channel and power of the driver: RestoreToReceiving, OnChannelUpdated, OnTransmitPowerUpdated,
-- OnAsyncRestore and OnStart of src/PacketDriver/LoLaPacketDriver.h, SetTransmitPower and
-- SetChannel of src/ILoLaDriver.h.
use lo_la.Prelude.{ℕ, true, false, if◌then◌else◌, ◌==◌, u8}
use lo_la.Driver.Clock.{start}
use lo_la.Driver.State.{
  Driver, ready_for_anything, emit, add_async_action, update_channel, update_power, radio_receive,
  radio_power,
}
use lo_la.Driver.Slot.{is_ready}

unfoldable pub restore_to_receiving : Driver → Driver
unfolding emit
restore_to_receiving d = emit (radio_receive d.current_channel) (record d {
  last_channel = d.current_channel;
  channel_pending = false;
  active_state = ready_for_anything;
})

unfoldable pub on_channel_updated : Driver → Driver
unfolding restore_to_receiving add_async_action
on_channel_updated d =
    if d.last_channel == d.current_channel
    then d
    else if is_ready d.active_state
    then restore_to_receiving d
    else add_async_action update_channel true (record d { channel_pending = true })

unfoldable pub on_transmit_power_updated : Driver → Driver
unfolding restore_to_receiving add_async_action emit
on_transmit_power_updated d =
    if d.last_power == d.current_transmit_power
    then d
    else if is_ready d.active_state
    then restore_to_receiving (record (emit (radio_power d.current_transmit_power) d) {
      last_power = d.current_transmit_power;
    })
    else add_async_action update_power true d

unfoldable pub on_async_restore : Driver → Driver
unfolding restore_to_receiving
on_async_restore d = restore_to_receiving (record d { last_sent_header = 255 })

-- The RTC's time is read when the clock is attached.
unfoldable pub on_start : ℕ → Driver → Driver
unfolding restore_to_receiving start
on_start rtc_time d = restore_to_receiving (record d {
  clock = start rtc_time d.clock;
  last_channel = 255;
  last_power = 0;
  channel_pending = false;
})

unfoldable pub set_channel : ℕ → Driver → Driver
unfolding on_channel_updated
set_channel channel d = on_channel_updated (record d { current_channel = u8 channel })

-- Arduino's `map(value, 0, UINT8_MAX, min, max)` is the parameter `map_range`, of the value alone:
-- the radio's minimum and maximum power are constants.
unfoldable pub set_transmit_power : (map_range : ℕ → ℕ) → ℕ → Driver → Driver
unfolding on_transmit_power_updated
set_transmit_power map_range normalized d = on_transmit_power_updated (record d {
  transmit_power_normalized = u8 normalized;
  current_transmit_power = u8 (map_range (u8 normalized));
})
