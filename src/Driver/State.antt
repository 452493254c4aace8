-- ===== src/Driver/State.antt =====
-- The state of ILoLaDriver (src/ILoLaDriver.h) and LoLaPacketDriver
-- (src/PacketDriver/LoLaPacketDriver.h), and the operations of the first that only set or read it.
-- What the driver does outside of its state, to the radio (src/PacketDriver/LoLaSi446x) and to the
-- queue of asynchronous actions, is the list `effects`, the last one first. `DuplexElapsed`,
-- `OutgoingHeaderHelper` and `ActionGrunt` are written before each read and are no part of it.
use lo_la.Prelude.{ℕ, ◌*◌, ◌/◌, Bool, if◌then◌else◌, Option, List, ◌∷◌, ◌==◌, u32, sub32, u32_max}
use lo_la.Packet.Definition.{PacketDefinition}
use lo_la.Packet.Buffer.{Packet}
use lo_la.Packet.Map.{PacketMap}
use lo_la.Crypto.Encoder.{Encoder}
use lo_la.Driver.Clock.{Clock}

pub data ActiveState : Type 0 where
  driver_disabled ready_for_anything blocked_for_incoming awaiting_processing : ActiveState
  processing_incoming sending_outgoing sending_ack waiting_for_transmission_end : ActiveState

-- DriverAsyncActions, with the value that ActionCallbackClass carries beside it.
pub data Action : Type 0 where
  process_incoming_packet update_power update_channel async_restore process_battery_alarm : Action
  process_sent_ok : ℕ → Action

pub data Effect : Type 0 where
  -- `AppendToQueue`, with `easeRetry`.
  append_action : Action → Bool → Effect
  -- Si446x_RX, Si446x_setTxPower, Si446x_TX and Si446x_read.
  radio_receive : ℕ → Effect
  radio_power : ℕ → Effect
  radio_transmit : (raw : List ℕ) (size channel : ℕ) → Effect
  radio_read : ℕ → Effect
  irq_off irq_on : Effect

-- ILOLA_INVALID_RSSI is the pattern of INT16_MIN.
abbrev pub invalid_rssi : ℕ
invalid_rssi = 32768

abbrev pub invalid_micros : ℕ
invalid_micros = u32_max

abbrev pub invalid_millis : ℕ
invalid_millis = u32_max

pub record InputInfo : Type 0 where
  pub micros : ℕ
  pub rssi : ℕ

abbrev pub clear_input : InputInfo
clear_input = record { micros = invalid_micros; rssi = invalid_rssi }

pub record Driver : Type 0 where
  pub active_state : ActiveState
  pub last_sent_header : ℕ
  pub last_power : ℕ
  pub last_channel : ℕ
  pub channel_pending : Bool
  pub last_received : InputInfo
  pub last_sent_micros : ℕ
  pub last_valid_received : InputInfo
  pub last_valid_sent_micros : ℕ
  pub transmited_count : ℕ
  pub received_count : ℕ
  pub rejected_count : ℕ
  pub timing_collision_count : ℕ
  pub current_transmit_power : ℕ
  pub current_channel : ℕ
  pub transmit_power_normalized : ℕ
  pub link_active : Bool
  pub even_slot : Bool
  pub ettm : ℕ
  pub packet_map : PacketMap
  pub clock : Clock
  pub encoder : Encoder
  pub ack_definition : Option PacketDefinition
  pub incoming_packet : Packet
  pub incoming_packet_size : ℕ
  pub outgoing_packet : Packet
  pub outgoing_packet_size : ℕ
  pub ack_packet : Packet
  pub effects : List Effect

-- ILOLA_DEFAULT_DUPLEX_PERIOD_MILLIS in microseconds, and half of it.
abbrev pub duplex_period_micros : ℕ
duplex_period_micros = 10 * 1000

abbrev pub half_duplex_period_micros : ℕ
half_duplex_period_micros = duplex_period_micros / 2

-- LOLA_LINK_UNLINKED_BACK_OFF_DURATION_MILLIS and LOLA_LINK_LINKED_BACK_OFF_DURATION_MILLIS.
abbrev pub back_off_unlinked_millis : ℕ
back_off_unlinked_millis = 10 / 2

abbrev pub back_off_linked_millis : ℕ
back_off_linked_millis = 1

unfoldable pub emit : Effect → Driver → Driver
emit e d = record d { effects = e ∷ d.effects }

unfoldable pub add_async_action : Action → Bool → Driver → Driver
unfolding emit
add_async_action action ease_retry d = emit (append_action action ease_retry) d

unfoldable pub set_link_status : Bool → Driver → Driver
set_link_status linked d = record d { link_active = linked }

-- With LOLA_LINK_USE_LATENCY_COMPENSATION.
unfoldable pub set_ettm : ℕ → Driver → Driver
set_ettm ettm_micros d = record d { ettm = u32 ettm_micros }

unfoldable pub set_duplex_slot : Bool → Driver → Driver
set_duplex_slot even_slot d = record d { even_slot = even_slot }

unfoldable pub reset_statistics : Driver → Driver
reset_statistics d = record d {
  transmited_count = 0;
  received_count = 0;
  rejected_count = 0;
  timing_collision_count = 0;
}

unfoldable pub reset_live_data : Driver → Driver
unfolding reset_statistics
reset_live_data d = reset_statistics (record d {
  ettm = 0;
  last_received = clear_input;
  last_sent_micros = invalid_micros;
  last_valid_received = clear_input;
  last_valid_sent_micros = invalid_micros;
})

abbrev elapsed_since : ℕ → ℕ → ℕ
elapsed_since micros stamp =
    if stamp == invalid_micros then invalid_millis else sub32 micros stamp / 1000

unfoldable pub get_elapsed_millis_last_valid_received : ℕ → Driver → ℕ
get_elapsed_millis_last_valid_received micros d = elapsed_since micros d.last_valid_received.micros

unfoldable pub get_elapsed_millis_last_valid_sent : ℕ → Driver → ℕ
get_elapsed_millis_last_valid_sent micros d = elapsed_since micros d.last_valid_sent_micros
