-- ===== src/Tests/Driver.antt =====
-- The theorems on src/PacketDriver/LoLaPacketDriver.h at concrete drivers.
use lo_la.Prelude.{
  ℕ, ◌+◌, ◌∙◌, true, false, some, [], ◌∷◌, ◌≡◌, ◌↔◌, ◌⊎◌, inl, refl, arith, u32, ◌%◌,
}
use lo_la.Packet.Definition.{report_definition, get_total_size, get_content_size}
use lo_la.Packet.Buffer.{get_data_header, get_raw_content}
use lo_la.Packet.Map.{get_definition}
use lo_la.Crypto.Encoder.{encode}
use lo_la.Driver.Clock.{get_sync_micros}
use lo_la.Driver.State.{
  Driver, process_incoming_packet, ready_for_anything, sending_ack, awaiting_processing,
  duplex_period_micros, half_duplex_period_micros,
}
use lo_la.Driver.Slot.{is_in_send_slot, is_in_receive_slot, allowed_send}
use lo_la.Driver.Slot.Exclusion.{
  AreSynced, allowed_send_excludes, sent_in_slot_is_received_in_slot, send_slots_share_the_middle,
  send_slot_of_long_latency,
}
use lo_la.Driver.Send.{send_packet}
use lo_la.Driver.Send.Laws.{Outcome, send_packet-Outcome, send_packet_iff}
use lo_la.Driver.Send.Wire.{on_air, frame, content, on_air-send_packet}
use lo_la.Driver.Receive.{Node, on_driver, Env, process_incoming}
use lo_la.Driver.Receive.Laws.{IsSettled, process_incoming-IsSettled}
use lo_la.Driver.Receive.Rejection.{IsUntouched, unaccepted_is_dropped}
use lo_la.Driver.Receive.RoundTrip.{IsSendable, IsReceiving, shown, sent_packet_is_dispatched}
use lo_la.Driver.Power.{on_start}
use lo_la.Driver.Events.Machine.{
  IsReachable, started, next, step, ask_send, async_action, receive_begin, is_resting,
  reachable_is_resting,
}
use lo_la.Tests.Values.{toy, toy-IsLawful, report_packet, driver_in, counting, swap_pairs, sum}

abbrev host : Driver
host = driver_in ready_for_anything true true 900

abbrev remote : Driver
remote = driver_in ready_for_anything false true 900

synced : AreSynced 1002000 1002000 host remote
synced = record {
  host_even = refl;
  remote_odd = refl;
  clocks = refl;
  same_ettm = refl;
  ettm_pos = omega arith;
  ettm_half = omega arith;
}

host_sends : allowed_send 1002000 host ≡ true
unfolding allowed_send get_sync_micros
host_sends = refl

allowed_send_excludes_example : allowed_send 1002000 remote ≡ false
allowed_send_excludes_example =
    allowed_send_excludes 1002000 1002000 host remote synced refl refl host_sends

in_slot : is_in_send_slot 1002000 host ≡ true
unfolding is_in_send_slot get_sync_micros
in_slot = refl

arrives :
    u32 (get_sync_micros 1002000 remote.clock + 900)
    ≡ u32 (get_sync_micros 1002000 host.clock + host.ettm)
arrives = refl

sent_in_slot_is_received_in_slot_example : is_in_receive_slot 1002000 900 remote ≡ true
sent_in_slot_is_received_in_slot_example =
    sent_in_slot_is_received_in_slot 1002000 1002000 900 host remote (λ e. cc e) (omega arith)
      arrives in_slot

abbrev host_uncompensated : Driver
host_uncompensated = driver_in ready_for_anything true true 0

abbrev remote_uncompensated : Driver
remote_uncompensated = driver_in ready_for_anything false true 0

send_slots_share_the_middle_example :
    (is_in_send_slot 5000 host_uncompensated ≡ true)
      × (is_in_send_slot 5000 remote_uncompensated ≡ true)
    ↔ (u32 (get_sync_micros 5000 host_uncompensated.clock) % duplex_period_micros
        ≡ half_duplex_period_micros)
send_slots_share_the_middle_example =
    send_slots_share_the_middle 5000 5000 host_uncompensated remote_uncompensated refl refl refl
      refl refl

send_slot_of_long_latency_example :
    is_in_send_slot 1009000 (driver_in ready_for_anything true true 6000) ≡ true
send_slot_of_long_latency_example =
    send_slot_of_long_latency 1009000 (driver_in ready_for_anything true true 6000) refl
      (omega arith) (omega arith)

send_packet-Outcome_example :
    Outcome 70 (get_data_header report_packet) host (send_packet toy 70 false report_packet host)
send_packet-Outcome_example = send_packet-Outcome toy 70 false report_packet host

send_packet_iff_example : ((send_packet toy 70 true report_packet host).1 ≡ true) ↔ (
    ((host.active_state ≡ ready_for_anything) ⊎ (host.active_state ≡ sending_ack))
    × (host.channel_pending ≡ false)
    × (true ≡ true))
send_packet_iff_example =
    send_packet_iff toy 70 true report_packet report_definition host refl (omega arith)

sends : (send_packet toy 70 true report_packet host).1 ≡ true
sends =
    (send_packet_iff toy 70 true report_packet report_definition host refl (omega arith)).1
      (inl refl, refl, refl)

on_air-send_packet_example :
    on_air (send_packet toy 70 true report_packet host).0.effects
    ≡ some (frame toy host.encoder (content report_definition report_packet))
on_air-send_packet_example =
    on_air-send_packet toy toy-IsLawful 70 true report_packet report_definition host refl
      (omega arith) refl (omega arith) sends

-- The radio of the receiver gives the frame of the report.
abbrev env : Env
env = record {
  micros = 1003000;
  transmit_ok = true;
  received = 33 ∷ 0 ∷ 4 ∷ 5 ∷ 8 ∷ 7 ∷ 9 ∷ [];
  slot_range = 1000;
  collision_result = false;
}

abbrev waiting : Node ℕ
waiting = record { driver = driver_in awaiting_processing false true 900; services = 0 }

sendable : IsSendable report_packet report_definition
unfolding get_data_header
sendable = record { defined = refl; small = omega arith; room = omega arith; headed = refl }

receiving : IsReceiving host waiting.driver report_definition
unfolding get_total_size get_definition
receiving = record {
  out_room = refl;
  in_room = refl;
  awaiting = refl;
  sized = refl;
  known = refl;
  same_stage = refl;
  same_key = refl;
  same_iv = refl;
  same_token = refl;
}

report_frame :
    some (frame toy host.encoder (content report_definition report_packet)) ≡ some env.received
unfolding encode swap_pairs sum get_content_size get_raw_content
report_frame = refl

on_the_air : on_air (send_packet toy 70 true report_packet host).0.effects ≡ some env.received
on_the_air =
    on_air-send_packet toy toy-IsLawful 70 true report_packet report_definition host refl
      (omega arith) refl (omega arith) sends
    ∙ report_frame

sent_packet_is_dispatched_example :
    (n' : Node ℕ) × ((process_incoming counting toy env waiting).services
      ≡ shown counting report_definition n'.driver.incoming_packet n')
    × (n'.services ≡ 0)
    × (n'.driver.incoming_packet.definition ≡ some report_definition)
    × (content report_definition n'.driver.incoming_packet
        ≡ content report_definition report_packet)
sent_packet_is_dispatched_example =
    sent_packet_is_dispatched counting toy toy-IsLawful host report_packet report_definition 70 true
      env waiting sendable receiving sends on_the_air

process_incoming-IsSettled_example : IsSettled (process_incoming counting toy env waiting).driver
process_incoming-IsSettled_example = process_incoming-IsSettled counting toy env waiting

-- The same bytes when none was announced.
abbrev idle : Node ℕ
idle = record { driver = host; services = 0 }

unaccepted_is_dropped_example :
    let n' = process_incoming counting toy env idle in
    (n'.services ≡ 0) × IsUntouched host n'.driver
unaccepted_is_dropped_example = unaccepted_is_dropped counting toy env idle refl

-- A start, an announced packet, its processing, and a send.
abbrev history :
    IsReachable counting toy
      (λ power. power)
      (step counting toy
        (λ power. power)
        (ask_send 70 true report_packet)
        (step counting toy
          (λ power. power)
          (async_action env process_incoming_packet)
          (step counting toy
            (λ power. power)
            (receive_begin 7 200)
            (on_driver counting (on_start 5) idle))))
history =
    next (ask_send 70 true report_packet) (
      next (async_action env process_incoming_packet) (next (receive_begin 7 200) (started 5 idle)))

reachable_is_resting_example :
    is_resting
      (step counting toy
        (λ power. power)
        (ask_send 70 true report_packet)
        (step counting toy
          (λ power. power)
          (async_action env process_incoming_packet)
          (step counting toy
            (λ power. power)
            (receive_begin 7 200)
            (on_driver counting (on_start 5) idle)))).driver.active_state
    ≡ true
reachable_is_resting_example =
    reachable_is_resting counting toy (λ power. power)
      (step counting toy (λ power. power) (ask_send 70 true report_packet)
        (step counting toy (λ power. power) (async_action env process_incoming_packet)
          (step counting toy (λ power. power) (receive_begin 7 200)
            (on_driver counting (on_start 5) idle))))
      history
