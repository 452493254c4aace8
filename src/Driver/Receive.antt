-- ===== src/Driver/Receive.antt =====
-- ProcessIncoming and ProcessSent of src/PacketDriver/LoLaPacketDriver.h. The services that the
-- driver calls (src/Services/LoLaServicesManager.h) are a parameter: handlers that may change
-- their own state and the driver's.
pub mod Laws
pub mod Rejection
pub mod RoundTrip
use lo_la.Prelude.{
  ℕ, ◌+◌, Bool, true, false, not, ◌&&◌, ◌||◌, if◌then◌else◌, Option, none, some, List, ◌++◌, ltb,
  leb, sub32, u64, u8, take, drop, overwrite,
}
use lo_la.Packet.Definition.{
  PacketDefinition, header_index, min_packet_size, max_packet_size, get_content_size_quick, is_ack,
  has_ack,
}
use lo_la.Packet.Buffer.{
  Packet, get_raw_content, get_data_header, get_mac_crc, set_definition, set_payload, set_id,
  get_id,
}
use lo_la.Packet.Map.{get_definition}
use lo_la.Crypto.Library.{CryptoLibrary}
use lo_la.Crypto.Encoder.{decode}
use lo_la.Driver.State.{
  Driver, ActiveState, awaiting_processing, processing_incoming, sending_ack, emit, irq_on,
  radio_read,
}
use lo_la.Driver.Slot.{is_out_of_slot}
use lo_la.Driver.Power.{restore_to_receiving}
use lo_la.Driver.Send.{send_packet, write_raw_content}

-- The driver and its services.
pub record Node (S : Type 0) : Type 0 where
  pub driver : Driver
  pub services : S

-- ProcessPacket, ProcessAckedPacket, ProcessAck and ProcessSent of LoLaServicesManager.
pub record Handlers (S : Type 0) : Type 0 where
  pub process_packet : Packet → Node S → Node S
  pub process_acked_packet : Packet → Node S → Node S × Bool
  pub process_ack : Packet → Node S → Node S
  pub process_sent : ℕ → Node S → Node S

-- What one run of a handler finds outside: the time, the radio's answers, the undefined
-- LOLA_LINK_COLLISION_SLOT_RANGE_MICROS, and `collision_result`, the value that the caller of
-- IsReceiveCollision gets, a function with no `return`.
pub record Env : Type 0 where
  pub micros : ℕ
  pub transmit_ok : Bool
  pub received : List ℕ
  pub slot_range : ℕ
  pub collision_result : Bool

abbrev pub is_awaiting : ActiveState → Bool
is_awaiting awaiting_processing = true
is_awaiting _ = false

-- `ReadReceived`: Si446x_read copies what the radio received to the buffer. Bytes beyond the
-- buffer, which C++ would write behind it, are dropped.
unfoldable pub read_received : List ℕ → Driver → Driver
read_received received d = emit (radio_read d.incoming_packet_size) (record d {
  incoming_packet = record (d.incoming_packet) { raw = overwrite received d.incoming_packet.raw };
})

-- IsReceiveCollision counts, and then the caller counts what the function left to it.
unfoldable pub count_collision : Env → Driver → Driver
count_collision env d =
    let counted =
      if is_out_of_slot env.slot_range env.micros (sub32 d.last_valid_received.micros env.micros) d
      then record d { timing_collision_count = u64 (d.timing_collision_count + 1) }
      else d in
    if env.collision_result
    then record counted { timing_collision_count = u64 (counted.timing_collision_count + 1) }
    else counted

-- What is committed of a packet that was received well.
unfoldable pub commit_received : Env → Driver → Driver
commit_received env d = count_collision env (record d {
  last_valid_received = d.last_received;
  received_count = u64 (d.received_count + 1);
})

-- `RestoreToReceiving(); EnableInterrupts();`
unfoldable pub finish : Driver → Driver
finish d = emit irq_on (restore_to_receiving d)

-- The acknowledgement of the incoming packet, built in the driver's `AckPacket`.
unfoldable pub prepare_ack : Driver → Driver
prepare_ack d =
    let acked = (set_definition d.ack_definition d.ack_packet).0 in
    let with_header : Packet = elim d.incoming_packet.definition [
      | none ↦ acked
      | some h ↦ set_payload 0 h.header acked
    ] in
    record d {
      ack_packet = set_id (get_id d.incoming_packet) with_header;
      active_state = sending_ack;
    }

-- `Decode`, in place, on the content of the size that came over the air.
unfoldable pub decode_incoming : CryptoLibrary → Driver → Driver × Bool
decode_incoming lib d =
    let packet = d.incoming_packet in
    let content = take (get_content_size_quick d.incoming_packet_size) (get_raw_content packet) in
    let (out, ok) = decode lib d.encoder content (get_mac_crc packet) in
    (record d { incoming_packet = write_raw_content out packet }, ok)

abbrev pub is_bad_size : Driver → Bool
is_bad_size d =
    ltb d.incoming_packet_size min_packet_size || ltb max_packet_size d.incoming_packet_size

module _ {S : Type 0} (handlers : Handlers S) where
  abbrev pub on_driver : (Driver → Driver) → Node S → Node S
  on_driver f n = record n { driver = f n.driver }

  -- The branch of a packet that wants an acknowledgement, after the services' verdict.
  unfoldable pub answer_acked : CryptoLibrary → Env → Node S × Bool → Node S
  answer_acked lib env (n, false) = on_driver finish n
  answer_acked lib env (n, true) =
      let ready = prepare_ack n.driver in
      let (d, sent) = send_packet lib env.micros env.transmit_ok ready.ack_packet ready in
      record n { driver = if sent then emit irq_on d else finish d }

  -- A packet that was decoded and whose header is known.
  unfoldable pub dispatch_received : CryptoLibrary → Env → PacketDefinition → Node S → Node S
  dispatch_received lib env definition n =
      let packet = n.driver.incoming_packet in
      if is_ack definition
      then on_driver finish (handlers.process_ack packet n)
      else if has_ack definition
      then answer_acked lib env (handlers.process_acked_packet packet n)
      else on_driver finish (handlers.process_packet packet n)

  -- `SetDefinition` of what the map finds, and both outcomes.
  unfoldable pub look_up_incoming : CryptoLibrary → Env → Option PacketDefinition → Node S → Node S
  look_up_incoming lib env none n =
      on_driver
        (λ d. finish (record d {
          incoming_packet = (set_definition none d.incoming_packet).0;
          rejected_count = u64 (d.rejected_count + 1);
        }))
        n
  look_up_incoming lib env (some definition) n = dispatch_received lib env definition (
      on_driver
        (λ d.
          commit_received env
            (record d { incoming_packet = (set_definition (some definition) d.incoming_packet).0 }))
        n)

  unfoldable pub process_incoming : CryptoLibrary → Env → Node S → Node S
  process_incoming lib env n =
      if not (is_awaiting n.driver.active_state)
      then on_driver finish n
      else let read =
          read_received env.received (record (n.driver) { active_state = processing_incoming }) in
        if is_bad_size read
        then record n { driver = finish read }
        else let (decoded, ok) = decode_incoming lib read in
          if ok
          then look_up_incoming lib env
              (get_definition (get_data_header decoded.incoming_packet) decoded.packet_map)
              (record n { driver = decoded })
          else record n {
            driver = finish (record decoded { rejected_count = u64 (decoded.rejected_count + 1) });
          }

  unfoldable pub process_sent : ℕ → Node S → Node S
  process_sent header n = on_driver restore_to_receiving (handlers.process_sent header n)
