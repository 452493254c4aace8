-- ===== src/Driver/Send.antt =====
-- SendPacket and OnTransmitted of src/PacketDriver/LoLaPacketDriver.h.
pub mod Laws
pub mod Wire
use lo_la.Prelude.{
  ℕ, Bool, true, false, not, ◌&&◌, ◌||◌, if◌then◌else◌, Option, none, some, List, [], ◌∷◌, ◌++◌,
  ltb, take, drop, overwrite,
}
use lo_la.Packet.Definition.{PacketDefinition, get_total_size, get_content_size, header_index}
use lo_la.Packet.Buffer.{Packet, get_raw_content, get_data_header, set_mac_crc}
use lo_la.Crypto.Library.{CryptoLibrary}
use lo_la.Crypto.Encoder.{encode}
use lo_la.Driver.State.{
  Driver, ActiveState, ready_for_anything, sending_ack, sending_outgoing,
  waiting_for_transmission_end, emit, add_async_action, async_restore, radio_transmit,
}
use lo_la.Driver.Power.{on_transmit_power_updated}

unfoldable pub on_transmitted : (micros header : ℕ) → Driver → Driver
on_transmitted micros header d = on_transmit_power_updated (record d {
  last_sent_micros = micros;
  last_sent_header = header;
  last_channel = d.current_channel;
})

abbrev pub can_send : ActiveState → Bool
can_send ready_for_anything = true
can_send sending_ack = true
can_send _ = false

-- Bytes written behind the CRC of a packet.
abbrev pub write_raw_content : List ℕ → Packet → Packet
write_raw_content bytes p = record p {
  raw = take header_index p.raw ++ overwrite bytes (drop header_index p.raw);
}

-- The outgoing packet with the encoded content and its CRC.
unfoldable pub load_outgoing : CryptoLibrary → Driver → Packet → PacketDefinition → Packet
load_outgoing lib d packet definition =
    let (out, crc) =
      encode lib d.encoder (take (get_content_size definition) (get_raw_content packet)) in
    set_mac_crc crc (write_raw_content out d.outgoing_packet)

-- `transmit_ok` is what Si446x_TX answers, if it is called.
unfoldable pub transmit_from :
    (micros : ℕ) (transmit_ok : Bool) (header : ℕ) → Driver → Driver × Bool
transmit_from micros transmit_ok header d =
    if ltb 0 d.outgoing_packet_size
    then (let sent =
          emit (radio_transmit d.outgoing_packet.raw d.outgoing_packet_size d.current_channel) d in
        if transmit_ok
        then (
          record (on_transmitted micros header sent) {
            active_state = waiting_for_transmission_end;
          },
          true,
        )
        else (add_async_action async_restore true sent, false))
    else (add_async_action async_restore true d, false)

-- The packet's definition is a pointer: `none` is null.
unfoldable pub send_defined :
    CryptoLibrary
    → (micros : ℕ) (transmit_ok : Bool) → Packet
    → Option PacketDefinition
    → Driver
    → Driver × Bool
send_defined lib micros transmit_ok packet none d = (d, false)
send_defined lib micros transmit_ok packet (some definition) d =
    if d.channel_pending || not (can_send d.active_state)
    then (d, false)
    else transmit_from micros transmit_ok (get_data_header packet) (record d {
      active_state = sending_outgoing;
      outgoing_packet = load_outgoing lib d packet definition;
      outgoing_packet_size = get_total_size definition;
    })

unfoldable pub send_packet :
    CryptoLibrary → (micros : ℕ) (transmit_ok : Bool) → Packet → Driver → Driver × Bool
send_packet lib micros transmit_ok packet d =
    send_defined lib micros transmit_ok packet packet.definition d
