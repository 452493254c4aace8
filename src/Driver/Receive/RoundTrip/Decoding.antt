-- ===== src/Driver/Receive/RoundTrip/Decoding.antt =====
-- What ProcessIncoming of src/PacketDriver/LoLaPacketDriver.h makes of a frame.
use lo_la.Prelude.{
  ℕ, ◌+◌, ◌/◌, ◌≤◌, ◌<◌, true, Option, List, [], ◌∷◌, ◌≡◌, sym, ap, ap₂, subst, ◌∙◌, arith, u8,
  take, overwrite, length, take-overwrite, length-overwrite,
}
use lo_la.Packet.Definition.{
  PacketDefinition, get_total_size, get_content_size, get_content_size_quick,
  get_content_size_quick-get_total_size,
}
use lo_la.Packet.Buffer.{Packet, get_raw_content, get_mac_crc}
use lo_la.Crypto.Library.{CryptoLibrary, IsLawful}
use lo_la.Crypto.Encoder.{Encoder, encode, decode}
use lo_la.Crypto.Encoder.Laws.{length-encode, encode-crc-lt, decode-encode}
use lo_la.Driver.State.{Driver}
use lo_la.Driver.Send.{write_raw_content}
use lo_la.Driver.Receive.{decode_incoming}
use lo_la.Driver.Send.Wire.{frame}

-- A buffer that was filled with a frame: its CRC and its content are the frame's.
frame_parts :
    (crc : ℕ) (out raw : List ℕ) (o : Option PacketDefinition) (n : ℕ)
    → length out + 2 ≤ length raw
    → crc < 65536
    → n ≡ length out
    → let p : Packet = record {
      definition = o;
      raw = overwrite (u8 crc ∷ u8 (crc / 256) ∷ out) raw;
    } in
      (get_mac_crc p ≡ crc) × (take n (get_raw_content p) ≡ out)
unfolding get_mac_crc get_raw_content
frame_parts crc out [] o n h c e = absurd (omega arith)
frame_parts crc out (a ∷ []) o n h c e = absurd (omega arith)
frame_parts crc out (a ∷ b ∷ raw) o n h c e =
    (omega arith, ap (λ m. take m (overwrite out raw)) e ∙ take-overwrite out raw (omega arith))

-- The same buffer after the content was decoded in place to a message of the same length.
pub content_of_written :
    (crc : ℕ) (out message raw : List ℕ) (o : Option PacketDefinition) (n : ℕ)
    → length out + 2 ≤ length raw
    → length message ≡ length out
    → n ≡ length message
    → let p : Packet = record {
      definition = o;
      raw = overwrite (u8 crc ∷ u8 (crc / 256) ∷ out) raw;
    } in
      (take n (get_raw_content (write_raw_content message p)) ≡ message)
      × (length (write_raw_content message p).raw ≡ length raw)
unfolding get_raw_content
content_of_written crc out message [] o n h l e = absurd (omega arith)
content_of_written crc out message (a ∷ []) o n h l e = absurd (omega arith)
content_of_written crc out message (a ∷ b ∷ raw) o n h l e = (
  ap (λ m. take m (overwrite message (overwrite out raw))) e
      ∙ take-overwrite message (overwrite out raw) (omega (arith, length-overwrite out raw)),
  omega (arith, length-overwrite out raw, length-overwrite message (overwrite out raw)),
)

module _ (lib : CryptoLibrary) (lawful : IsLawful lib) where
  -- A receiver whose encoder agrees with the sender's decodes the frame to the message.
  pub decode_incoming-frame :
      (e : Encoder) (message raw : List ℕ) (definition : PacketDefinition) (d : Driver)
      → definition.payload_size ≤ 22
      → length message ≡ get_content_size definition
      → length message + 2 ≤ length raw
      → d.incoming_packet.raw ≡ overwrite (frame lib e message) raw
      → d.incoming_packet_size ≡ get_total_size definition
      → e.encoder_state ≡ d.encoder.encoder_state
      → e.key_holder ≡ d.encoder.key_holder
      → e.iv_holder ≡ d.encoder.iv_holder
      → e.token_holder ≡ d.encoder.token_holder
      → decode_incoming lib d
        ≡ (record d { incoming_packet = write_raw_content message d.incoming_packet }, true)
  unfolding decode_incoming
  decode_incoming-frame e message raw definition d small size room filled sent s k i t =
      ap (λ r. (record d { incoming_packet = write_raw_content r.0 d.incoming_packet }, r.1))
        (ap₂ (decode lib d.encoder) parts.1 parts.0
          ∙ decode-encode lib lawful e d.encoder message s k i t)
    where
      out : List ℕ
      out = (encode lib e message).0

      out_length : length out ≡ length message
      out_length = length-encode lib lawful e message

      n : ℕ
      n = get_content_size_quick d.incoming_packet_size

      n_length : n ≡ length out
      n_length =
          ap get_content_size_quick sent
          ∙ get_content_size_quick-get_total_size definition small
          ∙ sym size
          ∙ sym out_length

      parts :
          (get_mac_crc d.incoming_packet ≡ (encode lib e message).1)
          × (take n (get_raw_content d.incoming_packet) ≡ out)
      parts =
          subst
            (λ p. (get_mac_crc p ≡ (encode lib e message).1) × (take n (get_raw_content p) ≡ out))
            (λ j. record { definition = d.incoming_packet.definition; raw = sym filled j })
            (frame_parts (encode lib e message).1 out raw d.incoming_packet.definition n
              (omega (arith, out_length)) (encode-crc-lt lib lawful e message) n_length)
