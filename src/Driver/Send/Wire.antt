-- ===== src/Driver/Send/Wire.antt =====
-- The bytes that SendPacket of src/PacketDriver/LoLaPacketDriver.h puts on the air.
use lo_la.Prelude.{
  ℕ, zero, suc, ◌+◌, ◌/◌, ◌≤◌, Bool, true, false, not, ◌||◌, ltb, Bool-cases, inl, inr, Option,
  none, some, List, [], ◌∷◌, ◌≡◌, refl, ap, ◌∙◌, arith, u8, take, drop, overwrite, length,
  take-overwrite, length-take, length-drop,
}
use lo_la.Packet.Definition.{
  PacketDefinition, get_total_size, get_content_size, get_total_size-eq, get_content_size-eq,
}
use lo_la.Packet.Buffer.{Packet, set_mac_crc, get_raw_content, get_data_header}
use lo_la.Crypto.Library.{CryptoLibrary, IsLawful}
use lo_la.Crypto.Encoder.{Encoder, encode}
use lo_la.Crypto.Encoder.Laws.{length-encode}
use lo_la.Driver.State.{Driver, Effect, radio_transmit, emit, add_async_action, sending_outgoing}
use lo_la.Driver.Power.{on_transmit_power_updated}
use lo_la.Driver.Send.{
  load_outgoing, write_raw_content, send_packet, send_defined, transmit_from, on_transmitted,
  can_send,
}

-- The content of a packet: header, id and payload.
abbrev pub content : PacketDefinition → Packet → List ℕ
content definition p = take (get_content_size definition) (get_raw_content p)

-- CRC, least significant byte first, then the encoded content.
abbrev pub frame : CryptoLibrary → Encoder → List ℕ → List ℕ
frame lib e message = let (out, crc) = encode lib e message in u8 crc ∷ u8 (crc / 256) ∷ out

-- The frame of any output written into any buffer of a packet's size.
take-write :
    (crc : ℕ) (out raw : List ℕ) (o : Option PacketDefinition) (n : ℕ)
    → 2 ≤ length raw
    → length out + 2 ≤ length raw
    → n ≡ length out + 2
    → take n (set_mac_crc crc (write_raw_content out (record { definition = o; raw = raw }))).raw
      ≡ u8 crc ∷ u8 (crc / 256) ∷ out
unfolding set_mac_crc
take-write crc out [] o n h k e = absurd (omega arith)
take-write crc out (a ∷ []) o n h k e = absurd (omega arith)
take-write crc out (a ∷ b ∷ raw) o zero h k e = absurd (omega arith)
take-write crc out (a ∷ b ∷ raw) o (suc zero) h k e = absurd (omega arith)
take-write crc out (a ∷ b ∷ raw) o (suc (suc n)) h k e =
    ap (λ l. u8 crc ∷ u8 (crc / 256) ∷ l)
      (ap (λ m. take m (overwrite out raw)) (omega arith) ∙ take-overwrite out raw (omega arith))

pub length-content :
    (definition : PacketDefinition) (p : Packet)
    → definition.payload_size ≤ 22
    → definition.payload_size + 4 ≤ length p.raw
    → length (content definition p) ≡ definition.payload_size + 2
unfolding get_raw_content
length-content definition p small full =
    length-take (get_content_size definition) (drop 2 p.raw)
      (omega (arith, size, length-drop 2 p.raw))
    ∙ size
  where
    size : get_content_size definition ≡ definition.payload_size + 2
    size = get_content_size-eq definition small

module _ (lib : CryptoLibrary) (lawful : IsLawful lib) where
  -- What the radio is given for a packet is its frame.
  pub take-load_outgoing :
      (d : Driver) (p : Packet) (definition : PacketDefinition)
      → definition.payload_size ≤ 22
      → length d.outgoing_packet.raw ≡ 26
      → definition.payload_size + 4 ≤ length p.raw
      → take (get_total_size definition) (load_outgoing lib d p definition).raw
        ≡ frame lib d.encoder (content definition p)
  unfolding load_outgoing
  take-load_outgoing d p definition small room full =
      take-write message_crc out d.outgoing_packet.raw d.outgoing_packet.definition
        (get_total_size definition) (omega arith) (omega (arith, out_length))
        (omega (arith, out_length, get_total_size-eq definition small))
    where
      out : List ℕ
      out = (encode lib d.encoder (content definition p)).0

      message_crc : ℕ
      message_crc = (encode lib d.encoder (content definition p)).1

      out_length : length out ≡ definition.payload_size + 2
      out_length =
          length-encode lib lawful d.encoder (content definition p)
          ∙ length-content definition p small full

-- The bytes of the last transmission among the effects.
abbrev pub on_air : List Effect → Option (List ℕ)
on_air [] = none
on_air (radio_transmit raw size _ ∷ es) = some (take size raw)
on_air (_ ∷ es) = on_air es

on_air-on_transmitted :
    (micros header : ℕ) (d : Driver)
    → d.active_state ≡ sending_outgoing
    → on_air (on_transmitted micros header d).effects ≡ on_air d.effects
unfolding on_transmitted on_transmit_power_updated add_async_action emit
on_air-on_transmitted micros header d a = ground arith

on_air-transmit_from :
    (micros header : ℕ) (d : Driver) (transmit_ok : Bool)
    → d.active_state ≡ sending_outgoing
    → (transmit_from micros transmit_ok header d).1 ≡ true
    → on_air (transmit_from micros transmit_ok header d).0.effects
      ≡ some (take d.outgoing_packet_size d.outgoing_packet.raw)
unfolding transmit_from emit
on_air-transmit_from micros header d true a h = elim (Bool-cases (ltb 0 d.outgoing_packet_size)) [
  | inl e ↦ rw e (on_air-on_transmitted micros header _ a)
  | inr e ↦ cc (rw e at h)
]
on_air-transmit_from micros header d false a h = elim (Bool-cases (ltb 0 d.outgoing_packet_size)) [
  | inl e ↦ cc (rw e at h)
  | inr e ↦ cc (rw e at h)
]

module _ (lib : CryptoLibrary) (lawful : IsLawful lib) where
  on_air-send_defined :
      (micros : ℕ) (transmit_ok : Bool) (p : Packet) (o : Option PacketDefinition)
      (definition : PacketDefinition) (d : Driver)
      → o ≡ some definition
      → definition.payload_size ≤ 22
      → length d.outgoing_packet.raw ≡ 26
      → definition.payload_size + 4 ≤ length p.raw
      → (send_defined lib micros transmit_ok p o d).1 ≡ true
      → on_air (send_defined lib micros transmit_ok p o d).0.effects
        ≡ some (frame lib d.encoder (content definition p))
  unfolding send_defined
  on_air-send_defined micros transmit_ok p none definition d e small room full h = cc
  on_air-send_defined micros transmit_ok p (some found) definition d e small room full h =
      elim (Bool-cases (d.channel_pending || not (can_send d.active_state))) [
        | inl b ↦ cc (rw b at h)
        | inr b ↦ rw b (
            on_air-transmit_from micros (get_data_header p) _ transmit_ok refl (rw b at h)
            ∙ ap some (same found (some_inj e)))
      ]
    where
      some_inj : some found ≡ some definition → found ≡ definition
      some_inj q = ground arith

      same :
          (f : PacketDefinition)
          → f ≡ definition
          → take (get_total_size f) (load_outgoing lib d p f).raw
            ≡ frame lib d.encoder (content definition p)
      same f q = rw q (take-load_outgoing lib lawful d p definition small room full)

  -- A send that succeeded put the frame of the packet on the air: the packet has a definition
  -- of legal size and room for it, and the driver's buffer has the full size.
  pub on_air-send_packet :
      (micros : ℕ) (transmit_ok : Bool) (p : Packet) (definition : PacketDefinition) (d : Driver)
      → p.definition ≡ some definition
      → definition.payload_size ≤ 22
      → length d.outgoing_packet.raw ≡ 26
      → definition.payload_size + 4 ≤ length p.raw
      → (send_packet lib micros transmit_ok p d).1 ≡ true
      → on_air (send_packet lib micros transmit_ok p d).0.effects
        ≡ some (frame lib d.encoder (content definition p))
  unfolding send_packet
  on_air-send_packet micros transmit_ok p definition d e small room full h =
      on_air-send_defined micros transmit_ok p p.definition definition d e small room full h
