-- ===== src/Driver/Send/Laws.antt =====
-- What SendPacket of src/PacketDriver/LoLaPacketDriver.h does on each path.
use lo_la.Prelude.{
  ℕ, ◌≤◌, ◌<◌, Bool, true, false, not, ◌&&◌, ◌||◌, if◌then◌else◌, Option, none, some, List, inl,
  inr, Bool-cases, lt→ltb, ◌∷◌, ◌≡◌, ◌⊎◌, ◌↔◌, refl, sym, arith, ltb,
}
use lo_la.Packet.Definition.{PacketDefinition, get_total_size-eq}
use lo_la.Packet.Buffer.{Packet, get_data_header}
use lo_la.Crypto.Library.{CryptoLibrary}
use lo_la.Driver.State.{
  Driver, emit, add_async_action, ActiveState, ready_for_anything, sending_ack, sending_outgoing,
  waiting_for_transmission_end, async_restore, append_action, Effect,
}
use lo_la.Driver.Send.{send_packet, can_send, on_transmitted, transmit_from, send_defined}
use lo_la.Driver.Power.{on_transmit_power_updated}

-- The three outcomes of a send from `d`. Sent: the driver waits for the end of the transmission
-- and has stamped the time and the header. Refused before it began: nothing changed. Given up:
-- the driver stands in SendingOutgoing, and the last thing done was to queue a restore.
pub data Outcome (micros header : ℕ) (d : Driver) : Driver × Bool → Type 0 where
  sent :
      {d' : Driver}
      → d'.active_state ≡ waiting_for_transmission_end
      → d'.last_sent_micros ≡ micros
      → d'.last_sent_header ≡ header
      → Outcome micros header d (d', true)
  refused : Outcome micros header d (d, false)
  given_up :
      {d' : Driver} (es : List Effect)
      → d'.active_state ≡ sending_outgoing
      → d'.effects ≡ append_action async_restore true ∷ es
      → Outcome micros header d (d', false)

power_updated_keeps :
    (d : Driver)
    → let d' = on_transmit_power_updated d in
      (d'.last_sent_micros ≡ d.last_sent_micros) × (d'.last_sent_header ≡ d.last_sent_header)
unfolding on_transmit_power_updated
power_updated_keeps d = ground arith

module _ (lib : CryptoLibrary) (micros : ℕ) where
  transmit_from-Outcome :
      (header : ℕ) (d0 d : Driver) (transmit_ok : Bool)
      → d.active_state ≡ sending_outgoing
      → Outcome micros header d0 (transmit_from micros transmit_ok header d)
  unfolding transmit_from on_transmitted add_async_action emit
  transmit_from-Outcome header d0 d true a = elim (Bool-cases (ltb 0 d.outgoing_packet_size)) [
    | inl e ↦ rw e (sent refl (power_updated_keeps _).0 (power_updated_keeps _).1)
    | inr e ↦ rw e (given_up d.effects a refl)
  ]
  transmit_from-Outcome header d0 d false a = elim (Bool-cases (ltb 0 d.outgoing_packet_size)) [
    | inl e ↦ rw e (given_up _ a refl)
    | inr e ↦ rw e (given_up d.effects a refl)
  ]

  send_defined-Outcome :
      (transmit_ok : Bool) (packet : Packet) (o : Option PacketDefinition) (d : Driver)
      → Outcome micros (get_data_header packet) d (send_defined lib micros transmit_ok packet o d)
  unfolding send_defined
  send_defined-Outcome transmit_ok packet none d = refused
  send_defined-Outcome transmit_ok packet (some definition) d =
      elim (Bool-cases (d.channel_pending || not (can_send d.active_state))) [
        | inl e ↦ rw e refused
        | inr e ↦ rw e (transmit_from-Outcome (get_data_header packet) d _ transmit_ok refl)
      ]

  -- Every send ends in one of the outcomes, from every state of the driver and whatever the
  -- radio answers: none leaves the driver in SendingOutgoing without a restore queued.
  pub send_packet-Outcome :
      (transmit_ok : Bool) (packet : Packet) (d : Driver)
      → Outcome micros (get_data_header packet) d (send_packet lib micros transmit_ok packet d)
  unfolding send_packet
  send_packet-Outcome transmit_ok packet d =
      send_defined-Outcome transmit_ok packet packet.definition d

  transmit_from-result :
      (header : ℕ) (d : Driver) (transmit_ok : Bool)
      → 0 < d.outgoing_packet_size
      → (transmit_from micros transmit_ok header d).1 ≡ transmit_ok
  unfolding transmit_from on_transmitted add_async_action emit
  transmit_from-result header d true h = rw (lt→ltb 0 _ h) refl
  transmit_from-result header d false h = rw (lt→ltb 0 _ h) refl

  send_defined-result :
      (transmit_ok : Bool) (packet : Packet) (o : Option PacketDefinition)
      (definition : PacketDefinition) (d : Driver)
      → o ≡ some definition
      → definition.payload_size ≤ 22
      → (send_defined lib micros transmit_ok packet o d).1
        ≡ (not d.channel_pending && can_send d.active_state && transmit_ok)
  unfolding send_defined
  send_defined-result transmit_ok packet none definition d e h = cc
  send_defined-result transmit_ok packet (some def') definition d e h =
      gate d.channel_pending (can_send d.active_state) transmit_ok _ (
        transmit_from-result (get_data_header packet) _ transmit_ok
          (rw (get_total_size-eq def' (ground arith)) (omega arith)))
    where
      gate :
          (p c t : Bool) (x : Driver × Bool)
          → x.1 ≡ t
          → (if p || not c then (d, false) else x).1 ≡ (not p && c && t)
      gate p c t x r = ground arith

  ready_to_send :
      (state : ActiveState)
      → (can_send state ≡ true) ↔ ((state ≡ ready_for_anything) ⊎ (state ≡ sending_ack))
  ready_to_send state = ground arith

  -- A packet with a definition of legal size is sent exactly if the driver is ready or is sending
  -- an acknowledgement, has no channel change pending, and the radio takes the bytes.
  pub send_packet_iff :
      (transmit_ok : Bool) (packet : Packet) (definition : PacketDefinition) (d : Driver)
      → packet.definition ≡ some definition
      → definition.payload_size ≤ 22
      → ((send_packet lib micros transmit_ok packet d).1 ≡ true) ↔ (
          ((d.active_state ≡ ready_for_anything) ⊎ (d.active_state ≡ sending_ack))
          × (d.channel_pending ≡ false)
          × (transmit_ok ≡ true))
  unfolding send_packet
  send_packet_iff transmit_ok packet definition d e h =
      let result = send_defined-result transmit_ok packet packet.definition definition d e h in
      rw result (
        gated d.channel_pending (can_send d.active_state) transmit_ok
          (ready_to_send d.active_state))
    where
      gated :
          {A : Type 0} (p c t : Bool)
          → (c ≡ true) ↔ A
          → ((not p && c && t) ≡ true) ↔ (A × (p ≡ false) × (t ≡ true))
      gated false true true (f, g) = (λ h. (f refl, refl, refl), λ r. refl)
      gated false true false (f, g) = (λ h. cc, λ (a, q, r). r)
      gated false false t (f, g) = (λ h. cc, λ (a, q, r). g a)
      gated true c t (f, g) = (λ h. cc, λ (a, q, r). sym q)
