-- ===== src/Driver/Receive/Laws.antt =====
-- What ProcessIncoming of src/PacketDriver/LoLaPacketDriver.h does, whatever the services do.
use lo_la.Prelude.{
  ℕ, Bool, true, false, if◌then◌else◌, Option, none, some, List, ◌∷◌, ◌≡◌, ◌⊎◌, inl, inr,
  Bool-cases, refl,
}
use lo_la.Packet.Definition.{PacketDefinition, is_ack, has_ack}
use lo_la.Crypto.Library.{CryptoLibrary}
use lo_la.Driver.State.{
  Driver, emit, ready_for_anything, waiting_for_transmission_end, processing_incoming, Effect,
  irq_on, radio_receive,
}
use lo_la.Driver.Power.{restore_to_receiving}
use lo_la.Driver.Send.Laws.{Outcome, sent, refused, given_up, send_packet-Outcome}
use lo_la.Driver.Receive.{
  Node, Handlers, Env, process_incoming, answer_acked, prepare_ack, dispatch_received,
  look_up_incoming, finish, read_received, decode_incoming, is_awaiting, is_bad_size,
}

-- The driver listens again, or the acknowledgement is on its way; in both cases the last thing done
-- was to enable interrupts.
abbrev pub IsSettled : Driver → Type 0
IsSettled d =
    (es : List Effect) × (d.effects ≡ irq_on ∷ es)
    × ((d.active_state ≡ ready_for_anything) ⊎ (d.active_state ≡ waiting_for_transmission_end))

finish-IsSettled : (d : Driver) → IsSettled (finish d)
unfolding finish emit restore_to_receiving
finish-IsSettled d = (radio_receive d.current_channel ∷ d.effects, refl, inl refl)

-- The acknowledgement was sent, or it was not and the driver listens.
after_ack-IsSettled :
    {micros header : ℕ} {d : Driver} {r : Driver × Bool}
    → Outcome micros header d r
    → IsSettled (if r.1 then emit irq_on r.0 else finish r.0)
unfolding emit
after_ack-IsSettled (sent a _ _) = (_, refl, inr a)
after_ack-IsSettled refused = finish-IsSettled _
after_ack-IsSettled (given_up _ _ _) = finish-IsSettled _

module _ {S : Type 0} (handlers : Handlers S) (lib : CryptoLibrary) (env : Env) where
  answer_acked-IsSettled : (r : Node S × Bool) → IsSettled (answer_acked handlers lib env r).driver
  unfolding answer_acked
  answer_acked-IsSettled (n, false) = finish-IsSettled n.driver
  answer_acked-IsSettled (n, true) =
      let ready = prepare_ack n.driver in
      after_ack-IsSettled
        (send_packet-Outcome lib env.micros env.transmit_ok ready.ack_packet ready)

  dispatch_received-IsSettled :
      (definition : PacketDefinition) (n : Node S)
      → IsSettled (dispatch_received handlers lib env definition n).driver
  unfolding dispatch_received
  dispatch_received-IsSettled definition n = elim (Bool-cases (is_ack definition)) [
    | inl e ↦ rw e (finish-IsSettled _)
    | inr e ↦ elim (Bool-cases (has_ack definition)) [
      | inl h ↦ rw (e, h) (answer_acked-IsSettled _)
      | inr h ↦ rw (e, h) (finish-IsSettled _)
    ]
  ]

  look_up_incoming-IsSettled :
      (found : Option PacketDefinition) (n : Node S)
      → IsSettled (look_up_incoming handlers lib env found n).driver
  unfolding look_up_incoming
  look_up_incoming-IsSettled none n = finish-IsSettled _
  look_up_incoming-IsSettled (some definition) n = dispatch_received-IsSettled definition _

  -- Processing an incoming packet ends with interrupts enabled last and with a driver that
  -- listens, or that waits for its acknowledgement to be transmitted, on every path: from any
  -- state, for any bytes, and whatever the services do to the driver meanwhile.
  pub process_incoming-IsSettled :
      (n : Node S) → IsSettled (process_incoming handlers lib env n).driver
  unfolding process_incoming
  process_incoming-IsSettled n = elim (Bool-cases (is_awaiting n.driver.active_state)) [
    | inl e ↦ rw e (elim (Bool-cases (is_bad_size read)) [
      | inl b ↦ rw b (finish-IsSettled _)
      | inr b ↦ elim (Bool-cases (decode_incoming lib read).1) [
        | inl ok ↦ rw (b, ok) (look_up_incoming-IsSettled _ _)
        | inr ok ↦ rw (b, ok) (finish-IsSettled _)
      ]
    ])
    | inr e ↦ rw e (finish-IsSettled _)
  ]
    where
      read : Driver
      read = read_received env.received (record (n.driver) { active_state = processing_incoming })
