-- ===== src/Driver/Receive/Rejection.antt =====
-- The packets that ProcessIncoming of src/PacketDriver/LoLaPacketDriver.h refuses.
use lo_la.Prelude.{
  ℕ, not, if◌then◌else◌, Option, none, some, List, ◌≡◌, ◌∙◌, inl, inr, Bool-cases, refl,
}
use lo_la.Packet.Definition.{PacketDefinition}
use lo_la.Packet.Buffer.{get_data_header}
use lo_la.Packet.Map.{get_definition}
use lo_la.Crypto.Library.{CryptoLibrary}
use lo_la.Driver.State.{Driver, ready_for_anything, processing_incoming, emit}
use lo_la.Driver.Power.{restore_to_receiving}
use lo_la.Driver.Receive.{
  Node, Handlers, Env, process_incoming, look_up_incoming, finish, read_received, decode_incoming,
  is_awaiting, is_bad_size,
}

-- The definition under which a packet is accepted: one was announced, its size is legal, its CRC
-- is right, and its header is known.
abbrev pub accepted : CryptoLibrary → Env → Driver → Option PacketDefinition
accepted lib env d =
    let read = read_received env.received (record d { active_state = processing_incoming }) in
    let decoded = decode_incoming lib read in
    if not (is_awaiting d.active_state)
    then none
    else if is_bad_size read
    then none
    else if decoded.1
    then get_definition (get_data_header decoded.0.incoming_packet) decoded.0.packet_map
    else none

-- The driver listens and has the statistics of `d`.
abbrev pub IsUntouched : (d d' : Driver) → Type 0
IsUntouched d d' =
    (d'.active_state ≡ ready_for_anything)
    × (d'.received_count ≡ d.received_count)
    × (d'.last_valid_received ≡ d.last_valid_received)
    × (d'.timing_collision_count ≡ d.timing_collision_count)

finish-IsUntouched :
    (d d' : Driver)
    → d'.received_count ≡ d.received_count
    → d'.last_valid_received ≡ d.last_valid_received
    → d'.timing_collision_count ≡ d.timing_collision_count
    → IsUntouched d (finish d')
unfolding finish restore_to_receiving emit
finish-IsUntouched d d' a b c = (refl, a, b, c)

decode_incoming_keeps :
    (lib : CryptoLibrary) (d : Driver)
    → let d' = (decode_incoming lib d).0 in
      (d'.received_count ≡ d.received_count)
      × (d'.last_valid_received ≡ d.last_valid_received)
      × (d'.timing_collision_count ≡ d.timing_collision_count)
unfolding decode_incoming
decode_incoming_keeps lib d = (refl, refl, refl)

read_received_keeps :
    (bytes : List ℕ) (d : Driver)
    → let d' = read_received bytes d in
      (d'.received_count ≡ d.received_count)
      × (d'.last_valid_received ≡ d.last_valid_received)
      × (d'.timing_collision_count ≡ d.timing_collision_count)
unfolding read_received emit
read_received_keeps bytes d = (refl, refl, refl)

module _ {S : Type 0} (handlers : Handlers S) (lib : CryptoLibrary) (env : Env) where
  look_up_none :
      (o : Option PacketDefinition) (n : Node S)
      → o ≡ none
      → let n' = look_up_incoming handlers lib env o n in
        (n'.services ≡ n.services) × IsUntouched n.driver n'.driver
  unfolding look_up_incoming
  look_up_none none n e = (refl, finish-IsUntouched n.driver _ refl refl refl)
  look_up_none (some d) n e = cc

  -- A packet that is not accepted is shown to no service, it changes neither the count of
  -- received packets nor the last valid reception nor the count of collisions, and the driver
  -- listens again.
  pub unaccepted_is_dropped :
      (n : Node S)
      → accepted lib env n.driver ≡ none
      → let n' = process_incoming handlers lib env n in
        (n'.services ≡ n.services) × IsUntouched n.driver n'.driver
  unfolding process_incoming
  unaccepted_is_dropped n h = elim (Bool-cases (is_awaiting n.driver.active_state)) [
    | inl e ↦ rw e (elim (Bool-cases (is_bad_size read)) [
      | inl b ↦ rw b (refl, finish-IsUntouched n.driver _ k.0 k.1 k.2)
      | inr b ↦ elim (Bool-cases (decode_incoming lib read).1) [
        | inl ok ↦
            rw (b, ok)
              (let r =
                  look_up_none _ (record n { driver = (decode_incoming lib read).0 })
                    (rw (e, b, ok) at h) in
                (r.0, (r.1.0, r.1.1 ∙ j.0 ∙ k.0, r.1.2 ∙ j.1 ∙ k.1, r.1.3 ∙ j.2 ∙ k.2)))
        | inr ok ↦
            rw (b, ok) (refl, finish-IsUntouched n.driver _ (j.0 ∙ k.0) (j.1 ∙ k.1) (j.2 ∙ k.2))
      ]
    ])
    | inr e ↦ rw e (refl, finish-IsUntouched n.driver n.driver refl refl refl)
  ]
    where
      read : Driver
      read = read_received env.received (record (n.driver) { active_state = processing_incoming })

      k :
          (read.received_count ≡ n.driver.received_count)
          × (read.last_valid_received ≡ n.driver.last_valid_received)
          × (read.timing_collision_count ≡ n.driver.timing_collision_count)
      k =
          read_received_keeps env.received
            (record (n.driver) { active_state = processing_incoming })

      decoded : Driver
      decoded = (decode_incoming lib read).0

      j :
          (decoded.received_count ≡ read.received_count)
          × (decoded.last_valid_received ≡ read.last_valid_received)
          × (decoded.timing_collision_count ≡ read.timing_collision_count)
      j = decode_incoming_keeps lib read
