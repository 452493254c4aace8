-- ===== src/Driver/Receive/RoundTrip.antt =====
-- From SendPacket of one driver to the services of another
-- (src/PacketDriver/LoLaPacketDriver.h).
mod Decoding
use lo_la.Prelude.{
  ℕ, zero, suc, ◌+◌, ◌≤◌, ◌<◌, Bool, true, false, Option, none, some, List, [], ◌∷◌, ◌≡◌, refl, sym,
  ap, subst, ◌∙◌, arith, take, drop, length, overwrite, get_or, set, Bool-cases, inl, inr,
  get_or-take, set-get_or, length-overwrite, lt→ltb, ltb, if◌then◌else◌,
}
use lo_la.Packet.Definition.{
  PacketDefinition, is_ack, has_ack, get_total_size, get_content_size, get_total_size-eq,
  get_content_size-eq,
}
use lo_la.Packet.Buffer.{Packet, get_data_header, get_raw_content, set_definition}
use lo_la.Packet.Map.{get_definition}
use lo_la.Crypto.Library.{CryptoLibrary, IsLawful}
use lo_la.Crypto.Encoder.{Encoder, encode}
use lo_la.Crypto.Encoder.Laws.{length-encode}
use lo_la.Driver.State.{
  Driver, Effect, awaiting_processing, processing_incoming, radio_transmit, emit,
}
use lo_la.Driver.Send.{send_packet, write_raw_content, load_outgoing}
use lo_la.Driver.Receive.{
  Node, Handlers, Env, process_incoming, dispatch_received, answer_acked, look_up_incoming,
  commit_received, count_collision, read_received, decode_incoming, is_bad_size, is_awaiting,
}
use lo_la.Driver.Send.Wire.{content, frame, on_air, length-content, on_air-send_packet}
use Decoding.{decode_incoming-frame, content_of_written}

-- A packet that was given its definition: its buffer has room and carries the header.
pub record IsSendable (p : Packet) (definition : PacketDefinition) : Type 0 where
  pub defined : p.definition ≡ some definition
  pub small : definition.payload_size ≤ 22
  pub room : definition.payload_size + 4 ≤ length p.raw
  pub headed : get_data_header p ≡ definition.header

-- A receiver that was told of a packet of this definition, knows it, and shares the sender's keys.
pub record IsReceiving (sender receiver : Driver) (definition : PacketDefinition) : Type 0 where
  pub out_room : length sender.outgoing_packet.raw ≡ 26
  pub in_room : length receiver.incoming_packet.raw ≡ 26
  pub awaiting : receiver.active_state ≡ awaiting_processing
  pub sized : receiver.incoming_packet_size ≡ get_total_size definition
  pub known : get_definition definition.header receiver.packet_map ≡ some definition
  pub same_stage : sender.encoder.encoder_state ≡ receiver.encoder.encoder_state
  pub same_key : sender.encoder.key_holder ≡ receiver.encoder.key_holder
  pub same_iv : sender.encoder.iv_holder ≡ receiver.encoder.iv_holder
  pub same_token : sender.encoder.token_holder ≡ receiver.encoder.token_holder

header_of_content :
    (p : Packet) (n : ℕ) → 0 < n → get_or (take n (get_raw_content p)) 0 0 ≡ get_data_header p
unfolding get_raw_content get_data_header
header_of_content p n h = get_or-take n (drop 2 p.raw) 0 0 h ∙ at_two p.raw
  where
    at_two : (xs : List ℕ) → get_or (drop 2 xs) 0 0 ≡ get_or xs 2 0
    at_two [] = refl
    at_two (x ∷ []) = refl
    at_two (x ∷ y ∷ []) = refl
    at_two (x ∷ y ∷ z ∷ xs) = refl

-- Giving a packet the definition of the header that it carries leaves its bytes.
raw-set_definition :
    (definition : PacketDefinition) (p : Packet)
    → 2 < length p.raw
    → get_data_header p ≡ definition.header
    → (set_definition (some definition) p).0.raw ≡ p.raw
unfolding set_definition get_data_header
raw-set_definition definition p h e = set-get_or p.raw 2 definition.header 0 h e

commit_received_keeps :
    (env : Env) (d : Driver) → (commit_received env d).incoming_packet ≡ d.incoming_packet
unfolding commit_received count_collision
commit_received_keeps env d = ground arith

abbrev after_read : Env → Driver → Driver
after_read env d = read_received env.received (record d { active_state = processing_incoming })

-- The driver after `Decode` put `message` in the place of the content.
abbrev after_decode : Env → List ℕ → Driver → Driver
after_decode env message d = record (after_read env d) {
  incoming_packet = write_raw_content message (after_read env d).incoming_packet;
}

module _ (lib : CryptoLibrary) (lawful : IsLawful lib) (sender receiver : Driver) (p : Packet)
    (definition : PacketDefinition) (env : Env) (s : IsSendable p definition)
    (r : IsReceiving sender receiver definition)
    (e : env.received ≡ frame lib sender.encoder (content definition p)) where
  message_length : length (content definition p) ≡ definition.payload_size + 2
  message_length = length-content definition p s.small s.room

  good_size : is_bad_size (after_read env receiver) ≡ false
  unfolding read_received emit
  good_size = ground (arith, r.sized, get_total_size-eq definition s.small, s.small)

  decodes :
      decode_incoming lib (after_read env receiver)
      ≡ (after_decode env (content definition p) receiver, true)
  unfolding read_received emit
  decodes =
      decode_incoming-frame lib lawful sender.encoder (content definition p)
        receiver.incoming_packet.raw definition (after_read env receiver) s.small
        (message_length ∙ sym (get_content_size-eq definition s.small))
        (omega (arith, message_length, r.in_room, s.small))
        (ap (λ bytes. overwrite bytes receiver.incoming_packet.raw) e) r.sized r.same_stage
        r.same_key r.same_iv r.same_token

  written :
      (content definition (after_decode env (content definition p) receiver).incoming_packet
        ≡ content definition p)
      × (length (after_decode env (content definition p) receiver).incoming_packet.raw ≡ 26)
  unfolding read_received emit
  written =
      let parts =
        content_of_written (encode lib sender.encoder (content definition p)).1
          (encode lib sender.encoder (content definition p)).0 (content definition p)
          receiver.incoming_packet.raw receiver.incoming_packet.definition
          (get_content_size definition) (omega (arith, out_length, r.in_room, s.small))
          (message_length ∙ sym out_length)
          (get_content_size-eq definition s.small ∙ sym message_length) in
      subst
        (λ bytes.
          let q : Packet = write_raw_content (content definition p) (record {
            definition = receiver.incoming_packet.definition;
            raw = overwrite bytes receiver.incoming_packet.raw;
          }) in
          (content definition q ≡ content definition p) × (length q.raw ≡ 26))
        (sym e) (parts.0, parts.1 ∙ r.in_room)
    where
      out_length :
          length (encode lib sender.encoder (content definition p)).0 ≡ definition.payload_size + 2
      out_length = length-encode lib lawful sender.encoder (content definition p) ∙ message_length

  header_kept :
      get_data_header (after_decode env (content definition p) receiver).incoming_packet
      ≡ definition.header
  header_kept =
      sym (header_of_content _ n positive)
      ∙ ap (λ bytes. get_or bytes 0 0) written.0
      ∙ header_of_content p n positive
      ∙ s.headed
    where
      n : ℕ
      n = get_content_size definition

      positive : 0 < n
      positive = omega (arith, get_content_size-eq definition s.small)

  decoded_known :
      get_definition
        (get_data_header (after_decode env (content definition p) receiver).incoming_packet)
        (after_read env receiver).packet_map
      ≡ some definition
  unfolding read_received emit
  decoded_known = ap (λ h. get_definition h receiver.packet_map) header_kept ∙ r.known

  -- The services are shown the sender's header, id and payload.
  content_delivered :
      let q =
        (set_definition
          (some definition)
          (after_decode env (content definition p) receiver).incoming_packet).0 in
      (q.definition ≡ some definition) × (content definition q ≡ content definition p)
  unfolding set_definition get_raw_content
  content_delivered = (
    refl,
    ap (λ bytes. take (get_content_size definition) (drop 2 bytes))
          (raw-set_definition definition _ (omega (arith, written.1)) header_kept)
        ∙ written.0,
  )

-- The node when the services are called: the packet has its definition and was counted.
abbrev committed : {S : Type 0} → Env → PacketDefinition → List ℕ → Node S → Node S
committed env definition message n =
    let d = after_decode env message n.driver in
    record n {
      driver =
          commit_received env
            (record d { incoming_packet = (set_definition (some definition) d.incoming_packet).0 });
    }

-- The one call that the services get for a packet, and what it leaves of them.
abbrev pub shown : {S : Type 0} → Handlers S → PacketDefinition → Packet → Node S → S
shown handlers definition packet n =
    if is_ack definition
    then (handlers.process_ack packet n).services
    else if has_ack definition
    then (handlers.process_acked_packet packet n).0.services
    else (handlers.process_packet packet n).services

module _ {S : Type 0} (handlers : Handlers S) (lib : CryptoLibrary) (lawful : IsLawful lib) where
  -- The bytes of a frame, received by a partner that shares the keys, reach the dispatch to the
  -- services.
  process_incoming-frame :
      (sender : Driver) (p : Packet) (definition : PacketDefinition) (env : Env) (n : Node S)
      → IsSendable p definition
      → IsReceiving sender n.driver definition
      → env.received ≡ frame lib sender.encoder (content definition p)
      → process_incoming handlers lib env n
        ≡ dispatch_received handlers lib env definition
            (committed env definition (content definition p) n)
  unfolding process_incoming look_up_incoming
  process_incoming-frame sender p definition env n s r e = rw (ap is_awaiting r.awaiting) (
      rw
        (
          good_size lib lawful sender n.driver p definition env s r e,
          decodes lib lawful sender n.driver p definition env s r e,
        )
        (ap
          (λ o.
            look_up_incoming handlers lib env o
              (record n { driver = after_decode env (content definition p) n.driver }))
          (decoded_known lib lawful sender n.driver p definition env s r e)))

  services-dispatch_received :
      (env : Env) (definition : PacketDefinition) (n : Node S)
      → (dispatch_received handlers lib env definition n).services
        ≡ shown handlers definition n.driver.incoming_packet n
  unfolding dispatch_received answer_acked
  services-dispatch_received env definition n = elim (Bool-cases (is_ack definition)) [
    | inl e ↦ rw e refl
    | inr e ↦ elim (Bool-cases (has_ack definition)) [
      | inl a ↦
          rw (e, a)
            (elim (Bool-cases (handlers.process_acked_packet n.driver.incoming_packet n).1) [
              | inl t ↦ rw t refl
              | inr t ↦ rw t refl
            ])
      | inr a ↦ rw (e, a) refl
    ]
  ]

  -- A packet that one driver sent, received by another that awaits a packet of its size, knows
  -- its definition and shares the sender's keys, is shown once to the services of the other, with
  -- the sender's definition, header, id and payload: an acknowledgement as one, a packet that wants
  -- an acknowledgement as such, any other as a plain packet. `n'` is the node as the services are
  -- called: until then nothing touched them, and when the driver is through with the packet they
  -- are as that call left them.
  pub sent_packet_is_dispatched :
      (sender : Driver) (p : Packet) (definition : PacketDefinition) (micros : ℕ)
      (transmit_ok : Bool) (env : Env) (n : Node S)
      → IsSendable p definition
      → IsReceiving sender n.driver definition
      → (send_packet lib micros transmit_ok p sender).1 ≡ true
      → on_air (send_packet lib micros transmit_ok p sender).0.effects ≡ some env.received
      → (n' : Node S) × ((process_incoming handlers lib env n).services
          ≡ shown handlers definition n'.driver.incoming_packet n')
        × (n'.services ≡ n.services)
        × (n'.driver.incoming_packet.definition ≡ some definition)
        × (content definition n'.driver.incoming_packet ≡ content definition p)
  sent_packet_is_dispatched sender p definition micros transmit_ok env n s r ok air =
      let e : env.received ≡ frame lib sender.encoder (content definition p) = some_inj (
        sym air
        ∙ on_air-send_packet lib lawful micros transmit_ok p definition sender s.defined s.small
            r.out_room s.room ok) in
      let kept = commit_received_keeps env _ in
      let (defined, same) = content_delivered lib lawful sender n.driver p definition env s r e in
      (
        committed env definition (content definition p) n,
        ap (λ m. m.services) (process_incoming-frame sender p definition env n s r e)
            ∙ services-dispatch_received env definition
                (committed env definition (content definition p) n),
        refl,
        ap (λ q. q.definition) kept ∙ defined,
        ap (λ q. content definition q) kept ∙ same,
      )
    where
      some_inj : {xs ys : List ℕ} → some xs ≡ some ys → xs ≡ ys
      some_inj q = ground arith
