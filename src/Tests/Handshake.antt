-- ===== src/Tests/Handshake.antt =====
-- The theorems on host and remote of src/Services/Link at concrete values.
use lo_la.Prelude.{
  ◌+◌, u32, ℕ, true, false, some, List, [], ◌∷◌, ◌≡◌, refl, replicate, sub32, ◌==◌, if◌then◌else◌,
  arith,
}
use lo_la.Packet.Buffer.{
  Packet, template_packet, get_payload, set_payload, set_definition, set_id, get_data_header,
}
use lo_la.Crypto.KeyExchange.{new_exchanger, generate_new_key_pair, get_public_key_compressed}
use lo_la.Driver.Clock.{get_sync_micros, get_base_rtc, get_sync_micros_of}
use lo_la.Link.Info.{LinkState, awaiting_link, linking, has_session_id, has_session}
use lo_la.Link.Transaction.{requested, is_requested, is_fresh}
use lo_la.Link.Service.{Link}
use lo_la.Link.Service.Session.{set_linking_state}
use lo_la.Link.Service.Process.{PacketHandlers, no_handlers, process_with}
use lo_la.Link.Service.Builders.{
  host_id_broadcast, remote_pkc_start_request, ntp_request, ntp_reply, ntp_tune_request,
  ntp_tune_reply, prepare_word_packet, prepare_short_packet, get_word,
}
use lo_la.Link.Host.{Host}
use lo_la.Link.Host.Awaiting.{
  prepare_crypto_start_request, expects, on_processing_pkc, on_remote_public_key_received,
}
use lo_la.Link.Host.Linking.{on_clock_sync, on_clock_sync_request_received}
use lo_la.Link.Remote.{RemoteLink, remote_on_pre_send}
use lo_la.Link.Remote.Awaiting.{on_processing_shared_key, on_host_public_key_received}
use lo_la.Link.Remote.Linking.{
  on_acked_packet_received, on_clock_sync_response_received, take_estimate,
}
use lo_la.Link.Handshake.Packets.{word_packet_is_dispatched}
use lo_la.Link.Handshake.Keys.{crypto_start_iff}
use lo_la.Link.Handshake.Clocks.{clock_sync_round}
use lo_la.Link.Handshake.Agreement.{Accepts, Agree, encoder_of, handshake_agrees}
use lo_la.Tests.Values.{sum, toy, toy-IsLawful, toy-HashIsLawful, curve, curve-IsLawful}
use lo_la.Tests.LinkValues.{platform_of, at, new_host, new_remote}

-- Methods that note what they were given.
abbrev noting : PacketHandlers (List ℕ)
noting = record no_handlers {
  on_id_broadcast_received = λ id word s. id ∷ word ∷ s;
  on_clock_sync_response_received = λ id word s. id ∷ word ∷ 1 ∷ s;
}

word_packet_is_dispatched_example :
    let read = λ (sub_header : ℕ).
      process_with noting
        (λ r a b s. s)
        (prepare_word_packet 9 sub_header 70000 (template_packet 26))
        [] in
    (read host_id_broadcast ≡ (9 ∷ 70000 ∷ [], true))
    × (read remote_pkc_start_request ≡ ([], true))
    × (read ntp_request ≡ ([], true))
    × (read ntp_reply ≡ (9 ∷ 70000 ∷ 1 ∷ [], true))
    × (read ntp_tune_request ≡ ([], true))
    × (read ntp_tune_reply ≡ ([], true))
unfolding template_packet
word_packet_is_dispatched_example =
    word_packet_is_dispatched noting (λ r a b s. s) 9 70000 (template_packet 26) [] (omega arith)
      (omega arith)

-- A link in a state, a stage and the session 9 with the partner `id`.
abbrev in_stage : {P : Type 0} → LinkState → (stage id : ℕ) → Link (List ℕ) ℕ P → Link (List ℕ) ℕ P
in_stage state stage id s = record s {
  client = record (s.client) {
    linking_state = stage;
    info = record (s.client.info) { link_state = state; session_id = 9; partner_id = id };
  };
}

abbrev starting : RemoteLink (List ℕ) ℕ
starting = in_stage awaiting_link 4 77 new_remote

starting-has_session_id : has_session_id starting.client.info ≡ true
unfolding has_session_id
starting-has_session_id = refl

crypto_start_iff_example :
    on_acked_packet_received
      (platform_of 88)
      (at 1000)
      (prepare_crypto_start_request toy starting.client.node.driver.encoder 9 88
        (template_packet 26))
      starting
    ≡ (if 88 == 88 then (set_linking_state 5 starting, true) else (starting, false))
unfolding template_packet
crypto_start_iff_example =
    crypto_start_iff (platform_of 88) (at 1000) toy-IsLawful starting.client.node.driver.encoder 88
      (template_packet 26) starting refl refl refl (omega arith) (omega arith) refl refl
      starting-has_session_id

abbrev clock_request : Packet
clock_request = prepare_short_packet 33 ntp_request (template_packet 26)

abbrev asking : RemoteLink (List ℕ) ℕ
asking =
    let s = in_stage linking 1 77 new_remote in
    record s {
      packet = clock_request;
      client = record (s.client) {
        part = record {
          request = record { stage = requested; id = 33; last_requested = 950; result = 0 };
        };
        node = record (s.client.node) { driver = record (s.client.node.driver) { ettm = 900 } };
      };
    }

abbrev answering : Host (List ℕ) ℕ
answering = in_stage linking 1 88 new_host

asking-header : get_data_header asking.packet ≡ 2
unfolding prepare_short_packet get_data_header set_payload set_id set_definition template_packet
asking-header = refl

asking-sub_header : get_payload 0 asking.packet ≡ ntp_request
unfolding prepare_short_packet get_payload set_payload set_id set_definition template_packet
asking-sub_header = refl

asking-is_requested : is_requested asking.client.part.request ≡ true
unfolding is_requested
asking-is_requested = refl

asking-is_fresh : is_fresh 1000 200 asking.client.part.request ≡ true
unfolding is_fresh
asking-is_fresh = refl

clock_sync_round_example :
    let sent = remote_on_pre_send (at 1000) asking in
    let kept =
      on_clock_sync_request_received
        (platform_of 77)
        (at 1000)
        33
        (get_word 1 sent.packet)
        answering in
    let answer = (on_clock_sync (platform_of 77) (at 1000) kept).packet in
    let told =
      on_clock_sync_response_received (platform_of 88) (at 1000) 33 (get_word 1 answer) sent in
    let host = answering.client.node.driver in
    let shows =
      get_sync_micros 1000
        (take_estimate (platform_of 88) (at 1000) told).client.node.driver.clock in
    (get_payload 0 answer ≡ ntp_reply)
    × (shows ≡ sub32 (get_sync_micros_of host.last_valid_received.micros host.clock) 900)
    × (get_sync_micros host.last_valid_received.micros host.clock
        ≡ u32 (shows + 900 + sub32 (get_base_rtc host.clock) host.clock.last_tick))
unfolding prepare_short_packet set_payload set_id set_definition template_packet
clock_sync_round_example =
    clock_sync_round (platform_of 77) (platform_of 88) (at 1000) (at 1000) (at 1000) 33 asking
      answering asking-header asking-sub_header (omega arith) (omega arith) refl refl refl refl
      asking-is_requested refl asking-is_fresh (omega arith) (omega arith)

abbrev with_keys : {P : Type 0} → ℕ → Link (List ℕ) ℕ P → Link (List ℕ) ℕ P
with_keys n s = record s {
  client = record (s.client) {
    exchanger =
        (generate_new_key_pair curve (some (replicate 21 n, replicate 21 n)) new_exchanger).0;
  };
}

abbrev keyed_host : Host (List ℕ) ℕ
keyed_host = with_keys 5 (in_stage awaiting_link 2 88 new_host)

abbrev keyed_remote : RemoteLink (List ℕ) ℕ
keyed_remote = with_keys 3 (in_stage awaiting_link 2 77 new_remote)

toy-Accepts : Accepts toy
toy-Accepts = record { takes_key = λ key. refl; takes_iv = λ iv. refl }

host_expects : expects 2 9 keyed_host ≡ true
unfolding expects has_session_id
host_expects = refl

handshake_agrees_example :
    (host_key : List ℕ) × (remote_key : List ℕ) × (get_public_key_compressed
        keyed_host.client.exchanger
      ≡ some host_key)
    × (get_public_key_compressed keyed_remote.client.exchanger ≡ some remote_key)
    × (let h' =
          on_processing_pkc
            (platform_of 77)
            (at 1000)
            (on_remote_public_key_received 9 remote_key keyed_host) in
        let r' =
          on_processing_shared_key
            (platform_of 88)
            (at 1000)
            (on_host_public_key_received 9 host_key keyed_remote) in
        (h'.client.linking_state ≡ 4)
        × (r'.client.linking_state ≡ 4)
        × Agree (encoder_of h') (encoder_of r'))
unfolding has_session sum
handshake_agrees_example =
    handshake_agrees (platform_of 77) (at 1000) (at 1000) 88 toy-Accepts toy-HashIsLawful
      curve-IsLawful (replicate 21 5) (replicate 21 5) (replicate 21 3) (replicate 21 3)
      new_exchanger new_exchanger 9 keyed_host keyed_remote refl refl refl refl host_expects refl
      refl refl
