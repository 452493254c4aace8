-- ===== src/Link/Handshake/Clocks.antt =====
-- One round of clock synchronisation between src/Services/Link/LoLaLinkRemoteService.h and
-- src/Services/Link/LoLaLinkHostService.h, from the remote's OnPreSend to its OnClockSync.
use lo_la.Prelude.{
  ℕ, ◌+◌, ◌≤◌, ◌<◌, ◌≡◌, refl, sym, ◌∙◌, ap, subst, true, Option, some, List, length, arith,
  ==_self, bytes_word-word_bytes, u32, sub32,
}
use lo_la.Packet.Definition.{header_short}
use lo_la.Packet.Buffer.{Packet, get_data_header, get_payload, set_payload}
use lo_la.Driver.Clock.{
  Clock, get_sync_micros, get_sync_micros_of, get_currents_micros, get_base_rtc, add_offset_micros,
}
use lo_la.Services.Task.{run_asap}
use lo_la.Services.Send.{schedule, request_send_packet}
use lo_la.Link.Transaction.{result_in, is_requested, is_fresh, set_response, is_result_waiting}
use lo_la.Link.ClockSync.{ClockSyncer, add_offset, stamp_sync_good}
use lo_la.Link.ClockSync.Remote.{on_estimation_error_received}
use lo_la.Link.Service.{Platform, Moment, Link, is_linking, send_prepared, request_send}
use lo_la.Link.Service.Builders.{ntp_request, ntp_reply, get_word, s_array_to_payload}
use lo_la.Link.Service.Runtime.{max_before_linking_cancel}
use lo_la.Link.Host.{Host}
use lo_la.Link.Host.Linking.{
  on_clock_sync_request_received, keep_estimate, on_estimate_kept, on_clock_sync, answer_clock_sync,
  estimation_error,
}
use lo_la.Link.Remote.{RemoteLink, on_request, remote_on_pre_send}
use lo_la.Link.Remote.Linking.{on_clock_sync_response_received, take_estimate}
use lo_la.Link.Handshake.{expose, expose-eq}
use lo_la.Link.Handshake.Packets.{HoldsWord, prepare_word_packet_lem}

exposed_word :
    (word : ℕ) (o : Option _) (xs : List ℕ)
    → word < 4294967296
    → get_word 1 (s_array_to_payload word (record { definition = o; raw = expose 9 xs })) ≡ word
unfolding s_array_to_payload get_word get_payload set_payload
exposed_word word o xs h = bytes_word-word_bytes word h

get_word-s_array_to_payload :
    (word : ℕ) (p : Packet)
    → 9 ≤ length p.raw
    → word < 4294967296
    → get_word 1 (s_array_to_payload word p) ≡ word
get_word-s_array_to_payload word p l h =
    subst
      (λ xs.
        get_word 1 (s_array_to_payload word (record { definition = p.definition; raw = xs }))
        ≡ word)
      (expose-eq 9 p.raw l) (exposed_word word p.definition p.raw h)

offset_lands :
    (micros host_time ettm : ℕ) (clock : Clock)
    → host_time < 4294967296
    → ettm < 4294967296
    → get_sync_micros micros
        (add_offset_micros (sub32 host_time (u32 (get_sync_micros micros clock + ettm))) clock)
      ≡ sub32 host_time ettm
unfolding get_sync_micros get_currents_micros get_base_rtc add_offset_micros
offset_lands micros host_time ettm clock h l = omega (arith, h, l)

-- The clock against the overload for a time stamp.
host_ahead :
    (micros shows ettm : ℕ) (clock : Clock)
    → shows ≡ sub32 (get_sync_micros_of micros clock) ettm
    → ettm < 4294967296
    → clock.last_tick < 4294967296
    → get_sync_micros micros clock ≡ u32 (shows + ettm + sub32 (get_base_rtc clock) clock.last_tick)
unfolding get_sync_micros get_sync_micros_of get_currents_micros
host_ahead micros shows ettm clock h l t = omega (arith, h, l, t)

synced_estimate :
    (error : ℕ) (clock : Clock) (s : ClockSyncer)
    → s.synced_clock ≡ some clock
    → (on_estimation_error_received error s).synced_clock ≡ some (add_offset_micros error clock)
unfolding on_estimation_error_received add_offset stamp_sync_good
synced_estimate error clock s e = ground (arith, e)

module _ {B S : Type 0} where
  sent_word :
      (m : Moment) (r : RemoteLink B S)
      → get_data_header r.packet ≡ header_short
      → get_payload 0 r.packet ≡ ntp_request
      → 9 ≤ length r.packet.raw
      → let d = r.client.node.driver in
        (get_word 1 (remote_on_pre_send m r).packet
          ≡ u32 (get_sync_micros m.micros d.clock + d.ettm))
        × ((remote_on_pre_send m r).client ≡ r.client)
  unfolding remote_on_pre_send
  sent_word m r h b l =
      let d = r.client.node.driver in
      rw (h, b)
        (
          get_word-s_array_to_payload (u32 (get_sync_micros m.micros d.clock + d.ettm)) r.packet l
              (omega arith),
          refl,
        )

  packet-send_prepared :
      {P : Type 0} (millis : ℕ) (prepare : Packet → Packet) (s : Link B S P)
      → (send_prepared millis prepare s).packet ≡ prepare s.packet
  unfolding send_prepared request_send request_send_packet schedule
  packet-send_prepared millis prepare s = ground arith

  answered_word :
      (p : Platform B S) (m : Moment) (id word : ℕ) (h : Host B S)
      → is_linking h.client.info.link_state ≡ true
      → h.client.linking_state ≡ 1
      → 9 ≤ length h.packet.raw
      → HoldsWord id ntp_reply
          (estimation_error p m word h)
          (on_clock_sync p m (on_clock_sync_request_received p m id word h)).packet
  unfolding on_clock_sync on_clock_sync_request_received keep_estimate on_estimate_kept
      answer_clock_sync set_response schedule
  answered_word p m id word h a e l =
      rw (a, e, packet-send_prepared m.millis)
        (prepare_word_packet_lem id ntp_reply (estimation_error p m word h) h.packet l
          (omega arith))

  estimate_clock :
      (p : Platform B S) (m : Moment) (r : RemoteLink B S)
      → is_result_waiting r.client.part.request ≡ true
      → (take_estimate p m r).client.node.driver.clock
        ≡ add_offset_micros r.client.part.request.result r.client.node.driver.clock
  unfolding take_estimate schedule
  estimate_clock p m r e = rw e (
      rw
        (synced_estimate r.client.part.request.result r.client.node.driver.clock
          (record (r.client.syncer) { synced_clock = some r.client.node.driver.clock }) refl)
        refl)

  told_clock :
      (p : Platform B S) (m : Moment) (id error : ℕ) (r : RemoteLink B S)
      → is_linking r.client.info.link_state ≡ true
      → r.client.linking_state ≡ 1
      → is_requested r.client.part.request ≡ true
      → r.client.part.request.id ≡ id
      → is_fresh m.millis max_before_linking_cancel r.client.part.request ≡ true
      → on_clock_sync_response_received p m id error r
        ≡ schedule run_asap (on_request (λ t. record t { result = error; stage = result_in }) r)
  unfolding on_clock_sync_response_received
  told_clock p m id error r a e q i f = rw (a, e, q, f, i, ==_self id) refl

  told_estimate :
      (p : Platform B S) (m : Moment) (id error : ℕ) (r : RemoteLink B S)
      → is_linking r.client.info.link_state ≡ true
      → r.client.linking_state ≡ 1
      → is_requested r.client.part.request ≡ true
      → r.client.part.request.id ≡ id
      → is_fresh m.millis max_before_linking_cancel r.client.part.request ≡ true
      → (take_estimate p m
          (on_clock_sync_response_received p m id error r)).client.node.driver.clock
        ≡ add_offset_micros error r.client.node.driver.clock
  unfolding schedule is_result_waiting
  told_estimate p m id error r a e q i f =
      ap (λ s. (take_estimate p m s).client.node.driver.clock) (told_clock p m id error r a e q i f)
      ∙ estimate_clock p m
          (schedule run_asap (on_request (λ t. record t { result = error; stage = result_in }) r))
          refl

  -- The same for a service that has only changed its packet since.
  told_later :
      (p : Platform B S) (m : Moment) (id error : ℕ) (s r : RemoteLink B S)
      → s.client ≡ r.client
      → is_linking r.client.info.link_state ≡ true
      → r.client.linking_state ≡ 1
      → is_requested r.client.part.request ≡ true
      → r.client.part.request.id ≡ id
      → is_fresh m.millis max_before_linking_cancel r.client.part.request ≡ true
      → (take_estimate p m
          (on_clock_sync_response_received p m id error s)).client.node.driver.clock
        ≡ add_offset_micros error r.client.node.driver.clock
  told_later p m id error s r c a e q i f =
      subst
        (λ c.
          (take_estimate p m (
            on_clock_sync_response_received p m id error
              (record s { client = c }))).client.node.driver.clock
          ≡ add_offset_micros error r.client.node.driver.clock)
        (sym c) (told_estimate p m id error (record s { client = r.client }) a e q i f)

  -- One round of synchronisation while both are linking, the remote's request fresh and of the id
  -- that the packet carries. The remote writes its clock and the transmission time at the last moment,
  -- the host answers how far the micros of reception with its offset are ahead of that, and the
  -- remote's clock is moved by the answer: at the time when the remote sent, it then shows the micros
  -- of reception with the host's offset, less the transmission time. The host's own clock at the
  -- reception is ahead of that by the transmission time and by the seconds that the host's RTC has
  -- counted less the time of its last tick, which the answer leaves out (modulo 2^32).
  pub clock_sync_round :
      (p q : Platform B S) (m1 m2 m3 : Moment) (id : ℕ) (r : RemoteLink B S) (h : Host B S)
      → get_data_header r.packet ≡ header_short
      → get_payload 0 r.packet ≡ ntp_request
      → 9 ≤ length r.packet.raw
      → 9 ≤ length h.packet.raw
      → is_linking h.client.info.link_state ≡ true
      → h.client.linking_state ≡ 1
      → is_linking r.client.info.link_state ≡ true
      → r.client.linking_state ≡ 1
      → is_requested r.client.part.request ≡ true
      → r.client.part.request.id ≡ id
      → is_fresh m3.millis max_before_linking_cancel r.client.part.request ≡ true
      → r.client.node.driver.ettm < 4294967296
      → h.client.node.driver.clock.last_tick < 4294967296
      → let sent = remote_on_pre_send m1 r in
        let kept = on_clock_sync_request_received p m2 id (get_word 1 sent.packet) h in
        let answer = (on_clock_sync p m2 kept).packet in
        let told = on_clock_sync_response_received q m3 id (get_word 1 answer) sent in
        let host = h.client.node.driver in
        let ettm = r.client.node.driver.ettm in
        let shows = get_sync_micros m1.micros (take_estimate q m3 told).client.node.driver.clock in
        (get_payload 0 answer ≡ ntp_reply)
        × (shows ≡ sub32 (get_sync_micros_of host.last_valid_received.micros host.clock) ettm)
        × (get_sync_micros host.last_valid_received.micros host.clock
            ≡ u32 (shows + ettm + sub32 (get_base_rtc host.clock) host.clock.last_tick))
  unfolding get_sync_micros_of
  clock_sync_round p q m1 m2 m3 id r h header sub room room' a e a' e' asked same fresh small tick =
      let word = sent_word m1 r header sub room in
      let answered =
        answered_word p m2 id (get_word 1 (remote_on_pre_send m1 r).packet) h a e room' in
      let clock = r.client.node.driver.clock in
      let read = get_sync_micros m1.micros in
      let shown =
        ap read (told_later q m3 id _ (remote_on_pre_send m1 r) r word.1 a' e' asked same fresh)
        ∙ (ap (λ x. read (add_offset_micros x clock)) answered.3
            ∙ (ap (λ w. read (add_offset_micros (estimation_error p m2 w h) clock)) word.0
                ∙ offset_lands m1.micros _ r.client.node.driver.ettm clock (omega arith) small)) in
      (
        answered.1,
        shown,
        host_ahead h.client.node.driver.last_valid_received.micros _ r.client.node.driver.ettm
            h.client.node.driver.clock shown small tick,
      )
