-- ===== src/Link/Handshake/Packets.antt =====
-- The builders of src/Services/Link and ProcessPacket of src/Services/Link/LoLaLinkService.h.
use lo_la.Prelude.{
  ℕ, ◌≤◌, ◌<◌, ◌==◌, if◌then◌else◌, Bool, true, Option, List, ◌≡◌, refl, subst, length,
  bytes_word-word_bytes,
}
use lo_la.Packet.Buffer.{
  Packet, get_payload, set_payload, get_id, set_id, get_data_header, set_definition,
}
use lo_la.Link.Service.Builders.{
  link_discovery, host_id_broadcast, remote_pkc_start_request, ntp_request, ntp_reply,
  ntp_tune_request, ntp_tune_reply, prepare_word_packet, prepare_short_packet, s_array_to_payload,
  get_word,
}
use lo_la.Link.Service.Process.{PacketHandlers, process_with, process_short}
use lo_la.Link.Handshake.{expose, expose-eq}

-- What a short packet with a word holds.
abbrev pub HoldsWord : (id sub_header word : ℕ) → Packet → Type 0
HoldsWord id sub_header word p =
    (get_data_header p ≡ 2)
    × (get_payload 0 p ≡ sub_header)
    × (get_id p ≡ id)
    × (get_word 1 p ≡ word)

exposed_holds :
    (id sub_header word : ℕ) (o : Option _) (xs : List ℕ)
    → word < 4294967296
    → HoldsWord id sub_header word
        (prepare_word_packet id sub_header word (record { definition = o; raw = expose 9 xs }))
unfolding prepare_word_packet prepare_short_packet s_array_to_payload get_word get_payload
    set_payload get_id set_id get_data_header set_definition
exposed_holds id sub_header word o xs h = (refl, refl, refl, bytes_word-word_bytes word h)

pub prepare_word_packet_lem :
    (id sub_header word : ℕ) (p : Packet)
    → 9 ≤ length p.raw
    → word < 4294967296
    → HoldsWord id sub_header word (prepare_word_packet id sub_header word p)
prepare_word_packet_lem id sub_header word p l h =
    subst
      (λ xs.
        HoldsWord id sub_header word
          (prepare_word_packet id sub_header word (record { definition = p.definition; raw = xs })))
      (expose-eq 9 p.raw l) (exposed_holds id sub_header word p.definition p.raw h)

-- The method that a sub-header is for.
abbrev short_word_method : {L : Type 0} → PacketHandlers L → (sub_header id word : ℕ) → L → L
short_word_method handlers sub_header id word s =
    if sub_header == link_discovery
    then handlers.on_link_discovery_received s
    else if sub_header == remote_pkc_start_request
    then handlers.on_pkc_request_received id word s
    else if sub_header == host_id_broadcast
    then handlers.on_id_broadcast_received id word s
    else if sub_header == ntp_request
    then handlers.on_clock_sync_request_received id word s
    else if sub_header == ntp_reply
    then handlers.on_clock_sync_response_received id word s
    else if sub_header == ntp_tune_request
    then handlers.on_clock_sync_tune_request_received id word s
    else if sub_header == ntp_tune_reply
    then handlers.on_clock_sync_tune_response_received id word s
    else s

read_word :
    {L : Type 0} (handlers : PacketHandlers L)
    (on_report : (with_reply : Bool) (rssi partner_received_count : ℕ) → L → L)
    (id sub_header word : ℕ) (q : Packet) (s : L)
    → HoldsWord id sub_header word q
    → process_with handlers on_report q s ≡ (short_word_method handlers sub_header id word s, true)
unfolding process_with process_short
read_word handlers on_report id sub_header word q s (h, b, i, w) = rw (h, b, i, w) refl

module _ {L : Type 0} (handlers : PacketHandlers L)
    (on_report : (with_reply : Bool) (rssi partner_received_count : ℕ) → L → L) where
  -- A word that is sent to the partner reaches the method of its sub-header, which gets the id and the
  -- word as they were given; OutPacket has room for nine bytes, and the word is one of 32 bits.
  pub word_packet_is_dispatched :
      (id word : ℕ) (p : Packet) (s : L)
      → 9 ≤ length p.raw
      → word < 4294967296
      → let read = λ (sub_header : ℕ).
        process_with handlers on_report (prepare_word_packet id sub_header word p) s in
        (read host_id_broadcast ≡ (handlers.on_id_broadcast_received id word s, true))
        × (read remote_pkc_start_request ≡ (handlers.on_pkc_request_received id word s, true))
        × (read ntp_request ≡ (handlers.on_clock_sync_request_received id word s, true))
        × (read ntp_reply ≡ (handlers.on_clock_sync_response_received id word s, true))
        × (read ntp_tune_request ≡ (handlers.on_clock_sync_tune_request_received id word s, true))
        × (read ntp_tune_reply ≡ (handlers.on_clock_sync_tune_response_received id word s, true))
  word_packet_is_dispatched id word p s l h = (
    reads host_id_broadcast (lem host_id_broadcast),
    reads remote_pkc_start_request (lem remote_pkc_start_request),
    reads ntp_request (lem ntp_request),
    reads ntp_reply (lem ntp_reply),
    reads ntp_tune_request (lem ntp_tune_request),
    reads ntp_tune_reply (lem ntp_tune_reply),
  )
    where
      lem : (sub : ℕ) → HoldsWord id sub word (prepare_word_packet id sub word p)
      lem sub = prepare_word_packet_lem id sub word p l h

      reads :
          (sub : ℕ)
          → HoldsWord id sub word (prepare_word_packet id sub word p)
          → process_with handlers on_report (prepare_word_packet id sub word p) s
            ≡ (short_word_method handlers sub id word s, true)
      reads sub e = read_word handlers on_report id sub word _ s e
