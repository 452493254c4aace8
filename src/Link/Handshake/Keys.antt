-- ===== src/Link/Handshake/Keys.antt =====
-- The crypto start request of src/Services/Link/LoLaLinkHostService.h, and what
-- src/Services/Link/LoLaLinkRemoteService.h makes of it.
use lo_la.Prelude.{
  ℕ, ◌≤◌, ◌<◌, ◌≡◌, refl, ◌∙◌, ap, subst, Bool, true, false, ◌&&◌, ◌==◌, if◌then◌else◌, Option,
  List, [], ◌∷◌, length, get_or, word_bytes, bytes_word, bytes_word-word_bytes, ==_self, arith,
}
use lo_la.Packet.Definition.{header_short_with_ack}
use lo_la.Packet.Buffer.{
  Packet, get_data_header, get_id, get_payload, set_payload, set_id, set_definition,
}
use lo_la.Crypto.Library.{CryptoLibrary, IsLawful}
use lo_la.Crypto.Encoder.{Encoder, encode_direct, encrypt_block, decode_direct, decrypt_block}
use lo_la.Link.Info.{awaiting_link, has_session_id}
use lo_la.Link.Service.{Platform, Moment}
use lo_la.Link.Service.Builders.{
  write_payload, prepare_link_protocol_switch_over, prepare_short_packet_with_ack,
}
use lo_la.Link.Service.Session.{set_linking_state}
use lo_la.Link.Host.Awaiting.{prepare_crypto_start_request}
use lo_la.Link.Remote.{RemoteLink}
use lo_la.Link.Remote.Awaiting.{on_crypto_start_received, decodes_local_id}
use lo_la.Link.Remote.Linking.{on_acked_packet_received, acked_in}
use lo_la.Link.Handshake.{expose, expose-eq}

all_but_last : {a b c d e : Bool} → a ≡ true → b ≡ true → c ≡ true → d ≡ e → (a && b && c && d) ≡ e
all_but_last {a} {b} {c} {d} {e} p q r s = rw (p, q, r) s

abbrev four_bytes : Packet → List ℕ
four_bytes p = get_payload 0 p ∷ get_payload 1 p ∷ get_payload 2 p ∷ get_payload 3 p ∷ []

-- What a packet with an acknowledgement and four bytes holds.
abbrev HoldsBytes : (id : ℕ) (bytes : List ℕ) → Packet → Type 0
HoldsBytes id bytes p =
    (get_data_header p ≡ header_short_with_ack) × (get_id p ≡ id) × (four_bytes p ≡ bytes)

bytes_held :
    (session partner : ℕ) (bytes : List ℕ) (o : Option _) (xs : List ℕ)
    → length bytes ≡ 4
    → HoldsBytes session bytes (
        write_payload 0 bytes (
          prepare_link_protocol_switch_over session partner
            (record { definition = o; raw = expose 8 xs })))
unfolding prepare_link_protocol_switch_over prepare_short_packet_with_ack set_definition set_id
    get_payload set_payload get_data_header get_id
bytes_held session partner (a ∷ b ∷ c ∷ d ∷ []) o xs h = (refl, refl, refl)
bytes_held session partner [] o xs h = absurd (omega (arith, h))
bytes_held session partner (a ∷ []) o xs h = absurd (omega (arith, h))
bytes_held session partner (a ∷ b ∷ []) o xs h = absurd (omega (arith, h))
bytes_held session partner (a ∷ b ∷ c ∷ []) o xs h = absurd (omega (arith, h))
bytes_held session partner (a ∷ b ∷ c ∷ d ∷ e ∷ l) o xs h = absurd (omega (arith, h))

module _ (lib : CryptoLibrary) (lawful : IsLawful lib) where
  exposed_holds :
      (e : Encoder) (session partner : ℕ) (o : Option _) (xs : List ℕ)
      → HoldsBytes session (encrypt_block lib e (word_bytes partner)) (
          prepare_crypto_start_request lib e session partner
            (record { definition = o; raw = expose 8 xs }))
  unfolding prepare_crypto_start_request encode_direct prepare_link_protocol_switch_over
      prepare_short_packet_with_ack set_definition set_id get_payload set_payload encrypt_block
  exposed_holds e session partner o xs =
      bytes_held session partner (encrypt_block lib e (word_bytes partner)) o xs
        (lawful.length-encrypt e.key_holder e.iv_holder e.token_holder (word_bytes partner))

  prepare_crypto_start_request_lem :
      (e : Encoder) (session partner : ℕ) (p : Packet)
      → 8 ≤ length p.raw
      → HoldsBytes session
          (encrypt_block lib e (word_bytes partner))
          (prepare_crypto_start_request lib e session partner p)
  prepare_crypto_start_request_lem e session partner p l =
      subst
        (λ xs. HoldsBytes session (encrypt_block lib e (word_bytes partner)) (
          prepare_crypto_start_request lib e session partner
            (record { definition = p.definition; raw = xs })))
        (expose-eq 8 p.raw l) (exposed_holds e session partner p.definition p.raw)

  decrypted :
      (sender receiver : Encoder) (message : List ℕ)
      → sender.key_holder ≡ receiver.key_holder
      → sender.iv_holder ≡ receiver.iv_holder
      → sender.token_holder ≡ receiver.token_holder
      → decode_direct lib receiver (encrypt_block lib sender message) ≡ message
  unfolding decode_direct decrypt_block encrypt_block
  decrypted sender receiver message k i t =
      rw (k, i, t)
        (lawful.decrypt-encrypt receiver.key_holder receiver.iv_holder receiver.token_holder
          message)

module _ {B S : Type 0} (q : Platform B S) (m : Moment) (lawful : IsLawful q.crypto) where
  abbrev shows_own_id : List ℕ → Bool
  shows_own_id out =
      q.local_id == bytes_word (get_or out 0 0) (get_or out 1 0) (get_or out 2 0) (get_or out 3 0)

  decodes_local_id_lem :
      (bytes : List ℕ) (partner : ℕ) (y : Packet) (r : RemoteLink B S)
      → four_bytes y ≡ bytes
      → decode_direct q.crypto r.client.node.driver.encoder bytes ≡ word_bytes partner
      → partner < 4294967296
      → decodes_local_id q m y r ≡ (q.local_id == partner)
  unfolding decodes_local_id get_payload
  decodes_local_id_lem bytes partner y r e d small =
      ap (λ l. shows_own_id (decode_direct q.crypto r.client.node.driver.encoder l)) e
      ∙ (ap shows_own_id d ∙ ap (λ w. q.local_id == w) (bytes_word-word_bytes partner small))

  started :
      (id : ℕ) (y : Packet) (partner : ℕ) (r : RemoteLink B S)
      → id ≡ r.client.info.session_id
      → decodes_local_id q m y r ≡ (q.local_id == partner)
      → r.client.linking_state ≡ 4
      → has_session_id r.client.info ≡ true
      → on_crypto_start_received q m id y r
        ≡ (if q.local_id == partner then (set_linking_state 5 r, true) else (r, false))
  unfolding on_crypto_start_received
  started id y partner r i d stage session =
      ap (λ test. if test then (set_linking_state 5 r, true) else (r, false))
        (all_but_last (ap (λ n. n == 4) stage) session
          (ap (λ n. r.client.info.session_id == n) i ∙ ==_self r.client.info.session_id) d)

  received_start :
      (y : Packet) (partner : ℕ) (r : RemoteLink B S)
      → get_data_header y ≡ header_short_with_ack
      → get_id y ≡ r.client.info.session_id
      → decodes_local_id q m y r ≡ (q.local_id == partner)
      → r.client.info.link_state ≡ awaiting_link
      → r.client.linking_state ≡ 4
      → has_session_id r.client.info ≡ true
      → on_acked_packet_received q m y r
        ≡ (if q.local_id == partner then (set_linking_state 5 r, true) else (r, false))
  unfolding on_acked_packet_received acked_in
  received_start y partner r h i d state stage session = rw h (
      ap (λ state'. acked_in q m state' y r) state
      ∙ started (get_id y) y partner r i d stage session)

  -- A remote that has sent its public key gets the crypto start of a host of the same session whose
  -- key, IV and token are its own: it acknowledges the packet and goes on to link exactly if the id
  -- that the host encrypted is its own id, and is left as it was for any other id.
  pub crypto_start_iff :
      (e : Encoder) (partner : ℕ) (packet : Packet) (r : RemoteLink B S)
      → let own = r.client.node.driver.encoder in
        e.key_holder ≡ own.key_holder
        → e.iv_holder ≡ own.iv_holder
        → e.token_holder ≡ own.token_holder
        → partner < 4294967296
        → 8 ≤ length packet.raw
        → r.client.info.link_state ≡ awaiting_link
        → r.client.linking_state ≡ 4
        → has_session_id r.client.info ≡ true
        → on_acked_packet_received q m
            (prepare_crypto_start_request q.crypto e r.client.info.session_id partner packet)
            r
          ≡ (if q.local_id == partner then (set_linking_state 5 r, true) else (r, false))
  crypto_start_iff e partner packet r k i t small room state stage session =
      let lem =
        prepare_crypto_start_request_lem q.crypto lawful e r.client.info.session_id partner packet
          room in
      let decoded =
        decrypted q.crypto lawful e r.client.node.driver.encoder (word_bytes partner) k i t in
      received_start _ partner r lem.0 lem.1
        (decodes_local_id_lem _ partner _ r lem.2 decoded small) state stage session
