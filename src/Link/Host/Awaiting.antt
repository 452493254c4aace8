-- ===== src/Link/Host/Awaiting.antt =====
-- The host of src/Services/Link/LoLaLinkHostService.h in the state AwaitingLink: OnAwaitingLink, the
-- packets that it takes there, and PrepareCryptoStartRequest.
use lo_la.Prelude.{
  ℕ, ◌*◌, ◌/◌, Bool, true, false, not, ◌&&◌, ◌||◌, if◌then◌else◌, List, [], ◌∷◌, ltb, ◌==◌, sub32,
}
use lo_la.Packet.Buffer.{Packet, get_payload}
use lo_la.Crypto.Library.{CryptoLibrary}
use lo_la.Crypto.Encoder.{Encoder, encode_direct, set_iv_data, set_secret_key}
use lo_la.Crypto.KeyExchange.{
  generate_shared_key, set_partner_public_key, get_public_key_compressed, key_curve_size,
}
use lo_la.Driver.State.{invalid_millis}
use lo_la.Services.Task.{run_asap}
use lo_la.Services.Send.{schedule}
use lo_la.Link.Info.{linking, has_session_id, set_partner_id}
use lo_la.Link.Service.{
  Platform, Moment, LinkClient, on_client, with_driver, send_after,
  get_elapsed_millis_since_state_start, is_awaiting_link, is_awaiting_sleeping,
}
use lo_la.Link.Service.Builders.{
  write_payload, host_id_broadcast, host_public_key, prepare_word_packet, prepare_public_key_packet,
  prepare_link_protocol_switch_over,
}
use lo_la.Link.Service.Session.{set_linking_state}
use lo_la.Link.Host.{
  Host, broadcasting_open_session, validating_partner, sending_public_key, processing_pkc,
  got_shared_key, linking_switch_over, on_part, new_session, update_host_state, give_up,
}

-- LOLA_LINK_SERVICE_UNLINK_* of src/LoLaDefinitions.h.
abbrev pub host_max_before_sleep : ℕ
host_max_before_sleep = 10000

abbrev pub session_lifetime : ℕ
session_lifetime = 10000 / 2

abbrev pub max_before_pkc_cancel : ℕ
max_before_pkc_cancel = 300

abbrev pub broadcast_period : ℕ
broadcast_period = 10 * 5

abbrev pub resend_period : ℕ
resend_period = 10 / 3

abbrev pub resend_long_period : ℕ
resend_long_period = 10 * 3

-- The first four bytes of the payload are encoded in place.
unfoldable pub prepare_crypto_start_request :
    CryptoLibrary → Encoder → (session_id partner_id : ℕ) → Packet → Packet
unfolding prepare_link_protocol_switch_over
prepare_crypto_start_request lib e session_id partner_id packet =
    let prepared = prepare_link_protocol_switch_over session_id partner_id packet in
    write_payload 0
      (encode_direct lib e (
        get_payload 0 prepared
        ∷ get_payload 1 prepared
        ∷ get_payload 2 prepared
        ∷ get_payload 3 prepared
        ∷ []))
      prepared

module _ {B S P : Type 0} (p : Platform B S) where
  -- SetIvData, of the session and the two ids.
  unfoldable pub set_iv : (id1 id2 : ℕ) → LinkClient B S P → LinkClient B S P
  set_iv id1 id2 c =
      with_driver
        (λ d. record d { encoder = set_iv_data p.crypto c.info.session_id id1 id2 d.encoder }) c

  -- SetSecretKey of the shared key, if the first call answered true.
  unfoldable pub use_shared_key : LinkClient B S P × Bool → LinkClient B S P × Bool
  use_shared_key (c, false) = (c, false)
  use_shared_key (c, true) =
      let (encoder, ok) =
        set_secret_key p.crypto c.exchanger.shared_key key_curve_size c.node.driver.encoder in
      (with_driver (λ d. record d { encoder = encoder }) c, ok)

  -- `GenerateSharedKey() && SetSecretKey(...)`
  unfoldable pub agree_on_key : LinkClient B S P → LinkClient B S P × Bool
  unfolding use_shared_key
  agree_on_key c =
      let (exchanger, ok) = generate_shared_key p.ecc c.exchanger in
      use_shared_key (record c { exchanger = exchanger }, ok)

module _ {B S : Type 0} (p : Platform B S) (m : Moment) where
  abbrev pub sub_state_expired : Host B S → Bool
  sub_state_expired s = ltb max_before_pkc_cancel (sub32 m.millis s.client.sub_state_start)

  unfoldable pub needs_new_session : Host B S → Bool
  unfolding has_session_id
  needs_new_session s =
      let started = s.client.part.session_last_started in
      not (has_session_id s.client.info)
      || started == invalid_millis
      || ltb session_lifetime (sub32 m.millis started)

  unfoldable pub broadcast_id : Host B S → Host B S
  broadcast_id s =
      send_after m.millis broadcast_period
        (prepare_word_packet s.client.info.session_id host_id_broadcast p.local_id) s

  unfoldable pub on_broadcasting : Host B S → Host B S
  unfolding needs_new_session
  on_broadcasting s =
      let renewed =
        on_part (λ h. record h { session_last_started = m.millis }) (new_session p m s) in
      broadcast_id (if needs_new_session s then renewed else s)

  unfoldable pub on_validating_partner : Host B S → Host B S
  on_validating_partner s = set_linking_state sending_public_key (
      on_client
        (λ c. record (set_iv p p.local_id c.info.partner_id c) { sub_state_start = m.millis }) s)

  unfoldable pub on_sending_public_key : Host B S → Host B S
  unfolding get_public_key_compressed
  on_sending_public_key s =
      if sub_state_expired s
      then give_up p m s
      else send_after m.millis resend_long_period
          (prepare_public_key_packet s.client.info.session_id host_public_key
            (get_public_key_compressed s.client.exchanger))
          s

  after_agreement : Host B S → Bool → Host B S
  after_agreement s true = set_linking_state got_shared_key s
  after_agreement s false = give_up p m s

  unfoldable pub on_processing_pkc : Host B S → Host B S
  unfolding after_agreement
  on_processing_pkc s =
      let (c, ok) = agree_on_key p s.client in after_agreement (record s { client = c }) ok

  unfoldable pub on_got_shared_key : Host B S → Host B S
  on_got_shared_key s =
      let c = s.client in
      if sub_state_expired s
      then give_up p m s
      else send_after m.millis resend_period
          (prepare_crypto_start_request p.crypto c.node.driver.encoder c.info.session_id
            c.info.partner_id)
          s

  -- The `switch` on LinkingState.
  unfoldable pub on_awaiting_stage : ℕ → Host B S → Host B S
  on_awaiting_stage stage s =
      if stage == broadcasting_open_session
      then on_broadcasting s
      else if stage == validating_partner
      then on_validating_partner s
      else if stage == sending_public_key
      then on_sending_public_key s
      else if stage == processing_pkc
      then on_processing_pkc s
      else if stage == got_shared_key
      then on_got_shared_key s
      else if stage == linking_switch_over
      then update_host_state p m linking s
      else schedule run_asap (set_linking_state 0 s)

  unfoldable pub on_awaiting_link : Host B S → Host B S × Bool
  unfolding on_awaiting_stage
  on_awaiting_link s =
      if ltb host_max_before_sleep (get_elapsed_millis_since_state_start m.millis s.client)
      then (s, false)
      else (on_awaiting_stage s.client.linking_state s, true)

module _ {B S : Type 0} where
  unfoldable pub on_link_discovery_received : Host B S → Host B S
  on_link_discovery_received s =
      if is_awaiting_sleeping s.client.info.link_state then schedule run_asap s else s

  -- The state, the stage and the session that a packet of the handshake needs.
  unfoldable pub expects : (stage session_id : ℕ) → Host B S → Bool
  unfolding has_session_id
  expects stage session_id s =
      is_awaiting_link s.client.info.link_state
      && s.client.linking_state == stage
      && has_session_id s.client.info
      && s.client.info.session_id == session_id

  unfoldable pub on_pkc_request_received : (session_id remote_partner_id : ℕ) → Host B S → Host B S
  unfolding expects
  on_pkc_request_received session_id remote_partner_id s =
      if expects broadcasting_open_session session_id s
      then set_linking_state validating_partner
          (on_client (λ c. record c { info = set_partner_id remote_partner_id c.info }) s)
      else s

  after_partner_key : Host B S → Bool → Host B S
  after_partner_key s true = set_linking_state processing_pkc s
  after_partner_key s false = s

  unfoldable pub on_remote_public_key_received :
      (session_id : ℕ) (remote_public_key : List ℕ) → Host B S → Host B S
  unfolding expects after_partner_key
  on_remote_public_key_received session_id remote_public_key s =
      let (exchanger, ok) = set_partner_public_key remote_public_key s.client.exchanger in
      if expects sending_public_key session_id s
      then after_partner_key (on_client (λ c. record c { exchanger = exchanger }) s) ok
      else s
