-- ===== src/Link/Remote/Awaiting.antt =====
-- The remote of src/Services/Link/LoLaLinkRemoteService.h in the states AwaitingLink and
-- AwaitingSleeping: OnAwaitingLink and the packets of the handshake that it takes.
use lo_la.Prelude.{
  ℕ, ◌*◌, Bool, true, false, not, ◌&&◌, ◌||◌, if◌then◌else◌, List, [], ◌∷◌, get_or, ltb, ◌==◌,
  sub32, bytes_word,
}
use lo_la.Packet.Buffer.{Packet, get_payload}
use lo_la.Crypto.Encoder.{decode_direct}
use lo_la.Crypto.KeyExchange.{set_partner_public_key, get_public_key_compressed}
use lo_la.Link.Info.{
  LinkState, awaiting_link, awaiting_sleeping, linking, has_session_id, has_session, set_session_id,
  set_partner_id,
}
use lo_la.Link.Service.{
  Platform, Moment, on_client, send_after, get_elapsed_millis_since_state_start, is_awaiting_link,
  reset_last_sent_time_stamp,
}
use lo_la.Link.Service.Builders.{
  remote_pkc_start_request, remote_public_key, prepare_word_packet, prepare_public_key_packet,
  prepare_link_discovery,
}
use lo_la.Link.Service.Session.{set_linking_state}
use lo_la.Link.Host.Awaiting.{
  max_before_pkc_cancel, resend_period, resend_long_period, set_iv, agree_on_key,
}
use lo_la.Link.Remote.{
  RemoteLink, searching_for_host, remote_validating_partner, awaiting_host_public_key,
  processing_shared_key, remote_sending_public_key, remote_switch_over, update_remote_state,
  search_again,
}

-- LOLA_LINK_SERVICE_UNLINK_REMOTE_MAX_BEFORE_SLEEP, LOLA_LINK_SERVICE_UNLINK_REMOTE_SEARCH_PERIOD.
abbrev pub remote_max_before_sleep : ℕ
remote_max_before_sleep = 30000

abbrev pub remote_search_period : ℕ
remote_search_period = 10 * 7

module _ {B S : Type 0} (p : Platform B S) (m : Moment) where
  abbrev pub remote_expired : RemoteLink B S → Bool
  remote_expired s = ltb max_before_pkc_cancel (sub32 m.millis s.client.sub_state_start)

  unfoldable pub on_searching : RemoteLink B S → RemoteLink B S
  on_searching s =
      send_after m.millis remote_search_period (prepare_link_discovery s.client.info.session_id) s

  unfoldable pub on_validating_host : RemoteLink B S → RemoteLink B S
  unfolding reset_last_sent_time_stamp
  on_validating_host s = set_linking_state awaiting_host_public_key (
      on_client
        (λ c. record (reset_last_sent_time_stamp (set_iv p c.info.partner_id p.local_id c)) {
          sub_state_start = m.millis;
        })
        s)

  unfoldable pub on_awaiting_host_key : RemoteLink B S → RemoteLink B S
  on_awaiting_host_key s =
      if remote_expired s
      then search_again p m s
      else send_after m.millis resend_period
          (prepare_word_packet s.client.info.session_id remote_pkc_start_request p.local_id) s

  after_agreement : RemoteLink B S → Bool → RemoteLink B S
  after_agreement s true =
      set_linking_state remote_sending_public_key (on_client reset_last_sent_time_stamp s)
  after_agreement s false = search_again p m s

  unfoldable pub on_processing_shared_key : RemoteLink B S → RemoteLink B S
  unfolding after_agreement
  on_processing_shared_key s =
      let (c, ok) = agree_on_key p s.client in after_agreement (record s { client = c }) ok

  unfoldable pub remote_on_sending_public_key : RemoteLink B S → RemoteLink B S
  unfolding get_public_key_compressed
  remote_on_sending_public_key s =
      if remote_expired s
      then search_again p m s
      else send_after m.millis resend_long_period
          (prepare_public_key_packet s.client.info.session_id remote_public_key
            (get_public_key_compressed s.client.exchanger))
          s

  unfoldable pub remote_awaiting_stage : ℕ → RemoteLink B S → RemoteLink B S
  remote_awaiting_stage stage s =
      if stage == searching_for_host
      then on_searching s
      else if stage == remote_validating_partner
      then on_validating_host s
      else if stage == awaiting_host_public_key
      then on_awaiting_host_key s
      else if stage == processing_shared_key
      then on_processing_shared_key s
      else if stage == remote_sending_public_key
      then remote_on_sending_public_key s
      else if stage == remote_switch_over
      then update_remote_state p m linking s
      else s

  unfoldable pub remote_on_awaiting_link : RemoteLink B S → RemoteLink B S × Bool
  unfolding remote_awaiting_stage
  remote_on_awaiting_link s =
      if ltb remote_max_before_sleep (get_elapsed_millis_since_state_start m.millis s.client)
      then (s, false)
      else (remote_awaiting_stage s.client.linking_state s, true)

  -- SetSessionId has answered: a session that is 0 is stored and refused.
  after_session : RemoteLink B S → Bool → RemoteLink B S
  after_session s true = set_linking_state remote_validating_partner s
  after_session s false = s

  abbrev pub with_session : ℕ → RemoteLink B S → RemoteLink B S
  with_session session_id s =
      on_client (λ c. record c { info = (set_session_id session_id c.info).0 }) s

  abbrev pub with_host : ℕ → Bool → RemoteLink B S → RemoteLink B S
  with_host host_id false s = s
  with_host host_id true s = on_client (λ c. record c { info = set_partner_id host_id c.info }) s

  -- The `switch` on LinkingState of OnIdBroadcastReceived.
  unfoldable pub take_broadcast : (session_id host_id : ℕ) → RemoteLink B S → RemoteLink B S
  unfolding has_session after_session
  take_broadcast session_id host_id s =
      let stage = s.client.linking_state in
      let (_, ok) = set_session_id session_id s.client.info in
      let stored = with_session session_id s in
      if stage == searching_for_host
      then (if not (has_session s.client.info)
          then after_session (with_host host_id ok stored) ok
          else s)
      else if stage == remote_validating_partner || stage == awaiting_host_public_key
      then (if has_session s.client.info && s.client.info.partner_id == host_id
          then after_session stored ok
          else s)
      else s

  unfoldable pub broadcast_in :
      LinkState → (session_id host_id : ℕ) → RemoteLink B S → RemoteLink B S
  broadcast_in awaiting_sleeping session_id host_id s =
      take_broadcast session_id host_id (update_remote_state p m awaiting_link s)
  broadcast_in awaiting_link session_id host_id s = take_broadcast session_id host_id s
  broadcast_in _ session_id host_id s = s

  unfoldable pub on_id_broadcast_received :
      (session_id host_id : ℕ) → RemoteLink B S → RemoteLink B S
  unfolding broadcast_in
  on_id_broadcast_received session_id host_id s =
      broadcast_in s.client.info.link_state session_id host_id s

  -- The four bytes of `localId` decoded, and whether they are the own id.
  unfoldable pub decodes_local_id : Packet → RemoteLink B S → Bool
  unfolding get_payload
  decodes_local_id packet s =
      let out = decode_direct p.crypto s.client.node.driver.encoder (
        get_payload 0 packet
        ∷ get_payload 1 packet
        ∷ get_payload 2 packet
        ∷ get_payload 3 packet
        ∷ []) in
      p.local_id == bytes_word (get_or out 0 0) (get_or out 1 0) (get_or out 2 0) (get_or out 3 0)

  unfoldable pub on_crypto_start_received :
      (session_id : ℕ) → Packet → RemoteLink B S → RemoteLink B S × Bool
  unfolding decodes_local_id has_session_id
  on_crypto_start_received session_id packet s =
      if s.client.linking_state == remote_sending_public_key
        && has_session_id s.client.info
        && s.client.info.session_id == session_id
        && decodes_local_id packet s
      then (set_linking_state remote_switch_over s, true)
      else (s, false)

module _ {B S : Type 0} where
  after_host_key : RemoteLink B S → Bool → RemoteLink B S
  after_host_key s true = set_linking_state processing_shared_key s
  after_host_key s false = s

  unfoldable pub on_host_public_key_received :
      (session_id : ℕ) (host_public_key : List ℕ) → RemoteLink B S → RemoteLink B S
  unfolding after_host_key has_session
  on_host_public_key_received session_id host_public_key s =
      let (exchanger, ok) = set_partner_public_key host_public_key s.client.exchanger in
      if is_awaiting_link s.client.info.link_state
        && s.client.linking_state == awaiting_host_public_key
        && has_session s.client.info
        && s.client.info.session_id == session_id
      then after_host_key (on_client (λ c. record c { exchanger = exchanger }) s) ok
      else s
