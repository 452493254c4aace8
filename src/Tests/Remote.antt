-- ===== src/Tests/Remote.antt =====
-- The remote of src/Services/Link from Disabled to Linking.
use lo_la.Prelude.{ℕ, true, List, [], ◌∷◌, refl, ◌≡◌, replicate, some}
use lo_la.Packet.Buffer.{Packet, template_packet}
use lo_la.Crypto.Encoder.{encode, encrypt_block}
use lo_la.Link.Service.{takes_pings}
use lo_la.Link.Service.Builders.{
  prepare_word_packet, prepare_public_key_packet, host_id_broadcast, host_public_key,
}
use lo_la.Link.Host.Awaiting.{prepare_crypto_start_request}
use lo_la.Link.Host.Runs.{LinkEvent, served, enabled, received, acked}
use lo_la.Link.Remote.{RemoteLink}
use lo_la.Link.Remote.Runs.{remote_step}
use lo_la.Link.Machine.{Moves}
use lo_la.Link.Machine.Steps.{phase_of}
use lo_la.Link.Machine.Remote.Steps.{
  RemoteReaches, begin, by_event, remote_link_is_encrypted, remote_step-moves,
}
use lo_la.Tests.LinkValues.{platform_of, at, cleared, new_remote, platform-KeepsEncoder}
use lo_la.Crypto.Encoder as CryptoEncoder
use lo_la.Crypto.KeyExchange as CryptoKeyExchange
use lo_la.Link.Host.Awaiting as LinkHostAwaiting
use lo_la.Link.Info as LinkInfo
use lo_la.Link.Remote as LinkRemote
use lo_la.Link.Remote.Awaiting as LinkRemoteAwaiting
use lo_la.Link.Remote.Linking as LinkRemoteLinking
use lo_la.Link.Remote.Runs as LinkRemoteRuns
use lo_la.Link.Service as LinkService
use lo_la.Link.Service.Builders as LinkServiceBuilders
use lo_la.Link.Service.Process as LinkServiceProcess
use lo_la.Link.Service.Runtime as LinkServiceRuntime
use lo_la.Link.Service.Session as LinkServiceSession
use lo_la.Packet.Buffer as PacketBuffer
use lo_la.Tests.Values as TestsValues

abbrev broadcast : Packet
broadcast = prepare_word_packet 9 host_id_broadcast 77 (template_packet 26)

abbrev partner_key : Packet
partner_key =
    prepare_public_key_packet 9 host_public_key (some (replicate 21 3)) (template_packet 26)

-- The cypher of the tests does not look at its key.
abbrev crypto_start : Packet
crypto_start = prepare_crypto_start_request TestsValues.toy cleared 9 88 (template_packet 26)

-- The remote after some calls, the last one first.
abbrev after : List LinkEvent → RemoteLink (List ℕ) ℕ
after [] = new_remote
after (e ∷ es) = remote_step (platform_of 88) (at 1000) e (after es)

abbrev calls : List LinkEvent
calls =
    served
    ∷ acked crypto_start
    ∷ served
    ∷ received partner_key
    ∷ served
    ∷ received broadcast
    ∷ served
    ∷ served
    ∷ enabled
    ∷ []

abbrev linking_remote : RemoteLink (List ℕ) ℕ
linking_remote = after calls

reached : (es : List LinkEvent) → RemoteReaches (platform_of 88) new_remote (after es)
reached [] = begin
reached (e ∷ es) = by_event (at 1000) e (reached es)

linking_remote-is_linking : takes_pings linking_remote.client.info.link_state ≡ true
unfolding LinkService.get_elapsed_millis_since_state_start LinkService.on_send_failed
    LinkService.process_acked_packet LinkServiceBuilders.prepare_word_packet
    LinkServiceBuilders.prepare_public_key_packet LinkServiceSession.set_linking_state
    LinkServiceSession.clear_session LinkServiceSession.tune_to_reset_channel
    LinkServiceSession.start_driver LinkServiceSession.transmit_at_max_power
    LinkServiceSession.leave LinkServiceSession.enter_awaiting_link LinkServiceSession.change_state
    LinkServiceSession.enter LinkServiceSession.update_link_state LinkServiceProcess.process_short
    LinkServiceProcess.process_long LinkServiceProcess.process_with
    LinkServiceProcess.process_packet LinkServiceRuntime.generate_keys LinkServiceRuntime.on_service
    LinkServiceRuntime.on_enable LinkInfo.set_partner_id LinkInfo.set_session_id LinkInfo.reset
    CryptoEncoder.encode_direct CryptoEncoder.decode_direct CryptoEncoder.set_secret_key
    CryptoKeyExchange.set_partner_public_key CryptoKeyExchange.generate_new_key_pair
    CryptoKeyExchange.generate_shared_key PacketBuffer.template_packet PacketBuffer.set_id
    PacketBuffer.set_definition PacketBuffer.set_payload
    LinkHostAwaiting.prepare_crypto_start_request LinkHostAwaiting.set_iv
    LinkHostAwaiting.agree_on_key TestsValues.swap_pairs LinkRemote.on_remote_state_changed
    LinkRemoteAwaiting.on_validating_host LinkRemoteAwaiting.on_processing_shared_key
    LinkRemoteAwaiting.remote_on_awaiting_link LinkRemoteAwaiting.take_broadcast
    LinkRemoteAwaiting.on_id_broadcast_received LinkRemoteAwaiting.on_crypto_start_received
    LinkRemoteAwaiting.on_host_public_key_received LinkRemoteLinking.on_acked_packet_received
    LinkRemoteRuns.remote_step
linking_remote-is_linking = refl

remote_link_is_encrypted_example :
    (encode TestsValues.toy linking_remote.client.node.driver.encoder (1 ∷ 2 ∷ [])).0
    ≡ encrypt_block TestsValues.toy linking_remote.client.node.driver.encoder (1 ∷ 2 ∷ [])
remote_link_is_encrypted_example =
    remote_link_is_encrypted (platform_of 88) (platform-KeepsEncoder 88) new_remote linking_remote
      refl (reached calls) linking_remote-is_linking (1 ∷ 2 ∷ [])

remote_step-moves_example :
    Moves
      (phase_of linking_remote)
      (phase_of (remote_step (platform_of 88) (at 1300) served linking_remote))
remote_step-moves_example =
    remote_step-moves (platform_of 88) (at 1300) (platform-KeepsEncoder 88) served linking_remote
