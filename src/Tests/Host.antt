-- ===== src/Tests/Host.antt =====
-- The host of src/Services/Link from Disabled to Linking.
use lo_la.Prelude.{ℕ, true, List, [], ◌∷◌, refl, ◌≡◌, replicate, some}
use lo_la.Packet.Buffer.{Packet, template_packet}
use lo_la.Crypto.Encoder.{encode, encrypt_block}
use lo_la.Link.Service.{takes_pings}
use lo_la.Link.Service.Builders.{
  prepare_word_packet, prepare_public_key_packet, remote_pkc_start_request, remote_public_key,
}
use lo_la.Link.Host.{Host}
use lo_la.Link.Host.Runs.{LinkEvent, served, enabled, received, acknowledged, host_step}
use lo_la.Link.Machine.{Moves}
use lo_la.Link.Machine.Steps.{phase_of}
use lo_la.Link.Machine.Host.Steps.{
  HostReaches, begin, by_event, host_link_is_encrypted, host_step-moves,
}
use lo_la.Tests.LinkValues.{platform_of, at, new_host, platform-KeepsEncoder}
use lo_la.Crypto.Encoder as CryptoEncoder
use lo_la.Crypto.KeyExchange as CryptoKeyExchange
use lo_la.Link.Host as LinkHost
use lo_la.Link.Host.Awaiting as LinkHostAwaiting
use lo_la.Link.Host.Linking as LinkHostLinking
use lo_la.Link.Host.Runs as LinkHostRuns
use lo_la.Link.Info as LinkInfo
use lo_la.Link.Service as LinkService
use lo_la.Link.Service.Builders as LinkServiceBuilders
use lo_la.Link.Service.Process as LinkServiceProcess
use lo_la.Link.Service.Runtime as LinkServiceRuntime
use lo_la.Link.Service.Session as LinkServiceSession
use lo_la.Packet.Buffer as PacketBuffer
use lo_la.Services.Send as ServicesSend
use lo_la.Tests.Values as TestsValues

abbrev request : Packet
request = prepare_word_packet 9 remote_pkc_start_request 88 (template_packet 26)

abbrev partner_key : Packet
partner_key =
    prepare_public_key_packet 9 remote_public_key (some (replicate 21 3)) (template_packet 26)

-- The host after some calls, the last one first.
abbrev after : List LinkEvent → Host (List ℕ) ℕ
after [] = new_host
after (e ∷ es) = host_step (platform_of 77) (at 1000) e (after es)

abbrev calls : List LinkEvent
calls =
    served
    ∷ acknowledged 3 9
    ∷ served
    ∷ received partner_key
    ∷ served
    ∷ received request
    ∷ served
    ∷ served
    ∷ served
    ∷ enabled
    ∷ []

abbrev linking_host : Host (List ℕ) ℕ
linking_host = after calls

reached : (es : List LinkEvent) → HostReaches (platform_of 77) new_host (after es)
reached [] = begin
reached (e ∷ es) = by_event (at 1000) e (reached es)

linking_host-is_linking : takes_pings linking_host.client.info.link_state ≡ true
unfolding LinkService.get_elapsed_millis_since_state_start LinkService.send_after
    LinkService.on_ack_received LinkServiceBuilders.prepare_word_packet
    LinkServiceBuilders.prepare_public_key_packet LinkServiceSession.set_linking_state
    LinkServiceSession.clear_session LinkServiceSession.tune_to_reset_channel
    LinkServiceSession.start_driver LinkServiceSession.transmit_at_max_power
    LinkServiceSession.leave LinkServiceSession.enter_awaiting_link LinkServiceSession.change_state
    LinkServiceSession.enter LinkServiceSession.update_link_state LinkServiceProcess.process_short
    LinkServiceProcess.process_long LinkServiceProcess.process_with
    LinkServiceProcess.process_packet LinkServiceRuntime.generate_keys LinkServiceRuntime.on_service
    LinkServiceRuntime.on_enable LinkInfo.set_partner_id LinkInfo.reset CryptoEncoder.set_secret_key
    CryptoKeyExchange.clear_partner CryptoKeyExchange.set_partner_public_key
    CryptoKeyExchange.generate_new_key_pair CryptoKeyExchange.generate_shared_key
    ServicesSend.request_send_packet PacketBuffer.template_packet PacketBuffer.set_id
    PacketBuffer.set_definition PacketBuffer.set_payload LinkHostAwaiting.set_iv
    LinkHostAwaiting.agree_on_key LinkHostAwaiting.broadcast_id LinkHostAwaiting.on_broadcasting
    LinkHostAwaiting.on_validating_partner LinkHostAwaiting.on_processing_pkc
    LinkHostAwaiting.on_awaiting_link LinkHostAwaiting.on_pkc_request_received
    LinkHostAwaiting.on_remote_public_key_received LinkHost.housekeeping LinkHost.new_session
    LinkHost.on_link_state_changed LinkHostLinking.on_link_ack_received LinkHostRuns.host_step
linking_host-is_linking = refl

host_link_is_encrypted_example :
    (encode TestsValues.toy linking_host.client.node.driver.encoder (1 ∷ 2 ∷ [])).0
    ≡ encrypt_block TestsValues.toy linking_host.client.node.driver.encoder (1 ∷ 2 ∷ [])
host_link_is_encrypted_example =
    host_link_is_encrypted (platform_of 77) (platform-KeepsEncoder 77) new_host linking_host refl
      (reached calls) linking_host-is_linking (1 ∷ 2 ∷ [])

host_step-moves_example :
    Moves
      (phase_of linking_host)
      (phase_of (host_step (platform_of 77) (at 1300) served linking_host))
host_step-moves_example =
    host_step-moves (platform_of 77) (at 1300) (platform-KeepsEncoder 77) served linking_host
