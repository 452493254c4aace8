-- ===== src/Link/Remote/Runs.antt =====
-- What the remote runs: the tables of src/Services/Link/LoLaLinkRemoteService.h put into OnService,
-- ProcessPacket, ProcessAckedPacket and OnAckReceived of the base classes. The remote has no method
-- of its own for an acknowledgement.

use lo_la.Prelude.{Bool}
use lo_la.Driver.Slot.{allowed_send}
use lo_la.Driver.Send.{send_packet}
use lo_la.Services.Task.{run_asap}
use lo_la.Services.Send.{Derived, schedule}
use lo_la.Link.Service.{
  Platform, Moment, LinkClient, with_driver, on_ack_received, process_acked_packet, on_send_failed,
}
use lo_la.Link.Service.Process.{PacketHandlers, no_handlers, process_packet}
use lo_la.Link.Service.Runtime.{Routines, on_service, on_enable, on_disable, on_send_ok}
use lo_la.Link.Host.Runs.{
  LinkEvent, served, pre_sent, failed, enabled, stopped, sent, received, acked, acknowledged,
}
use lo_la.Link.Remote.{RemoteLink, RemotePart, update_remote_state, remote_on_pre_send}
use lo_la.Link.Remote.Awaiting.{
  remote_on_awaiting_link, on_id_broadcast_received, on_host_public_key_received,
}
use lo_la.Link.Remote.Linking.{
  remote_on_linking, remote_on_keeping_link, on_host_info_sync_request_received,
  on_host_info_sync_received, on_clock_sync_response_received, on_clock_sync_tune_response_received,
  on_acked_packet_received,
}

module _ {B S : Type 0} (p : Platform B S) (m : Moment) where
  abbrev pub remote_handlers : PacketHandlers (RemoteLink B S)
  remote_handlers = record no_handlers {
    on_id_broadcast_received = on_id_broadcast_received p m;
    on_host_public_key_received = on_host_public_key_received;
    on_host_info_sync_request_received = on_host_info_sync_request_received;
    on_host_info_sync_received = on_host_info_sync_received p m;
    on_clock_sync_response_received = on_clock_sync_response_received p m;
    on_clock_sync_tune_response_received = on_clock_sync_tune_response_received;
  }

  abbrev pub remote_routines : Routines (RemoteLink B S)
  remote_routines = record {
    on_awaiting_link = remote_on_awaiting_link p m;
    on_linking = remote_on_linking p m;
    on_keeping_link = remote_on_keeping_link p m;
  }

  unfoldable pub remote_step : LinkEvent → RemoteLink B S → RemoteLink B S
  remote_step served s = on_service p m remote_routines (update_remote_state p m) s
  remote_step pre_sent s = remote_on_pre_send m s
  remote_step failed s = on_send_failed s
  remote_step enabled s = (on_enable (update_remote_state p m) s).0
  remote_step stopped s = on_disable (update_remote_state p m) s
  remote_step (sent header) s = on_send_ok m header s
  remote_step (received packet) s = (process_packet p.rssi_ring m.millis remote_handlers packet s).0
  remote_step (acked packet) s = (process_acked_packet (on_acked_packet_received p m) packet s).0
  remote_step (acknowledged header id) s =
      on_ack_received (λ id' s'. s') (λ header' id' s'. s') header id s

  -- What IPacketSendService calls of the remote: its methods, the empty ones of the base class, and
  -- AllowedSend and SendPacket of the driver.
  abbrev pub remote_class : (transmit_ok : Bool) → Derived (LinkClient B S RemotePart)
  remote_class transmit_ok = record {
    on_ack_failed = λ header id s. s;
    on_ack_received = on_ack_received (λ id' s'. s') (λ header' id' s'. s');
    on_send_ok = λ header send_duration s. on_send_ok m header s;
    on_send_failed = on_send_failed;
    on_service = on_service p m remote_routines (update_remote_state p m);
    on_send_timed_out = schedule run_asap;
    on_send_delayed = λ s. s;
    on_send_retrying = λ s. s;
    on_pre_send = remote_on_pre_send m;
    allowed_send = λ c. allowed_send m.micros c.node.driver;
    send_packet = λ packet c.
        let (driver, ok) = send_packet p.crypto m.micros transmit_ok packet c.node.driver in
        (with_driver (λ d. driver) c, ok);
  }
