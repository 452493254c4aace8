-- ===== src/Link/Host/Runs.antt =====
-- What the host runs: the tables of src/Services/Link/LoLaLinkHostService.h put into OnService,
-- ProcessPacket, ProcessAckedPacket and OnAckReceived of the base classes.
use lo_la.Prelude.{ℕ, Bool, false}
use lo_la.Packet.Buffer.{Packet}
use lo_la.Driver.Slot.{allowed_send}
use lo_la.Driver.Send.{send_packet}
use lo_la.Services.Task.{run_asap}
use lo_la.Services.Send.{Derived, schedule}
use lo_la.Link.Service.{
  Platform, Moment, LinkClient, with_driver, on_ack_received, process_acked_packet, on_send_failed,
}
use lo_la.Link.Service.Process.{PacketHandlers, no_handlers, process_packet}
use lo_la.Link.Service.Runtime.{Routines, on_service, on_enable, on_disable, on_send_ok}
use lo_la.Link.Host.{Host, HostPart, update_host_state, on_pre_send}
use lo_la.Link.Host.Awaiting.{
  on_awaiting_link, on_link_discovery_received, on_pkc_request_received,
  on_remote_public_key_received,
}
use lo_la.Link.Host.Linking.{
  on_linking, on_keeping_link, on_remote_info_sync_received, on_clock_sync_request_received,
  on_clock_sync_tune_request_received, on_ping_ack_received, on_link_ack_received,
}

-- What the base classes call: OnService, OnPreSend, OnSendFailed, OnEnable, OnDisable, OnSendOk,
-- ProcessPacket, ProcessAckedPacket and OnAckReceived.
pub data LinkEvent : Type 0 where
  served pre_sent failed enabled stopped : LinkEvent
  sent : (header : ℕ) → LinkEvent
  received acked : Packet → LinkEvent
  acknowledged : (header id : ℕ) → LinkEvent

module _ {B S : Type 0} (p : Platform B S) (m : Moment) where
  abbrev pub host_handlers : PacketHandlers (Host B S)
  host_handlers = record no_handlers {
    on_link_discovery_received = on_link_discovery_received;
    on_pkc_request_received = on_pkc_request_received;
    on_remote_public_key_received = on_remote_public_key_received;
    on_remote_info_sync_received = on_remote_info_sync_received p m;
    on_clock_sync_request_received = on_clock_sync_request_received p m;
    on_clock_sync_tune_request_received = on_clock_sync_tune_request_received p m;
  }

  abbrev pub host_routines : Routines (Host B S)
  host_routines = record {
    on_awaiting_link = on_awaiting_link p m;
    on_linking = on_linking p m;
    on_keeping_link = on_keeping_link p m;
  }

  unfoldable pub host_step : LinkEvent → Host B S → Host B S
  host_step served s = on_service p m host_routines (update_host_state p m) s
  host_step pre_sent s = on_pre_send p m s
  host_step failed s = on_send_failed s
  host_step enabled s = (on_enable (update_host_state p m) s).0
  host_step stopped s = on_disable (update_host_state p m) s
  host_step (sent header) s = on_send_ok m header s
  host_step (received packet) s = (process_packet p.rssi_ring m.millis host_handlers packet s).0
  host_step (acked packet) s = (process_acked_packet (λ packet' s'. (s', false)) packet s).0
  host_step (acknowledged header id) s =
      on_ack_received (on_ping_ack_received p m) (on_link_ack_received) header id s

  -- What IPacketSendService calls of the host: its methods, the empty ones of the base class, and
  -- AllowedSend and SendPacket of the driver.
  abbrev pub host_class : (transmit_ok : Bool) → Derived (LinkClient B S (HostPart B))
  host_class transmit_ok = record {
    on_ack_failed = λ header id s. s;
    on_ack_received = on_ack_received (on_ping_ack_received p m) on_link_ack_received;
    on_send_ok = λ header send_duration s. on_send_ok m header s;
    on_send_failed = on_send_failed;
    on_service = on_service p m host_routines (update_host_state p m);
    on_send_timed_out = schedule run_asap;
    on_send_delayed = λ s. s;
    on_send_retrying = λ s. s;
    on_pre_send = on_pre_send p m;
    allowed_send = λ c. allowed_send m.micros c.node.driver;
    send_packet = λ packet c.
        let (driver, ok) = send_packet p.crypto m.micros transmit_ok packet c.node.driver in
        (with_driver (λ d. driver) c, ok);
  }
