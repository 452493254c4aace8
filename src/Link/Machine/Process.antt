-- ===== src/Link/Machine/Process.antt =====
-- ProcessPacket of src/Services/Link/LoLaLinkService.h moves along the machine if the methods for
-- the packets do.
use lo_la.Prelude.{ℕ, Bool, true, false, refl, ◌==◌, List, Bool-cases, inl, inr}
use lo_la.Packet.Definition.{header_short, header_long, header_report}
use lo_la.Packet.Buffer.{Packet, get_data_header, get_id, get_payload}
use lo_la.Services.Send.{schedule}
use lo_la.Link.RingBuffer.{RingBuffer}
use lo_la.Link.Info.{is_linked}
use lo_la.Link.Info
use lo_la.Link.Service.{Link}
use lo_la.Link.Service.Builders.{
  link_discovery, host_id_broadcast, host_public_key, remote_pkc_start_request, remote_public_key,
  info_sync_request, info_sync_host, ntp_reply, info_sync_remote, ntp_request, ntp_tune_request,
  ntp_tune_reply, link_report, link_report_with_reply,
}
use lo_la.Link.Service.Process.{
  PacketHandlers, process_packet, process_short, process_long, process_report, process_with,
  on_report_received, on_link_info_report_received,
}
use lo_la.Link.Machine.Steps.{phase_of}
use lo_la.Link.Machine.Kept.{Goes, choose, stays}

-- Every method for a packet ends at the end of a move.
pub record HandlersGo {B S P : Type 0} (h : PacketHandlers (Link B S P)) : Type 0 where
  pub discovery_goes : (s : Link B S P) → Goes (phase_of s) (h.on_link_discovery_received s)
  pub pkc_goes : (i w : ℕ) (s : Link B S P) → Goes (phase_of s) (h.on_pkc_request_received i w s)
  pub remote_key_goes :
      (i : ℕ) (k : List ℕ) (s : Link B S P)
      → Goes (phase_of s) (h.on_remote_public_key_received i k s)
  pub remote_info_goes :
      (r : ℕ) (s : Link B S P) → Goes (phase_of s) (h.on_remote_info_sync_received r s)
  pub info_request_goes :
      (s : Link B S P) → Goes (phase_of s) (h.on_host_info_sync_request_received s)
  pub clock_request_goes :
      (i w : ℕ) (s : Link B S P) → Goes (phase_of s) (h.on_clock_sync_request_received i w s)
  pub tune_request_goes :
      (i w : ℕ) (s : Link B S P) → Goes (phase_of s) (h.on_clock_sync_tune_request_received i w s)
  pub broadcast_goes :
      (i w : ℕ) (s : Link B S P) → Goes (phase_of s) (h.on_id_broadcast_received i w s)
  pub host_key_goes :
      (i : ℕ) (k : List ℕ) (s : Link B S P)
      → Goes (phase_of s) (h.on_host_public_key_received i k s)
  pub host_info_goes :
      (r t : ℕ) (s : Link B S P) → Goes (phase_of s) (h.on_host_info_sync_received r t s)
  pub clock_response_goes :
      (i w : ℕ) (s : Link B S P) → Goes (phase_of s) (h.on_clock_sync_response_received i w s)
  pub tune_response_goes :
      (i w : ℕ) (s : Link B S P) → Goes (phase_of s) (h.on_clock_sync_tune_response_received i w s)

module _ {B S P : Type 0} (handlers : PacketHandlers (Link B S P)) (go : HandlersGo handlers) where
  short_goes :
      (packet : Packet) (s : Link B S P) → Goes (phase_of s) (process_short handlers packet s)
  unfolding process_short
  short_goes packet s =
      let h = get_payload 0 packet in
      choose (h == link_discovery) (λ e. go.discovery_goes s)
        (λ e.
          choose (h == remote_pkc_start_request) (λ e. go.pkc_goes _ _ s)
            (λ e.
              choose (h == host_id_broadcast) (λ e. go.broadcast_goes _ _ s)
                (λ e.
                  choose (h == ntp_request) (λ e. go.clock_request_goes _ _ s)
                    (λ e.
                      choose (h == ntp_reply) (λ e. go.clock_response_goes _ _ s)
                        (λ e.
                          choose (h == ntp_tune_request) (λ e. go.tune_request_goes _ _ s)
                            (λ e.
                              choose (h == ntp_tune_reply) (λ e. go.tune_response_goes _ _ s)
                                (λ e. stays s refl)))))))

  long_goes :
      (packet : Packet) (s : Link B S P) → Goes (phase_of s) (process_long handlers packet s)
  unfolding process_long
  long_goes packet s =
      let h = get_payload 0 packet in
      choose (h == remote_public_key) (λ e. go.remote_key_goes _ _ s)
        (λ e. choose (h == host_public_key) (λ e. go.host_key_goes _ _ s) (λ e. stays s refl))

  module _ (ring : RingBuffer B) (millis : ℕ) where
    report_received_goes :
        (with_reply : Bool) (rssi count : ℕ) (s : Link B S P)
        → Goes (phase_of s) (on_report_received ring millis with_reply rssi count s)
    unfolding on_report_received on_link_info_report_received phase_of schedule
        Info.stamp_partner_info_updated Info.set_partner_rssi_normalized
        Info.set_partner_received_count
    report_received_goes true rssi count s =
        choose (is_linked s.client.info.link_state) (λ e. stays s refl) (λ e. stays s refl)
    report_received_goes false rssi count s =
        choose (is_linked s.client.info.link_state) (λ e. stays s refl) (λ e. stays s refl)

    report_goes :
        (packet : Packet) (s : Link B S P)
        → Goes (phase_of s) (process_report handlers (on_report_received ring millis) packet s)
    unfolding process_report
    report_goes packet s =
        let i = get_id packet in
        choose (i == link_report_with_reply) (λ e. report_received_goes true _ _ s)
          (λ e.
            choose (i == link_report) (λ e. report_received_goes false _ _ s)
              (λ e.
                choose (i == info_sync_host) (λ e. go.host_info_goes _ _ s)
                  (λ e.
                    choose (i == info_sync_remote) (λ e. go.remote_info_goes _ s)
                      (λ e.
                        choose (i == info_sync_request) (λ e. go.info_request_goes s)
                          (λ e. stays s refl)))))

    pub process_packet-goes :
        (packet : Packet) (s : Link B S P)
        → Goes (phase_of s) (process_packet ring millis handlers packet s).0
    unfolding process_packet process_with
    process_packet-goes packet s =
        let h = get_data_header packet in
        elim (Bool-cases (h == header_short)) [
          | inl e ↦ rw e (short_goes packet s)
          | inr e ↦ rw e (elim (Bool-cases (h == header_long)) [
            | inl f ↦ rw f (long_goes packet s)
            | inr f ↦ rw f (elim (Bool-cases (h == header_report)) [
              | inl g ↦ rw g (report_goes packet s)
              | inr g ↦ rw g (stays s refl)
            ])
          ])
        ]
