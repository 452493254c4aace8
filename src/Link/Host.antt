-- ===== src/Link/Host.antt =====
-- src/Services/Link/LoLaLinkHostService.h: its state, OnClearSession, OnLinkStateChanged, NewSession
-- and OnPreSend. The libraries and what a run finds outside are `p` and `m`.
pub mod Awaiting
pub mod Linking
pub mod Runs
use lo_la.Prelude.{ℕ, Bool, true, false, ◌&&◌, if◌then◌else◌, ◌==◌, u32_max}
use lo_la.Packet.Definition.{header_ping_with_ack}
use lo_la.Packet.Buffer.{get_data_header, get_id}
use lo_la.Driver.State.{invalid_millis}
use lo_la.Services.Task.{run_delayed}
use lo_la.Services.Send.{schedule}
use lo_la.Link.RingBuffer.{RingBuffer}
use lo_la.Link.Latency.{LatencyMeter, on_ack_packet_sent}
use lo_la.Link.Latency
use lo_la.Link.Transaction.{ResponseTransaction, reset_response}
use lo_la.Link.ClockSync.Host as HostSyncer
use lo_la.Link.Info.{LinkState, awaiting_link, awaiting_sleeping, linking, linked, set_session_id}
use lo_la.Link.Service.{Platform, Moment, LinkClient, Link, on_client, is_linking}
use lo_la.Link.Service.Session.{Housekeeping, clear_session, set_linking_state, update_link_state}
use lo_la.Link.Service.Runtime.{update_random_jitter_max}

pub record HostPart (B : Type 0) : Type 0 where
  pub response : ResponseTransaction
  pub ping_acked : Bool
  pub latency : LatencyMeter B
  pub session_last_started : ℕ

abbrev pub Host : (B S : Type 0) → Type 0
Host B S = Link B S (HostPart B)

-- AwaitingLinkEnum
abbrev pub broadcasting_open_session : ℕ
broadcasting_open_session = 0

abbrev pub validating_partner : ℕ
validating_partner = 1

abbrev pub sending_public_key : ℕ
sending_public_key = 2

abbrev pub processing_pkc : ℕ
processing_pkc = 3

abbrev pub got_shared_key : ℕ
got_shared_key = 4

abbrev pub linking_switch_over : ℕ
linking_switch_over = 5

-- LinkingStagesEnum
abbrev pub info_sync_stage : ℕ
info_sync_stage = 0

abbrev pub clock_sync_stage : ℕ
clock_sync_stage = 1

abbrev pub link_protocol_switch_over : ℕ
link_protocol_switch_over = 2

abbrev pub linking_done : ℕ
linking_done = 3

-- InfoSyncStagesEnum
abbrev pub awaiting_latency_measurement : ℕ
awaiting_latency_measurement = 0

abbrev pub sending_info_request : ℕ
sending_info_request = 1

abbrev pub sending_host_info : ℕ
sending_host_info = 2

unfoldable pub on_clear_session : {B : Type 0} → RingBuffer B → HostPart B → HostPart B
on_clear_session ring h = record h {
  latency = Latency.reset ring h.latency;
  session_last_started = invalid_millis;
}

-- `random(INT32_MAX)` of the syncer is a draw up to 2147483647.
unfoldable pub housekeeping : {B : Type 0} → RingBuffer B → Housekeeping (HostPart B)
unfolding on_clear_session
housekeeping ring = record {
  reset_syncer = λ m s. HostSyncer.reset (m.random 0 2147483647) s;
  reset_transaction = λ h. record h { response = reset_response h.response };
  on_clear_session = on_clear_session ring;
}

abbrev pub on_part : {B S : Type 0} → (HostPart B → HostPart B) → Host B S → Host B S
on_part f s = on_client (λ c. record c { part = f c.part }) s

module _ {B S : Type 0} (p : Platform B S) (m : Moment) where
  abbrev pub clear_host : Host B S → Host B S
  clear_host s = on_client (clear_session p (housekeeping p.rssi_ring) m) s

  unfoldable pub new_session : Host B S → Host B S
  unfolding set_session_id
  new_session s =
      on_client (λ c. record c { info = (set_session_id (m.random 1 254) c.info).0 }) (clear_host s)

  unfoldable pub on_link_state_changed : LinkState → Host B S → Host B S
  on_link_state_changed awaiting_link s = new_session s
  on_link_state_changed awaiting_sleeping s = schedule (run_delayed u32_max) s
  on_link_state_changed linking s =
      on_client (λ c. record c { info_sync_stage = awaiting_latency_measurement }) s
  on_link_state_changed linked s =
      on_part (λ h. record h { response = reset_response h.response }) s
  on_link_state_changed _ s = s

  abbrev pub update_host_state : LinkState → Host B S → Host B S
  update_host_state new_state s =
      update_link_state p (housekeeping p.rssi_ring) m on_link_state_changed new_state s

  unfoldable pub restart_awaiting_link : Host B S → Host B S
  restart_awaiting_link s =
      schedule (run_delayed (m.random 0 update_random_jitter_max))
        (set_linking_state broadcasting_open_session s)

  -- `ClearSession(); RestartAwaitingLink();`
  unfoldable pub give_up : Host B S → Host B S
  unfolding restart_awaiting_link
  give_up s = restart_awaiting_link (clear_host s)

  unfoldable pub on_pre_send : Host B S → Host B S
  unfolding get_data_header get_id
  on_pre_send s =
      if is_linking s.client.info.link_state
        && s.client.linking_state == info_sync_stage
        && get_data_header s.packet == header_ping_with_ack
      then on_part
          (λ h. record h {
            latency = on_ack_packet_sent p.rssi_ring m.micros (get_id s.packet) h.latency;
          })
          s
      else s
