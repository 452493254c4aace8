-- ===== src/Link/Remote.antt =====
-- src/Services/Link/LoLaLinkRemoteService.h: its state, OnLinkStateChanged and OnPreSend.
pub mod Awaiting
pub mod Linking
pub mod Runs
use lo_la.Prelude.{ℕ, ◌+◌, Bool, true, false, ◌&&◌, ◌||◌, if◌then◌else◌, ◌==◌, u32}
use lo_la.Packet.Definition.{header_short}
use lo_la.Packet.Buffer.{get_data_header, get_payload}
use lo_la.Driver.Clock.{get_sync_micros}
use lo_la.Services.Task.{run_delayed}
use lo_la.Services.Send.{schedule}
use lo_la.Link.Transaction.{RequestTransaction}
use lo_la.Link.Transaction
use lo_la.Link.ClockSync.Remote.{set_ready_for_estimation}
use lo_la.Link.ClockSync.Remote as RemoteSyncer
use lo_la.Link.Info.{LinkState, awaiting_link, awaiting_sleeping, linking, linked}
use lo_la.Link.Service.{Platform, Moment, LinkClient, Link, on_client}
use lo_la.Link.Service.Builders.{ntp_request, ntp_tune_request, s_array_to_payload}
use lo_la.Link.Service.Session.{
  Housekeeping, clear_session, set_linking_state, update_link_state, on_syncer,
}
use lo_la.Link.Service.Runtime.{generate_keys}

pub record RemotePart : Type 0 where
  pub request : RequestTransaction

abbrev pub RemoteLink : (B S : Type 0) → Type 0
RemoteLink B S = Link B S RemotePart

-- AwaitingLinkEnum
abbrev pub searching_for_host : ℕ
searching_for_host = 0

abbrev pub remote_validating_partner : ℕ
remote_validating_partner = 1

abbrev pub awaiting_host_public_key : ℕ
awaiting_host_public_key = 2

abbrev pub processing_shared_key : ℕ
processing_shared_key = 3

abbrev pub remote_sending_public_key : ℕ
remote_sending_public_key = 4

abbrev pub remote_switch_over : ℕ
remote_switch_over = 5

-- InfoSyncStagesEnum
abbrev pub awaiting_host_request : ℕ
awaiting_host_request = 0

abbrev pub sending_remote_info : ℕ
sending_remote_info = 1

abbrev pub info_sync_done : ℕ
info_sync_done = 2

-- LOLA_LINK_SERVICE_UNLINK_REMOTE_SLEEP_PERIOD
abbrev pub remote_sleep_period : ℕ
remote_sleep_period = 3000

-- OnClearSession is that of the base class, which does nothing.
unfoldable pub remote_housekeeping : Housekeeping RemotePart
remote_housekeeping = record {
  reset_syncer = λ m s. RemoteSyncer.reset s;
  reset_transaction = λ r. record r { request = Transaction.reset r.request };
  on_clear_session = λ r. r;
}

abbrev pub on_request :
    {B S : Type 0} → (RequestTransaction → RequestTransaction) → RemoteLink B S → RemoteLink B S
on_request f s =
    on_client (λ c. record c { part = record (c.part) { request = f c.part.request } }) s

module _ {B S : Type 0} (p : Platform B S) (m : Moment) where
  abbrev pub clear_remote : RemoteLink B S → RemoteLink B S
  clear_remote s = on_client (clear_session p remote_housekeeping m) s

  unfoldable pub on_remote_state_changed : LinkState → RemoteLink B S → RemoteLink B S
  on_remote_state_changed awaiting_link s = on_client (generate_keys p m) s
  on_remote_state_changed awaiting_sleeping s = schedule (run_delayed remote_sleep_period) s
  on_remote_state_changed linking s =
      on_client (λ c. record c { info_sync_stage = awaiting_host_request }) s
  on_remote_state_changed linked s =
      on_request Transaction.reset (on_client (on_syncer (set_ready_for_estimation m.millis)) s)
  on_remote_state_changed _ s = s

  abbrev pub update_remote_state : LinkState → RemoteLink B S → RemoteLink B S
  update_remote_state new_state s =
      update_link_state p remote_housekeeping m on_remote_state_changed new_state s

  -- `ClearSession(); SetLinkingState(AwaitingLinkEnum::SearchingForHost);`
  unfoldable pub search_again : RemoteLink B S → RemoteLink B S
  search_again s = set_linking_state searching_for_host (clear_remote s)

-- A clock sync request gets the clock as late as possible.
unfoldable pub remote_on_pre_send : {B S : Type 0} → Moment → RemoteLink B S → RemoteLink B S
unfolding get_data_header get_payload get_sync_micros
remote_on_pre_send m s =
    let d = s.client.node.driver in
    if get_data_header s.packet == header_short
      && (get_payload 0 s.packet == ntp_request || get_payload 0 s.packet == ntp_tune_request)
    then record s {
      packet = s_array_to_payload (u32 (get_sync_micros m.micros d.clock + d.ettm)) s.packet;
    }
    else s
