-- ===== src/Link/Info.antt =====
-- src/LoLaLinkInfo.h, after SetDriver: the driver, which the source holds by a pointer, stands
-- beside the state. The local MAC (src/LoLaCrypto/PseudoMacGenerator.h), the signal to the
-- listeners and the getters that only pass on a value of the driver are not here.
pub mod Session
use lo_la.Prelude.{
  ℕ, zero, suc, ◌+◌, ◌*◌, ◌-◌, ◌/◌, ◌%◌, max, Bool, true, false, not, ◌&&◌, if◌then◌else◌, ltb,
  ◌==◌, u8, u16, u32, sub32, u8_max,
}
use lo_la.Driver.Clock.{get_time_seconds}
use lo_la.Driver.State.{
  Driver, invalid_millis, set_ettm, set_link_status, reset_live_data,
  get_elapsed_millis_last_valid_received, get_elapsed_millis_last_valid_sent,
}
use lo_la.Link.RingBuffer.{RingBuffer}
use lo_la.Link.Latency.{invalid_latency, drain, sum_from}

pub data LinkState : Type 0 where
  disabled setup awaiting_link awaiting_sleeping linking linked : LinkState

abbrev pub invalid_session : ℕ
invalid_session = 0

pub record LinkInfo (B : Type 0) : Type 0 where
  pub link_state : LinkState
  pub rtt : ℕ
  pub link_started_seconds : ℕ
  pub partner_info_last_updated : ℕ
  pub partner_info_last_updated_remotely : ℕ
  pub partner_rssi_samples : B
  pub partner_received_count : ℕ
  pub session_id : ℕ
  pub partner_id_present : Bool
  pub partner_id : ℕ
  pub clock_sync_adjustments : ℕ

abbrev elapsed_from : (millis stamp : ℕ) → ℕ
elapsed_from millis stamp =
    if not (stamp == invalid_millis) then sub32 millis stamp else invalid_millis

abbrev pub is_linked : LinkState → Bool
is_linked linked = true
is_linked _ = false

unfoldable pub get_last_activity_elapsed_millis : ℕ → Driver → ℕ
get_last_activity_elapsed_millis micros d =
    if ltb (get_elapsed_millis_last_valid_sent micros d)
      (get_elapsed_millis_last_valid_received micros d)
    then get_elapsed_millis_last_valid_sent micros d
    else get_elapsed_millis_last_valid_received micros d

module _ {B : Type 0} where
  unfoldable pub clear_remote_id : LinkInfo B → LinkInfo B
  clear_remote_id i = record i { partner_id_present = false }

  unfoldable pub set_partner_id : ℕ → LinkInfo B → LinkInfo B
  set_partner_id id i = record i { partner_id = u32 id; partner_id_present = true }

  -- A number as a condition: it is not 0.
  unfoldable pub has_partner_id : LinkInfo B → Bool
  has_partner_id i = not (i.partner_id == 0)

  unfoldable pub set_session_id : ℕ → LinkInfo B → LinkInfo B × Bool
  set_session_id session_id i =
      (record i { session_id = u8 session_id }, not (u8 session_id == invalid_session))

  unfoldable pub has_session_id : LinkInfo B → Bool
  has_session_id i = not (i.session_id == invalid_session)

  unfoldable pub has_session : LinkInfo B → Bool
  unfolding has_session_id has_partner_id
  has_session i = has_session_id i && has_partner_id i

  unfoldable pub stamp_clock_sync_adjustment : LinkInfo B → LinkInfo B
  stamp_clock_sync_adjustment i = record i {
    clock_sync_adjustments = u32 (i.clock_sync_adjustments + 1);
  }

  unfoldable pub stamp_partner_info_updated : ℕ → LinkInfo B → LinkInfo B
  stamp_partner_info_updated millis i = record i { partner_info_last_updated = millis }

  unfoldable pub stamp_local_info_last_updated_remotely : ℕ → LinkInfo B → LinkInfo B
  stamp_local_info_last_updated_remotely millis i = record i {
    partner_info_last_updated_remotely = millis;
  }

  unfoldable pub get_local_info_update_remotely_elapsed : ℕ → LinkInfo B → ℕ
  get_local_info_update_remotely_elapsed millis i =
      elapsed_from millis i.partner_info_last_updated_remotely

  unfoldable pub get_partner_last_report_elapsed : ℕ → LinkInfo B → ℕ
  get_partner_last_report_elapsed millis i = elapsed_from millis i.partner_info_last_updated

  unfoldable pub update_state : LinkState → LinkInfo B → LinkInfo B
  update_state new_state i = record i { link_state = new_state }

  unfoldable pub has_latency : LinkInfo B → Bool
  has_latency i = not (i.rtt == invalid_latency)

  unfoldable pub set_rtt : ℕ → LinkInfo B → Driver → LinkInfo B × Driver
  unfolding set_ettm
  set_rtt rtt_micros i d =
      let rtt = u32 rtt_micros in (record i { rtt = rtt }, set_ettm (u32 (rtt * 8) / 20) d)

  unfoldable pub get_rtt : LinkInfo B → ℕ
  get_rtt i = u16 i.rtt

  unfoldable pub get_link_duration_seconds : LinkInfo B → Driver → ℕ
  get_link_duration_seconds i d =
      if is_linked i.link_state then sub32 (get_time_seconds d.clock) i.link_started_seconds else 0

  unfoldable pub stamp_link_started : LinkInfo B → Driver → LinkInfo B × Driver
  unfolding set_link_status
  stamp_link_started i d =
      (record i { link_started_seconds = get_time_seconds d.clock }, set_link_status true d)

  -- The larger of the count and the transmissions modulo 255, less the count.
  unfoldable pub get_lost_count : LinkInfo B → Driver → ℕ
  get_lost_count i d =
      u8 (max i.partner_received_count (d.transmited_count % u8_max) - i.partner_received_count)

  unfoldable pub set_partner_received_count : ℕ → LinkInfo B → LinkInfo B
  set_partner_received_count count i = record i { partner_received_count = u8 count }

  module _ (ring : RingBuffer B) where
    unfoldable pub reset : LinkInfo B → Driver → LinkInfo B × Driver
    unfolding reset_live_data set_link_status
    reset i d = (
      record i {
        session_id = invalid_session;
        partner_id_present = false;
        link_started_seconds = 0;
        rtt = invalid_latency;
        partner_rssi_samples =
            drain ring (ring.num_elements i.partner_rssi_samples) i.partner_rssi_samples;
        partner_received_count = 0;
        clock_sync_adjustments = 0;
      },
      reset_live_data (set_link_status false d),
    )

    unfoldable pub set_partner_rssi_normalized : ℕ → LinkInfo B → LinkInfo B
    set_partner_rssi_normalized rssi_normalized i = record i {
      partner_rssi_samples = ring.add_force (u8 rssi_normalized) i.partner_rssi_samples;
    }

    unfoldable pub has_partner_rssi : LinkInfo B → Bool
    has_partner_rssi i = not (ring.is_empty i.partner_rssi_samples)

    unfoldable pub get_partner_rssi_normalized : LinkInfo B → ℕ
    get_partner_rssi_normalized i =
        let b = i.partner_rssi_samples in
        if ring.is_empty b
        then 0
        else u8 (sum_from ring (ring.num_elements b) 0 0 b / ring.num_elements b)
