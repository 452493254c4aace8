-- ===== src/Link/Service/Runtime.antt =====
-- OnService, OnKeepingLinkCommon, OnSendOk, OnEnable and OnDisable of
-- src/Services/Link/LoLaLinkService.h. The LED and the debug output are compiled out.
use lo_la.Prelude.{ℕ, ◌*◌, ◌/◌, Bool, true, false, ◌&&◌, ◌||◌, if◌then◌else◌, ltb, leb, ◌==◌, sub32}
use lo_la.Packet.Definition.{header_report}
use lo_la.Crypto.KeyExchange.{generate_new_key_pair}
use lo_la.Driver.State.{invalid_millis, get_elapsed_millis_last_valid_received}
use lo_la.Driver.Power.{set_transmit_power}
use lo_la.Services.Task.{run_asap, run_delayed, disable}
use lo_la.Services.Send.{schedule}
use lo_la.Link.Power.{PowerBalancer, max_panic}
use lo_la.Link.Power
use lo_la.Link.Info.{
  LinkState, disabled, setup, awaiting_link, awaiting_sleeping, linking, linked, is_linked,
  get_partner_rssi_normalized, get_partner_last_report_elapsed,
  get_local_info_update_remotely_elapsed, stamp_local_info_last_updated_remotely,
}
use lo_la.Link.Service.{
  Platform, Moment, LinkClient, Link, on_client, with_driver, check_again, request_send,
  get_elapsed_millis_since_state_start, get_elapsed_millis_since_last_sent,
}
use lo_la.Link.Service.Builders.{prepare_link_report}

-- LOLA_LINK_SERVICE_UNLINK_KEY_PAIR_LIFETIME and the further periods of src/LoLaDefinitions.h.
abbrev pub key_pair_lifetime : ℕ
key_pair_lifetime = 60000

abbrev pub max_before_linking_cancel : ℕ
max_before_linking_cancel = 200

abbrev pub max_before_disconnect : ℕ
max_before_disconnect = 3000

abbrev pub linked_resend_period : ℕ
linked_resend_period = 10 * 2 / 3

abbrev pub period_intervention : ℕ
period_intervention = 3000 * 6 / 10

abbrev pub info_update_period : ℕ
info_update_period = 3000 * 5 / 10

abbrev pub update_random_jitter_max : ℕ
update_random_jitter_max = 15

-- The virtual methods that a run of the service calls; `on_awaiting_link` answers false on time-out.
pub record Routines (L : Type 0) : Type 0 where
  pub on_awaiting_link : L → L × Bool
  pub on_linking : L → L
  pub on_keeping_link : L → L

module _ {B S P : Type 0} (m : Moment) where
  unfoldable pub on_send_ok : (header : ℕ) → Link B S P → Link B S P
  on_send_ok header s = schedule run_asap (
      on_client
        (λ c.
          let sent = record c { last_sent_millis = m.millis } in
          if header == header_report && is_linked c.info.link_state && c.report_pending
          then record sent {
            report_pending = false;
            info = stamp_local_info_last_updated_remotely m.millis c.info;
          }
          else sent)
        s)

module _ {B S P : Type 0} (p : Platform B S) (m : Moment) where
  abbrev pub received_elapsed : LinkClient B S P → ℕ
  received_elapsed c = get_elapsed_millis_last_valid_received m.micros c.node.driver

  abbrev pub rssi_of : LinkClient B S P → ℕ
  rssi_of c = p.rssi_normalized c.node.driver.last_valid_received.rssi

  -- GenerateNewKeyPair; its result is not looked at.
  unfoldable pub generate_keys : LinkClient B S P → LinkClient B S P
  generate_keys c = record c { exchanger = (generate_new_key_pair p.ecc m.key_pair c.exchanger).0 }

  -- Update of the balancer. It calls the driver when it panics and when the power changes.
  unfoldable pub update_power : LinkClient B S P → LinkClient B S P × Bool
  update_power c =
      let (balancer, changed) =
        Power.update m.millis (received_elapsed c) (get_partner_rssi_normalized p.rssi_ring c.info)
          c.balancer in
      let updated = record c { balancer = balancer } in
      (
        if changed
              || c.balancer.last_updated == invalid_millis
              || leb max_panic (received_elapsed c)
            then with_driver (set_transmit_power p.map_range balancer.driver_power) updated
            else updated,
        changed,
      )

  unfoldable pub send_report : Link B S P → Link B S P
  send_report s =
      let c = s.client in
      request_send m.millis (record s {
        packet =
            prepare_link_report
              (ltb period_intervention (get_partner_last_report_elapsed m.millis c.info))
              (rssi_of c) c.node.driver.received_count s.packet;
      })

  module _ (r : Routines (Link B S P)) where
    -- OnKeepingLinkCommon, after the balancer's update. A pending report is handled before the test
    -- for an intervention, so there the flag is clear.
    unfoldable pub keep_link : Link B S P → Link B S P
    keep_link s =
        let c = s.client in
        if c.report_pending
        then (if ltb linked_resend_period (get_elapsed_millis_since_last_sent m.millis c)
            then send_report s
            else check_again s)
        else if ltb period_intervention (received_elapsed c)
        then schedule run_asap (on_client (λ c. record c { report_pending = true }) s)
        else if ltb info_update_period (get_local_info_update_remotely_elapsed m.millis c.info)
        then schedule (run_delayed (m.random 0 update_random_jitter_max))
            (on_client (λ c. record c { report_pending = true }) s)
        else r.on_keeping_link s

    unfoldable pub on_keeping_link_common : Link B S P → Link B S P
    unfolding keep_link
    on_keeping_link_common s =
        let (c, changed) = update_power s.client in
        let updated = record s { client = c } in
        if changed then schedule run_asap updated else keep_link updated

    module _ (update_link_state : LinkState → Link B S P → Link B S P) where
      -- What OnAwaitingLink answered.
      unfoldable pub or_sleep : Link B S P × Bool → Link B S P
      or_sleep (s, true) = s
      or_sleep (s, false) = update_link_state awaiting_sleeping s

      unfoldable pub on_service_awaiting : Link B S P → Link B S P
      unfolding or_sleep
      on_service_awaiting s =
          let stamp = s.client.keys_last_generated in
          if stamp == invalid_millis || ltb key_pair_lifetime (sub32 m.millis stamp)
          then schedule run_asap
              (on_client (λ c. record (generate_keys c) { keys_last_generated = m.millis }) s)
          else or_sleep (r.on_awaiting_link s)

      unfoldable pub on_service_in : LinkState → Link B S P → Link B S P
      unfolding on_service_awaiting on_keeping_link_common
      on_service_in setup s = update_link_state awaiting_link s
      on_service_in awaiting_link s = on_service_awaiting s
      on_service_in awaiting_sleeping s = update_link_state awaiting_link s
      on_service_in linking s =
          if ltb max_before_linking_cancel (get_elapsed_millis_since_state_start m.millis s.client)
          then update_link_state awaiting_link s
          else r.on_linking s
      on_service_in linked s =
          if ltb max_before_disconnect (received_elapsed s.client)
          then update_link_state awaiting_link s
          else on_keeping_link_common s
      on_service_in disabled s = schedule disable s

      unfoldable pub on_service : Link B S P → Link B S P
      unfolding on_service_in
      on_service s = on_service_in s.client.info.link_state s

module _ {B S P : Type 0} (update_link_state : LinkState → Link B S P → Link B S P) where
  unfoldable pub on_enable : Link B S P → Link B S P × Bool
  on_enable s = (update_link_state setup s, true)

  unfoldable pub on_disable : Link B S P → Link B S P
  on_disable s = update_link_state disabled s
