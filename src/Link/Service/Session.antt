-- ===== src/Link/Service/Session.antt =====
-- ClearSession, SetLinkingState and UpdateLinkState of src/Services/Link/LoLaLinkService.h.
use lo_la.Prelude.{ℕ, Bool, true, false, if◌then◌else◌, none, some, ◌==◌}
use lo_la.Crypto.Encoder
use lo_la.Crypto.KeyExchange.{clear_partner}
use lo_la.Crypto.Token.{set_seed}
use lo_la.Driver.State.{reset_statistics}
use lo_la.Driver.Power.{on_start, set_channel, set_transmit_power}
use lo_la.Services.Manager.{notify_services_link_updated}
use lo_la.Services.Task.{run_asap}
use lo_la.Services.Send.{schedule}
use lo_la.Link.Power.{power_max, set_max_power}
use lo_la.Link.Hopper.{reset_channel}
use lo_la.Link.ClockSync.{ClockSyncer, stamp_synced}
use lo_la.Link.Info.{
  LinkInfo, LinkState, disabled, setup, awaiting_link, awaiting_sleeping, linking, linked,
  update_state, stamp_link_started,
}
use lo_la.Link.Info
use lo_la.Link.Service.{
  Platform, Moment, LinkClient, Link, on_client, with_driver, reset_state_start_time,
  reset_last_sent_time_stamp,
}

-- The virtual methods of housekeeping: Reset of the syncer and of the transaction that the
-- constructor of host or remote sets, and OnClearSession.
pub record Housekeeping (P : Type 0) : Type 0 where
  pub reset_syncer : Moment → ClockSyncer → ClockSyncer
  pub reset_transaction : P → P
  pub on_clear_session : P → P

-- The number of a LinkStateEnum.
abbrev pub code : LinkState → ℕ
code disabled = 0
code setup = 1
code awaiting_link = 2
code awaiting_sleeping = 3
code linking = 4
code linked = 5

module _ {B S P : Type 0} where
  -- A call on the syncer, which works on the driver's clock.
  abbrev pub on_syncer : (ClockSyncer → ClockSyncer) → LinkClient B S P → LinkClient B S P
  on_syncer f c =
      let s = f (record (c.syncer) { synced_clock = some c.node.driver.clock }) in
      with_driver
        (λ d. record d { clock = elim s.synced_clock [ none ↦ d.clock | some clock ↦ clock ] })
        (record c { syncer = s })

  unfoldable pub set_linking_state : ℕ → Link B S P → Link B S P
  unfolding reset_last_sent_time_stamp
  set_linking_state linking_state s =
      schedule run_asap
        (on_client (λ c. reset_last_sent_time_stamp (record c { linking_state = linking_state })) s)

  module _ (p : Platform B S) (k : Housekeeping P) (m : Moment) where
    unfoldable pub clear_session : LinkClient B S P → LinkClient B S P
    clear_session c =
        let synced = on_syncer (k.reset_syncer m) (record c { report_pending = false }) in
        let (info, driver) = Info.reset p.rssi_ring synced.info synced.node.driver in
        record synced {
          info = info;
          node = record (c.node) {
            driver = record driver { encoder = Encoder.clear driver.encoder };
          };
          crypto_seed = set_seed 0 synced.crypto_seed;
          exchanger = clear_partner synced.exchanger;
          info_sync_stage = 0;
          part = k.on_clear_session (k.reset_transaction synced.part);
        }

    unfoldable pub tune_to_reset_channel : LinkClient B S P → LinkClient B S P
    tune_to_reset_channel c =
        with_driver (set_channel (reset_channel p.channel_min p.channel_max)) c

    unfoldable pub start_driver : LinkClient B S P → LinkClient B S P
    start_driver c = with_driver (on_start m.rtc_time) c

    -- SetMaxPower of the balancer, and the driver's SetTransmitPower that it calls.
    unfoldable pub transmit_at_max_power : LinkClient B S P → LinkClient B S P
    transmit_at_max_power c =
        with_driver (set_transmit_power p.map_range power_max)
          (record c { balancer = set_max_power c.balancer })

    unfoldable pub notify : Bool → LinkClient B S P → LinkClient B S P
    notify connected c = record c { node = notify_services_link_updated connected p.manager c.node }

    -- What a change of state does in the state that it leaves.
    unfoldable pub leave : LinkState → LinkClient B S P → LinkClient B S P
    leave linked c = notify false (start_driver (tune_to_reset_channel (clear_session c)))
    leave _ c = c

    unfoldable pub enter_awaiting_link : Link B S P → Link B S P
    enter_awaiting_link s = schedule run_asap (
        on_client (λ c. tune_to_reset_channel (transmit_at_max_power c))
          (set_linking_state 0 (on_client clear_session s)))

    module _ (on_link_state_changed : LinkState → Link B S P → Link B S P) where
      -- UpdateLinkState, with what its `switch` does for the new state.
      unfoldable pub change_state : (Link B S P → Link B S P) → LinkState → Link B S P → Link B S P
      unfolding reset_state_start_time reset_last_sent_time_stamp update_state
      change_state enter new_state s =
          if code s.client.info.link_state == code new_state
          then s
          else on_client (λ c. record c { info = update_state new_state c.info })
              (on_link_state_changed new_state (
                enter (
                  on_client
                    (λ c.
                      leave c.info.link_state
                        (reset_last_sent_time_stamp (reset_state_start_time m.millis c)))
                    s)))

      -- The encoder's SetEnabled has answered. The recursive call cannot recur again.
      enter_linking_from : Bool → Link B S P → Link B S P
      enter_linking_from true s = schedule run_asap s
      enter_linking_from false s = change_state enter_awaiting_link awaiting_link s

      unfoldable pub enter_linking : Link B S P → Link B S P
      unfolding enter_linking_from
      enter_linking s =
          let started = set_linking_state 0 s in
          let encoder = started.client.node.driver.encoder in
          let (enabled, ok) = Encoder.set_enabled encoder in
          enter_linking_from ok (
            on_client
              (λ c.
                with_driver (λ d. record d { encoder = enabled })
                  (record c { crypto_seed = set_seed encoder.token_seed c.crypto_seed }))
              started)

      -- StampLinkStarted, StampSynced, ResetStatistics, and the services are told.
      unfoldable pub enter_linked : Link B S P → Link B S P
      unfolding stamp_link_started
      enter_linked s = schedule run_asap (
          on_client
            (λ c.
              let (info, driver) = stamp_link_started c.info c.node.driver in
              notify true (
                with_driver reset_statistics (
                  on_syncer (stamp_synced m.millis)
                    (record c { info = info; node = record (c.node) { driver = driver } }))))
            s)

      unfoldable pub enter_disabled : Link B S P → Link B S P
      enter_disabled s =
          on_client
            (λ c.
              let (info, driver) = Info.reset p.rssi_ring c.info c.node.driver in
              record c { info = info; node = record (c.node) { driver = driver } })
            s

      unfoldable pub enter : LinkState → Link B S P → Link B S P
      enter setup s = schedule run_asap (
          on_client (λ c. start_driver (tune_to_reset_channel (clear_session c)))
            (set_linking_state 0 (on_client start_driver s)))
      enter awaiting_link s = enter_awaiting_link s
      enter awaiting_sleeping s =
          on_client (λ c. start_driver (tune_to_reset_channel c))
            (set_linking_state 0 (on_client clear_session s))
      enter linking s = enter_linking s
      enter linked s = enter_linked s
      enter disabled s = enter_disabled s

      unfoldable pub update_link_state : LinkState → Link B S P → Link B S P
      update_link_state new_state s = change_state (enter new_state) new_state s
