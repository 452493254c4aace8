-- ===== src/Link/Machine/Service.antt =====
-- OnService, ProcessPacket and OnSendOk of src/Services/Link/LoLaLinkService.h move along the
-- machine if the methods of the derived class do.
use lo_la.Prelude.{
  ◌∙◌, ℕ, Bool, true, false, if◌then◌else◌, ◌≡◌, refl, ap, ltb, ◌==◌, ◌&&◌, ◌||◌, inl, inr,
  Bool-cases, sub32,
}
use lo_la.Packet.Definition.{header_report, header_ping_with_ack}
use lo_la.Packet.Buffer.{Packet, get_data_header}
use lo_la.Services.Send.{schedule}
use lo_la.Link.Info.{
  LinkState, disabled, setup, awaiting_link, awaiting_sleeping, linking, linked, is_linked,
  get_local_info_update_remotely_elapsed, stamp_local_info_last_updated_remotely,
}
use lo_la.Link.Service.{
  Platform, Moment, LinkClient, Link, is_awaiting_link, is_linking, with_driver, on_send_failed,
  process_acked_packet, check_again, get_elapsed_millis_since_state_start,
  get_elapsed_millis_since_last_sent,
}
use lo_la.Driver.State.{invalid_millis}
use lo_la.Driver.Power.{set_transmit_power}
use lo_la.Link.Service.Runtime.{
  Routines, update_power, linked_resend_period, period_intervention, info_update_period,
  key_pair_lifetime, max_before_linking_cancel, max_before_disconnect, received_elapsed,
  generate_keys, send_report, keep_link, on_keeping_link_common, or_sleep, on_service_awaiting,
  on_service_in, on_service, on_send_ok,
}
use lo_la.Link.Machine.{Phase, rests_from}
use lo_la.Link.Machine.Steps.{phase_of, client_stage, stage-set_transmit_power}
use lo_la.Link.Machine.Kept.{
  Goes, choose, here, kept, stays, stays_client, client-request_send, then_goes,
}

module _ {B S P : Type 0} (p : Platform B S) (m : Moment) where
  -- The balancer sets the driver's power, or does not.
  powered_if :
      (b : Bool) (c : LinkClient B S P) (value : ℕ)
      → (let d = if b then with_driver (set_transmit_power p.map_range value) c else c in
          (client_stage d ≡ client_stage c)
          × (d.info ≡ c.info)
          × (d.linking_state ≡ c.linking_state))
  powered_if true c value = (stage-set_transmit_power p.map_range value c.node.driver, refl, refl)
  powered_if false c value = (refl, refl, refl)

  powered :
      (s : Link B S P) → phase_of (record s { client = (update_power p m s.client).0 }) ≡ phase_of s
  unfolding phase_of update_power
  powered s =
      let lem = powered_if _ (record (s.client) { balancer = _ }) _ in
      λ i. record { link_state = (lem.1 i).link_state; stage = lem.2 i; encoder_stage = lem.0 i }

  client-send_report : (s : Link B S P) → (send_report p m s).client ≡ s.client
  unfolding send_report
  client-send_report s = client-request_send m.millis (record s { packet = _ })

  module _ (r : Routines (Link B S P)) (update : LinkState → Link B S P → Link B S P)
      (rests : (state : LinkState) (s : Link B S P)
        → rests_from state s.client.info.link_state ≡ true
        → Goes (phase_of s) (update state s))
      (awaits : (s : Link B S P)
        → is_awaiting_link s.client.info.link_state ≡ true
        → Goes (phase_of s) (r.on_awaiting_link s).0)
      (sleeps : (s : Link B S P) → (r.on_awaiting_link s).1 ≡ false → (r.on_awaiting_link s).0 ≡ s)
      (links : (s : Link B S P)
        → is_linking s.client.info.link_state ≡ true
        → Goes (phase_of s) (r.on_linking s))
      (keeps : (s : Link B S P) → Goes (phase_of s) (r.on_keeping_link s)) where
    keeping_goes : (s : Link B S P) → Goes (phase_of s) (keep_link p m r s)
    unfolding keep_link check_again schedule phase_of
    keeping_goes s =
        let c = s.client in
        choose c.report_pending
          (λ e.
            choose (ltb linked_resend_period (get_elapsed_millis_since_last_sent m.millis c))
              (λ t. stays_client s (client-send_report s)) (λ f. stays s refl))
          (λ e.
            choose (ltb period_intervention (received_elapsed p m c)) (λ t. stays s refl)
              (λ f.
                choose
                  (ltb info_update_period (get_local_info_update_remotely_elapsed m.millis c.info))
                  (λ t. stays s refl) (λ g. keeps s)))

    common_goes : (s : Link B S P) → Goes (phase_of s) (on_keeping_link_common p m r s)
    unfolding on_keeping_link_common schedule phase_of
    common_goes s =
        let updated = record s { client = (update_power p m s.client).0 } in
        let here_too = stays s {t = updated} (powered s) in
        choose (update_power p m s.client).1 (λ e. kept {s = updated} refl here_too)
          (λ e. then_goes (powered s) (keeping_goes updated))

    slept :
        {x : Phase} (t : Link B S P × Bool)
        → Goes x t.0
        → is_awaiting_link x.link_state ≡ true
        → (t.1 ≡ false → phase_of t.0 ≡ x)
        → Goes x (or_sleep p m r update t)
    unfolding or_sleep phase_of
    slept (t, true) g a same = g
    slept (t, false) g a same =
        then_goes (same refl)
          (rests awaiting_sleeping t (ap (λ y. is_awaiting_link y.link_state) (same refl) ∙ a))

    awaiting_goes :
        (s : Link B S P)
        → is_awaiting_link s.client.info.link_state ≡ true
        → Goes (phase_of s) (on_service_awaiting p m r update s)
    unfolding on_service_awaiting generate_keys phase_of schedule
    awaiting_goes s a =
        let stamp = s.client.keys_last_generated in
        choose (stamp == invalid_millis || ltb key_pair_lifetime (sub32 m.millis stamp))
          (λ e. stays s refl)
          (λ e. slept (r.on_awaiting_link s) (awaits s a) a (λ h. ap phase_of (sleeps s h)))

    in_goes :
        (state : LinkState) (s : Link B S P)
        → s.client.info.link_state ≡ state
        → Goes (phase_of s) (on_service_in p m r update state s)
    unfolding on_service_in schedule phase_of
    in_goes setup s e = rests awaiting_link s (ap (rests_from awaiting_link) e)
    in_goes awaiting_link s e = awaiting_goes s (ap is_awaiting_link e)
    in_goes awaiting_sleeping s e = rests awaiting_link s (ap (rests_from awaiting_link) e)
    in_goes linking s e =
        choose
          (ltb max_before_linking_cancel (get_elapsed_millis_since_state_start m.millis s.client))
          (λ t. rests awaiting_link s (ap (rests_from awaiting_link) e))
          (λ f. links s (ap is_linking e))
    in_goes linked s e =
        choose (ltb max_before_disconnect (received_elapsed p m s.client))
          (λ t. rests awaiting_link s (ap (rests_from awaiting_link) e)) (λ f. common_goes s)
    in_goes disabled s e = stays s refl

    pub service-goes : (s : Link B S P) → Goes (phase_of s) (on_service p m r update s)
    unfolding on_service
    service-goes s = in_goes s.client.info.link_state s refl

module _ {B S P : Type 0} where
  pub on_send_failed-goes : (s : Link B S P) → Goes (phase_of s) (on_send_failed s)
  unfolding on_send_failed schedule phase_of
  on_send_failed-goes s = stays s refl

  pub on_send_ok-goes :
      (m : Moment) (header : ℕ) (s : Link B S P) → Goes (phase_of s) (on_send_ok m header s)
  unfolding on_send_ok schedule phase_of stamp_local_info_last_updated_remotely
  on_send_ok-goes m header s =
      let c = s.client in
      elim (Bool-cases
        (header == header_report && is_linked c.info.link_state && c.report_pending)) [
          | inl e ↦ rw e (stays s refl)
          | inr e ↦ rw e (stays s refl)
        ]

  pub process_acked_packet-goes :
      (f : Packet → Link B S P → Link B S P × Bool)
      → ((packet : Packet) (s : Link B S P) → Goes (phase_of s) (f packet s).0)
      → (packet : Packet) (s : Link B S P) → Goes (phase_of s) (process_acked_packet f packet s).0
  unfolding process_acked_packet
  process_acked_packet-goes f go packet s =
      elim (Bool-cases (get_data_header packet == header_ping_with_ack)) [
        | inl e ↦ rw e here
        | inr e ↦ rw e (go packet s)
      ]
