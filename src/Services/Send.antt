-- ===== src/Services/Send.antt =====
-- src/Services/IPacketSendService.h: a service with one packet to send. `client` is the state of
-- the deriving class and of the driver; its virtual methods, and the driver's AllowedSend and
-- SendPacket, are the record `Derived`.
pub mod Progress
use lo_la.Prelude.{
  ℕ, ◌+◌, ◌-◌, min, Bool, true, false, not, ◌&&◌, ◌||◌, if◌then◌else◌, Option, none, some, is_some,
  List, ◌∷◌, ltb, ◌==◌, u8, sub32, u32_max,
}
use lo_la.Packet.Definition.{PacketDefinition, has_ack}
use lo_la.Packet.Buffer.{Packet, get_data_header, get_id, clear_definition}
use lo_la.Services.Task.{TaskCall, run_asap, run_delayed}

pub data SendStatus : Type 0 where
  done sending_packet waiting_for_sent_ok sent_ok send_failed waiting_for_ack ack_ok ack_failed :
      SendStatus

-- ILOLA_INVALID_MILLIS, LOLA_SEND_SERVICE_DENIED_MAX_FAILS and LOLA_SEND_SERVICE_CHECK_PERIOD_MILLIS.
abbrev pub invalid_millis : ℕ
invalid_millis = u32_max

abbrev pub denied_max_fails : ℕ
denied_max_fails = 3

abbrev pub check_period_millis : ℕ
check_period_millis = 1

pub record Sender (C : Type 0) : Type 0 where
  pub send_status : SendStatus
  pub send_failures : ℕ
  pub send_start_millis : ℕ
  pub send_time_out_duration : ℕ
  pub ack_time_out_duration : ℕ
  pub packet : Packet
  pub tasks : List TaskCall
  pub client : C

pub record Derived (C : Type 0) : Type 0 where
  pub on_ack_failed : (header id : ℕ) → Sender C → Sender C
  pub on_ack_received : (header id : ℕ) → Sender C → Sender C
  pub on_send_ok : (header send_duration : ℕ) → Sender C → Sender C
  pub on_send_failed : Sender C → Sender C
  pub on_service : Sender C → Sender C
  pub on_send_timed_out : Sender C → Sender C
  pub on_send_delayed : Sender C → Sender C
  pub on_send_retrying : Sender C → Sender C
  pub on_pre_send : Sender C → Sender C
  pub allowed_send : C → Bool
  pub send_packet : Packet → C → C × Bool

abbrev pub is_done : SendStatus → Bool
is_done done = true
is_done _ = false

abbrev pub is_waiting_for_sent_ok : SendStatus → Bool
is_waiting_for_sent_ok waiting_for_sent_ok = true
is_waiting_for_sent_ok _ = false

abbrev pub is_waiting_for_ack : SendStatus → Bool
is_waiting_for_ack waiting_for_ack = true
is_waiting_for_ack _ = false

-- `Packet->GetDefinition()->HasACK()`. C++ leaves a null definition, which only OnSendOk could have
-- set meanwhile, undefined; here it wants none.
abbrev pub wants_ack : Option PacketDefinition → Bool
wants_ack none = false
wants_ack (some d) = has_ack d

module _ {C : Type 0} where
  unfoldable pub schedule : TaskCall → Sender C → Sender C
  schedule call s = record s { tasks = call ∷ s.tasks }

  unfoldable pub has_send_pending : Sender C → Bool
  has_send_pending s = is_some s.packet.definition

  unfoldable pub clear_send_request : Sender C → Sender C
  unfolding schedule clear_definition
  clear_send_request s = schedule run_asap (record s {
    packet = clear_definition s.packet;
    send_start_millis = invalid_millis;
    send_status = done;
  })

  unfoldable pub request_send_packet :
      (millis send_time_out_millis ack_time_out_millis : ℕ) → Sender C → Sender C
  unfolding has_send_pending schedule
  request_send_packet millis send_time_out_millis ack_time_out_millis s = schedule run_asap (
      if has_send_pending s
      then record s {
        send_start_millis = millis;
        send_time_out_duration = u8 send_time_out_millis;
        ack_time_out_duration = u8 ack_time_out_millis;
        send_failures = 0;
        send_status = sending_packet;
      }
      else s)

  unfoldable pub process_sent : ℕ → Sender C → Sender C × Bool
  unfolding has_send_pending schedule get_data_header
  process_sent header s =
      if has_send_pending s
        && get_data_header s.packet == header
        && is_waiting_for_sent_ok s.send_status
      then (schedule run_asap (record s { send_status = sent_ok }), true)
      else (s, false)

  -- A packet with our header is ours to eat, also when no acknowledgement is awaited.
  unfoldable pub process_ack : (header id : ℕ) → Sender C → Sender C × Bool
  unfolding has_send_pending schedule get_data_header get_id
  process_ack header id s =
      if get_data_header s.packet == header
      then (if is_waiting_for_ack s.send_status && has_send_pending s
          then (if get_id s.packet == id
              then (schedule run_asap (record s { send_status = ack_ok }), true)
              else (s, false))
          else (s, true))
      else (s, false)

  module _ (derived : Derived C) (millis : ℕ) where
    -- The time since the request, `millis() - SendStartMillis`.
    abbrev pub elapsed : Sender C → ℕ
    elapsed s = sub32 millis s.send_start_millis

    -- After SendPacket, with its result. `constrain(elapsed, 0, duration)` is the lesser of the two.
    unfoldable pub after_send : Bool → Sender C → Sender C
    unfolding schedule
    after_send true s =
        schedule (run_delayed (s.send_time_out_duration - min (elapsed s) s.send_time_out_duration))
          (record s { send_status = waiting_for_sent_ok })
    after_send false s =
        let failed = record s { send_failures = u8 (s.send_failures + 1) } in
        if ltb denied_max_fails failed.send_failures
        then schedule run_asap (record failed { send_status = send_failed })
        else derived.on_send_retrying (schedule (run_delayed check_period_millis) failed)

    unfoldable pub on_sending : Sender C → Sender C
    unfolding clear_send_request schedule
    on_sending s =
        if s.send_start_millis == invalid_millis || ltb s.send_time_out_duration (elapsed s)
        then clear_send_request (derived.on_send_timed_out s)
        else if not (derived.allowed_send s.client)
        then derived.on_send_delayed (schedule (run_delayed check_period_millis) s)
        else let ready = derived.on_pre_send s in
          let (client, sent) = derived.send_packet ready.packet ready.client in
          after_send sent (record ready { client = client })

    unfoldable pub after_sent_ok : Sender C → Sender C
    unfolding clear_send_request schedule
    after_sent_ok s =
        if wants_ack s.packet.definition
        then schedule (run_delayed s.ack_time_out_duration)
            (record s { send_status = waiting_for_ack })
        else clear_send_request s

    -- The `switch` of Callback.
    unfoldable pub dispatch : SendStatus → Sender C → Sender C
    dispatch sending_packet s = on_sending s
    dispatch waiting_for_sent_ok s = schedule run_asap (record s { send_status = send_failed })
    dispatch sent_ok s = after_sent_ok (derived.on_send_ok (get_data_header s.packet) (elapsed s) s)
    dispatch send_failed s = clear_send_request (derived.on_send_failed s)
    dispatch waiting_for_ack s = schedule run_asap (record s { send_status = ack_failed })
    dispatch ack_ok s =
        clear_send_request (derived.on_ack_received (get_data_header s.packet) (get_id s.packet) s)
    dispatch ack_failed s =
        clear_send_request (derived.on_ack_failed (get_data_header s.packet) (get_id s.packet) s)
    dispatch done s = derived.on_service s

    unfoldable pub callback : Sender C → Sender C
    unfolding dispatch after_sent_ok
    callback s =
        let s' =
          if not (has_send_pending s) && not (is_done s.send_status)
          then schedule run_asap (record s { send_status = done })
          else s in
        dispatch s'.send_status s'
