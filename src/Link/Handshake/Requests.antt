-- ===== src/Link/Handshake/Requests.antt =====
-- The methods of src/Services/Link/LoLaLinkHostService.h and src/Services/Link/LoLaLinkRemoteService.h
-- that src/Services/IPacketSendService.h calls while a request is under way.
use lo_la.Prelude.{ℕ, Bool, ◌≡◌, refl, ◌&&◌, ◌||◌, ◌==◌, Bool-cases, inl, inr}
use lo_la.Packet.Definition.{header_short, header_ping_with_ack}
use lo_la.Packet.Buffer.{get_data_header, get_payload, set_payload}
use lo_la.Services.Send.{Sender, schedule, has_send_pending}
use lo_la.Services.Send.Progress.{IsQuiet, IsQuietClass}
use lo_la.Link.Service.{Platform, Moment, LinkClient, is_linking}
use lo_la.Link.Service.Builders.{ntp_request, ntp_tune_request, s_array_to_payload}
use lo_la.Link.Service.Runtime.{on_send_ok}
use lo_la.Link.Host.{on_pre_send, info_sync_stage}
use lo_la.Link.Host.Runs.{host_class}
use lo_la.Link.Remote.{remote_on_pre_send}
use lo_la.Link.Remote.Runs.{remote_class}

-- A method whose result is the service with another client, task or packet content is quiet.
keeps-IsQuiet :
    {C : Type 0} (hook : Sender C → Sender C)
    → ((s : Sender C)
        → ((hook s).send_status ≡ s.send_status)
          × (has_send_pending (hook s) ≡ has_send_pending s)
          × ((hook s).send_start_millis ≡ s.send_start_millis)
          × ((hook s).send_time_out_duration ≡ s.send_time_out_duration))
    → IsQuiet hook
keeps-IsQuiet hook h = record {
  same_status = λ s. (h s).0;
  same_pending = λ s. (h s).1;
  same_start = λ s. (h s).2;
  same_time_out = λ s. (h s).3;
}

nothing-IsQuiet : {C : Type 0} → IsQuiet {C = C} (λ s. s)
nothing-IsQuiet = keeps-IsQuiet (λ s. s) (λ s. (refl, refl, refl, refl))

module _ {B S P : Type 0} (m : Moment) where
  on_send_ok-IsQuiet : (header : ℕ) → IsQuiet {C = LinkClient B S P} (on_send_ok m header)
  unfolding on_send_ok schedule has_send_pending
  on_send_ok-IsQuiet header = keeps-IsQuiet (on_send_ok m header) (λ s. (refl, refl, refl, refl))

module _ {B S : Type 0} (p : Platform B S) (m : Moment) (transmit_ok : Bool) where
  remote_on_pre_send-IsQuiet : IsQuiet (remote_on_pre_send {B = B} {S = S} m)
  unfolding remote_on_pre_send has_send_pending s_array_to_payload set_payload
  remote_on_pre_send-IsQuiet = keeps-IsQuiet (remote_on_pre_send m) (λ s.
      elim (Bool-cases (
        get_data_header s.packet == header_short
        && (get_payload 0 s.packet == ntp_request || get_payload 0 s.packet == ntp_tune_request))) [
          | inl e ↦ rw e (refl, refl, refl, refl)
          | inr e ↦ rw e (refl, refl, refl, refl)
        ])

  on_pre_send-IsQuiet : IsQuiet (on_pre_send p m)
  unfolding on_pre_send has_send_pending
  on_pre_send-IsQuiet = keeps-IsQuiet (on_pre_send p m) (λ s.
      elim (Bool-cases (
        is_linking s.client.info.link_state
        && s.client.linking_state == info_sync_stage
        && get_data_header s.packet == header_ping_with_ack)) [
          | inl e ↦ rw e (refl, refl, refl, refl)
          | inr e ↦ rw e (refl, refl, refl, refl)
        ])

  pub remote_class-IsQuietClass : IsQuietClass (remote_class p m transmit_ok)
  remote_class-IsQuietClass = record {
    quiet_send_ok = λ header duration. on_send_ok-IsQuiet m header;
    quiet_delayed = nothing-IsQuiet;
    quiet_retrying = nothing-IsQuiet;
    quiet_pre_send = remote_on_pre_send-IsQuiet;
  }

  pub host_class-IsQuietClass : IsQuietClass (host_class p m transmit_ok)
  host_class-IsQuietClass = record {
    quiet_send_ok = λ header duration. on_send_ok-IsQuiet m header;
    quiet_delayed = nothing-IsQuiet;
    quiet_retrying = nothing-IsQuiet;
    quiet_pre_send = on_pre_send-IsQuiet;
  }
