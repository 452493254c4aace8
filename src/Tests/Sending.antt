-- ===== src/Tests/Sending.antt =====
-- The theorem on src/Services/IPacketSendService.h at the remote of src/Services/Link.
use lo_la.Prelude.{ℕ, true, List, [], ◌∷◌, ◌++◌, ◌≡◌, refl, arith}
use lo_la.Services.Send.{Derived, done, request_send_packet, has_send_pending}
use lo_la.Services.Send.Progress.{
  Occasion, called, told_sent, told_ack, run, request_ends, IsQuietClass,
}
use lo_la.Link.Service.{LinkClient}
use lo_la.Link.Remote.{RemoteLink, RemotePart}
use lo_la.Link.Remote.Runs.{remote_class}
use lo_la.Link.Handshake.Requests.{remote_class-IsQuietClass}
use lo_la.Tests.Values.{report_packet}
use lo_la.Tests.LinkValues.{platform_of, at, new_remote}

abbrev class_at : ℕ → Derived (LinkClient (List ℕ) ℕ RemotePart)
class_at millis = remote_class (platform_of 88) (at millis) true

class_at-IsQuietClass : (millis : ℕ) → IsQuietClass (class_at millis)
class_at-IsQuietClass millis = remote_class-IsQuietClass (platform_of 88) (at millis) true

abbrev reporter : RemoteLink (List ℕ) ℕ
reporter = record new_remote { packet = report_packet }

reporter_pending : has_send_pending reporter ≡ true
unfolding has_send_pending
reporter_pending = refl

-- Requested at 500 with a time-out of 100.
abbrev before : List Occasion
before = called 501 ∷ told_ack 3 4 ∷ called 502 ∷ []

abbrev after : List Occasion
after = called 601 ∷ told_sent 1 ∷ called 650 ∷ called 651 ∷ called 652 ∷ []

request_ends_example :
    (run class_at (before ++ after) (request_send_packet 500 100 10 reporter)).send_status ≡ done
request_ends_example =
    request_ends class_at class_at-IsQuietClass 500 100 10 before after reporter reporter_pending
      refl (omega arith)
