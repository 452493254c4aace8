-- ===== src/Services/Send/Progress.antt =====
-- A request of src/Services/IPacketSendService.h comes to an end.
use lo_la.Prelude.{
  ℕ, suc, ◌+◌, ◌≤◌, ◌<◌, Bool, true, false, ◌&&◌, ◌||◌, if◌then◌else◌, List, [], ◌∷◌, ◌++◌, ◌≡◌,
  ◌⊎◌, inl, inr, refl, ap, ◌∙◌, arith, ltb, ◌==◌, u8, sub32, Bool-cases,
}
use lo_la.Packet.Buffer.{get_data_header, get_id}
use lo_la.Services.Send.{
  Sender, Derived, SendStatus, done, sending_packet, waiting_for_sent_ok, sent_ok, send_failed,
  waiting_for_ack, ack_ok, ack_failed, is_done, is_waiting_for_sent_ok, is_waiting_for_ack,
  schedule, has_send_pending, clear_send_request, invalid_millis, after_send, on_sending,
  after_sent_ok, dispatch, callback, process_sent, process_ack, request_send_packet, elapsed,
  denied_max_fails, wants_ack,
}

-- How many callbacks after the time-out a request in this state needs at most.
abbrev pub rank : SendStatus → ℕ
rank done = 0
rank sending_packet = 1
rank send_failed = 1
rank ack_ok = 1
rank ack_failed = 1
rank waiting_for_ack = 2
rank sent_ok = 3
rank waiting_for_sent_ok = 4

rank_zero : (status : SendStatus) → rank status ≤ 0 → status ≡ done
rank_zero status h = ground arith

done_of_is_done : (status : SendStatus) → is_done status ≡ true → status ≡ done
done_of_is_done status h = ground arith

rank_le : (status : SendStatus) → rank status ≤ 4
rank_le status = ground arith

-- What happens to a service with a request: its task calls back, or the driver's manager tells it
-- that a packet was sent or acknowledged.
pub data Occasion : Type 0 where
  called : (millis : ℕ) → Occasion
  told_sent : (header : ℕ) → Occasion
  told_ack : (header id : ℕ) → Occasion

-- The callbacks among them, and whether all of these come after the time-out of the request.
abbrev pub calls : List Occasion → ℕ
calls [] = 0
calls (called millis ∷ os) = suc (calls os)
calls (told_sent header ∷ os) = calls os
calls (told_ack header id ∷ os) = calls os

abbrev pub is_late : (start duration millis : ℕ) → Bool
is_late start duration millis = ltb duration (sub32 millis start)

abbrev pub all_late : (start duration : ℕ) → List Occasion → Bool
all_late start duration [] = true
all_late start duration (called millis ∷ os) =
    is_late start duration millis && all_late start duration os
all_late start duration (told_sent header ∷ os) = all_late start duration os
all_late start duration (told_ack header id ∷ os) = all_late start duration os

module _ {C : Type 0} where
  -- A hook that may do what it likes but for the request that is under way; it may write to the
  -- packet.
  pub record IsQuiet (hook : Sender C → Sender C) : Type 0 where
    pub same_status : (s : Sender C) → (hook s).send_status ≡ s.send_status
    pub same_pending : (s : Sender C) → has_send_pending (hook s) ≡ has_send_pending s
    pub same_start : (s : Sender C) → (hook s).send_start_millis ≡ s.send_start_millis
    pub same_time_out : (s : Sender C) → (hook s).send_time_out_duration ≡ s.send_time_out_duration

  -- A deriving class whose hooks during a request are quiet. Those after its end are free, and so
  -- are AllowedSend and SendPacket of the driver.
  pub record IsQuietClass (derived : Derived C) : Type 0 where
    pub quiet_send_ok : (header duration : ℕ) → IsQuiet (derived.on_send_ok header duration)
    pub quiet_delayed : IsQuiet derived.on_send_delayed
    pub quiet_retrying : IsQuiet derived.on_send_retrying
    pub quiet_pre_send : IsQuiet derived.on_pre_send

  module _ (start duration : ℕ) where
    -- The request that began at `start` is under way.
    pub record IsPending (s : Sender C) : Type 0 where
      pub pending : has_send_pending s ≡ true
      pub started : s.send_start_millis ≡ start
      pub timed : s.send_time_out_duration ≡ duration

    -- What a call leaves: the end of the request, or the request under way, closer to its end if the
    -- time is out.
    abbrev pub IsNext : (late : Bool) (r : ℕ) → Sender C → Type 0
    IsNext late r s =
        (s.send_status ≡ done) ⊎ (IsPending s × (late ≡ true → rank s.send_status < r))

    cleared : (late : Bool) (r : ℕ) (s : Sender C) → IsNext late r (clear_send_request s)
    unfolding clear_send_request schedule
    cleared late r s = inl refl

    quiet-IsPending :
        (hook : Sender C → Sender C) (s : Sender C)
        → IsQuiet hook
        → IsPending s
        → IsPending (hook s)
    quiet-IsPending hook s q p = record {
      pending = q.same_pending s ∙ p.pending;
      started = q.same_start s ∙ p.started;
      timed = q.same_time_out s ∙ p.timed;
    }

    module _ (derived : Derived C) (v : IsQuietClass derived) (millis : ℕ) where
      after_send-IsPending :
          (sent : Bool) (s : Sender C) → IsPending s → IsPending (after_send derived millis sent s)
      unfolding after_send schedule has_send_pending
      after_send-IsPending true s p = record {
        pending = p.pending;
        started = p.started;
        timed = p.timed;
      }
      after_send-IsPending false s p =
          elim (Bool-cases (ltb denied_max_fails (u8 (s.send_failures + 1)))) [
            | inl h ↦ rw h (record { pending = p.pending; started = p.started; timed = p.timed })
            | inr h ↦ rw h (
                quiet-IsPending derived.on_send_retrying _ v.quiet_retrying
                  (record { pending = p.pending; started = p.started; timed = p.timed }))
          ]

      -- Before the time-out the request stays under way, allowed or not; after it, it ends.
      on_sending-IsNext :
          (s : Sender C)
          → IsPending s
          → IsNext (is_late start duration millis) 1 (on_sending derived millis s)
      unfolding on_sending schedule has_send_pending
      on_sending-IsNext s p =
          elim (Bool-cases (
            s.send_start_millis == invalid_millis
            || ltb s.send_time_out_duration (elapsed derived millis s))) [
              | inl h ↦ rw h (cleared _ _ (derived.on_send_timed_out s))
              | inr h ↦ elim (Bool-cases (derived.allowed_send s.client)) [
                | inl a ↦
                    rw (h, a) (inr (after_send-IsPending sent ready ready_pending, λ l. early h l))
                | inr a ↦
                    rw (h, a)
                      (inr (
                        quiet-IsPending derived.on_send_delayed _ v.quiet_delayed
                            (record { pending = p.pending; started = p.started; timed = p.timed }),
                        λ l. early h l,
                      ))
              ]
            ]
        where
          told : IsPending (derived.on_pre_send s)
          told = quiet-IsPending derived.on_pre_send s v.quiet_pre_send p

          sent : Bool
          sent =
              (derived.send_packet (derived.on_pre_send s).packet (derived.on_pre_send s).client).1

          ready : Sender C
          ready =
              let r = derived.on_pre_send s in
              record r { client = (derived.send_packet r.packet r.client).0 }

          ready_pending : IsPending ready
          ready_pending = record {
            pending = told.pending;
            started = told.started;
            timed = told.timed;
          }

          early :
              {A : Type 0}
              → (s.send_start_millis == invalid_millis
                  || ltb s.send_time_out_duration (elapsed derived millis s))
                ≡ false
              → is_late start duration millis ≡ true
              → A
          early h l = absurd (ground (arith, h, l, p.started, p.timed))

      dispatch-IsNext :
          (status : SendStatus) (s : Sender C)
          → IsPending s
          → is_done status ≡ false
          → IsNext (is_late start duration millis) (rank status) (dispatch derived millis status s)
      unfolding dispatch schedule after_sent_ok has_send_pending
      dispatch-IsNext done s p n = cc
      dispatch-IsNext sending_packet s p n = on_sending-IsNext s p
      dispatch-IsNext waiting_for_sent_ok s p n =
          inr
            (record { pending = p.pending; started = p.started; timed = p.timed }, λ l. omega arith)
      dispatch-IsNext sent_ok s p n = elim (Bool-cases (wants_ack told.packet.definition)) [
        | inl h ↦ rw h (
            inr (
              record { pending = still.pending; started = still.started; timed = still.timed },
              λ l. omega arith,
            ))
        | inr h ↦ rw h (cleared _ 3 told)
      ]
        where
          told : Sender C
          told = derived.on_send_ok (get_data_header s.packet) (elapsed derived millis s) s

          still : IsPending told
          still =
              quiet-IsPending _ s
                (v.quiet_send_ok (get_data_header s.packet) (elapsed derived millis s)) p
      dispatch-IsNext send_failed s p n = cleared _ 1 (derived.on_send_failed s)
      dispatch-IsNext waiting_for_ack s p n =
          inr
            (record { pending = p.pending; started = p.started; timed = p.timed }, λ l. omega arith)
      dispatch-IsNext ack_ok s p n =
          cleared _ 1 (derived.on_ack_received (get_data_header s.packet) (get_id s.packet) s)
      dispatch-IsNext ack_failed s p n =
          cleared _ 1 (derived.on_ack_failed (get_data_header s.packet) (get_id s.packet) s)

      pub callback-IsNext :
          (s : Sender C)
          → IsPending s
          → is_done s.send_status ≡ false
          → IsNext (is_late start duration millis) (rank s.send_status) (callback derived millis s)
      unfolding callback
      callback-IsNext s p n = rw p.pending (dispatch-IsNext s.send_status s p n)

    -- What the manager tells brings a request closer to its end or leaves it.
    abbrev IsStill : ℕ → Sender C → Type 0
    IsStill r s = IsPending s × (rank s.send_status ≤ r)

    still : (s : Sender C) → IsPending s → IsStill (rank s.send_status) s
    still s p = (p, omega arith)

    process_sent-IsStill :
        (header : ℕ) (s : Sender C)
        → IsPending s
        → IsStill (rank s.send_status) (process_sent header s).0
    unfolding process_sent schedule has_send_pending
    process_sent-IsStill header s p =
        elim (Bool-cases (
          has_send_pending s
          && get_data_header s.packet == header
          && is_waiting_for_sent_ok s.send_status)) [
            | inl h ↦ rw h (
              record { pending = p.pending; started = p.started; timed = p.timed },
              was_waiting s.send_status (ground (arith, h)),
            )
            | inr h ↦ rw h (still s p)
          ]
      where
        was_waiting : (status : SendStatus) → is_waiting_for_sent_ok status ≡ true → 3 ≤ rank status
        was_waiting status h = ground arith

    process_ack-IsStill :
        (header id : ℕ) (s : Sender C)
        → IsPending s
        → IsStill (rank s.send_status) (process_ack header id s).0
    unfolding process_ack schedule has_send_pending
    process_ack-IsStill header id s p = elim (Bool-cases (get_data_header s.packet == header)) [
      | inl h ↦ elim (Bool-cases (is_waiting_for_ack s.send_status && has_send_pending s)) [
        | inl w ↦ elim (Bool-cases (get_id s.packet == id)) [
          | inl i ↦
              rw (h, w, i)
                (
                  record { pending = p.pending; started = p.started; timed = p.timed },
                  was_waiting s.send_status (ground (arith, w)),
                )
          | inr i ↦ rw (h, w, i) (still s p)
        ]
        | inr w ↦ rw (h, w) (still s p)
      ]
      | inr h ↦ rw h (still s p)
    ]
      where
        was_waiting : (status : SendStatus) → is_waiting_for_ack status ≡ true → 1 ≤ rank status
        was_waiting status h = ground arith

  -- The deriving class may be another at each time: its hooks read the clock and the driver.
  unfoldable pub happen : (ℕ → Derived C) → Occasion → Sender C → Sender C
  happen derived (called millis) s = callback (derived millis) millis s
  happen derived (told_sent header) s = (process_sent header s).0
  happen derived (told_ack header id) s = (process_ack header id s).0

  -- These occasions, until the request is over.
  abbrev pub run : (ℕ → Derived C) → List Occasion → Sender C → Sender C
  run derived [] s = s
  run derived (o ∷ os) s =
      let rest = run derived os (happen derived o s) in if is_done s.send_status then s else rest

  module _ (derived : ℕ → Derived C) (v : (millis : ℕ) → IsQuietClass (derived millis))
      (start duration : ℕ) where
    run-done :
        (os : List Occasion) (s : Sender C)
        → s.send_status ≡ done
        → (run derived os s).send_status ≡ done
    run-done [] s e = e
    run-done (o ∷ os) s e = rw (ap is_done e) e

    -- Occasions after the time-out, with a callback for each step that is left.
    late_run_ends :
        (os : List Occasion) (s : Sender C)
        → IsPending start duration s
        → all_late start duration os ≡ true
        → rank s.send_status ≤ calls os
        → (run derived os s).send_status ≡ done
    unfolding happen
    late_run_ends [] s p l h = rank_zero s.send_status h
    late_run_ends (called millis ∷ os) s p l h = elim (Bool-cases (is_done s.send_status)) [
      | inl d ↦ rw d (done_of_is_done s.send_status d)
      | inr n ↦
          rw n (elim (callback-IsNext start duration (derived millis) (v millis) millis s p n) [
            | inl e ↦ run-done os _ e
            | inr (q, k) ↦
                late_run_ends os _ q (ground (arith, l)) (omega (arith, h, k (ground (arith, l))))
          ])
    ]
    late_run_ends (told_sent header ∷ os) s p l h = elim (Bool-cases (is_done s.send_status)) [
      | inl d ↦ rw d (done_of_is_done s.send_status d)
      | inr n ↦ rw n (
          let (q, k) = process_sent-IsStill start duration header s p in
          late_run_ends os _ q l (omega (arith, h, k)))
    ]
    late_run_ends (told_ack header id ∷ os) s p l h = elim (Bool-cases (is_done s.send_status)) [
      | inl d ↦ rw d (done_of_is_done s.send_status d)
      | inr n ↦ rw n (
          let (q, k) = process_ack-IsStill start duration header id s p in
          late_run_ends os _ q l (omega (arith, h, k)))
    ]

    run_ends :
        (early late : List Occasion) (s : Sender C)
        → IsPending start duration s
        → all_late start duration late ≡ true
        → 4 ≤ calls late
        → (run derived (early ++ late) s).send_status ≡ done
    unfolding happen
    run_ends [] late s p l h = late_run_ends late s p l (omega (arith, h, rank_le s.send_status))
    run_ends (called millis ∷ early) late s p l h = elim (Bool-cases (is_done s.send_status)) [
      | inl d ↦ rw d (done_of_is_done s.send_status d)
      | inr n ↦
          rw n (elim (callback-IsNext start duration (derived millis) (v millis) millis s p n) [
            | inl e ↦ run-done (early ++ late) _ e
            | inr (q, k) ↦ run_ends early late _ q l h
          ])
    ]
    run_ends (told_sent header ∷ early) late s p l h = elim (Bool-cases (is_done s.send_status)) [
      | inl d ↦ rw d (done_of_is_done s.send_status d)
      | inr n ↦ rw n (run_ends early late _ (process_sent-IsStill start duration header s p).0 l h)
    ]
    run_ends (told_ack header id ∷ early) late s p l h = elim (Bool-cases (is_done s.send_status)) [
      | inl d ↦ rw d (done_of_is_done s.send_status d)
      | inr n ↦
          rw n (run_ends early late _ (process_ack-IsStill start duration header id s p).0 l h)
    ]

  -- A request for a packet with a definition is over, and the service done again, after any
  -- callbacks and reports of the manager, at any times, that are followed by at least four callbacks
  -- after the time-out of the request: whether and when the driver allows the send, whatever it
  -- answers to it, and whatever is reported meanwhile, of this packet or another. The hooks that the
  -- deriving class has for the time of a request keep its status, its start and its time-out, and
  -- keep a packet pending, which they may write to.
  pub request_ends :
      (derived : ℕ → Derived C)
      → ((millis : ℕ) → IsQuietClass (derived millis))
      → (start send_time_out ack_time_out : ℕ) (early late : List Occasion) (s : Sender C)
      → has_send_pending s ≡ true
      → all_late start (u8 send_time_out) late ≡ true
      → 4 ≤ calls late
      → (run derived
          (early ++ late)
          (request_send_packet start send_time_out ack_time_out s)).send_status
        ≡ done
  unfolding request_send_packet has_send_pending schedule
  request_ends derived v start send_time_out ack_time_out early late s p l h = rw p (
      run_ends derived v start (u8 send_time_out) early late _
        (record { pending = p; started = refl; timed = refl }) l h)
