-- ===== src/Services/Manager/Order.antt =====
-- The services of src/Services/LoLaServicesManager.h as the list of those that were added.
use lo_la.Prelude.{
  ℕ, suc, ◌+◌, ◌-◌, ◌≤◌, ◌<◌, Bool, true, false, if◌then◌else◌, Bool-cases, inl, inr, Option, none,
  some, List, [], ◌∷◌, ◌++◌, map, append_assoc, set-append, get_or-append, length-snoc, ◌≡◌, ◌↔◌,
  refl, sym, ap, ◌∙◌, arith, leb, u8, get_or, set, length, replicate,
}
use lo_la.Packet.Buffer.{Packet, get_payload, get_id}
use lo_la.Services.Manager.{
  Service, Manager, max_services, offer_from, add, process_packet, process_acked_packet,
  process_ack, new_manager,
}

module _ {W : Type 0} where
  -- The event goes down the list until a service takes it.
  abbrev pub offer : (Service W → W → W × Bool) → List (Service W) → W → W × Bool
  offer call [] w = (w, false)
  offer call (s ∷ ss) w =
      let rest = λ (w' : W). offer call ss w' in
      let (w', taken) = call s w in if taken then (w', true) else rest w'

  -- The array holds these services in the order in which they were added, then null pointers.
  pub record IsManaging (m : Manager W) (ss : List (Service W)) : Type 0 where
    pub layout : m.services ≡ map some ss ++ replicate (max_services - length ss) none
    pub counted : m.services_count ≡ length ss
    pub room : length ss ≤ max_services

  new_manager-IsManaging : IsManaging new_manager []
  unfolding new_manager
  new_manager-IsManaging = record { layout = refl; counted = refl; room = omega arith }

  offer_from-offer :
      (call : Service W → W → W × Bool) (i : ℕ) (done : List (Option (Service W)))
      (ss : List (Service W)) (rest : List (Option (Service W))) (w : W)
      → i ≡ length done
      → offer_from call (length ss) i (done ++ (map some ss ++ rest)) w ≡ offer call ss w
  unfolding offer_from
  offer_from-offer call i done [] rest w e = refl
  offer_from-offer call i done (s ∷ ss) rest w e = rw (read) (
      ap (λ r. if taken then (w', true) else r)
        (ap (λ l. offer_from call (length ss) (i + 1) l w')
            (sym (append_assoc done (some s ∷ []) (map some ss ++ rest)))
          ∙ offer_from-offer call (i + 1) (done ++ (some s ∷ [])) ss rest w'
              (omega (arith, length-snoc {A = Option (Service W)} done (some s)))))
    where
      read : get_or (done ++ (some s ∷ (map some ss ++ rest))) i none ≡ some s
      read =
          ap (λ j. get_or (done ++ (some s ∷ (map some ss ++ rest))) j none) e
          ∙ get_or-append done (some s) none (map some ss ++ rest)

      w' : W
      w' = (call s w).0

      taken : Bool
      taken = (call s w).1

  length-map-some : (ss : List (Service W)) → length (map some ss) ≡ length ss
  length-map-some [] = refl
  length-map-some (s ∷ ss) = ap suc (length-map-some ss)

  map-some-snoc :
      (ss : List (Service W)) (s : Service W)
      → map some ss ++ (some s ∷ []) ≡ map some (ss ++ (s ∷ []))
  map-some-snoc [] s = refl
  map-some-snoc (x ∷ ss) s = ap (λ l. some x ∷ l) (map-some-snoc ss s)

  -- The loop over the array is the offer down the list.
  pub offer_from_lem :
      (call : Service W → W → W × Bool) (m : Manager W) (ss : List (Service W)) (w : W)
      → IsManaging m ss
      → offer_from call m.services_count 0 m.services w ≡ offer call ss w
  offer_from_lem call m ss w v =
      rw (v.counted, v.layout)
        (offer_from-offer call 0 [] ss (replicate (max_services - length ss) none) w refl)

  -- In a manager that holds these services: a packet, a packet to acknowledge and an
  -- acknowledgement each go to the services in the order in which they were added, and stop at
  -- the first one that takes it.
  pub process_offers :
      (packet : Packet) (m : Manager W) (ss : List (Service W)) (w : W)
      → IsManaging m ss
      → (process_packet packet m w ≡ (offer (λ s. s.received_packet packet) ss w).0)
        × (process_acked_packet packet m w ≡ offer (λ s. s.received_acked_packet packet) ss w)
        × (process_ack packet m w
            ≡ (offer (λ s. s.received_ack (get_payload 0 packet) (get_id packet)) ss w).0)
  unfolding process_packet process_acked_packet process_ack
  process_offers packet m ss w v = (
    ap (λ r. r.0) (offer_from_lem _ m ss w v),
    offer_from_lem _ m ss w v,
    ap (λ r. r.0) (offer_from_lem _ m ss w v),
  )

  stored :
      (s : Service W) (m : Manager W) (ss : List (Service W))
      → IsManaging m ss
      → length ss < max_services
      → IsManaging
          (record {
            services = set m.services m.services_count (some s);
            services_count = u8 (m.services_count + 1);
          })
          (ss ++ (s ∷ []))
  stored s m ss v h = record {
    layout = new_layout;
    counted = omega (arith, v.counted, length-snoc ss s);
    room = omega (arith, length-snoc ss s);
  }
    where
      k : ℕ
      k = max_services - length (ss ++ (s ∷ []))

      fewer : max_services - length ss ≡ suc k
      fewer = omega (arith, length-snoc ss s)

      opened : m.services ≡ map some ss ++ (none ∷ replicate k none)
      opened = v.layout ∙ ap (λ n. map some ss ++ replicate n none) fewer

      new_layout :
          set m.services m.services_count (some s)
          ≡ map some (ss ++ (s ∷ [])) ++ replicate (max_services - length (ss ++ (s ∷ []))) none
      new_layout =
          rw (opened, v.counted ∙ sym (length-map-some ss))
            (set-append (map some ss) none (some s) (replicate k none)
              ∙ ap (λ l. l ++ replicate k none) (map-some-snoc ss s))

  -- A service is added exactly if it is not null, there are fewer than ten, and its `Init` succeeds.
  -- One that is added stands last, and the world is as its `Init` left it; if none is added the
  -- manager is as before.
  pub add_lem :
      (service : Option (Service W)) (m : Manager W) (ss : List (Service W)) (w : W)
      → IsManaging m ss
      → let (m', w', ok) = add service m w in
        ((ok ≡ true) ↔ (
          (s : Service W) × (service ≡ some s)
          × (length ss < max_services)
          × ((s.init w).1 ≡ true)))
        × (ok ≡ true
            → (s : Service W) × (service ≡ some s)
              × (w' ≡ (s.init w).0)
              × IsManaging m' (ss ++ (s ∷ [])))
        × (ok ≡ false → m' ≡ m)
  unfolding add
  add_lem none m ss w v = ((λ h. cc, λ (s, e, r, i). none_is_no e), λ h. cc, λ h. refl)
    where
      none_is_no : {s : Service W} → none ≡ some s → false ≡ true
      none_is_no e = ground arith
  add_lem (some s) m ss w v = elim (Bool-cases (leb max_services m.services_count)) [
    | inl full ↦
        rw full (
          (λ h. cc, λ (t, e, r, i). absurd (ground (arith, v.counted, full, r))),
          λ h. cc,
          λ h. refl,
        )
    | inr space ↦ elim (Bool-cases (s.init w).1) [
      | inl ok ↦
          rw (space, ok)
            (
              (λ h. (s, refl, room space, ok), λ r. refl),
              λ h. (s, refl, refl, stored s m ss v (room space)),
              λ h. cc,
            )
      | inr failed ↦
          rw (space, failed)
            ((λ h. cc, λ (t, e, r, i). sym failed ∙ (ap (λ x. ran x) e ∙ i)), λ h. cc, λ h. refl)
    ]
  ]
    where
      room : leb max_services m.services_count ≡ false → length ss < max_services
      room space = ground (arith, v.counted)

      ran : Option (Service W) → Bool
      ran none = false
      ran (some x) = (x.init w).1
