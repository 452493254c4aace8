-- ===== src/Services/Manager.antt =====
-- src/Services/LoLaServicesManager.h. A service is its methods over the world `W` that it shares
-- with the other services and the driver. `LinkInfo`, which the manager only holds, is not here.
pub mod Order
use lo_la.Prelude.{
  ℕ, zero, suc, ◌+◌, ◌-◌, Bool, true, false, not, ◌||◌, if◌then◌else◌, Option, none, some, is_some,
  List, [], ◌∷◌, leb, ◌==◌, u8, get_or, set, replicate,
}
use lo_la.Packet.Definition.{ack_header}
use lo_la.Packet.Buffer.{Packet, get_payload, get_id}
use lo_la.Driver.Receive.{Node, Handlers}

-- The methods of ILoLaService that the manager calls; `init` answers whether it succeeded, the
-- others whether the service took the event.
pub record Service (W : Type 0) : Type 0 where
  pub init : W → W × Bool
  pub received_packet : Packet → W → W × Bool
  pub received_acked_packet : Packet → W → W × Bool
  pub received_ack : (header id : ℕ) → W → W × Bool
  pub process_sent : (header : ℕ) → W → W × Bool
  pub on_link_established : W → W
  pub on_link_lost : W → W

-- MAX_RADIO_SERVICES_COUNT
abbrev pub max_services : ℕ
max_services = 10

pub record Manager (W : Type 0) : Type 0 where
  pub services : List (Option (Service W))
  pub services_count : ℕ

module _ {W : Type 0} where
  unfoldable pub new_manager : Manager W
  new_manager = record { services = replicate max_services none; services_count = 0 }

  abbrev pub if_present : (Service W → W → W × Bool) → Option (Service W) → W → W × Bool
  if_present call none w = (w, false)
  if_present call (some s) w = call s w

  -- The loop of the four `Process` methods: the first service that takes the event ends it.
  unfoldable pub offer_from :
      (Service W → W → W × Bool) → (rounds i : ℕ) → List (Option (Service W)) → W → W × Bool
  offer_from call zero i slots w = (w, false)
  offer_from call (suc rounds) i slots w =
      let rest = λ (w' : W). offer_from call rounds (i + 1) slots w' in
      let (w', taken) = if_present call (get_or slots i none) w in
      if taken then (w', true) else rest w'

  unfoldable pub process_packet : Packet → Manager W → W → W
  process_packet packet m w =
      (offer_from (λ s. s.received_packet packet) m.services_count 0 m.services w).0

  unfoldable pub process_acked_packet : Packet → Manager W → W → W × Bool
  process_acked_packet packet m w =
      offer_from (λ s. s.received_acked_packet packet) m.services_count 0 m.services w

  unfoldable pub process_sent : ℕ → Manager W → W → W
  process_sent header m w =
      if header == ack_header
      then w
      else (offer_from (λ s. s.process_sent header) m.services_count 0 m.services w).0

  unfoldable pub process_ack : Packet → Manager W → W → W
  unfolding get_payload get_id
  process_ack packet m w =
      (offer_from (λ s. s.received_ack (get_payload 0 packet) (get_id packet)) m.services_count 0
        m.services w).0

  notify_one : Bool → Service W → W → W
  notify_one true s w = s.on_link_established w
  notify_one false s w = s.on_link_lost w

  unfoldable pub notify_from : Bool → (rounds i : ℕ) → List (Option (Service W)) → W → W
  unfolding notify_one
  notify_from connected zero i slots w = w
  notify_from connected (suc rounds) i slots w =
      notify_from connected rounds (i + 1) slots
        (elim (get_or slots i none) [ none ↦ w | some s ↦ notify_one connected s w ])

  unfoldable pub notify_services_link_updated : Bool → Manager W → W → W
  notify_services_link_updated connected m w = notify_from connected m.services_count 0 m.services w

  unfoldable pub get : ℕ → Manager W → Option (Service W)
  get index m =
      if leb m.services_count index || leb max_services index
      then none
      else get_or m.services index none

  -- A null service is refused before it is called.
  unfoldable pub add : Option (Service W) → Manager W → W → Manager W × W × Bool
  add none m w = (m, w, false)
  add (some service) m w =
      if leb max_services m.services_count
      then (m, w, false)
      else let (w', ok) = service.init w in
        if ok
        then (
          record {
            services = set m.services m.services_count (some service);
            services_count = u8 (m.services_count + 1);
          },
          w',
          true,
        )
        else (m, w', false)

-- The manager in the place of the driver's handlers.
unfoldable pub handlers_of : {S : Type 0} → Manager (Node S) → Handlers S
handlers_of m = record {
  process_packet = λ packet n. process_packet packet m n;
  process_acked_packet = λ packet n. process_acked_packet packet m n;
  process_ack = λ packet n. process_ack packet m n;
  process_sent = λ header n. process_sent header m n;
}
