-- ===== src/Tests/Services.antt =====
-- The theorems on src/Services at concrete services.
use lo_la.Prelude.{
  ℕ, ◌+◌, ◌<◌, true, false, none, some, List, [], ◌∷◌, ◌++◌, ◌≡◌, ◌↔◌, refl, arith, ◌==◌, replicate,
  length,
}
use lo_la.Packet.Buffer.{get_payload, get_id, get_data_header}
use lo_la.Services.Manager.{
  Service, Manager, max_services, add, process_packet, process_acked_packet, process_ack,
}
use lo_la.Services.Manager.Order.{IsManaging, offer, process_offers, add_lem}
use lo_la.Tests.Values.{report_packet}

-- A service that takes the packets of one header, and adds its own number to the world.
abbrev taking : (header weight : ℕ) → Service ℕ
taking header weight = record {
  init = λ w. (w + weight, true);
  received_packet = λ packet w. (w + weight, get_data_header packet == header);
  received_acked_packet = λ packet w. (w + weight, get_data_header packet == header);
  received_ack = λ h id w. (w + weight, h == header);
  process_sent = λ h w. (w + weight, h == header);
  on_link_established = λ w. w;
  on_link_lost = λ w. w;
}

abbrev two_services : List (Service ℕ)
two_services = taking 5 10 ∷ taking 6 100 ∷ []

abbrev manager : Manager ℕ
manager = record {
  services = some (taking 5 10) ∷ some (taking 6 100) ∷ replicate 8 none;
  services_count = 2;
}

manager-IsManaging : IsManaging manager two_services
manager-IsManaging = record { layout = refl; counted = refl; room = omega arith }

process_offers_example :
    (process_packet report_packet manager 0
      ≡ (offer (λ s. s.received_packet report_packet) two_services 0).0)
    × (process_acked_packet report_packet manager 0
        ≡ offer (λ s. s.received_acked_packet report_packet) two_services 0)
    × (process_ack report_packet manager 0
        ≡ (offer
            (λ s. s.received_ack (get_payload 0 report_packet) (get_id report_packet))
            two_services
            0).0)
process_offers_example = process_offers report_packet manager two_services 0 manager-IsManaging

add_lem_example :
    let (m', w', ok) = add (some (taking 7 1)) manager 0 in
    ((ok ≡ true) ↔ (
      (s : Service ℕ) × (some (taking 7 1) ≡ some s)
      × (length two_services < max_services)
      × ((s.init 0).1 ≡ true)))
    × (ok ≡ true
        → (s : Service ℕ) × (some (taking 7 1) ≡ some s)
          × (w' ≡ (s.init 0).0)
          × IsManaging m' (two_services ++ (s ∷ [])))
    × (ok ≡ false → m' ≡ manager)
add_lem_example = add_lem (some (taking 7 1)) manager two_services 0 manager-IsManaging
