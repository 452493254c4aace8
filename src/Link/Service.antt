-- ===== src/Link/Service.antt =====
-- src/Services/Link/AbstractLinkService.h, and the members that src/Services/Link/LoLaLinkService.h
-- adds. The service is an IPacketSendService whose packet is OutPacket and whose client is
-- `LinkClient`; `P` is what the host or the remote adds. ATUI_R and ATUI_S are written before each
-- read. The clock that the syncer points to is the driver's.
pub mod Builders
pub mod Session
pub mod Process
pub mod Runtime
use lo_la.Prelude.{
  ℕ, Bool, true, false, not, ◌&&◌, ◌||◌, if◌then◌else◌, Option, none, some, List, [], ◌∷◌, ltb,
  ◌==◌, sub32,
}
use lo_la.Packet.Definition.{
  PacketDefinition, get_total_size, ping_definition, report_definition, short_definition,
  short_with_ack_definition, long_definition, header_ping_with_ack,
}
use lo_la.Packet.Buffer.{Packet, get_max_size, get_data_header}
use lo_la.Packet.Map.{PacketMap, add_mapping}
use lo_la.Crypto.Library.{CryptoLibrary}
use lo_la.Crypto.KeyExchange.{EccLibrary, KeyExchanger}
use lo_la.Crypto.Token.{TokenSource}
use lo_la.Driver.State.{Driver, invalid_millis}
use lo_la.Driver.Receive.{Node}
use lo_la.Services.Manager.{Manager}
use lo_la.Services.Task.{run_delayed}
use lo_la.Services.Send.{Sender, schedule, request_send_packet}
use lo_la.Link.RingBuffer.{RingBuffer}
use lo_la.Link.Power.{PowerBalancer}
use lo_la.Link.ClockSync.{ClockSyncer}
use lo_la.Link.Info.{LinkInfo, LinkState, awaiting_link, awaiting_sleeping, linking, linked}

-- What the service is built on: the libraries, the radio's range of channels, the maps of the
-- Arduino core to a range, the id that the MAC generator answers, and the other services.
pub record Platform (B S : Type 0) : Type 0 where
  pub crypto : CryptoLibrary
  pub ecc : EccLibrary
  pub rssi_ring : RingBuffer B
  pub map_range : ℕ → ℕ
  pub rssi_normalized : ℕ → ℕ
  pub channel_min : ℕ
  pub channel_max : ℕ
  pub local_id : ℕ
  pub manager : Manager (Node S)

-- What one run of a method finds outside: `random min max` is Arduino's, `key_pair` is what
-- `uECC_make_key` makes.
pub record Moment : Type 0 where
  pub millis : ℕ
  pub micros : ℕ
  pub rtc_time : ℕ
  pub random : (min max : ℕ) → ℕ
  pub key_pair : Option (List ℕ × List ℕ)

pub record LinkClient (B S P : Type 0) : Type 0 where
  pub node : Node S
  pub info : LinkInfo B
  pub exchanger : KeyExchanger
  pub keys_last_generated : ℕ
  pub syncer : ClockSyncer
  pub crypto_seed : TokenSource
  pub balancer : PowerBalancer
  pub report_pending : Bool
  pub sub_state_start : ℕ
  pub linking_state : ℕ
  pub info_sync_stage : ℕ
  pub state_start_time : ℕ
  pub last_sent_millis : ℕ
  pub part : P

abbrev pub Link : (B S P : Type 0) → Type 0
Link B S P = Sender (LinkClient B S P)

-- LOLA_LINK_SERVICE_CHECK_PERIOD, LOLA_LINK_SERVICE_IDLE_PERIOD, LOLA_LINK_SEND_FAIL_RETRY_PERIOD.
abbrev pub check_period : ℕ
check_period = 1

abbrev pub idle_period : ℕ
idle_period = 300

abbrev pub send_fail_retry_period : ℕ
send_fail_retry_period = 50

-- The time-outs of a send and of its acknowledgement that RequestSendPacket takes by default.
abbrev pub default_send_time_out : ℕ
default_send_time_out = 100

abbrev pub default_ack_time_out : ℕ
default_ack_time_out = 10

-- A LinkStateEnum compared with the two states of a link that is made or kept.
abbrev pub takes_pings : LinkState → Bool
takes_pings linking = true
takes_pings linked = true
takes_pings _ = false

-- Comparisons of a LinkStateEnum.
abbrev pub is_awaiting_link : LinkState → Bool
is_awaiting_link awaiting_link = true
is_awaiting_link _ = false

abbrev pub is_awaiting_sleeping : LinkState → Bool
is_awaiting_sleeping awaiting_sleeping = true
is_awaiting_sleeping _ = false

abbrev pub is_linking : LinkState → Bool
is_linking linking = true
is_linking _ = false

-- The chain of AddMapping calls that stops at the first that fails.
unfoldable pub add_mappings : List PacketDefinition → PacketMap → Option (PacketMap × Bool)
add_mappings [] m = some (m, true)
add_mappings (d ∷ ds) m =
    let rest = λ (m' : PacketMap). add_mappings ds m' in
    elim (add_mapping d m) [
      | none ↦ none
      | some (m', false) ↦ some (m', false)
      | some (m', true) ↦ rest m'
    ]

abbrev pub link_definitions : List PacketDefinition
link_definitions =
    ping_definition ∷ report_definition ∷ short_definition ∷ short_with_ack_definition
    ∷ long_definition ∷ []

abbrev pub is_too_small : ℕ → List PacketDefinition → Bool
is_too_small size [] = false
is_too_small size (d ∷ ds) = ltb size (get_total_size d) || is_too_small size ds

-- `none` is an access out of the map, as in `add_mapping`.
unfoldable pub on_add_packet_map : Packet → PacketMap → Option (PacketMap × Bool)
unfolding add_mappings
on_add_packet_map packet m = elim (add_mappings link_definitions m) [
  | none ↦ none
  | some (m', false) ↦ some (m', false)
  | some (m', true) ↦ some (m', not (is_too_small (get_max_size packet) link_definitions))
]

module _ {B S P : Type 0} where
  abbrev pub on_client : (LinkClient B S P → LinkClient B S P) → Link B S P → Link B S P
  on_client f s = record s { client = f s.client }

  abbrev pub with_driver : (Driver → Driver) → LinkClient B S P → LinkClient B S P
  with_driver f c = record c { node = record (c.node) { driver = f c.node.driver } }

  abbrev pub driver_of : Link B S P → Driver
  driver_of s = s.client.node.driver

  unfoldable pub reset_state_start_time : ℕ → LinkClient B S P → LinkClient B S P
  reset_state_start_time millis c = record c { state_start_time = millis }

  unfoldable pub reset_last_sent_time_stamp : LinkClient B S P → LinkClient B S P
  reset_last_sent_time_stamp c = record c { last_sent_millis = invalid_millis }

  abbrev pub elapsed_since_stamp : (millis stamp : ℕ) → LinkClient B S P → ℕ
  elapsed_since_stamp millis stamp c =
      if stamp == invalid_millis then invalid_millis else sub32 millis stamp

  unfoldable pub get_elapsed_millis_since_state_start : ℕ → LinkClient B S P → ℕ
  get_elapsed_millis_since_state_start millis c = elapsed_since_stamp millis c.state_start_time c

  unfoldable pub get_elapsed_millis_since_last_sent : ℕ → LinkClient B S P → ℕ
  get_elapsed_millis_since_last_sent millis c = elapsed_since_stamp millis c.last_sent_millis c

  unfoldable pub on_send_failed : Link B S P → Link B S P
  unfolding schedule
  on_send_failed s = schedule (run_delayed send_fail_retry_period) s

  unfoldable pub request_send : ℕ → Link B S P → Link B S P
  request_send millis s = request_send_packet millis default_send_time_out default_ack_time_out s

  -- `SetNextRunDelay(LOLA_LINK_SERVICE_CHECK_PERIOD)`
  unfoldable pub check_again : Link B S P → Link B S P
  check_again s = schedule (run_delayed check_period) s

  -- A packet is prepared in OutPacket and RequestSendPacket called.
  unfoldable pub send_prepared : ℕ → (Packet → Packet) → Link B S P → Link B S P
  unfolding request_send
  send_prepared millis prepare s = request_send millis (record s { packet = prepare s.packet })

  -- The packet is sent if the last one was sent longer ago than the period, or the service waits.
  unfoldable pub send_after : (millis period : ℕ) → (Packet → Packet) → Link B S P → Link B S P
  unfolding send_prepared get_elapsed_millis_since_last_sent check_again
  send_after millis period prepare s =
      if ltb period (get_elapsed_millis_since_last_sent millis s.client)
      then send_prepared millis prepare s
      else check_again s

  -- ProcessAckedPacket; `on_acked_packet_received` is the virtual method.
  unfoldable pub process_acked_packet :
      (on_acked_packet_received : Packet → Link B S P → Link B S P × Bool)
      → Packet
      → Link B S P
      → Link B S P × Bool
  process_acked_packet on_acked_packet_received received s =
      if get_data_header received == header_ping_with_ack
      then (s, takes_pings s.client.info.link_state)
      else on_acked_packet_received received s

  -- OnAckReceived, with the virtual methods for a ping and for another packet.
  unfoldable pub on_ack_received :
      (on_ping_ack_received : ℕ → Link B S P → Link B S P)
      (on_link_ack_received : (header id : ℕ) → Link B S P → Link B S P) (header id : ℕ)
      → Link B S P
      → Link B S P
  on_ack_received on_ping_ack_received on_link_ack_received header id s =
      if header == header_ping_with_ack
      then on_ping_ack_received id s
      else on_link_ack_received header id s
