-- ===== src/Driver/Slot/Exclusion.antt =====
-- Collision avoidance: what the duplex slots of src/PacketDriver/LoLaPacketDriver.h give two
-- partners with synchronised clocks.
use lo_la.Prelude.{ℕ, ◌+◌, ◌-◌, ◌%◌, ◌≤◌, ◌<◌, true, false, ◌≡◌, ◌≢◌, ◌↔◌, arith, u32}
use lo_la.Driver.Clock.{get_sync_micros}
use lo_la.Driver.State.{Driver, duplex_period_micros, half_duplex_period_micros}
use lo_la.Driver.Slot.{is_in_send_slot, is_in_receive_slot, allowed_send}

-- Two partners hold opposite slots, their clocks agree, and both compensate the same positive
-- latency, of at most half a period.
pub record AreSynced (now now' : ℕ) (host remote : Driver) : Type 0 where
  pub host_even : host.even_slot ≡ true
  pub remote_odd : remote.even_slot ≡ false
  pub clocks : get_sync_micros now host.clock ≡ get_sync_micros now' remote.clock
  pub same_ettm : host.ettm ≡ remote.ettm
  pub ettm_pos : 0 < host.ettm
  pub ettm_half : host.ettm ≤ half_duplex_period_micros

-- Two synchronised partners are never both in their send slots.
pub send_slots_exclude :
    (now now' : ℕ) (host remote : Driver)
    → AreSynced now now' host remote
    → is_in_send_slot now host ≡ true
    → is_in_send_slot now' remote ≡ false
unfolding is_in_send_slot
send_slots_exclude now now' host remote s h = ground arith

-- Two linked partners that hold opposite slots, whose clocks agree and who compensate the same
-- latency, positive and at most half a period, are never both allowed to send.
pub allowed_send_excludes :
    (now now' : ℕ) (host remote : Driver)
    → AreSynced now now' host remote
    → host.link_active ≡ true
    → remote.link_active ≡ true
    → allowed_send now host ≡ true
    → allowed_send now' remote ≡ false
unfolding allowed_send
allowed_send_excludes now now' host remote s l l' h =
    ground (arith, send_slots_exclude now now' host remote s)

-- Of two partners in opposite slots: what one sends in its slot reaches the other, one ETTM of
-- at most half a period later by the synchronised clocks, in its receive slot. `offset` is the
-- time from the receiver's present to the arrival.
pub sent_in_slot_is_received_in_slot :
    (now now' offset : ℕ) (sender receiver : Driver)
    → sender.even_slot ≢ receiver.even_slot
    → sender.ettm ≤ half_duplex_period_micros
    → u32 (get_sync_micros now' receiver.clock + offset)
      ≡ u32 (get_sync_micros now sender.clock + sender.ettm)
    → is_in_send_slot now sender ≡ true
    → is_in_receive_slot now' offset receiver ≡ true
unfolding is_in_send_slot is_in_receive_slot
sent_in_slot_is_received_in_slot now now' offset sender receiver ne h e s = ground arith

-- Of two partners in opposite slots whose clocks agree and who compensate no latency, both are
-- in their send slots exactly at half a period.
pub send_slots_share_the_middle :
    (now now' : ℕ) (host remote : Driver)
    → host.even_slot ≡ true
    → remote.even_slot ≡ false
    → get_sync_micros now host.clock ≡ get_sync_micros now' remote.clock
    → host.ettm ≡ 0
    → remote.ettm ≡ 0
    → (is_in_send_slot now host ≡ true) × (is_in_send_slot now' remote ≡ true)
      ↔ (u32 (get_sync_micros now host.clock) % duplex_period_micros ≡ half_duplex_period_micros)
unfolding is_in_send_slot
send_slots_share_the_middle now now' host remote a b c e e' = ground arith

-- A latency beyond half a period, and at most 2^32 less a period, makes the even side's limit
-- wrap: its send slot is open at every time.
pub send_slot_of_long_latency :
    (now : ℕ) (host : Driver)
    → host.even_slot ≡ true
    → half_duplex_period_micros < host.ettm
    → host.ettm ≤ 4294967296 - duplex_period_micros
    → is_in_send_slot now host ≡ true
unfolding is_in_send_slot
send_slot_of_long_latency now host a h k = ground arith
