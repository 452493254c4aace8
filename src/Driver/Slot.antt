-- ===== src/Driver/Slot.antt =====
-- The duplex slots of src/PacketDriver/LoLaPacketDriver.h: IsInReceiveSlot, IsInSendSlot,
-- IsReceiveCollision and AllowedSend.
pub mod Exclusion
use lo_la.Prelude.{
  ℕ, ◌+◌, ◌%◌, Bool, true, false, not, ◌&&◌, ◌||◌, if◌then◌else◌, leb, ltb, u32, sub32, abs_i32,
}
use lo_la.Driver.Clock.{get_sync_micros}
use lo_la.Driver.State.{
  Driver, ActiveState, ready_for_anything, duplex_period_micros, half_duplex_period_micros,
  back_off_linked_millis, back_off_unlinked_millis, get_elapsed_millis_last_valid_sent,
}

-- The offset is an `int32_t`, given by its bit pattern; the sum is a `uint32_t`.
unfoldable pub is_in_receive_slot : (micros offset_micros : ℕ) → Driver → Bool
is_in_receive_slot micros offset_micros d =
    let duplex_elapsed =
      u32 (get_sync_micros micros d.clock + offset_micros) % duplex_period_micros in
    if d.even_slot
    then leb half_duplex_period_micros duplex_elapsed
    else leb duplex_elapsed half_duplex_period_micros

-- The two differences are of `uint32_t`: they wrap where ETTM is the greater.
unfoldable pub is_in_send_slot : ℕ → Driver → Bool
is_in_send_slot micros d =
    let duplex_elapsed = u32 (get_sync_micros micros d.clock + d.ettm) % duplex_period_micros in
    if d.even_slot
    then leb duplex_elapsed (sub32 half_duplex_period_micros d.ettm)
    else (leb half_duplex_period_micros duplex_elapsed
        && leb duplex_elapsed (sub32 duplex_period_micros d.ettm))

-- The test of IsReceiveCollision. LOLA_LINK_COLLISION_SLOT_RANGE_MICROS is defined nowhere in
-- the repository: it is the argument `slot_range`. `&&` binds tighter than `||`.
unfoldable pub is_out_of_slot : (slot_range micros offset_micros : ℕ) → Driver → Bool
unfolding is_in_receive_slot
is_out_of_slot slot_range micros offset_micros d =
    (d.link_active && ltb slot_range (abs_i32 offset_micros))
    || not (is_in_receive_slot micros offset_micros d)

abbrev pub is_ready : ActiveState → Bool
is_ready ready_for_anything = true
is_ready _ = false

unfoldable pub allowed_send : ℕ → Driver → Bool
unfolding is_in_send_slot get_elapsed_millis_last_valid_sent
allowed_send micros d =
    if not (is_ready d.active_state) || d.channel_pending
    then false
    else if d.link_active
    then (is_in_send_slot micros d
        && leb back_off_linked_millis (get_elapsed_millis_last_valid_sent micros d))
    else leb back_off_unlinked_millis (get_elapsed_millis_last_valid_sent micros d)
