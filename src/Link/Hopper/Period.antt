-- ===== src/Link/Hopper/Period.antt =====
-- When src/Services/Link/LoLaLinkTimedHopper.h hops, and where to.
use lo_la.Prelude.{ℕ, ◌+◌, ◌-◌, ◌/◌, ◌%◌, ◌≤◌, ◌<◌, ◌≡◌, refl, arith}
use native.Mathlib.Nat.{mod-lt}
use lo_la.Crypto.Token.{TokenSource, get_token, get_seed, set_totp_period}
use lo_la.Driver.Clock.{Clock}
use lo_la.Link.Hopper.{hop_period, setup, set_next_hop, get_sync_millis, callback}

-- The delay that the hopper sets leads from the synchronised time, in milliseconds and not
-- wrapped again, to a multiple of the period; it is positive and at most a period.
pub callback_delay :
    (micros micros' : ℕ) (s : TokenSource) (clock : Clock)
    → let (token, delay) = callback micros micros' s clock in
      ((get_sync_millis micros' clock + delay) % hop_period ≡ 0)
      × (0 < delay)
      × (delay ≤ hop_period)
unfolding callback
callback_delay micros micros' s clock = ground arith

-- Two partners with the same seed whose clocks stand in the same period have the same token.
pub callback_agrees :
    (micros micros' : ℕ) (s s' : TokenSource) (clock clock' : Clock)
    → get_seed s ≡ get_seed s'
    → get_sync_millis micros clock / hop_period ≡ get_sync_millis micros' clock' / hop_period
    → (callback micros micros (setup s) clock).0 ≡ (callback micros' micros' (setup s') clock').0
unfolding callback setup get_token set_totp_period get_seed
callback_agrees micros micros' s s' clock clock' e h = rw (e, h) refl

-- On a radio whose first channel is not above its last, and whose channels are bytes, every hop
-- index gives a channel between the two.
pub set_next_hop-range :
    (channel_min channel_max hop_index : ℕ)
    → channel_min ≤ channel_max
    → channel_max < 256
    → (channel_min ≤ set_next_hop channel_min channel_max hop_index)
      × (set_next_hop channel_min channel_max hop_index ≤ channel_max)
unfolding set_next_hop
set_next_hop-range channel_min channel_max hop_index l h =
    let r = mod-lt hop_index {m = channel_max + 1 - channel_min} (omega (arith, l)) in
    (omega (arith, r, l, h), omega (arith, r, l, h))
