-- ===== src/Link/Hopper.antt =====
-- src/Services/Link/LoLaLinkTimedHopper.h and src/Services/Link/LoLaLinkChannelManager.h, which it
-- drives with LOLA_LINK_USE_FREQUENCY_HOP.
pub mod Period
use lo_la.Prelude.{
  ℕ, ◌+◌, ◌-◌, ◌*◌, ◌/◌, ◌%◌, Bool, true, false, not, ◌&&◌, if◌then◌else◌, List, u8,
}
use lo_la.Crypto.Library.{CryptoLibrary}
use lo_la.Crypto.Encoder.{Encoder, set_token}
use lo_la.Crypto.Token.{TokenSource, set_totp_period, get_seed, get_token}
use lo_la.Driver.Clock.{Clock, get_sync_micros}
use lo_la.Services.Task.{TaskCall, run_asap, run_delayed}

-- LOLA_LINK_SERVICE_LINKED_TIMED_HOP_PERIOD_MILLIS
abbrev pub hop_period : ℕ
hop_period = 10000

-- The argument of the driver's SetChannel in ResetChannel and SetNextHop, for the radio's first and
-- last channel, both of a byte.
unfoldable pub reset_channel : (channel_min channel_max : ℕ) → ℕ
reset_channel channel_min channel_max = (channel_min + channel_max) / 2

unfoldable pub set_next_hop : (channel_min channel_max hop_index : ℕ) → ℕ
set_next_hop channel_min channel_max hop_index =
    u8 (hop_index % (channel_max + 1 - channel_min) + channel_min)

unfoldable pub get_sync_millis : ℕ → Clock → ℕ
get_sync_millis micros clock = get_sync_micros micros clock / 1000

unfoldable pub setup : TokenSource → TokenSource
setup crypto_seed = set_totp_period hop_period crypto_seed

-- OnLinkEstablished of a hopper that was set up: the encoder is given the seed, as
-- LOLA_LINK_USE_TOKEN_HOP is off, and the task runs soon.
unfoldable pub on_link_established : CryptoLibrary → TokenSource → Encoder → Encoder × TaskCall
on_link_established lib crypto_seed encoder =
    (set_token lib (get_seed crypto_seed) encoder, run_asap)

-- Callback: the token of SetCurrent, and the delay until the next one. The two reads of the clock
-- are at `micros` and `micros'`.
unfoldable pub callback : (micros micros' : ℕ) → TokenSource → Clock → ℕ × ℕ
unfolding get_sync_millis
callback micros micros' crypto_seed clock = (
  get_token (get_sync_millis micros clock) crypto_seed,
  hop_period - get_sync_millis micros' clock % hop_period,
)
