-- ===== src/Crypto/Token.antt =====
-- src/LoLaCrypto/LoLaCryptoTokenSource.h, and ITokenSource.h whose methods it overrides. The
-- base's GetTOTPPeriod is not overridden and answers 0.
use lo_la.Prelude.{ℕ, ◌/◌, bit_xor, u32_max}

pub record TokenSource : Type 0 where
  pub totp_period_millis : ℕ
  pub totp_seed : ℕ

abbrev pub new_token_source : TokenSource
new_token_source = record { totp_period_millis = u32_max; totp_seed = 0 }

abbrev pub get_totp_period : TokenSource → ℕ
get_totp_period s = 0

unfoldable pub set_totp_period : ℕ → TokenSource → TokenSource
set_totp_period totp_period_millis s = record s { totp_period_millis = totp_period_millis }

unfoldable pub set_seed : ℕ → TokenSource → TokenSource
set_seed seed s = record s { totp_seed = seed }

unfoldable pub get_seed : TokenSource → ℕ
get_seed s = s.totp_seed

unfoldable pub get_token : ℕ → TokenSource → ℕ
get_token sync_millis s = bit_xor (sync_millis / s.totp_period_millis) s.totp_seed
