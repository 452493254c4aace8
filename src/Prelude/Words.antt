-- ===== src/Prelude/Words.antt =====
-- Machine words as native numbers: the bit pattern, which wraps by `%`.
use Prim.Native.Nat.{ℕ, ◌+◌, ◌-◌, ◌*◌, ◌/◌, ◌%◌, ◌<◌}
use mathlib.Core.List.{List, [], ◌∷◌}
use mathlib.Core.Path.{◌≡◌}
use native.Mathlib.Omega.{arith}
use lo_la.Prelude.Tests.{ltb, if◌then◌else◌}

abbrev pub u8 : ℕ → ℕ
u8 n = n % 256

abbrev pub u16 : ℕ → ℕ
u16 n = n % 65536

abbrev pub u32 : ℕ → ℕ
u32 n = n % 4294967296

abbrev pub u64 : ℕ → ℕ
u64 n = n % 18446744073709551616

-- `uint32_t` a - b, of two words.
abbrev pub sub32 : ℕ → ℕ → ℕ
sub32 a b = u32 (a + 4294967296 - b)

-- UINT8_MAX, UINT16_MAX and UINT32_MAX.
abbrev pub u8_max : ℕ
u8_max = 255

abbrev pub u16_max : ℕ
u16_max = 65535

abbrev pub u32_max : ℕ
u32_max = 4294967295

-- The lesser of two `int16_t` values, given by their bit patterns.
abbrev pub min_i16 : ℕ → ℕ → ℕ
min_i16 a b = if ltb (u16 (a + 32768)) (u16 (b + 32768)) then a else b

-- `abs` of an `int32_t`, given by its bit pattern. Of INT32_MIN, where C++ leaves `abs` undefined,
-- it is 2 ^ 31.
abbrev pub abs_i32 : ℕ → ℕ
abs_i32 w = if ltb w 2147483648 then w else 4294967296 - w

-- The four bytes of a `uint32_t`, least significant first (the target is little-endian), and the
-- word that four bytes hold.
abbrev pub word_bytes : ℕ → List ℕ
word_bytes w = u8 w ∷ u8 (w / 256) ∷ u8 (w / 65536) ∷ u8 (w / 16777216) ∷ []

abbrev pub bytes_word : ℕ → ℕ → ℕ → ℕ → ℕ
bytes_word a b c d = a + b * 256 + c * 65536 + d * 16777216

pub bytes_word-word_bytes :
    (w : ℕ)
    → w < 4294967296
    → bytes_word (u8 w) (u8 (w / 256)) (u8 (w / 65536)) (u8 (w / 16777216)) ≡ w
bytes_word-word_bytes w h = omega arith
