-- ===== src/Base/Words.antt =====
-- Unsigned machine words as natural numbers, with the wrap-around and the saturation written out.
use Prim.Native.Nat.{ℕ, ◌+◌, ◌-◌, ◌*◌, ◌%◌, ◌^◌, ◌<◌, min}

abbrev pub u32_max : ℕ
u32_max = 0xffff_ffff

abbrev pub u64_max : ℕ
u64_max = 0xffff_ffff_ffff_ffff

abbrev pub u32 : ℕ → ℕ
u32 n = n % 2 ^ 32

abbrev pub u64 : ℕ → ℕ
u64 n = n % 2 ^ 64

-- `saturating_add` on `u32`, and `saturating_sub` on any unsigned word.
abbrev pub sat_add32 : ℕ → ℕ → ℕ
sat_add32 a b = min (a + b) u32_max

abbrev pub sat_sub : ℕ → ℕ → ℕ
sat_sub a b = a - b

-- `-` on `u32` and `u64`, which wraps where the minuend is the smaller.
abbrev pub sub32 : ℕ → ℕ → ℕ
sub32 a b = (a + 2 ^ 32 - b) % 2 ^ 32

abbrev pub sub64 : ℕ → ℕ → ℕ
sub64 a b = (a + 2 ^ 64 - b) % 2 ^ 64

abbrev pub IsU32 : ℕ → Type 0
IsU32 n = n < 2 ^ 32

abbrev pub IsByte : ℕ → Type 0
IsByte n = n < 256

-- `i64` where the value is not negative: `saturating_add` and `saturating_mul`.
abbrev pub i64_max : ℕ
i64_max = 0x7fff_ffff_ffff_ffff

abbrev pub sat_add63 : ℕ → ℕ → ℕ
sat_add63 a b = min (a + b) i64_max

abbrev pub sat_mul63 : ℕ → ℕ → ℕ
sat_mul63 a b = min (a * b) i64_max
