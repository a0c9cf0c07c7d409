-- ===== src/Prelude/Words.antt =====
-- Machine integers as bit patterns, with the wrap-around of a release build. A `u32` is a number
-- below 2^32, an `i64` a number below 2^64 that stands for itself or for itself less 2^64.
use Prim.Native.Nat.{ℕ, ◌+◌, ◌-◌, ◌*◌, ◌/◌, ◌%◌}
use mathlib.Core.Bool.{Bool, xor}
use r_mini_k8s.Prelude.Tests.{ltb, leb, if◌then◌else◌}

abbrev pub u32_mod : ℕ
u32_mod = 4_294_967_296

abbrev pub add_u32 : ℕ → ℕ → ℕ
add_u32 a b = (a + b) % u32_mod

abbrev pub sub_u32 : ℕ → ℕ → ℕ
sub_u32 a b = (a + u32_mod - b) % u32_mod

abbrev pub I64 : Type 0
I64 = ℕ

abbrev pub i64_mod : ℕ
i64_mod = 18_446_744_073_709_551_616

-- 2^63, the least pattern of a negative number.
abbrev pub i64_sign : ℕ
i64_sign = 9_223_372_036_854_775_808

abbrev pub add_i64 : I64 → I64 → I64
add_i64 a b = (a + b) % i64_mod

abbrev pub mul_i64 : I64 → I64 → I64
mul_i64 a b = a * b % i64_mod

abbrev pub is_negative : I64 → Bool
is_negative a = leb i64_sign a

abbrev pub neg_i64 : I64 → I64
neg_i64 a = (i64_mod - a) % i64_mod

abbrev pub abs_i64 : I64 → ℕ
abs_i64 a = if is_negative a then i64_mod - a else a

-- Division truncates towards zero.
unfoldable pub div_i64 : I64 → I64 → I64
div_i64 a b =
    let q = abs_i64 a / abs_i64 b in
    if xor (is_negative a) (is_negative b) then neg_i64 q else q % i64_mod

-- The order of the signed numbers.
abbrev pub lt_i64 : I64 → I64 → Bool
lt_i64 a b = ltb ((a + i64_sign) % i64_mod) ((b + i64_sign) % i64_mod)

abbrev pub max_i64 : I64 → I64 → I64
max_i64 a b = if lt_i64 b a then a else b
