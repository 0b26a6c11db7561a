-- ===== src/Prelude/Int.antt =====
-- The signed integers that the program casts and compares, over the native numbers.
use Prim.Native.Nat.{ℕ, ◌-◌, ◌%◌, ◌<◌}
use mathlib.Core.Path.{◌≡◌}
use mathlib.Core.Bool.{Bool, true, false}
use native.Mathlib.Omega.{arith}
use ecat_middleware_advr.Prelude.Tests.{ltb, if◌then◌else◌}

-- `negsuc n` is -(n + 1).
pub data ℤ : Type 0 where
  pos : ℕ → ℤ
  negsuc : ℕ → ℤ

abbrev pub is_neg : ℤ → Bool
is_neg (pos n) = false
is_neg (negsuc n) = true

abbrev pub u32_mod : ℕ
u32_mod = 4294967296

abbrev pub u64_mod : ℕ
u64_mod = 18446744073709551616

abbrev pub int32_max : ℕ
int32_max = 2147483647

-- The values of an `int32_t`.
abbrev pub IsInt32 : ℤ → Type 0
IsInt32 (pos n) = n < 2147483648
IsInt32 (negsuc n) = n < 2147483648

-- `static_cast<uint32_t>`: the value modulo 2^32.
unfoldable pub to_uint32 : ℤ → ℕ
to_uint32 (pos n) = n % u32_mod
to_uint32 (negsuc n) = u32_mod - 1 - n % u32_mod

-- `static_cast<uint64_t>`: the value modulo 2^64.
unfoldable pub to_uint64 : ℤ → ℕ
to_uint64 (pos n) = n % u64_mod
to_uint64 (negsuc n) = u64_mod - 1 - n % u64_mod

-- `static_cast<int32_t>` of an unsigned value: two's complement.
unfoldable pub to_int32 : ℕ → ℤ
to_int32 n = let r = n % u32_mod in if ltb r 2147483648 then pos r else negsuc (u32_mod - 1 - r)

-- A negative `int32_t` becomes an unsigned value of the upper half.
pub to_uint32_neg : (z : ℤ) → IsInt32 z → is_neg z ≡ true → int32_max < to_uint32 z
unfolding to_uint32
to_uint32_neg (pos n) h e = cc
to_uint32_neg (negsuc n) h e = omega arith

pub to_uint32_pos : (n : ℕ) → n < 2147483648 → to_uint32 (pos n) ≡ n
unfolding to_uint32
to_uint32_pos n h = omega arith

pub to_int32_small : (n : ℕ) → n < 2147483648 → to_int32 n ≡ pos n
unfolding to_int32
to_int32_small n h = ground arith
