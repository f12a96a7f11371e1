-- ===== src/Prelude/Int.antt =====
-- C integers: a signed value is an integer, and a conversion to or from an unsigned type of `w`
-- bits wraps modulo `2 ^ w`.
use Prim.Native.Nat.{ℕ, suc, ◌-◌, ◌%◌, ◌^◌, ◌≤◌, ◌<◌}
use mathlib.Core.Bool.{Bool, true, false, ◌&&◌}
use native.Mathlib.Omega.{arith}
use libirpc.Prelude.Tests.{ltb, leb, ◌==◌, if◌then◌else◌}

-- `negsuc n` is -(n + 1).
pub data ℤ : Type 0 where
  pos : ℕ → ℤ
  negsuc : ℕ → ℤ

abbrev pub pos_part : ℤ → ℕ
pos_part (pos n) = n
pos_part (negsuc n) = 0

abbrev pub neg_part : ℤ → ℕ
neg_part (pos n) = 0
neg_part (negsuc n) = suc n

-- `x < 0`, `x == y` and `k <= x` on signed values.
abbrev pub is_negative : ℤ → Bool
is_negative (pos n) = false
is_negative (negsuc n) = true

abbrev pub eq_ℤ : ℤ → ℤ → Bool
eq_ℤ a b = (pos_part a == pos_part b) && (neg_part a == neg_part b)

abbrev pub at_least : ℕ → ℤ → Bool
at_least k (pos n) = leb k n
at_least k (negsuc n) = false

-- The values of `int` (32 bits) and of `char` (8 bits, signed).
abbrev pub IsInt : ℤ → Type 0
IsInt x = (pos_part x < 2147483648) × (neg_part x ≤ 2147483648)

abbrev pub IsChar : ℤ → Type 0
IsChar x = (pos_part x < 128) × (neg_part x ≤ 128)

-- The conversion of a signed value to an unsigned type of `w` bits.
unfoldable pub to_unsigned : ℕ → ℤ → ℕ
to_unsigned w (pos n) = n % 2 ^ w
to_unsigned w (negsuc n) = 2 ^ w - 1 - n % 2 ^ w

-- The conversion of an unsigned value to `int`.
unfoldable pub to_int : ℕ → ℤ
to_int n =
    let low = n % 4294967296 in if ltb low 2147483648 then pos low else negsuc (4294967295 - low)

pub to_int-IsInt : (n : ℕ) → IsInt (to_int n)
unfolding to_int
to_int-IsInt n = ground arith
