-- ===== src/Base/Int.antt =====
-- Signed integers over the native numbers, under the library's names (its ℤ stands on the unary ℕ).
-- Sums and orders go through the two parts of an integer, which are numbers that `omega` reads.
use Prim.Native.Nat.{ℕ, suc, ◌+◌, ◌-◌, ◌/◌, ◌≤◌, ◌<◌}
use mathlib.Core.Path.{◌≡◌}
use mathlib.Core.Bool.{Bool}
use native.Mathlib.Omega.{arith}
use native.Mathlib.Decide.{ℕ_discrete}
use native.Mathlib.Nat.{div-lt_iff_lt-mul, le-div_iff_mul-le, lt-mul-div-succ, div-mul-le_self}
use spatial_server.Base.Tests.{ltb, leb, if◌then◌else◌, Key}

-- `negsuc n` is -(n + 1).
pub data ℤ : Type 0 where
  pos : ℕ → ℤ
  negsuc : ℕ → ℤ

unfoldable pub ℤ_discrete : Discrete ℤ
ℤ_discrete = hlevel ℕ_discrete

instance abbrev pub int_key : Key ℤ
int_key = record { dec = ℤ_discrete }

abbrev pub pos_part : ℤ → ℕ
pos_part (pos n) = n
pos_part (negsuc n) = 0

abbrev pub neg_part : ℤ → ℕ
neg_part (pos n) = 0
neg_part (negsuc n) = suc n

-- a - b, as an integer.
abbrev pub sub_ℕ : ℕ → ℕ → ℤ
sub_ℕ a b = if leb b a then pos (a - b) else negsuc (b - a - 1)

infixl 65 ◌+ℤ◌ ◌-ℤ◌
infix 50 ◌≤ℤ◌
unfoldable pub ◌+ℤ◌ : ℤ → ℤ → ℤ
a +ℤ b = sub_ℕ (pos_part a + pos_part b) (neg_part a + neg_part b)

unfoldable pub ◌-ℤ◌ : ℤ → ℤ → ℤ
a -ℤ b = sub_ℕ (pos_part a + neg_part b) (neg_part a + pos_part b)

abbrev pub ◌≤ℤ◌ : ℤ → ℤ → Type 0
a ≤ℤ b = pos_part a + neg_part b ≤ pos_part b + neg_part a

abbrev pub ltb_ℤ : ℤ → ℤ → Bool
ltb_ℤ a b = ltb (pos_part a + neg_part b) (pos_part b + neg_part a)

-- The magnitude, as a number.
abbrev pub magnitude : ℤ → ℕ
magnitude a = pos_part a + neg_part a

-- Division by a positive number, rounded down.
unfoldable pub floor_div : ℤ → ℕ → ℤ
floor_div (pos n) d = pos (n / d)
floor_div (negsuc n) d = negsuc (n / d)

-- Division of a number, rounded up.
abbrev pub ceil_div : ℕ → ℕ → ℕ
ceil_div n d = (n + (d - 1)) / d

pub +ℤ_parts :
    (a b : ℤ)
    → pos_part (a +ℤ b) + neg_part a + neg_part b ≡ neg_part (a +ℤ b) + pos_part a + pos_part b
unfolding ◌+ℤ◌
+ℤ_parts a b = ground arith

pub -ℤ_parts :
    (a b : ℤ)
    → pos_part (a -ℤ b) + neg_part a + pos_part b ≡ neg_part (a -ℤ b) + pos_part a + neg_part b
unfolding ◌-ℤ◌
-ℤ_parts a b = ground arith

pub eq_of_parts : (a b : ℤ) → pos_part a + neg_part b ≡ pos_part b + neg_part a → a ≡ b
eq_of_parts a b h = ground arith

pub ruleset int_laws = (arith, +ℤ_parts, -ℤ_parts, eq_of_parts)

-- |a - b| ≤ n, without subtraction.
abbrev pub Near : ℕ → ℤ → ℤ → Type 0
Near n a b =
    (pos_part a + neg_part b ≤ pos_part b + neg_part a + n)
    × (pos_part b + neg_part a ≤ pos_part a + neg_part b + n)

div_step : (x c r d : ℕ) → 0 < d → x ≤ c + r → x / d < c / d + ceil_div r d + 1
div_step x c r d h p =
    (div-lt_iff_lt-mul h).1 (omega (arith, lt-mul-div-succ c h, lt-mul-div-succ (r + (d - 1)) h))

div_gap : (n m r d : ℕ) → 0 < d → n + m + 1 ≤ r → n / d + m / d + 1 ≤ ceil_div r d
div_gap n m r d h p =
    (le-div_iff_mul-le h).1 (omega (arith, div-mul-le_self n d, div-mul-le_self m d))

-- Rounding down to cells of width `d` brings values that are `r` apart at most ⌈r / d⌉ cells apart.
pub Near-floor_div :
    (a b : ℤ) (r d : ℕ) → 0 < d → Near r a b → Near (ceil_div r d) (floor_div a d) (floor_div b d)
unfolding floor_div
Near-floor_div (pos x) (pos c) r d h p =
    omega (arith, div_step x c r d h (omega arith), div_step c x r d h (omega arith))
Near-floor_div (pos x) (negsuc c) r d h p = omega (arith, div_gap x c r d h (omega arith))
Near-floor_div (negsuc x) (pos c) r d h p = omega (arith, div_gap c x r d h (omega arith))
Near-floor_div (negsuc x) (negsuc c) r d h p =
    omega (arith, div_step x c r d h (omega arith), div_step c x r d h (omega arith))
