-- ===== src/Base/Int.antt =====
-- Signed integers over the native numbers, and the 256-bit ones of Solidity: a cast takes the bit pattern
-- as it is, and an operation whose result does not fit reverts.
use Prim.Native.Nat.{ℕ, suc, ◌+◌, ◌-◌, ◌*◌, ◌/◌, ◌^◌, ◌<◌}
use mathlib.Core.Path.{◌≡◌}
use native.Mathlib.Omega.{arith}
use mathlib.Core.Bool.{Bool, true, false}
use tapioca_lending_engine.Base.Tests.{ltb, leb, ◌==◌, if◌then◌else◌}
use tapioca_lending_engine.Base.Results.{Outcome, ok, fail}

-- `negsuc n` is -(n + 1).
pub data ℤ : Type 0 where
  pos : ℕ → ℤ
  negsuc : ℕ → ℤ

abbrev pub pos_part : ℤ → ℕ
pos_part (pos n) = n
pos_part (negsuc n) = 0

abbrev pub neg_part : ℤ → ℕ
neg_part (pos n) = 0
neg_part (negsuc n) = suc n

-- a - b, as an integer
abbrev pub sub_ℕ : ℕ → ℕ → ℤ
sub_ℕ a b = if leb b a then pos (a - b) else negsuc (b - a - 1)

infixl 65 ◌+ℤ◌ ◌-ℤ◌
infixl 70 ◌*ℤ◌ ◌/ℤ◌
abbrev pub ◌+ℤ◌ : ℤ → ℤ → ℤ
a +ℤ b = sub_ℕ (pos_part a + pos_part b) (neg_part a + neg_part b)

abbrev pub ◌-ℤ◌ : ℤ → ℤ → ℤ
a -ℤ b = sub_ℕ (pos_part a + neg_part b) (neg_part a + pos_part b)

abbrev pub ◌*ℤ◌ : ℤ → ℤ → ℤ
a *ℤ b =
    sub_ℕ (pos_part a * pos_part b + neg_part a * neg_part b)
      (pos_part a * neg_part b + neg_part a * pos_part b)

-- The quotient that is rounded towards 0
abbrev pub ◌/ℤ◌ : ℤ → ℤ → ℤ
pos a /ℤ pos b = pos (a / b)
pos a /ℤ negsuc b = sub_ℕ 0 (a / suc b)
negsuc a /ℤ pos b = sub_ℕ 0 (suc a / b)
negsuc a /ℤ negsuc b = pos (suc a / suc b)

abbrev pub is_negative : ℤ → Bool
is_negative (pos n) = false
is_negative (negsuc n) = true

abbrev pub ltb_ℤ : ℤ → ℤ → Bool
ltb_ℤ a b = ltb (pos_part a + neg_part b) (pos_part b + neg_part a)

-- `int256(n)` of a `uint256`
abbrev pub to_int256 : ℕ → ℤ
to_int256 n = if ltb n (2 ^ 255) then pos n else sub_ℕ n (2 ^ 256)

-- `uint256(a)` of an `int256`
abbrev pub to_uint256 : ℤ → ℕ
to_uint256 (pos n) = n
to_uint256 (negsuc n) = 2 ^ 256 - suc n

abbrev pub checked_int : ℤ → Outcome ℤ
checked_int (pos n) = if ltb n (2 ^ 255) then ok (pos n) else fail "Panic(0x11)"
checked_int (negsuc n) = if ltb n (2 ^ 255) then ok (negsuc n) else fail "Panic(0x11)"

abbrev pub divided : ℤ → ℤ → Outcome ℤ
divided a (pos b) = if b == 0 then fail "Panic(0x12)" else checked_int (a /ℤ pos b)
divided a (negsuc b) = checked_int (a /ℤ negsuc b)

pub checked_int_lem : (a : ℤ) {b : ℤ} → checked_int a ≡ ok b → b ≡ a
checked_int_lem (pos n) h = ground arith
checked_int_lem (negsuc n) h = ground arith

pub to_int256_small : (n : ℕ) → n < 2 ^ 255 → to_int256 n ≡ pos n
to_int256_small n h = ground arith
