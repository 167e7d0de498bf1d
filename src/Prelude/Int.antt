-- ===== src/Prelude/Int.antt =====
-- Signed integers over the native numbers, under the library's names, with the division of C++
-- (towards zero) and the floor division of the calendar, and the readings of machine words.
use Prim.Native.Nat.{ℕ, suc, ◌+◌, ◌-◌, ◌*◌, ◌/◌, ◌%◌, ◌^◌}
use mathlib.Core.Path.{◌≡◌}
use mathlib.Core.Bool.{Bool, false}
use native.Mathlib.Omega.{arith}
use mariadb_scylla_storage_e.Prelude.Tests.{ltb, leb, ◌==◌, if◌then◌else◌}

-- `negsuc n` is -(n + 1).
pub data ℤ : Type 0 where
  pos : ℕ → ℤ
  negsuc : ℕ → ℤ

abbrev pub pos_part : ℤ → ℕ
pos_part (pos n) = n
pos_part (negsuc n) = 0

abbrev pub neg_part : ℤ → ℕ
neg_part (pos n) = 0
neg_part (negsuc n) = suc n

-- a - b, as an integer.
abbrev pub sub_ℕ : ℕ → ℕ → ℤ
sub_ℕ a b = if leb b a then pos (a - b) else negsuc (b - a - 1)

abbrev pub negate : ℤ → ℤ
negate a = sub_ℕ (neg_part a) (pos_part a)

infixl 65 ◌+ℤ◌ ◌-ℤ◌
unfoldable pub ◌+ℤ◌ : ℤ → ℤ → ℤ
a +ℤ b = sub_ℕ (pos_part a + pos_part b) (neg_part a + neg_part b)

unfoldable pub ◌-ℤ◌ : ℤ → ℤ → ℤ
a -ℤ b = sub_ℕ (pos_part a + neg_part b) (neg_part a + pos_part b)

-- Moving an address from one base to another and back.
pub rebase_back : (a b p : ℤ) → a +ℤ (b +ℤ (p -ℤ a) -ℤ b) ≡ p
unfolding ◌+ℤ◌ ◌-ℤ◌
rebase_back a b p = ground arith

pub +ℤ-self_sub : (a b : ℤ) → a +ℤ (b -ℤ b) ≡ a
unfolding ◌+ℤ◌ ◌-ℤ◌
+ℤ-self_sub a b = ground arith

pub +ℤ-negate : (p d : ℤ) → p +ℤ d +ℤ negate d ≡ p
unfolding ◌+ℤ◌
+ℤ-negate p d = ground arith

infix 50 ◌==ℤ◌
abbrev pub ◌==ℤ◌ : ℤ → ℤ → Bool
a ==ℤ b = (pos_part a + neg_part b) == (pos_part b + neg_part a)

-- Multiplication, division and remainder by a natural number; C++ rounds towards zero.
abbrev pub mul_ℕ : ℤ → ℕ → ℤ
mul_ℕ a k = sub_ℕ (pos_part a * k) (neg_part a * k)

abbrev pub div_ℕ : ℤ → ℕ → ℤ
div_ℕ a k = sub_ℕ (pos_part a / k) (neg_part a / k)

abbrev pub rem_ℕ : ℤ → ℕ → ℤ
rem_ℕ a k = sub_ℕ (pos_part a % k) (neg_part a % k)

-- Division and remainder that round down.
abbrev pub floor_div : ℤ → ℕ → ℤ
floor_div (pos n) k = pos (n / k)
floor_div (negsuc n) k = negsuc (n / k)

abbrev pub floor_mod : ℤ → ℕ → ℕ
floor_mod (pos n) k = n % k
floor_mod (negsuc n) k = k - 1 - n % k

abbrev pub is_zero : ℤ → Bool
is_zero (pos n) = n == 0
is_zero (negsuc n) = false

-- The two's complement pattern of an integer in w bits, and the signed number of a pattern.
abbrev pub to_word : ℕ → ℤ → ℕ
to_word w a = floor_mod a (2 ^ w)

abbrev pub signed : ℕ → ℕ → ℤ
signed w x = if ltb x (2 ^ (w - 1)) then pos x else negsuc (2 ^ w - x - 1)
