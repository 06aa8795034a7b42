-- ===== src/Base/Int.antt =====
-- Rust's `i64` without its bounds: signed integers over the native numbers. Sums and orders are read
-- off the two parts of an integer.
use Prim.Native.Nat.{ℕ, suc, ◌+◌, ◌-◌, ◌<◌}
use mathlib.Core.Bool.{Bool, true}
use mathlib.Core.Logic.{◌↔◌}
use mathlib.Core.Path.{◌≡◌}
use native.Mathlib.Omega.{arith}
use mneme_substrate.Base.Tests.{ltb, leb, ◌==◌, if◌then◌else◌}

-- `negsuc n` is -(n + 1).
pub data ℤ : Type 0 where
  pos negsuc : ℕ → ℤ

abbrev pub pos_part : ℤ → ℕ
pos_part (pos n) = n
pos_part (negsuc _) = 0

abbrev pub neg_part : ℤ → ℕ
neg_part (pos _) = 0
neg_part (negsuc n) = suc n

abbrev pub sub_ℕ : ℕ → ℕ → ℤ
sub_ℕ a b = if leb b a then pos (a - b) else negsuc (b - a - 1)

infixl 65 ◌+ℤ◌ ◌-ℤ◌
unfoldable pub ◌+ℤ◌ : ℤ → ℤ → ℤ
a +ℤ b = sub_ℕ (pos_part a + pos_part b) (neg_part a + neg_part b)

unfoldable pub ◌-ℤ◌ : ℤ → ℤ → ℤ
a -ℤ b = sub_ℕ (pos_part a + neg_part b) (neg_part a + pos_part b)

abbrev pub ltb_ℤ : ℤ → ℤ → Bool
ltb_ℤ a b = ltb (pos_part a + neg_part b) (pos_part b + neg_part a)

abbrev pub is_zero : ℤ → Bool
is_zero a = pos_part a == neg_part a

abbrev pub IsPositive : ℤ → Type 0
IsPositive a = neg_part a < pos_part a

pub +ℤ-parts :
    (a b : ℤ)
    → pos_part (a +ℤ b) + (neg_part a + neg_part b) ≡ neg_part (a +ℤ b) + (pos_part a + pos_part b)
unfolding ◌+ℤ◌
+ℤ-parts a b = ground arith

pub -ℤ-parts :
    (a b : ℤ)
    → pos_part (a -ℤ b) + (neg_part a + pos_part b) ≡ neg_part (a -ℤ b) + (pos_part a + neg_part b)
unfolding ◌-ℤ◌
-ℤ-parts a b = ground arith

pub parts_inj : (a b : ℤ) → pos_part a + neg_part b ≡ pos_part b + neg_part a → a ≡ b
parts_inj a b h = ground arith

pub ruleset int_rules = (arith, +ℤ-parts, -ℤ-parts, parts_inj)

pub is_zero_iff : (a : ℤ) → (is_zero a ≡ true) ↔ (a ≡ pos 0)
is_zero_iff a = ground arith

pub add_zero : (a : ℤ) → a +ℤ pos 0 ≡ a
add_zero a = omega int_rules

pub zero_add : (a : ℤ) → pos 0 +ℤ a ≡ a
zero_add a = omega int_rules

pub add_assoc : (a b c : ℤ) → a +ℤ b +ℤ c ≡ a +ℤ (b +ℤ c)
add_assoc a b c = omega int_rules

pub add_right_comm : (a b c : ℤ) → a +ℤ b +ℤ c ≡ a +ℤ c +ℤ b
add_right_comm a b c = omega int_rules

pub add-sub_cancel : (a b : ℤ) → a +ℤ b -ℤ b ≡ a
add-sub_cancel a b = omega int_rules

pub sub-add : (a b c : ℤ) → (a -ℤ b) +ℤ c ≡ a +ℤ c -ℤ b
sub-add a b c = omega int_rules
