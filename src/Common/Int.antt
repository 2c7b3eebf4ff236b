-- ===== src/Common/Int.antt =====
-- Signed integers over the native numbers, and `Decimal`, which stands on them: a count of units,
-- in which sums, differences, products and comparisons are exact.
use Prim.Native.Nat.{ℕ, suc, ◌+◌, ◌-◌, ◌*◌, ◌≤◌}
use mathlib.Core.Path.{◌≡◌, ap}
use mathlib.Core.Bool.{Bool}
use native.Mathlib.Omega.{arith}
use native.Mathlib.Nat.{mul-le-mul_right}
use lumendark.Common.Tests.{ltb, leb, ◌==◌, if◌then◌else◌}

-- `negsuc n` is -(n + 1).
pub data ℤ : Type 0 where
  pos : ℕ → ℤ
  negsuc : ℕ → ℤ

abbrev pub pos_part : ℤ → ℕ
pos_part (pos n) = n
pos_part (negsuc n) = 0

abbrev pub neg_part : ℤ → ℕ
neg_part (pos n) = 0
neg_part (negsuc n) = suc n

-- a - b, as an integer.
abbrev pub sub_ℕ : ℕ → ℕ → ℤ
sub_ℕ a b = if leb b a then pos (a - b) else negsuc (b - a - 1)

infixl 65 ◌+ℤ◌ ◌-ℤ◌
infixl 70 ◌*ℤ◌
infix 50 ◌≤ℤ◌
unfoldable pub ◌+ℤ◌ : ℤ → ℤ → ℤ
a +ℤ b = sub_ℕ (pos_part a + pos_part b) (neg_part a + neg_part b)

unfoldable pub ◌-ℤ◌ : ℤ → ℤ → ℤ
a -ℤ b = sub_ℕ (pos_part a + neg_part b) (neg_part a + pos_part b)

unfoldable pub ◌*ℤ◌ : ℤ → ℤ → ℤ
a *ℤ b =
    sub_ℕ (pos_part a * pos_part b + neg_part a * neg_part b)
      (pos_part a * neg_part b + neg_part a * pos_part b)

abbrev pub ◌≤ℤ◌ : ℤ → ℤ → Type 0
a ≤ℤ b = pos_part a + neg_part b ≤ pos_part b + neg_part a

abbrev pub ltb_ℤ : ℤ → ℤ → Bool
ltb_ℤ a b = ltb (pos_part a + neg_part b) (pos_part b + neg_part a)

abbrev pub leb_ℤ : ℤ → ℤ → Bool
leb_ℤ a b = leb (pos_part a + neg_part b) (pos_part b + neg_part a)

abbrev pub eqb_ℤ : ℤ → ℤ → Bool
eqb_ℤ a b = (pos_part a + neg_part b) == (pos_part b + neg_part a)

abbrev pub min_ℤ : ℤ → ℤ → ℤ
min_ℤ a b = if leb_ℤ a b then a else b

abbrev pub Decimal : Type 0
Decimal = ℤ

-- With these the operations can stay shut.
pub +ℤ_parts :
    (a b : ℤ)
    → pos_part (a +ℤ b) + neg_part a + neg_part b ≡ neg_part (a +ℤ b) + pos_part a + pos_part b
unfolding ◌+ℤ◌
+ℤ_parts a b = ground arith

pub -ℤ_parts :
    (a b : ℤ)
    → pos_part (a -ℤ b) + neg_part a + pos_part b ≡ neg_part (a -ℤ b) + pos_part a + neg_part b
unfolding ◌-ℤ◌
-ℤ_parts a b = ground arith

pub eq_of_parts : (a b : ℤ) → pos_part a + neg_part b ≡ pos_part b + neg_part a → a ≡ b
eq_of_parts a b h = ground arith

pub ruleset int_laws = (arith, +ℤ_parts, -ℤ_parts, eq_of_parts)

pub *ℤ_parts :
    (a b : ℤ)
    → pos_part (a *ℤ b) + (pos_part a * neg_part b + neg_part a * pos_part b)
      ≡ neg_part (a *ℤ b) + (pos_part a * pos_part b + neg_part a * neg_part b)
unfolding ◌*ℤ◌
*ℤ_parts a b = ground arith

-- Facts about products, which the linear tactics do not find.
pub mul-sub : (p q t : ℤ) → p *ℤ (q -ℤ t) ≡ p *ℤ q -ℤ p *ℤ t
mul-sub p q t = omega (
  int_laws,
  *ℤ_parts p (q -ℤ t),
  *ℤ_parts p q,
  *ℤ_parts p t,
  ap (λ (x : ℕ). x * pos_part p) (-ℤ_parts q t),
  ap (λ (x : ℕ). x * neg_part p) (-ℤ_parts q t),
)

pub mul_nonneg : (p t : ℤ) → pos 0 ≤ℤ p → pos 0 ≤ℤ t → pos 0 ≤ℤ p *ℤ t
unfolding ◌*ℤ◌
mul_nonneg p t hp ht = ground arith

pub mul_mono : (p q t : ℤ) → p ≤ℤ q → pos 0 ≤ℤ t → p *ℤ t ≤ℤ q *ℤ t
mul_mono p q (pos n) h ht =
    omega (arith, *ℤ_parts p (pos n), *ℤ_parts q (pos n), mul-le-mul_right n h)
mul_mono p q (negsuc n) h ht = absurd (omega arith)

pub mul_zero : (p : ℤ) → p *ℤ pos 0 ≡ pos 0
unfolding ◌*ℤ◌
mul_zero p = ground arith

pub mul_pos : (p t : ℤ) → pos 1 ≤ℤ p → pos 1 ≤ℤ t → pos 1 ≤ℤ p *ℤ t
unfolding ◌*ℤ◌
mul_pos p t hp ht = grind arith

pub minus_zero : (p : ℤ) → p -ℤ pos 0 ≡ p
minus_zero p = omega int_laws
