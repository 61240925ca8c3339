-- ===== src/Prelude/Int.antt =====
-- Python's `int`: signed integers over the native numbers, under the library's names (its ℤ stands
-- on the unary ℕ). Sums and orders go through the two parts of an integer.
use Prim.Native.Nat.{ℕ, suc, ◌+◌, ◌-◌, ◌*◌, ◌≤◌, ◌<◌}
use mathlib.Core.Path.{◌≡◌, refl, ap}
use mathlib.Core.Bool.{Bool, false}
use mathlib.Core.Logic.{◌⊎◌}
use native.Mathlib.Omega.{arith}
use tiny_mirror.Prelude.Tests.{ltb, leb, nat_beq, if◌then◌else◌, Comparable}

-- `negsuc n` is -(n + 1).
pub data ℤ : Type 0 where
  pos : ℕ → ℤ
  negsuc : ℕ → ℤ

abbrev pub pos_part : ℤ → ℕ
pos_part (pos n) = n
pos_part (negsuc n) = 0

abbrev pub neg_part : ℤ → ℕ
neg_part (pos n) = 0
neg_part (negsuc n) = suc n

-- a - b, as an integer.
abbrev pub sub_ℕ : ℕ → ℕ → ℤ
sub_ℕ a b = if leb b a then pos (a - b) else negsuc (b - a - 1)

infixl 65 ◌+ℤ◌ ◌-ℤ◌
infixl 70 ◌*ℤ◌
infix 50 ◌≤ℤ◌ ◌<ℤ◌
unfoldable pub ◌+ℤ◌ : ℤ → ℤ → ℤ
a +ℤ b = sub_ℕ (pos_part a + pos_part b) (neg_part a + neg_part b)

unfoldable pub ◌-ℤ◌ : ℤ → ℤ → ℤ
a -ℤ b = sub_ℕ (pos_part a + neg_part b) (neg_part a + pos_part b)

unfoldable pub ◌*ℤ◌ : ℤ → ℤ → ℤ
a *ℤ b =
    sub_ℕ (pos_part a * pos_part b + neg_part a * neg_part b)
      (pos_part a * neg_part b + neg_part a * pos_part b)

abbrev pub ◌≤ℤ◌ : ℤ → ℤ → Type 0
a ≤ℤ b = pos_part a + neg_part b ≤ pos_part b + neg_part a

abbrev pub ◌<ℤ◌ : ℤ → ℤ → Type 0
a <ℤ b = pos_part a + neg_part b < pos_part b + neg_part a

abbrev pub ltb_ℤ : ℤ → ℤ → Bool
ltb_ℤ a b = ltb (pos_part a + neg_part b) (pos_part b + neg_part a)

abbrev pub leb_ℤ : ℤ → ℤ → Bool
leb_ℤ a b = leb (pos_part a + neg_part b) (pos_part b + neg_part a)

abbrev pub int_beq : ℤ → ℤ → Bool
int_beq (pos a) (pos b) = nat_beq a b
int_beq (negsuc a) (negsuc b) = nat_beq a b
int_beq _ _ = false

instance abbrev pub int_eq : Comparable ℤ
int_eq = record { is_equal = int_beq }

-- Python's `min` and `max` of two: the first argument on a tie.
unfoldable pub min_ℤ : ℤ → ℤ → ℤ
min_ℤ a b = if ltb_ℤ b a then b else a

unfoldable pub max_ℤ : ℤ → ℤ → ℤ
max_ℤ a b = if ltb_ℤ a b then b else a

-- One lemma for each operation lets `omega` work with the operations shut, at any depth.
pub +ℤ_parts :
    (a b : ℤ)
    → pos_part (a +ℤ b) + neg_part a + neg_part b ≡ neg_part (a +ℤ b) + pos_part a + pos_part b
unfolding ◌+ℤ◌
+ℤ_parts a b = ground arith

pub -ℤ_parts :
    (a b : ℤ)
    → pos_part (a -ℤ b) + neg_part a + pos_part b ≡ neg_part (a -ℤ b) + pos_part a + neg_part b
unfolding ◌-ℤ◌
-ℤ_parts a b = ground arith

pub eq_of_parts : (a b : ℤ) → pos_part a + neg_part b ≡ pos_part b + neg_part a → a ≡ b
eq_of_parts a b h = ground arith

pub min_ℤ_left : (a b : ℤ) → min_ℤ a b ≤ℤ a
unfolding min_ℤ
min_ℤ_left a b = ground arith

pub min_ℤ_right : (a b : ℤ) → min_ℤ a b ≤ℤ b
unfolding min_ℤ
min_ℤ_right a b = ground arith

pub max_ℤ_left : (a b : ℤ) → a ≤ℤ max_ℤ a b
unfolding max_ℤ
max_ℤ_left a b = ground arith

pub max_ℤ_right : (a b : ℤ) → b ≤ℤ max_ℤ a b
unfolding max_ℤ
max_ℤ_right a b = ground arith

pub min_ℤ_cases : (a b : ℤ) → (min_ℤ a b ≡ a) ⊎ (min_ℤ a b ≡ b)
unfolding min_ℤ
min_ℤ_cases a b = ground arith

pub min_ℤ_nonneg : (a b : ℤ) → pos 0 ≤ℤ a → pos 0 ≤ℤ b → pos 0 ≤ℤ min_ℤ a b
unfolding min_ℤ
min_ℤ_nonneg a b ha hb = ground arith

pub nonneg_part : (a : ℤ) → pos 0 ≤ℤ a → neg_part a ≡ 0
nonneg_part (pos n) h = refl
nonneg_part (negsuc n) h = absurd (omega arith)

pub nonpos_part : (a : ℤ) → a ≤ℤ pos 0 → pos_part a ≡ 0
nonpos_part (pos n) h = omega arith
nonpos_part (negsuc n) h = refl

-- An equation of integers as two of numbers, which `omega` reads.
pub parts_of_eq : {a b : ℤ} → a ≡ b → (pos_part a ≡ pos_part b) × (neg_part a ≡ neg_part b)
parts_of_eq e = (ap pos_part e, ap neg_part e)

pub ruleset int_laws = (arith, +ℤ_parts, -ℤ_parts, eq_of_parts)

-- For calls of `omega` that meet `min_ℤ` and `max_ℤ` too.
pub ruleset bound_laws = (int_laws, min_ℤ_left, min_ℤ_right, max_ℤ_left, max_ℤ_right)
