-- ===== src/Pricing/Nearest.antt =====
-- `quantize` is within half a unit of the quotient (src/tiny_mirror/services/pricing_service.py).
use native.Mathlib.Nat.{mod-lt, div-add-mod', suc-mul, zero-mul}
use tiny_mirror.Prelude.{
  ℕ, zero, suc, ◌+◌, ◌*◌, ◌/◌, ◌%◌, ◌≤◌, ◌<◌, ◌≡◌, ap, ℤ, pos, negsuc, pos_part, neg_part, ◌-ℤ◌,
  arith, ltb, ◌==◌, nat_eq, Bool-cases, inl, inr,
}
use tiny_mirror.Pricing.{nearest_ℕ, nearest}

-- m * d is within half of d of n.
record IsNear (n d m : ℕ) : Type 0 where
  not_above : 2 * (m * d) ≤ 2 * n + d
  not_below : 2 * n ≤ 2 * (m * d) + d

step_up : (n d q r : ℕ) → q * d + r ≡ n → d ≤ 2 * r → r < d → IsNear n d (suc q)
step_up n d q r e h k = record {
  not_above = omega (arith, suc-mul q d);
  not_below = omega (arith, suc-mul q d);
}

stay : (n d q r : ℕ) → q * d + r ≡ n → 2 * r ≤ d → IsNear n d q
stay n d q r e h = record { not_above = omega arith; not_below = omega arith }

nearest_ℕ-IsNear : (n d : ℕ) → 0 < d → IsNear n d (nearest_ℕ n d)
unfolding nearest_ℕ
nearest_ℕ-IsNear n d h =
    let split = div-add-mod' n d in
    let small = mod-lt n h in
    elim (Bool-cases (ltb (2 * (n % d)) d)) [
      | inl low ↦ rw low (stay n d (n / d) (n % d) split (ground arith))
      | inr more ↦ elim (Bool-cases (ltb d (2 * (n % d)))) [
        | inl high ↦ rw (more, high) (step_up n d (n / d) (n % d) split (ground arith) small)
        | inr same ↦ elim (Bool-cases (n / d % 2 == 0)) [
          | inl even ↦ rw (more, same, even) (stay n d (n / d) (n % d) split (ground arith))
          | inr odd ↦ rw (more, same, odd) (step_up n d (n / d) (n % d) split (ground arith) small)
        ]
      ]
    ]

-- Of an integer, by its parts.
pub record IsClose (z : ℤ) (d : ℕ) (m : ℤ) : Type 0 where
  pub not_above : 2 * (pos_part m * d) + 2 * neg_part z ≤ 2 * (neg_part m * d) + 2 * pos_part z + d
  pub not_below : 2 * (neg_part m * d) + 2 * pos_part z ≤ 2 * (pos_part m * d) + 2 * neg_part z + d

negated : (m : ℕ) → (pos_part (pos 0 -ℤ pos m) ≡ 0) × (neg_part (pos 0 -ℤ pos m) ≡ m)
unfolding ◌-ℤ◌
negated zero = ground arith
negated (suc m) = ground arith

pub nearest-IsClose : (z : ℤ) (d : ℕ) → 0 < d → IsClose z d (nearest z d)
unfolding nearest
nearest-IsClose (pos n) d h =
    let near = nearest_ℕ-IsNear n d h in
    record {
      not_above = omega (arith, near.not_above, zero-mul d);
      not_below = omega (arith, near.not_below, zero-mul d);
    }
nearest-IsClose (negsuc n) d h =
    let near = nearest_ℕ-IsNear (suc n) d h in
    let parts = negated (nearest_ℕ (suc n) d) in
    let no_pos = ap (λ x. x * d) parts.0 in
    let all_neg = ap (λ x. x * d) parts.1 in
    record {
      not_above = omega (arith, near.not_below, no_pos, all_neg, zero-mul d);
      not_below = omega (arith, near.not_above, no_pos, all_neg, zero-mul d);
    }
