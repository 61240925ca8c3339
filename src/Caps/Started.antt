-- ===== src/Caps/Started.antt =====
-- A cap that is anchored to the promotions that are live.
use tiny_mirror.Prelude.{
  ℕ, ◌≤◌, ◌≡◌, ◌∙◌, refl, ap, subst, String, Bool, true, false, Option, none, some, List, [], ◌∷◌,
  ℤ, pos, All, filter, ltb, arith, inl, inr, ◌⊎◌, Bool-cases, if◌then◌else◌,
}
use tiny_mirror.Pricing.{FreightBand, CommissionBand}
use tiny_mirror.Pricing.Floor.{Some}
use tiny_mirror.Fulfillment.Drain.Table.{true_or_false}
use tiny_mirror.Caps.{
  Promo, Baseline, CostsSnapshot, is_usable, cheaper, min_price, baseline_of,
  baseline_from_active_promos, calc_cap_from_active_promo,
}

cheaper_bounds :
    (best p : Promo) → ((cheaper best p).price ≤ best.price) × ((cheaper best p).price ≤ p.price)
unfolding cheaper
cheaper_bounds best p = ground arith

cheaper_cases : (best p : Promo) → (cheaper best p ≡ best) ⊎ (cheaper best p ≡ p)
unfolding cheaper
cheaper_cases best p = elim (Bool-cases (ltb p.price best.price)) [
  | inl lower ↦ inr (rw lower refl)
  | inr same ↦ inl (rw same refl)
]

min_price_bounds :
    (best : Promo) (promos : List Promo)
    → ((min_price best promos).price ≤ best.price)
      × All (λ p. (min_price best promos).price ≤ p.price) promos
unfolding min_price
min_price_bounds best [] = (omega arith, tt)
min_price_bounds best (p ∷ promos) =
    let both = cheaper_bounds best p in
    let rest = min_price_bounds (cheaper best p) promos in
    (omega (arith, rest.0, both.0), (omega (arith, rest.0, both.1), rest.1))

min_price_found :
    (best : Promo) (promos : List Promo)
    → (min_price best promos ≡ best) ⊎ Some (λ p. min_price best promos ≡ p) promos
unfolding min_price
min_price_found best [] = inl refl
min_price_found best (p ∷ promos) = elim (min_price_found (cheaper best p) promos) [
  | inr later ↦ inr (inr later)
  | inl now ↦ elim (cheaper_cases best p) [
    | inl before ↦ inl (now ∙ before)
    | inr here ↦ inr (inl (now ∙ here))
  ]
]

kept_or_not :
    {A : Type 0} (P : A → Type 0) (q : A → Bool) (x : A) (rest : List A) (b : Bool)
    → q x ≡ b
    → All P (if b then x ∷ rest else rest)
    → (q x ≡ true → P x) × All P rest
kept_or_not P q x rest true e h = (λ passed. h.0, h.1)
kept_or_not P q x rest false e h = (λ passed. absurd (true_or_false passed e), h)

-- What holds of all that a filter keeps holds of all that pass its test.
filter-All :
    {A : Type 0} (P : A → Type 0) (q : A → Bool) (xs : List A)
    → All P (filter q xs)
    → All (λ x. q x ≡ true → P x) xs
filter-All P q [] h = tt
filter-All P q (x ∷ xs) h =
    let split = kept_or_not P q x (filter q xs) (q x) refl h in (split.0, filter-All P q xs split.1)

Some-imp :
    {A : Type 0} {P Q : A → Type 0} (xs : List A) → ((x : A) → P x → Q x) → Some P xs → Some Q xs
Some-imp [] f h = absurd h
Some-imp (x ∷ xs) f (inl here) = inl (f x here)
Some-imp (x ∷ xs) f (inr later) = inr (Some-imp xs f later)

floor_of : Option Baseline → ℕ
floor_of none = 0
floor_of (some b) = b.min_price

-- The lowest of the prices is one of them.
IsLowest : ℕ → List Promo → Type 0
IsLowest m promos = All (λ p. m ≤ p.price) promos × Some (λ p. m ≡ p.price) promos

baseline-IsLowest :
    (usable : List Promo) (b : Baseline) → baseline_of usable ≡ some b → IsLowest b.min_price usable
unfolding floor_of IsLowest
baseline-IsLowest [] b e = absurd (ground arith)
baseline-IsLowest (p ∷ promos) b e =
    let m = (min_price p promos).price in
    let bounds = min_price_bounds p promos in
    let among : Some (λ q. m ≡ q.price) (p ∷ promos) = elim (min_price_found p promos) [
      | inl first ↦ inl (ap (λ q. q.price) first)
      | inr later ↦ inr (Some-imp promos (λ q same. ap (λ r. r.price) same) later)
    ] in
    subst (λ n. All (λ q. n ≤ q.price) (p ∷ promos) × Some (λ q. n ≡ q.price) (p ∷ promos))
      (ap floor_of e) ((bounds.0, bounds.1), among)

-- The floor that is stored for a listing with live promotions: no usable live promotion is cheaper, and
-- one of them has that price.
pub started_not_below_floor :
    (lower : String → String) (promos : List Promo) (b : Baseline) (snap : CostsSnapshot)
    (commission_pct : Option ℤ) (freight_bands : Option (List FreightBand))
    (commission_bands : List CommissionBand)
    → baseline_from_active_promos lower promos ≡ some b
    → let cap = calc_cap_from_active_promo snap b commission_pct freight_bands commission_bands in
      (cap.floor_price ≡ some (pos b.min_price))
      × All (λ p. is_usable lower p ≡ true → b.min_price ≤ p.price) promos
      × Some (λ p. b.min_price ≡ p.price) (filter (is_usable lower) promos)
unfolding baseline_from_active_promos calc_cap_from_active_promo IsLowest
started_not_below_floor lower promos b snap commission_pct freight_bands commission_bands e =
    let lowest = baseline-IsLowest (filter (is_usable lower) promos) b e in
    (refl, filter-All (λ p. b.min_price ≤ p.price) (is_usable lower) promos lowest.0, lowest.1)
