-- ===== src/Promotions/Score/Limits.antt =====
-- What the cap and the floor leave of a scored promotion.
use tiny_mirror.Prelude.{
  ℕ, zero, suc, ◌+◌, pos_part, neg_part, ◌≡◌, refl, ap, sym, subst, ◌∙◌, String, Bool, true, false,
  Option, none, some, ℤ, pos, ◌+ℤ◌, ◌-ℤ◌, ◌≤ℤ◌, max_ℤ, ltb_ℤ, leb_ℤ, ◌⊎◌, inl, inr, arith, int_laws,
  bound_laws, and_left, leb→le, if◌then◌else◌,
}
use tiny_mirror.Promotions.{Offer}
use tiny_mirror.Promotions.Score.{
  Constraint, fixed_percentage, suggested_discounted_price, ml_priced, seller_pct_only, price_only,
  StructureType, fixed_pct, fixed_price, sugg_only, Scored, is_accepted, Envelope, cap_total,
  target_at_cap, denial, build, score_fixed, score_suggested, score_set, score_interval,
  score_price_only, score_shape, discount_of, discounted, original_or, score_unless_lightning,
  score_offer, is_suggested, or_price, envelope, is_lightning, score_candidate_promo,
}

-- The price is at most a cent below the floor, and the seller's share a hundredth above the cap, or
-- the price a cent below that of the cap.
abbrev pub IsWithin : Envelope → Scored → Type 0
IsWithin e s =
    (e.floor ≤ℤ s.target_price +ℤ pos 1)
    × ((s.target_seller_pct ≤ℤ e.cap_seller_pct +ℤ pos 1)
        ⊎ (target_at_cap e ≤ℤ s.target_price +ℤ pos 1))

abbrev Allowed : Envelope → Option Scored → Type 0
Allowed e none = Unit
Allowed e (some s) = is_accepted s ≡ true → IsWithin e s

denial_bounds :
    (value limit target floor : ℤ)
    → denial value limit target floor ≡ none
    → (value ≤ℤ limit +ℤ pos 1) × (floor ≤ℤ target +ℤ pos 1)
unfolding denial
denial_bounds value limit target floor h = ground arith

accepted-eq-none : (s : Scored) → is_accepted s ≡ true → s.denied_reason ≡ none
accepted-eq-none s h = ground arith

module _ (e : Envelope) (target total : ℤ) (constraint : Constraint)
    (structure : StructureType) where
  -- A check of the whole discount against the cap and the co-payment.
  build_total :
      Allowed e
        (some (build e target total (total -ℤ e.meli_pct) constraint total (cap_total e) structure))
  unfolding build
  build_total h =
      let (low, high) = denial_bounds total (cap_total e) target e.floor (
        accepted-eq-none
          (build e target total (total -ℤ e.meli_pct) constraint total (cap_total e) structure)
          h) in
      (high, inl (omega (int_laws, low)))

  -- A check of the seller's share against the cap.
  build_seller :
      (seller : ℤ)
      → Allowed e (some (build e target total seller constraint seller e.cap_seller_pct structure))
  unfolding build
  build_seller seller h =
      let (low, high) = denial_bounds seller e.cap_seller_pct target e.floor (
        accepted-eq-none (build e target total seller constraint seller e.cap_seller_pct structure)
          h) in
      (high, inl low)

suggested_bounds :
    (suggested : Option ℤ) (lower upper other : ℤ)
    → is_suggested suggested lower upper ≡ true
    → lower ≤ℤ or_price suggested other +ℤ pos 1
suggested_bounds none lower upper other h = cc
suggested_bounds (some s) lower upper other h =
    let le =
      leb→le (pos_part (lower -ℤ pos 1) + neg_part s) (pos_part s + neg_part (lower -ℤ pos 1))
        (and_left _ (leb_ℤ s (upper +ℤ pos 1)) h) in
    omega (int_laws, le)

if-Allowed :
    (e : Envelope) (b : Bool) (x y : Scored)
    → (b ≡ true → Allowed e (some x))
    → (b ≡ false → Allowed e (some y))
    → Allowed e (some (if b then x else y))
if-Allowed e true x y h k = h refl
if-Allowed e false x y h k = k refl

score_interval-Allowed :
    (e : Envelope) (p : Offer) (min_f : ℤ) → Allowed e (some (score_interval e p min_f))
unfolding score_interval
score_interval-Allowed e p min_f =
    let lower = max_ℤ (max_ℤ min_f e.floor) (target_at_cap e) in
    let upper = or_price p.max_discounted_price (pos e.list_price) in
    if-Allowed e (ltb_ℤ (upper +ℤ pos 1) lower) _ _ (λ empty h. cc)
      (λ open_.
        if-Allowed e (is_suggested p.suggested_discounted_price lower upper) _ _
          (λ suggested h.
            (let near = suggested_bounds p.suggested_discounted_price lower upper lower suggested in
              (omega (bound_laws, near), inr (omega (bound_laws, near)))))
          (λ other h. (omega bound_laws, inr (omega bound_laws))))

score_price_only-Allowed :
    (e : Envelope) (price : ℤ) (original : Option ℕ) → Allowed e (score_price_only e price original)
unfolding score_price_only
score_price_only-Allowed e price none = tt
score_price_only-Allowed e price (some zero) = tt
score_price_only-Allowed e price (some (suc n)) =
    build_total e price (discount_of (suc n) price) price_only fixed_price

score_set-Allowed :
    (e : Envelope) (p : Offer) (price seller : Option ℤ) → Allowed e (score_set e p price seller)
unfolding score_set
score_set-Allowed e p (some price) (some seller) =
    build_seller e price (seller +ℤ e.meli_pct) ml_priced fixed_price seller
score_set-Allowed e p none (some seller) =
    build_seller e (discounted (original_or p.original_price e.list_price) (seller +ℤ e.meli_pct))
      (seller +ℤ e.meli_pct) seller_pct_only fixed_pct seller
score_set-Allowed e p (some price) none = score_price_only-Allowed e price p.original_price
score_set-Allowed e p none none = tt

score_shape-Allowed :
    (e : Envelope) (p : Offer) (least suggested : Option ℤ)
    → Allowed e (score_shape e p least suggested)
unfolding score_shape score_suggested
score_shape-Allowed e p (some min_f) suggested = score_interval-Allowed e p min_f
score_shape-Allowed e p none (some price) =
    build_total e price (discount_of e.list_price price) suggested_discounted_price sugg_only
score_shape-Allowed e p none none = score_set-Allowed e p p.price p.seller_percentage

score_offer-Allowed :
    (e : Envelope) (p : Offer) (fixed : Option ℤ) → Allowed e (score_offer e p false fixed)
unfolding score_offer score_unless_lightning score_fixed
score_offer-Allowed e p (some pct) =
    build_total e (discounted e.list_price pct) pct fixed_percentage fixed_pct
score_offer-Allowed e p none =
    score_shape-Allowed e p p.min_discounted_price p.suggested_discounted_price

module _ (upper : String → String) where
  -- A promotion that is accepted, other than a LIGHTNING one: its price is at most a cent below the
  -- floor, and the seller's share is at most a hundredth above the cap or the price at most a cent
  -- below the one that the cap and the co-payment allow.
  pub accepted-IsWithin :
      (p : Offer) (cap_pct : ℤ) (floor : Option ℤ) (list_price : ℕ) (s : Scored)
      → is_lightning upper p ≡ false
      → score_candidate_promo upper p cap_pct floor (some list_price) ≡ some s
      → is_accepted s ≡ true
      → IsWithin (envelope cap_pct floor list_price p) s
  unfolding score_candidate_promo
  accepted-IsWithin p cap_pct floor zero s h e accepted = absurd (ground arith)
  accepted-IsWithin p cap_pct floor (suc n) s h e accepted =
      let env = envelope cap_pct floor (suc n) p in
      subst (Allowed env) {x = score_offer env p false p.fixed_percentage} {y = some s}
        (ap (λ b. score_offer env p b p.fixed_percentage) (sym h) ∙ e)
        (score_offer-Allowed env p p.fixed_percentage) accepted
