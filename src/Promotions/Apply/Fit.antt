-- ===== src/Promotions/Apply/Fit.antt =====
-- What Mercado Livre asks of a body (src/tiny_mirror/services/ml_promotion_service.py,
-- `_build_apply_body`).
use tiny_mirror.Prelude.{
  ℕ, zero, suc, ◌≡◌, refl, String, true, ◌&&◌, ◌||◌, Option, none, some, ℤ, ◌==◌, string_eq,
  Bool-cases, inl, inr, and_left, and_right, subst, ◌⊎◌, ◌↔◌, eq_iff, arith,
}
use tiny_mirror.Promotions.Decisions.{
  Row, DecisionKind, would_activate, create_price_discount, already_active, denied,
}
use tiny_mirror.Promotions.Write.{Body}
use tiny_mirror.Promotions.Apply.{
  activates, body_of, coupon_body, campaign_body, dod_body, lightning_body, with_dates,
  discount_body, build_apply_body,
}

-- The body for a decision, by the type of its promotion: which decisions have one, and its keys.
pub data IsFit (dates : String × String) (type : String) (r : Row) : Body → Type 0 where
  coupon :
      (id : String)
      → type ≡ "SELLER_COUPON_CAMPAIGN"
      → r.promo_id ≡ some id
      → IsFit dates type r (body_of "SELLER_COUPON_CAMPAIGN" none (some id))
  campaign :
      (id : String) (price : ℤ)
      → (type ≡ "DEAL") ⊎ (type ≡ "SELLER_CAMPAIGN")
      → r.decision_kind ≡ would_activate
      → r.promo_id ≡ some id
      → r.target_price ≡ some price
      → IsFit dates type r (body_of type (some price) (some id))
  dod :
      (price : ℤ)
      → type ≡ "DOD"
      → r.decision_kind ≡ would_activate
      → r.target_price ≡ some price
      → IsFit dates type r (body_of "DOD" (some price) none)
  lightning :
      (price : ℤ) (n : ℕ)
      → type ≡ "LIGHTNING"
      → r.decision_kind ≡ would_activate
      → r.target_price ≡ some price
      → r.stock_chosen ≡ some (suc n)
      → IsFit dates type r (record (body_of "LIGHTNING" (some price) none) { stock = some (suc n) })
  created :
      (price : ℤ)
      → type ≡ "PRICE_DISCOUNT"
      → r.decision_kind ≡ create_price_discount
      → r.target_price ≡ some price
      → IsFit dates type r (with_dates dates (body_of "PRICE_DISCOUNT" (some price) none))
  joined :
      (id : String) (price : ℤ)
      → type ≡ "PRICE_DISCOUNT"
      → r.decision_kind ≡ would_activate
      → r.promo_id ≡ some id
      → r.target_price ≡ some price
      → IsFit dates type r (with_dates dates (body_of "PRICE_DISCOUNT" (some price) (some id)))

abbrev AllFit : String × String → String → Row → Option Body → Type 0
AllFit dates type r none = Unit
AllFit dates type r (some b) = IsFit dates type r b

activates_kind : (k : DecisionKind) → activates k ≡ true → k ≡ would_activate
activates_kind k h = ground arith

module _ (dates : String × String) (type : String) (r : Row) where
  coupon-AllFit :
      (id : Option String)
      → type ≡ "SELLER_COUPON_CAMPAIGN"
      → r.promo_id ≡ id
      → AllFit dates type r (coupon_body id)
  unfolding coupon_body
  coupon-AllFit none t e = tt
  coupon-AllFit (some id) t e = coupon id t e

  campaign-AllFit :
      (id : Option String) (target : Option ℤ)
      → (type ≡ "DEAL") ⊎ (type ≡ "SELLER_CAMPAIGN")
      → r.decision_kind ≡ would_activate
      → r.promo_id ≡ id
      → r.target_price ≡ target
      → AllFit dates type r (campaign_body type id target)
  unfolding campaign_body
  campaign-AllFit none target t k e f = tt
  campaign-AllFit (some id) none t k e f = tt
  campaign-AllFit (some id) (some price) t k e f = campaign id price t k e f

  dod-AllFit :
      (target : Option ℤ)
      → type ≡ "DOD"
      → r.decision_kind ≡ would_activate
      → r.target_price ≡ target
      → AllFit dates type r (dod_body target)
  unfolding dod_body
  dod-AllFit none t k f = tt
  dod-AllFit (some price) t k f = dod price t k f

  lightning-AllFit :
      (target : Option ℤ) (stock : Option ℕ)
      → type ≡ "LIGHTNING"
      → r.decision_kind ≡ would_activate
      → r.target_price ≡ target
      → r.stock_chosen ≡ stock
      → AllFit dates type r (lightning_body target stock)
  unfolding lightning_body
  lightning-AllFit none stock t k f g = tt
  lightning-AllFit (some price) none t k f g = tt
  lightning-AllFit (some price) (some zero) t k f g = tt
  lightning-AllFit (some price) (some (suc n)) t k f g = lightning price n t k f g

  discount-AllFit :
      (kind : DecisionKind) (id : Option String) (target : Option ℤ)
      → type ≡ "PRICE_DISCOUNT"
      → r.decision_kind ≡ kind
      → r.promo_id ≡ id
      → r.target_price ≡ target
      → AllFit dates type r (discount_body dates kind id target)
  unfolding discount_body
  discount-AllFit kind id none t k e f = tt
  discount-AllFit create_price_discount id (some price) t k e f = created price t k f
  discount-AllFit would_activate none (some price) t k e f = tt
  discount-AllFit would_activate (some id) (some price) t k e f = joined id price t k e f
  discount-AllFit already_active id (some price) t k e f = tt
  discount-AllFit denied id (some price) t k e f = tt

either_type : (type a b : String) → type == a || type == b ≡ true → (type ≡ a) ⊎ (type ≡ b)
either_type type a b h = elim (Bool-cases (type == a)) [
  | inl first ↦ inl ((eq_iff type a).0 first)
  | inr later ↦ inr ((eq_iff type b).0 (rw later at h))
]

build_apply_body-AllFit :
    (upper : String → String) (dates : String × String) (r : Row)
    → AllFit dates (upper r.promo_type) r (build_apply_body upper dates r)
unfolding build_apply_body
build_apply_body-AllFit upper dates r =
    let type = upper r.promo_type in
    let kind = activates_kind r.decision_kind in
    let active = activates r.decision_kind in
    let is_campaign = type == "DEAL" || type == "SELLER_CAMPAIGN" in
    elim (Bool-cases (type == "SELLER_COUPON_CAMPAIGN")) [
      | inl c ↦
          rw c (
            coupon-AllFit dates type r r.promo_id ((eq_iff type "SELLER_COUPON_CAMPAIGN").0 c) refl)
      | inr c ↦ rw c (elim (Bool-cases (is_campaign && active)) [
        | inl d ↦ rw d (
            campaign-AllFit dates type r r.promo_id r.target_price
              (either_type type "DEAL" "SELLER_CAMPAIGN" (and_left is_campaign active d))
              (kind (and_right is_campaign active d)) refl refl)
        | inr d ↦ rw d (elim (Bool-cases (type == "DOD" && active)) [
          | inl o ↦ rw o (
              dod-AllFit dates type r r.target_price
                ((eq_iff type "DOD").0 (and_left (type == "DOD") active o))
                (kind (and_right (type == "DOD") active o)) refl)
          | inr o ↦ rw o (elim (Bool-cases (type == "LIGHTNING" && active)) [
            | inl l ↦ rw l (
                lightning-AllFit dates type r r.target_price r.stock_chosen
                  ((eq_iff type "LIGHTNING").0 (and_left (type == "LIGHTNING") active l))
                  (kind (and_right (type == "LIGHTNING") active l)) refl refl)
            | inr l ↦ rw l (elim (Bool-cases (type == "PRICE_DISCOUNT")) [
              | inl p ↦ rw p (
                  discount-AllFit dates type r r.decision_kind r.promo_id r.target_price
                    ((eq_iff type "PRICE_DISCOUNT").0 p) refl refl refl)
              | inr p ↦ rw p tt
            ])
          ])
        ])
      ])
    ]

IsFit-built :
    (upper : String → String) (dates : String × String) (r : Row) {b : Body}
    → IsFit dates (upper r.promo_type) r b
    → build_apply_body upper dates r ≡ some b
unfolding build_apply_body coupon_body campaign_body dod_body lightning_body discount_body
IsFit-built upper dates r (coupon id t e) = rw (t, e) refl
IsFit-built upper dates r (campaign id price (inl t) k e f) = rw (t, k, e, f) refl
IsFit-built upper dates r (campaign id price (inr t) k e f) = rw (t, k, e, f) refl
IsFit-built upper dates r (dod price t k f) = rw (t, k, f) refl
IsFit-built upper dates r (lightning price n t k f g) = rw (t, k, f, g) refl
IsFit-built upper dates r (created price t k f) = rw (t, k, f) refl
IsFit-built upper dates r (joined id price t k e f) = rw (t, k, e, f) refl

-- A decision has a body to send exactly in these cases, and exactly these keys: a coupon its campaign
-- and no price; a decision to activate the id of its DEAL or SELLER_CAMPAIGN and the target price, for
-- a DOD the price alone, for a LIGHTNING offer the price and a stock that is not zero; a
-- PRICE_DISCOUNT, created or joined by its id, the price and the two dates. For any other decision
-- there is none.
pub build_apply_body-IsFit :
    (upper : String → String) (dates : String × String) (r : Row) (b : Body)
    → (build_apply_body upper dates r ≡ some b) ↔ IsFit dates (upper r.promo_type) r b
build_apply_body-IsFit upper dates r b = (
  λ e. subst (AllFit dates (upper r.promo_type) r) e (build_apply_body-AllFit upper dates r),
  λ fit. IsFit-built upper dates r fit,
)
