-- ===== src/Promotions/Apply.antt =====
-- What an approved decision sends to Mercado Livre (src/tiny_mirror/services/ml_promotion_service.py,
-- `apply_decision_to_ml`).
pub mod Fit
use tiny_mirror.Prelude.{
  ℕ, zero, suc, String, Bool, true, false, ◌&&◌, ◌||◌, Option, none, some, ℤ, ◌==◌, string_eq,
  if◌then◌else◌,
}
use tiny_mirror.Promotions.Decisions.{
  Row, DecisionKind, would_activate, create_price_discount, ApplyStatus, ok, failed, skipped,
}
use tiny_mirror.Promotions.Write.{Body, Request, WriteResult, post}

abbrev pub body_of : String → Option ℤ → Option String → Body
body_of promotion_type deal_price promotion_id = record {
  promotion_type = promotion_type;
  deal_price = deal_price;
  promotion_id = promotion_id;
  stock = none;
  start_date = none;
  finish_date = none;
}

abbrev pub activates : DecisionKind → Bool
activates would_activate = true
activates _ = false

-- The discount of a coupon is the campaign's: no price is sent.
unfoldable pub coupon_body : Option String → Option Body
coupon_body none = none
coupon_body (some id) = some (body_of "SELLER_COUPON_CAMPAIGN" none (some id))

unfoldable pub campaign_body : String → Option String → Option ℤ → Option Body
campaign_body type none target = none
campaign_body type (some id) none = none
campaign_body type (some id) (some price) = some (body_of type (some price) (some id))

unfoldable pub dod_body : Option ℤ → Option Body
dod_body none = none
dod_body (some price) = some (body_of "DOD" (some price) none)

unfoldable pub lightning_body : Option ℤ → Option ℕ → Option Body
lightning_body none stock = none
lightning_body (some price) none = none
lightning_body (some price) (some zero) = none
lightning_body (some price) (some (suc n)) =
    some (record (body_of "LIGHTNING" (some price) none) { stock = some (suc n) })

abbrev pub with_dates : String × String → Body → Body
with_dates dates b = record b { start_date = some dates.0; finish_date = some dates.1 }

unfoldable pub discount_body :
    String × String → DecisionKind → Option String → Option ℤ → Option Body
discount_body dates kind id none = none
discount_body dates create_price_discount id (some price) =
    some (with_dates dates (body_of "PRICE_DISCOUNT" (some price) none))
discount_body dates would_activate (some id) (some price) =
    some (with_dates dates (body_of "PRICE_DISCOUNT" (some price) (some id)))
discount_body dates _ id (some price) = none

-- The check of the floor is switched off.
abbrev pub floor_violation_reason : Row → Option String
floor_violation_reason r = none

pub record Applied : Type 0 where
  pub status : ApplyStatus
  pub status_code : Option ℕ

abbrev pub applied_of : Option WriteResult → Option Applied
applied_of none = none
applied_of (some result) =
    some (record { status = if result.ok then ok else failed; status_code = result.status_code })

-- `upper` is `str.upper`, `dates` the default dates of a discount, and `write` is `_ml_write`, none
-- where it raises.
module _ (upper : String → String) (dates : String × String) where
  unfoldable pub build_apply_body : Row → Option Body
  unfolding coupon_body campaign_body dod_body lightning_body discount_body
  build_apply_body r =
      let type = upper r.promo_type in
      if type == "SELLER_COUPON_CAMPAIGN"
      then coupon_body r.promo_id
      else if (type == "DEAL" || type == "SELLER_CAMPAIGN") && activates r.decision_kind
      then campaign_body type r.promo_id r.target_price
      else if type == "DOD" && activates r.decision_kind
      then dod_body r.target_price
      else if type == "LIGHTNING" && activates r.decision_kind
      then lightning_body r.target_price r.stock_chosen
      else if type == "PRICE_DISCOUNT"
      then discount_body dates r.decision_kind r.promo_id r.target_price
      else none

  module _ (write : Request → Option WriteResult) where
    abbrev pub send_body : String → Option Body → Option Applied
    send_body mlb_id none = some (record { status = skipped; status_code = none })
    send_body mlb_id (some body) =
        applied_of (write (record { method = post; mlb_id = mlb_id; body = some body }))

    abbrev pub unless_refused : Row → Option String → Option Applied
    unless_refused r (some reason) = some (record { status = failed; status_code = none })
    unless_refused r none = send_body r.mlb_id (build_apply_body r)

    unfoldable pub apply_decision_to_ml : Row → Option Applied
    unfolding build_apply_body
    apply_decision_to_ml r = unless_refused r (floor_violation_reason r)
