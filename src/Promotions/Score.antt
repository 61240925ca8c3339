-- ===== src/Promotions/Score.antt =====
-- `score_candidate_promo` (src/tiny_mirror/services/ml_promotion_service.py): what an offered
-- promotion would cost, and whether the cap and the floor allow it. The texts of the reasons and the
-- exposure boost, which only the dashboard shows, are left out.
pub mod Limits
use tiny_mirror.Prelude.{
  ℕ, zero, suc, ◌*◌, String, Bool, true, false, not, ◌&&◌, Option, none, some, ℤ, pos, ◌+ℤ◌, ◌-ℤ◌,
  ◌*ℤ◌, max_ℤ, ltb_ℤ, leb_ℤ, ◌==◌, string_eq, if◌then◌else◌,
}
use tiny_mirror.Pricing.{nearest, whole_percent}
use tiny_mirror.Promotions.{Offer, or_zero, or_empty}

pub data Constraint : Type 0 where
  fixed_percentage lightning_ceiling min_discounted_price suggested_within_interval : Constraint
  suggested_discounted_price ml_priced seller_pct_only price_only started : Constraint

pub data StructureType : Type 0 where
  fixed_pct fixed_price interval sugg_only : StructureType

pub data Denial : Type 0 where
  cap_exceeded floor_violation interval_empty : Denial

pub record Scored : Type 0 where
  pub denied_reason : Option Denial
  pub target_price : ℤ
  pub target_total_pct : ℤ
  pub target_seller_pct : ℤ
  pub meli_percentage : ℤ
  pub constraint : Constraint
  pub structure_type : StructureType
  pub min_price : Option ℤ
  pub max_price : Option ℤ
  pub stock_min : Option ℕ
  pub stock_max : Option ℕ

-- `accepted`: there is no reason to deny.
abbrev pub is_accepted : Scored → Bool
is_accepted s = elim s.denied_reason [ none ↦ true | some r ↦ false ]

-- A price after a discount, and the discount of a price.
unfoldable pub discounted : ℕ → ℤ → ℤ
discounted price pct = nearest (pos price *ℤ (pos whole_percent -ℤ pct)) whole_percent

unfoldable pub discount_of : ℕ → ℤ → ℤ
discount_of list_price price = nearest ((pos list_price -ℤ price) *ℤ pos whole_percent) list_price

-- The two checks, each with a tolerance of a hundredth.
unfoldable pub denial : ℤ → ℤ → ℤ → ℤ → Option Denial
denial cap_check_value cap_check_limit target_price floor =
    if ltb_ℤ (cap_check_limit +ℤ pos 1) cap_check_value
    then some cap_exceeded
    else if ltb_ℤ (target_price +ℤ pos 1) floor
    then some floor_violation
    else none

-- What the calls of one scoring share: the cap, the floor, the co-payment and the list price.
pub record Envelope : Type 0 where
  pub cap_seller_pct : ℤ
  pub floor : ℤ
  pub meli_pct : ℤ
  pub list_price : ℕ

abbrev pub cap_total : Envelope → ℤ
cap_total e = e.cap_seller_pct +ℤ e.meli_pct

unfoldable pub target_at_cap : Envelope → ℤ
unfolding discounted
target_at_cap e = discounted e.list_price (cap_total e)

unfoldable pub build : Envelope → ℤ → ℤ → ℤ → Constraint → ℤ → ℤ → StructureType → Scored
unfolding denial
build e target_price total seller constraint cap_check_value cap_check_limit structure = record {
  denied_reason = denial cap_check_value cap_check_limit target_price e.floor;
  target_price = target_price;
  target_total_pct = total;
  target_seller_pct = seller;
  meli_percentage = e.meli_pct;
  constraint = constraint;
  structure_type = structure;
  min_price = none;
  max_price = none;
  stock_min = none;
  stock_max = none;
}

abbrev pub or_price : Option ℤ → ℤ → ℤ
or_price none other = other
or_price (some z) other = z

-- The price is what Mercado Livre sets as the ceiling.
unfoldable pub lightning : Envelope → Offer → ℤ → Scored
unfolding discount_of
lightning e p ceiling =
    let total = discount_of e.list_price ceiling in
    record {
      denied_reason = none;
      target_price = ceiling;
      target_total_pct = total;
      target_seller_pct = total -ℤ e.meli_pct;
      meli_percentage = e.meli_pct;
      constraint = lightning_ceiling;
      structure_type = interval;
      min_price = some (or_price p.min_discounted_price ceiling);
      max_price = some ceiling;
      stock_min = p.stock_min;
      stock_max = p.stock_max;
    }

abbrev pub in_interval : Envelope → ℤ → ℤ → ℤ → Constraint → Option Denial → Scored
in_interval e min_f upper target constraint denied =
    let total = discount_of e.list_price target in
    record {
      denied_reason = denied;
      target_price = target;
      target_total_pct = total;
      target_seller_pct = total -ℤ e.meli_pct;
      meli_percentage = e.meli_pct;
      constraint = constraint;
      structure_type = interval;
      min_price = some min_f;
      max_price = some upper;
      stock_min = none;
      stock_max = none;
    }

abbrev pub is_suggested : Option ℤ → ℤ → ℤ → Bool
is_suggested none lower upper = false
is_suggested (some s) lower upper = leb_ℤ (lower -ℤ pos 1) s && leb_ℤ s (upper +ℤ pos 1)

-- The lowest price that the offer, the floor and the cap allow, or the suggested one between the bounds.
unfoldable pub score_interval : Envelope → Offer → ℤ → Scored
unfolding discount_of target_at_cap
score_interval e p min_f =
    let lower = max_ℤ (max_ℤ min_f e.floor) (target_at_cap e) in
    let upper = or_price p.max_discounted_price (pos e.list_price) in
    if ltb_ℤ (upper +ℤ pos 1) lower
    then in_interval e min_f upper lower min_discounted_price (some interval_empty)
    else if is_suggested p.suggested_discounted_price lower upper
    then in_interval e min_f upper (or_price p.suggested_discounted_price lower)
        suggested_within_interval none
    else in_interval e min_f upper lower min_discounted_price none

unfoldable pub score_fixed : Envelope → ℤ → Scored
unfolding build discounted
score_fixed e pct =
    build e (discounted e.list_price pct) pct (pct -ℤ e.meli_pct) fixed_percentage pct (cap_total e)
      fixed_pct

unfoldable pub score_suggested : Envelope → ℤ → Scored
unfolding build discount_of
score_suggested e price =
    let total = discount_of e.list_price price in
    build e price total (total -ℤ e.meli_pct) suggested_discounted_price total (cap_total e)
      sugg_only

-- `original_price or list_price`
abbrev pub original_or : Option ℕ → ℕ → ℕ
original_or none other = other
original_or (some zero) other = other
original_or (some (suc n)) other = suc n

unfoldable pub score_price_only : Envelope → ℤ → Option ℕ → Option Scored
unfolding build discount_of
score_price_only e price none = none
score_price_only e price (some zero) = none
score_price_only e price (some (suc n)) =
    let total = discount_of (suc n) price in
    some (build e price total (total -ℤ e.meli_pct) price_only total (cap_total e) fixed_price)

-- Promotions whose price Mercado Livre sets.
unfoldable pub score_set : Envelope → Offer → Option ℤ → Option ℤ → Option Scored
unfolding build discounted score_price_only
score_set e p (some price) (some seller) =
    some (build e price (seller +ℤ e.meli_pct) seller ml_priced seller e.cap_seller_pct fixed_price)
score_set e p none (some seller) =
    let total = seller +ℤ e.meli_pct in
    some (
      build e (discounted (original_or p.original_price e.list_price) total) total seller
        seller_pct_only seller e.cap_seller_pct fixed_pct)
score_set e p (some price) none = score_price_only e price p.original_price
score_set e p none none = none

-- By the shape of the offer.
unfoldable pub score_shape : Envelope → Offer → Option ℤ → Option ℤ → Option Scored
unfolding score_interval score_suggested score_set
score_shape e p (some min_f) suggested = some (score_interval e p min_f)
score_shape e p none (some price) = some (score_suggested e price)
score_shape e p none none = score_set e p p.price p.seller_percentage

unfoldable pub score_unless_lightning : Envelope → Offer → Bool → Option ℤ → Option Scored
unfolding lightning score_shape
score_unless_lightning e p true (some ceiling) = some (lightning e p ceiling)
score_unless_lightning e p _ _ = score_shape e p p.min_discounted_price p.suggested_discounted_price

unfoldable pub score_offer : Envelope → Offer → Bool → Option ℤ → Option Scored
unfolding score_fixed score_unless_lightning
score_offer e p is_lightning (some pct) = some (score_fixed e pct)
score_offer e p is_lightning none = score_unless_lightning e p is_lightning p.price

abbrev pub envelope : ℤ → Option ℤ → ℕ → Offer → Envelope
envelope cap_seller_pct margin_floor_price list_price p = record {
  cap_seller_pct = cap_seller_pct;
  floor = or_zero margin_floor_price;
  meli_pct = or_zero p.meli_percentage;
  list_price = list_price;
}

-- `upper` is `str.upper`.
module _ (upper : String → String) where
  abbrev pub is_lightning : Offer → Bool
  is_lightning p = upper (or_empty p.type) == "LIGHTNING"

  unfoldable pub score_candidate_promo : Offer → ℤ → Option ℤ → Option ℕ → Option Scored
  unfolding score_offer
  score_candidate_promo p cap_seller_pct margin_floor_price none = none
  score_candidate_promo p cap_seller_pct margin_floor_price (some zero) = none
  score_candidate_promo p cap_seller_pct margin_floor_price (some (suc n)) =
      score_offer (envelope cap_seller_pct margin_floor_price (suc n) p) p (is_lightning p)
        p.fixed_percentage
