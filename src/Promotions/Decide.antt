-- ===== src/Promotions/Decide.antt =====
-- `decide_for_item` (src/tiny_mirror/services/ml_promotion_service.py): what to do about a listing's
-- promotions under its cap and its floor. The texts of the reasons are left out.
pub mod Item
pub mod Floor
use tiny_mirror.Prelude.{
  ℕ, zero, suc, String, Bool, true, false, not, ◌&&◌, ◌||◌, Option, none, some, List, [], ◌∷◌, any,
  filter, ℤ, pos, negsuc, ◌+ℤ◌, ◌-ℤ◌, ◌*ℤ◌, max_ℤ, ltb, ltb_ℤ, leb_ℤ, ◌==◌, int_eq, string_eq,
  if◌then◌else◌,
}
use tiny_mirror.Sort.{sort}
use tiny_mirror.Fulfillment.Catalog.{holds}
use tiny_mirror.Pricing.{FreightBand, nearest}
use tiny_mirror.Promotions.{Offer, or_zero}
use tiny_mirror.Promotions.Score.{
  Scored, is_accepted, discounted, original_or, score_candidate_promo,
}

pub data PromoAction : Type 0 where
  keep activate_candidate create_price_discount skip no_data keep_winning : PromoAction

pub record FreightOpt : Type 0 where
  pub from_price : ℤ
  pub to_price : ℤ
  pub price_drop : ℤ
  pub current_freight : ℤ
  pub lower_freight : ℤ
  pub freight_savings : ℤ
  pub net_gain : ℤ

-- What `p["_total_pct"]` and the like hold.
pub record Seen : Type 0 where
  pub offer : Offer
  pub total_pct : Option ℤ
  pub seller_pct : Option ℤ
  pub meli_pct : ℤ
  pub price : ℤ

-- The `target_...` fields of a decision.
pub record Plan : Type 0 where
  pub total_pct : ℤ
  pub seller_pct : ℤ
  pub meli_pct : ℤ
  pub price : ℤ
  pub promo_type : Option String
  pub promo_id : Option String
  pub promo_name : Option String

-- `current` is the best promotion that runs.
pub record PromoDecision : Type 0 where
  pub action : PromoAction
  pub floor_price : Option ℤ
  pub current_total_pct : Option ℤ
  pub current : Option Seen
  pub current_price : Option ℤ
  pub target : Option Plan
  pub floor_violated : Bool
  pub freight_opt : Option FreightOpt
  pub catalog_status : Option String
  pub price_to_win : Option ℤ
  pub visit_share : Option String
  pub still_losing : Bool

-- The answer of `/items/{MLB}/price_to_win`, and the costs of the sheet.
pub record PriceToWin : Type 0 where
  pub status : Option String
  pub visit_share : Option String
  pub price_to_win : Option ℤ
  pub current_price : Option ℤ

pub record Costs : Type 0 where
  pub list_price : Option ℕ
  pub promo_price : Option ℤ
  pub freight_bands : List FreightBand

-- To a tenth of a percent.
unfoldable pub compute_pct : Option ℕ → ℤ → Option ℤ
compute_pct none price = none
compute_pct (some zero) price = none
compute_pct (some (suc n)) price =
    some (nearest ((pos (suc n) -ℤ price) *ℤ pos 1000) (suc n) *ℤ pos 10)

-- An open band holds every price.
abbrev pub band_holds : FreightBand → ℕ → Bool
band_holds b price = elim b.min [
  | none ↦ false
  | some lo ↦ elim b.max [ none ↦ true | some hi ↦ not (ltb price lo) && not (ltb hi price) ]
]

unfoldable pub cheaper_band : ℕ → FreightBand → FreightBand → Option FreightOpt
cheaper_band price prev current = elim prev.max [
  | none ↦ none
  | some new_price ↦
      let price_drop = pos price -ℤ pos new_price in
      let savings = current.cost -ℤ prev.cost in
      if not (ltb new_price price)
      then none
      else if ltb_ℤ price_drop savings
      then some (record {
        from_price = pos price;
        to_price = pos new_price;
        price_drop = price_drop;
        current_freight = current.cost;
        lower_freight = prev.cost;
        freight_savings = savings;
        net_gain = savings -ℤ price_drop;
      })
      else none
]

-- The first band that holds the price, with the one before it.
unfoldable pub below_band : ℕ → FreightBand → List FreightBand → Option FreightOpt
unfolding cheaper_band
below_band price prev [] = none
below_band price prev (b ∷ bands) =
    let rest = below_band price b bands in
    if band_holds b price then cheaper_band price prev b else rest

unfoldable pub freight_opt_check : ℤ → List FreightBand → Option FreightOpt
unfolding below_band
freight_opt_check (pos (suc n)) (b ∷ bands) =
    let rest = below_band (suc n) b bands in if band_holds b (suc n) then none else rest
freight_opt_check _ _ = none

abbrev pub nonzero : Option ℤ → Option ℤ
nonzero none = none
nonzero (some z) = if z == pos 0 then none else some z

abbrev pub or_else_price : Option ℤ → Option ℤ → Option ℤ
or_else_price none other = other
or_else_price (some z) other = some z

abbrev pub is_losing : PriceToWin → Bool
is_losing ptw =
    (holds ptw.status "losing" || holds ptw.status "competing")
    || (holds ptw.status "sharing_first_place" && not (holds ptw.visit_share "maximum"))

-- `price > price_to_win + 0.005`, over whole cents.
abbrev pub is_dearer : Option ℤ → Option ℤ → Bool
is_dearer none ptw = false
is_dearer (some price) none = false
is_dearer (some price) (some ptw) = ltb_ℤ ptw price

abbrev pub target_price_of : PromoDecision → Option ℤ
target_price_of d = elim d.target [ none ↦ none | some plan ↦ some plan.price ]

unfoldable pub annotate_catalog : PromoDecision → Option PriceToWin → PromoDecision
annotate_catalog d none = d
annotate_catalog d (some ptw) =
    let effective = or_else_price (nonzero (target_price_of d)) d.current_price in
    record d {
      catalog_status = ptw.status;
      visit_share = ptw.visit_share;
      price_to_win = ptw.price_to_win;
      still_losing = is_losing ptw && is_dearer effective ptw.price_to_win;
    }

abbrev pub plain : PromoAction → Option ℤ → PromoDecision
plain action floor = record {
  action = action;
  floor_price = floor;
  current_total_pct = none;
  current = none;
  current_price = none;
  target = none;
  floor_violated = false;
  freight_opt = none;
  catalog_status = none;
  price_to_win = none;
  visit_share = none;
  still_losing = false;
}
