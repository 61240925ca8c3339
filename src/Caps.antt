-- ===== src/Caps.antt =====
-- src/tiny_mirror/services/cap_recompute_service.py: the cap on the seller's share of a promotion and
-- the lowest price, for one listing. Amounts and percentages are as in Pricing; the note that is stored
-- with a cap is left out.
pub mod Started
pub mod Fallback
pub mod Recompute
use tiny_mirror.Prelude.{
  ℕ, zero, suc, ◌*◌, String, Bool, true, false, not, ◌&&◌, ◌||◌, Option, none, some, List, [], ◌∷◌,
  filter, length, ℤ, pos, negsuc, pos_part, ◌-ℤ◌, ◌*ℤ◌, min_ℤ, max_ℤ, ltb_ℤ, ltb, ◌==◌, nat_eq,
  string_eq, if◌then◌else◌,
}
use tiny_mirror.Pricing.{
  nearest, whole_percent, FreightBand, CommissionBand, MarginBreakdown, margin_at_price, Target,
  no_headroom, no_band, floor, target_price_for_min_margin_pct, or_own, or_fallback,
}

abbrev pub min_margin_pct : ℤ
min_margin_pct = pos 1000

abbrev pub default_cap_pct : ℤ
default_cap_pct = pos 3000

-- A promotion as Mercado Livre lists it; a missing price is zero, as the source takes it.
pub record Promo : Type 0 where
  pub status : Option String
  pub type : Option String
  pub original_price : ℕ
  pub price : ℕ
  pub meli_percentage : ℤ

-- The seller's share of the discount, num / den in hundredths of a percent; den is not 0.
pub record Share : Type 0 where
  pub num : ℤ
  pub den : ℕ

unfoldable pub seller_share : Promo → Share
seller_share p = record {
  num =
      (pos p.original_price -ℤ pos p.price) *ℤ pos whole_percent
      -ℤ p.meli_percentage *ℤ pos p.original_price;
  den = p.original_price;
}

unfoldable pub is_less : Share → Share → Bool
is_less a b = ltb_ℤ (a.num *ℤ pos b.den) (b.num *ℤ pos a.den)

abbrev pub text_or_empty : Option String → String
text_or_empty none = ""
text_or_empty (some s) = s

-- `lower` is Python's `str.lower`.
unfoldable pub is_usable : (String → String) → Promo → Bool
is_usable lower p =
    lower (text_or_empty p.status) == "started" && ltb 0 p.original_price && ltb 0 p.price

abbrev pub parsed : (String → String) → List Promo → List Promo
parsed lower promos = filter (is_usable lower) promos

-- The first of the greatest shares, and the first of the lowest prices.
unfoldable pub more_seller : Promo → Promo → Promo
unfolding is_less seller_share
more_seller best p = if is_less (seller_share best) (seller_share p) then p else best

unfoldable pub cheaper : Promo → Promo → Promo
cheaper best p = if ltb p.price best.price then p else best

unfoldable pub max_seller : Promo → List Promo → Promo
unfolding more_seller
max_seller best [] = best
max_seller best (p ∷ promos) = max_seller (more_seller best p) promos

unfoldable pub min_price : Promo → List Promo → Promo
unfolding cheaper
min_price best [] = best
min_price best (p ∷ promos) = min_price (cheaper best p) promos

pub record Baseline : Type 0 where
  pub max_seller_pct : Share
  pub min_price : ℕ
  pub original_price : ℕ
  pub type_of_max_seller : Option String
  pub type_of_min_price : Option String
  pub n_started : ℕ

abbrev pub baseline_of : List Promo → Option Baseline
baseline_of [] = none
baseline_of (p ∷ promos) =
    let top = max_seller p promos in
    let low = min_price p promos in
    some (record {
      max_seller_pct = seller_share top;
      min_price = low.price;
      original_price = top.original_price;
      type_of_max_seller = top.type;
      type_of_min_price = low.type;
      n_started = length (p ∷ promos);
    })

unfoldable pub baseline_from_active_promos : (String → String) → List Promo → Option Baseline
unfolding is_usable
baseline_from_active_promos lower promos = baseline_of (parsed lower promos)

-- The columns of ml_costs_snapshot that a cap needs.
pub record CostsSnapshot : Type 0 where
  pub mlb_id : String
  pub sku : String
  pub fetch_error : Bool
  pub base_cost : Option ℤ
  pub commission_pct : Option ℤ
  pub list_price : Option ℤ
  pub freight_bands : List FreightBand
  pub sheet_discount_pct : Option ℤ

pub data Source : Type 0 where
  active_promo fallback : Source

pub record CapCalculation : Type 0 where
  pub mlb_id : String
  pub sku : String
  pub cap_pct : ℤ
  pub floor_price : Option ℤ
  pub margin_pct_at_floor : Option ℤ
  pub list_price : Option ℤ
  pub skipped : Bool
  pub source : Source

-- The override, or the snapshot's.
abbrev pub bands_or_own : Option (List FreightBand) → List FreightBand → List FreightBand
bands_or_own none own = own
bands_or_own (some bands) own = bands

abbrev pub pct_of : Option MarginBreakdown → Option ℤ
pct_of none = none
pct_of (some m) = some m.margin_pct

-- None where the costs are incomplete.
unfoldable pub margin_of :
    ℕ → Option ℤ → Option ℤ → List FreightBand → List CommissionBand → Option ℤ
margin_of price (some cost) (some pct) (b ∷ bands) commission_bands =
    pct_of (margin_at_price price cost pct (b ∷ bands) none (pos 0) commission_bands)
margin_of price _ _ _ commission_bands = none

unfoldable pub calc_cap_from_active_promo :
    CostsSnapshot
    → Baseline
    → Option ℤ
    → Option (List FreightBand)
    → List CommissionBand
    → CapCalculation
unfolding margin_of
calc_cap_from_active_promo snap baseline commission_pct freight_bands commission_bands = record {
  mlb_id = snap.mlb_id;
  sku = snap.sku;
  cap_pct = max_ℤ (pos 0) (nearest baseline.max_seller_pct.num baseline.max_seller_pct.den);
  floor_price = some (pos baseline.min_price);
  margin_pct_at_floor =
      margin_of baseline.min_price snap.base_cost (or_own commission_pct snap.commission_pct)
        (bands_or_own freight_bands snap.freight_bands) commission_bands;
  list_price = some (pos baseline.original_price);
  skipped = false;
  source = active_promo;
}

abbrev pub skipped_cap : CostsSnapshot → Option ℤ → CapCalculation
skipped_cap snap list_price = record {
  mlb_id = snap.mlb_id;
  sku = snap.sku;
  cap_pct = pos 0;
  floor_price = none;
  margin_pct_at_floor = none;
  list_price = list_price;
  skipped = true;
  source = fallback;
}

abbrev pub final_cap : CostsSnapshot → ℤ → ℤ → Option ℤ → ℤ → CapCalculation
final_cap snap cap floor_price margin list_price = record {
  mlb_id = snap.mlb_id;
  sku = snap.sku;
  cap_pct = cap;
  floor_price = some floor_price;
  margin_pct_at_floor = margin;
  list_price = some list_price;
  skipped = false;
  source = fallback;
}

-- What the solver's answer allows; the list price is not 0.
unfoldable pub cap_from_target :
    CostsSnapshot → ℤ → ℤ → List FreightBand → List CommissionBand → ℕ → Target → CapCalculation
cap_from_target snap cost pct bands commission_bands list_price (floor price) =
    let base_cap = or_fallback snap.sheet_discount_pct default_cap_pct in
    let by_margin =
      max_ℤ (nearest ((pos list_price -ℤ price) *ℤ pos whole_percent) list_price) (pos 0) in
    let cap = min_ℤ base_cap by_margin in
    let at_cap = nearest (pos list_price *ℤ (pos whole_percent -ℤ cap)) whole_percent in
    let realised = margin_at_price (pos_part at_cap) cost pct bands none (pos 0) commission_bands in
    final_cap snap cap at_cap (pct_of realised) (pos list_price)
cap_from_target snap cost pct bands commission_bands list_price _ =
    skipped_cap snap (some (pos list_price))

-- At the list price the margin is reached, or no promotion is allowed.
unfoldable pub cap_from_margin :
    CostsSnapshot → ℤ → ℤ → List FreightBand → List CommissionBand → ℕ → Option ℤ → CapCalculation
unfolding cap_from_target
cap_from_margin snap cost pct bands commission_bands list_price margin =
    if ltb_ℤ (or_fallback margin (pos 0)) min_margin_pct
    then final_cap snap (pos 0) (pos list_price) margin (pos list_price)
    else cap_from_target snap cost pct bands commission_bands list_price (
        target_price_for_min_margin_pct cost pct bands min_margin_pct none (pos 0) commission_bands)

-- Incomplete costs, or a list price that is not positive, are skipped.
unfoldable pub cap_from_costs :
    CostsSnapshot
    → Option ℤ
    → Option ℤ
    → Option ℤ
    → List FreightBand
    → List CommissionBand
    → CapCalculation
unfolding cap_from_margin
cap_from_costs snap (some cost) (some pct) (some (pos (suc n))) (b ∷ bands) commission_bands =
    cap_from_margin snap cost pct (b ∷ bands) commission_bands (suc n)
      (pct_of (margin_at_price (suc n) cost pct (b ∷ bands) none (pos 0) commission_bands))
cap_from_costs snap cost pct list_price bands commission_bands = skipped_cap snap list_price

unfoldable pub calc_cap_for_snapshot :
    CostsSnapshot → Option ℤ → Option (List FreightBand) → List CommissionBand → CapCalculation
unfolding cap_from_costs
calc_cap_for_snapshot snap commission_pct freight_bands commission_bands =
    if snap.fetch_error
    then skipped_cap snap none
    else cap_from_costs snap snap.base_cost (or_own commission_pct snap.commission_pct)
        snap.list_price (bands_or_own freight_bands snap.freight_bands) commission_bands
