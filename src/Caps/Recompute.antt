-- ===== src/Caps/Recompute.antt =====
-- The rest of src/tiny_mirror/services/cap_recompute_service.py: costs that a listing inherits from
-- another of its SKU, and the pass over all listings that stores the caps.
pub mod Counts
pub mod Inherited
use tiny_mirror.Prelude.{
  ℕ, zero, suc, String, Bool, true, false, not, ◌&&◌, ◌||◌, Option, none, some, List, [], ◌∷◌, ◌++◌,
  map, filter, any, length, ℤ, pos, ltb_ℤ, ◌==◌, string_eq, int_eq, if◌then◌else◌,
}
use tiny_mirror.Json.{codes}
use tiny_mirror.Sort.{sort, codes_before}
use tiny_mirror.Fulfillment.Catalog.{Catalog, Listing, holds}
use tiny_mirror.Pricing.{FreightBand, CommissionBand, Calibration, apply_flex_calibration}
use tiny_mirror.Caps.{
  Promo, Baseline, CostsSnapshot, Source, active_promo, fallback, CapCalculation,
  baseline_from_active_promos, calc_cap_from_active_promo, calc_cap_for_snapshot,
}

abbrev pub is_positive : Option ℤ → Bool
is_positive none = false
is_positive (some z) = ltb_ℤ (pos 0) z

abbrev pub is_some : Option ℤ → Bool
is_some none = false
is_some (some z) = true

abbrev pub has_bands : List FreightBand → Bool
has_bands [] = false
has_bands (b ∷ bands) = true

unfoldable pub snapshot_has_cost : CostsSnapshot → Bool
snapshot_has_cost s =
    not s.fetch_error
    && (is_some s.base_cost
        && (is_some s.commission_pct && (is_positive s.list_price && has_bands s.freight_bands)))

-- The first snapshot of the SKU with a complete cost.
unfoldable pub good_snap_by_sku : List CostsSnapshot → String → Option CostsSnapshot
unfolding snapshot_has_cost
good_snap_by_sku [] sku = none
good_snap_by_sku (s ∷ snapshots) sku =
    let rest = good_snap_by_sku snapshots sku in
    if not (s.sku == "") && (snapshot_has_cost s && s.sku == sku) then some s else rest

unfoldable pub has_own_cost : List CostsSnapshot → String → Bool
unfolding snapshot_has_cost
has_own_cost snapshots mlb_id = any (λ s. snapshot_has_cost s && s.mlb_id == mlb_id) snapshots

-- The sibling's costs under the listing's id.
abbrev pub inherit : String → String → CostsSnapshot → List CostsSnapshot
inherit mlb_id sku sib =
    if sib.mlb_id == mlb_id
    then []
    else record sib { mlb_id = mlb_id; sku = sku; fetch_error = false } ∷ []

abbrev pub from_sibling : String → String → Option CostsSnapshot → List CostsSnapshot
from_sibling mlb_id sku none = []
from_sibling mlb_id sku (some sib) = inherit mlb_id sku sib

-- The active listings without a complete cost of their own inherit one.
unfoldable pub build_inherited_snapshots :
    List CostsSnapshot → List (String × Option String) → List CostsSnapshot
unfolding good_snap_by_sku has_own_cost
build_inherited_snapshots snapshots [] = []
build_inherited_snapshots snapshots ((mlb_id, none) ∷ active) =
    build_inherited_snapshots snapshots active
build_inherited_snapshots snapshots ((mlb_id, some sku) ∷ active) =
    let rest = build_inherited_snapshots snapshots active in
    if sku == "" || has_own_cost snapshots mlb_id
    then rest
    else from_sibling mlb_id sku (good_snap_by_sku snapshots sku) ++ rest

-- A row of ml_promo_caps, as far as this pass writes it; its notes and its author are left out.
pub record CapRow : Type 0 where
  pub mlb_id : String
  pub sku : String
  pub max_seller_share_pct : ℤ
  pub margin_floor_price : Option ℤ
  pub has_active_promo : Bool
  pub active_promo_price : Option ℤ

-- What `upsert` is given.
pub record CapWrite : Type 0 where
  pub mlb_id : String
  pub sku : String
  pub max_seller_share_pct : ℤ
  pub margin_floor_price : Option ℤ
  pub has_active_promo : Option Bool
  pub active_promo_price : Option ℤ

-- None leaves what is there.
abbrev pub or_kept {ℓ} : {A : Type ℓ} → Option A → Option A → Option A
or_kept none kept = kept
or_kept (some v) kept = some v

abbrev pub flag_or_kept : Option Bool → Bool → Bool
flag_or_kept none kept = kept
flag_or_kept (some v) kept = v

-- A row that is not there yet has no live promotion unless the write says so.
abbrev pub inserted : CapWrite → CapRow
inserted new = record {
  mlb_id = new.mlb_id;
  sku = new.sku;
  max_seller_share_pct = new.max_seller_share_pct;
  margin_floor_price = new.margin_floor_price;
  has_active_promo = flag_or_kept new.has_active_promo false;
  active_promo_price = new.active_promo_price;
}

abbrev pub updated : CapWrite → CapRow → CapRow
updated new r = record r {
  sku = new.sku;
  max_seller_share_pct = new.max_seller_share_pct;
  margin_floor_price = or_kept new.margin_floor_price r.margin_floor_price;
  has_active_promo = flag_or_kept new.has_active_promo r.has_active_promo;
  active_promo_price = or_kept new.active_promo_price r.active_promo_price;
}

unfoldable pub upsert_cap : CapWrite → List CapRow → List CapRow
upsert_cap new [] = inserted new ∷ []
upsert_cap new (r ∷ rows) =
    let rest = upsert_cap new rows in
    if r.mlb_id == new.mlb_id then updated new r ∷ rows else r ∷ rest

pub record Stats : Type 0 where
  pub snapshots_read : ℕ
  pub mlbs_processed : ℕ
  pub mlbs_skipped : ℕ
  pub mlbs_from_active_promo : ℕ
  pub mlbs_fallback_sheet : ℕ
  pub mlbs_zero_cap : ℕ
  pub mlbs_fetched_promos : ℕ
  pub mlbs_inherited_cost : ℕ

abbrev pub count_source : Source → Stats → Stats
count_source active_promo stats = record stats {
  mlbs_from_active_promo = suc stats.mlbs_from_active_promo;
}
count_source fallback stats = record stats { mlbs_fallback_sheet = suc stats.mlbs_fallback_sheet }

abbrev pub count_zero : ℤ → Stats → Stats
count_zero cap stats =
    if cap == pos 0 then record stats { mlbs_zero_cap = suc stats.mlbs_zero_cap } else stats

-- What a calculation adds to the counts and to the table; a skipped one writes no row.
unfoldable pub store_cap :
    CapCalculation → String → Option Bool → Option ℤ → List CapRow × Stats → List CapRow × Stats
unfolding upsert_cap
store_cap calc mlb_id has_active_promo active_promo_price (caps, stats) =
    if calc.skipped then (caps, record stats { mlbs_skipped = suc stats.mlbs_skipped }) else (
      upsert_cap
          (record {
            mlb_id = mlb_id;
            sku = calc.sku;
            max_seller_share_pct = calc.cap_pct;
            margin_floor_price = calc.floor_price;
            has_active_promo = has_active_promo;
            active_promo_price = active_promo_price;
          })
          caps,
      count_zero calc.cap_pct
          (count_source calc.source (record stats { mlbs_processed = suc stats.mlbs_processed })),
    )

abbrev pub price_of : Option Baseline → Option ℤ
price_of none = none
price_of (some b) = some (pos b.min_price)

abbrev pub is_there : Option Baseline → Bool
is_there none = false
is_there (some b) = true

-- The fees are those of the calibration.
unfoldable pub calc_cap :
    CostsSnapshot
    → Option Baseline
    → Option ℤ × List FreightBand × List CommissionBand
    → CapCalculation
unfolding calc_cap_from_active_promo calc_cap_for_snapshot
calc_cap snap (some baseline) (pct, bands, commission_bands) =
    calc_cap_from_active_promo snap baseline pct (some bands) commission_bands
calc_cap snap none (pct, bands, commission_bands) =
    calc_cap_for_snapshot snap pct (some bands) commission_bands

-- `logistic_by_mlb.get(mlb_id)`
unfoldable pub logistic_type_of : List Listing → String → Option String
logistic_type_of [] mlb_id = none
logistic_type_of (l ∷ ls) mlb_id =
    let rest = logistic_type_of ls mlb_id in if l.mlb_id == mlb_id then l.logistic_type else rest

-- `sorted(by_sku.items())`, the snapshots of a SKU in their order and the inherited ones last.
unfoldable pub in_sku_order : List CostsSnapshot → List CostsSnapshot
in_sku_order snapshots =
    sort (λ s t. codes_before (codes s.sku) (codes t.sku))
      (filter (λ s. not (s.sku == "")) snapshots)

abbrev pub no_counts : ℕ → ℕ → Stats
no_counts read inherited = record {
  snapshots_read = read;
  mlbs_processed = 0;
  mlbs_skipped = 0;
  mlbs_from_active_promo = 0;
  mlbs_fallback_sheet = 0;
  mlbs_zero_cap = 0;
  mlbs_fetched_promos = 0;
  mlbs_inherited_cost = inherited;
}

abbrev pub active_listings : List Listing → List (String × Option String)
active_listings listings =
    map (λ l. (l.mlb_id, l.sku)) (filter (λ l. holds l.status "active") listings)

-- `fetch` is `fetch_eligible_promos`, none where it raises, and `service` that function, where there
-- is one; `calib_of` reads the calibration of a listing.
module _ (lower : String → String) (listings : List Listing)
    (calib_of : String → Option Calibration) where
  abbrev pub baseline_of_fetch : Option (List Promo) → Option Baseline
  baseline_of_fetch none = none
  baseline_of_fetch (some promos) = baseline_from_active_promos lower promos

  abbrev pub calculated : CostsSnapshot → Option Baseline → CapCalculation
  calculated snap baseline = calc_cap snap baseline (
      apply_flex_calibration (logistic_type_of listings snap.mlb_id) snap.commission_pct
        snap.freight_bands (calib_of snap.mlb_id))

  -- Promotions are fetched where there is a service and the snapshot has no error.
  unfoldable pub recompute_one :
      Option (String → Option (List Promo))
      → CostsSnapshot
      → List CapRow × Stats
      → List CapRow × Stats
  unfolding store_cap calc_cap apply_flex_calibration logistic_type_of
  recompute_one none snap acc = store_cap (calculated snap none) snap.mlb_id none none acc
  recompute_one (some fetch) snap (caps, stats) =
      let baseline = baseline_of_fetch (fetch snap.mlb_id) in
      if snap.fetch_error
      then store_cap (calculated snap none) snap.mlb_id none none (caps, stats)
      else store_cap (calculated snap baseline) snap.mlb_id (some (is_there baseline))
          (price_of baseline)
          (caps, record stats { mlbs_fetched_promos = suc stats.mlbs_fetched_promos })

  unfoldable pub recompute_each :
      Option (String → Option (List Promo))
      → List CostsSnapshot
      → List CapRow × Stats
      → List CapRow × Stats
  unfolding recompute_one
  recompute_each service [] acc = acc
  recompute_each service (s ∷ snapshots) acc =
      recompute_each service snapshots (recompute_one service s acc)

  unfoldable pub recompute_all_caps :
      Option (String → Option (List Promo)) → List CostsSnapshot → List CapRow → List CapRow × Stats
  unfolding recompute_each in_sku_order build_inherited_snapshots
  recompute_all_caps service snapshots caps =
      let synths = build_inherited_snapshots snapshots (active_listings listings) in
      recompute_each service (in_sku_order (snapshots ++ synths))
        (caps, no_counts (length snapshots) (length synths))
