-- ===== src/Tests/Caps.antt =====
-- Caps of src/tiny_mirror/services/cap_recompute_service.py at concrete inputs.
use tiny_mirror.Prelude.{
  ℕ, ◌≤◌, ◌≡◌, refl, String, true, false, Option, none, some, List, [], ◌∷◌, filter, pos, ◌+ℤ◌,
  ◌-ℤ◌, ◌*ℤ◌, min_ℤ, max_ℤ, All,
}
use tiny_mirror.Sort.{sort}
use tiny_mirror.Pricing.{
  two_bands, freight_for, commission_pct_for, nearest, nearest_ℕ, place, solve, search_segments,
  candidate_of, segment_breakpoints, segments_from, banca, breakdown, margin_at_price,
  target_price_for_min_margin_pct,
}
use tiny_mirror.Pricing.Floor.{Some}
use tiny_mirror.Caps.{
  Promo, CostsSnapshot, seller_share, is_less, is_usable, cheaper, more_seller, max_seller,
  min_price, baseline_from_active_promos, calc_cap_from_active_promo, calc_cap_for_snapshot,
  cap_from_costs, cap_from_margin, cap_from_target,
}
use tiny_mirror.Caps.Started.{started_not_below_floor}
use tiny_mirror.Caps.Recompute.{
  snapshot_has_cost, good_snap_by_sku, has_own_cost, build_inherited_snapshots, recompute_all_caps,
  recompute_each, recompute_one, in_sku_order, store_cap, upsert_cap, calc_cap,
}
use tiny_mirror.Caps.Recompute.Inherited.{IsInherited, IsInherited-complete}

abbrev as_is : String → String
as_is s = s

abbrev promo : String → ℕ → ℕ → Promo
promo status price meli = record {
  status = some status;
  type = some "SMART";
  original_price = 10000;
  price = price;
  meli_percentage = pos meli;
}

-- The second is the cheapest, of which Mercado Livre pays a part; the last is not live.
abbrev promos : List Promo
promos = promo "started" 8000 0 ∷ promo "started" 7500 700 ∷ promo "candidate" 5000 0 ∷ []

-- A cost of R$ 36.30 at a list price of R$ 85.00, and a discount of 5% asked for.
abbrev costs : CostsSnapshot
costs = record {
  mlb_id = "MLB1";
  sku = "KIT-7";
  fetch_error = false;
  base_cost = some (pos 3630);
  commission_pct = some (pos 1150);
  list_price = some (pos 8500);
  freight_bands = two_bands (pos 600) (pos 2000);
  sheet_discount_pct = some (pos 500);
}

started_not_below_floor_example :
    let cap =
      calc_cap_from_active_promo costs
        (record {
          max_seller_pct = seller_share (promo "started" 8000 0);
          min_price = 7500;
          original_price = 10000;
          type_of_max_seller = some "SMART";
          type_of_min_price = some "SMART";
          n_started = 2;
        })
        none
        none
        [] in
    (cap.floor_price ≡ some (pos 7500))
    × All (λ p. is_usable as_is p ≡ true → 7500 ≤ p.price) promos
    × Some (λ p. 7500 ≡ p.price) (filter (is_usable as_is) promos)
unfolding baseline_from_active_promos is_usable max_seller more_seller is_less seller_share
    min_price cheaper ◌-ℤ◌ ◌*ℤ◌
started_not_below_floor_example = started_not_below_floor as_is promos _ costs none none [] refl

-- The 5% are granted: R$ 80.75, where the margin is 7.27%.
cap_below_margin :
    ((calc_cap_for_snapshot costs none none []).cap_pct ≡ pos 500)
    × ((calc_cap_for_snapshot costs none none []).margin_pct_at_floor ≡ some (pos 727))
unfolding calc_cap_for_snapshot cap_from_costs cap_from_margin cap_from_target
    target_price_for_min_margin_pct search_segments candidate_of segment_breakpoints segments_from
    sort place solve margin_at_price breakdown banca nearest nearest_ℕ freight_for
    commission_pct_for ◌+ℤ◌ ◌-ℤ◌ ◌*ℤ◌ min_ℤ max_ℤ
cap_below_margin = (refl, refl)

-- Another listing of the SKU, whose costs could not be read, and one with no costs at all.
abbrev errored : CostsSnapshot
errored = record costs { mlb_id = "MLB2"; fetch_error = true; base_cost = none }

abbrev active : List (String × Option String)
active = ("MLB1", some "KIT-7") ∷ ("MLB2", some "KIT-7") ∷ ("MLB3", some "KIT-8") ∷ []

IsInherited-complete_example :
    All
      (IsInherited (errored ∷ costs ∷ []))
      (build_inherited_snapshots (errored ∷ costs ∷ []) active)
IsInherited-complete_example = IsInherited-complete (errored ∷ costs ∷ []) active

-- Only the second listing inherits.
inherits_once :
    build_inherited_snapshots (errored ∷ costs ∷ []) active ≡ record costs { mlb_id = "MLB2" } ∷ []
unfolding build_inherited_snapshots good_snap_by_sku has_own_cost snapshot_has_cost
inherits_once = refl

-- Promotions are fetched for the listing with costs and not for the one without, which is skipped.
pass_counts :
    let stats =
      (recompute_all_caps as_is []
        (λ mlb_id. none)
        (some (λ mlb_id. some promos))
        (errored ∷ costs ∷ [])
        []).1 in
    (stats.snapshots_read ≡ 2)
    × (stats.mlbs_processed ≡ 1)
    × (stats.mlbs_skipped ≡ 1)
    × (stats.mlbs_fetched_promos ≡ 1)
unfolding recompute_all_caps recompute_each recompute_one in_sku_order build_inherited_snapshots
    store_cap upsert_cap sort baseline_from_active_promos is_usable max_seller more_seller is_less
    seller_share min_price cheaper calc_cap_from_active_promo calc_cap_for_snapshot cap_from_costs
    cap_from_margin cap_from_target good_snap_by_sku has_own_cost snapshot_has_cost calc_cap ◌-ℤ◌
    ◌*ℤ◌ max_ℤ nearest
pass_counts = (refl, refl, refl, refl)
