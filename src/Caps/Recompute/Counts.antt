-- ===== src/Caps/Recompute/Counts.antt =====
-- The counts that a recomputation returns.
use tiny_mirror.Prelude.{
  ℕ, suc, ◌+◌, ◌≡◌, String, Bool, true, false, Option, none, some, List, [], ◌∷◌, ◌++◌, length, ℤ,
  int_eq, arith, if◌then◌else◌,
}
use tiny_mirror.Fulfillment.Catalog.{Listing}
use tiny_mirror.Pricing.{Calibration}
use tiny_mirror.Caps.{Promo, CostsSnapshot, CapCalculation}
use tiny_mirror.Caps.Recompute.{
  CapRow, Stats, store_cap, calculated, baseline_of_fetch, is_there, price_of, recompute_one,
  recompute_each, in_sku_order, build_inherited_snapshots, active_listings, no_counts,
  recompute_all_caps,
}

-- The snapshots that have been counted, and the sources of those that were not skipped.
record Adds (before after : Stats) (n : ℕ) : Type 0 where
  total :
      after.mlbs_processed + after.mlbs_skipped ≡ before.mlbs_processed + before.mlbs_skipped + n
  sources :
      after.mlbs_from_active_promo + after.mlbs_fallback_sheet + before.mlbs_processed
      ≡ before.mlbs_from_active_promo + before.mlbs_fallback_sheet + after.mlbs_processed

store_cap-Adds :
    (calc : CapCalculation) (mlb_id : String) (flag : Option Bool) (price : Option ℤ)
    (caps : List CapRow) (stats : Stats)
    → Adds stats (store_cap calc mlb_id flag price (caps, stats)).1 1
unfolding store_cap
store_cap-Adds calc mlb_id flag price caps stats = ground arith

if-Adds :
    {before : Stats} {n : ℕ} (b : Bool) (x y : List CapRow × Stats)
    → Adds before x.1 n
    → Adds before y.1 n
    → Adds before (if b then x else y).1 n
if-Adds true x y h k = h
if-Adds false x y h k = k

Adds-trans : {a b c : Stats} {m n : ℕ} → Adds a b m → Adds b c n → Adds a c (m + n)
Adds-trans h k = record {
  total = omega (arith, h.total, k.total);
  sources = omega (arith, h.sources, k.sources);
}

module _ (lower : String → String) (listings : List Listing)
    (calib_of : String → Option Calibration) where
  recompute_one-Adds :
      (service : Option (String → Option (List Promo))) (snap : CostsSnapshot) (caps : List CapRow)
      (stats : Stats)
      → Adds stats (recompute_one lower listings calib_of service snap (caps, stats)).1 1
  unfolding recompute_one
  recompute_one-Adds none snap caps stats =
      store_cap-Adds (calculated lower listings calib_of snap none) snap.mlb_id none none caps stats
  recompute_one-Adds (some fetch) snap caps stats =
      let baseline = baseline_of_fetch lower listings calib_of (fetch snap.mlb_id) in
      let fetched = record stats { mlbs_fetched_promos = suc stats.mlbs_fetched_promos } in
      let h =
        store_cap-Adds (calculated lower listings calib_of snap baseline) snap.mlb_id
          (some (is_there baseline)) (price_of baseline) caps fetched in
      if-Adds snap.fetch_error _ _
        (store_cap-Adds (calculated lower listings calib_of snap none) snap.mlb_id none none caps
          stats)
        (record { total = h.total; sources = h.sources })

  recompute_each-Adds :
      (service : Option (String → Option (List Promo))) (snapshots : List CostsSnapshot)
      (caps : List CapRow) (stats : Stats)
      → Adds stats
          (recompute_each lower listings calib_of service snapshots (caps, stats)).1
          (length snapshots)
  unfolding recompute_each
  recompute_each-Adds service [] caps stats = ground arith
  recompute_each-Adds service (s ∷ snapshots) caps stats =
      let (caps', stats') = recompute_one lower listings calib_of service s (caps, stats) in
      let h =
        Adds-trans (recompute_one-Adds service s caps stats)
          (recompute_each-Adds service snapshots caps' stats') in
      record { total = omega (arith, h.total); sources = h.sources }

  -- The caps recomputed and the listings skipped add up to the snapshots that have a SKU, the inherited
  -- ones among them, and the caps from live promotions and those from costs to the caps recomputed.
  pub recompute_counts :
      (service : Option (String → Option (List Promo))) (snapshots : List CostsSnapshot)
      (caps : List CapRow)
      → let stats = (recompute_all_caps lower listings calib_of service snapshots caps).1 in
        let synths = build_inherited_snapshots snapshots (active_listings listings) in
        (stats.mlbs_processed + stats.mlbs_skipped ≡ length (in_sku_order (snapshots ++ synths)))
        × (stats.mlbs_from_active_promo + stats.mlbs_fallback_sheet ≡ stats.mlbs_processed)
  unfolding recompute_all_caps
  recompute_counts service snapshots caps =
      let synths = build_inherited_snapshots snapshots (active_listings listings) in
      let h =
        recompute_each-Adds service (in_sku_order (snapshots ++ synths)) caps
          (no_counts (length snapshots) (length synths)) in
      (omega (arith, h.total), omega (arith, h.sources))
