-- ===== src/Stock/Full.antt =====
-- The units of a SKU that Mercado Livre holds in Full: `_fl_breakdown_for_sku` and
-- `_fetch_ml_full_breakdown` (src/tiny_mirror/services/stock_sync_service.py).
use tiny_mirror.Prelude.{
  ℕ, zero, suc, ◌/◌, String, ◌&&◌, ◌||◌, Option, none, some, List, [], ◌∷◌, filter, flat_map,
  distinct, ℤ, pos, negsuc, ◌+ℤ◌, ◌*ℤ◌, ◌==◌, string_eq, if◌then◌else◌,
}
use tiny_mirror.Json.{
  Json, int, obj, arr, nil, Fields, get, or_else, to_int, iterate, is_text, hashable,
}
use tiny_mirror.Fulfillment.Event.{◌>>=◌}
use tiny_mirror.Fulfillment.Catalog.{Catalog, Listing, Variation, holds, is_fulfillment}

-- The units that can be sold and those in transfer: a call raised, the SKU has no listing on the
-- channel, or the two numbers.
pub data Breakdown : Type 0 where
  raised unknown : Breakdown
  known : ℤ → ℤ → Breakdown

abbrev pub fl_listings : Catalog → String → List Listing
fl_listings catalog sku = filter (λ l. holds l.sku sku && is_fulfillment l) catalog.listings

-- Of a variation an empty id counts, of a listing it does not.
abbrev pub variation_ids : String → List Variation → List String
variation_ids mlb_id [] = []
variation_ids mlb_id (v ∷ vs) =
    let rest = variation_ids mlb_id vs in
    if v.mlb_id == mlb_id then elim v.inventory_id [ none ↦ rest | some id ↦ id ∷ rest ] else rest

abbrev pub own_id : Option String → List String
own_id none = []
own_id (some id) = if id == "" then [] else id ∷ []

unfoldable pub inventory_ids : Catalog → List Listing → List String
inventory_ids catalog rows = distinct (
    flat_map
      (λ l.
        if l.has_variations
        then variation_ids l.mlb_id catalog.variations
        else own_id l.inventory_id)
      rows)

-- The units of one entry of `not_available_detail` that are at the centre and soon to be sold.
unfoldable pub effective_units : Json → Option ℤ
effective_units (obj det) =
    let status = get det "status" in
    if hashable status
    then (if is_text status "transfer" || is_text status "internalProcess"
        then to_int (or_else (get det "quantity") (int (pos 0)))
        else some (pos 0))
    else none
effective_units _ = some (pos 0)

unfoldable pub sum_effective : List Json → Option ℤ
unfolding effective_units
sum_effective [] = some (pos 0)
sum_effective (v ∷ vs) =
    let rest = sum_effective vs in effective_units v >>= (λ n. rest >>= (λ sum. some (n +ℤ sum)))

unfoldable pub stock_units : Fields → Option (ℤ × ℤ)
unfolding sum_effective
stock_units stock =
    to_int (or_else (get stock "available_quantity") (int (pos 0))) >>= (λ available.
      iterate (or_else (get stock "not_available_detail") (arr nil))
      >>= (λ details. sum_effective details >>= (λ in_transfer. some (available, in_transfer))))

-- `a // x`, rounded down; x is not 0.
abbrev pub floor_div : ℤ → ℕ → ℤ
floor_div (pos a) x = pos (a / x)
floor_div (negsuc a) x = negsuc (a / x)

abbrev pub divided : ℕ → Breakdown → Breakdown
divided x (known available in_transfer) = known (floor_div available x) (floor_div in_transfer x)
divided x b = b

-- What a parent kit adds: nothing where it has no listing.
unfoldable pub plus : Breakdown → ℤ → Breakdown → Breakdown
plus raised quantity _ = raised
plus _ quantity raised = raised
plus b quantity unknown = b
plus unknown quantity (known a t) = known (a *ℤ quantity) (t *ℤ quantity)
plus (known b u) quantity (known a t) = known (b +ℤ a *ℤ quantity) (u +ℤ t *ℤ quantity)

-- `get_inventory_stock` is the client, `quantity_kit` the match of the regular expression: the units
-- and the SKU of which a kit is made.
module _ (get_inventory_stock : String → Option Fields) (catalog : Catalog)
    (quantity_kit : String → Option (ℕ × String)) where
  unfoldable pub sum_inventories : List String → Option (ℤ × ℤ)
  unfolding stock_units
  sum_inventories [] = some (pos 0, pos 0)
  sum_inventories (id ∷ ids) =
      let rest = sum_inventories ids in
      get_inventory_stock id
      >>= (λ stock. stock_units stock >>= (λ (a, t). rest >>= (λ (b, u). some (a +ℤ b, t +ℤ u))))

  abbrev pub of_sums : Option (ℤ × ℤ) → Breakdown
  of_sums none = raised
  of_sums (some (a, t)) = known a t

  abbrev pub of_listings : List Listing → Breakdown
  of_listings [] = unknown
  of_listings (l ∷ ls) = of_sums (sum_inventories (inventory_ids catalog (l ∷ ls)))

  unfoldable pub fl_breakdown_for_sku : String → Breakdown
  unfolding sum_inventories inventory_ids
  fl_breakdown_for_sku sku = of_listings (fl_listings catalog sku)

  unfoldable pub plus_parents : Breakdown → List (String × ℤ) → Breakdown
  unfolding plus fl_breakdown_for_sku
  plus_parents b [] = b
  plus_parents b ((kit_sku, quantity) ∷ kits) =
      plus_parents (plus b quantity (fl_breakdown_for_sku kit_sku)) kits

  abbrev pub of_quantity_kit : ℕ → String → Breakdown
  of_quantity_kit zero base_sku = known (pos 0) (pos 0)
  of_quantity_kit (suc x) base_sku = divided (suc x) (fl_breakdown_for_sku base_sku)

  abbrev pub by_kind : Option (ℕ × String) → String → List (String × ℤ) → Breakdown
  by_kind (some (x, base_sku)) sku kits = of_quantity_kit x base_sku
  by_kind none sku kits = plus_parents (fl_breakdown_for_sku sku) kits

  -- The regular expression is tried on kits only. A call that raises is caught by the callers' None.
  unfoldable pub fetch_ml_full_breakdown : String → String → List (String × ℤ) → Breakdown
  unfolding plus_parents fl_breakdown_for_sku
  fetch_ml_full_breakdown sku type kits =
      by_kind (if type == "K" then quantity_kit sku else none) sku kits
