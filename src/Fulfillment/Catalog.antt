-- ===== src/Fulfillment/Catalog.antt =====
-- The listings, products and kits of the database, and the inventories in which the units of a SKU
-- arrive: the map that `scan_and_reconcile` builds by several queries and the one of
-- `_inventory_map_for` (services/fulfillment_reception_service.py).
pub mod Agreement
use Prim.Native.Nat.{max}
use tiny_mirror.Prelude.{
  ℕ, ◌/◌, String, Bool, true, false, not, ◌&&◌, ◌||◌, Option, none, some, List, [], ◌∷◌, ◌++◌, map,
  filter, any, flat_map, distinct, ℤ, pos, pos_part, leb_ℤ, Comparable, ◌==◌, nat_eq, string_eq,
  int_eq, if◌then◌else◌,
}
use tiny_mirror.Json.{codes}
use tiny_mirror.Sort.{sort, codes_before}
use tiny_mirror.Fulfillment.Transfer.{Transfer}
use tiny_mirror.Fulfillment.Paging.{InventorySource}

-- The columns of ml_listings, ml_listing_variations, products and product_kit_components that the
-- queries read. A quantity of a component is in hundredths.
pub record Listing : Type 0 where
  pub mlb_id : String
  pub sku : Option String
  pub logistic_type : Option String
  pub status : Option String
  pub inventory_id : Option String
  pub has_variations : Bool

pub record Variation : Type 0 where
  pub mlb_id : String
  pub inventory_id : Option String

pub record Product : Type 0 where
  pub tiny_id : ℕ
  pub sku : String

pub record KitComponent : Type 0 where
  pub kit_product_tiny_id : ℕ
  pub component_product_tiny_id : Option ℕ
  pub quantity : ℤ

pub record Catalog : Type 0 where
  pub listings : List Listing
  pub variations : List Variation
  pub products : List Product
  pub components : List KitComponent

-- SQL's `column = value`: NULL is equal to nothing.
abbrev pub holds {ℓ} : {A : Type ℓ} ⦃c : Comparable A⦄ → Option A → A → Bool
holds none value = false
holds (some x) value = x == value

-- SQL's `column = ANY(values)`.
abbrev pub is_one_of : Option String → List String → Bool
is_one_of column values = any (holds column) values

abbrev pub is_fulfillment : Listing → Bool
is_fulfillment l = holds l.logistic_type "fulfillment"

-- On the fulfilment channel, active or paused.
unfoldable pub is_offered : Listing → Bool
is_offered l = is_fulfillment l && (holds l.status "active" || holds l.status "paused")

-- One entry of the map; an inventory that is NULL or empty has none.
abbrev pub source_of : ℤ → Option String → List InventorySource
source_of multiplier none = []
source_of multiplier (some inventory_id) =
    if inventory_id == ""
    then []
    else record { inventory_id = inventory_id; multiplier = multiplier } ∷ []

-- `max(1, int(comp_per_kit or 1))`
abbrev pub units_per_kit : ℤ → ℤ
units_per_kit quantity = pos (max 1 (pos_part quantity / 100))

instance abbrev pub inventory_source_eq : Comparable InventorySource
inventory_source_eq = record {
  is_equal = λ s t. s.inventory_id == t.inventory_id && s.multiplier == t.multiplier;
}

-- Python's order of the pairs.
abbrev pub source_before : InventorySource → InventorySource → Bool
source_before s t =
    if s.inventory_id == t.inventory_id
    then leb_ℤ s.multiplier t.multiplier
    else codes_before (codes s.inventory_id) (codes t.inventory_id)

-- `sorted(set(pairs))`
unfoldable pub sorted_set : List InventorySource → List InventorySource
sorted_set sources = sort source_before (distinct sources)

-- `SELECT DISTINCT product_sku, product_tiny_id`
pub record SentProduct : Type 0 where
  pub product_sku : String
  pub product_tiny_id : ℕ

instance abbrev pub sent_product_eq : Comparable SentProduct
sent_product_eq = record {
  is_equal = λ s t. s.product_sku == t.product_sku && s.product_tiny_id == t.product_tiny_id;
}

abbrev pub sent_products : List String → List Transfer → List SentProduct
sent_products skus table = distinct (
    map (λ r. record { product_sku = r.product_sku; product_tiny_id = r.product_tiny_id })
      (filter (λ r. any (λ s. r.product_sku == s) skus) table))

-- A row of the join over the kits that hold a product: a listing of the kit, and the units of the
-- product in one kit.
pub record ParentRow : Type 0 where
  pub base_sku : String
  pub listing : Listing
  pub mult : ℤ

abbrev pub parents_of : Catalog → SentProduct → List ParentRow
parents_of catalog sent =
    flat_map
      (λ kc.
        flat_map
          (λ p_kit.
            map
              (λ ml. record {
                base_sku = sent.product_sku;
                listing = ml;
                mult = units_per_kit kc.quantity;
              })
              (filter (λ ml. holds ml.sku p_kit.sku && is_offered ml) catalog.listings))
          (filter (λ p. p.tiny_id == kc.kit_product_tiny_id) catalog.products))
      (filter (λ kc. holds kc.component_product_tiny_id sent.product_tiny_id) catalog.components)

unfoldable pub parent_rows : Catalog → List String → List Transfer → List ParentRow
parent_rows catalog skus table = flat_map (parents_of catalog) (sent_products skus table)

-- The listings of the SKUs.
unfoldable pub main_rows : Catalog → List String → List Listing
main_rows catalog skus = filter (λ l. is_one_of l.sku skus && is_fulfillment l) catalog.listings

-- The inventories of the listings without variations: a SKU's own, and its kits'.
unfoldable pub own_direct : Catalog → List String → String → List InventorySource
unfolding main_rows
own_direct catalog skus sku =
    flat_map (λ l. source_of (pos 1) l.inventory_id)
      (filter (λ l. not l.has_variations && holds l.sku sku) (main_rows catalog skus))

unfoldable pub parent_direct : List ParentRow → String → List InventorySource
parent_direct rows sku =
    flat_map (λ r. source_of r.mult r.listing.inventory_id)
      (filter (λ r. not r.listing.has_variations && r.base_sku == sku) rows)

-- The variations of the listings with these ids.
abbrev pub variations_among : List String → Catalog → List Variation
variations_among mlb_ids catalog = filter (λ v. any (λ i. i == v.mlb_id) mlb_ids) catalog.variations

-- The scan's map. The variations of a SKU's own listings are looked up by the listings' ids and then
-- joined with the listings, those of its kits grouped by the ids.
unfoldable pub own_variations : Catalog → List String → String → List InventorySource
unfolding main_rows
own_variations catalog skus sku =
    let ids = map (λ l. l.mlb_id) (filter (λ l. l.has_variations) (main_rows catalog skus)) in
    flat_map
      (λ v.
        flat_map (λ l. source_of (pos 1) v.inventory_id)
          (filter (λ l. l.mlb_id == v.mlb_id && holds l.sku sku) catalog.listings))
      (variations_among ids catalog)

unfoldable pub parent_variations : Catalog → List ParentRow → String → List InventorySource
parent_variations catalog rows sku =
    let mine = filter (λ r. r.listing.has_variations) rows in
    let kept = variations_among (map (λ r. r.listing.mlb_id) mine) catalog in
    flat_map
      (λ r.
        flat_map (λ v. source_of r.mult v.inventory_id)
          (filter (λ v. v.mlb_id == r.listing.mlb_id) kept))
      (filter (λ r. r.base_sku == sku) mine)

unfoldable pub inventory_map : Catalog → List String → List Transfer → String → List InventorySource
unfolding sorted_set own_direct own_variations parent_direct parent_variations parent_rows
inventory_map catalog skus table sku =
    let rows = parent_rows catalog skus table in
    sorted_set (
      own_direct catalog skus sku
      ++ (own_variations catalog skus sku
          ++ (parent_direct rows sku ++ parent_variations catalog rows sku)))

-- The query's map: each listing with variations is joined with all its variations.
unfoldable pub own_joined : Catalog → List String → String → List InventorySource
unfolding main_rows
own_joined catalog skus sku =
    flat_map
      (λ l.
        flat_map (λ v. source_of (pos 1) v.inventory_id)
          (filter (λ v. v.mlb_id == l.mlb_id) catalog.variations))
      (filter (λ l. l.has_variations && holds l.sku sku) (main_rows catalog skus))

unfoldable pub parent_joined : Catalog → List ParentRow → String → List InventorySource
parent_joined catalog rows sku =
    flat_map
      (λ r.
        flat_map (λ v. source_of r.mult v.inventory_id)
          (filter (λ v. v.mlb_id == r.listing.mlb_id) catalog.variations))
      (filter (λ r. r.listing.has_variations && r.base_sku == sku) rows)

unfoldable pub inventory_map_for :
    Catalog → List String → List Transfer → String → List InventorySource
unfolding sorted_set own_direct own_joined parent_direct parent_joined parent_rows
inventory_map_for catalog skus table sku =
    let rows = parent_rows catalog skus table in
    sorted_set (
      own_direct catalog skus sku
      ++ (own_joined catalog skus sku
          ++ (parent_direct rows sku ++ parent_joined catalog rows sku)))
