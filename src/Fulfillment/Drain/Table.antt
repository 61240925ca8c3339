-- ===== src/Fulfillment/Drain/Table.antt =====
-- The rows of the table that a drain leaves as they are.
use tiny_mirror.Prelude.{
  ℕ, ◌-◌, ◌*◌, ◌≡◌, ◌≢◌, refl, ◌∙◌, String, Bool, true, false, Option, none, some, List, [], ◌∷◌,
  filter, ℤ, pos, arith, All, All-imp, All-filter, All-take, ◌==◌, nat_eq, string_eq,
}
use tiny_mirror.Json.{Fields}
use tiny_mirror.Sort.{All-sort, descending, ascending}
use tiny_mirror.Fulfillment.Transfer.{
  Time, Transfer, pending, same_status, list_all, get_by_id, cancel, mark_cancelled,
}
use tiny_mirror.Fulfillment.Windows.{day}
use tiny_mirror.Fulfillment.Paging.{InventorySource}
use tiny_mirror.Fulfillment.Catalog.{Catalog, inventory_map_for}
use tiny_mirror.Fulfillment.Drain.{
  is_stale, drain_rows, drain_sku, ml_transfer, rows_of, stale_skus, cancel_all, drain_skus,
  drain_stale_phantoms,
}
use tiny_mirror.Fulfillment.Drain.Bounds.{drained-All}

-- No pending row with this id is stale.
abbrev pub IsSpared : Time → ℕ → Transfer → Type 0
IsSpared cutoff id r = r.id ≡ id → same_status r.status pending ≡ true → is_stale cutoff r ≡ false

pub mark_cancelled-other :
    (id other : ℕ) (reason : String) (rows : List Transfer)
    → other ≢ id
    → get_by_id id (mark_cancelled other reason rows) ≡ get_by_id id rows
unfolding mark_cancelled cancel
mark_cancelled-other id other reason [] h = refl
mark_cancelled-other id other reason (r ∷ rows) h =
    ground (arith, mark_cancelled-other id other reason rows h)

pub rows_of-All :
    (P : Transfer → Type 0) (sku : String) (rows : List Transfer)
    → All P rows
    → All P (rows_of sku rows)
rows_of-All P sku rows h =
    All-sort P (ascending (λ r. r.transferred_at)) (filter (λ r. r.product_sku == sku) rows)
      (All-imp _ (λ r kept. kept.0) (All-filter P (λ r. r.product_sku == sku) rows h))

module _ (cutoff : Time) (id : ℕ) where
  drain_rows-other :
      (rows : List Transfer) (found : Option ℤ)
      → All (λ r. is_stale cutoff r ≡ true → r.id ≢ id) rows
      → All (λ r. r.id ≢ id) (drain_rows cutoff rows found).0
  unfolding drain_rows
  drain_rows-other rows none h = tt
  drain_rows-other rows (some confirmed) h =
      All-imp _ (λ r (other, stale). other stale)
        (drained-All cutoff _ (λ r. is_stale cutoff r ≡ true → r.id ≢ id) _ rows h)

  module _ (get_inventory_stock : String → Option Fields) (inv_map : String → List InventorySource)
      (reason : ℤ → String) where
    cancel_all-other :
        (text : String) (gone table : List Transfer)
        → All (λ r. r.id ≢ id) gone
        → get_by_id id (cancel_all get_inventory_stock inv_map reason text gone table)
          ≡ get_by_id id table
    cancel_all-other text [] table h = refl
    cancel_all-other text (r ∷ gone) table h =
        cancel_all-other text gone (mark_cancelled r.id text table) h.1
        ∙ mark_cancelled-other id r.id text table h.0

    drain_skus-other :
        (skus : List String) (pending_rows table : List Transfer)
        → All (λ r. is_stale cutoff r ≡ true → r.id ≢ id) pending_rows
        → get_by_id id
            (drain_skus get_inventory_stock inv_map reason cutoff skus pending_rows table).0
          ≡ get_by_id id table
    unfolding drain_skus drain_sku
    drain_skus-other [] pending_rows table h = refl
    drain_skus-other (sku ∷ skus) pending_rows table h =
        let rows = rows_of sku pending_rows in
        let found = ml_transfer get_inventory_stock (inv_map sku) (pos 0) in
        let gone = drain_rows-other rows found (rows_of-All _ sku pending_rows h) in
        drain_skus-other skus pending_rows _ h
        ∙ cancel_all-other (reason (drain_rows cutoff rows found).1)
            (drain_rows cutoff rows found).0 table gone

pub true_or_false : {b : Bool} → b ≡ true → b ≢ false
true_or_false t f = cc

-- The rows that `list_all` finds to be pending.
pub pending-All :
    (P : Transfer → Type 0) (limit : ℕ) (table : List Transfer)
    → All P table
    → All
        (λ r. P r × (same_status r.status pending ≡ true))
        (list_all none (some pending) limit 0 table).0
unfolding list_all
pending-All P limit table h =
    All-take _ limit _ (All-sort _ (descending (λ r. r.transferred_at)) _ (All-filter P _ table h))

-- A drain leaves the row with an id as it is, unless a row with that id is pending, older than the
-- grace period, and has units out.
pub drain_spares :
    (get_inventory_stock : String → Option Fields) (catalog : Catalog) (reason : ℤ → String)
    (grace_days : ℕ) (now : Time) (id : ℕ) (table : List Transfer)
    → All (IsSpared (now - grace_days * day) id) table
    → get_by_id id (drain_stale_phantoms get_inventory_stock catalog reason grace_days now table).0
      ≡ get_by_id id table
unfolding drain_stale_phantoms
drain_spares get_inventory_stock catalog reason grace_days now id table h =
    let cutoff = now - grace_days * day in
    let pending_rows = (list_all none (some pending) 500 0 table).0 in
    let skus = stale_skus cutoff pending_rows in
    drain_skus-other cutoff id get_inventory_stock (inventory_map_for catalog skus table) reason
      skus pending_rows table
      (All-imp _ (λ r (spared, waiting) stale same. true_or_false stale (spared same waiting))
        (pending-All (IsSpared cutoff id) 500 table h))
