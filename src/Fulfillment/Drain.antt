-- ===== src/Fulfillment/Drain.antt =====
-- `drain_stale_phantoms` (services/fulfillment_reception_service.py): pending transfers that stayed
-- out for longer than the grace period are cancelled, oldest first, until what is left is accounted
-- for.
pub mod Bounds
pub mod Table
use tiny_mirror.Prelude.{
  ℕ, zero, suc, ◌+◌, ◌-◌, ◌*◌, String, Bool, true, false, ◌&&◌, ◌||◌, Option, none, some, List, [],
  ◌∷◌, map, filter, distinct, ℤ, pos, ◌+ℤ◌, ◌-ℤ◌, ◌*ℤ◌, leb_ℤ, ltb_ℤ, ltb, leb, any, length, ◌==◌,
  nat_eq, string_eq, if◌then◌else◌,
}
use tiny_mirror.Json.{Fields, codes}
use tiny_mirror.Sort.{sort, ascending, codes_before}
use tiny_mirror.Fulfillment.Transfer.{Time, Transfer, pending, list_all, mark_cancelled}
use tiny_mirror.Fulfillment.Event.{extract_transfer_qty}
use tiny_mirror.Fulfillment.Windows.{day}
use tiny_mirror.Fulfillment.Paging.{InventorySource}
use tiny_mirror.Fulfillment.Catalog.{Catalog, inventory_map_for}

-- The units of a row that have not arrived.
abbrev pub net : Transfer → ℤ
net r = r.quantity -ℤ r.quantity_received

abbrev pub sum_net : List Transfer → ℤ
sum_net [] = pos 0
sum_net (r ∷ rows) = net r +ℤ sum_net rows

-- Outside the grace window, with units still out.
abbrev pub is_stale : Time → Transfer → Bool
is_stale cutoff r = ltb r.transferred_at cutoff && ltb_ℤ (pos 0) (net r)

-- Inside the grace window.
abbrev pub is_in_grace : Time → Transfer → Bool
is_in_grace cutoff r = leb cutoff r.transferred_at

unfoldable pub stale_skus : Time → List Transfer → List String
stale_skus cutoff rows =
    sort (λ s t. codes_before (codes s) (codes t))
      (distinct (map (λ r. r.product_sku) (filter (is_stale cutoff) rows)))

-- The rows of a SKU, oldest first.
abbrev pub rows_of : String → List Transfer → List Transfer
rows_of sku rows =
    sort (ascending (λ r. r.transferred_at)) (filter (λ r. r.product_sku == sku) rows)

-- The loop over a SKU's rows: those that it cancels.
unfoldable pub drained : Time → ℤ → ℤ → List Transfer → List Transfer
drained cutoff keep net_total [] = []
drained cutoff keep net_total (r ∷ rows) =
    let skipped = drained cutoff keep net_total rows in
    let after = drained cutoff keep (net_total -ℤ net r) rows in
    if leb_ℤ net_total keep
    then []
    else if is_in_grace cutoff r
    then skipped
    else if leb_ℤ (net r) (pos 0)
    then skipped
    else r ∷ after

-- The rows of one SKU that are cancelled, and what the service says is on its way: none where a call
-- failed.
unfoldable pub drain_rows : Time → List Transfer → Option ℤ → List Transfer × ℤ
drain_rows cutoff rows none = ([], pos 0)
drain_rows cutoff rows (some confirmed) =
    let recent_net = sum_net (filter (is_in_grace cutoff) rows) in
    (drained cutoff (confirmed +ℤ recent_net) (sum_net rows) rows, confirmed)

-- `get_inventory_stock inventory_id`: the client's answer, `none` where it raises.
module _ (get_inventory_stock : String → Option Fields) where
  unfoldable pub ml_transfer : List InventorySource → ℤ → Option ℤ
  ml_transfer [] total = some total
  ml_transfer (source ∷ sources) total = elim (get_inventory_stock source.inventory_id) [
    | none ↦ none
    | some stock ↦ ml_transfer sources (total +ℤ extract_transfer_qty stock *ℤ source.multiplier)
  ]

  unfoldable pub drain_sku : Time → List InventorySource → List Transfer → List Transfer × ℤ
  unfolding drain_rows
  drain_sku cutoff sources rows = drain_rows cutoff rows (ml_transfer sources (pos 0))

  -- `inv_map` gives the inventories of a SKU; `reason` writes the units that the service says
  -- are on their way into the reason of a cancellation.
  module _ (inv_map : String → List InventorySource) (reason : ℤ → String) where
    abbrev pub cancel_all : String → List Transfer → List Transfer → List Transfer
    cancel_all text [] table = table
    cancel_all text (r ∷ rows) table = cancel_all text rows (mark_cancelled r.id text table)

    -- `pending_rows` were read before; the table after the cancellations, and their number.
    unfoldable pub drain_skus :
        Time → List String → List Transfer → List Transfer → List Transfer × ℕ
    drain_skus cutoff [] pending_rows table = (table, 0)
    drain_skus cutoff (sku ∷ skus) pending_rows table =
        let (gone, confirmed) = drain_sku cutoff (inv_map sku) (rows_of sku pending_rows) in
        let (table', count) =
          drain_skus cutoff skus pending_rows (cancel_all (reason confirmed) gone table) in
        (table', length gone + count)

-- The rows and the inventories are read before the first cancellation.
unfoldable pub drain_stale_phantoms :
    (String → Option Fields) → Catalog → (ℤ → String) → ℕ → Time → List Transfer → List Transfer × ℕ
unfolding stale_skus drain_skus
drain_stale_phantoms get_inventory_stock catalog reason grace_days now table =
    let cutoff = now - grace_days * day in
    let pending_rows = (list_all none (some pending) 500 0 table).0 in
    let skus = stale_skus cutoff pending_rows in
    drain_skus get_inventory_stock (inventory_map_for catalog skus table) reason cutoff skus
      pending_rows table
