-- ===== src/Fulfillment/Scan.antt =====
-- `scan_and_reconcile` and `_cancel_non_fulfillment_pending`
-- (services/fulfillment_reception_service.py): pending transfers with no way to Full are cancelled,
-- and the others are credited with the units that arrived.
pub mod Sound
pub mod Total
pub mod Agreement
use tiny_mirror.Prelude.{
  ℕ, zero, suc, ◌+◌, String, Bool, true, false, not, ◌&&◌, ◌||◌, Option, none, some, List, [], ◌∷◌,
  ◌++◌, map, filter, ℤ, pos, ltb_ℤ, any, length, Comparable, ◌==◌, nat_eq, string_eq, if◌then◌else◌,
}
use tiny_mirror.Json.{Fields}
use tiny_mirror.Fulfillment.Catalog.{Catalog, holds, is_offered, inventory_map}
use tiny_mirror.Fulfillment.Transfer.{
  Time, Transfer, pending, same_status, list_all, mark_cancelled, apply_partial_reception,
}
use tiny_mirror.Fulfillment.Windows.{Window}
use tiny_mirror.Fulfillment.Paging.{
  Outcome, done, raised, unfinished, InventorySource, fetch_inbound_events,
}
use tiny_mirror.Fulfillment.Fifo.{Decision, fifo_match_with_chronology}
use tiny_mirror.Fulfillment.Drain.{rows_of}

-- A listing of the SKU on the fulfilment channel, active or paused.
has_full_listing : Catalog → String → Bool
unfolding is_offered
has_full_listing catalog sku = any (λ l. holds l.sku sku && is_offered l) catalog.listings

-- A kit with such a listing holds the product.
has_full_kit : Catalog → ℕ → Bool
unfolding has_full_listing
has_full_kit catalog tiny_id =
    any
      (λ k.
        holds k.component_product_tiny_id tiny_id
        && any (λ p. p.tiny_id == k.kit_product_tiny_id && has_full_listing catalog p.sku)
            catalog.products)
      catalog.components

unfoldable pub has_channel : Catalog → Transfer → Bool
unfolding has_full_listing has_full_kit
has_channel catalog r =
    has_full_listing catalog r.product_sku || has_full_kit catalog r.product_tiny_id

abbrev pub cancel_each : List Transfer → List Transfer → List Transfer
cancel_each [] table = table
cancel_each (r ∷ rows) table =
    cancel_each rows (mark_cancelled r.id "SKU no longer fulfillment in ml_listings" table)

unfoldable pub cancel_non_fulfillment_pending : Catalog → List Transfer → List Transfer × ℕ
unfolding has_channel
cancel_non_fulfillment_pending catalog table =
    let rows = filter (λ r. same_status r.status pending && not (has_channel catalog r)) table in
    (cancel_each rows table, length rows)

-- `ReconciliationResult`; of an error its SKU.
pub record ReconciliationResult : Type 0 where
  pub skus_scanned : ℕ
  pub transfers_received : ℕ
  pub transfers_partially_received : ℕ
  pub transfers_cancelled : ℕ
  pub skus_with_no_inventory : List String
  pub errors : List String

-- The keys of a dict that is filled in this order.
in_order : List String → List String
in_order [] = []
in_order (s ∷ ss) = s ∷ filter (λ t. not (t == s)) (in_order ss)

unfoldable pub skus_of : List Transfer → List String
unfolding in_order
skus_of rows = in_order (map (λ r. r.product_sku) rows)

-- The first row's date. A SKU that is scanned has a row.
abbrev pub oldest_date : List Transfer → Time
oldest_date [] = 0
oldest_date (r ∷ rows) = r.transferred_at

abbrev pub actionable : List Decision → List Decision
actionable = filter (λ d. ltb_ℤ (pos 0) d.delta_units)

-- The decisions are stored in one session: none where the assertion fails, which leaves the table.
unfoldable pub apply_receptions : List Decision → List Transfer → Option (List Transfer)
apply_receptions [] table = some table
apply_receptions (d ∷ ds) table = elim d.last_event_at [
  | none ↦ none
  | some at ↦ apply_receptions ds (apply_partial_reception d.transfer_id d.delta_units at table)
]

abbrev pub counted : List Decision → ReconciliationResult → ReconciliationResult
counted ds result = record result {
  transfers_received = result.transfers_received + length (filter (λ d. d.is_full) ds);
  transfers_partially_received =
      result.transfers_partially_received + length (filter (λ d. not d.is_full) ds);
}

-- What a scan of one SKU ends with, once its decisions are stored.
unfoldable pub after_storing :
    List Decision
    → ReconciliationResult
    → Option (List Transfer)
    → Outcome (List Transfer × ReconciliationResult)
after_storing ds result none = raised
after_storing ds result (some table) = done (table, counted ds result)

unfoldable pub store_decisions :
    List Decision
    → List Transfer
    → ReconciliationResult
    → Outcome (List Transfer × ReconciliationResult)
unfolding apply_receptions after_storing
store_decisions ds table result = after_storing ds result (apply_receptions ds table)

unfoldable pub and_then :
    Outcome (List Transfer × ReconciliationResult)
    → (List Transfer → ReconciliationResult → Outcome (List Transfer × ReconciliationResult))
    → Outcome (List Transfer × ReconciliationResult)
and_then (done (table, result)) next = next table result
and_then raised next = raised
and_then unfinished next = unfinished

-- `list_operations inventory window offset` is the client, `read` reads a date, `inv_map` gives the
-- inventories of a SKU, and `clock` the moment at which a SKU is scanned.
module _ (list_operations : String → Window → ℕ → Option Fields) (fuel : ℕ)
    (read : String → Option Time) (inv_map : String → List InventorySource)
    (clock : String → Time) where
  -- A fetch that raises is noted; one without events changes nothing.
  unfoldable pub after_fetch :
      String
      → List Transfer
      → Outcome (List Fields)
      → List Transfer
      → ReconciliationResult
      → Outcome (List Transfer × ReconciliationResult)
  unfolding store_decisions
  after_fetch sku rows raised table result =
      done (table, record result { errors = result.errors ++ sku ∷ [] })
  after_fetch sku rows unfinished table result = unfinished
  after_fetch sku rows (done []) table result = done (table, result)
  after_fetch sku rows (done (e ∷ es)) table result =
      store_decisions (actionable (fifo_match_with_chronology read rows (e ∷ es))) table result

  unfoldable pub with_sources :
      String
      → List Transfer
      → List InventorySource
      → List Transfer
      → ReconciliationResult
      → Outcome (List Transfer × ReconciliationResult)
  unfolding after_fetch
  with_sources sku rows [] table result =
      done (
        table,
        record result { skus_with_no_inventory = result.skus_with_no_inventory ++ sku ∷ [] },
      )
  with_sources sku rows (source ∷ sources) table result =
      let events =
        fetch_inbound_events list_operations fuel (clock sku) (source ∷ sources)
          (oldest_date rows) in
      after_fetch sku rows events table result

  unfoldable pub scan_sku :
      List Transfer
      → String
      → List Transfer
      → ReconciliationResult
      → Outcome (List Transfer × ReconciliationResult)
  unfolding with_sources
  scan_sku pending_rows sku table result =
      with_sources sku (rows_of sku pending_rows) (inv_map sku) table
        (record result { skus_scanned = suc result.skus_scanned })

  unfoldable pub scan_skus :
      List Transfer
      → List String
      → List Transfer
      → ReconciliationResult
      → Outcome (List Transfer × ReconciliationResult)
  unfolding and_then
  scan_skus pending_rows [] table result = done (table, result)
  scan_skus pending_rows (sku ∷ skus) table result =
      and_then (scan_sku pending_rows sku table result)
        (λ table' result'. scan_skus pending_rows skus table' result')

-- The inventories of the SKUs are read once, after the cancellations.
unfoldable pub scan_and_reconcile :
    (String → Window → ℕ → Option Fields)
    → ℕ
    → (String → Option Time)
    → (String → Time)
    → Catalog
    → List Transfer
    → Outcome (List Transfer × ReconciliationResult)
unfolding scan_skus skus_of cancel_non_fulfillment_pending
scan_and_reconcile list_operations fuel read clock catalog table =
    let (table', cancelled) = cancel_non_fulfillment_pending catalog table in
    let pending_rows = (list_all none (some pending) 500 0 table').0 in
    let inv_map = inventory_map catalog (skus_of pending_rows) table' in
    scan_skus list_operations fuel read inv_map clock pending_rows (skus_of pending_rows) table'
      (record {
        skus_scanned = 0;
        transfers_received = 0;
        transfers_partially_received = 0;
        transfers_cancelled = cancelled;
        skus_with_no_inventory = [];
        errors = [];
      })
