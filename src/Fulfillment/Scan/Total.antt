-- ===== src/Fulfillment/Scan/Total.antt =====
-- A scan's assertion never fails, and what storing a decision keeps, the scan keeps.
use tiny_mirror.Prelude.{
  parts_of_eq, int_laws, ℕ, ◌≡◌, refl, String, Option, none, some, List, [], ◌∷◌, ℤ, pos, ◌<ℤ◌,
  arith, ltb_ℤ, nat_eq, string_eq, All, AllPairs, Bool-cases, inl, inr,
}
use tiny_mirror.Json.{Fields}
use tiny_mirror.Sort.{ascending, All-sort}
use tiny_mirror.Fulfillment.Transfer.{Time, Transfer, apply_partial_reception}
use tiny_mirror.Fulfillment.Windows.{Window}
use tiny_mirror.Fulfillment.Paging.{Outcome, done, raised, unfinished, InventorySource}
use tiny_mirror.Fulfillment.Fifo.{
  Slot, Decision, credit, start, match_all, match_slots, oldest_first, fifo_match_with_chronology,
}
use tiny_mirror.Fulfillment.Fifo.Chronology.{IsTimely, IsFair}
use tiny_mirror.Fulfillment.Fifo.Correctness.{fifo_match-IsFair, leftover}
use tiny_mirror.Fulfillment.Drain.{rows_of}
use tiny_mirror.Fulfillment.Drain.Table.{rows_of-All}
use tiny_mirror.Fulfillment.Scan.{
  ReconciliationResult, and_then, actionable, apply_receptions, after_storing, store_decisions,
  after_fetch, with_sources, scan_sku, scan_skus,
}

-- No exception; where the scan returns, `P` holds of the table.
abbrev pub Keeps :
    (List Transfer → Type 0) → Outcome (List Transfer × ReconciliationResult) → Type 0
Keeps P (done (table, result)) = P table
Keeps P raised = ⊥
Keeps P unfinished = Unit

and_then-Keeps :
    (P : List Transfer → Type 0) (o : Outcome (List Transfer × ReconciliationResult))
    (next : List Transfer → ReconciliationResult → Outcome (List Transfer × ReconciliationResult))
    → Keeps P o
    → ((table : List Transfer) (result : ReconciliationResult)
        → P table
        → Keeps P (next table result))
    → Keeps P (and_then o next)
unfolding and_then
and_then-Keeps P (done (table, result)) next h k = k table result h
and_then-Keeps P raised next h k = h
and_then-Keeps P unfinished next h k = tt

-- A decision about a transfer with such an id, which names a date if it credits units.
abbrev pub IsDue : (ℕ → Type 0) → Decision → Type 0
IsDue Q d = Q d.transfer_id × (pos 0 <ℤ d.delta_units) × ((at : Time) × (d.last_event_at ≡ some at))

match_all-transfer_id :
    (Q : ℕ → Type 0) (ts : List Transfer) (slots : List Slot)
    → All (λ t. Q t.id) ts
    → All (λ d. Q d.transfer_id) (match_all ts slots).0
unfolding match_all
match_all-transfer_id Q [] slots h = tt
match_all-transfer_id Q (t ∷ ts) slots h = (
  h.0,
  match_all-transfer_id Q ts (credit t.transferred_at t.last_event_at slots (start t)).0 h.1,
)

dated :
    (at : Time) (seen : Option Time) (delta : ℤ) (last : Option Time)
    → IsTimely at seen delta last
    → pos 0 <ℤ delta
    → (date : Time) × (last ≡ some date)
dated at seen delta none h p = absurd (let zero_part = parts_of_eq h in omega int_laws)
dated at seen delta (some date) h p = (date, refl)

dated-All :
    (rest : List Slot) (ts : List Transfer) (ds : List Decision)
    → AllPairs (IsFair rest) ts ds
    → All (λ d. pos 0 <ℤ d.delta_units → (at : Time) × (d.last_event_at ≡ some at)) ds
dated-All rest [] [] h = tt
dated-All rest (t ∷ ts) (d ∷ ds) h = (
  dated t.transferred_at t.last_event_at d.delta_units d.last_event_at h.0.timely,
  dated-All rest ts ds h.1,
)
dated-All rest [] (_ ∷ _) h = absurd h
dated-All rest (_ ∷ _) [] h = absurd h

filtered :
    (Q : ℕ → Type 0) (ds : List Decision)
    → All (λ d. Q d.transfer_id) ds
    → All (λ d. pos 0 <ℤ d.delta_units → (at : Time) × (d.last_event_at ≡ some at)) ds
    → All (IsDue Q) (actionable ds)
filtered Q [] h k = tt
filtered Q (d ∷ ds) h k = elim (Bool-cases (ltb_ℤ (pos 0) d.delta_units)) [
  | inl credits ↦
      let more : pos 0 <ℤ d.delta_units = ground arith in
      rw credits ((h.0, more, k.0 more), filtered Q ds h.1 k.1)
  | inr nothing ↦ rw nothing (filtered Q ds h.1 k.1)
]

-- What the scan stores of a match is due.
matched-IsDue :
    (read : String → Option Time) (Q : ℕ → Type 0) (ts : List Transfer) (events : List Fields)
    → All (λ t. Q t.id) ts
    → All (IsDue Q) (actionable (fifo_match_with_chronology read ts events))
unfolding fifo_match_with_chronology match_slots
matched-IsDue read Q ts events h =
    let (queue, _, fair, _, _) = fifo_match-IsFair read ts events in
    filtered Q (fifo_match_with_chronology read ts events)
      (match_all-transfer_id Q (oldest_first ts) _
        (All-sort _ (ascending (λ t. t.transferred_at)) ts h))
      (dated-All (leftover read ts events) queue _ fair)

module _ (P : List Transfer → Type 0) (Q : ℕ → Type 0)
    (keep : (d : Decision) (at : Time) (table : List Transfer)
      → IsDue Q d
      → P table
      → P (apply_partial_reception d.transfer_id d.delta_units at table)) where
  stored-Keeps :
      (ds all : List Decision) (table : List Transfer) (result : ReconciliationResult)
      → All (IsDue Q) ds
      → P table
      → Keeps P (after_storing all result (apply_receptions ds table))
  unfolding apply_receptions after_storing
  stored-Keeps [] all table result due h = h
  stored-Keeps (d ∷ ds) all table result due h =
      let (at, e) = due.0.2 in
      rw e (
        stored-Keeps ds all (apply_partial_reception d.transfer_id d.delta_units at table) result
          due.1 (keep d at table due.0 h))

  module _ (list_operations : String → Window → ℕ → Option Fields) (fuel : ℕ)
      (read : String → Option Time) (inv_map : String → List InventorySource)
      (clock : String → Time) where
    after_fetch-Keeps :
        (sku : String) (rows : List Transfer) (events : Outcome (List Fields))
        (table : List Transfer) (result : ReconciliationResult)
        → All (λ t. Q t.id) rows
        → P table
        → Keeps P (after_fetch list_operations fuel read inv_map clock sku rows events table result)
    unfolding after_fetch store_decisions
    after_fetch-Keeps sku rows raised table result due h = h
    after_fetch-Keeps sku rows unfinished table result due h = tt
    after_fetch-Keeps sku rows (done []) table result due h = h
    after_fetch-Keeps sku rows (done (e ∷ es)) table result due h =
        let ds = actionable (fifo_match_with_chronology read rows (e ∷ es)) in
        stored-Keeps ds ds table result (matched-IsDue read Q rows (e ∷ es) due) h

    with_sources-Keeps :
        (sku : String) (rows : List Transfer) (sources : List InventorySource)
        (table : List Transfer) (result : ReconciliationResult)
        → All (λ t. Q t.id) rows
        → P table
        → Keeps P
            (with_sources list_operations fuel read inv_map clock sku rows sources table result)
    unfolding with_sources
    with_sources-Keeps sku rows [] table result due h = h
    with_sources-Keeps sku rows (source ∷ sources) table result due h =
        after_fetch-Keeps sku rows _ table result due h

    pub scan_skus-Keeps :
        (pending_rows : List Transfer) (skus : List String) (table : List Transfer)
        (result : ReconciliationResult)
        → All (λ t. Q t.id) pending_rows
        → P table
        → Keeps P (scan_skus list_operations fuel read inv_map clock pending_rows skus table result)
    unfolding scan_skus scan_sku
    scan_skus-Keeps pending_rows [] table result due h = h
    scan_skus-Keeps pending_rows (sku ∷ skus) table result due h =
        and_then-Keeps P _ _
          (with_sources-Keeps sku (rows_of sku pending_rows) (inv_map sku) table _
            (rows_of-All (λ t. Q t.id) sku pending_rows due) h)
          (λ table' result' h'. scan_skus-Keeps pending_rows skus table' result' due h')
