-- ===== src/Fulfillment/Scan/Sound.antt =====
-- What a whole scan does to the rows of the table.
use tiny_mirror.Prelude.{
  ℕ, ◌≡◌, ◌≢◌, refl, ◌∙◌, String, Bool, true, false, not, ◌&&◌, Option, none, some, List, [], ◌∷◌,
  filter, arith, ℤ, pos, ◌+ℤ◌, ◌<ℤ◌, ◌≤ℤ◌, min_ℤ, leb_ℤ, +ℤ_parts, All, All-imp, All-Unit,
  All-filter, Bool-cases, inl, inr, ◌==◌, nat_eq,
}
use tiny_mirror.Json.{Fields}
use tiny_mirror.Fulfillment.Transfer.{
  Time, Transfer, Status, pending, received, same_status, list_all, get_by_id, update_row, cancel,
  mark_cancelled, receive, apply_partial_reception,
}
use tiny_mirror.Fulfillment.Windows.{Window}
use tiny_mirror.Fulfillment.Fifo.{Decision}
use tiny_mirror.Fulfillment.Drain.Table.{pending-All, mark_cancelled-other, true_or_false}
use tiny_mirror.Fulfillment.Catalog.{Catalog, inventory_map}
use tiny_mirror.Fulfillment.Scan.{
  has_channel, cancel_each, cancel_non_fulfillment_pending, skus_of, scan_and_reconcile,
}
use tiny_mirror.Fulfillment.Scan.Total.{Keeps, IsDue, scan_skus-Keeps}

-- No fewer than no units have arrived, no more than were sent, and all of them if the row says so.
pub record IsSound (r : Transfer) : Type 0 where
  pub some_or_none : pos 0 ≤ℤ r.quantity_received
  pub within : r.quantity_received ≤ℤ r.quantity
  pub complete : same_status r.status received ≡ true → r.quantity ≤ℤ r.quantity_received

update_row-All :
    (P : Transfer → Type 0) (id : ℕ) (f : Transfer → Transfer) (rows : List Transfer)
    → ((r : Transfer) → P r → P (f r))
    → All P rows
    → All P (update_row id f rows)
update_row-All P id f [] k h = tt
update_row-All P id f (r ∷ rows) k h = elim (Bool-cases (r.id == id)) [
  | inl same ↦ rw same (k r h.0, update_row-All P id f rows k h.1)
  | inr other ↦ rw other (h.0, update_row-All P id f rows k h.1)
]

receive-IsSound :
    (delta : ℤ) (at : Time) (r : Transfer)
    → pos 0 <ℤ delta
    → IsSound r
    → IsSound (receive delta at r)
unfolding receive min_ℤ
receive-IsSound delta at r more h =
    let sum = +ℤ_parts r.quantity_received delta in
    let low = h.some_or_none in
    let high = h.within in
    elim (Bool-cases (leb_ℤ r.quantity (r.quantity_received +ℤ delta))) [
      | inl full ↦ rw full (record {
        some_or_none = ground (arith, sum);
        within = ground (arith, sum);
        complete = λ _. ground (arith, sum);
      })
      | inr part ↦ rw part (record {
        some_or_none = ground (arith, sum);
        within = ground (arith, sum);
        complete = λ e. let all = h.complete e in ground (arith, sum);
      })
    ]

cancel-IsSound : (reason : String) (r : Transfer) → IsSound r → IsSound (cancel reason r)
unfolding cancel
cancel-IsSound reason r h = record {
  some_or_none = h.some_or_none;
  within = h.within;
  complete = λ e. cc;
}

cancel_each-All :
    (P : Transfer → Type 0) (rows table : List Transfer)
    → ((reason : String) (r : Transfer) → P r → P (cancel reason r))
    → All P table
    → All P (cancel_each rows table)
unfolding mark_cancelled
cancel_each-All P [] table k h = h
cancel_each-All P (r ∷ rows) table k h =
    let reason : String = "SKU no longer fulfillment in ml_listings" in
    cancel_each-All P rows _ k (update_row-All P r.id (cancel reason) table (k reason) h)

-- Any row with this id is no longer pending.
abbrev pub IsSettled : ℕ → Transfer → Type 0
IsSettled id r = r.id ≡ id → same_status r.status pending ≡ false

cancel-IsSettled :
    (id : ℕ) (reason : String) (r : Transfer) → IsSettled id r → IsSettled id (cancel reason r)
unfolding cancel
cancel-IsSettled id reason r h e = refl

cancel_each-other :
    (id : ℕ) (rows table : List Transfer)
    → All (λ r. r.id ≢ id) rows
    → get_by_id id (cancel_each rows table) ≡ get_by_id id table
cancel_each-other id [] table h = refl
cancel_each-other id (r ∷ rows) table h =
    let reason : String = "SKU no longer fulfillment in ml_listings" in
    cancel_each-other id rows (mark_cancelled r.id reason table) h.1
    ∙ mark_cancelled-other id r.id reason table h.0

received-other :
    (id other : ℕ) (delta : ℤ) (at : Time) (rows : List Transfer)
    → other ≢ id
    → get_by_id id (apply_partial_reception other delta at rows) ≡ get_by_id id rows
unfolding apply_partial_reception receive
received-other id other delta at [] h = refl
received-other id other delta at (r ∷ rows) h =
    ground (arith, received-other id other delta at rows h)

chosen_pending :
    (s : Status) (b : Bool) → same_status s pending && b ≡ true → same_status s pending ≢ false
chosen_pending s b e f = ground arith

received-All-IsSound :
    (d : Decision) (at : Time) (t : List Transfer)
    → IsDue (λ _. Unit) d
    → All IsSound t
    → All IsSound (apply_partial_reception d.transfer_id d.delta_units at t)
unfolding apply_partial_reception
received-All-IsSound d at t due sound =
    update_row-All IsSound d.transfer_id (receive d.delta_units at) t
      (λ r. receive-IsSound d.delta_units at r due.1) sound

module _ (list_operations : String → Window → ℕ → Option Fields) (fuel : ℕ)
    (read : String → Option Time) (clock : String → Time) (catalog : Catalog)
    (table : List Transfer) where
  -- A scan raises no exception, its assertion included. Where every row has received between no and
  -- all of its units, and all of them if it is received, the rows are so when the scan returns.
  pub scan_and_reconcile-IsSound :
      All IsSound table
      → Keeps (All IsSound) (scan_and_reconcile list_operations fuel read clock catalog table)
  unfolding scan_and_reconcile cancel_non_fulfillment_pending
  scan_and_reconcile-IsSound h =
      let (table', _) = cancel_non_fulfillment_pending catalog table in
      let pending_rows = (list_all none (some pending) 500 0 table').0 in
      let inv_map = inventory_map catalog (skus_of pending_rows) table' in
      let gone = filter (λ r. same_status r.status pending && not (has_channel catalog r)) table in
      scan_skus-Keeps (All IsSound) (λ _. Unit) received-All-IsSound list_operations fuel read
        inv_map clock pending_rows (skus_of pending_rows) table' _ (All-Unit pending_rows)
        (cancel_each-All IsSound gone table cancel-IsSound h)

  -- A scan raises no exception and leaves the row with an id as it is, unless a row with that id is
  -- pending.
  pub scan_and_reconcile_spares :
      (id : ℕ)
      → All (IsSettled id) table
      → Keeps
          (λ t. get_by_id id t ≡ get_by_id id table)
          (scan_and_reconcile list_operations fuel read clock catalog table)
  unfolding scan_and_reconcile cancel_non_fulfillment_pending
  scan_and_reconcile_spares id h =
      let (table', _) = cancel_non_fulfillment_pending catalog table in
      let pending_rows = (list_all none (some pending) 500 0 table').0 in
      let inv_map = inventory_map catalog (skus_of pending_rows) table' in
      let gone = filter (λ r. same_status r.status pending && not (has_channel catalog r)) table in
      let settled = cancel_each-All (IsSettled id) gone table (cancel-IsSettled id) h in
      scan_skus-Keeps (λ t. get_by_id id t ≡ get_by_id id table) (λ i. i ≢ id)
        (λ d at t due e. received-other id d.transfer_id d.delta_units at t due.0 ∙ e)
        list_operations fuel read inv_map clock pending_rows (skus_of pending_rows) table' _
        (All-imp _ (λ r (done_with, waiting) same. true_or_false waiting (done_with same))
          (pending-All (IsSettled id) 500 table' settled))
        (cancel_each-other id gone table (
          All-imp gone
            (λ r (done_with, chosen) same. chosen_pending r.status _ chosen (done_with same))
            (All-filter (IsSettled id) _ table h)))
