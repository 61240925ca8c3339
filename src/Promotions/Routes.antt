-- ===== src/Promotions/Routes.antt =====
-- The routes by which the operator settles a decision (src/tiny_mirror/api/routers/ml_promotions.py).
-- Left out: the context that is stored with a decision, the logs and the texts of the errors.
pub mod Rows
pub mod Serve
pub mod Turned
pub mod Allowed
pub mod Guards
pub mod Floor
use tiny_mirror.Prelude.{
  ℕ, zero, suc, String, Bool, true, false, Option, none, some, List, ℤ, pos, ◌+ℤ◌, ◌-ℤ◌, ltb_ℤ,
  leb_ℤ, if◌then◌else◌,
}
use tiny_mirror.Fulfillment.Transfer.{Time}
use tiny_mirror.Promotions.{or_zero}
use tiny_mirror.Promotions.Score.{discount_of}
use tiny_mirror.Promotions.Decisions.{
  Row, approved, DecisionStatus, is_pending, ApplyStatus, failed, skipped, Override,
  OperatorVerdict, approve, reject, ignore, by_id, decide_pending, record_apply_result,
  revert_to_pending,
}
use tiny_mirror.Promotions.Write.{Request, WriteResult}
use tiny_mirror.Promotions.Apply.{Applied, apply_decision_to_ml}

-- The body of a request to settle a decision.
pub record DecideIn : Type 0 where
  pub decided_by : Option String
  pub notes : Option String
  pub target_price : Option ℤ
  pub units : Option ℕ

-- An error of HTTP, or the row that is returned.
pub data Response : Type 0 where
  refused : (code : ℕ) → Response
  served : (row : Option Row) → Response

-- What is found of another target price: the two shares, and the two warnings.
pub data Checked : Type 0 where
  refused : (code : ℕ) → Checked
  fine : (total_pct seller_pct : ℤ) (over_cap under_floor : Bool) → Checked

abbrev pub exceeds : Option ℤ → ℤ → Bool
exceeds none pct = false
exceeds (some cap) pct = ltb_ℤ (cap +ℤ pos 1) pct

abbrev pub undercuts : Option ℤ → ℤ → Bool
undercuts none price = false
undercuts (some floor) price = ltb_ℤ price floor

unfoldable pub shares_of : Row → ℕ → ℤ → Checked
unfolding discount_of
shares_of r list_price price =
    let total = discount_of list_price price in
    let seller = total -ℤ or_zero r.meli_percentage in
    fine total seller (exceeds r.cap_pct seller) (undercuts r.floor_price price)

unfoldable pub check_override : ℤ → Row → Option ℕ → Checked
unfolding shares_of
check_override price r none = refused 422
check_override price r (some zero) = refused 422
check_override price r (some (suc n)) =
    if leb_ℤ price (pos 0)
    then refused 422
    else if ltb_ℤ (pos (suc n) +ℤ pos 1) price
    then refused 422
    else shares_of r (suc n) price

unfoldable pub apply_target_override : ℤ → Option Row → Checked
unfolding check_override
apply_target_override price none = refused 404
apply_target_override price (some r) = check_override price r r.list_price

abbrev pub plain_override : DecideIn → Override
plain_override body = record {
  by = body.decided_by;
  notes = body.notes;
  target_price = none;
  target_total_pct = none;
  target_seller_pct = none;
  stock_chosen = none;
}

abbrev pub has_pending : Option Row → Bool
has_pending none = false
has_pending (some r) = is_pending r.status

abbrev pub was_approved : DecisionStatus → Bool
was_approved approved = true
was_approved _ = false

-- `reject` and `ignore`.
unfoldable pub settle_route : OperatorVerdict → Time → ℕ → DecideIn → List Row → Response × List Row
unfolding decide_pending
settle_route verdict now id body rows =
    let settled = decide_pending now id verdict (plain_override body) rows in
    if has_pending (by_id id rows)
    then (served (by_id id settled), settled)
    else (refused 404, rows)

abbrev pub reopened : Option Row → Bool
reopened none = false
reopened (some r) = if is_pending r.status then false else true

unfoldable pub undo_decision : ℕ → List Row → Response × List Row
unfolding revert_to_pending
undo_decision id rows =
    let pending_again = revert_to_pending id rows in
    if reopened (by_id id rows)
    then (served (by_id id pending_again), pending_again)
    else (refused 404, rows)

-- `write` is `_ml_write`, `dates` the default dates of a discount, and `annotate` adds the warnings to
-- the notes.
module _ (upper : String → String) (dates : String × String) (write : Request → Option WriteResult)
    (annotate : Bool → Bool → Option String → Option String) where
  abbrev pub override_of : DecideIn → ℤ → ℤ → ℤ → Bool → Bool → Override
  override_of body price total seller over_cap under_floor = record {
    by = body.decided_by;
    notes = annotate over_cap under_floor body.notes;
    target_price = some price;
    target_total_pct = some total;
    target_seller_pct = some seller;
    stock_chosen = body.units;
  }

  -- A call that raises counts as failed.
  unfoldable pub record_outcome : Time → ℕ → Option Applied → List Row → List Row
  unfolding record_apply_result
  record_outcome now id none rows = record_apply_result now id failed none rows
  record_outcome now id (some a) rows = record_apply_result now id a.status a.status_code rows

  abbrev pub skip_unless_tried : Time → ℕ → Option ApplyStatus → List Row → List Row
  skip_unless_tried now id none rows = record_apply_result now id skipped none rows
  skip_unless_tried now id (some tried) rows = rows

  -- After the approval is committed. The flag is `ml_promo_apply`.
  unfoldable pub after_approval : Bool → Time → ℕ → Option Row → List Row → List Row
  unfolding record_outcome apply_decision_to_ml record_apply_result
  after_approval flag now id none rows = rows
  after_approval true now id (some row) rows =
      record_outcome now id (apply_decision_to_ml upper dates write row) rows
  after_approval false now id (some row) rows = skip_unless_tried now id row.ml_apply_status rows

  unfoldable pub approve_with : Bool → Time → ℕ → Override → List Row → Response × List Row
  unfolding decide_pending after_approval
  approve_with flag now id o rows =
      let decided = decide_pending now id approve o rows in
      let after = after_approval flag now id (by_id id decided) decided in
      if has_pending (by_id id rows) then (served (by_id id after), after) else (refused 404, rows)

  abbrev pub approve_checked :
      Bool → Time → ℕ → DecideIn → ℤ → Checked → List Row → Response × List Row
  approve_checked flag now id body price (refused code) rows = (refused code, rows)
  approve_checked flag now id body price (fine total seller over_cap under_floor) rows =
      approve_with flag now id (override_of body price total seller over_cap under_floor) rows

  abbrev pub approve_priced : Bool → Time → ℕ → DecideIn → Option ℤ → List Row → Response × List Row
  approve_priced flag now id body none rows =
      approve_with flag now id (record (plain_override body) { stock_chosen = body.units }) rows
  approve_priced flag now id body (some price) rows =
      approve_checked flag now id body price (apply_target_override price (by_id id rows)) rows

  unfoldable pub approve_decision : Bool → Time → ℕ → DecideIn → List Row → Response × List Row
  unfolding approve_with apply_target_override
  approve_decision flag now id body rows = approve_priced flag now id body body.target_price rows

  abbrev pub retry_row : Time → ℕ → Option Row → List Row → Response × List Row
  retry_row now id none rows = (refused 404, rows)
  retry_row now id (some r) rows =
      let after = record_outcome now id (apply_decision_to_ml upper dates write r) rows in
      if was_approved r.status then (served (by_id id after), after) else (refused 409, rows)

  unfoldable pub retry_decision_ml : Bool → Time → ℕ → List Row → Response × List Row
  unfolding record_outcome apply_decision_to_ml
  retry_decision_ml false now id rows = (refused 409, rows)
  retry_decision_ml true now id rows = retry_row now id (by_id id rows) rows
