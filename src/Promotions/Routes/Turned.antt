-- ===== src/Promotions/Routes/Turned.antt =====
-- What a route makes of the rows with one id (src/tiny_mirror/api/routers/ml_promotions.py).
use tiny_mirror.Prelude.{
  ℕ, ◌≡◌, refl, ◌∙◌, String, Bool, true, false, not, Option, none, some, List, ◌==◌, nat_eq,
  and_left,
}
use tiny_mirror.Fulfillment.Transfer.{Time}
use tiny_mirror.Promotions.Decisions.{
  Row, DecisionStatus, pending, approved, ApplyStatus, failed, skipped, approve, by_id, Override,
  OperatorVerdict, status_of, is_pending, update_where, where_id, decide_row, decide_pending,
  applied_row, record_apply_result, reopen_row, revert_to_pending,
}
use tiny_mirror.Promotions.Write.{Request, WriteResult}
use tiny_mirror.Promotions.Apply.{Applied, apply_decision_to_ml}
use tiny_mirror.Promotions.Routes.{record_outcome, skip_unless_tried, after_approval}
use tiny_mirror.Promotions.Routes.Rows.{by_id-update_where, by_id-other, found_id, guarded}

-- What the rows of one id become.
pub record IsTurned (id : ℕ) (status : DecisionStatus) (rows after : List Row) : Type 0 where
  pub row : Row
  pub found : by_id id after ≡ some row
  pub has_status : row.status ≡ status
  pub others : (k : ℕ) → (id == k) ≡ false → by_id k after ≡ by_id k rows

-- An update of the row with the id.
pub turned :
    (id : ℕ) (status : DecisionStatus) (p : Row → Bool) (f : Row → Row) (r : Row) (rows : List Row)
    → by_id id rows ≡ some r
    → p r ≡ true
    → ((s : Row) → (f s).id ≡ s.id)
    → ((s : Row) → p s ≡ true → (s.id == id) ≡ true)
    → (f r).status ≡ status
    → IsTurned id status rows (update_where p f rows)
turned id status p f r rows found hit same only ends = record {
  row = f r;
  found = by_id-update_where id p f r rows found hit same only;
  has_status = ends;
  others = λ k other. by_id-other id k p f rows other same only;
}

pub then_turned :
    (id : ℕ) (status : DecisionStatus) (rows mid after : List Row)
    → IsTurned id status rows mid
    → IsTurned id status mid after
    → IsTurned id status rows after
then_turned id status rows mid after h k = record {
  row = k.row;
  found = k.found;
  has_status = k.has_status;
  others = λ i other. k.others i other ∙ h.others i other;
}

pub recorded :
    (now : Time) (id : ℕ) (how : ApplyStatus) (code : Option ℕ) (status : DecisionStatus) (r : Row)
    (rows : List Row)
    → by_id id rows ≡ some r
    → r.status ≡ status
    → IsTurned id status rows (record_apply_result now id how code rows)
unfolding record_apply_result
recorded now id how code status r rows found ends =
    turned id status (λ s. s.id == id) (applied_row now how code) r rows found
      (found_id id r rows found) (λ s. refl) (λ s hit. hit) ends

pub decided_turned :
    (now : Time) (id : ℕ) (verdict : OperatorVerdict) (o : Override) (r : Row) (rows : List Row)
    → by_id id rows ≡ some r
    → is_pending r.status ≡ true
    → IsTurned id (status_of verdict) rows (decide_pending now id verdict o rows)
unfolding decide_pending decide_row
decided_turned now id verdict o r rows found waits =
    turned id (status_of verdict) (where_id id is_pending) (decide_row now verdict o) r rows found
      (guarded (r.id == id) (found_id id r rows found) waits) (λ s. refl)
      (λ s hit. and_left (s.id == id) (is_pending s.status) hit) refl

pub kept :
    (id : ℕ) (status : DecisionStatus) (r : Row) (rows : List Row)
    → by_id id rows ≡ some r
    → r.status ≡ status
    → IsTurned id status rows rows
kept id status r rows found ends = record {
  row = r;
  found = found;
  has_status = ends;
  others = λ k other. refl;
}

pub reopened_turned :
    (id : ℕ) (r : Row) (rows : List Row)
    → by_id id rows ≡ some r
    → not (is_pending r.status) ≡ true
    → IsTurned id pending rows (revert_to_pending id rows)
unfolding revert_to_pending
reopened_turned id r rows found settled =
    turned id pending (where_id id (λ s. not (is_pending s))) reopen_row r rows found
      (guarded (r.id == id) (found_id id r rows found) settled) (λ s. refl)
      (λ s hit. and_left (s.id == id) (not (is_pending s.status)) hit) refl

module _ (upper : String → String) (dates : String × String) (write : Request → Option WriteResult)
    (annotate : Bool → Bool → Option String → Option String) where
  pub recorded_turned :
      (now : Time) (id : ℕ) (status : DecisionStatus) (a : Option Applied) (r : Row)
      (rows : List Row)
      → by_id id rows ≡ some r
      → r.status ≡ status
      → IsTurned id status rows (record_outcome upper dates write annotate now id a rows)
  unfolding record_outcome
  recorded_turned now id status none r rows found ends =
      recorded now id failed none status r rows found ends
  recorded_turned now id status (some a) r rows found ends =
      recorded now id a.status a.status_code status r rows found ends

  skipped_turned :
      (now : Time) (id : ℕ) (status : DecisionStatus) (tried : Option ApplyStatus) (r : Row)
      (rows : List Row)
      → by_id id rows ≡ some r
      → r.status ≡ status
      → IsTurned id status rows (skip_unless_tried upper dates write annotate now id tried rows)
  skipped_turned now id status none r rows found ends =
      recorded now id skipped none status r rows found ends
  skipped_turned now id status (some s) r rows found ends = kept id status r rows found ends

  after_approval_turned :
      (flag : Bool) (now : Time) (id : ℕ) (o : Option Row) (r : Row) (rows : List Row)
      → by_id id rows ≡ some r
      → r.status ≡ approved
      → IsTurned id approved rows (after_approval upper dates write annotate flag now id o rows)
  unfolding after_approval
  after_approval_turned flag now id none r rows found ends = kept id approved r rows found ends
  after_approval_turned true now id (some s) r rows found ends =
      recorded_turned now id approved (apply_decision_to_ml upper dates write s) r rows found ends
  after_approval_turned false now id (some s) r rows found ends =
      skipped_turned now id approved s.ml_apply_status r rows found ends

  pub approved_turned :
      (flag : Bool) (now : Time) (id : ℕ) (o : Override) (r : Row) (rows : List Row)
      → by_id id rows ≡ some r
      → is_pending r.status ≡ true
      → let decided = decide_pending now id approve o rows in
        IsTurned id approved rows
          (after_approval upper dates write annotate flag now id (by_id id decided) decided)
  approved_turned flag now id o r rows found waits =
      let decided = decide_pending now id approve o rows in
      let first = decided_turned now id approve o r rows found waits in
      then_turned id approved rows decided _ first (
        after_approval_turned flag now id (by_id id decided) first.row decided first.found
          first.has_status)
