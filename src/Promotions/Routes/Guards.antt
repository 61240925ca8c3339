-- ===== src/Promotions/Routes/Guards.antt =====
-- Which decisions a route settles, and what it leaves (src/tiny_mirror/api/routers/ml_promotions.py).
use tiny_mirror.Prelude.{
  ℕ, zero, suc, ◌≡◌, refl, ap, sym, subst, ◌∙◌, String, Bool, true, false, not, ◌&&◌, Option, none,
  some, List, ℤ, pos, ◌+ℤ◌, ltb_ℤ, leb_ℤ, nat_eq, if◌then◌else◌, Bool-cases, inl, inr, arith,
}
use tiny_mirror.Fulfillment.Transfer.{Time}
use tiny_mirror.Promotions.Decisions.{
  Row, DecisionStatus, pending, approved, rejected, ignored, reject, ignore, by_id, Override,
  OperatorVerdict, status_of, is_pending,
}
use tiny_mirror.Promotions.Write.{Request, WriteResult}
use tiny_mirror.Promotions.Apply.{apply_decision_to_ml}
use tiny_mirror.Promotions.Routes.{
  DecideIn, Response, Checked, refused, served, fine, plain_override, has_pending, settle_route,
  reopened, undo_decision, approve_with, approve_checked, check_override, shares_of,
  apply_target_override, approve_priced, approve_decision, was_approved, retry_row,
  retry_decision_ml,
}
use tiny_mirror.Promotions.Routes.Turned.{
  IsTurned, decided_turned, reopened_turned, recorded_turned, approved_turned,
}
use tiny_mirror.Promotions.Routes.Serve.{
  Route, approve_one, retry_one, reject_one, ignore_one, undo_one, serve_route,
}
use tiny_mirror.Promotions.Routes.Allowed.{settles, leaves, route_id, may_cost, is_allowed, EndsBy}

served-EndsBy :
    (b : Bool) (code id : ℕ) (status : DecisionStatus) (rows after : List Row)
    → (b ≡ true → IsTurned id status rows after)
    → EndsBy b id status rows (if b then (served (by_id id after), after) else (refused code, rows))
served-EndsBy true code id status rows after h =
    let t = h refl in
    record {
      row = t.row;
      found = t.found;
      has_status = t.has_status;
      returned = ap served t.found;
      others = t.others;
    }
served-EndsBy false code id status rows after h = (_, refl)

-- Where the test of the code is that of the specification.
same_test :
    (b c : Bool) (id : ℕ) (status : DecisionStatus) (rows : List Row) (end : Response × List Row)
    → b ≡ c
    → EndsBy c id status rows end
    → EndsBy b id status rows end
same_test b c id status rows end e h = rw e h

pending_test :
    (o : Option Row)
    → has_pending o ≡ true
    → (r : Row) × (o ≡ some r) × (is_pending r.status ≡ true)
pending_test none h = absurd cc
pending_test (some r) h = (r, refl, h)

reopened_test :
    (o : Option Row)
    → reopened o ≡ true
    → (r : Row) × (o ≡ some r) × (not (is_pending r.status) ≡ true)
reopened_test none h = absurd cc
reopened_test (some r) h = (r, refl, ground arith)

approved_status : (s : DecisionStatus) → was_approved s ≡ true → s ≡ approved
approved_status s h = ground arith

settle-EndsBy :
    (verdict : OperatorVerdict) (now : Time) (id : ℕ) (body : DecideIn) (rows : List Row)
    → EndsBy
        (has_pending (by_id id rows))
        id
        (status_of verdict)
        rows
        (settle_route verdict now id body rows)
unfolding settle_route
settle-EndsBy verdict now id body rows =
    served-EndsBy (has_pending (by_id id rows)) 404 id (status_of verdict) rows _ (λ h.
      let (r, found, waits) = pending_test (by_id id rows) h in
      decided_turned now id verdict (plain_override body) r rows found waits)

undo-EndsBy :
    (id : ℕ) (rows : List Row)
    → EndsBy (reopened (by_id id rows)) id pending rows (undo_decision id rows)
unfolding undo_decision
undo-EndsBy id rows = served-EndsBy (reopened (by_id id rows)) 404 id pending rows _ (λ h.
    let (r, found, settled) = reopened_test (by_id id rows) h in
    reopened_turned id r rows found settled)

pending_allowed :
    (verdict : OperatorVerdict) (now : Time) (id : ℕ) (body : DecideIn) (o : Option Row)
    → (is_allowed (reject_one now id body) o ≡ has_pending o)
      × (is_allowed (ignore_one now id body) o ≡ has_pending o)
pending_allowed verdict now id body none = (refl, refl)
pending_allowed verdict now id body (some r) = ground arith

undo_allowed : (id : ℕ) (o : Option Row) → is_allowed (undo_one id) o ≡ reopened o
undo_allowed id none = refl
undo_allowed id (some r) = ground arith

module _ (upper : String → String) (dates : String × String) (write : Request → Option WriteResult)
    (annotate : Bool → Bool → Option String → Option String) where
  approve_with-EndsBy :
      (flag : Bool) (now : Time) (id : ℕ) (o : Override) (rows : List Row)
      → EndsBy
          (has_pending (by_id id rows))
          id
          approved
          rows
          (approve_with upper dates write annotate flag now id o rows)
  unfolding approve_with
  approve_with-EndsBy flag now id o rows =
      served-EndsBy (has_pending (by_id id rows)) 404 id approved rows _ (λ h.
        let (r, found, waits) = pending_test (by_id id rows) h in
        approved_turned upper dates write annotate flag now id o r rows found waits)

  approve_checked-EndsBy :
      (flag : Bool) (now : Time) (id : ℕ) (body : DecideIn) (price : ℤ) (total seller : ℤ)
      (over_cap under_floor : Bool) (rows : List Row)
      → EndsBy (has_pending (by_id id rows)) id approved rows (
          approve_checked upper dates write annotate flag now id body price
            (fine total seller over_cap under_floor)
            rows)
  approve_checked-EndsBy flag now id body price total seller over_cap under_floor rows =
      approve_with-EndsBy flag now id _ rows

  -- A price that may not take the place of the target.
  check_refused :
      (price : ℤ) (r : Row) (list_price : Option ℕ)
      → may_cost list_price price ≡ false
      → (code : ℕ) × (check_override price r list_price ≡ refused code)
  unfolding check_override
  check_refused price r none h = (422, refl)
  check_refused price r (some zero) h = (422, refl)
  check_refused price r (some (suc n)) h = elim (Bool-cases (leb_ℤ price (pos 0))) [
    | inl nothing ↦ rw nothing (422, refl)
    | inr positive ↦ elim (Bool-cases (ltb_ℤ (pos (suc n) +ℤ pos 1) price)) [
      | inl above ↦ rw positive (rw above (422, refl))
      | inr below ↦ absurd (ground arith)
    ]
  ]

  check_fine :
      (price : ℤ) (r : Row) (list_price : Option ℕ)
      → may_cost list_price price ≡ true
      → (n : ℕ) × (check_override price r list_price ≡ shares_of r n price)
  unfolding check_override
  check_fine price r none h = absurd cc
  check_fine price r (some zero) h = absurd cc
  check_fine price r (some (suc n)) h = elim (Bool-cases (leb_ℤ price (pos 0))) [
    | inl nothing ↦ absurd (ground arith)
    | inr positive ↦ elim (Bool-cases (ltb_ℤ (pos (suc n) +ℤ pos 1) price)) [
      | inl above ↦ absurd (ground arith)
      | inr below ↦ rw positive (rw below (suc n, refl))
    ]
  ]

  override-EndsBy :
      (flag : Bool) (now : Time) (id : ℕ) (body : DecideIn) (price : ℤ) (o : Option Row)
      (rows : List Row)
      → by_id id rows ≡ o
      → EndsBy
          (is_allowed (approve_one flag now id (record body { target_price = some price })) o)
          id
          approved
          rows
          (approve_checked upper dates write annotate flag now id body price
            (apply_target_override price o)
            rows)
  unfolding apply_target_override shares_of
  override-EndsBy flag now id body price none rows e = (404, refl)
  override-EndsBy flag now id body price (some r) rows e =
      let route = approve_one flag now id (record body { target_price = some price }) in
      let end =
        λ (c : Checked). approve_checked upper dates write annotate flag now id body price c rows in
      elim (Bool-cases (may_cost r.list_price price)) [
        | inr bad ↦
            let no = check_refused price r r.list_price bad in
            same_test _ false id approved rows _ (ground arith) (no.0, ap end no.1)
        | inl good ↦
            let yes = check_fine price r r.list_price good in
            let pending_now : settles route r.status && may_cost r.list_price price
                ≡ is_pending r.status =
              ground arith in
            same_test _ (has_pending (by_id id rows)) id approved rows _
              (pending_now ∙ sym (ap has_pending e))
              (subst (λ c. EndsBy (has_pending (by_id id rows)) id approved rows (end c))
                (sym yes.1) (approve_checked-EndsBy flag now id body price _ _ _ _ rows))
      ]

  plain_allowed :
      (flag : Bool) (now : Time) (id : ℕ) (body : DecideIn) (o : Option Row)
      → is_allowed (approve_one flag now id (record body { target_price = none })) o ≡ has_pending o
  plain_allowed flag now id body none = refl
  plain_allowed flag now id body (some r) = ground arith

  priced-EndsBy :
      (flag : Bool) (now : Time) (id : ℕ) (body : DecideIn) (price : Option ℤ) (rows : List Row)
      → EndsBy
          (is_allowed
            (approve_one flag now id (record body { target_price = price }))
            (by_id id rows))
          id
          approved
          rows
          (approve_priced upper dates write annotate flag now id body price rows)
  priced-EndsBy flag now id body none rows =
      same_test _ (has_pending (by_id id rows)) id approved rows _
        (plain_allowed flag now id body (by_id id rows)) (approve_with-EndsBy flag now id _ rows)
  priced-EndsBy flag now id body (some price) rows =
      override-EndsBy flag now id body price (by_id id rows) rows refl

  retry-EndsBy :
      (now : Time) (id : ℕ) (o : Option Row) (rows : List Row)
      → by_id id rows ≡ o
      → EndsBy
          (is_allowed (retry_one true now id) o)
          id
          approved
          rows
          (retry_row upper dates write annotate now id o rows)
  retry-EndsBy now id none rows e = (404, refl)
  retry-EndsBy now id (some r) rows e =
      same_test _ (was_approved r.status) id approved rows _ (ground arith) (
        served-EndsBy (was_approved r.status) 409 id approved rows _ (λ h.
          recorded_turned upper dates write annotate now id approved
            (apply_decision_to_ml upper dates write r) r rows e (approved_status r.status h)))

  retry_off : (now : Time) (id : ℕ) (o : Option Row) → is_allowed (retry_one false now id) o ≡ false
  retry_off now id none = refl
  retry_off now id (some r) = ground arith

  -- A route is granted exactly where a decision has the id, with the status that the route settles
  -- (pending, approved for a retry, any but pending for an undo), a retry with the flag on, and an
  -- approval at another price with a price above nothing and at most a cent above a list price that is
  -- known and not zero.
  -- Where it is, it returns the row, which then has the status of the route, and every row with
  -- another id is as it was. Where it is not, it is an error and no row changes.
  pub serve_route-EndsBy :
      (route : Route) (rows : List Row)
      → EndsBy
          (is_allowed route (by_id (route_id route) rows))
          (route_id route)
          (leaves route)
          rows
          (serve_route upper dates write annotate route rows)
  unfolding serve_route approve_decision retry_decision_ml
  serve_route-EndsBy (approve_one flag now id body) rows =
      priced-EndsBy flag now id body body.target_price rows
  serve_route-EndsBy (retry_one true now id) rows = retry-EndsBy now id (by_id id rows) rows refl
  serve_route-EndsBy (retry_one false now id) rows =
      same_test _ false id approved rows _ (retry_off now id (by_id id rows)) (409, refl)
  serve_route-EndsBy (reject_one now id body) rows =
      same_test _ _ id rejected rows _ (pending_allowed reject now id body (by_id id rows)).0
        (settle-EndsBy reject now id body rows)
  serve_route-EndsBy (ignore_one now id body) rows =
      same_test _ _ id ignored rows _ (pending_allowed ignore now id body (by_id id rows)).1
        (settle-EndsBy ignore now id body rows)
  serve_route-EndsBy (undo_one id) rows =
      same_test _ _ id pending rows _ (undo_allowed id (by_id id rows)) (undo-EndsBy id rows)
