-- ===== src/Promotions/Routes/Floor.antt =====
-- An approval at another price (src/tiny_mirror/api/routers/ml_promotions.py, `approve_decision`) and
-- what is sent for it (src/tiny_mirror/services/ml_promotion_service.py).
use tiny_mirror.Prelude.{
  ℕ, suc, ◌≡◌, refl, ap, ◌∙◌, String, Bool, true, false, Option, some, List, ℤ, pos, ◌+ℤ◌, ◌-ℤ◌,
  ltb_ℤ, leb_ℤ, ◌==◌, nat_eq, string_eq, if◌then◌else◌, and_left,
}
use tiny_mirror.Fulfillment.Transfer.{Time}
use tiny_mirror.Promotions.{or_zero}
use tiny_mirror.Promotions.Score.{discount_of}
use tiny_mirror.Promotions.Decisions.{
  Row, approved, is_pending, ok, failed, approve, by_id, where_id, decide_row, decide_pending,
  applied_row, record_apply_result, Override,
}
use tiny_mirror.Promotions.Routes.Rows.{by_id-update_where, found_id, guarded}
use tiny_mirror.Promotions.Write.{Request, WriteResult, post}
use tiny_mirror.Promotions.Apply.{
  Applied, activates, applied_of, body_of, campaign_body, build_apply_body, apply_decision_to_ml,
}
use tiny_mirror.Promotions.Routes.{
  DecideIn, Response, exceeds, undercuts, shares_of, check_override, apply_target_override,
  has_pending, override_of, record_outcome, after_approval, approve_with, approve_checked,
  approve_priced, approve_decision,
}

taken_then : (b : Bool) (x y : Response × List Row) → b ≡ true → (if b then x else y).1 ≡ x.1
taken_then b x y h = rw h refl

module _ (upper : String → String) (dates : String × String) (write : Request → Option WriteResult)
    (annotate : Bool → Bool → Option String → Option String) where
  deal_sent :
      (r : Row) (i : String) (price : ℤ)
      → upper r.promo_type ≡ "DEAL"
      → activates r.decision_kind ≡ true
      → r.promo_id ≡ some i
      → r.target_price ≡ some price
      → apply_decision_to_ml upper dates write r
        ≡ applied_of (
            write (record {
              method = post;
              mlb_id = r.mlb_id;
              body = some (body_of "DEAL" (some price) (some i));
            }))
  unfolding apply_decision_to_ml build_apply_body campaign_body
  deal_sent r i price t k e f = rw (t, k, e, f) refl

  checked_price :
      (r : Row) (n : ℕ) (price : ℤ)
      → r.list_price ≡ some (suc n)
      → leb_ℤ price (pos 0) ≡ false
      → ltb_ℤ (pos (suc n) +ℤ pos 1) price ≡ false
      → apply_target_override price (some r) ≡ shares_of r (suc n) price
  unfolding apply_target_override check_override
  checked_price r n price listed positive below =
      ap (check_override price r) listed ∙ rw positive (rw below refl)

  -- The row after an approval, where Mercado Livre's answer is known.
  module _ (now : Time) (id : ℕ) (r : Row) (rows : List Row) (found : by_id id rows ≡ some r)
      (waits : is_pending r.status ≡ true) where
    decided_row :
        (o : Override)
        → by_id id (decide_pending now id approve o rows) ≡ some (decide_row now approve o r)
    unfolding decide_pending decide_row
    decided_row o =
        by_id-update_where id (where_id id is_pending) (decide_row now approve o) r rows found
          (guarded (r.id == id) (found_id id r rows found) waits) (λ s. refl)
          (λ s hit. and_left (s.id == id) (is_pending s.status) hit)

    approved_row :
        (o : Override) (a : Applied)
        → apply_decision_to_ml upper dates write (decide_row now approve o r) ≡ some a
        → by_id id (approve_with upper dates write annotate true now id o rows).1
          ≡ some (applied_row now a.status a.status_code (decide_row now approve o r))
    unfolding approve_with after_approval record_outcome record_apply_result decide_row
    approved_row o a sent =
        let decided = decide_pending now id approve o rows in
        let outcome = after_approval upper dates write annotate true now id in
        ap (by_id id) (
          taken_then (has_pending (by_id id rows)) _ _ (ap has_pending found ∙ waits)
          ∙ ap (λ row. outcome row decided) (decided_row o)
          ∙ ap (λ x. record_outcome upper dates write annotate now id x decided) sent)
        ∙ by_id-update_where id (λ s. s.id == id) (applied_row now a.status a.status_code)
            (decide_row now approve o r) decided (decided_row o) (found_id id r rows found)
            (λ s. refl) (λ s hit. hit)

    -- Where the flag `ml_promo_apply` is on, for a pending decision to activate a DEAL promotion that
    -- has an id, with a known list price, whatever its floor and its cap: suppose it is approved at a
    -- price above nothing and at most a cent above the list price, and the request that enrols the
    -- listing at exactly that price returns a result. Then the row is approved, has the price for its
    -- target, and says whether that request succeeded.
    pub approved_at_any_price :
        (body : DecideIn) (i : String) (n : ℕ) (price : ℤ) (result : WriteResult)
        → body.target_price ≡ some price
        → upper r.promo_type ≡ "DEAL"
        → activates r.decision_kind ≡ true
        → r.promo_id ≡ some i
        → r.list_price ≡ some (suc n)
        → leb_ℤ price (pos 0) ≡ false
        → ltb_ℤ (pos (suc n) +ℤ pos 1) price ≡ false
        → write (record {
          method = post;
          mlb_id = r.mlb_id;
          body = some (body_of "DEAL" (some price) (some i));
        })
          ≡ some result
        → (row : Row) × (by_id id
              (approve_decision upper dates write annotate true now id body rows).1
            ≡ some row)
          × (row.status ≡ approved)
          × (row.target_price ≡ some price)
          × (row.ml_apply_status ≡ some (if result.ok then ok else failed))
    unfolding approve_decision shares_of decide_row
    approved_at_any_price body i n price result asked t k e listed positive below answered =
        let total = discount_of (suc n) price in
        let seller = total -ℤ or_zero r.meli_percentage in
        let o =
          override_of upper dates write annotate body price total seller (exceeds r.cap_pct seller)
            (undercuts r.floor_price price) in
        let sent =
          deal_sent (decide_row now approve o r) i price t k e refl ∙ ap applied_of answered in
        let checked =
          ap (apply_target_override price) found ∙ checked_price r n price listed positive below in
        (
          applied_row now (if result.ok then ok else failed) result.status_code
              (decide_row now approve o r),
          ap (λ p. by_id id (approve_priced upper dates write annotate true now id body p rows).1)
                asked
              ∙ ap
                  (λ c.
                    by_id id
                      (approve_checked upper dates write annotate true now id body price c rows).1)
                  checked
              ∙ approved_row o _ sent,
          refl,
          refl,
          refl,
        )
