-- ===== src/Promotions/Bulk.antt =====
-- `bulk_decide_pending` (src/tiny_mirror/services/ml_promotion_service.py), with the constraint on the
-- statuses of the table (src/tiny_mirror/infrastructure/orm/models.py). The statistics and the sample
-- of the matched rows are left out.
use tiny_mirror.Prelude.{
  ℕ, zero, suc, ◌≡◌, refl, ap, ◌∙◌, String, Bool, true, false, not, ◌&&◌, ◌||◌, Option, none, some,
  List, [], ◌∷◌, filter, any, length, ℤ, pos, ◌-ℤ◌, ◌*ℤ◌, ltb_ℤ, ◌==◌, nat_eq, string_eq,
  if◌then◌else◌, arith, ◌⊎◌, inl, inr,
}
use tiny_mirror.Fulfillment.Transfer.{Time}
use tiny_mirror.Pricing.{whole_percent}
use tiny_mirror.Promotions.Decisions.{
  Row, DecisionStatus, pending, approved, rejected, ignored, expired, is_pending, update_where,
}

-- CHECK (status IN ('pending', 'approved', 'rejected', 'ignored', 'expired'))
unfoldable pub checked_status : String → Option DecisionStatus
checked_status text =
    if text == "pending"
    then some pending
    else if text == "approved"
    then some approved
    else if text == "rejected"
    then some rejected
    else if text == "ignored"
    then some ignored
    else if text == "expired"
    then some expired
    else none

-- An empty list is no filter.
pub record Filter : Type 0 where
  pub promo_types : List String
  pub skus : List String
  pub min_delta_pct : Option ℤ
  pub max_delta_pct : Option ℤ

abbrev pub is_among : List String → String → Bool
is_among [] text = true
is_among (t ∷ ts) text = any (λ s. s == text) (t ∷ ts)

-- Whether the change from the list price is in the range: (target - list) / list, in hundredths of a
-- percent, without the division.
abbrev pub is_over : ℤ → ℕ → Option ℤ → Bool
is_over change list_price none = false
is_over change list_price (some max) = ltb_ℤ (max *ℤ pos list_price) (change *ℤ pos whole_percent)

abbrev pub is_under : ℤ → ℕ → Option ℤ → Bool
is_under change list_price none = false
is_under change list_price (some min) = ltb_ℤ (change *ℤ pos whole_percent) (min *ℤ pos list_price)

unfoldable pub delta_in_range : Option ℤ → Option ℕ → Option ℤ → Option ℤ → Bool
delta_in_range target list_price none none = true
delta_in_range (some target) (some (suc n)) lo hi =
    let change = target -ℤ pos (suc n) in
    not (is_under change (suc n) lo) && not (is_over change (suc n) hi)
delta_in_range _ _ _ _ = false

abbrev pub row_passes_delta_range : Filter → Row → Bool
row_passes_delta_range f r =
    delta_in_range r.target_price r.list_price f.min_delta_pct f.max_delta_pct

abbrev pub is_matched : Filter → Row → Bool
is_matched f r =
    is_pending r.status
    && (is_among f.promo_types r.promo_type
        && (is_among f.skus r.sku && row_passes_delta_range f r))

-- What a call ends in: the ValueError, the preview, the error of the database, or the commit.
pub data BulkEnd : Type 0 where
  not_allowed : BulkEnd
  preview : (would_update : ℕ) → BulkEnd
  integrity_error : BulkEnd
  committed : (updated : ℕ) (rows : List Row) → BulkEnd

abbrev pub settled_as : Time → Option String → Option String → DecisionStatus → Row → Row
settled_as now by notes status r = record r {
  status = status;
  decided_at = some now;
  decided_by = by;
  notes = notes;
}

-- The UPDATE of the matched rows; other requests have not moved them.
unfoldable pub commit_bulk :
    Time → Filter → Option String → Option String → ℕ → Option DecisionStatus → List Row → BulkEnd
unfolding delta_in_range
commit_bulk now f by notes zero status rows = committed 0 rows
commit_bulk now f by notes (suc n) none rows = integrity_error
commit_bulk now f by notes (suc n) (some status) rows =
    committed (suc n) (update_where (is_matched f) (settled_as now by notes status) rows)

unfoldable pub bulk_decide_pending :
    Time → String → Filter → Bool → Option String → Option String → List Row → BulkEnd
unfolding commit_bulk checked_status
bulk_decide_pending now action f dry_run by notes rows =
    let matched = length (filter (is_matched f) rows) in
    if not (action == "ignore" || action == "reject")
    then not_allowed
    else if dry_run
    then preview matched
    else commit_bulk now f by notes matched (checked_status action) rows

refused_status :
    (action : String) → (action ≡ "ignore") ⊎ (action ≡ "reject") → checked_status action ≡ none
unfolding checked_status
refused_status action (inl e) = rw e refl
refused_status action (inr e) = rw e refl

allowed_action :
    (action : String)
    → (action ≡ "ignore") ⊎ (action ≡ "reject")
    → action == "ignore" || action == "reject" ≡ true
allowed_action action (inl e) = rw e refl
allowed_action action (inr e) = rw e refl

commit_refused :
    (now : Time) (f : Filter) (by notes : Option String) (n : ℕ) (rows : List Row)
    → commit_bulk now f by notes n none rows
      ≡ (if n == 0 then committed 0 rows else integrity_error)
unfolding commit_bulk
commit_refused now f by notes zero rows = refl
commit_refused now f by notes (suc n) rows = ground arith

preview_injective : (m n : ℕ) → preview m ≡ preview n → m ≡ n
preview_injective m n e = cc

-- Neither action that a bulk call takes is a status of the table: where the preview matches rows, the
-- call that is to change them fails in the database, and where it matches none it changes none.
pub bulk_never_settles :
    (now : Time) (action : String) (f : Filter) (by notes : Option String) (n : ℕ) (rows : List Row)
    → (action ≡ "ignore") ⊎ (action ≡ "reject")
    → bulk_decide_pending now action f true by notes rows ≡ preview n
    → bulk_decide_pending now action f false by notes rows
      ≡ (if n == 0 then committed 0 rows else integrity_error)
unfolding bulk_decide_pending
bulk_never_settles now action f by notes n rows h seen =
    let test = allowed_action action h in
    let same = preview_injective _ n (rw test at seen) in
    rw test (
      rw (refused_status action h) (
        commit_refused now f by notes (length (filter (is_matched f) rows)) rows
        ∙ ap (λ (k : ℕ). if k == 0 then committed 0 rows else integrity_error) same))
