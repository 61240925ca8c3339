-- ===== src/Promotions/Decisions/Lifecycle.antt =====
-- What holds of the rows of `ml_promo_decisions` between two operations.
use tiny_mirror.Prelude.{
  ℕ, ◌≡◌, ◌≢◌, String, Bool, true, false, not, Option, none, List, [], ◌∷◌, any, All, ℤ, arith,
  ◌==◌, nat_eq, string_eq, if◌then◌else◌, Bool-cases, and_right, inl, inr,
}
use tiny_mirror.Fulfillment.Transfer.{Time}
use tiny_mirror.Promotions.Decisions.{
  Row, approved, rejected, expired, ApplyStatus, OperatorVerdict, Override, has_key, update_where,
  insert_if_absent, decide_pending, decide_row, record_apply_result, expire,
  expire_disappeared_started, update_started_price, expire_started, restore_started_price,
  revert_to_pending, upsert_started, refresh_dates, where_id, is_pending, applied_row, expire_row,
  has_disappeared, runs_as, with_price, is_restorable, restore_row, reopen_row, restart_row,
  approve, reject, ignore,
}

-- The operations of the repository. The status that `generate` inserts a row with is pending or
-- ignored.
pub data Op : Type 0 where
  insert : (id : ℕ) (now : Time) (new : Row) → Op
  settle : (now : Time) (id : ℕ) (verdict : OperatorVerdict) (o : Override) → Op
  applied : (now : Time) (id : ℕ) (status : ApplyStatus) (code : Option ℕ) → Op
  expire_one : (now : Time) (id : ℕ) (reason : String) → Op
  disappear : (now : Time) (mlb_id : String) (seen : List String) → Op
  reprice : (mlb_id : String) (price : ℤ) (promo_id promo_type : Option String) → Op
  exit : (now : Time) (mlb_id : String) (promo_id promo_type : Option String) (reason : String) → Op
  restore : (mlb_id : String) (price : ℤ) (promo_id promo_type : Option String) → Op
  undo : (id : ℕ) → Op
  begin : (id : ℕ) (now : Time) (price : ℤ) (new : Row) → Op

unfoldable pub perform : Op → List Row → List Row
perform (insert id now new) rows = (insert_if_absent id now new rows).0
perform (settle now id verdict o) rows = decide_pending now id verdict o rows
perform (applied now id status code) rows = record_apply_result now id status code rows
perform (expire_one now id reason) rows = expire now id reason rows
perform (disappear now mlb_id seen) rows = expire_disappeared_started now mlb_id seen rows
perform (reprice mlb_id price promo_id promo_type) rows =
    update_started_price mlb_id price promo_id promo_type rows
perform (exit now mlb_id promo_id promo_type reason) rows =
    expire_started now mlb_id promo_id promo_type reason rows
perform (restore mlb_id price promo_id promo_type) rows =
    restore_started_price mlb_id price promo_id promo_type rows
perform (undo id) rows = revert_to_pending id rows
perform (begin id now price new) rows = upsert_started id now price new rows

unfoldable pub perform_all : List Op → List Row → List Row
unfolding perform
perform_all [] rows = rows
perform_all (op ∷ ops) rows = perform_all ops (perform op rows)

-- A row is stamped as expired exactly when it is, and one that the operator settled says when.
pub record IsStamped (r : Row) : Type 0 where
  pub expired_stamp : r.status ≡ expired → r.expired_at ≢ none
  pub unexpired : r.status ≢ expired → r.expired_at ≡ none
  pub approved_stamp : r.status ≡ approved → r.decided_at ≢ none
  pub rejected_stamp : r.status ≡ rejected → r.decided_at ≢ none

-- A new row is pending or ignored.
abbrev pub IsNew : Op → Type 0
IsNew (insert id now new) =
    (new.status ≢ expired) × (new.status ≢ approved) × (new.status ≢ rejected)
IsNew _ = Unit

update_where-IsStamped :
    (p : Row → Bool) (f : Row → Row) (rows : List Row)
    → ((r : Row) → p r ≡ true → IsStamped r → IsStamped (f r))
    → All IsStamped rows
    → All IsStamped (update_where p f rows)
update_where-IsStamped p f [] keep h = tt
update_where-IsStamped p f (r ∷ rows) keep h = elim (Bool-cases (p r)) [
  | inl hit ↦ rw hit (keep r hit h.0, update_where-IsStamped p f rows keep h.1)
  | inr miss ↦ rw miss (h.0, update_where-IsStamped p f rows keep h.1)
]

-- A row that was pending has not expired, so that a decision leaves it sound.
decide_row-IsStamped :
    (now : Time) (verdict : OperatorVerdict) (o : Override) (r : Row)
    → is_pending r.status ≡ true
    → IsStamped r
    → IsStamped (decide_row now verdict o r)
unfolding decide_row
decide_row-IsStamped now approve o r h s = ground arith
decide_row-IsStamped now reject o r h s = ground arith
decide_row-IsStamped now ignore o r h s = ground arith

running-IsStamped :
    (b : Bool) (xs ys : List Row)
    → All IsStamped xs
    → All IsStamped ys
    → All IsStamped (if b then xs else ys)
running-IsStamped true xs ys h k = h
running-IsStamped false xs ys h k = k

insert-IsStamped :
    (b : Bool) (x y : List Row × Bool)
    → All IsStamped x.0
    → All IsStamped y.0
    → All IsStamped (if b then x else y).0
insert-IsStamped true x y h k = h
insert-IsStamped false x y h k = k

perform-IsStamped :
    (op : Op) (rows : List Row) → IsNew op → All IsStamped rows → All IsStamped (perform op rows)
unfolding perform insert_if_absent decide_pending record_apply_result expire
    expire_disappeared_started update_started_price expire_started restore_started_price
    revert_to_pending upsert_started
perform-IsStamped (insert id now new) rows fine h =
    insert-IsStamped (any (has_key new.mlb_id new.promo_key) rows) _ _
      (update_where-IsStamped (has_key new.mlb_id new.promo_key) (refresh_dates new) rows
        (λ r hit s. ground arith) h)
      (ground arith, h)
perform-IsStamped (settle now id verdict o) rows fine h =
    update_where-IsStamped (where_id id is_pending) (decide_row now verdict o) rows
      (λ r hit s.
        decide_row-IsStamped now verdict o r (and_right (r.id == id) (is_pending r.status) hit) s)
      h
perform-IsStamped (applied now id status code) rows fine h =
    update_where-IsStamped (λ r. r.id == id) (applied_row now status code) rows
      (λ r hit s. ground arith) h
perform-IsStamped (expire_one now id reason) rows fine h =
    update_where-IsStamped (where_id id is_pending) (expire_row now reason) rows
      (λ r hit s. ground arith) h
perform-IsStamped (disappear now mlb_id seen) rows fine h =
    update_where-IsStamped (has_disappeared mlb_id seen) (expire_row now "campaign_ended") rows
      (λ r hit s. ground arith) h
perform-IsStamped (reprice mlb_id price promo_id promo_type) rows fine h =
    update_where-IsStamped (runs_as mlb_id promo_id promo_type) (with_price price) rows
      (λ r hit s. ground arith) h
perform-IsStamped (exit now mlb_id promo_id promo_type reason) rows fine h =
    update_where-IsStamped (runs_as mlb_id promo_id promo_type) (expire_row now reason) rows
      (λ r hit s. ground arith) h
perform-IsStamped (restore mlb_id price promo_id promo_type) rows fine h =
    update_where-IsStamped (is_restorable mlb_id promo_id promo_type) (restore_row price) rows
      (λ r hit s. ground arith) h
perform-IsStamped (undo id) rows fine h =
    update_where-IsStamped (where_id id (λ s. not (is_pending s))) reopen_row rows
      (λ r hit s. ground arith) h
perform-IsStamped (begin id now price new) rows fine h =
    running-IsStamped (any (has_key new.mlb_id new.promo_key) rows) _ _
      (update_where-IsStamped (has_key new.mlb_id new.promo_key) (restart_row price new) rows
        (λ r hit s. ground arith) h)
      (ground arith, h)

-- Whatever is done to the table, in whatever order, where a new row is pending or ignored: if at first
-- every row is stamped as expired exactly when it has expired, and every row that is approved or
-- rejected says when that was decided, then so it is afterwards.
pub perform_all-IsStamped :
    (ops : List Op) (rows : List Row)
    → All IsNew ops
    → All IsStamped rows
    → All IsStamped (perform_all ops rows)
unfolding perform_all
perform_all-IsStamped [] rows fine h = h
perform_all-IsStamped (op ∷ ops) rows fine h =
    perform_all-IsStamped ops (perform op rows) fine.1 (perform-IsStamped op rows fine.0 h)
