-- ===== src/Promotions/Decisions/Keys.antt =====
-- One row for a listing and a promotion, and what becomes of it when the promotion is offered again.
use tiny_mirror.Prelude.{
  ◌≡◌, refl, ap, sym, subst, ◌∙◌, String, Bool, true, false, not, ◌&&◌, ◌||◌, some, List, [], ◌∷◌,
  any, arith, ◌==◌, nat_eq, string_eq, if◌then◌else◌, Bool-cases, inl, inr,
}
use tiny_mirror.Promotions.Decisions.{
  Row, has_key, update_where, by_key, insert_if_absent, decide_pending, decide_row,
  record_apply_result, expire, expire_disappeared_started, update_started_price, expire_started,
  restore_started_price, revert_to_pending, upsert_started, refresh_dates, where_id, is_pending,
  applied_row, expire_row, has_disappeared, runs_as, with_price, is_restorable, restore_row,
  reopen_row, restart_row,
}
use tiny_mirror.Promotions.Decisions.Lifecycle.{
  Op, insert, settle, applied, expire_one, disappear, reprice, exit, restore, undo, begin, perform,
  perform_all,
}

abbrev pub IsDistinct : List Row → Type 0
IsDistinct [] = Unit
IsDistinct (r ∷ rows) = (any (has_key r.mlb_id r.promo_key) rows ≡ false) × IsDistinct rows

abbrev SameKey : Row → Row → Type 0
SameKey r s = (r.mlb_id ≡ s.mlb_id) × (r.promo_key ≡ s.promo_key)

has_key-SameKey : (m k : String) (r s : Row) → SameKey r s → has_key m k r ≡ has_key m k s
has_key-SameKey m k r s h =
    ap (λ x. x == m && r.promo_key == k) h.0 ∙ ap (λ x. s.mlb_id == m && x == k) h.1

if-SameKey : (b : Bool) (x r : Row) → SameKey x r → SameKey (if b then x else r) r
if-SameKey true x r h = h
if-SameKey false x r h = (refl, refl)

module _ (p : Row → Bool) (f : Row → Row) (keep : (r : Row) → SameKey (f r) r) where
  any-update_where :
      (m k : String) (rows : List Row)
      → any (has_key m k) (update_where p f rows) ≡ any (has_key m k) rows
  any-update_where m k [] = refl
  any-update_where m k (r ∷ rows) =
      let here =
        has_key-SameKey m k (if p r then f r else r) r (if-SameKey (p r) (f r) r (keep r)) in
      ap (λ b. b || any (has_key m k) (update_where p f rows)) here
      ∙ ap (λ b. has_key m k r || b) (any-update_where m k rows)

  update_where-IsDistinct : (rows : List Row) → IsDistinct rows → IsDistinct (update_where p f rows)
  update_where-IsDistinct [] h = tt
  update_where-IsDistinct (r ∷ rows) h =
      let same = if-SameKey (p r) (f r) r (keep r) in
      (
        subst
            (λ m.
              any (has_key m (if p r then f r else r).promo_key) (update_where p f rows) ≡ false)
            (sym same.0)
            (subst (λ k. any (has_key r.mlb_id k) (update_where p f rows) ≡ false) (sym same.1)
              (any-update_where r.mlb_id r.promo_key rows ∙ h.0)),
        update_where-IsDistinct rows h.1,
      )

if-IsDistinct :
    (b : Bool) (xs ys : List Row)
    → IsDistinct xs
    → (b ≡ false → IsDistinct ys)
    → IsDistinct (if b then xs else ys)
if-IsDistinct true xs ys h k = h
if-IsDistinct false xs ys h k = k refl

insert-IsDistinct :
    (b : Bool) (x y : List Row × Bool)
    → IsDistinct x.0
    → (b ≡ false → IsDistinct y.0)
    → IsDistinct (if b then x else y).0
insert-IsDistinct true x y h k = h
insert-IsDistinct false x y h k = k refl

perform-IsDistinct : (op : Op) (rows : List Row) → IsDistinct rows → IsDistinct (perform op rows)
unfolding perform insert_if_absent decide_pending decide_row record_apply_result expire
    expire_disappeared_started update_started_price expire_started restore_started_price
    revert_to_pending upsert_started
perform-IsDistinct (insert id now new) rows h =
    insert-IsDistinct (any (has_key new.mlb_id new.promo_key) rows) _ _
      (update_where-IsDistinct (has_key new.mlb_id new.promo_key) (refresh_dates new)
        (λ r. (refl, refl)) rows h)
      (λ absent. (absent, h))
perform-IsDistinct (settle now id verdict o) rows h =
    update_where-IsDistinct (where_id id is_pending) (decide_row now verdict o) (λ r. (refl, refl))
      rows h
perform-IsDistinct (applied now id status code) rows h =
    update_where-IsDistinct (λ r. r.id == id) (applied_row now status code) (λ r. (refl, refl)) rows
      h
perform-IsDistinct (expire_one now id reason) rows h =
    update_where-IsDistinct (where_id id is_pending) (expire_row now reason) (λ r. (refl, refl))
      rows h
perform-IsDistinct (disappear now mlb_id seen) rows h =
    update_where-IsDistinct (has_disappeared mlb_id seen) (expire_row now "campaign_ended")
      (λ r. (refl, refl)) rows h
perform-IsDistinct (reprice mlb_id price promo_id promo_type) rows h =
    update_where-IsDistinct (runs_as mlb_id promo_id promo_type) (with_price price)
      (λ r. (refl, refl)) rows h
perform-IsDistinct (exit now mlb_id promo_id promo_type reason) rows h =
    update_where-IsDistinct (runs_as mlb_id promo_id promo_type) (expire_row now reason)
      (λ r. (refl, refl)) rows h
perform-IsDistinct (restore mlb_id price promo_id promo_type) rows h =
    update_where-IsDistinct (is_restorable mlb_id promo_id promo_type) (restore_row price)
      (λ r. (refl, refl)) rows h
perform-IsDistinct (undo id) rows h =
    update_where-IsDistinct (where_id id (λ s. not (is_pending s))) reopen_row (λ r. (refl, refl))
      rows h
perform-IsDistinct (begin id now price new) rows h =
    if-IsDistinct (any (has_key new.mlb_id new.promo_key) rows) _ _
      (update_where-IsDistinct (has_key new.mlb_id new.promo_key) (restart_row price new)
        (λ r. (refl, refl)) rows h)
      (λ absent. (absent, h))

-- Whatever is done to the table, in whatever order: if at first a listing and a promotion have one row
-- at most, then so it is afterwards.
pub perform_all-IsDistinct :
    (ops : List Op) (rows : List Row) → IsDistinct rows → IsDistinct (perform_all ops rows)
unfolding perform_all
perform_all-IsDistinct [] rows h = h
perform_all-IsDistinct (op ∷ ops) rows h =
    perform_all-IsDistinct ops (perform op rows) (perform-IsDistinct op rows h)

pub by_key-any :
    (m k : String) (r : Row) (rows : List Row)
    → by_key m k rows ≡ some r
    → any (has_key m k) rows ≡ true
by_key-any m k r [] e = absurd (ground arith)
by_key-any m k r (s ∷ rows) e = elim (Bool-cases (has_key m k s)) [
  | inl hit ↦ rw hit refl
  | inr miss ↦ rw miss (by_key-any m k r rows (rw miss at e))
]
