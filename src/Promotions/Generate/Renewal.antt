-- ===== src/Promotions/Generate/Renewal.antt =====
-- What becomes of a decision when its promotion is offered again
-- (src/tiny_mirror/services/ml_promotion_service.py, generate_pending_decisions).
use mathlib.Core.Option.{some-injective}
use tiny_mirror.Prelude.{
  ℕ, ◌≡◌, refl, ap, subst, ◌∙◌, String, Bool, true, false, Option, some, List, [], ◌∷◌, any, All,
  ◌==◌, string_eq, if◌then◌else◌, Bool-cases, Option-cases, and_left, and_right, eq_iff, inl, inr,
}
use tiny_mirror.Fulfillment.Transfer.{Time}
use tiny_mirror.Caps.Recompute.{CapRow}
use tiny_mirror.Promotions.Enumerate.{Entry}
use tiny_mirror.Promotions.Decisions.{
  Row, has_key, by_key, update_where, refresh_dates, fresh, insert_if_absent,
}
use tiny_mirror.Promotions.Decisions.Keys.{by_key-any}
use tiny_mirror.Promotions.Generate.{
  Decided, is_started_entry, restarted, row_of_entry, store_entry, store_entries,
}

-- All that a decision says, but for the dates of its campaign.
pub record IsKept (old r : Row) : Type 0 where
  pub same_id : r.id ≡ old.id
  pub same_status : r.status ≡ old.status
  pub same_price : r.target_price ≡ old.target_price
  pub same_decided : r.decided_at ≡ old.decided_at
  pub same_expired : r.expired_at ≡ old.expired_at

pub record Kept (mlb_id key : String) (old : Row) (rows : List Row) : Type 0 where
  pub row : Row
  pub found : by_key mlb_id key rows ≡ some row
  pub is_kept : IsKept old row

unchanged : (r : Row) → IsKept r r
unchanged r = record {
  same_id = refl;
  same_status = refl;
  same_price = refl;
  same_decided = refl;
  same_expired = refl;
}

IsKept-trans : (a b c : Row) → IsKept a b → IsKept b c → IsKept a c
IsKept-trans a b c h k = record {
  same_id = k.same_id ∙ h.same_id;
  same_status = k.same_status ∙ h.same_status;
  same_price = k.same_price ∙ h.same_price;
  same_decided = k.same_decided ∙ h.same_decided;
  same_expired = k.same_expired ∙ h.same_expired;
}

refreshed-Kept :
    (p : Row → Bool) (new : Row) (m k : String) (old : Row) (rows : List Row)
    → by_key m k rows ≡ some old
    → Kept m k old (update_where p (refresh_dates new) rows)
refreshed-Kept p new m k old [] found = absurd cc
refreshed-Kept p new m k old (s ∷ rows) found = elim (Bool-cases (has_key m k s)) [
  | inl here ↦
      let head : s ≡ old = some-injective s old (rw here at found) in
      elim (Bool-cases (p s)) [
        | inl touched ↦ record {
          row = refresh_dates new s;
          found = rw touched (rw here refl);
          is_kept =
              subst (λ (x : Row). IsKept x (refresh_dates new s)) head
                (record {
                  same_id = refl;
                  same_status = refl;
                  same_price = refl;
                  same_decided = refl;
                  same_expired = refl;
                });
        }
        | inr left ↦ record {
          row = s;
          found = rw left (rw here refl);
          is_kept = subst (λ (x : Row). IsKept x s) head (unchanged s);
        }
      ]
  | inr there ↦
      let later = refreshed-Kept p new m k old rows (rw there at found) in
      record {
        row = later.row;
        found = elim (Bool-cases (p s)) [
          | inl touched ↦ rw touched (rw there later.found)
          | inr left ↦ rw left (rw there later.found)
        ];
        is_kept = later.is_kept;
      }
]

-- A row of another key is put before.
absent_key :
    (id : ℕ) (now : Time) (new old : Row) (m k : String) (rows : List Row)
    → by_key m k rows ≡ some old
    → any (has_key new.mlb_id new.promo_key) rows ≡ false
    → has_key m k (fresh id now new) ≡ false
absent_key id now new old m k rows found absent =
    elim (Bool-cases (has_key m k (fresh id now new))) [
      | inr other ↦ other
      | inl same ↦
          let listing = (eq_iff new.mlb_id m).0 (and_left (new.mlb_id == m) _ same) in
          let promotion = (eq_iff new.promo_key k).0 (and_right (new.mlb_id == m) _ same) in
          let there : any (has_key new.mlb_id new.promo_key) rows ≡ true =
            ap (λ x. any (has_key x new.promo_key) rows) listing
            ∙ ap (λ x. any (has_key m x) rows) promotion
            ∙ by_key-any m k old rows found in
          absurd cc
    ]

insert-Kept :
    (id : ℕ) (now : Time) (new old : Row) (m k : String) (rows : List Row)
    → by_key m k rows ≡ some old
    → Kept m k old (insert_if_absent id now new rows).0
unfolding insert_if_absent
insert-Kept id now new old m k rows found =
    elim (Bool-cases (any (has_key new.mlb_id new.promo_key) rows)) [
      | inl there ↦
          rw there (refreshed-Kept (has_key new.mlb_id new.promo_key) new m k old rows found)
      | inr absent ↦ rw absent (record {
        row = old;
        found = rw (absent_key id now new old m k rows found absent) found;
        is_kept = unchanged old;
      })
    ]

module _ (upper lower : String → String) (parse_iso : Option String → Option Time) (now : Time)
    (mlb_id sku : String) (list_price : ℕ) (c : CapRow) where
  restarted_lem :
      (new : Row) (e : Entry) (t : Decided)
      → is_started_entry upper lower parse_iso now e ≡ false
      → restarted upper lower parse_iso now new e t ≡ t
  restarted_lem new e t waits = elim (Option-cases e.target_price) [
    | inl unpriced ↦ rw unpriced refl
    | inr (price, priced) ↦ rw priced (rw waits refl)
  ]

  if_rows : (b : Bool) (t u : Decided) → u ≡ t → (if b then t else u).rows ≡ t.rows
  if_rows true t u same = refl
  if_rows false t u same = ap (λ (x : Decided). x.rows) same

  store_entry-rows :
      (e : Entry) (t : Decided)
      → is_started_entry upper lower parse_iso now e ≡ false
      → (store_entry upper lower parse_iso now mlb_id sku list_price c e t).rows
        ≡ (insert_if_absent t.next_id now
            (row_of_entry upper lower parse_iso now mlb_id sku list_price c e)
            t.rows).0
  unfolding store_entry
  store_entry-rows e t waits =
      let new = row_of_entry upper lower parse_iso now mlb_id sku list_price c e in
      if_rows _ _ _ (restarted_lem new e _ waits)

  -- However many promotions of a listing are stored, and whichever, none of them started: the decision
  -- that the table has of any listing and promotion keeps its id, its status, its target price and the
  -- moments at which it was decided and expired. So one that has expired stays expired when its
  -- promotion is offered again.
  pub candidates_keep_decisions :
      (entries : List Entry) (t : Decided) (m k : String) (old : Row)
      → All (λ e. is_started_entry upper lower parse_iso now e ≡ false) entries
      → by_key m k t.rows ≡ some old
      → Kept m k old
          (store_entries upper lower parse_iso now mlb_id sku list_price c entries t).rows
  unfolding store_entries
  candidates_keep_decisions [] t m k old wait found = record {
    row = old;
    found = found;
    is_kept = unchanged old;
  }
  candidates_keep_decisions (e ∷ entries) t m k old wait found =
      let new = row_of_entry upper lower parse_iso now mlb_id sku list_price c e in
      let first = insert-Kept t.next_id now new old m k t.rows found in
      let rest =
        candidates_keep_decisions entries
          (store_entry upper lower parse_iso now mlb_id sku list_price c e t) m k first.row wait.1
          (ap (by_key m k) (store_entry-rows e t wait.0) ∙ first.found) in
      record {
        row = rest.row;
        found = rest.found;
        is_kept = IsKept-trans old first.row rest.row first.is_kept rest.is_kept;
      }
