-- ===== src/Promotions/Reconcile/Mirror.antt =====
-- After a listing has been asked about, its rows of what runs are what Mercado Livre lists.
use tiny_mirror.Prelude.{
  ℕ, suc, ◌≡◌, refl, sym, subst, ◌⊎◌, String, Bool, true, false, not, ◌&&◌, ◌||◌, Option, List, [],
  ◌∷◌, map, filter, any, All, ℤ, arith, ◌==◌, string_eq, if◌then◌else◌, and_left, and_right, inl,
  inr, eq_iff,
}
use tiny_mirror.Fulfillment.Transfer.{Time}
use tiny_mirror.Promotions.{Offer, or_zero}
use tiny_mirror.Promotions.Decisions.{
  Row, has_key, is_started, is_ignored, update_where, upsert_started, restart_row, running_row,
  expire_row, has_disappeared, expire_disappeared_started,
}
use tiny_mirror.Promotions.Generate.{Decided, row_of_offer, forget_ended}
use tiny_mirror.Promotions.Reconcile.{
  key_of_started, runs_at_price, store_started, reconcile_promos,
}

-- A row of a promotion that runs.
abbrev pub shows : String → String → Row → Bool
shows mlb_id key r = has_key mlb_id key r && (is_started r && is_ignored r.status)

or_cases : (a b : Bool) → a || b ≡ true → (a ≡ true) ⊎ (b ≡ true)
or_cases true b h = inl refl
or_cases false b h = inr h

or_right : (a b : Bool) → b ≡ true → a || b ≡ true
or_right true b h = refl
or_right false b h = h

or_left : (a b : Bool) → a ≡ true → a || b ≡ true
or_left true b h = refl
or_left false b h = cc

both : (a b c : Bool) → a ≡ true → b ≡ true → c ≡ true → a && (b && c) ≡ true
both a b c ha hb hc = rw ha (rw hb hc)

equal_tests : (a b : Bool) → (a ≡ true → b ≡ true) → (b ≡ true → a ≡ true) → a ≡ b
equal_tests true b h k = sym (h refl)
equal_tests false true h k = k refl
equal_tests false false h k = refl

if-shows :
    (m k : String) (b : Bool) (x r : Row)
    → (b ≡ true → shows m k x ≡ true)
    → shows m k r ≡ true
    → shows m k (if b then x else r) ≡ true
if-shows m k true x r h g = h refl
if-shows m k false x r h g = g

any-shows-update :
    (m k : String) (p : Row → Bool) (f : Row → Row) (rows : List Row)
    → ((r : Row) → shows m k r ≡ true → p r ≡ true → shows m k (f r) ≡ true)
    → any (shows m k) rows ≡ true
    → any (shows m k) (update_where p f rows) ≡ true
any-shows-update m k p f [] keep h = cc
any-shows-update m k p f (r ∷ rows) keep h =
    elim (or_cases (shows m k r) (any (shows m k) rows) h) [
      | inl here ↦ or_left _ _ (if-shows m k (p r) (f r) r (keep r here) here)
      | inr there ↦ or_right _ _ (any-shows-update m k p f rows keep there)
    ]

if-any :
    (m k : String) (b : Bool) (xs ys : List Row)
    → (b ≡ true → any (shows m k) xs ≡ true)
    → (b ≡ false → any (shows m k) ys ≡ true)
    → any (shows m k) (if b then xs else ys) ≡ true
if-any m k true xs ys h g = h refl
if-any m k false xs ys h g = g refl

key_parts :
    (m k : String) (r : Row)
    → has_key m k r ≡ true
    → (r.mlb_id == m ≡ true) × (r.promo_key == k ≡ true)
key_parts m k r h =
    (and_left (r.mlb_id == m) (r.promo_key == k) h, and_right (r.mlb_id == m) (r.promo_key == k) h)

key_self : (m k : String) → m == m && k == k ≡ true
key_self m k = rw ((eq_iff m m).1 refl) ((eq_iff k k).1 refl)

shows-restarted :
    (m k : String) (price : ℤ) (new r : Row)
    → has_key m k r ≡ true
    → shows m k (restart_row price new r) ≡ true
shows-restarted m k price new r h = rw h refl

shows-restart :
    (m k : String) (price : ℤ) (new : Row) (rows : List Row)
    → any (has_key m k) rows ≡ true
    → any (shows m k) (update_where (has_key m k) (restart_row price new) rows) ≡ true
shows-restart m k price new [] h = cc
shows-restart m k price new (r ∷ rows) h =
    elim (or_cases (has_key m k r) (any (has_key m k) rows) h) [
      | inl hit ↦
          or_left (shows m k (if has_key m k r then restart_row price new r else r)) _
            (rw hit (shows-restarted m k price new r hit))
      | inr miss ↦ or_right _ _ (shows-restart m k price new rows miss)
    ]

module _ (id : ℕ) (now : Time) (price : ℤ) (new : Row) where
  upsert-shows :
      (rows : List Row)
      → any (shows new.mlb_id new.promo_key) (upsert_started id now price new rows) ≡ true
  unfolding upsert_started
  upsert-shows rows =
      if-any new.mlb_id new.promo_key (any (has_key new.mlb_id new.promo_key) rows) _ _
        (λ known. shows-restart new.mlb_id new.promo_key price new rows known)
        (λ unknown.
          or_left (shows new.mlb_id new.promo_key (running_row id now price new)) _
            (rw (key_self new.mlb_id new.promo_key) refl))

  upsert-keeps :
      (m k : String) (rows : List Row)
      → any (shows m k) rows ≡ true
      → any (shows m k) (upsert_started id now price new rows) ≡ true
  unfolding upsert_started
  upsert-keeps m k rows h =
      if-any m k (any (has_key new.mlb_id new.promo_key) rows) _ _
        (λ known.
          any-shows-update m k (has_key new.mlb_id new.promo_key) (restart_row price new) rows
            (λ r shown hit. shows-restarted m k price new r (and_left (has_key m k r) _ shown)) h)
        (λ unknown. or_right _ _ h)

-- A row that runs and is listed is not expired, and none that is not listed is left.
forget-keeps :
    (now : Time) (m k : String) (seen : List String) (rows : List Row)
    → any (λ key. k == key) seen ≡ true
    → any (shows m k) rows ≡ true
    → any (shows m k) (expire_disappeared_started now m seen rows) ≡ true
unfolding expire_disappeared_started
forget-keeps now m k seen rows listed h =
    any-shows-update m k (has_disappeared m seen) (expire_row now "campaign_ended") rows
      (λ r shown gone.
        let same =
          (eq_iff r.promo_key k).0 (key_parts m k r (and_left (has_key m k r) _ shown)).1 in
        let there : any (λ key. r.promo_key == key) seen ≡ true =
          subst (λ x. any (λ key. x == key) seen ≡ true) (sym same) listed in
        let absent =
          and_right (is_ignored r.status) _
            (and_right (is_started r) _ (and_right (r.mlb_id == m) _ gone)) in
        absurd (ground (arith, there, absent)))
      h

if-gone :
    (now : Time) (m : String) (seen : List String) (b : Bool) (r : Row)
    → has_disappeared m seen r ≡ b
    → has_disappeared m seen (if b then expire_row now "campaign_ended" r else r) ≡ false
if-gone now m seen true r h = ground arith
if-gone now m seen false r h = h

forget-leaves-none :
    (now : Time) (m : String) (seen : List String) (rows : List Row)
    → All (λ r. has_disappeared m seen r ≡ false) (expire_disappeared_started now m seen rows)
unfolding expire_disappeared_started
forget-leaves-none now m seen [] = tt
forget-leaves-none now m seen (r ∷ rows) =
    (if-gone now m seen (has_disappeared m seen r) r refl, forget-leaves-none now m seen rows)

listed_test :
    (a b c d : Bool) → a && (b && (c && not d)) ≡ false → a ≡ true → b && c ≡ true → d ≡ true
listed_test a b c d h ha hbc = ground arith

shown-listed :
    (m k : String) (seen : List String) (rows : List Row)
    → All (λ r. has_disappeared m seen r ≡ false) rows
    → any (shows m k) rows ≡ true
    → any (λ key. k == key) seen ≡ true
shown-listed m k seen [] none_gone h = cc
shown-listed m k seen (r ∷ rows) none_gone h =
    elim (or_cases (shows m k r) (any (shows m k) rows) h) [
      | inl here ↦
          let keys =
            key_parts m k r (and_left (has_key m k r) (is_started r && is_ignored r.status) here) in
          subst (λ x. any (λ key. x == key) seen ≡ true) ((eq_iff r.promo_key k).0 keys.1)
            (listed_test (r.mlb_id == m) (is_started r) (is_ignored r.status)
              (any (λ key. r.promo_key == key) seen) none_gone.0 keys.0
              (and_right (has_key m k r) (is_started r && is_ignored r.status) here))
      | inr there ↦ shown-listed m k seen rows none_gone.1 there
    ]

module _ (upper lower : String → String) (parse_iso : Option String → Option Time) (now : Time)
    (m sku : String) (list_price : Option ℕ) where
  store-keeps :
      (k : String) (promos : List Offer) (t : Decided)
      → any (shows m k) t.rows ≡ true
      → any (shows m k) (store_started upper lower parse_iso now m sku list_price promos t).rows
        ≡ true
  unfolding store_started
  store-keeps k [] t h = h
  store-keeps k (p ∷ promos) t h =
      let key = key_of_started upper lower parse_iso now p in
      store-keeps k promos _ (
        upsert-keeps t.next_id now (or_zero p.price)
          (row_of_offer upper lower parse_iso now m sku key list_price p) m k t.rows h)

  store-shows :
      (k : String) (promos : List Offer) (t : Decided)
      → any (λ key. k == key) (map (key_of_started upper lower parse_iso now) promos) ≡ true
      → any (shows m k) (store_started upper lower parse_iso now m sku list_price promos t).rows
        ≡ true
  unfolding store_started
  store-shows k [] t h = cc
  store-shows k (p ∷ promos) t h =
      let key = key_of_started upper lower parse_iso now p in
      let new = row_of_offer upper lower parse_iso now m sku key list_price p in
      let next : Decided = record {
        rows = upsert_started t.next_id now (or_zero p.price) new t.rows;
        next_id = suc t.next_id;
      } in
      elim (or_cases (k == key) _ h) [
        | inl here ↦ store-keeps k promos next (
            subst (λ x. any (shows m x) next.rows ≡ true) (sym ((eq_iff k key).0 here))
              (upsert-shows t.next_id now (or_zero p.price) new t.rows))
        | inr later ↦ store-shows k promos next later
      ]

  -- After a listing has been asked about, the table has a row that shows a promotion of it as running
  -- exactly when Mercado Livre lists that promotion as started, at a price.
  pub reconcile_mirrors :
      (promos : List Offer) (t : Decided) (k : String)
      → any (shows m k) (reconcile_promos upper lower parse_iso now m sku list_price promos t).rows
        ≡ any
            (λ key. k == key)
            (map
              (key_of_started upper lower parse_iso now)
              (filter (runs_at_price upper lower parse_iso now) promos))
  unfolding reconcile_promos forget_ended
  reconcile_mirrors promos t k =
      let running = filter (runs_at_price upper lower parse_iso now) promos in
      let seen = map (key_of_started upper lower parse_iso now) running in
      let stored = store_started upper lower parse_iso now m sku list_price running t in
      equal_tests _ _
        (λ shown. shown-listed m k seen _ (forget-leaves-none now m seen stored.rows) shown)
        (λ listed. forget-keeps now m k seen stored.rows listed (store-shows k running t listed))
