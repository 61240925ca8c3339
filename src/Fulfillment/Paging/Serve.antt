-- ===== src/Fulfillment/Paging/Serve.antt =====
-- A service that serves a list in pages, and what is selected from one page and from the rest.
use tiny_mirror.Prelude.{
  ℕ, ◌+◌, ◌-◌, ◌≤◌, ◌≡◌, refl, ap, ◌∙◌, Bool, true, false, some, List, [], ◌∷◌, ◌++◌, map, arith,
  pos, length, take, drop, nat_eq, if◌then◌else◌, length-map, length-take, length-drop, drop_all,
  drop-drop, take-append-drop,
}
use Prim.Native.Nat.{min}
use mathlib.Core.List.{map-append}
use tiny_mirror.Json.{
  Json, int, arr, obj, nil, cons, end, field, Items, Fields, or_else, iterate, items, as_dict,
}
use tiny_mirror.Fulfillment.Event.{>>=-eq-some}
use tiny_mirror.Fulfillment.Paging.{is_credited, select, Page, read_page, page_limit, is_last_page}

-- One response of a service that serves `ops` in pages of 50.
abbrev items_of : List Fields → Items
items_of [] = nil
items_of (op ∷ ops) = cons (obj op) (items_of ops)

abbrev pub serve : List Fields → ℕ → Fields
serve ops offset =
    field "results" (arr (items_of (take page_limit (drop offset ops))))
      (field "paging" (obj (field "total" (int (pos (length ops))) end)) end)

items-items_of : (ops : List Fields) → items (items_of ops) ≡ map obj ops
items-items_of [] = refl
items-items_of (op ∷ ops) = ap (λ r. obj op ∷ r) (items-items_of ops)

iterate-items_of :
    (ops : List Fields) → iterate (or_else (arr (items_of ops)) (arr nil)) ≡ some (map obj ops)
iterate-items_of [] = refl
iterate-items_of (op ∷ ops) = ap (λ r. some (obj op ∷ r)) (items-items_of ops)

-- What a page with these first and further results is made of.
record IsSelected (v : Json) (vs : List Json) (zs : List Fields) : Type 0 where
  op : Fields
  keep : Bool
  rest : List Fields
  is_dict : as_dict v ≡ some op
  decided : is_credited op ≡ some keep
  further : select vs ≡ some rest
  result : (if keep then op ∷ rest else rest) ≡ zs

select-cons_inv :
    (v : Json) (vs : List Json) {zs : List Fields} → select (v ∷ vs) ≡ some zs → IsSelected v vs zs
unfolding select
select-cons_inv v vs h =
    let (op, is_dict, h₁) = >>=-eq-some (as_dict v) _ h in
    let (keep, decided, h₂) = >>=-eq-some (is_credited op) _ h₁ in
    let (rest, further, h₃) = >>=-eq-some (select vs) _ h₂ in
    record {
      op = op;
      keep = keep;
      rest = rest;
      is_dict = is_dict;
      decided = decided;
      further = further;
      result = cc;
    }

select-cons :
    (v : Json) (vs : List Json) {zs : List Fields} → IsSelected v vs zs → select (v ∷ vs) ≡ some zs
unfolding select
select-cons v vs h = rw (h.is_dict, select) (rw (h.decided) (rw h.further (ap some h.result)))

if_append :
    (keep : Bool) (op : Fields) (us vs : List Fields)
    → (if keep then op ∷ us else us) ++ vs ≡ (if keep then op ∷ (us ++ vs) else us ++ vs)
if_append true op us vs = refl
if_append false op us vs = refl

select-append :
    (xs ys : List Json) {zs : List Fields}
    → select (xs ++ ys) ≡ some zs
    → (us : List Fields) × (vs : List Fields) × (select xs ≡ some us)
      × (select ys ≡ some vs)
      × (us ++ vs ≡ zs)
unfolding select
select-append [] ys {zs} h = ([], zs, refl, h, refl)
select-append (x ∷ xs) ys h =
    let s = select-cons_inv x (xs ++ ys) h in
    let (us, vs, eu, ev, joined) = select-append xs ys s.further in
    (
      (if s.keep then s.op ∷ us else us),
      vs,
      select-cons x xs (record {
        op = s.op;
        keep = s.keep;
        rest = us;
        is_dict = s.is_dict;
        decided = s.decided;
        further = eu;
        result = refl;
      }),
      ev,
      if_append s.keep s.op us vs
          ∙ ap (λ (r : List Fields). if s.keep then s.op ∷ r else r) joined
          ∙ s.result,
    )

abbrev pub rest_at : List Fields → ℕ → List Json
rest_at ops offset = map obj (drop offset ops)

-- The results of the page at an offset, and those of the pages after it.
split_page :
    (ops : List Fields) (offset : ℕ)
    → map obj (take page_limit (drop offset ops)) ++ rest_at ops (offset + page_limit)
      ≡ rest_at ops offset
split_page ops offset =
    rw (← drop-drop page_limit offset ops, ← map-append)
      (ap (map obj) (take-append-drop page_limit (drop offset ops)))

module _ (ops : List Fields) where
  unfoldable pub page_of : (offset : ℕ) → List Fields → Page
  page_of offset kept = record {
    kept = kept;
    count = length (map obj (take page_limit (drop offset ops)));
    total = pos (length ops);
  }

  pub read_page-serve :
      (offset : ℕ) {us : List Fields}
      → select (map obj (take page_limit (drop offset ops))) ≡ some us
      → read_page (serve ops offset) ≡ some (page_of offset us)
  unfolding read_page page_of
  read_page-serve offset e = ground (arith, iterate-items_of (take page_limit (drop offset ops)), e)

  count-bounds :
      (offset : ℕ) (us : List Fields)
      → (page_of offset us).count ≡ min page_limit (length ops - offset)
  unfolding page_of
  count-bounds offset us =
      length-map obj (take page_limit (drop offset ops))
      ∙ length-take page_limit (drop offset ops)
      ∙ ap (min page_limit) (length-drop offset ops)

  reached :
      (offset : ℕ) (us : List Fields)
      → is_last_page offset (page_of offset us) ≡ true
      → length ops ≤ offset + page_limit
  unfolding is_last_page page_of
  reached offset us h = ground (arith, count-bounds offset us)

  pub last_page_rest :
      (offset : ℕ) (us : List Fields)
      → is_last_page offset (page_of offset us) ≡ true
      → rest_at ops (offset + page_limit) ≡ []
  last_page_rest offset us h =
      ap (map obj) (drop_all (offset + page_limit) ops (reached offset us h))

pub select-nil : (vs : List Json) {us : List Fields} → vs ≡ [] → select vs ≡ some us → us ≡ []
unfolding select
select-nil [] e h = cc
select-nil (v ∷ vs) e h = cc

-- What counts on the page at an offset, and on the pages after it.
pub record IsSplit (ops : List Fields) (offset : ℕ) (ks : List Fields) : Type 0 where
  pub here : List Fields
  pub later : List Fields
  pub here_selected : select (map obj (take page_limit (drop offset ops))) ≡ some here
  pub later_selected : select (rest_at ops (offset + page_limit)) ≡ some later
  pub joined : here ++ later ≡ ks

pub select-IsSplit :
    (ops : List Fields) (offset : ℕ) {ks : List Fields}
    → select (rest_at ops offset) ≡ some ks
    → IsSplit ops offset ks
select-IsSplit ops offset {ks} h =
    let all : select
          (map obj (take page_limit (drop offset ops)) ++ rest_at ops (offset + page_limit))
        ≡ some ks =
      rw (split_page ops offset) h in
    let (us, vs, eu, ev, joined) =
      select-append (map obj (take page_limit (drop offset ops)))
        (rest_at ops (offset + page_limit)) all in
    record { here = us; later = vs; here_selected = eu; later_selected = ev; joined = joined }
