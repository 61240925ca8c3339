-- ===== src/Fulfillment/Paging/Complete.antt =====
-- The loop over the pages ends on any service that reports bounded totals, and against one that
-- serves the pages of a list it returns what counts of the whole list, in order.
use tiny_mirror.Prelude.{
  ℕ, zero, suc, ◌+◌, ◌*◌, ◌≤◌, ◌≡◌, ◌≢◌, ap, ◌∙◌, sym, true, false, Option, none, some, List, [],
  ◌++◌, map, arith, pos, ◌≤ℤ◌, leb_ℤ, length, take, drop, nat_eq, Bool-cases, Option-cases, inl,
  inr,
}
use mathlib.Core.List.{append_assoc, append-nil}
use tiny_mirror.Json.{obj, Fields}
use tiny_mirror.Fulfillment.Paging.{
  done, raised, unfinished, select, Page, page_limit, is_last_page, page_at, fetch_pages,
  fetch_chunk_inbound,
}
use tiny_mirror.Fulfillment.Paging.Serve.{
  serve, rest_at, page_of, read_page-serve, last_page_rest, select-nil, IsSplit, select-IsSplit,
}

module _ (list_operations : ℕ → Option Fields) where
  fetch_pages_raises :
      (fuel offset : ℕ) (out : List Fields)
      → page_at list_operations offset ≡ none
      → fetch_pages list_operations (suc fuel) offset out ≡ raised
  unfolding fetch_pages
  fetch_pages_raises fuel offset out e = rw (e, fetch_pages)

  fetch_pages_last :
      (fuel offset : ℕ) (out : List Fields) (page : Page)
      → page_at list_operations offset ≡ some page
      → is_last_page offset page ≡ true
      → fetch_pages list_operations (suc fuel) offset out ≡ done (out ++ page.kept)
  unfolding fetch_pages
  fetch_pages_last fuel offset out page e last = rw (e, fetch_pages) (rw last)

  fetch_pages_next :
      (fuel offset : ℕ) (out : List Fields) (page : Page)
      → page_at list_operations offset ≡ some page
      → is_last_page offset page ≡ false
      → fetch_pages list_operations (suc fuel) offset out
        ≡ fetch_pages list_operations fuel (offset + page_limit) (out ++ page.kept)
  unfolding fetch_pages
  fetch_pages_next fuel offset out page e more = rw (e, fetch_pages) (rw more)

  module _ (bound : ℕ)
      (h : (offset : ℕ) (page : Page)
        → page_at list_operations offset ≡ some page
        → page.total ≤ℤ pos bound) where
    bounded_is_last :
        (offset : ℕ) (page : Page)
        → bound ≤ offset
        → page_at list_operations offset ≡ some page
        → is_last_page offset page ≡ true
    unfolding is_last_page
    bounded_is_last offset page k e =
        let low : leb_ℤ page.total (pos (offset + page.count)) ≡ true =
          ground (arith, h offset page e) in
        rw low

    fetch_pages_ends :
        (fuel offset : ℕ) (out : List Fields)
        → bound ≤ offset + fuel * page_limit
        → fetch_pages list_operations (suc fuel) offset out ≢ unfinished
    fetch_pages_ends zero offset out k u = elim (Option-cases (page_at list_operations offset)) [
      | inl e ↦ cc (fetch_pages_raises 0 offset out e)
      | inr (page, e) ↦
          cc (fetch_pages_last 0 offset out page e (bounded_is_last offset page (omega arith) e))
    ]
    fetch_pages_ends (suc fuel) offset out k u =
        elim (Option-cases (page_at list_operations offset)) [
          | inl e ↦ cc (fetch_pages_raises (suc fuel) offset out e)
          | inr (page, e) ↦ elim (Bool-cases (is_last_page offset page)) [
            | inl last ↦ cc (fetch_pages_last (suc fuel) offset out page e last)
            | inr more ↦
                fetch_pages_ends fuel (offset + page_limit) (out ++ page.kept) (omega arith)
                  (sym (fetch_pages_next (suc fuel) offset out page e more) ∙ u)
          ]
        ]

module _ (ops : List Fields) (list_operations : ℕ → Option Fields)
    (honest : (offset : ℕ) → list_operations offset ≡ some (serve ops offset)) where
  page_at-serve :
      (offset : ℕ) {us : List Fields}
      → select (map obj (take page_limit (drop offset ops))) ≡ some us
      → page_at list_operations offset ≡ some (page_of ops offset us)
  unfolding page_at
  page_at-serve offset e = rw (honest offset) (read_page-serve ops offset e)

  fetch_last :
      (fuel offset : ℕ) (out : List Fields) {ks : List Fields} (s : IsSplit ops offset ks)
      → is_last_page offset (page_of ops offset s.here) ≡ true
      → fetch_pages list_operations (suc fuel) offset out ≡ done (out ++ ks)
  unfolding page_of
  fetch_last fuel offset out s last =
      let empty = select-nil _ (last_page_rest ops offset s.here last) s.later_selected in
      let same = sym (append-nil s.here) ∙ ap (λ r. s.here ++ r) (sym empty) ∙ s.joined in
      fetch_pages_last list_operations fuel offset out (page_of ops offset s.here)
        (page_at-serve offset s.here_selected) last
      ∙ ap (λ r. done (out ++ r)) same

  at_end :
      (offset : ℕ) (us : List Fields)
      → length ops ≤ offset
      → is_last_page offset (page_of ops offset us) ≡ true
  unfolding is_last_page page_of
  at_end offset us h = ground arith

  fetch_pages_complete :
      (fuel offset : ℕ) (out : List Fields) {ks : List Fields}
      → select (rest_at ops offset) ≡ some ks
      → length ops ≤ offset + fuel * page_limit
      → fetch_pages list_operations (suc fuel) offset out ≡ done (out ++ ks)
  unfolding page_of
  fetch_pages_complete zero offset out h k =
      let s = select-IsSplit ops offset h in
      fetch_last 0 offset out s (at_end offset s.here (omega arith))
  fetch_pages_complete (suc fuel) offset out h k =
      let s = select-IsSplit ops offset h in
      let page = page_of ops offset s.here in
      elim (Bool-cases (is_last_page offset page)) [
        | inl last ↦ fetch_last (suc fuel) offset out s last
        | inr more ↦
            fetch_pages_next list_operations (suc fuel) offset out page
              (page_at-serve offset s.here_selected) more
            ∙ fetch_pages_complete fuel (offset + page_limit) (out ++ page.kept) s.later_selected
                (omega arith)
            ∙ ap (λ r. done r)
                (append_assoc out s.here s.later ∙ ap (λ (r : List Fields). out ++ r) s.joined)
      ]

-- Against a service that serves a list of operations in pages of 50, with enough fuel for the pages,
-- the loop returns what counts of the whole list, in its order: no operation is lost or fetched twice
-- at a page's edge.
pub fetch_chunk_inbound_complete :
    (ops : List Fields) (list_operations : ℕ → Option Fields) (fuel : ℕ) {ks : List Fields}
    → ((offset : ℕ) → list_operations offset ≡ some (serve ops offset))
    → length ops ≤ fuel * page_limit
    → select (map obj ops) ≡ some ks
    → fetch_chunk_inbound list_operations (suc fuel) ≡ done ks
unfolding fetch_chunk_inbound
fetch_chunk_inbound_complete ops list_operations fuel honest k h =
    fetch_pages_complete ops list_operations honest fuel 0 [] h (omega arith)

-- Whatever the service answers, if it never reports a total above a bound, the loop ends within one
-- page more than the bound fills: it returns, or it raises.
pub fetch_chunk_inbound_ends :
    (list_operations : ℕ → Option Fields) (bound fuel : ℕ)
    → ((offset : ℕ) (page : Page)
        → page_at list_operations offset ≡ some page
        → page.total ≤ℤ pos bound)
    → bound ≤ fuel * page_limit
    → fetch_chunk_inbound list_operations (suc fuel) ≢ unfinished
unfolding fetch_chunk_inbound
fetch_chunk_inbound_ends list_operations bound fuel h k =
    fetch_pages_ends list_operations bound h fuel 0 [] (omega arith)
