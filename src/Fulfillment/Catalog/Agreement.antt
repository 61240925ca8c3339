-- ===== src/Fulfillment/Catalog/Agreement.antt =====
-- The two maps of the inventories of a SKU hold the same inventories.
use tiny_mirror.Prelude.{
  ◌≡◌, refl, ap, ◌∙◌, sym, subst, String, Bool, true, false, ◌&&◌, ◌||◌, List, [], ◌∷◌, map, filter,
  any, All, All-imp, flat_map, distinct, pos, ◌==◌, string_eq, int_eq, eq_iff, arith, inl, inr,
  Bool-cases, any-append, any-filter, any-flat_map, any-map, any-cong, any-ext, any-swap, any_and,
  any-distinct,
}
use tiny_mirror.Sort.{any-sort}
use tiny_mirror.Fulfillment.Transfer.{Transfer}
use tiny_mirror.Fulfillment.Paging.{InventorySource}
use tiny_mirror.Fulfillment.Catalog.{
  Listing, Variation, Catalog, holds, is_one_of, is_fulfillment, source_of, inventory_source_eq,
  source_before, sorted_set, ParentRow, parent_rows, main_rows, own_direct, parent_direct,
  variations_among, own_variations, parent_variations, inventory_map, own_joined, parent_joined,
  inventory_map_for,
}

-- The primary key of the listings.
abbrev pub IsKeyed : List Listing → Type 0
IsKeyed [] = Unit
IsKeyed (l ∷ ls) = All (λ m. (m.mlb_id == l.mlb_id) ≡ false) ls × IsKeyed ls

both : {a b c d : Bool} → a ≡ b → c ≡ d → a && c ≡ b && d
both {b = b} {c = c} e f = ap (λ x. x && c) e ∙ ap (λ x. b && x) f

at_most_one : (t q : Bool) → (t || false) && (q || false) ≡ t && q || false
at_most_one t q = ground arith

rearranged : (key t hv s p : Bool) → key && ((t && hv) && (s && p)) ≡ (t && (hv && s)) && (key && p)
rearranged key t hv s p = ground arith

and_last : (t hv key : Bool) → t && (hv && key) ≡ key && (t && hv)
and_last t hv key = ground arith

and_assoc : (a b c : Bool) → (a && b) && c ≡ a && (b && c)
and_assoc a b c = ground arith

and_pull : (t hv s r : Bool) → t && ((hv && s) && r) ≡ (t && (hv && s)) && r
and_pull t hv s r = ground arith

string_eq_sym : (s t : String) → (s == t) ≡ (t == s)
string_eq_sym s t = ground (arith, eq_iff s t, eq_iff t s)

module _ (t q : Listing → Bool) (id : String) where
  none_keyed :
      (u : Listing → Bool) (ls : List Listing)
      → All (λ m. (m.mlb_id == id) ≡ false) ls
      → any (λ m. m.mlb_id == id && u m) ls ≡ false
  none_keyed u [] h = refl
  none_keyed u (m ∷ ls) h = rw h.0 (none_keyed u ls h.1)

  -- Of listings with distinct ids, the one with an id is found once.
  found_once :
      (ls : List Listing)
      → IsKeyed ls
      → any (λ m. m.mlb_id == id && t m) ls && any (λ m. m.mlb_id == id && q m) ls
        ≡ any (λ m. m.mlb_id == id && (t m && q m)) ls
  found_once [] h = refl
  found_once (m ∷ ls) h = elim (Bool-cases (m.mlb_id == id)) [
    | inl here ↦
        let others : All (λ n. (n.mlb_id == id) ≡ false) ls =
          subst (λ i. All (λ n. (n.mlb_id == i) ≡ false) ls) ((eq_iff m.mlb_id id).0 here) h.0 in
        rw
          (
            here,
            none_keyed t ls others,
            none_keyed q ls others,
            none_keyed (λ n. t n && q n) ls others,
          )
          (at_most_one (t m) (q m))
    | inr there ↦ rw there (found_once ls h.1)
  ]

or_right : (a b : Bool) → b ≡ true → a || b ≡ true
or_right a b h = ground arith

and_false : (a : Bool) → a && false ≡ false
and_false a = ground arith

-- The ids of some rows are among them.
own_ids :
    (rows : List ParentRow)
    → All (λ r. any (λ i. i == r.listing.mlb_id) (map (λ r. r.listing.mlb_id) rows) ≡ true) rows
own_ids [] = tt
own_ids (r ∷ rows) = (
  ground (arith, eq_iff r.listing.mlb_id r.listing.mlb_id),
  All-imp rows (λ s among. or_right (r.listing.mlb_id == s.listing.mlb_id) _ among) (own_ids rows),
)

among_test :
    (ids : List String) (i j : String) (b : Bool)
    → any (λ k. k == i) ids ≡ true
    → any (λ k. k == j) ids && (j == i && b) ≡ (j == i && b)
among_test ids i j b among = elim (Bool-cases (j == i)) [
  | inl same ↦
      rw same
        (both (subst (λ k. any (λ n. n == k) ids ≡ true) (sym ((eq_iff j i).0 same)) among) refl)
  | inr other ↦ rw other (and_false (any (λ k. k == j) ids))
]

module _ (p : InventorySource → Bool) (catalog : Catalog) (skus : List String) (sku : String) where
  abbrev in_main : Listing → Bool
  in_main l = is_one_of l.sku skus && is_fulfillment l

  -- What both searches come to, for a variation and a listing.
  abbrev joined : Listing → Variation → Bool
  joined l v =
      l.mlb_id == v.mlb_id
      && ((in_main l && l.has_variations)
          && (holds l.sku sku && any p (source_of (pos 1) v.inventory_id)))

  of_variation :
      (v : Variation)
      → IsKeyed catalog.listings
      → any
            (λ i. i == v.mlb_id)
            (map (λ l. l.mlb_id) (filter (λ l. l.has_variations) (main_rows catalog skus)))
          && any p (
              flat_map
                (λ l. source_of (pos 1) v.inventory_id)
                (filter (λ l. l.mlb_id == v.mlb_id && holds l.sku sku) catalog.listings))
        ≡ any (λ l. joined l v) catalog.listings
  unfolding main_rows
  of_variation v keyed =
      let known =
        any-map (λ i. i == v.mlb_id) (λ l. l.mlb_id)
          (filter (λ l. l.has_variations) (main_rows catalog skus))
        ∙ any-filter _ _ (main_rows catalog skus)
        ∙ any-filter _ _ catalog.listings
        ∙ any-ext _ _ catalog.listings
            (λ l. and_last (in_main l) l.has_variations (l.mlb_id == v.mlb_id)) in
      let source =
        any-flat_map p _ (filter (λ l. l.mlb_id == v.mlb_id && holds l.sku sku) catalog.listings)
        ∙ any-filter _ _ catalog.listings
        ∙ any-ext _ _ catalog.listings (λ l.
          and_assoc (l.mlb_id == v.mlb_id) (holds l.sku sku)
            (any p (source_of (pos 1) v.inventory_id))) in
      both known source
      ∙ found_once (λ l. in_main l && l.has_variations)
          (λ l. holds l.sku sku && any p (source_of (pos 1) v.inventory_id)) v.mlb_id
          catalog.listings keyed

  of_listing :
      (l : Listing)
      → any (λ v. joined l v) catalog.variations
        ≡ in_main l
          && ((l.has_variations && holds l.sku sku)
              && any p (
                  flat_map
                    (λ v. source_of (pos 1) v.inventory_id)
                    (filter (λ v. v.mlb_id == l.mlb_id) catalog.variations)))
  of_listing l =
      any-ext _ _ catalog.variations (λ v.
        both (string_eq_sym l.mlb_id v.mlb_id) refl
        ∙ rearranged (v.mlb_id == l.mlb_id) (in_main l) l.has_variations (holds l.sku sku)
            (any p (source_of (pos 1) v.inventory_id)))
      ∙ any_and _ _ catalog.variations
      ∙ ap (λ b. (in_main l && (l.has_variations && holds l.sku sku)) && b)
          (sym (
            any-flat_map p _ (filter (λ v. v.mlb_id == l.mlb_id) catalog.variations)
            ∙ any-filter _ _ catalog.variations))
      ∙ sym (and_pull (in_main l) l.has_variations (holds l.sku sku) _)

  own_joined_lem :
      IsKeyed catalog.listings
      → any p (own_variations catalog skus sku) ≡ any p (own_joined catalog skus sku)
  unfolding own_variations own_joined main_rows
  own_joined_lem keyed =
      any-flat_map p _ (variations_among _ catalog)
      ∙ any-filter _ _ catalog.variations
      ∙ any-ext _ _ catalog.variations (λ v. of_variation v keyed)
      ∙ sym (any-swap joined catalog.listings catalog.variations)
      ∙ any-ext _ _ catalog.listings of_listing
      ∙ sym (
          any-flat_map p _
            (filter (λ l. l.has_variations && holds l.sku sku) (main_rows catalog skus))
          ∙ any-filter _ _ (main_rows catalog skus)
          ∙ any-filter _ _ catalog.listings)

  -- The variations of a row, of all variations or of those among some ids that have its id.
  abbrev of_row : List Variation → ParentRow → Bool
  of_row vs r = any p (
      flat_map (λ v. source_of r.mult v.inventory_id)
        (filter (λ v. v.mlb_id == r.listing.mlb_id) vs))

  of_row_among :
      (mlb_ids : List String) (r : ParentRow)
      → any (λ i. i == r.listing.mlb_id) mlb_ids ≡ true
      → of_row (variations_among mlb_ids catalog) r ≡ of_row catalog.variations r
  of_row_among mlb_ids r among =
      any-flat_map p _
        (filter (λ v. v.mlb_id == r.listing.mlb_id) (variations_among mlb_ids catalog))
      ∙ any-filter _ _ (variations_among mlb_ids catalog)
      ∙ any-filter _ _ catalog.variations
      ∙ any-ext _ _ catalog.variations (λ v. among_test mlb_ids r.listing.mlb_id v.mlb_id _ among)
      ∙ sym (
          any-flat_map p _ (filter (λ v. v.mlb_id == r.listing.mlb_id) catalog.variations)
          ∙ any-filter _ _ catalog.variations)

  parent_joined_lem :
      (rows : List ParentRow)
      → any p (parent_variations catalog rows sku) ≡ any p (parent_joined catalog rows sku)
  unfolding parent_variations parent_joined
  parent_joined_lem rows =
      let mine = filter (λ r. r.listing.has_variations) rows in
      let ids = map (λ r. r.listing.mlb_id) mine in
      any-flat_map p _ (filter (λ r. r.base_sku == sku) mine)
      ∙ any-filter _ _ mine
      ∙ any-cong _ _ mine
          (All-imp mine (λ r among. both refl (of_row_among ids r among)) (own_ids mine))
      ∙ any-filter _ _ rows
      ∙ any-ext _ _ rows (λ r.
        sym (and_assoc r.listing.has_variations (r.base_sku == sku) (of_row catalog.variations r)))
      ∙ sym (
          any-flat_map p _ (filter (λ r. r.listing.has_variations && r.base_sku == sku) rows)
          ∙ any-filter _ _ rows)

both_or : {a b c d : Bool} → a ≡ b → c ≡ d → a || c ≡ b || d
both_or {b = b} {c = c} e f = ap (λ x. x || c) e ∙ ap (λ x. b || x) f

source_eq : (s t : InventorySource) → (s == t) ≡ true → s ≡ t
source_eq s t h = ground (arith, eq_iff s.inventory_id t.inventory_id)

any-sorted_set :
    (p : InventorySource → Bool) (sources : List InventorySource)
    → any p (sorted_set sources) ≡ any p sources
unfolding sorted_set
any-sorted_set p sources =
    any-sort p source_before (distinct sources) ∙ any-distinct p sources source_eq

-- Where no two listings have the same id, the scan's map and the query's give a SKU the same
-- inventories with the same multipliers: whatever is asked of a pair, one has a pair that passes
-- exactly when the other has.
pub inventory_map-inventory_map_for :
    (catalog : Catalog) (skus : List String) (table : List Transfer) (sku : String)
    → IsKeyed catalog.listings
    → (p : InventorySource → Bool)
    → any p (inventory_map catalog skus table sku)
      ≡ any p (inventory_map_for catalog skus table sku)
unfolding inventory_map inventory_map_for
inventory_map-inventory_map_for catalog skus table sku keyed p =
    let rows = parent_rows catalog skus table in
    any-sorted_set p _
    ∙ any-append p (own_direct catalog skus sku) _
    ∙ both_or refl (
        any-append p (own_variations catalog skus sku) _
        ∙ both_or (own_joined_lem p catalog skus sku keyed) (
            any-append p (parent_direct rows sku) _
            ∙ both_or refl (parent_joined_lem p catalog skus sku rows)
            ∙ sym (any-append p (parent_direct rows sku) _))
        ∙ sym (any-append p (own_joined catalog skus sku) _))
    ∙ sym (any-append p (own_direct catalog skus sku) _)
    ∙ sym (any-sorted_set p _)
