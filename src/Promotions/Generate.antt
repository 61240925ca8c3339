-- ===== src/Promotions/Generate.antt =====
-- `generate_pending_decisions` and `reconcile_started_promos`
-- (src/tiny_mirror/services/ml_promotion_service.py): the passes that bring ml_promo_decisions up to
-- what Mercado Livre lists. The counts that they return are left out.
pub mod Renewal
use Prim.Native.String.{◌++◌ as append}
use tiny_mirror.Prelude.{
  ℕ, zero, suc, String, Bool, true, false, ◌&&◌, Option, none, some, List, [], ◌∷◌, map, filter,
  take, distinct, ℤ, pos, ltb_ℤ, ◌==◌, nat_eq, int_eq, string_eq, if◌then◌else◌,
}
use tiny_mirror.Json.{codes}
use tiny_mirror.Sort.{sort, codes_before}
use tiny_mirror.Fulfillment.Transfer.{Time}
use tiny_mirror.Fulfillment.Catalog.{Listing, holds}
use tiny_mirror.Caps.{CostsSnapshot}
use tiny_mirror.Caps.Recompute.{CapRow}
use tiny_mirror.Promotions.{Offer}
use tiny_mirror.Promotions.Score.{Constraint}
use tiny_mirror.Promotions.Decide.{nonzero}
use tiny_mirror.Promotions.Enumerate.{Entry, enumerate_activations_for_item}
use tiny_mirror.Promotions.Decisions.{
  Row, DecisionKind, DecisionStatus, pending, ignored, would_activate, already_active,
  insert_if_absent, upsert_started, expire_disappeared_started,
}
use tiny_mirror.Promotions.Stale.{snapshot_of, cap_of}

-- The table and the next value of its identity column.
pub record Decided : Type 0 where
  pub rows : List Row
  pub next_id : ℕ

-- The first n characters.
abbrev pub prefix : ℕ → String → String
prefix zero text = ""
prefix (suc n) String.[] = ""
prefix (suc n) (String.◌∷◌ c text) = String.◌∷◌ c (prefix n text)

abbrev pub constraint_text : Constraint → String
constraint_text Constraint.fixed_percentage = "fixed_percentage"
constraint_text Constraint.lightning_ceiling = "lightning_ceiling"
constraint_text Constraint.min_discounted_price = "min_discounted_price"
constraint_text Constraint.suggested_within_interval = "suggested_within_interval"
constraint_text Constraint.suggested_discounted_price = "suggested_discounted_price"
constraint_text Constraint.ml_priced = "ml_priced"
constraint_text Constraint.seller_pct_only = "seller_pct_only"
constraint_text Constraint.price_only = "price_only"
constraint_text Constraint.started = "started"

-- `(promo_id or "CREATE-<constraint>")[:80]`
unfoldable pub promo_key_of : Option String → Constraint → String
promo_key_of none constraint = prefix 80 (append "CREATE-" (constraint_text constraint))
promo_key_of (some id) constraint =
    if id == "" then prefix 80 (append "CREATE-" (constraint_text constraint)) else prefix 80 id

abbrev pub or_unknown : Option String → String
or_unknown none = "?"
or_unknown (some type) = if type == "" then "?" else type

-- Only what may be activated waits for the operator.
abbrev pub status_of_kind : DecisionKind → DecisionStatus
status_of_kind would_activate = pending
status_of_kind _ = ignored

abbrev pub positive_price : Option ℤ → Option ℕ
positive_price (some (pos (suc n))) = some (suc n)
positive_price _ = none

abbrev pub price_in_snapshot : Option CostsSnapshot → Option ℕ
price_in_snapshot none = none
price_in_snapshot (some s) = positive_price s.list_price

abbrev pub first_original : List Offer → Option ℕ
first_original [] = none
first_original (p ∷ promos) =
    let rest = first_original promos in
    elim p.original_price [ none ↦ rest | some zero ↦ rest | some (suc n) ↦ some (suc n) ]

unfoldable pub list_price_of : Option CostsSnapshot → List Offer → Option ℕ
list_price_of snap promos = elim (price_in_snapshot snap) [
  | none ↦ first_original promos
  | some price ↦ some price
]

-- `parse_iso` is `_parse_iso_dt`, and `now` the clock.
module _ (upper lower : String → String) (parse_iso : Option String → Option Time)
    (now : Time) where
  -- The columns that the passes give; the others are set by the operation that inserts.
  abbrev pub row_of_offer : String → String → String → Option ℕ → Offer → Row
  row_of_offer mlb_id sku key list_price p = record {
    id = 0;
    mlb_id = mlb_id;
    sku = sku;
    promo_key = key;
    promo_id = p.id;
    promo_type = or_unknown p.type;
    promo_name = p.name;
    decision_kind = already_active;
    target_price = none;
    target_total_pct = none;
    target_seller_pct = none;
    meli_percentage = none;
    constraint_used = none;
    list_price = list_price;
    cap_pct = none;
    floor_price = none;
    min_price = none;
    max_price = none;
    stock_min = none;
    stock_max = none;
    stock_chosen = none;
    status = ignored;
    promo_start_date = parse_iso p.start_date;
    promo_finish_date = parse_iso p.finish_date;
    created_at = now;
    decided_at = none;
    decided_by = none;
    notes = none;
    expired_at = none;
    expired_reason = none;
    ml_apply_status = none;
    ml_apply_status_code = none;
    ml_applied_at = none;
  }

  unfoldable pub row_of_entry : String → String → ℕ → CapRow → Entry → Row
  unfolding promo_key_of
  row_of_entry mlb_id sku list_price c e =
      record (row_of_offer mlb_id sku (promo_key_of e.offer.id e.constraint) (some list_price)
        e.offer) {
          decision_kind = e.status;
          target_price = e.target_price;
          target_total_pct = e.target_total_pct;
          target_seller_pct = e.target_seller_pct;
          meli_percentage = some e.meli_percentage;
          constraint_used = some e.constraint;
          cap_pct = some c.max_seller_share_pct;
          floor_price = c.margin_floor_price;
          min_price = e.min_price;
          max_price = e.max_price;
          stock_min = e.stock_min;
          stock_max = e.stock_max;
          status = status_of_kind e.status;
        }

  abbrev pub is_started_entry : Entry → Bool
  is_started_entry e = elim e.constraint [ Constraint.started ↦ true | _ ↦ false ]

  -- A row that is there is brought up to a promotion that runs.
  abbrev pub restarted : Row → Entry → Decided → Decided
  restarted new e t = elim e.target_price [
    | none ↦ t
    | some price ↦
        if is_started_entry e && ltb_ℤ (pos 0) price
        then record {
          rows = upsert_started t.next_id now price new t.rows;
          next_id = suc t.next_id;
        }
        else t
  ]

  unfoldable pub store_entry : String → String → ℕ → CapRow → Entry → Decided → Decided
  unfolding row_of_entry insert_if_absent upsert_started
  store_entry mlb_id sku list_price c e t =
      let new = row_of_entry mlb_id sku list_price c e in
      let (rows, inserted) = insert_if_absent t.next_id now new t.rows in
      let stored : Decided = record { rows = rows; next_id = suc t.next_id } in
      if inserted then stored else restarted new e stored

  unfoldable pub store_entries : String → String → ℕ → CapRow → List Entry → Decided → Decided
  unfolding store_entry
  store_entries mlb_id sku list_price c [] t = t
  store_entries mlb_id sku list_price c (e ∷ entries) t =
      store_entries mlb_id sku list_price c entries (store_entry mlb_id sku list_price c e t)

  unfoldable pub forget_ended : String → List String → Decided → Decided
  unfolding expire_disappeared_started
  forget_ended mlb_id seen t = record t { rows = expire_disappeared_started now mlb_id seen t.rows }

  abbrev pub started_keys : List Entry → List String
  started_keys entries =
      map (λ e. promo_key_of e.offer.id e.constraint) (filter is_started_entry entries)

  unfoldable pub generate_priced :
      String → String → CapRow → List String → List Offer → Option ℕ → Decided → Decided
  unfolding store_entries forget_ended enumerate_activations_for_item promo_key_of
  generate_priced mlb_id sku c excluded promos none t = t
  generate_priced mlb_id sku c excluded promos (some list_price) t =
      let entries =
        enumerate_activations_for_item upper lower promos c.max_seller_share_pct
          (nonzero c.margin_floor_price) (some list_price) excluded in
      forget_ended mlb_id (started_keys entries) (store_entries mlb_id sku list_price c entries t)

  -- `fetch` is `fetch_eligible_promos`, none where it raises; `excluded` reads the column of the cap
  -- with the types that it leaves out; `family` strips the prefix of a kit.
  module _ (fetch : String → Option (List Offer)) (excluded : String → List String)
      (family : String → String) (listings : List Listing) (snapshots : List CostsSnapshot) where
    unfoldable pub generate_for_mlb : String → String → Option CapRow → Decided → Decided
    unfolding generate_priced list_price_of snapshot_of
    generate_for_mlb sku mlb_id none t = t
    generate_for_mlb sku mlb_id (some c) t =
        if c.max_seller_share_pct == pos 0 then t else elim (fetch mlb_id) [
          | none ↦ t
          | some promos ↦
              generate_priced mlb_id sku c (excluded mlb_id) promos
                (list_price_of (snapshot_of snapshots mlb_id) promos) t
        ]

    abbrev pub active_ids : (Listing → Bool) → List String
    active_ids p = map (λ l. l.mlb_id) (filter (λ l. p l && holds l.status "active") listings)

    abbrev pub of_family : String → Listing → Bool
    of_family sku l = elim l.sku [ none ↦ false | some s ↦ family s == family sku ]

    abbrev pub or_if_empty : List String → List String → List String
    or_if_empty [] others = others
    or_if_empty (x ∷ xs) others = x ∷ xs

    abbrev pub get_active_mlb_ids_for_sku : String → List String
    get_active_mlb_ids_for_sku sku =
        or_if_empty (active_ids (λ l. holds l.sku sku)) (active_ids (of_family sku))

    abbrev pub generate_for_ids : List CapRow → String → List String → Decided → Decided
    generate_for_ids caps sku [] t = t
    generate_for_ids caps sku (mlb_id ∷ ids) t =
        generate_for_ids caps sku ids (generate_for_mlb sku mlb_id (cap_of caps mlb_id) t)

    abbrev pub generate_for_skus : List CapRow → List String → Decided → Decided
    generate_for_skus caps [] t = t
    generate_for_skus caps (sku ∷ skus) t =
        generate_for_skus caps skus (generate_for_ids caps sku (get_active_mlb_ids_for_sku sku) t)

    -- The first 2000 caps, by SKU and listing; their SKUs in order. No call limits the SKUs.
    unfoldable pub generate_pending_decisions : List CapRow → Decided → Decided
    unfolding generate_for_mlb cap_of
    generate_pending_decisions caps t =
        let by_mlb = sort (λ c d. codes_before (codes c.mlb_id) (codes d.mlb_id)) caps in
        let all_caps = take 2000 (sort (λ c d. codes_before (codes c.sku) (codes d.sku)) by_mlb) in
        generate_for_skus all_caps
          (sort (λ s r. codes_before (codes s) (codes r)) (distinct (map (λ c. c.sku) all_caps))) t
