-- ===== src/Sales/Repeat.antt =====
-- A second refresh of a period changes nothing.
use tiny_mirror.Prelude.{
  ℕ, ◌≡◌, refl, ap, ◌∙◌, String, Bool, true, false, not, List, [], ◌∷◌, ◌++◌, ℤ, any, filter, ◌==◌,
  nat_eq, string_eq, All, All-imp, All-filter, All-Unit, Bool-cases, inl, inr,
}
use tiny_mirror.Sales.{
  Item, Order, Component, BucketKey, Bucket, same_key, text_or_empty, add, add_components, add_item,
  add_items, accumulate, channel_of, in_period, delete_buckets_for_period, upsert_buckets_batch,
  counted_orders, refresh_buckets, expansion, situation_cancelled,
}

module _ (P : ℕ → Type 0) where
  abbrev IsDated : Bucket → Type 0
  IsDated b = P b.key.bucket_date

  add-All :
      (key : BucketKey) (quantity revenue : ℤ) (bs : List Bucket)
      → P key.bucket_date
      → All IsDated bs
      → All IsDated (add key quantity revenue bs)
  unfolding add
  add-All key quantity revenue [] p h = (p, tt)
  add-All key quantity revenue (b ∷ bs) p h = elim (Bool-cases (same_key b.key key)) [
    | inl same ↦ rw same (h.0, h.1)
    | inr other ↦ rw other (h.0, add-All key quantity revenue bs p h.1)
  ]

  add_components-All :
      (date : ℕ) (channel kit : String) (quantity : ℤ) (cs : List Component) (bs : List Bucket)
      → P date
      → All IsDated bs
      → All IsDated (add_components date channel kit quantity cs bs)
  unfolding add_components
  add_components-All date channel kit quantity [] bs p h = h
  add_components-All date channel kit quantity (c ∷ cs) bs p h =
      elim (Bool-cases (text_or_empty c.component_sku == "")) [
        | inl empty ↦ rw empty (add_components-All date channel kit quantity cs bs p h)
        | inr named ↦
            rw named (add_components-All date channel kit quantity cs _ p (add-All _ _ _ bs p h))
      ]

  module _ (is_kit : ℕ → Bool) (components_of : ℕ → List Component) (is_blank : String → Bool) where
    add_item-All :
        (date : ℕ) (channel : String) (item : Item) (bs : List Bucket)
        → P date
        → All IsDated bs
        → All IsDated (add_item is_kit components_of is_blank date channel item bs)
    unfolding add_item
    add_item-All date channel item bs p h =
        elim (Bool-cases (text_or_empty item.product_sku == "")) [
          | inl empty ↦ rw empty h
          | inr named ↦ rw named (
              add_components-All date channel _ _
                (expansion is_kit components_of is_blank item.product_tiny_id) _ p
                (add-All _ _ _ bs p h))
        ]

    add_items-All :
        (date : ℕ) (channel : String) (items : List Item) (bs : List Bucket)
        → P date
        → All IsDated bs
        → All IsDated (add_items is_kit components_of is_blank date channel items bs)
    unfolding add_items
    add_items-All date channel [] bs p h = h
    add_items-All date channel (item ∷ items) bs p h =
        add_items-All date channel items _ p (add_item-All date channel item bs p h)

    accumulate-All :
        (orders : List Order) (bs : List Bucket)
        → All (λ o. P o.order_date) orders
        → All IsDated bs
        → All IsDated (accumulate is_kit components_of is_blank orders bs)
    unfolding accumulate
    accumulate-All [] bs p h = h
    accumulate-All (o ∷ orders) bs p h =
        accumulate-All orders _ p.1
          (add_items-All o.order_date (channel_of is_kit components_of is_blank o) o.items bs p.0 h)

module _ {A : Type 0} (p : A → Bool) where
  filter-filter : (xs : List A) → filter p (filter p xs) ≡ filter p xs
  filter-filter [] = refl
  filter-filter (x ∷ xs) = elim (Bool-cases (p x)) [
    | inl kept ↦ rw kept (rw kept (ap (λ r. x ∷ r) (filter-filter xs)))
    | inr left ↦ rw left (filter-filter xs)
  ]

  filter-append_left : (xs : List A) (x : A) → p x ≡ false → filter p (xs ++ x ∷ []) ≡ filter p xs
  filter-append_left [] x h = rw h
  filter-append_left (y ∷ xs) x h = rw (filter-append_left xs x h)

counted-in_period :
    (date_from date_to : ℕ) (orders : List Order)
    → All
        (λ o. in_period date_from date_to o.order_date ≡ true)
        (counted_orders date_from date_to orders)
counted-in_period date_from date_to orders =
    All-imp _ (λ o kept. kept.0)
      (All-filter _ (λ o. not (o.situation == situation_cancelled)) _
        (All-imp _ (λ o kept. kept.1)
          (All-filter _ (λ o. in_period date_from date_to o.order_date) orders (All-Unit orders))))

upsert_deleted :
    (date_from date_to : ℕ) (bs table : List Bucket)
    → All (λ b. in_period date_from date_to b.key.bucket_date ≡ true) bs
    → delete_buckets_for_period date_from date_to (upsert_buckets_batch bs table)
      ≡ delete_buckets_for_period date_from date_to table
unfolding upsert_buckets_batch
upsert_deleted date_from date_to [] table h = refl
upsert_deleted date_from date_to (b ∷ bs) table h =
    elim (Bool-cases (any (λ r. same_key r.key b.key) table)) [
      | inl taken ↦ rw taken (upsert_deleted date_from date_to bs table h.1)
      | inr free ↦ rw free (
          upsert_deleted date_from date_to bs (table ++ b ∷ []) h.1
          ∙ filter-append_left _ table b (ap not h.0))
    ]

module _ (is_kit : ℕ → Bool) (components_of : ℕ → List Component) (is_blank : String → Bool) where
  -- A refresh of a period that has just been refreshed, from the same orders, leaves every row as it is.
  pub refresh_buckets-refresh_buckets :
      (date_from date_to : ℕ) (orders : List Order) (table : List Bucket)
      → let refresh = refresh_buckets is_kit components_of is_blank date_from date_to orders in
        refresh (refresh table) ≡ refresh table
  unfolding refresh_buckets
  refresh_buckets-refresh_buckets date_from date_to orders table =
      let standing = counted_orders date_from date_to orders in
      let bs = accumulate is_kit components_of is_blank standing [] in
      let dated =
        accumulate-All (λ d. in_period date_from date_to d ≡ true) is_kit components_of is_blank
          standing [] (counted-in_period date_from date_to orders) tt in
      ap (upsert_buckets_batch bs)
        (upsert_deleted date_from date_to bs _ dated ∙ filter-filter _ table)
