-- ===== src/Sales/Revenue.antt =====
-- The revenue of the buckets is that of the lines of the orders.
use tiny_mirror.Prelude.{
  ℕ, ◌≡◌, refl, ap, ◌∙◌, String, Bool, List, [], ◌∷◌, ℤ, pos, ◌+ℤ◌, ◌*ℤ◌, int_laws, parts_of_eq,
  Bool-cases, inl, inr, ◌==◌, string_eq, if◌then◌else◌,
}
use tiny_mirror.Sales.{
  Item, Order, Component, BucketKey, Bucket, same_key, to_decimal, text_or_empty, add,
  add_components, add_item, add_items, accumulate, expansion,
}

abbrev pub sum_revenue : List Bucket → ℤ
sum_revenue [] = pos 0
sum_revenue (b ∷ bs) = b.total_revenue +ℤ sum_revenue bs

-- A line without a SKU is not counted.
abbrev pub item_revenue : Item → ℤ
item_revenue item =
    if text_or_empty item.product_sku == ""
    then pos 0
    else to_decimal item.quantity *ℤ to_decimal item.unit_value

abbrev pub sum_items : List Item → ℤ
sum_items [] = pos 0
sum_items (item ∷ items) = item_revenue item +ℤ sum_items items

abbrev pub sum_orders : List Order → ℤ
sum_orders [] = pos 0
sum_orders (order ∷ orders) = sum_items order.items +ℤ sum_orders orders

+ℤ_assoc : (a b c : ℤ) → (a +ℤ b) +ℤ c ≡ a +ℤ (b +ℤ c)
+ℤ_assoc a b c = omega int_laws

+ℤ_zero : (a : ℤ) → a +ℤ pos 0 ≡ a
+ℤ_zero a = omega int_laws

add-revenue :
    (key : BucketKey) (quantity revenue : ℤ) (bs : List Bucket)
    → sum_revenue (add key quantity revenue bs) ≡ sum_revenue bs +ℤ revenue
unfolding add
add-revenue key quantity revenue [] = omega int_laws
add-revenue key quantity revenue (b ∷ bs) = elim (Bool-cases (same_key b.key key)) [
  | inl same ↦ rw same (omega int_laws)
  | inr other ↦ rw (other, add-revenue key quantity revenue bs) (omega int_laws)
]

add_components-revenue :
    (date : ℕ) (channel kit : String) (quantity : ℤ) (cs : List Component) (bs : List Bucket)
    → sum_revenue (add_components date channel kit quantity cs bs) ≡ sum_revenue bs
unfolding add_components
add_components-revenue date channel kit quantity [] bs = refl
add_components-revenue date channel kit quantity (c ∷ cs) bs =
    elim (Bool-cases (text_or_empty c.component_sku == "")) [
      | inl empty ↦ rw empty (add_components-revenue date channel kit quantity cs bs)
      | inr named ↦ rw named (
          add_components-revenue date channel kit quantity cs _
          ∙ add-revenue _ _ (pos 0) bs
          ∙ +ℤ_zero _)
    ]

module _ (is_kit : ℕ → Bool) (components_of : ℕ → List Component) (is_blank : String → Bool) where
  add_item-revenue :
      (date : ℕ) (channel : String) (item : Item) (bs : List Bucket)
      → sum_revenue (add_item is_kit components_of is_blank date channel item bs)
        ≡ sum_revenue bs +ℤ item_revenue item
  unfolding add_item
  add_item-revenue date channel item bs = elim (Bool-cases (text_or_empty item.product_sku == "")) [
    | inl empty ↦ rw empty (omega int_laws)
    | inr named ↦ rw named (
        add_components-revenue date channel _ _
          (expansion is_kit components_of is_blank item.product_tiny_id) _
        ∙ add-revenue _ _ _ bs)
  ]

  add_items-revenue :
      (date : ℕ) (channel : String) (items : List Item) (bs : List Bucket)
      → sum_revenue (add_items is_kit components_of is_blank date channel items bs)
        ≡ sum_revenue bs +ℤ sum_items items
  unfolding add_items
  add_items-revenue date channel [] bs = omega int_laws
  add_items-revenue date channel (item ∷ items) bs =
      add_items-revenue date channel items _
      ∙ ap (λ r. r +ℤ sum_items items) (add_item-revenue date channel item bs)
      ∙ +ℤ_assoc (sum_revenue bs) (item_revenue item) (sum_items items)

  accumulate-revenue :
      (orders : List Order) (bs : List Bucket)
      → sum_revenue (accumulate is_kit components_of is_blank orders bs)
        ≡ sum_revenue bs +ℤ sum_orders orders
  unfolding accumulate
  accumulate-revenue [] bs = omega int_laws
  accumulate-revenue (o ∷ orders) bs =
      accumulate-revenue orders _
      ∙ ap (λ r. r +ℤ sum_orders orders) (add_items-revenue o.order_date _ o.items bs)
      ∙ +ℤ_assoc (sum_revenue bs) (sum_items o.items) (sum_orders orders)

  -- The revenues of all buckets add up to quantity times value over the lines of the orders that have
  -- a SKU: the buckets of a kit's components add nothing.
  pub accumulate_conserves :
      (orders : List Order)
      → sum_revenue (accumulate is_kit components_of is_blank orders []) ≡ sum_orders orders
  accumulate_conserves orders =
      let e = parts_of_eq (accumulate-revenue orders []) in omega (int_laws, e.0, e.1)
