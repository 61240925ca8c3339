-- ===== src/Sales.antt =====
-- `refresh_buckets` (services/sale_bucket_service.py) and the writes of
-- infrastructure/repositories/sale_bucket_repository.py: what was sold, by day, SKU and channel, with
-- a kit's components counted too. A quantity and a value are integers, in the smallest unit of their
-- columns; a product of two is in the product of their units. A date is its number of days. The
-- time of a computation (`computed_at`) is left out.
pub mod Revenue
pub mod Repeat
use tiny_mirror.Prelude.{
  ℕ, suc, ◌+◌, String, Bool, true, false, not, ◌&&◌, ◌||◌, Option, none, some, List, [], ◌∷◌, ◌++◌,
  ℤ, pos, ◌+ℤ◌, ◌*ℤ◌, any, filter, leb, ◌==◌, nat_eq, string_eq, if◌then◌else◌,
}

pub record Item : Type 0 where
  pub product_sku : Option String
  pub product_tiny_id : Option ℕ
  pub quantity : Option ℤ
  pub unit_value : Option ℤ

pub record Order : Type 0 where
  pub situation : ℕ
  pub ecommerce_name : Option String
  pub order_date : ℕ
  pub items : List Item

pub record Component : Type 0 where
  pub component_sku : Option String
  pub quantity : Option ℤ

pub record BucketKey : Type 0 where
  pub bucket_date : ℕ
  pub sku : String
  pub ecommerce_name : String
  pub is_kit_expansion : Bool
  pub source_kit_sku : Option String

pub record Bucket : Type 0 where
  pub key : BucketKey
  pub quantity_sold : ℤ
  pub total_revenue : ℤ
  pub order_count : ℕ

abbrev pub situation_cancelled : ℕ
situation_cancelled = 2

abbrev pub same_flag : Bool → Bool → Bool
same_flag true b = b
same_flag false b = not b

abbrev pub same_source : Option String → Option String → Bool
same_source none none = true
same_source (some s) (some t) = s == t
same_source _ _ = false

abbrev pub same_key : BucketKey → BucketKey → Bool
same_key a b =
    a.bucket_date == b.bucket_date
    && a.sku == b.sku
    && a.ecommerce_name == b.ecommerce_name
    && same_flag a.is_kit_expansion b.is_kit_expansion
    && same_source a.source_kit_sku b.source_kit_sku

abbrev pub to_decimal : Option ℤ → ℤ
to_decimal none = pos 0
to_decimal (some z) = z

-- `s or ""`
abbrev pub text_or_empty : Option String → String
text_or_empty none = ""
text_or_empty (some s) = s

-- One sale added to the accumulator, which starts a bucket at zero.
unfoldable pub add : BucketKey → ℤ → ℤ → List Bucket → List Bucket
add key quantity revenue [] =
    record {
      key = key;
      quantity_sold = pos 0 +ℤ quantity;
      total_revenue = pos 0 +ℤ revenue;
      order_count = 1;
    }
    ∷ []
add key quantity revenue (b ∷ bs) =
    let rest = add key quantity revenue bs in
    if same_key b.key key
    then record b {
      quantity_sold = b.quantity_sold +ℤ quantity;
      total_revenue = b.total_revenue +ℤ revenue;
      order_count = suc b.order_count;
    }
      ∷ bs
    else b ∷ rest

abbrev pub direct_key : ℕ → String → String → BucketKey
direct_key date sku channel = record {
  bucket_date = date;
  sku = sku;
  ecommerce_name = channel;
  is_kit_expansion = false;
  source_kit_sku = none;
}

abbrev pub expansion_key : ℕ → String → String → String → BucketKey
expansion_key date sku channel kit = record {
  bucket_date = date;
  sku = sku;
  ecommerce_name = channel;
  is_kit_expansion = true;
  source_kit_sku = some kit;
}

unfoldable pub add_components : ℕ → String → String → ℤ → List Component → List Bucket → List Bucket
unfolding add
add_components date channel kit quantity [] bs = bs
add_components date channel kit quantity (c ∷ cs) bs =
    let sku = text_or_empty c.component_sku in
    let skipped = add_components date channel kit quantity cs bs in
    let counted =
      add_components date channel kit quantity cs
        (add (expansion_key date sku channel kit) (quantity *ℤ to_decimal c.quantity) (pos 0) bs) in
    if sku == "" then skipped else counted

abbrev pub in_period : ℕ → ℕ → ℕ → Bool
in_period date_from date_to date = leb date_from date && leb date date_to

abbrev pub delete_buckets_for_period : ℕ → ℕ → List Bucket → List Bucket
delete_buckets_for_period date_from date_to =
    filter (λ b. not (in_period date_from date_to b.key.bucket_date))

-- ON CONFLICT DO NOTHING: a row whose key is in the table stays out.
unfoldable pub upsert_buckets_batch : List Bucket → List Bucket → List Bucket
upsert_buckets_batch [] table = table
upsert_buckets_batch (b ∷ bs) table =
    upsert_buckets_batch bs
      (if any (λ r. same_key r.key b.key) table then table else table ++ b ∷ [])

-- The orders of the period that stand.
abbrev pub counted_orders : ℕ → ℕ → List Order → List Order
counted_orders date_from date_to all_orders =
    filter (λ o. not (o.situation == situation_cancelled))
      (filter (λ o. in_period date_from date_to o.order_date) all_orders)

-- `is_kit` and `components_of` are the products' types and the components of the kits, read before;
-- `is_blank s` is `not s.strip()`.
module _ (is_kit : ℕ → Bool) (components_of : ℕ → List Component) (is_blank : String → Bool) where
  abbrev pub expansion : Option ℕ → List Component
  expansion none = []
  expansion (some id) = if is_kit id then components_of id else []

  unfoldable pub add_item : ℕ → String → Item → List Bucket → List Bucket
  unfolding add_components
  add_item date channel item bs =
      let sku = text_or_empty item.product_sku in
      let quantity = to_decimal item.quantity in
      if sku == ""
      then bs
      else add_components date channel sku quantity (expansion item.product_tiny_id)
          (add (direct_key date sku channel) quantity (quantity *ℤ to_decimal item.unit_value) bs)

  unfoldable pub add_items : ℕ → String → List Item → List Bucket → List Bucket
  unfolding add_item
  add_items date channel [] bs = bs
  add_items date channel (item ∷ items) bs =
      add_items date channel items (add_item date channel item bs)

  abbrev pub channel_of : Order → String
  channel_of order =
      let name = text_or_empty order.ecommerce_name in if is_blank name then "Direct" else name

  unfoldable pub accumulate : List Order → List Bucket → List Bucket
  unfolding add_items
  accumulate [] bs = bs
  accumulate (order ∷ orders) bs =
      accumulate orders (add_items order.order_date (channel_of order) order.items bs)

  unfoldable pub refresh_buckets : ℕ → ℕ → List Order → List Bucket → List Bucket
  unfolding accumulate upsert_buckets_batch
  refresh_buckets date_from date_to all_orders table =
      upsert_buckets_batch (accumulate (counted_orders date_from date_to all_orders) [])
        (delete_buckets_for_period date_from date_to table)
