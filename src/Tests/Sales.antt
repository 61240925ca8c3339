-- ===== src/Tests/Sales.antt =====
-- Refreshes of src/tiny_mirror/services/sale_bucket_service.py at concrete inputs.
use tiny_mirror.Prelude.{
  ℕ, ◌≡◌, refl, String, Bool, none, some, List, [], ◌∷◌, map, pos, ◌+ℤ◌, ◌*ℤ◌, ◌==◌, string_eq,
  nat_eq,
}
use tiny_mirror.Sales.{
  Item, Order, Component, add, add_components, add_item, add_items, accumulate, refresh_buckets,
}
use tiny_mirror.Sales.Revenue.{sum_revenue, sum_orders, accumulate_conserves}
use tiny_mirror.Sales.Repeat.{refresh_buckets-refresh_buckets}

-- Product 9 is a kit of three of one product.
abbrev is_nine : ℕ → Bool
is_nine id = id == 9

abbrev three : ℕ → List Component
three id = record { component_sku = some "PART"; quantity = some (pos 3) } ∷ []

abbrev is_empty : String → Bool
is_empty s = s == ""

abbrev kit_line : Item
kit_line = record {
  product_sku = some "KIT-9";
  product_tiny_id = some 9;
  quantity = some (pos 2);
  unit_value = some (pos 50);
}

abbrev shop_orders : List Order
shop_orders =
    record { situation = 1; ecommerce_name = none; order_date = 20; items = kit_line ∷ [] }
    ∷ record {
      situation = 2;
      ecommerce_name = some "Mercado Livre";
      order_date = 21;
      items = kit_line ∷ [];
    }
    ∷ []

-- The kit and its parts, of the order that stands.
refresh_quantities :
    map (λ b. b.quantity_sold) (refresh_buckets is_nine three is_empty 10 30 shop_orders [])
    ≡ pos 2 ∷ pos 6 ∷ []
unfolding refresh_buckets accumulate add_items add_item add_components add ◌+ℤ◌ ◌*ℤ◌
refresh_quantities = refl

accumulate_conserves_example :
    sum_revenue (accumulate is_nine three is_empty shop_orders []) ≡ sum_orders shop_orders
accumulate_conserves_example = accumulate_conserves is_nine three is_empty shop_orders

refresh_buckets-refresh_buckets_example :
    let refresh = refresh_buckets is_nine three is_empty 10 30 shop_orders in
    refresh (refresh []) ≡ refresh []
refresh_buckets-refresh_buckets_example =
    refresh_buckets-refresh_buckets is_nine three is_empty 10 30 shop_orders []
