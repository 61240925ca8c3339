-- ===== src/Tests/Stock.antt =====
-- Readings of a product's stock at concrete inputs.
use tiny_mirror.Prelude.{
  ◌≡◌, refl, String, Option, none, some, [], ◌∷◌, ℤ, pos, ◌+ℤ◌, ◌-ℤ◌, ◌*ℤ◌, max_ℤ, inl, inr, nat_eq,
  arith, map,
}
use tiny_mirror.Json.{Json}
use tiny_mirror.Fulfillment.Transfer.{tiny_webhook, create, has_recent_pending}
use tiny_mirror.Stock.Detection.{
  Snapshot, ProductData, Database, get_snapshot, extract_cost_price, maybe_record_webhook_transfer,
}
use tiny_mirror.Stock.Detection.Guards.{IsShipment, reading_records}
use tiny_mirror.Stock.Detection.Split.{readings_split}
use tiny_mirror.Tests.Scan.{shop}

abbrev pub no_price : Json → Option ℤ
no_price v = none

abbrev pub note : Option Snapshot → Snapshot → String
note previous new = "Detected via Tiny stock webhook"

abbrev pub simple : ProductData
simple = record { type = some "S"; prices = none }

abbrev snapshot_of : ℤ → ℤ → Snapshot
snapshot_of full galpao = record { tiny_fl_qty = full; stock_galpao_qty = galpao }

-- Four units in Full and twenty in the warehouse.
abbrev pub known_stock : Database
known_stock = record {
  snapshots = record { product_tiny_id = 7; snapshot = snapshot_of (pos 4) (pos 20) } ∷ [];
  transfers = record { rows = []; next_id = 1 };
}

-- Ten more in Full, nine less in the warehouse.
is_shipment :
    IsShipment 100 "KIT-7"
      (some "S")
      shop
      known_stock.transfers
      (snapshot_of (pos 4) (pos 20))
      (snapshot_of (pos 14) (pos 11))
unfolding ◌*ℤ◌ ◌+ℤ◌ ◌-ℤ◌ has_recent_pending
is_shipment = record {
  grew = omega arith;
  left = omega arith;
  no_kit = refl;
  no_recent = refl;
  sold = refl;
}

reading_records_example :
    (IsShipment 100 "KIT-7"
        (some "S")
        shop
        known_stock.transfers
        (snapshot_of (pos 4) (pos 20))
        (snapshot_of (pos 14) (pos 11))
      → (maybe_record_webhook_transfer no_price note 100 7 "KIT-7" simple shop
          (snapshot_of (pos 14) (pos 11))
          known_stock).transfers
        ≡ (create 100
            (record {
              product_tiny_id = 7;
              product_sku = "KIT-7";
              quantity = max_ℤ (pos 14 -ℤ pos 4) (pos 20 -ℤ pos 11);
              cost_per_unit = extract_cost_price no_price none;
              transferred_at = 100;
              source = tiny_webhook;
              notes = some "Detected via Tiny stock webhook";
            })
            known_stock.transfers).1)
    × (¬ IsShipment 100 "KIT-7"
          (some "S")
          shop
          known_stock.transfers
          (snapshot_of (pos 4) (pos 20))
          (snapshot_of (pos 14) (pos 11))
        → (maybe_record_webhook_transfer no_price note 100 7 "KIT-7" simple shop
            (snapshot_of (pos 14) (pos 11))
            known_stock).transfers
          ≡ known_stock.transfers)
unfolding get_snapshot
reading_records_example =
    reading_records no_price note 100 7 "KIT-7" simple shop (snapshot_of (pos 4) (pos 20))
      (snapshot_of (pos 14) (pos 11)) known_stock refl

-- The one of the two that applies.
ten_units :
    map
      (λ r. r.quantity)
      (maybe_record_webhook_transfer no_price note 100 7 "KIT-7" simple shop
        (snapshot_of (pos 14) (pos 11))
        known_stock).transfers.rows
    ≡ pos 10 ∷ []
unfolding get_snapshot create ◌-ℤ◌ max_ℤ
ten_units = rw (reading_records_example.0 is_shipment) refl

-- Ten units leave the warehouse before one reading and reach Full before the next.
readings_split_example :
    (maybe_record_webhook_transfer no_price note 200 7 "KIT-7" simple shop
      (snapshot_of (pos 14) (pos 10))
      (maybe_record_webhook_transfer no_price note 100 7 "KIT-7" simple shop
        (snapshot_of (pos 4) (pos 10))
        known_stock)).transfers
    ≡ known_stock.transfers
unfolding get_snapshot
readings_split_example =
    readings_split no_price note 7 "KIT-7" simple shop 100 200 (snapshot_of (pos 4) (pos 20))
      (snapshot_of (pos 4) (pos 10)) (snapshot_of (pos 14) (pos 10)) known_stock refl (inl refl)
      (inr refl)
