-- ===== src/Tests/Scan.antt =====
-- A scan of src/tiny_mirror/services/fulfillment_reception_service.py at a concrete input.
use tiny_mirror.Prelude.{
  ℕ, ◌≡◌, refl, String, Option, some, List, [], ◌∷◌, arith, pos, All, any, none, true, ◌==◌,
  string_eq,
}
use tiny_mirror.Json.{int, str, arr, cons, nil, obj, end, field, Fields}
use tiny_mirror.Fulfillment.Transfer.{Time, Transfer, received}
use tiny_mirror.Sort.{sort}
use tiny_mirror.Fulfillment.Windows.{Window, day}
use tiny_mirror.Fulfillment.Catalog.{
  Catalog, inventory_map, inventory_map_for, own_direct, own_variations, parent_direct,
  parent_variations, parent_rows, main_rows, sorted_set,
}
use tiny_mirror.Fulfillment.Catalog.Agreement.{inventory_map-inventory_map_for}
use tiny_mirror.Fulfillment.Scan.{scan_and_reconcile}
use tiny_mirror.Fulfillment.Scan.Total.{Keeps}
use tiny_mirror.Fulfillment.Scan.Sound.{IsSound, scan_and_reconcile-IsSound}
use tiny_mirror.Tests.Samples.{transfer_of}

-- The product is sold by itself on the fulfilment channel.
abbrev pub shop : Catalog
shop = record {
  listings =
      record {
        mlb_id = "MLB7";
        sku = some "KIT-7";
        logistic_type = some "fulfillment";
        status = some "paused";
        inventory_id = none;
        has_variations = true;
      }
      ∷ [];
  variations = record { mlb_id = "MLB7"; inventory_id = some "INV-7" } ∷ [];
  products = [];
  components = [];
}

abbrev arrived_row : Transfer
arrived_row = record (transfer_of 4 (pos 6) 50) {
  status = received;
  quantity_received = pos 6;
  received_at = some 90;
  last_event_at = some 90;
}

abbrev sent : List Transfer
sent = transfer_of 1 (pos 10) 100 ∷ arrived_row ∷ []

-- The log of every inventory and window: ten units at 400.
abbrev log_of : String → Window → ℕ → Option Fields
log_of inventory w offset =
    let operation = field "type" (str "INBOUND_RECEPTION") (
      field "date_created" (str "T400")
        (field "detail" (obj (field "available_quantity" (int (pos 10)) end)) end)) in
    some (
      field "results" (arr (cons (obj operation) nil))
        (field "paging" (obj (field "total" (int (pos 1)) end)) end))

abbrev read_moment : String → Option Time
read_moment text = some 400

scan_and_reconcile-IsSound_example :
    Keeps (All IsSound) (scan_and_reconcile log_of 5 read_moment (λ sku. day) shop sent)
scan_and_reconcile-IsSound_example =
    scan_and_reconcile-IsSound log_of 5 read_moment (λ sku. day) shop sent
      (
        record { some_or_none = omega arith; within = omega arith; complete = λ e. cc },
        (
          record { some_or_none = omega arith; within = omega arith; complete = λ e. omega arith },
          tt,
        ),
      )

inventory_map-inventory_map_for_example :
    any (λ s. s.inventory_id == "INV-7") (inventory_map shop ("KIT-7" ∷ []) sent "KIT-7")
    ≡ any (λ s. s.inventory_id == "INV-7") (inventory_map_for shop ("KIT-7" ∷ []) sent "KIT-7")
inventory_map-inventory_map_for_example =
    inventory_map-inventory_map_for shop ("KIT-7" ∷ []) sent "KIT-7" (tt, tt)
      (λ s. s.inventory_id == "INV-7")

-- The scan finds the inventory of the variation.
inventory_map_variation :
    inventory_map shop ("KIT-7" ∷ []) sent "KIT-7"
    ≡ record { inventory_id = "INV-7"; multiplier = pos 1 } ∷ []
unfolding inventory_map own_direct own_variations parent_direct parent_variations parent_rows
    main_rows sorted_set sort
inventory_map_variation = refl
