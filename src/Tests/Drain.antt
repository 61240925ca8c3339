-- ===== src/Tests/Drain.antt =====
-- Drains of src/tiny_mirror/services/fulfillment_reception_service.py at concrete inputs.
use tiny_mirror.Prelude.{
  ◌≡◌, refl, String, true, Option, some, List, [], ◌∷◌, filter, pos, ◌+ℤ◌, ◌-ℤ◌, ◌≤ℤ◌, ◌*ℤ◌, All,
}
use tiny_mirror.Json.{int, str, arr, cons, nil, obj, end, field, Fields}
use tiny_mirror.Fulfillment.Transfer.{Transfer}
use tiny_mirror.Fulfillment.Event.{extract_transfer_qty}
use tiny_mirror.Fulfillment.Paging.{InventorySource}
use tiny_mirror.Fulfillment.Drain.{sum_net, is_stale, is_in_grace, ml_transfer, drain_sku}
use tiny_mirror.Fulfillment.Drain.Bounds.{IsNeeded, drain_sku_lem}
use tiny_mirror.Tests.Samples.{transfer_of}

-- Mercado Livre has three units on their way to the one inventory, a kit of two.
abbrev on_the_way : String → Option Fields
on_the_way inventory = some (
    field "not_available_detail"
      (arr (cons (obj (field "status" (str "transfer") (field "quantity" (int (pos 3)) end))) nil))
      end)

abbrev kit_source : List InventorySource
kit_source = record { inventory_id = "INV-1"; multiplier = pos 2 } ∷ []

abbrev waiting : List Transfer
waiting = transfer_of 1 (pos 4) 100 ∷ transfer_of 2 (pos 7) 200 ∷ transfer_of 3 (pos 5) 900 ∷ []

drain_sku_lem_example :
    let keep = pos 6 +ℤ sum_net (filter (is_in_grace 500) waiting) in
    let gone = (drain_sku on_the_way 500 kit_source waiting).0 in
    All (λ r. is_stale 500 r ≡ true) gone
    × IsNeeded keep (sum_net waiting) gone
    × (sum_net waiting -ℤ sum_net gone ≤ℤ keep)
unfolding ml_transfer ◌+ℤ◌ ◌*ℤ◌ extract_transfer_qty
drain_sku_lem_example = drain_sku_lem on_the_way 500 kit_source waiting 6 refl
