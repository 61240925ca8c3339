-- ===== src/Tests/Samples.antt =====
-- Rows that the tests share.
use tiny_mirror.Prelude.{ℕ, none, ℤ, pos}
use tiny_mirror.Fulfillment.Transfer.{Time, Transfer, pending, tiny_webhook}

-- A pending transfer that has received nothing.
abbrev pub transfer_of : ℕ → ℤ → Time → Transfer
transfer_of id quantity at = record {
  id = id;
  product_tiny_id = 7;
  product_sku = "KIT-7";
  quantity = quantity;
  cost_per_unit = pos 1250;
  transferred_at = at;
  received_at = none;
  quantity_received = pos 0;
  last_event_at = none;
  status = pending;
  source = tiny_webhook;
  notes = none;
  created_at = at;
}
