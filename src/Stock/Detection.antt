-- ===== src/Stock/Detection.antt =====
-- `_maybe_record_webhook_transfer` (src/tiny_mirror/services/stock_sync_service.py): a shipment to
-- Full that is found by comparing two readings of a product's stock.
pub mod Guards
pub mod Split
use tiny_mirror.Prelude.{
  ℕ, ◌-◌, ◌*◌, suc, String, Bool, true, false, Option, none, some, List, [], ◌∷◌, ℤ, pos, ◌+ℤ◌,
  ◌-ℤ◌, ◌*ℤ◌, max_ℤ, ltb_ℤ, leb_ℤ, ◌==◌, nat_eq, string_eq, if◌then◌else◌,
}
use tiny_mirror.Json.{Json, int, Fields, get, or_else}
use tiny_mirror.Fulfillment.Transfer.{Time, Table, tiny_webhook, create, has_recent_pending}
use tiny_mirror.Fulfillment.Catalog.{Catalog, Listing, holds, is_fulfillment}

-- Of config.py: the share of the growth that must have left the warehouse, in hundredths, and how
-- long a pending transfer of the SKU holds back another.
abbrev pub corroboration_percent : ℕ
corroboration_percent = 80

abbrev pub idempotency_minutes : ℕ
idempotency_minutes = 30

abbrev pub minute : ℕ
minute = 60_000_000

-- The units that Tiny showed in Full and in the warehouse (Galpão).
pub record Snapshot : Type 0 where
  pub tiny_fl_qty : ℤ
  pub stock_galpao_qty : ℤ

-- A row of tiny_fl_stock_snapshots.
pub record SnapshotRow : Type 0 where
  pub product_tiny_id : ℕ
  pub snapshot : Snapshot

unfoldable pub get_snapshot : ℕ → List SnapshotRow → Option Snapshot
get_snapshot id [] = none
get_snapshot id (r ∷ rows) =
    if r.product_tiny_id == id then some r.snapshot else get_snapshot id rows

-- One row for a product: its snapshot is replaced where there is one.
unfoldable pub upsert_snapshot : ℕ → Snapshot → List SnapshotRow → List SnapshotRow
upsert_snapshot id new [] = record { product_tiny_id = id; snapshot = new } ∷ []
upsert_snapshot id new (r ∷ rows) =
    let rest = upsert_snapshot id new rows in
    if r.product_tiny_id == id then record r { snapshot = new } ∷ rows else r ∷ rest

-- What the detection reads of the product: its type and its prices.
pub record ProductData : Type 0 where
  pub type : Option String
  pub prices : Option Fields

pub record Database : Type 0 where
  pub snapshots : List SnapshotRow
  pub transfers : Table

-- How many listings of the SKU are on the fulfilment channel, and how many there are.
unfoldable pub sku_logistic_status : String → List Listing → ℕ × ℕ
sku_logistic_status sku [] = (0, 0)
sku_logistic_status sku (l ∷ ls) =
    let (full, listed) = sku_logistic_status sku ls in
    if holds l.sku sku
    then (if is_fulfillment l then suc full else full, suc listed)
    else (full, listed)

-- `galpao_drop + 0.01 < required_drop`, a hundred times both sides. These are never equal, the first
-- being one more than a multiple of 20 and the second such a multiple, so the floats compare alike.
unfoldable pub is_uncorroborated : ℤ → ℤ → Bool
is_uncorroborated fl_delta galpao_drop =
    ltb_ℤ (pos 100 *ℤ galpao_drop +ℤ pos 1) (pos corroboration_percent *ℤ fl_delta)

-- Zero where no price can be read. `decimal` is `Decimal(str(raw))` in cents, `none` where it raises.
unfoldable pub extract_cost_price : (Json → Option ℤ) → Option Fields → ℤ
extract_cost_price decimal none = pos 0
extract_cost_price decimal (some prices) =
    elim (decimal
      (or_else (get prices "cost_price") (or_else (get prices "price") (int (pos 0))))) [
        | none ↦ pos 0
        | some cents ↦ cents
      ]

-- Why nothing is recorded, or what is: the outcomes in the order of the code's tests.
pub data Verdict : Type 0 where
  first_reading no_growth kit uncorroborated duplicate not_listed not_full : Verdict
  transfer : ℤ → Verdict

-- The tests on the two counts of listings.
unfoldable pub judge_listings : ℕ × ℕ → ℤ → Verdict
judge_listings (full, listed) quantity =
    if listed == 0 then not_listed else if full == 0 then not_full else transfer quantity

-- `rows` are the transfers, before the reading.
unfoldable pub judge :
    Time → String → Option String → Catalog → Table → Snapshot → Snapshot → Verdict
unfolding is_uncorroborated judge_listings sku_logistic_status
judge now sku type catalog t previous new =
    let fl_delta = new.tiny_fl_qty -ℤ previous.tiny_fl_qty in
    let galpao_drop = previous.stock_galpao_qty -ℤ new.stock_galpao_qty in
    if leb_ℤ fl_delta (pos 0)
    then no_growth
    else if holds type "K"
    then kit
    else if is_uncorroborated fl_delta galpao_drop
    then uncorroborated
    else if has_recent_pending sku (now - idempotency_minutes * minute) t.rows
    then duplicate
    else judge_listings (sku_logistic_status sku catalog.listings) (max_ℤ fl_delta galpao_drop)

-- A first reading seeds the snapshot.
unfoldable pub compare_readings :
    Time → String → Option String → Catalog → Table → Option Snapshot → Snapshot → Verdict
unfolding judge
compare_readings now sku type catalog t none new = first_reading
compare_readings now sku type catalog t (some previous) new =
    judge now sku type catalog t previous new

module _ (decimal : Json → Option ℤ) (note : Option Snapshot → Snapshot → String) where
  -- The row that a verdict adds.
  unfoldable pub record_transfer :
      Time → ℕ → String → ProductData → Option Snapshot → Snapshot → Verdict → Table → Table
  unfolding create extract_cost_price
  record_transfer now id sku product previous new (transfer quantity) t =
      (create now
        (record {
          product_tiny_id = id;
          product_sku = sku;
          quantity = quantity;
          cost_per_unit = extract_cost_price decimal product.prices;
          transferred_at = now;
          source = tiny_webhook;
          notes = some (note previous new);
        })
        t).1
  record_transfer now id sku product previous new _ t = t

  -- The snapshot and the transfer land in one commit.
  unfoldable pub maybe_record_webhook_transfer :
      Time → ℕ → String → ProductData → Catalog → Snapshot → Database → Database
  unfolding compare_readings record_transfer get_snapshot upsert_snapshot
  maybe_record_webhook_transfer now id sku product catalog new db =
      let previous = get_snapshot id db.snapshots in
      let verdict = compare_readings now sku product.type catalog db.transfers previous new in
      record {
        snapshots = upsert_snapshot id new db.snapshots;
        transfers = record_transfer now id sku product previous new verdict db.transfers;
      }
