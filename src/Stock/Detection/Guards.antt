-- ===== src/Stock/Detection/Guards.antt =====
-- When a reading of a product's stock is taken for a shipment, and what a reading leaves behind.
use tiny_mirror.Prelude.{
  ℕ, ◌-◌, ◌*◌, ◌≡◌, ◌≢◌, refl, ap, String, Bool, true, false, ◌&&◌, Option, some, List, [], ◌∷◌, ℤ,
  pos, ◌+ℤ◌, ◌-ℤ◌, ◌*ℤ◌, ◌≤ℤ◌, ◌<ℤ◌, max_ℤ, -ℤ_parts, any, ◌==◌, nat_eq, string_eq, arith,
  if◌then◌else◌,
}
use tiny_mirror.Json.{Json}
use tiny_mirror.Fulfillment.Transfer.{Time, Table, tiny_webhook, create, has_recent_pending}
use tiny_mirror.Fulfillment.Catalog.{Catalog, Listing, holds, is_fulfillment}
use tiny_mirror.Stock.Detection.{
  idempotency_minutes, minute, Snapshot, SnapshotRow, ProductData, Database, get_snapshot,
  upsert_snapshot, sku_logistic_status, is_uncorroborated, judge_listings, judge, Verdict, transfer,
  no_growth, compare_readings, record_transfer, extract_cost_price, maybe_record_webhook_transfer,
}

-- A listing of the SKU on the fulfilment channel, of whatever status.
abbrev pub is_sold_from_full : String → List Listing → Bool
is_sold_from_full sku = any (λ l. holds l.sku sku && is_fulfillment l)

-- The units in Full grew, at least four fifths of the growth, less a hundredth of a unit, left the
-- warehouse, the product is no kit and is sold from Full, and no pending transfer of it is recent.
pub record IsShipment (now : Time) (sku : String) (type : Option String) (catalog : Catalog)
    (t : Table) (previous new : Snapshot) : Type 0 where
  pub grew : previous.tiny_fl_qty <ℤ new.tiny_fl_qty
  pub left :
      pos 80 *ℤ (new.tiny_fl_qty -ℤ previous.tiny_fl_qty)
      ≤ℤ pos 100 *ℤ (previous.stock_galpao_qty -ℤ new.stock_galpao_qty) +ℤ pos 1
  pub no_kit : holds type "K" ≡ false
  pub no_recent : has_recent_pending sku (now - idempotency_minutes * minute) t.rows ≡ false
  pub sold : is_sold_from_full sku catalog.listings ≡ true

-- The two counts, as far as the tests read them.
counts_lem :
    (sku : String) (ls : List Listing)
    → let (full, listed) = sku_logistic_status sku ls in
      (is_sold_from_full sku ls ≡ true → (full ≢ 0) × (listed ≢ 0))
      × (is_sold_from_full sku ls ≡ false → full ≡ 0)
unfolding sku_logistic_status
counts_lem sku [] = (λ e. cc, λ e. refl)
counts_lem sku (l ∷ ls) = ground (arith, counts_lem sku ls)

module _ (now : Time) (sku : String) (type : Option String) (catalog : Catalog) (t : Table)
    (previous new : Snapshot) where
  abbrev fl_delta : ℤ
  fl_delta = new.tiny_fl_qty -ℤ previous.tiny_fl_qty

  abbrev galpao_drop : ℤ
  galpao_drop = previous.stock_galpao_qty -ℤ new.stock_galpao_qty

  abbrev pub shipped : ℤ
  shipped = max_ℤ fl_delta galpao_drop

  judge_shipment :
      IsShipment now sku type catalog t previous new
      → judge now sku type catalog t previous new ≡ transfer shipped
  unfolding judge judge_listings is_uncorroborated
  judge_shipment h =
      ground
        (arith, -ℤ_parts new.tiny_fl_qty previous.tiny_fl_qty, counts_lem sku catalog.listings, h)

  judge_transfer :
      (q : ℤ)
      → judge now sku type catalog t previous new ≡ transfer q
      → IsShipment now sku type catalog t previous new
  unfolding judge judge_listings is_uncorroborated
  judge_transfer q e =
      ground (arith, -ℤ_parts new.tiny_fl_qty previous.tiny_fl_qty, counts_lem sku catalog.listings)

get-upsert :
    (id other : ℕ) (new : Snapshot) (rows : List SnapshotRow)
    → get_snapshot other (upsert_snapshot id new rows)
      ≡ (if id == other then some new else get_snapshot other rows)
unfolding get_snapshot upsert_snapshot
get-upsert id other new [] = refl
get-upsert id other new (r ∷ rows) = ground (arith, get-upsert id other new rows)

no_transfer :
    (v : Verdict) (P : Type 0) (decimal : Json → Option ℤ)
    (note : Option Snapshot → Snapshot → String) (now : Time) (id : ℕ) (sku : String)
    (product : ProductData) (previous : Option Snapshot) (new : Snapshot) (t : Table)
    → ((q : ℤ) → v ≡ transfer q → P)
    → ¬ P
    → record_transfer decimal note now id sku product previous new v t ≡ t
unfolding record_transfer
no_transfer (transfer q) P decimal note now id sku product previous new t yields refused =
    absurd (refused (yields q refl))
no_transfer _ P decimal note now id sku product previous new t yields refused = refl

module _ (decimal : Json → Option ℤ) (note : Option Snapshot → Snapshot → String) (now : Time)
    (id : ℕ) (sku : String) (product : ProductData) (catalog : Catalog) (previous new : Snapshot)
    (db : Database) (known : get_snapshot id db.snapshots ≡ some previous) where
  abbrev after_reading : Database
  after_reading = maybe_record_webhook_transfer decimal note now id sku product catalog new db

  -- For a product that was read before: a reading that is a shipment adds one transfer to the table,
  -- of the growth in Full or of the units that left the warehouse, whichever is more, and any other
  -- reading adds none.
  pub reading_records :
      (IsShipment now sku product.type catalog db.transfers previous new
        → after_reading.transfers
          ≡ (create now
              (record {
                product_tiny_id = id;
                product_sku = sku;
                quantity =
                    max_ℤ
                      (new.tiny_fl_qty -ℤ previous.tiny_fl_qty)
                      (previous.stock_galpao_qty -ℤ new.stock_galpao_qty);
                cost_per_unit = extract_cost_price decimal product.prices;
                transferred_at = now;
                source = tiny_webhook;
                notes = some (note (some previous) new);
              })
              db.transfers).1)
      × (¬ IsShipment now sku product.type catalog db.transfers previous new
          → after_reading.transfers ≡ db.transfers)
  unfolding maybe_record_webhook_transfer compare_readings record_transfer
  reading_records = (
    λ h. rw (known, judge_shipment now sku product.type catalog db.transfers previous new h) refl,
    λ refused. rw known (
        no_transfer (judge now sku product.type catalog db.transfers previous new) _ decimal note
          now id sku product (some previous) new db.transfers
          (judge_transfer now sku product.type catalog db.transfers previous new) refused),
  )

eq_refl : (n : ℕ) → (n == n) ≡ true
eq_refl n = ground arith

judge_same :
    (now : Time) (sku : String) (type : Option String) (catalog : Catalog) (t : Table)
    (new : Snapshot)
    → judge now sku type catalog t new new ≡ no_growth
unfolding judge
judge_same now sku type catalog t new = ground (arith, -ℤ_parts new.tiny_fl_qty new.tiny_fl_qty)

-- What a reading leaves as the product's snapshot.
pub reading_stores :
    (decimal : Json → Option ℤ) (note : Option Snapshot → Snapshot → String) (now : Time) (id : ℕ)
    (sku : String) (product : ProductData) (catalog : Catalog) (new : Snapshot) (db : Database)
    → get_snapshot id
        (maybe_record_webhook_transfer decimal note now id sku product catalog new db).snapshots
      ≡ some new
unfolding maybe_record_webhook_transfer
reading_stores decimal note now id sku product catalog new db =
    rw (get-upsert id id new db.snapshots, eq_refl id) refl

-- A reading stores its two numbers as the product's snapshot and leaves the other snapshots alone. The
-- same numbers read again, at whatever moment and with whatever listings, add no transfer.
pub reading_twice :
    (decimal : Json → Option ℤ) (note : Option Snapshot → Snapshot → String) (now later : Time)
    (id : ℕ) (sku : String) (product product' : ProductData) (catalog catalog' : Catalog)
    (new : Snapshot) (db : Database)
    → let once = maybe_record_webhook_transfer decimal note now id sku product catalog new db in
      let twice =
        maybe_record_webhook_transfer decimal note later id sku product' catalog' new once in
      ((other : ℕ)
        → get_snapshot other once.snapshots
          ≡ (if id == other then some new else get_snapshot other db.snapshots))
      × (twice.transfers ≡ once.transfers)
unfolding maybe_record_webhook_transfer compare_readings judge record_transfer
reading_twice decimal note now later id sku product product' catalog catalog' new db =
    let once = maybe_record_webhook_transfer decimal note now id sku product catalog new db in
    let again =
      ap (λ v. record_transfer decimal note later id sku product' (some new) new v once.transfers)
        (judge_same later sku product'.type catalog' once.transfers new) in
    (
      λ other. get-upsert id other new db.snapshots,
      rw (get-upsert id id new db.snapshots, eq_refl id) again,
    )
