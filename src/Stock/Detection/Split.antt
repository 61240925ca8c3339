-- ===== src/Stock/Detection/Split.antt =====
-- A shipment whose two movements are seen by two readings.
use tiny_mirror.Prelude.{
  ℕ, ◌+◌, ◌*◌, ◌≡◌, ◌⊎◌, inl, inr, parts_of_eq, ◌∙◌, String, Option, some, ℤ, pos, pos_part,
  neg_part, ◌-ℤ◌, ◌*ℤ◌, ◌<ℤ◌, +ℤ_parts, -ℤ_parts, arith,
}
use tiny_mirror.Json.{Json}
use tiny_mirror.Fulfillment.Transfer.{Time, Table}
use tiny_mirror.Fulfillment.Catalog.{Catalog}
use tiny_mirror.Stock.Detection.{
  Snapshot, ProductData, Database, get_snapshot, maybe_record_webhook_transfer,
}
use tiny_mirror.Stock.Detection.Guards.{IsShipment, reading_records, reading_stores}

times_parts :
    (c : ℕ) (a : ℤ)
    → pos_part (pos c *ℤ a) + c * neg_part a ≡ neg_part (pos c *ℤ a) + c * pos_part a
unfolding ◌*ℤ◌
times_parts c a = ground arith

-- A reading in which Full has not grown is no shipment, nor is one in which the warehouse has lost
-- nothing.
one_sided :
    (now : Time) (sku : String) (type : Option String) (catalog : Catalog) (t : Table)
    (previous new : Snapshot)
    → IsShipment now sku type catalog t previous new
    → (previous.tiny_fl_qty <ℤ new.tiny_fl_qty)
      × (new.stock_galpao_qty <ℤ previous.stock_galpao_qty)
one_sided now sku type catalog t previous new h =
    let delta = new.tiny_fl_qty -ℤ previous.tiny_fl_qty in
    let lost = previous.stock_galpao_qty -ℤ new.stock_galpao_qty in
    (
      h.grew,
      omega (
        arith,
        h.grew,
        h.left,
        times_parts 80 delta,
        times_parts 100 lost,
        +ℤ_parts (pos 100 *ℤ lost) (pos 1),
        -ℤ_parts new.tiny_fl_qty previous.tiny_fl_qty,
        -ℤ_parts previous.stock_galpao_qty new.stock_galpao_qty,
      ),
    )

-- Between the two snapshots only one of the numbers differs.
abbrev pub IsOneSided : Snapshot → Snapshot → Type 0
IsOneSided previous new =
    (new.tiny_fl_qty ≡ previous.tiny_fl_qty) ⊎ (new.stock_galpao_qty ≡ previous.stock_galpao_qty)

not-IsShipment :
    (now : Time) (sku : String) (type : Option String) (catalog : Catalog) (t : Table)
    (previous new : Snapshot)
    → IsOneSided previous new
    → ¬ IsShipment now sku type catalog t previous new
not-IsShipment now sku type catalog t previous new (inl same) h =
    let e = parts_of_eq same in omega (arith, h.grew, e.0, e.1)
not-IsShipment now sku type catalog t previous new (inr same) h =
    let e = parts_of_eq same in
    omega (arith, (one_sided now sku type catalog t previous new h).1, e.0, e.1)

module _ (decimal : Json → Option ℤ) (note : Option Snapshot → Snapshot → String) (id : ℕ)
    (sku : String) (product : ProductData) (catalog : Catalog) where
  abbrev read_at : Time → Snapshot → Database → Database
  read_at now new db = maybe_record_webhook_transfer decimal note now id sku product catalog new db

  -- Where a shipment's two movements reach Tiny one after the other and a reading falls between them, no
  -- transfer is recorded: of two readings in which only one of the numbers has changed since the one
  -- before, in whichever order, neither adds a transfer, however many units moved.
  pub readings_split :
      (now later : Time) (previous middle new : Snapshot) (db : Database)
      → get_snapshot id db.snapshots ≡ some previous
      → IsOneSided previous middle
      → IsOneSided middle new
      → (read_at later new (read_at now middle db)).transfers ≡ db.transfers
  readings_split now later previous middle new db known first second =
      let between = read_at now middle db in
      (reading_records decimal note later id sku product catalog middle new between
          (reading_stores decimal note now id sku product catalog middle db)).1
        (not-IsShipment later sku product.type catalog between.transfers middle new second)
      ∙ (reading_records decimal note now id sku product catalog previous middle db known).1
          (not-IsShipment now sku product.type catalog db.transfers previous middle first)
