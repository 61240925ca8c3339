-- ===== src/Stock/Item.antt =====
-- `process_stock_item` (src/tiny_mirror/services/stock_sync_service.py): the stock of one product is
-- fetched, stored, compared with its last reading and counted in the log of the fan-out.
pub mod Laws
use tiny_mirror.Prelude.{
  ℕ, String, Bool, true, false, not, ◌&&◌, Option, none, some, List, [], ◌∷◌, ℤ, pos, ◌==◌, nat_eq,
  string_eq, if◌then◌else◌,
}
use tiny_mirror.Json.{Json, str, Fields, get, contains, or_else, to_int}
use tiny_mirror.Fulfillment.Event.{◌>>=◌}
use tiny_mirror.Fulfillment.Transfer.{Time}
use tiny_mirror.Fulfillment.Send.{Dyadic}
use tiny_mirror.Fulfillment.Catalog.{Catalog}
use tiny_mirror.Sync.Log.{SyncLog, increment_processed, increment_failed, try_finalize}
use tiny_mirror.Stock.Deposits.{
  Deposit, StockDeposits, to_non_negative_float, name_of, extract_deposits, sum_tiny_fl_available,
  sum_tiny_galpao_available, overlay_ml_full_deposit, upsert_deposits,
}
use tiny_mirror.Stock.Full.{Breakdown, raised, unknown, known, fetch_ml_full_breakdown}
use tiny_mirror.Stock.Detection.{Snapshot, ProductData, Database, maybe_record_webhook_transfer}

-- The consolidated stock of a product; the time of the sync is left out.
pub record StockData : Type 0 where
  pub product_tiny_id : ℤ
  pub product_name : Json
  pub sku : String
  pub unit : Json
  pub balance : Dyadic
  pub reserved : Dyadic
  pub available : Dyadic
  pub location : Json

pub record Store : Type 0 where
  pub stock : ℕ → Option StockData
  pub deposits : StockDeposits
  pub database : Database
  pub log : SyncLog

-- What Tiny answers: a stock, that it knows none, or an error.
pub data Answer : Type 0 where
  found : Fields → Answer
  not_found failed : Answer

-- Which of the two writes the database refuses.
pub data Refusal : Type 0 where
  none_refused stock_refused deposits_refused : Refusal

abbrev pub is_error : Refusal → Bool
is_error none_refused = false
is_error _ = true

-- How a call ends, and what it leaves.
pub data Ended : Type 0 where
  returned raises : Store → Ended

abbrev pub store_of : Ended → Store
store_of (returned store) = store
store_of (raises store) = store

unfoldable pub upsert_stock : ℕ → StockData → (ℕ → Option StockData) → ℕ → Option StockData
upsert_stock id new table other = if id == other then some new else table other

-- What the stock's writes leave.
unfoldable pub write_stock : Refusal → ℕ → StockData → List Deposit → Store → Store
unfolding upsert_stock upsert_deposits
write_stock stock_refused id new deposits store = store
write_stock deposits_refused id new deposits store = record store {
  stock = upsert_stock id new store.stock;
}
write_stock none_refused id new deposits store = record store {
  stock = upsert_stock id new store.stock;
  deposits = upsert_deposits id deposits store.deposits;
}

-- The numbers of Mercado Livre: none of them where it has none or could not be asked.
abbrev pub available_of : Breakdown → ℤ
available_of (known available in_transfer) = available
available_of _ = pos 0

abbrev pub in_transfer_of : Breakdown → ℤ
in_transfer_of (known available in_transfer) = in_transfer
in_transfer_of _ = pos 0

-- The two calls on the log.
unfoldable pub count_item : Time → Bool → SyncLog → SyncLog
unfolding increment_processed increment_failed try_finalize
count_item now errored log =
    (try_finalize now (if errored then increment_failed log else increment_processed log)).0

abbrev pub type_or_simple : Option String → String
type_or_simple none = "S"
type_or_simple (some type) = if type == "" then "S" else type

-- `to_float`, `mentions`, `decimal`, `note` and `quantity_kit` are as in the modules that use them,
-- `ml` is Mercado Livre's client, where there is one, `product_of` reads the product's row and
-- `parent_kits` the kits that hold a SKU.
module _ (to_float : String → Option Dyadic) (mentions : String → String → Bool)
    (decimal : Json → Option ℤ) (note : Option Snapshot → Snapshot → String)
    (quantity_kit : String → Option (ℕ × String)) (catalog : Catalog)
    (product_of : ℕ → Option ProductData) (parent_kits : String → List (String × ℤ)) where
  -- A payload without an id, with one that is no number, or with a code that is no text raises.
  unfoldable pub from_tiny_api : Fields → Option StockData
  unfolding to_non_negative_float name_of
  from_tiny_api raw = to_int (get raw "id") >>= (λ id.
      name_of (or_else (get raw "codigo") (str "")) >>= (λ sku. some (record {
        product_tiny_id = id;
        product_name = get raw "nome";
        sku = sku;
        unit = get raw "unidade";
        balance = to_non_negative_float to_float (get raw "saldo");
        reserved = to_non_negative_float to_float (get raw "reservado");
        available = to_non_negative_float to_float (get raw "disponivel");
        location = get raw "localizacao";
      })))

  unfoldable pub ml_numbers : Option (String → Option Fields) → String → ProductData → Breakdown
  unfolding fetch_ml_full_breakdown
  ml_numbers none sku product = unknown
  ml_numbers (some ml) sku product =
      if sku == ""
      then unknown
      else fetch_ml_full_breakdown ml catalog quantity_kit sku (type_or_simple product.type)
          (parent_kits sku)

  -- `detects` says whether the detection's session goes through; where it raises, it is rolled back.
  unfoldable pub detect : Time → ℕ → String → ProductData → Bool → Snapshot → Database → Database
  detect now id sku product detects new db =
      if detects && not (sku == "")
      then maybe_record_webhook_transfer decimal note now id sku product catalog new db
      else db

  -- From the stored stock to the end. `logged` is `sync_log_id is not None`.
  unfoldable pub finish_item :
      Time → ℕ → String → ProductData → Bool → Bool → Refusal → Snapshot → Store → Ended
  unfolding detect count_item
  finish_item now id sku product detects logged none_refused new store = returned (record store {
    database = detect now id sku product detects new store.database;
    log = if logged then count_item now false store.log else store.log;
  })
  finish_item now id sku product detects logged _ new store =
      raises (record store { log = if logged then count_item now true store.log else store.log })

  -- The sums are taken before Mercado Livre's numbers are laid over the deposits.
  unfoldable pub with_product :
      Time
      → ℕ
      → Option (String → Option Fields)
      → Bool
      → Bool
      → Refusal
      → StockData
      → List Deposit
      → Option ProductData
      → Store
      → Ended
  unfolding finish_item write_stock overlay_ml_full_deposit ml_numbers
  with_product now id ml detects logged refusal new deposits none store = returned store
  with_product now id ml detects logged refusal new deposits (some product) store =
      let reading : Snapshot = record {
        tiny_fl_qty = sum_tiny_fl_available mentions deposits;
        stock_galpao_qty = sum_tiny_galpao_available mentions deposits;
      } in
      let full = ml_numbers ml new.sku product in
      let overlaid = overlay_ml_full_deposit (available_of full) (in_transfer_of full) deposits in
      finish_item now id new.sku product detects logged refusal reading
        (write_stock refusal id new overlaid store)

  -- What could not be decoded raises before anything is stored.
  unfoldable pub with_stock :
      Time
      → ℕ
      → Option (String → Option Fields)
      → Bool
      → Bool
      → Refusal
      → Option StockData
      → Option (List Deposit)
      → Store
      → Ended
  unfolding with_product
  with_stock now id ml detects logged refusal (some new) (some deposits) store =
      with_product now id ml detects logged refusal new deposits (product_of id) store
  with_stock now id ml detects logged refusal _ _ store = raises store

  unfoldable pub process_stock_item :
      Time → ℕ → Option (String → Option Fields) → Bool → Bool → Refusal → Answer → Store → Ended
  unfolding with_stock from_tiny_api extract_deposits
  process_stock_item now id ml detects logged refusal (found raw) store =
      with_stock now id ml detects logged refusal (from_tiny_api raw)
        (extract_deposits to_float raw) store
  process_stock_item now id ml detects logged refusal not_found store = returned store
  process_stock_item now id ml detects logged refusal failed store = raises store
