-- ===== src/Tests/Item.antt =====
-- A stock item and its deposits at concrete inputs.
use tiny_mirror.Prelude.{
  ℕ, ◌≡◌, refl, String, Bool, true, ◌&&◌, ◌||◌, Option, none, some, List, [], ◌∷◌, ℤ, pos, ◌==◌,
  string_eq, nat_eq, if◌then◌else◌,
}
use tiny_mirror.Json.{Json, null, int, str, arr, cons, nil, obj, end, field, Fields}
use tiny_mirror.Fulfillment.Send.{Dyadic, as_float}
use tiny_mirror.Sync.Log.{create_sync_log}
use tiny_mirror.Sync.Fanout.{Fanout, publishing, run}
use tiny_mirror.Stock.Deposits.{Deposit, StockDeposits, whole, extract_deposits}
use tiny_mirror.Stock.Detection.{ProductData}
use tiny_mirror.Stock.Item.{
  Store, found, deposits_refused, store_of, process_stock_item, from_tiny_api,
}
use tiny_mirror.Stock.Item.Laws.{consumer, item_counts}
use tiny_mirror.Tests.Scan.{shop}
use tiny_mirror.Tests.Stock.{no_price, note, simple, known_stock}

abbrev no_number : String → Option Dyadic
no_number text = none

abbrev names : String → String → Bool
names needle name =
    (needle == "full mercado livre" && name == "Full Mercado Livre")
    || (needle == "galpao" && name == "Galpao")

abbrev no_kit : String → Option (ℕ × String)
no_kit sku = none

abbrev no_parents : String → List (String × ℤ)
no_parents sku = []

abbrev only_seven : ℕ → Option ProductData
only_seven id = if id == 7 then some simple else none

abbrev deposit_json : ℕ → String → ℕ → Json
deposit_json id name available = obj (
    field "id" (int (pos id))
      (field "nome" (str name) (field "disponivel" (int (pos available)) end)))

-- Eleven units in the warehouse and fourteen in Full, by Tiny.
abbrev tiny_payload : Fields
tiny_payload = field "id" (int (pos 7)) (
    field "codigo" (str "KIT-7") (
      field "depositos"
        (arr
          (cons (deposit_json 1 "Galpao" 11) (cons (deposit_json 2 "Full Mercado Livre" 14) nil)))
        end))

-- Mercado Livre has five.
abbrev five_in_full : String → Option Fields
five_in_full inventory = some (field "available_quantity" (int (pos 5)) end)

abbrev full_deposit : Deposit
full_deposit = record {
  deposit_tiny_id = pos 2;
  deposit_name = "Full Mercado Livre";
  ignore = true;
  balance = whole (pos 14);
  reserved = whole (pos 1);
  available = whole (pos 13);
  in_transfer = whole (pos 0);
  company = null;
}

abbrev stored : StockDeposits
stored id = if id == 7 then full_deposit ∷ [] else []

abbrev before_item : Store
before_item = record {
  stock = λ id. none;
  deposits = stored;
  database = known_stock;
  log = create_sync_log 0 1 "stock" none;
}

abbrev one_waiting : Fanout
one_waiting = record {
  log = create_sync_log 0 1 "stock" none;
  phase = publishing;
  unpublished = 0;
  waiting = 1;
  counted = 0;
  skipped = 0;
  closed = 0;
}

item_counts_example :
    (store_of (
      process_stock_item no_number names no_price note no_kit shop only_seven no_parents 100 7
        (some five_in_full)
        true
        true
        deposits_refused
        (found tiny_payload)
        before_item)).log
    ≡ (run 1 (consumer 100 true) one_waiting).log
unfolding extract_deposits from_tiny_api as_float
item_counts_example =
    item_counts no_number names no_price note no_kit shop only_seven no_parents 100 7 1 0
      (some five_in_full) true deposits_refused tiny_payload _ _ simple before_item one_waiting refl
      refl refl refl refl
