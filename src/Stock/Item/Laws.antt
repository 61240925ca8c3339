-- ===== src/Stock/Item/Laws.antt =====
-- What a product's stock item does to the readings and to the log of its fan-out.
use tiny_mirror.Prelude.{
  ℕ, suc, ◌≡◌, refl, ap, ◌∙◌, sym, String, Bool, true, false, Option, none, some, List, [], ◌∷◌, ℤ,
  arith,
}
use tiny_mirror.Json.{Json, Fields}
use tiny_mirror.Fulfillment.Transfer.{Time}
use tiny_mirror.Fulfillment.Send.{Dyadic}
use tiny_mirror.Fulfillment.Catalog.{Catalog}
use tiny_mirror.Sync.Log.{increment_processed, increment_failed, try_finalize, is_finished}
use tiny_mirror.Sync.Fanout.{Fanout, Action, count_synced, count_errored, finalize_item, step, run}
use tiny_mirror.Stock.Deposits.{Deposit, extract_deposits}
use tiny_mirror.Stock.Detection.{Snapshot, ProductData}
use tiny_mirror.Stock.Item.{
  StockData, Store, Answer, found, not_found, failed, Refusal, none_refused, stock_refused,
  deposits_refused, is_error, Ended, store_of, write_stock, count_item, from_tiny_api, finish_item,
  with_product, with_stock, process_stock_item,
}

-- The actions of a consumer on the log, with what it counts.
abbrev pub consumer : Time → Bool → List (Time × Action)
consumer now true = (now, count_errored) ∷ (now, finalize_item) ∷ []
consumer now false = (now, count_synced) ∷ (now, finalize_item) ∷ []

-- The snapshots, the transfers and the log are the same.
abbrev pub SameReadings : Ended → Ended → Type 0
SameReadings a b =
    ((store_of a).database ≡ (store_of b).database) × ((store_of a).log ≡ (store_of b).log)

module _ (to_float : String → Option Dyadic) (mentions : String → String → Bool)
    (decimal : Json → Option ℤ) (note : Option Snapshot → Snapshot → String)
    (quantity_kit : String → Option (ℕ × String)) (catalog : Catalog)
    (product_of : ℕ → Option ProductData) (parent_kits : String → List (String × ℤ)) where
  abbrev process :
      Time → ℕ → Option (String → Option Fields) → Bool → Bool → Refusal → Answer → Store → Ended
  process =
      process_stock_item to_float mentions decimal note quantity_kit catalog product_of parent_kits

  with_product_raw :
      (now : Time) (id : ℕ) (ml ml' : Option (String → Option Fields)) (detects logged : Bool)
      (refusal : Refusal) (new : StockData) (ds : List Deposit) (product : Option ProductData)
      (store : Store)
      → SameReadings
          (with_product to_float mentions decimal note quantity_kit catalog product_of parent_kits
            now id ml detects logged refusal new ds product store)
          (with_product to_float mentions decimal note quantity_kit catalog product_of parent_kits
            now id ml' detects logged refusal new ds product store)
  unfolding with_product finish_item write_stock
  with_product_raw now id ml ml' detects logged refusal new ds none store = (refl, refl)
  with_product_raw now id ml ml' detects logged none_refused new ds (some p) store = (refl, refl)
  with_product_raw now id ml ml' detects logged stock_refused new ds (some p) store = (refl, refl)
  with_product_raw now id ml ml' detects logged deposits_refused new ds (some p) store =
      (refl, refl)

  with_stock_raw :
      (now : Time) (id : ℕ) (ml ml' : Option (String → Option Fields)) (detects logged : Bool)
      (refusal : Refusal) (new : Option StockData) (ds : Option (List Deposit)) (store : Store)
      → SameReadings
          (with_stock to_float mentions decimal note quantity_kit catalog product_of parent_kits now
            id ml detects logged refusal new ds store)
          (with_stock to_float mentions decimal note quantity_kit catalog product_of parent_kits now
            id ml' detects logged refusal new ds store)
  unfolding with_stock
  with_stock_raw now id ml ml' detects logged refusal (some new) (some ds) store =
      with_product_raw now id ml ml' detects logged refusal new ds (product_of id) store
  with_stock_raw now id ml ml' detects logged refusal none ds store = (refl, refl)
  with_stock_raw now id ml ml' detects logged refusal (some new) none store = (refl, refl)

  -- What an item leaves of the snapshots, of the transfers and of the log does not depend on what
  -- Mercado Livre answers, nor on whether there is a client for it.
  pub item_reads_raw :
      (now : Time) (id : ℕ) (ml ml' : Option (String → Option Fields)) (detects logged : Bool)
      (refusal : Refusal) (answer : Answer) (store : Store)
      → SameReadings
          (process now id ml detects logged refusal answer store)
          (process now id ml' detects logged refusal answer store)
  unfolding process_stock_item
  item_reads_raw now id ml ml' detects logged refusal not_found store = (refl, refl)
  item_reads_raw now id ml ml' detects logged refusal failed store = (refl, refl)
  item_reads_raw now id ml ml' detects logged refusal (found raw) store =
      with_stock_raw now id ml ml' detects logged refusal _ _ store

  count_is_two_actions :
      (now total waiting : ℕ) (errored : Bool) (f : Fanout)
      → f.waiting ≡ suc waiting
      → count_item now errored f.log ≡ (run total (consumer now errored) f).log
  unfolding count_item run step try_finalize is_finished increment_processed increment_failed
  count_is_two_actions now total waiting true f h = ground (arith, h)
  count_is_two_actions now total waiting false f h = ground (arith, h)

  product_counted :
      (now id : ℕ) (ml : Option (String → Option Fields)) (detects : Bool) (refusal : Refusal)
      (new : StockData) (ds : List Deposit) (product : ProductData) (store : Store)
      → (store_of (
          with_product to_float mentions decimal note quantity_kit catalog product_of parent_kits
            now id ml detects true refusal new ds
            (some product)
            store)).log
        ≡ count_item now (is_error refusal) store.log
  unfolding with_product finish_item write_stock
  product_counted now id ml detects none_refused new ds product store = refl
  product_counted now id ml detects stock_refused new ds product store = refl
  product_counted now id ml detects deposits_refused new ds product store = refl

  -- A stock item that Tiny knows, whose payload can be read and whose product is mirrored makes two
  -- actions of the fan-out on the log, once its message waits: it is counted, as errored exactly when the
  -- database refuses one of its writes, and then `try_finalize` is called.
  pub item_counts :
      (now id total waiting : ℕ) (ml : Option (String → Option Fields)) (detects : Bool)
      (refusal : Refusal) (raw : Fields) (new : StockData) (ds : List Deposit)
      (product : ProductData) (store : Store) (f : Fanout)
      → from_tiny_api to_float mentions decimal note quantity_kit catalog product_of parent_kits raw
        ≡ some new
      → extract_deposits to_float raw ≡ some ds
      → product_of id ≡ some product
      → f.log ≡ store.log
      → f.waiting ≡ suc waiting
      → (store_of (process now id ml detects true refusal (found raw) store)).log
        ≡ (run total (consumer now (is_error refusal)) f).log
  unfolding process_stock_item with_stock
  item_counts now id total waiting ml detects refusal raw new ds product store f e1 e2 e3 same h =
      ap
        (λ n.
          (store_of (
            with_stock to_float mentions decimal note quantity_kit catalog product_of parent_kits
              now id ml detects true refusal n (extract_deposits to_float raw) store)).log)
        e1
      ∙ ap
          (λ d.
            (store_of (
              with_stock to_float mentions decimal note quantity_kit catalog product_of parent_kits
                now id ml detects true refusal (some new) d store)).log)
          e2
      ∙ ap
          (λ p.
            (store_of (
              with_product to_float mentions decimal note quantity_kit catalog product_of
                parent_kits now id ml detects true refusal new ds p store)).log)
          e3
      ∙ product_counted now id ml detects refusal new ds product store
      ∙ ap (count_item now (is_error refusal)) (sym same)
      ∙ count_is_two_actions now total waiting (is_error refusal) f h
