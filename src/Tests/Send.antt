-- ===== src/Tests/Send.antt =====
-- Calls of src/tiny_mirror/services/fulfillment_transfer_service.py at concrete inputs.
use tiny_mirror.Prelude.{
  ◌≡◌, refl, ℕ, zero, suc, String, true, Option, none, some, List, [], ◌∷◌, ℤ, pos, ◌*ℤ◌,
}
use tiny_mirror.Json.{Json, int, arr, cons, nil, obj, end, field, Fields}
use tiny_mirror.Fulfillment.Catalog.{Product}
use tiny_mirror.Fulfillment.Send.{
  Dyadic, Movement, movement, exit, entry, Exchange, Books, transfer_to_full, if_found,
  after_get_product, with_cost, after_get_stock, if_available, move_units, record_stock_movement,
  post_movement, record_row, extract_cost, extract_deposit_available, as_float, tiny_id_of,
  is_below,
}
use tiny_mirror.Fulfillment.Request.{timed_out, answered, request}
use tiny_mirror.Fulfillment.Send.Copies.{IsHonest}
use tiny_mirror.Fulfillment.Transfer.{create}
use tiny_mirror.Fulfillment.Send.Ledger.{Ends, transfer_to_full-Ends}

abbrev no_float : String → Option Dyadic
no_float text = none

abbrev cents : Json → Option ℤ
cents (int z) = some (z *ℤ pos 100)
cents _ = none

abbrev catalogue : List Product
catalogue = record { tiny_id = 7; sku = "KIT-7" } ∷ []

abbrev product_answer : Fields
product_answer = field "precos" (obj (field "precoCusto" (int (pos 12)) end)) end

abbrev stock_answer : Fields
stock_answer =
    field "depositos"
      (arr
        (cons (obj (field "id" (int (pos 851264346)) (field "disponivel" (int (pos 9)) end))) nil))
      end

abbrev empty_books : Books
empty_books = record { movements = []; table = record { rows = []; next_id = 1 } }

-- Tiny records every movement, but the answer to the first request of each is lost.
abbrev late : List Movement → Movement → ℕ → Exchange
late before mv zero = record { seen = timed_out; recorded = true }
late before mv (suc n) = record { seen = answered 201 true; recorded = true }

late-IsHonest : IsHonest late
late-IsHonest before mv zero e = refl
late-IsHonest before mv (suc n) e = refl

-- Four units are to be sent, and eight leave Galpão.
twice :
    (transfer_to_full no_float cents
      (λ i. some product_answer)
      (λ i. some stock_answer)
      late
      true
      true
      500
      catalogue
      "KIT-7"
      (pos 4)
      empty_books).1.movements
    ≡ movement exit 7 (pos 4) (pos 1200)
      ∷ movement exit 7 (pos 4) (pos 1200)
      ∷ movement entry 7 (pos 4) (pos 1200)
      ∷ movement entry 7 (pos 4) (pos 1200)
      ∷ []
unfolding transfer_to_full if_found after_get_product with_cost after_get_stock if_available
    move_units record_stock_movement post_movement request record_row extract_cost
    extract_deposit_available as_float tiny_id_of is_below ◌*ℤ◌ create
twice = refl

transfer_to_full-Ends_example : Ends (pos 4) empty_books (
    transfer_to_full no_float cents
      (λ i. some product_answer)
      (λ i. some stock_answer)
      late
      true
      true
      500
      catalogue
      "KIT-7"
      (pos 4)
      empty_books)
transfer_to_full-Ends_example =
    transfer_to_full-Ends no_float cents (λ i. some product_answer) (λ i. some stock_answer) late
      true true 500 late-IsHonest catalogue "KIT-7" (pos 4) empty_books
