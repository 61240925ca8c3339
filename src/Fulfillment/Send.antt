-- ===== src/Fulfillment/Send.antt =====
-- `transfer_to_full` (services/fulfillment_transfer_service.py): units leave the deposit Galpão and
-- enter the deposit Full ML in Tiny, and a transfer is recorded.
pub mod Copies
pub mod Ledger
use Prim.Native.Nat.{◌^◌}
use tiny_mirror.Prelude.{
  ℕ, String, Bool, true, false, ◌||◌, Option, none, some, List, [], ◌∷◌, ◌++◌, ℤ, pos, ◌*ℤ◌, ltb_ℤ,
  ◌==◌, nat_eq, string_eq, int_beq, if◌then◌else◌,
}
use tiny_mirror.Json.{
  Json, null, bool, int, float, str, arr, nil, obj, end, Fields, get, contains, truthy, or_else,
  iterate, as_dict,
}
use tiny_mirror.Fulfillment.Transfer.{Time, Transfer, Table, api, create}
use tiny_mirror.Fulfillment.Event.{◌>>=◌}
use tiny_mirror.Fulfillment.Catalog.{Product}
use tiny_mirror.Fulfillment.Request.{Seen, max_retries, request}

abbrev pub deposit_galpao : ℕ
deposit_galpao = 851264346

abbrev pub deposit_full_ml : ℕ
deposit_full_ml = 912048995

abbrev pub transfer_obs : String
transfer_obs = "[AUTO] TRANSFERÊNCIA FULFILLMENT"

-- "S" and "E".
pub data Direction : Type 0 where
  exit entry : Direction

pub record Movement : Type 0 where
  pub product_id : ℕ
  pub deposit_id : ℕ
  pub direction : Direction
  pub quantity : ℤ
  pub price_unit : ℤ

-- A request for a movement: what the client sees, and whether Tiny has recorded the movement.
pub record Exchange : Type 0 where
  pub seen : Seen
  pub recorded : Bool

-- What a call changes: the movements that Tiny has recorded, and the table.
pub record Books : Type 0 where
  pub movements : List Movement
  pub table : Table

-- `client_error` is whatever the client raises, `bad_payload` an answer of the wrong shape,
-- `database_error` a refused INSERT or commit.
pub data SendError : Type 0 where
  product_not_found insufficient_stock client_error bad_payload database_error : SendError

pub data Sent : Type 0 where
  sent : Transfer → Sent
  failed : SendError → Sent

abbrev pub movement : Direction → ℕ → ℤ → ℤ → Movement
movement exit tiny_id quantity cost = record {
  product_id = tiny_id;
  deposit_id = deposit_galpao;
  direction = exit;
  quantity = quantity;
  price_unit = cost;
}
movement entry tiny_id quantity cost = record {
  product_id = tiny_id;
  deposit_id = deposit_full_ml;
  direction = entry;
  quantity = quantity;
  price_unit = cost;
}

-- A float, m / 2 ^ k.
pub record Dyadic : Type 0 where
  pub m : ℤ
  pub k : ℕ

-- `available < quantity`
unfoldable pub is_below : Dyadic → ℤ → Bool
is_below x quantity = ltb_ℤ x.m (quantity *ℤ pos (2 ^ x.k))

-- `v == deposit_id`, of a decoded value.
abbrev is_id : Json → ℕ → Bool
is_id (int z) id = int_beq z (pos id)
is_id (float m k) id = int_beq m (pos id *ℤ pos (2 ^ k))
is_id _ id = false

-- `dep.get("deposito", {}).get("id")`: null where the key is missing.
abbrev inner_id : Fields → Option Json
inner_id dep =
    if contains dep "deposito"
    then as_dict (get dep "deposito") >>= (λ inner. some (get inner "id"))
    else some null

-- The test of the loop; the second half is not reached where the first holds.
abbrev is_deposit : ℕ → Fields → Option Bool
is_deposit id dep =
    if is_id (get dep "id") id then some true else inner_id dep >>= (λ v. some (is_id v id))

-- `to_float` is Python's `float` of a text, `decimal` its `Decimal(str(v))` in cents, none where
-- these raise.
module _ (to_float : String → Option Dyadic) (decimal : Json → Option ℤ) where
  unfoldable pub as_float : Json → Option Dyadic
  as_float (int z) = some (record { m = z; k = 0 })
  as_float (float m k) = some (record { m = m; k = k })
  as_float (str s) = to_float s
  as_float (bool true) = some (record { m = pos 1; k = 0 })
  as_float (bool false) = some (record { m = pos 0; k = 0 })
  as_float _ = none

  first_deposit : ℕ → List Json → Option Dyadic
  unfolding as_float
  first_deposit id [] = some (record { m = pos 0; k = 0 })
  first_deposit id (v ∷ vs) =
      let rest = first_deposit id vs in
      as_dict v >>= (λ dep. is_deposit id dep >>= (λ found.
        if found
        then as_float (or_else (get dep "disponivel") (or_else (get dep "saldo") (int (pos 0))))
        else rest))

  unfoldable pub extract_deposit_available : Fields → ℕ → Option Dyadic
  unfolding first_deposit
  extract_deposit_available stock id =
      iterate (or_else (get stock "depositos") (arr nil)) >>= first_deposit id

  -- Zero where the price cannot be read.
  unfoldable pub extract_cost : Fields → Option ℤ
  extract_cost product = as_dict (or_else (get product "produto") (obj product)) >>= (λ item.
      as_dict (or_else (get item "precos") (obj end)) >>= (λ precos.
        let raw = or_else (get precos "precoCusto") (or_else (get precos "preco") (str "0")) in
        some (elim (decimal raw) [ none ↦ pos 0 | some cents ↦ cents ])))

  unfoldable pub tiny_id_of : String → List Product → Option ℕ
  tiny_id_of sku [] = none
  tiny_id_of sku (p ∷ ps) = if p.sku == sku then some p.tiny_id else tiny_id_of sku ps

  -- The client: `exchange` is what becomes of the request of that number for a movement, after the
  -- movements before it; `stores` is whether the database takes the row.
  module _ (get_product get_stock : ℕ → Option Fields)
      (exchange : List Movement → Movement → ℕ → Exchange) (refresh_ok stores : Bool)
      (now : Time) where
    unfoldable pub record_row : String → ℕ → ℤ → ℤ → Books → Sent × Books
    unfolding create
    record_row sku tiny_id quantity cost b =
        let (row, table') =
          create now
            (record {
              product_tiny_id = tiny_id;
              product_sku = sku;
              quantity = quantity;
              cost_per_unit = cost;
              transferred_at = now;
              notes = some transfer_obs;
              source = api;
            })
            b.table in
        if stores then (sent row, record b { table = table' }) else (failed database_error, b)

    abbrev pub send_movement : Movement → ℕ → List Movement → Seen × List Movement
    send_movement mv n before =
        let x = exchange before mv n in (x.seen, if x.recorded then before ++ mv ∷ [] else before)

    unfoldable pub post_movement : Movement → List Movement → Bool × List Movement
    unfolding request
    post_movement mv before = request (send_movement mv) refresh_ok max_retries 0 before

    -- A call that raises ends the whole.
    unfoldable pub record_stock_movement : Movement → (Books → Sent × Books) → Books → Sent × Books
    unfolding post_movement
    record_stock_movement mv next b =
        let (returned, movements) = post_movement mv b.movements in
        let after = record b { movements = movements } in
        if returned then next after else (failed client_error, after)

    unfoldable pub move_units : String → ℕ → ℤ → ℤ → Books → Sent × Books
    unfolding record_stock_movement record_row
    move_units sku tiny_id quantity cost =
        record_stock_movement (movement exit tiny_id quantity cost) (
          record_stock_movement (movement entry tiny_id quantity cost)
            (record_row sku tiny_id quantity cost))

    unfoldable pub if_available : String → ℕ → ℤ → ℤ → Option Dyadic → Books → Sent × Books
    unfolding move_units
    if_available sku tiny_id quantity cost none b = (failed bad_payload, b)
    if_available sku tiny_id quantity cost (some available) b =
        if is_below available quantity
        then (failed insufficient_stock, b)
        else move_units sku tiny_id quantity cost b

    unfoldable pub after_get_stock : String → ℕ → ℤ → ℤ → Option Fields → Books → Sent × Books
    unfolding if_available
    after_get_stock sku tiny_id quantity cost none b = (failed client_error, b)
    after_get_stock sku tiny_id quantity cost (some stock) b =
        if_available sku tiny_id quantity cost (extract_deposit_available stock deposit_galpao) b

    unfoldable pub with_cost : String → ℕ → ℤ → Option ℤ → Books → Sent × Books
    unfolding after_get_stock
    with_cost sku tiny_id quantity none b = (failed bad_payload, b)
    with_cost sku tiny_id quantity (some cost) b =
        after_get_stock sku tiny_id quantity cost (get_stock tiny_id) b

    unfoldable pub after_get_product : String → ℕ → ℤ → Option Fields → Books → Sent × Books
    unfolding with_cost
    after_get_product sku tiny_id quantity none b = (failed client_error, b)
    after_get_product sku tiny_id quantity (some product) b =
        with_cost sku tiny_id quantity (extract_cost product) b

    unfoldable pub if_found : String → ℤ → Option ℕ → Books → Sent × Books
    unfolding after_get_product
    if_found sku quantity none b = (failed product_not_found, b)
    if_found sku quantity (some tiny_id) b =
        after_get_product sku tiny_id quantity (get_product tiny_id) b

    unfoldable pub transfer_to_full : List Product → String → ℤ → Books → Sent × Books
    unfolding if_found
    transfer_to_full products sku quantity = if_found sku quantity (tiny_id_of sku products)
