-- ===== src/Stock/Deposits.antt =====
-- The deposits of a product: src/tiny_mirror/mappers/stock_mapper.py, the helpers of
-- services/stock_sync_service.py over its result, and the writes of
-- infrastructure/repositories/stock_repository.py.
pub mod Overlay
use Prim.Native.Nat.{◌^◌}
use tiny_mirror.Prelude.{
  ℕ, ◌+◌, ◌*◌, String, Bool, true, false, ◌||◌, Option, none, some, List, [], ◌∷◌, ◌++◌, any, ℤ,
  pos, negsuc, ◌+ℤ◌, ◌*ℤ◌, max_ℤ, int_beq, ◌==◌, nat_eq, string_eq, int_eq, if◌then◌else◌,
}
use tiny_mirror.Json.{
  Json, null, int, str, bool, arr, obj, nil, Fields, get, contains, truthy, or_else, to_int,
  truncate, iterate,
}
use tiny_mirror.Fulfillment.Event.{◌>>=◌}
use tiny_mirror.Fulfillment.Send.{Dyadic, as_float}

abbrev pub ml_full_deposit_name : String
ml_full_deposit_name = "Full Mercado Livre"

abbrev pub ml_full_deposit_sentinel_id : ℤ
ml_full_deposit_sentinel_id = pos 0

abbrev pub whole : ℤ → Dyadic
whole z = record { m = z; k = 0 }

-- A deposit as the mapper returns it and as its row is stored; `in_transfer` is zero where the dict
-- has no such key.
pub record Deposit : Type 0 where
  pub deposit_tiny_id : ℤ
  pub deposit_name : String
  pub ignore : Bool
  pub balance : Dyadic
  pub reserved : Dyadic
  pub available : Dyadic
  pub in_transfer : Dyadic
  pub company : Json

-- `max(0.0, x)`
abbrev pub non_negative : Dyadic → Dyadic
non_negative x = record x { m = max_ℤ (pos 0) x.m }

-- The sum of two floats, which is not rounded here.
unfoldable pub add_floats : Dyadic → Dyadic → Dyadic
add_floats x y = record { m = x.m *ℤ pos (2 ^ y.k) +ℤ y.m *ℤ pos (2 ^ x.k); k = x.k + y.k }

-- A name that is no text raises here; in the source it does so a few calls later, when it is lowered,
-- before anything is stored.
unfoldable pub name_of : Json → Option String
name_of (str s) = some s
name_of _ = none

abbrev pub is_null : Json → Bool
is_null null = true
is_null _ = false

-- `to_float` is Python's `float` of a text, none where it raises.
module _ (to_float : String → Option Dyadic) where
  -- Zero where the value is missing, empty or no number.
  unfoldable pub to_non_negative_float : Json → Dyadic
  unfolding as_float
  to_non_negative_float v = elim (as_float to_float (λ j. none) v) [
    | none ↦ whole (pos 0)
    | some x ↦ non_negative x
  ]

  unfoldable pub mapped : Fields → ℤ → String → Deposit
  unfolding to_non_negative_float
  mapped deposit id name = record {
    deposit_tiny_id = id;
    deposit_name = name;
    ignore = truthy (get deposit "desconsiderar");
    balance = to_non_negative_float (get deposit "saldo");
    reserved = to_non_negative_float (get deposit "reservado");
    available = to_non_negative_float (get deposit "disponivel");
    in_transfer = whole (pos 0);
    company = get deposit "empresa";
  }

  -- What is no dict, or has no id, is skipped.
  unfoldable pub extract_each : List Json → Option (List Deposit)
  unfolding mapped name_of
  extract_each [] = some []
  extract_each (obj deposit ∷ vs) =
      let rest = extract_each vs in
      if is_null (get deposit "id")
      then rest
      else to_int (get deposit "id") >>= (λ id.
        name_of (or_else (get deposit "nome") (str ""))
        >>= (λ name. rest >>= (λ ds. some (mapped deposit id name ∷ ds))))
  extract_each (_ ∷ vs) = extract_each vs

  unfoldable pub extract_deposits : Fields → Option (List Deposit)
  unfolding extract_each
  extract_deposits raw = iterate (or_else (get raw "depositos") (arr nil)) >>= extract_each

-- `mentions needle name` is the source's `needle in name.lower()`.
module _ (mentions : String → String → Bool) where
  unfoldable pub total_available : (Deposit → Bool) → List Deposit → Dyadic
  unfolding add_floats
  total_available counts [] = whole (pos 0)
  total_available counts (d ∷ ds) =
      let rest = total_available counts ds in if counts d then add_floats d.available rest else rest

  unfoldable pub sum_tiny_fl_available : List Deposit → ℤ
  unfolding total_available
  sum_tiny_fl_available ds =
      let total = total_available (λ d. mentions "full mercado livre" d.deposit_name) ds in
      max_ℤ (pos 0) (truncate total.m total.k)

  unfoldable pub sum_tiny_galpao_available : List Deposit → ℤ
  unfolding total_available
  sum_tiny_galpao_available ds =
      let total =
        total_available (λ d. mentions "galpão" d.deposit_name || mentions "galpao" d.deposit_name)
          ds in
      max_ℤ (pos 0) (truncate total.m total.k)

-- The row for Mercado Livre's numbers: the stock that can be sold and what ML moves about.
abbrev pub full_row : ℤ → ℤ → Deposit → Deposit
full_row available in_transfer d = record d {
  balance = whole (available +ℤ in_transfer);
  available = whole available;
  in_transfer = whole in_transfer;
  reserved = whole (pos 0);
  ignore = false;
}

abbrev pub synthetic_row : ℤ → ℤ → Deposit
synthetic_row available in_transfer = record {
  deposit_tiny_id = ml_full_deposit_sentinel_id;
  deposit_name = ml_full_deposit_name;
  ignore = false;
  balance = whole (available +ℤ in_transfer);
  reserved = whole (pos 0);
  available = whole available;
  in_transfer = whole in_transfer;
  company = str "Mercado Livre";
}

-- The first deposit of the name is written over; where there is none, one is appended.
unfoldable pub overlay_ml_full_deposit : ℤ → ℤ → List Deposit → List Deposit
overlay_ml_full_deposit available in_transfer [] = synthetic_row available in_transfer ∷ []
overlay_ml_full_deposit available in_transfer (d ∷ ds) =
    let rest = overlay_ml_full_deposit available in_transfer ds in
    if d.deposit_name == ml_full_deposit_name
    then full_row available in_transfer d ∷ ds
    else d ∷ rest

-- The rows of stock_deposits, by product.
abbrev pub StockDeposits : Type 0
StockDeposits = ℕ → List Deposit

-- Delete the product's rows and insert the given ones.
unfoldable pub upsert_deposits : ℕ → List Deposit → StockDeposits → StockDeposits
upsert_deposits id deposits table other = if id == other then deposits else table other

-- The id of the row with the name, or the sentinel.
unfoldable pub full_deposit_id : List Deposit → ℤ
full_deposit_id [] = ml_full_deposit_sentinel_id
full_deposit_id (d ∷ ds) =
    let rest = full_deposit_id ds in
    if d.deposit_name == ml_full_deposit_name then d.deposit_tiny_id else rest

-- `INSERT ... ON CONFLICT (product_tiny_id, deposit_tiny_id) DO UPDATE`
unfoldable pub insert_or_update : ℤ → ℤ → ℤ → List Deposit → List Deposit
insert_or_update id available in_transfer [] =
    record (synthetic_row available in_transfer) { deposit_tiny_id = id } ∷ []
insert_or_update id available in_transfer (d ∷ ds) =
    let rest = insert_or_update id available in_transfer ds in
    if d.deposit_tiny_id == id then full_row available in_transfer d ∷ ds else d ∷ rest

unfoldable pub upsert_ml_full_deposit : ℕ → ℤ → ℤ → StockDeposits → StockDeposits
unfolding upsert_deposits insert_or_update full_deposit_id
upsert_ml_full_deposit id available in_transfer table =
    upsert_deposits id
      (insert_or_update (full_deposit_id (table id)) available in_transfer (table id)) table
