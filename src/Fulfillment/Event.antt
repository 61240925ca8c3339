-- ===== src/Fulfillment/Event.antt =====
-- What an operation of Mercado Livre's fulfilment log says: whether it is a seller's shipment that
-- arrives, how many units, and when (services/fulfillment_reception_service.py). `none` is an
-- exception, except in `extract_received_at`, where it is Python's None.
use Prim.Native.Char.{code}
use tiny_mirror.Prelude.{
  String, ◌≡◌, Bool, true, false, ◌||◌, Option, none, some, List, [], ◌∷◌, ℤ, pos, ◌+ℤ◌, ◌*ℤ◌, any,
  if◌then◌else◌, ◌==◌, string_eq, nat_eq, arith, eq_iff, inl, inr, refl, Option-cases,
}
use tiny_mirror.Json.{
  Json, int, str, arr, obj, nil, Fields, end, field, get, contains, put, get-put_self,
  contains-put_self, or_else, to_int, items, iterate, as_dict, is_text, hashable,
}
use tiny_mirror.Fulfillment.Transfer.{Time}

infixl 5 ◌>>=◌
abbrev pub ◌>>=◌ {ℓ κ} : {A : Type ℓ} {B : Type κ} → Option A → (A → Option B) → Option B
none >>= f = none
some a >>= f = f a

-- A successful chain, taken apart.
pub >>=-eq-some {ℓ κ} :
    {A : Type ℓ} {B : Type κ} (m : Option A) (f : A → Option B) {b : B}
    → (m >>= f) ≡ some b
    → (a : A) × (m ≡ some a) × (f a ≡ some b)
>>=-eq-some (some a) f h = (a, refl, h)
>>=-eq-some none f h = cc

abbrev is_inbound_link : Json → Bool
is_inbound_link (obj r) = is_text (get r "type") "inbound_id"
is_inbound_link _ = false

unfoldable pub is_seller_inbound_event : Fields → Option Bool
is_seller_inbound_event op =
    let op_type = get op "type" in
    if is_text op_type "INBOUND_RECEPTION"
    then some true
    else if is_text op_type "TRANSFER_DELIVERY"
    then (do
      refs ← iterate (or_else (get op "external_references") (arr nil))
      some (any is_inbound_link refs))
    else some false

-- `op.get("type") in INBOUND_EVENT_TYPES`
unfoldable pub is_inbound_type : Fields → Option Bool
is_inbound_type op =
    let op_type = get op "type" in
    if hashable op_type
    then some (is_text op_type "INBOUND_RECEPTION" || is_text op_type "TRANSFER_DELIVERY")
    else none

-- `int(v)`, and 0 where that raises.
abbrev int_or_zero : Json → ℤ
int_or_zero v = elim (to_int v) [ none ↦ pos 0 | some z ↦ z ]

-- The first of the keys that holds something that `int` takes.
abbrev first_int : Fields → List String → ℤ
first_int op [] = pos 0
first_int op (k ∷ ks) = elim (to_int (get op k)) [ none ↦ first_int op ks | some z ↦ z ]

from_other_keys : Fields → ℤ
from_other_keys op = first_int op ("quantity" ∷ "units" ∷ "total_units" ∷ [])

-- `key in d`, where `v or {}` is a dict `d`.
abbrev dict_with : String → Json → Option Fields
dict_with key v = do d ← as_dict (or_else v (obj end)); if contains d key then some d else none

from_quantities : Fields → ℤ
from_quantities op = elim (dict_with "received" (get op "quantities")) [
  | none ↦ from_other_keys op
  | some quantities ↦ int_or_zero (get quantities "received")
]

unfoldable pub extract_received_qty : Fields → ℤ
unfolding from_quantities from_other_keys
extract_received_qty op = elim (dict_with "available_quantity" (get op "detail")) [
  | none ↦ from_quantities op
  | some detail ↦ int_or_zero (get detail "available_quantity")
]

-- The units of one entry of `not_available_detail` whose status is `transfer`.
abbrev transfer_units : Json → ℤ
transfer_units (obj d) =
    if is_text (get d "status") "transfer"
    then int_or_zero (or_else (get d "quantity") (int (pos 0)))
    else pos 0
transfer_units _ = pos 0

abbrev sum_transfer : ℤ → List Json → ℤ
sum_transfer total [] = total
sum_transfer total (d ∷ ds) = sum_transfer (total +ℤ transfer_units d) ds

-- Anything but a list counts as nothing.
unfoldable pub extract_transfer_qty : Fields → ℤ
unfolding ◌+ℤ◌
extract_transfer_qty stock = elim (or_else (get stock "not_available_detail") (arr nil)) [
  | arr ds ↦ sum_transfer (pos 0) (items ds)
  | _ ↦ pos 0
]

-- A final Z, written as an offset.
unfoldable pub with_offset : String → String
with_offset String.[] = String.[]
with_offset (String.◌∷◌ c String.[]) = if code c == b'Z' then "+00:00" else String.◌∷◌ c String.[]
with_offset (String.◌∷◌ c (String.◌∷◌ d s)) = String.◌∷◌ c (with_offset (String.◌∷◌ d s))

-- `read` stands for `datetime.fromisoformat(...).astimezone(UTC)`, `none` for a text that it refuses.
module _ (read : String → Option Time) where
  unfoldable pub extract_received_at : Fields → Option Time
  unfolding with_offset
  extract_received_at op = elim (get op "date_created") [
    | str raw ↦ if raw == "" then none else read (with_offset raw)
    | _ ↦ none
  ]

abbrev detail_of : Fields → Option Fields
detail_of op = as_dict (or_else (get op "detail") (obj end))

-- A copy of the event with its quantity multiplied, for the inventory of a kit. A `detail` that is
-- neither a dict nor falsy cannot be copied.
unfoldable pub scale_event : ℤ → Fields → Option Fields
scale_event multiplier op = do
  detail ← detail_of op
  let quantity = int (extract_received_qty op *ℤ multiplier)
  some (put op "detail" (obj (put detail "available_quantity" quantity)))

dict_with-put :
    (key : String) (d : Fields) (v : Json) → dict_with key (obj (put d key v)) ≡ some (put d key v)
dict_with-put key end v = ground (arith, eq_iff key key)
dict_with-put key (field k w rest) v =
    ground (arith, eq_iff k key, contains-put_self (field k w rest) key v)

extract_received_qty-put :
    (op detail : Fields) (q : ℤ)
    → extract_received_qty (put op "detail" (obj (put detail "available_quantity" (int q)))) ≡ q
unfolding extract_received_qty
extract_received_qty-put op detail q =
    let d = put detail "available_quantity" (int q) in
    ground (
      arith,
      get-put_self op "detail" (obj d),
      dict_with-put "available_quantity" detail (int q),
      get-put_self detail "available_quantity" (int q),
    )

-- A scaled copy of an event counts for the event's units times the multiplier.
pub extract_received_qty-scale_event :
    (multiplier : ℤ) (op scaled : Fields)
    → scale_event multiplier op ≡ some scaled
    → extract_received_qty scaled ≡ extract_received_qty op *ℤ multiplier
unfolding scale_event
extract_received_qty-scale_event multiplier op scaled h = elim (Option-cases (detail_of op)) [
  | inl e ↦ cc (rw e at h)
  | inr (detail, e) ↦
      let q = extract_received_qty op *ℤ multiplier in
      let same : put op "detail" (obj (put detail "available_quantity" (int q))) ≡ scaled =
        cc (rw e at h) in
      rw (← same) (extract_received_qty-put op detail q)
]
