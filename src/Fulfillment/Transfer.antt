-- ===== src/Fulfillment/Transfer.antt =====
-- The rows of `fulfillment_transfers` (src/tiny_mirror/infrastructure/orm/models.py) and the
-- repository over them (infrastructure/repositories/fulfillment_transfer_repository.py). A moment
-- is the number of microseconds from `datetime.min`, a cost is in cents.
use Prim.Native.String.{◌++◌ as append}
use tiny_mirror.Prelude.{
  ℕ, zero, suc, String, Bool, true, false, ◌&&◌, Option, none, some, List, [], ◌∷◌, ◌++◌, map, ℤ,
  pos, ◌+ℤ◌, leb_ℤ, min_ℤ, leb, ltb, ◌==◌, nat_eq, string_eq, if◌then◌else◌, length, take, drop,
  filter,
}
use tiny_mirror.Sort.{sort, descending}

abbrev pub Time : Type 0
Time = ℕ

pub data Status : Type 0 where
  pending received cancelled : Status

pub data Source : Type 0 where
  api tiny_webhook manual : Source

abbrev pub same_status : Status → Status → Bool
same_status pending pending = true
same_status received received = true
same_status cancelled cancelled = true
same_status _ _ = false

pub record Transfer : Type 0 where
  pub id : ℕ
  pub product_tiny_id : ℕ
  pub product_sku : String
  pub quantity : ℤ
  pub cost_per_unit : ℤ
  pub transferred_at : Time
  pub received_at : Option Time
  pub quantity_received : ℤ
  pub last_event_at : Option Time
  pub status : Status
  pub source : Source
  pub notes : Option String
  pub created_at : Time

-- The table, and the next value of its identity column.
pub record Table : Type 0 where
  pub rows : List Transfer
  pub next_id : ℕ

-- What a caller of `create` gives; `created_at` is the server's clock.
pub record NewTransfer : Type 0 where
  pub product_tiny_id : ℕ
  pub product_sku : String
  pub quantity : ℤ
  pub cost_per_unit : ℤ
  pub transferred_at : Time
  pub notes : Option String
  pub source : Source

new_row : ℕ → Time → NewTransfer → Transfer
new_row id now new = record {
  id = id;
  product_tiny_id = new.product_tiny_id;
  product_sku = new.product_sku;
  quantity = new.quantity;
  cost_per_unit = new.cost_per_unit;
  transferred_at = new.transferred_at;
  received_at = none;
  quantity_received = pos 0;
  last_event_at = none;
  status = pending;
  source = new.source;
  notes = new.notes;
  created_at = now;
}

unfoldable pub create : Time → NewTransfer → Table → Transfer × Table
unfolding new_row
create now new t =
    let row = new_row t.next_id now new in
    (row, record { rows = t.rows ++ row ∷ []; next_id = suc t.next_id })

-- A pending transfer of the SKU that was created at or after `since`.
is_recent : String → Time → Transfer → Bool
is_recent sku since r =
    r.product_sku == sku && same_status r.status pending && leb since r.created_at

unfoldable pub has_recent_pending : String → Time → List Transfer → Bool
unfolding is_recent
has_recent_pending sku since rows = ltb 0 (length (filter (is_recent sku since) rows))

abbrev pub pending_of : String → Transfer → Bool
pending_of sku r = r.product_sku == sku && same_status r.status pending

unfoldable pub list_pending_by_sku : String → List Transfer → List Transfer
unfolding sort
list_pending_by_sku sku rows =
    sort (descending (λ r. r.transferred_at)) (filter (pending_of sku) rows)

-- An absent filter selects every row.
selected : Option String → Option Status → Transfer → Bool
selected sku status r =
    (elim sku [ none ↦ true | some s ↦ r.product_sku == s ])
    && (elim status [ none ↦ true | some s ↦ same_status r.status s ])

-- One page, newest first, and the number of rows that match.
unfoldable pub list_all : Option String → Option Status → ℕ → ℕ → List Transfer → List Transfer × ℕ
unfolding selected sort
list_all sku status limit offset rows =
    let found = filter (selected sku status) rows in
    (take limit (drop offset (sort (descending (λ r. r.transferred_at)) found)), length found)

abbrev pub get_by_id : ℕ → List Transfer → Option Transfer
get_by_id id [] = none
get_by_id id (r ∷ rows) = if r.id == id then some r else get_by_id id rows

-- `UPDATE ... WHERE id = :id`
abbrev pub update_row : ℕ → (Transfer → Transfer) → List Transfer → List Transfer
update_row id f = map (λ r. if r.id == id then f r else r)

abbrev pub receive_all : Time → Transfer → Transfer
receive_all received_at r = record r {
  status = received;
  received_at = some received_at;
  quantity_received = r.quantity;
  last_event_at = some received_at;
}

unfoldable pub mark_received : ℕ → Time → List Transfer → List Transfer
mark_received id received_at = update_row id (receive_all received_at)

-- One SQL UPDATE: every right-hand side reads the old row.
unfoldable pub receive : ℤ → Time → Transfer → Transfer
receive delta at r =
    let is_complete = leb_ℤ r.quantity (r.quantity_received +ℤ delta) in
    record r {
      quantity_received = min_ℤ r.quantity (r.quantity_received +ℤ delta);
      last_event_at = some at;
      status = if is_complete then received else r.status;
      received_at = if is_complete then some at else r.received_at;
    }

unfoldable pub apply_partial_reception : ℕ → ℤ → Time → List Transfer → List Transfer
unfolding receive
apply_partial_reception id delta at = update_row id (receive delta at)

-- `text[:n]`
first_characters : ℕ → String → String
first_characters zero s = String.[]
first_characters (suc n) String.[] = String.[]
first_characters (suc n) (String.◌∷◌ c s) = String.◌∷◌ c (first_characters n s)

-- The note that a cancellation leaves, at most 5000 characters where there was one before.
cancel_note : String → Option String → String
unfolding first_characters
cancel_note reason notes =
    let tag = append "[cancelled: " (append reason "]") in
    let existing : String = elim notes [ none ↦ "" | some s ↦ s ] in
    if existing == "" then tag else first_characters 5000 (append existing (append " " tag))

unfoldable pub cancel : String → Transfer → Transfer
unfolding cancel_note
cancel reason r = record r { status = cancelled; notes = some (cancel_note reason r.notes) }

unfoldable pub mark_cancelled : ℕ → String → List Transfer → List Transfer
unfolding cancel
mark_cancelled id reason = update_row id (cancel reason)
