-- ===== src/Fulfillment/Fifo.antt =====
-- `_fifo_match_with_chronology` (services/fulfillment_reception_service.py): transfers, oldest
-- first, against events, oldest first.
pub mod Units
pub mod Chronology
pub mod Correctness
pub mod Rescan
pub mod DoubleCredit
use tiny_mirror.Prelude.{
  ℕ, Bool, true, false, Option, none, some, List, [], ◌∷◌, map, ℤ, pos, ◌+ℤ◌, ◌-ℤ◌, leb_ℤ, ltb_ℤ,
  min_ℤ, max_ℤ, ltb, leb, String, if◌then◌else◌,
}
use tiny_mirror.Json.{Fields}
use tiny_mirror.Sort.{sort, ascending}
use tiny_mirror.Fulfillment.Transfer.{Time, Transfer}
use tiny_mirror.Fulfillment.Event.{extract_received_at, extract_received_qty}

-- An event with what is left of its units (`remaining_per_event`).
pub record Slot : Type 0 where
  pub date : Option Time
  pub remaining : ℤ

-- The loop's variables for one transfer.
pub record Credit : Type 0 where
  pub outstanding : ℤ
  pub delta : ℤ
  pub last_event_date : Option Time

-- `_MatchDecision`
pub record Decision : Type 0 where
  pub transfer_id : ℕ
  pub delta_units : ℤ
  pub is_full : Bool
  pub last_event_at : Option Time

-- The event is at or before the last one that was credited.
abbrev pub already_seen : Option Time → Time → Bool
already_seen none date = false
already_seen (some seen) date = leb date seen

abbrev pub is_eligible : Time → Option Time → Option Time → Bool
is_eligible transfer_at last_seen none = false
is_eligible transfer_at last_seen (some date) =
    if ltb date transfer_at then false else if already_seen last_seen date then false else true

-- `take` units from an event.
abbrev pub take_units : ℤ → Slot → Credit → Slot × Credit
take_units taken s c = (
  record s { remaining = s.remaining -ℤ taken },
  record {
    outstanding = c.outstanding -ℤ taken;
    delta = c.delta +ℤ taken;
    last_event_date = if ltb_ℤ (pos 0) taken then s.date else c.last_event_date;
  },
)

-- One round of the inner loop, past the `break`: each `continue` leaves both as they are.
unfoldable pub visit : Time → Option Time → Slot → Credit → Slot × Credit
visit transfer_at last_seen s c =
    if leb_ℤ s.remaining (pos 0)
    then (s, c)
    else if is_eligible transfer_at last_seen s.date
    then take_units (min_ℤ c.outstanding s.remaining) s c
    else (s, c)

unfoldable pub credit : Time → Option Time → List Slot → Credit → List Slot × Credit
credit transfer_at last_seen [] c = ([], c)
credit transfer_at last_seen (s ∷ slots) c =
    let (s', c') = visit transfer_at last_seen s c in
    let (slots', c'') = credit transfer_at last_seen slots c' in
    if leb_ℤ c.outstanding (pos 0) then (s ∷ slots, c) else (s' ∷ slots', c'')

abbrev pub start : Transfer → Credit
start t = record {
  outstanding = max_ℤ (pos 0) (t.quantity -ℤ t.quantity_received);
  delta = pos 0;
  last_event_date = none;
}

abbrev pub decide : Transfer → Credit → Decision
decide t c = record {
  transfer_id = t.id;
  delta_units = c.delta;
  is_full = leb_ℤ t.quantity (t.quantity_received +ℤ c.delta);
  last_event_at = c.last_event_date;
}

-- The outer loop.
unfoldable pub match_all : List Transfer → List Slot → List Decision × List Slot
match_all [] slots = ([], slots)
match_all (t ∷ ts) slots =
    let (slots', c) = credit t.transferred_at t.last_event_at slots (start t) in
    let (ds, rest) = match_all ts slots' in (decide t c ∷ ds, rest)

abbrev pub oldest_first : List Transfer → List Transfer
oldest_first = sort (ascending (λ t. t.transferred_at))

-- `datetime.min` is moment 0.
abbrev pub date_key : Option Time → ℕ
date_key none = 0
date_key (some date) = date

unfoldable pub match_slots : List Transfer → List Slot → List Decision × List Slot
match_slots transfers slots =
    match_all (oldest_first transfers) (sort (ascending (λ s. date_key s.date)) slots)

module _ (read : String → Option Time) where
  abbrev pub slot_of : Fields → Slot
  slot_of e = record { date = extract_received_at read e; remaining = extract_received_qty e }

  unfoldable pub fifo_match_with_chronology : List Transfer → List Fields → List Decision
  fifo_match_with_chronology transfers events = (match_slots transfers (map slot_of events)).0
