-- ===== src/Fulfillment/Fifo/Correctness.antt =====
-- What `fifo_match_with_chronology` promises, over decoded events and whichever reading of dates.
use mathlib.Core.List.{Perm}
use mathlib.Core.List.Perm
use tiny_mirror.Prelude.{
  ◌+◌, ◌≡◌, refl, ap, ◌∙◌, Bool, Option, List, [], ◌∷◌, map, String, arith, pos, pos_part, ◌+ℤ◌,
  ◌≤ℤ◌, int_laws, parts_of_eq, AllPairs,
}
use tiny_mirror.Json.{Fields}
use tiny_mirror.Sort.{sort, insert, ascending, IsSorted, sort-IsSorted, sort-perm}
use tiny_mirror.Fulfillment.Transfer.{Time, Transfer}
use tiny_mirror.Fulfillment.Event.{extract_received_at}
use tiny_mirror.Fulfillment.Fifo.{
  Slot, Credit, visit, credit, start, match_all, match_slots, oldest_first, date_key, slot_of,
  fifo_match_with_chronology,
}
use tiny_mirror.Fulfillment.Fifo.Units.{units, Fits, total_delta, match_all-Fits, match_all-units}
use tiny_mirror.Fulfillment.Fifo.Chronology.{IsFair, match_all-IsFair}

units-insert :
    (before : Slot → Slot → Bool) (s : Slot) (slots : List Slot)
    → units (insert before s slots) ≡ pos_part s.remaining + units slots
units-insert before s [] = refl
units-insert before s (x ∷ slots) = ground (arith, units-insert before s slots)

units-sort :
    (before : Slot → Slot → Bool) (slots : List Slot) → units (sort before slots) ≡ units slots
unfolding sort
units-sort before [] = refl
units-sort before (s ∷ slots) =
    omega (arith, units-insert before s (sort before slots), units-sort before slots)

-- The transfers in the order of the decisions: the given ones, oldest first.
pub record IsQueue (transfers queue : List Transfer) : Type 0 where
  pub same : Perm queue transfers
  pub oldest_to_newest : IsSorted (λ t. t.transferred_at) queue

oldest_first-IsQueue : (transfers : List Transfer) → IsQueue transfers (oldest_first transfers)
oldest_first-IsQueue transfers = record {
  same = sort-perm (ascending (λ t. t.transferred_at)) transfers;
  oldest_to_newest = sort-IsSorted (λ t. t.transferred_at) transfers;
}

conserved :
    (queue : List Transfer) (slots : List Slot)
    → total_delta (match_all queue (sort (ascending (λ s. date_key s.date)) slots)).0
      ≤ℤ pos (units slots)
conserved queue slots =
    let sorted = sort (ascending (λ s. date_key s.date)) slots in
    let e = parts_of_eq (match_all-units queue sorted) in
    omega (int_laws, e.0, e.1, units-sort (ascending (λ s. date_key s.date)) slots)

visit-date :
    (at : Time) (seen : Option Time) (s : Slot) (c : Credit) → (visit at seen s c).0.date ≡ s.date
unfolding visit
visit-date at seen s c = ground arith

credit-dates :
    (at : Time) (seen : Option Time) (slots : List Slot) (c : Credit)
    → map (λ s. s.date) (credit at seen slots c).0 ≡ map (λ s. s.date) slots
unfolding credit
credit-dates at seen [] c = refl
credit-dates at seen (s ∷ slots) c =
    ground (arith, visit-date at seen s c, credit-dates at seen slots (visit at seen s c).1)

match_all-dates :
    (ts : List Transfer) (slots : List Slot)
    → map (λ s. s.date) (match_all ts slots).1 ≡ map (λ s. s.date) slots
unfolding match_all
match_all-dates [] slots = refl
match_all-dates (t ∷ ts) slots =
    let slots' = (credit t.transferred_at t.last_event_at slots (start t)).0 in
    match_all-dates ts slots' ∙ credit-dates t.transferred_at t.last_event_at slots (start t)

map-slot_of-date :
    (read : String → Option Time) (events : List Fields)
    → map (λ s. s.date) (map (slot_of read) events) ≡ map (extract_received_at read) events
map-slot_of-date read [] = refl
map-slot_of-date read (e ∷ events) =
    ap (λ ds. extract_received_at read e ∷ ds) (map-slot_of-date read events)

module _ (read : String → Option Time) (transfers : List Transfer) (events : List Fields) where
  -- There is one decision for each transfer, oldest first. Each credits at least no units and at
  -- most what its transfer still waits for, and says `is_full` exactly when the transfer is then
  -- covered. All of them together credit no more units than the events report.
  pub fifo_match_conserves :
      (queue : List Transfer) × IsQueue transfers queue
      × AllPairs Fits queue (fifo_match_with_chronology read transfers events)
      × (total_delta (fifo_match_with_chronology read transfers events)
          ≤ℤ pos (units (map (slot_of read) events)))
  unfolding fifo_match_with_chronology match_slots
  fifo_match_conserves =
      let queue = oldest_first transfers in
      (
        queue,
        oldest_first-IsQueue transfers,
        match_all-Fits queue (sort (ascending (λ s. date_key s.date)) (map (slot_of read) events)),
        conserved queue (map (slot_of read) events),
      )

  -- The events with what the decisions leave of them.
  abbrev pub leftover : List Slot
  leftover = (match_slots transfers (map (slot_of read) events)).1

  -- The events that are left have the dates of the given ones and the units that no decision
  -- credits. A decision that credits units names an event date at or after its transfer and after
  -- the last event that was credited before; it is full, or no unit is left in an event of such a
  -- date.
  pub fifo_match-IsFair :
      (queue : List Transfer) × IsQueue transfers queue
      × AllPairs (IsFair leftover) queue (fifo_match_with_chronology read transfers events)
      × Perm (map (λ s. s.date) leftover) (map (extract_received_at read) events)
      × (pos (units leftover) +ℤ total_delta (fifo_match_with_chronology read transfers events)
          ≡ pos (units (map (slot_of read) events)))
  unfolding fifo_match_with_chronology match_slots
  fifo_match-IsFair =
      let queue = oldest_first transfers in
      let slots = sort (ascending (λ s. date_key s.date)) (map (slot_of read) events) in
      (
        queue,
        oldest_first-IsQueue transfers,
        match_all-IsFair queue slots,
        rw (match_all-dates queue slots, ← map-slot_of-date read events)
            (Perm.map (λ s. s.date)
              (sort-perm (ascending (λ s. date_key s.date)) (map (slot_of read) events))),
        rw (← units-sort (ascending (λ s. date_key s.date)) (map (slot_of read) events))
            (match_all-units queue slots),
      )
