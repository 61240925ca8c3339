-- ===== src/Tests/Reception.antt =====
-- Scans of src/tiny_mirror/services/fulfillment_reception_service.py at concrete inputs.
use mathlib.Core.List.{Perm}
use tiny_mirror.Prelude.{
  ℕ, suc, if◌then◌else◌, ◌==◌, string_eq, max_ℤ, min_ℤ, ◌-ℤ◌, ◌+◌, ◌*◌, ◌≡◌, refl, String, Option,
  none, some, List, [], ◌∷◌, map, arith, ℤ, pos, ◌+ℤ◌, ◌≤ℤ◌, All, AllPairs,
}
use tiny_mirror.Json.{int, arr, cons, nil, str, obj, end, field, Fields}
use tiny_mirror.Tests.Samples.{transfer_of}
use tiny_mirror.Sort.{sort}
use tiny_mirror.Fulfillment.Transfer.{Time, Transfer}
use tiny_mirror.Fulfillment.Event.{
  extract_received_qty, extract_received_at, is_inbound_type, is_seller_inbound_event,
}
use tiny_mirror.Fulfillment.Fifo.{
  Slot, credit, visit, match_slots, match_all, slot_of, fifo_match_with_chronology,
}
use tiny_mirror.Fulfillment.Fifo.Units.{units, Fits, total_delta}
use tiny_mirror.Fulfillment.Fifo.Chronology.{IsFair}
use tiny_mirror.Fulfillment.Fifo.Correctness.{
  IsQueue, leftover, fifo_match_conserves, fifo_match-IsFair,
}
use tiny_mirror.Fulfillment.Fifo.DoubleCredit.{deltas}
use tiny_mirror.Fulfillment.Windows.{Window, windows, second, day}
use tiny_mirror.Fulfillment.Windows.Coverage.{Covers, IsShort, IsInside, windows_cover}
use tiny_mirror.Fulfillment.Paging.{done, select, Page, is_credited, fetch_chunk_inbound}
use tiny_mirror.Fulfillment.Paging.Serve.{serve}
use tiny_mirror.Fulfillment.Paging.Complete.{fetch_chunk_inbound_complete}

abbrev queue : List Transfer
queue = transfer_of 2 (pos 8) 300 ∷ transfer_of 1 (pos 10) 100 ∷ []

-- The texts that the tests use as dates.
abbrev read_date : String → Option Time
read_date s = if s == "T200+00:00" then some 200 else if s == "T400+00:00" then some 400 else none

abbrev reception : String → ℤ → Fields
reception date q = field "type" (str "INBOUND_RECEPTION") (
    field "date_created" (str date)
      (field "detail" (obj (field "available_quantity" (int q) end)) end))

abbrev receptions : List Fields
receptions = reception "T400Z" (pos 9) ∷ reception "T200Z" (pos 6) ∷ []

-- Six units at 200 and four at 400 go to the older transfer, five at 400 to the newer one.
fifo_match_deltas :
    deltas (fifo_match_with_chronology read_date queue receptions) ≡ pos 10 ∷ pos 5 ∷ []
unfolding fifo_match_with_chronology match_slots match_all sort credit extract_received_at max_ℤ
    ◌-ℤ◌ visit extract_received_qty min_ℤ ◌+ℤ◌
fifo_match_deltas = refl

fifo_match_conserves_example :
    (order : List Transfer) × IsQueue queue order
    × AllPairs Fits order (fifo_match_with_chronology read_date queue receptions)
    × (total_delta (fifo_match_with_chronology read_date queue receptions)
        ≤ℤ pos (units (map (slot_of read_date) receptions)))
fifo_match_conserves_example = fifo_match_conserves read_date queue receptions

fifo_match-IsFair_example :
    (order : List Transfer) × IsQueue queue order
    × AllPairs
        (IsFair (leftover read_date queue receptions))
        order
        (fifo_match_with_chronology read_date queue receptions)
    × Perm
        (map (λ s. s.date) (leftover read_date queue receptions))
        (map (extract_received_at read_date) receptions)
    × (pos (units (leftover read_date queue receptions))
          +ℤ total_delta (fifo_match_with_chronology read_date queue receptions)
        ≡ pos (units (map (slot_of read_date) receptions)))
fifo_match-IsFair_example = fifo_match-IsFair read_date queue receptions

abbrev dated : List Slot
dated =
    record { date = some 200; remaining = pos 6 }
    ∷ record { date = some 400; remaining = pos 9 }
    ∷ []

-- The scan starts half a second past a whole second, 100 days ago: two windows.
abbrev half_past : Time
half_past = 500_000

abbrev later : Time
later = half_past + 100 * day

windows_cover_example :
    (ws : List Window) × (windows (suc (100 * day)) half_past later ≡ some ws)
    × All IsShort ws
    × ((s : ℕ) → IsInside half_past later s → Covers ws (s * second))
windows_cover_example = windows_cover later (100 * day) half_past (omega arith)

fetch_chunk_inbound_complete_example :
    fetch_chunk_inbound (λ offset. some (serve receptions offset)) 2 ≡ done receptions
unfolding select is_credited is_inbound_type is_seller_inbound_event extract_received_qty
fetch_chunk_inbound_complete_example =
    fetch_chunk_inbound_complete receptions (λ offset. some (serve receptions offset)) 1
      (λ offset. refl) (omega arith) refl

-- A service that says that it has 60 operations, and always gives the same two.
abbrev sixty : ℕ → Option Fields
sixty offset = some (
    field "results"
      (arr (cons (obj (reception "T200Z" (pos 6))) (cons (obj (reception "T400Z" (pos 9))) nil)))
      (field "paging" (obj (field "total" (int (pos 60)) end)) end))

abbrev total_of : Option Page → ℤ
total_of none = pos 0
total_of (some page) = page.total
