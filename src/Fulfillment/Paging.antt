-- ===== src/Fulfillment/Paging.antt =====
-- `_fetch_chunk_inbound` and `_fetch_inbound_events` (services/fulfillment_reception_service.py):
-- the pages of one window, and the windows of every inventory.
pub mod Serve
pub mod Complete
use tiny_mirror.Prelude.{
  ℕ, zero, suc, ◌+◌, String, Bool, true, false, ◌&&◌, ◌||◌, Option, none, some, List, [], ◌∷◌, ◌++◌,
  ℤ, pos, leb_ℤ, ltb_ℤ, length, ◌==◌, int_eq, nat_eq, if◌then◌else◌,
}
use tiny_mirror.Json.{Json, int, arr, obj, nil, end, Fields, get, or_else, to_int, iterate, as_dict}
use tiny_mirror.Fulfillment.Transfer.{Time}
use tiny_mirror.Fulfillment.Event.{
  ◌>>=◌, is_inbound_type, is_seller_inbound_event, extract_received_qty, scale_event,
}
use tiny_mirror.Fulfillment.Windows.{Window, windows}

-- How a loop over the service ends: with a value, with an exception, or out of fuel.
pub data Outcome (A : Type 0) : Type 0 where
  done : A → Outcome A
  raised : Outcome A
  unfinished : Outcome A

-- The tests on an operation that has passed the first one, or has not.
unfoldable pub tests_after_type : Fields → Bool → Option Bool
tests_after_type op false = some false
tests_after_type op true = do
  seller ← is_seller_inbound_event op
  some (seller && ltb_ℤ (pos 0) (extract_received_qty op))

-- The tests of the loop's body on one operation.
unfoldable pub is_credited : Fields → Option Bool
unfolding tests_after_type
is_credited op = is_inbound_type op >>= tests_after_type op

-- The operations of one page that count.
unfoldable pub select : List Json → Option (List Fields)
select [] = some []
select (v ∷ vs) =
    let rest = select vs in
    do op ← as_dict v; keep ← is_credited op; ops ← rest; some (if keep then op ∷ ops else ops)

-- What one response holds: its operations, how many there are, and the total that it reports.
pub record Page : Type 0 where
  pub kept : List Fields
  pub count : ℕ
  pub total : ℤ

unfoldable pub read_page : Fields → Option Page
read_page response = do
  results ← iterate (or_else (get response "results") (arr nil))
  kept ← select results
  paging ← as_dict (or_else (get response "paging") (obj end))
  total ← to_int (or_else (get paging "total") (int (pos 0)))
  some (record { kept = kept; count = length results; total = total })

abbrev pub page_limit : ℕ
page_limit = 50

-- `fetched_so_far >= api_total or not results`
unfoldable pub is_last_page : ℕ → Page → Bool
is_last_page offset page = leb_ℤ page.total (pos (offset + page.count)) || page.count == 0

-- `list_operations offset` is the response for one inventory and one window; `none` where the client
-- raises.
module _ (list_operations : ℕ → Option Fields) where
  unfoldable pub page_at : ℕ → Option Page
  page_at offset = do response ← list_operations offset; read_page response

  unfoldable pub fetch_pages : ℕ → ℕ → List Fields → Outcome (List Fields)
  fetch_pages zero offset out = unfinished
  fetch_pages (suc fuel) offset out = elim (page_at offset) [
    | none ↦ raised
    | some page ↦
        if is_last_page offset page
        then done (out ++ page.kept)
        else fetch_pages fuel (offset + page_limit) (out ++ page.kept)
  ]

  unfoldable pub fetch_chunk_inbound : ℕ → Outcome (List Fields)
  unfolding fetch_pages page_at is_last_page
  fetch_chunk_inbound fuel = fetch_pages fuel 0 []

-- The copies of a chunk's events that are collected.
unfoldable pub scale_all : ℤ → List Fields → Option (List Fields)
scale_all multiplier [] = some []
scale_all multiplier (e ∷ es) =
    let rest = scale_all multiplier es in
    do scaled ← scale_event multiplier e; others ← rest; some (scaled ∷ others)

unfoldable pub scale_chunk : ℤ → List Fields → Option (List Fields)
unfolding scale_all
scale_chunk multiplier events =
    if multiplier == pos 1 then some events else scale_all multiplier events

pub record InventorySource : Type 0 where
  pub inventory_id : String
  pub multiplier : ℤ

abbrev pub append_outcome : Outcome (List Fields) → Outcome (List Fields) → Outcome (List Fields)
append_outcome (done xs) (done ys) = done (xs ++ ys)
append_outcome (done xs) raised = raised
append_outcome (done xs) unfinished = unfinished
append_outcome raised _ = raised
append_outcome unfinished _ = unfinished

abbrev pub scaled_outcome : ℤ → Outcome (List Fields) → Outcome (List Fields)
scaled_outcome multiplier (done events) = elim (scale_chunk multiplier events) [
  | none ↦ raised
  | some es ↦ done es
]
scaled_outcome multiplier raised = raised
scaled_outcome multiplier unfinished = unfinished

-- `list_operations inventory window offset`; `fuel` bounds the pages of one window and the windows of
-- one inventory.
module _ (list_operations : String → Window → ℕ → Option Fields) (fuel : ℕ) (now : Time) where
  unfoldable pub fetch_windows : InventorySource → List Window → Outcome (List Fields)
  fetch_windows source [] = done []
  fetch_windows source (w ∷ ws) =
      append_outcome
        (scaled_outcome source.multiplier
          (fetch_chunk_inbound (list_operations source.inventory_id w) fuel))
        (fetch_windows source ws)

  unfoldable pub fetch_inbound_events : List InventorySource → Time → Outcome (List Fields)
  unfolding fetch_windows
  fetch_inbound_events [] oldest = done []
  fetch_inbound_events (source ∷ sources) oldest =
      append_outcome
        (elim (windows fuel oldest now) [ none ↦ unfinished | some ws ↦ fetch_windows source ws ])
        (fetch_inbound_events sources oldest)
