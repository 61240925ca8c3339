-- ===== src/Fulfillment/Windows.antt =====
-- The windows in which `_fetch_inbound_events` asks for a log
-- (services/fulfillment_reception_service.py): at most 59 days each, since the service refuses more
-- than 60, from the oldest transfer to now.
pub mod Coverage
use tiny_mirror.Prelude.{
  ℕ, zero, suc, ◌+◌, ◌*◌, ◌/◌, Option, none, some, List, [], ◌∷◌, ltb, if◌then◌else◌,
}
use tiny_mirror.Fulfillment.Transfer.{Time}

abbrev pub millisecond : ℕ
millisecond = 1000

abbrev pub second : ℕ
second = 1_000_000

abbrev pub day : ℕ
day = 86_400 * second

abbrev pub chunk_span : ℕ
chunk_span = 59 * day

-- `_format_ml_datetime` writes a moment down to the second, `...:%S.000Z`: the moment that the text
-- names.
unfoldable pub format_ml_datetime : Time → Time
format_ml_datetime t = t / second * second

pub record Window : Type 0 where
  pub date_from : Time
  pub date_to : Time

-- Python's `min`.
unfoldable pub chunk_end : Time → Time → Time
chunk_end chunk_start now =
    let bound = chunk_start + chunk_span in if ltb now bound then now else bound

-- The `while` loop over one inventory, with fuel; `none` says that it ran out.
unfoldable pub windows : ℕ → Time → Time → Option (List Window)
unfolding format_ml_datetime chunk_end
windows zero chunk_start now = none
windows (suc fuel) chunk_start now =
    let next = chunk_end chunk_start now in
    let window : Window = record {
      date_from = format_ml_datetime chunk_start;
      date_to = format_ml_datetime next;
    } in
    let rest = windows fuel (next + millisecond) now in
    if ltb chunk_start now
    then (elim rest [ none ↦ none | some ws ↦ some (window ∷ ws) ])
    else some []
