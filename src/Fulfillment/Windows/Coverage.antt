-- ===== src/Fulfillment/Windows/Coverage.antt =====
-- The windows end, are short enough, leave out no second, and share the second at which two of them
-- meet.
use tiny_mirror.Prelude.{
  ℕ, zero, suc, ◌+◌, ◌*◌, ◌%◌, ◌≤◌, ◌<◌, ◌≡◌, ◌≢◌, ◌⊎◌, false, some, List, [], ◌∷◌, arith,
  Option-cases, sym, ◌∙◌, ltb, ltb→lt, Bool-cases, inl, inr, All,
}
use native.Mathlib.Decide.{dec_le}
use tiny_mirror.Fulfillment.Transfer.{Time}
use tiny_mirror.Fulfillment.Windows.{
  millisecond, second, day, chunk_span, format_ml_datetime, Window, chunk_end, windows,
}

-- The moment lies in one of the windows, ends included.
abbrev pub Covers : List Window → Time → Type 0
Covers [] t = ⊥
Covers (w ∷ ws) t = ((w.date_from ≤ t) × (t ≤ w.date_to)) ⊎ Covers ws t

abbrev pub IsShort : Window → Type 0
IsShort w = w.date_to ≤ w.date_from + 60 * day

window_short :
    (now start : Time)
    → format_ml_datetime (chunk_end start now) ≤ format_ml_datetime start + 60 * day
unfolding format_ml_datetime chunk_end
window_short now start = ground arith

chunk_end-bounds :
    (now start : Time)
    → start < now
    → (start < chunk_end start now)
      × (chunk_end start now ≤ now)
      × ((chunk_end start now ≡ now) ⊎ (chunk_end start now ≡ start + chunk_span))
unfolding chunk_end
chunk_end-bounds now start h = ground arith

window_holds :
    (start next s : ℕ)
    → start < s * second + millisecond
    → s * second ≤ next
    → (format_ml_datetime start ≤ s * second) × (s * second ≤ format_ml_datetime next)
unfolding format_ml_datetime
window_holds start next s h k = omega arith

-- A whole second that the windows are to hold.
abbrev pub IsInside : Time → Time → ℕ → Type 0
IsInside start now s = (start < s * second + millisecond) × (s * second + millisecond ≤ now)

-- With as much fuel as there are microseconds to go the loop ends. Each window that is asked for
-- spans 60 days at most, and together they hold every whole second that is later than a millisecond
-- before the start, up to a millisecond before now.
pub windows_cover :
    (now : Time) (fuel start : ℕ)
    → now ≤ start + fuel
    → (ws : List Window) × (windows (suc fuel) start now ≡ some ws)
      × All IsShort ws
      × ((s : ℕ) → IsInside start now s → Covers ws (s * second))
unfolding windows
windows_cover now zero start h =
    let over : ltb start now ≡ false = ground arith in
    ([], rw over, tt, λ s inside. absurd (omega arith))
windows_cover now (suc fuel) start h = elim (Bool-cases (ltb start now)) [
  | inr over ↦ ([], rw over, tt, λ s inside. absurd (ground arith))
  | inl before ↦
      let next = chunk_end start now in
      let bounds = chunk_end-bounds now start (ltb→lt start now before) in
      let (ws, found, short, held) =
        windows_cover now fuel (next + millisecond) (omega (arith, bounds)) in
      let w : Window = record {
        date_from = format_ml_datetime start;
        date_to = format_ml_datetime next;
      } in
      (
        w ∷ ws,
        rw (before, found),
        (window_short now start, short),
        λ s inside. elim (dec_le (s * second) next) [
          | yes k ↦ inl (window_holds start next s inside.0 k)
          | no k ↦ inr (held s (omega arith, inside.1))
        ],
      )
]

same_second :
    (next : ℕ)
    → next % second + millisecond < second
    → format_ml_datetime (next + millisecond) ≡ format_ml_datetime next
unfolding format_ml_datetime
same_second next h = omega arith

-- The first window of a loop that goes on, and what the loop goes on with.
windows_first :
    (now : Time) (fuel start : ℕ) (w : Window) (ws : List Window)
    → windows (suc fuel) start now ≡ some (w ∷ ws)
    → (w.date_to ≡ format_ml_datetime (chunk_end start now))
      × (w.date_from ≡ format_ml_datetime start)
      × (windows fuel (chunk_end start now + millisecond) now ≡ some ws)
unfolding windows
windows_first now fuel start w ws h =
    elim (Option-cases (windows fuel (chunk_end start now + millisecond) now)) [
      | inl e ↦ ground arith
      | inr (rest, e) ↦ ground arith
    ]

windows_go_on :
    (now : Time) (fuel start : ℕ) (w : Window) (ws : List Window)
    → windows fuel start now ≡ some (w ∷ ws)
    → start < now
unfolding windows
windows_go_on now zero start w ws h = cc
windows_go_on now (suc fuel) start w ws h = ground arith

windows_none :
    (now start : Time) {w : Window} (ws : List Window) → windows zero start now ≢ some (w ∷ ws)
unfolding windows
windows_none now start ws h = cc

windows_begin :
    (now : Time) (fuel start : ℕ) (w : Window) (ws : List Window)
    → windows fuel start now ≡ some (w ∷ ws)
    → w.date_from ≡ format_ml_datetime start
windows_begin now zero start w ws h = absurd (windows_none now start ws h)
windows_begin now (suc fuel) start w ws h = (windows_first now fuel start w ws h).1

-- Where a window does not end in the last millisecond of a second, the next one is asked for from
-- the very second at which it ends, although the loop steps a millisecond past it: an event of that
-- second is fetched twice.
pub windows_share_second :
    (now : Time) (fuel start : ℕ) (w w' : Window) (ws : List Window)
    → windows fuel start now ≡ some (w ∷ w' ∷ ws)
    → start % second + millisecond < second
    → w'.date_from ≡ w.date_to
windows_share_second now zero start w w' ws h k = absurd (windows_none now start (w' ∷ ws) h)
windows_share_second now (suc fuel) start w w' ws h k =
    let (ends, _, rest) = windows_first now fuel start w (w' ∷ ws) h in
    let next = chunk_end start now in
    let begins = windows_begin now fuel (next + millisecond) w' ws rest in
    let bounds = chunk_end-bounds now start (windows_go_on now (suc fuel) start w (w' ∷ ws) h) in
    let on = windows_go_on now fuel (next + millisecond) w' ws rest in
    begins ∙ same_second next (ground (arith, bounds, on)) ∙ sym ends
