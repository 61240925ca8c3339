-- ===== src/Sync/Log/Table.antt =====
-- The table of logs as a map from ids to rows, and the watchdog's pass over it.
use tiny_mirror.Prelude.{
  ℕ, suc, ◌≡◌, refl, ap, String, false, Option, none, some, List, [], ◌∷◌, ◌==◌, nat_eq, filter,
  length, arith, inl, inr, Bool-cases, if◌then◌else◌,
}
use mathlib.Core.Option.{map as option_map}
use tiny_mirror.Sync.Log.{
  SyncLog, update_log, is_stalled, closed_by_watchdog, mark_stalled_as_failed,
}

-- What a table stands for: at most one row for each id.
abbrev pub LogMap : Type 0
LogMap = ℕ → Option SyncLog

unfoldable pub rows_by_id : List SyncLog → LogMap
rows_by_id [] id = none
rows_by_id (log ∷ table) id = if log.id == id then some log else rows_by_id table id

-- The map with the row of one id changed.
unfoldable pub modify : ℕ → (SyncLog → SyncLog) → LogMap → LogMap
modify id change logs other = if id == other then option_map change (logs other) else logs other

-- An update by id that leaves the ids alone does to the table what `modify` does to the map.
pub rows_by_id-update_log :
    (id : ℕ) (change : SyncLog → SyncLog) (table : List SyncLog)
    → ((log : SyncLog) → (change log).id ≡ log.id)
    → (other : ℕ)
    → rows_by_id (update_log id change table) other ≡ modify id change (rows_by_id table) other
unfolding rows_by_id modify update_log
rows_by_id-update_log id change [] keeps other = ground arith
rows_by_id-update_log id change (log ∷ table) keeps other =
    ground (arith, keeps log, rows_by_id-update_log id change table keeps other)

closed-not_stalled :
    (now max_minutes : ℕ) (text : String) (log : SyncLog)
    → is_stalled now max_minutes (closed_by_watchdog now text log) ≡ false
unfolding is_stalled closed_by_watchdog
closed-not_stalled now max_minutes text log = refl

-- A pass closes as many rows as are stalled, and a second pass at the same moment closes none and
-- changes nothing.
pub mark_stalled_twice :
    (now max_minutes : ℕ) (text again : String) (table : List SyncLog)
    → let (rows, closed) = mark_stalled_as_failed now max_minutes text table in
      (closed ≡ length (filter (is_stalled now max_minutes) table))
      × (mark_stalled_as_failed now max_minutes again rows ≡ (rows, 0))
unfolding mark_stalled_as_failed
mark_stalled_twice now max_minutes text again [] = (refl, refl)
mark_stalled_twice now max_minutes text again (log ∷ table) =
    let rest = mark_stalled_twice now max_minutes text again table in
    elim (Bool-cases (is_stalled now max_minutes log)) [
      | inl old ↦ rw old (
          rw (closed-not_stalled now max_minutes text log)
            (ap suc rest.0, ap (λ (rows, n). (closed_by_watchdog now text log ∷ rows, n)) rest.1))
      | inr live ↦ rw live (rw live (rest.0, ap (λ (rows, n). (log ∷ rows, n)) rest.1))
    ]
