-- ===== src/Sync/Log.antt =====
-- src/tiny_mirror/infrastructure/repositories/sync_log_repository.py: the table `sync_logs`. An
-- operation on one row is a function of the row, and `update_log` applies it where the id matches.

pub mod Table
use tiny_mirror.Prelude.{
  ℕ, suc, ◌+◌, ◌*◌, String, Bool, true, false, ◌&&◌, Option, none, some, List, [], ◌∷◌, ℤ, pos,
  negsuc, ltb, leb, ◌==◌, nat_eq, if◌then◌else◌,
}

-- Microseconds from `datetime.min`.
abbrev pub Time : Type 0
Time = ℕ

pub data LogStatus : Type 0 where
  running completed failed : LogStatus

abbrev pub is_running : LogStatus → Bool
is_running running = true
is_running _ = false

-- `total_enqueued` is the key of the metadata that the operations read; `context` holds the others.
pub record Metadata : Type 0 where
  pub total_enqueued : Option ℕ
  pub context : List (String × String)

pub record SyncLog : Type 0 where
  pub id : ℕ
  pub sync_type : String
  pub status : LogStatus
  pub started_at : Time
  pub completed_at : Option Time
  pub items_processed : ℕ
  pub items_failed : ℕ
  pub error_message : Option String
  pub sync_metadata : Option Metadata

-- The row that is inserted: the counters and the start come from the columns' defaults.
unfoldable pub create_sync_log : Time → ℕ → String → Option Metadata → SyncLog
create_sync_log now id sync_type metadata = record {
  id = id;
  sync_type = sync_type;
  status = running;
  started_at = now;
  completed_at = none;
  items_processed = 0;
  items_failed = 0;
  error_message = none;
  sync_metadata = metadata;
}

unfoldable pub update_sync_log_complete : Time → ℕ → ℕ → SyncLog → SyncLog
update_sync_log_complete now processed missed log = record log {
  status = completed;
  completed_at = some now;
  items_processed = processed;
  items_failed = missed;
}

unfoldable pub update_sync_log_failed : Time → String → ℕ → ℕ → SyncLog → SyncLog
update_sync_log_failed now message processed missed log = record log {
  status = failed;
  completed_at = some now;
  error_message = some message;
  items_processed = processed;
  items_failed = missed;
}

unfoldable pub increment_processed : SyncLog → SyncLog
increment_processed log = record log { items_processed = suc log.items_processed }

unfoldable pub add_to_processed : ℤ → SyncLog → SyncLog
add_to_processed (pos count) log = record log { items_processed = log.items_processed + count }
add_to_processed (negsuc _) log = log

unfoldable pub increment_failed : SyncLog → SyncLog
increment_failed log = record log { items_failed = suc log.items_failed }

abbrev pub total_of : Option Metadata → Option ℕ
total_of none = none
total_of (some m) = m.total_enqueued

abbrev pub reached : Option ℕ → ℕ → Bool
reached none counted = false
reached (some total) counted = leb total counted

-- The condition of the update.
unfoldable pub is_finished : SyncLog → Bool
is_finished log =
    is_running log.status
    && reached (total_of log.sync_metadata) (log.items_processed + log.items_failed)

-- The row, and whether this call closed it.
unfoldable pub try_finalize : Time → SyncLog → SyncLog × Bool
unfolding is_finished
try_finalize now log =
    if is_finished log
    then (record log { status = completed; completed_at = some now }, true)
    else (log, false)

unfoldable pub is_stalled : Time → ℕ → SyncLog → Bool
is_stalled now max_minutes log =
    is_running log.status && ltb (log.started_at + max_minutes * 60_000_000) now

abbrev pub coalesce : Option String → String → String
coalesce none text = text
coalesce (some message) text = message

unfoldable pub closed_by_watchdog : Time → String → SyncLog → SyncLog
closed_by_watchdog now text log = record log {
  status = failed;
  completed_at = some now;
  error_message = some (coalesce log.error_message text);
}

-- The rows afterwards, and how many were closed. `text` is the message with the minutes written out.
unfoldable pub mark_stalled_as_failed : Time → ℕ → String → List SyncLog → List SyncLog × ℕ
mark_stalled_as_failed now max_minutes text [] = ([], 0)
mark_stalled_as_failed now max_minutes text (log ∷ table) =
    let (rest, closed) = mark_stalled_as_failed now max_minutes text table in
    if is_stalled now max_minutes log
    then (closed_by_watchdog now text log ∷ rest, suc closed)
    else (log ∷ rest, closed)

-- `UPDATE sync_logs SET ... WHERE id = :id`.
unfoldable pub update_log : ℕ → (SyncLog → SyncLog) → List SyncLog → List SyncLog
update_log id change [] = []
update_log id change (log ∷ table) =
    let rest = update_log id change table in if log.id == id then change log ∷ rest else log ∷ rest

-- `_record_total_enqueued` of the services: the key is set and the others stay.
abbrev pub with_total : ℕ → Option Metadata → Metadata
with_total total none = record { total_enqueued = some total; context = [] }
with_total total (some m) = record m { total_enqueued = some total }

unfoldable pub set_total_enqueued : ℕ → SyncLog → SyncLog
set_total_enqueued total log = record log {
  sync_metadata = some (with_total total log.sync_metadata);
}
