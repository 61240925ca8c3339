-- ===== src/Sync/Fanout.antt =====
-- One fan-out of services/product_sync_service.py or services/stock_sync_service.py under
-- src/tiny_mirror: the producer publishes its items and records their number, and the consumers of
-- the items count them in the log, in any order of their commits.
pub mod Invariant
use tiny_mirror.Prelude.{
  ℕ, zero, suc, ◌+◌, String, Bool, true, false, List, [], ◌∷◌, Option, if◌then◌else◌,
}
use tiny_mirror.Sync.Log.{
  Time, SyncLog, Metadata, create_sync_log, increment_processed, increment_failed,
  set_total_enqueued, try_finalize, is_stalled, closed_by_watchdog,
}

-- How far the producer is: publishing, between the two commits of `_record_total_enqueued`, or done.
pub data Phase : Type 0 where
  publishing recorded done : Phase

abbrev pub is_done : Phase → Bool
is_done done = true
is_done _ = false

pub record Fanout : Type 0 where
  pub log : SyncLog
  pub phase : Phase
  -- Items that are still to be published.
  pub unpublished : ℕ
  -- Items in the queue, or whose consumer has counted nothing yet.
  pub waiting : ℕ
  -- Consumers that have counted their item and have still to call `try_finalize`.
  pub counted : ℕ
  -- Items whose consumer returned without counting them.
  pub skipped : ℕ
  -- Calls of `try_finalize` that returned True.
  pub closed : ℕ

-- One commit, of the producer, of a consumer or of the watchdog. An item is counted as synced or as
-- errored. It is skipped when Tiny does not know it, when the call of Tiny raises something else and,
-- for stock, when its product is not mirrored.
pub data Action : Type 0 where
  publish record_total finalize_total : Action
  count_synced count_errored skip finalize_item : Action
  watch : ℕ → String → Action

unfoldable pub start_fanout : Time → ℕ → String → Option Metadata → ℕ → Fanout
start_fanout now id sync_type metadata total = record {
  log = create_sync_log now id sync_type metadata;
  phase = publishing;
  unpublished = total;
  waiting = 0;
  counted = 0;
  skipped = 0;
  closed = 0;
}

publish_one : ℕ → Fanout → Fanout
publish_one zero f = f
publish_one (suc u) f = record f { unpublished = u; waiting = suc f.waiting }

-- The number is recorded once every item is published.
record_when_published : ℕ → Phase → ℕ → Fanout → Fanout
record_when_published total publishing zero f = record f {
  log = set_total_enqueued total f.log;
  phase = recorded;
}
record_when_published _ _ _ f = f

finish : SyncLog × Bool → Fanout → Fanout
finish (log, true) f = record f { log = log; closed = suc f.closed }
finish (log, false) f = record f { log = log }

finalize_when_recorded : Time → Phase → Fanout → Fanout
unfolding finish
finalize_when_recorded now recorded f = finish (try_finalize now f.log) (record f { phase = done })
finalize_when_recorded _ _ f = f

count_one : (SyncLog → SyncLog) → ℕ → Fanout → Fanout
count_one increment zero f = f
count_one increment (suc w) f = record f {
  log = increment f.log;
  waiting = w;
  counted = suc f.counted;
}

skip_one : ℕ → Fanout → Fanout
skip_one zero f = f
skip_one (suc w) f = record f { waiting = w; skipped = suc f.skipped }

finalize_one : Time → ℕ → Fanout → Fanout
finalize_one now zero f = f
finalize_one now (suc c) f = finish (try_finalize now f.log) (record f { counted = c })

-- An action that is not possible yet leaves everything as it is.
unfoldable pub step : ℕ → Time → Action → Fanout → Fanout
unfolding publish_one record_when_published finish finalize_when_recorded count_one skip_one
    finalize_one
step total now publish f = publish_one f.unpublished f
step total now record_total f = record_when_published total f.phase f.unpublished f
step total now finalize_total f = finalize_when_recorded now f.phase f
step total now count_synced f = count_one increment_processed f.waiting f
step total now count_errored f = count_one increment_failed f.waiting f
step total now skip f = skip_one f.waiting f
step total now finalize_item f = finalize_one now f.counted f
step total now (watch max_minutes text) f =
    if is_stalled now max_minutes f.log
    then record f { log = closed_by_watchdog now text f.log }
    else f

-- A schedule: what is committed, and when.
unfoldable pub run : ℕ → List (Time × Action) → Fanout → Fanout
run total [] f = f
run total ((now, action) ∷ later) f = run total later (step total now action f)
