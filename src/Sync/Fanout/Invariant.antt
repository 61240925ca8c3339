-- ===== src/Sync/Fanout/Invariant.antt =====
-- What holds of a fan-out between two commits.
use tiny_mirror.Prelude.{
  ℕ, ◌+◌, ◌≤◌, ◌<◌, ◌≡◌, ◌≢◌, ◌↔◌, ◌⊎◌, nat_eq, ◌==◌, ◌&&◌, String, Bool, true, List, [], ◌∷◌,
  Option, none, some, arith,
}
use tiny_mirror.Sync.Log.{
  Time, running, completed, failed, Metadata, total_of, is_finished, create_sync_log,
  increment_processed, increment_failed, set_total_enqueued, try_finalize, is_stalled,
  closed_by_watchdog,
}
use tiny_mirror.Sync.Fanout.{publishing, done, is_done, Fanout, Action, start_fanout, step, run}

pub record Inv (total : ℕ) (f : Fanout) : Type 0 where
  pub accounted :
      f.unpublished + f.waiting + f.skipped + f.log.items_processed + f.log.items_failed ≡ total
  pub before : f.phase ≡ publishing → total_of f.log.sync_metadata ≡ none
  pub after : f.phase ≢ publishing → total_of f.log.sync_metadata ≡ some total
  pub published : f.phase ≢ publishing → f.unpublished ≡ 0
  pub unclosed : f.log.status ≢ completed → f.closed ≡ 0
  pub shut :
      f.log.status ≡ completed
      → (f.closed ≡ 1) × (f.phase ≢ publishing) × (f.waiting + f.skipped ≡ 0)
  pub due : f.log.status ≡ running → f.phase ≡ done → f.waiting + f.skipped ≡ 0 → 0 < f.counted

start_fanout-Inv :
    (now id : ℕ) (sync_type : String) (metadata : Option Metadata) (total : ℕ)
    → total_of metadata ≡ none
    → Inv total (start_fanout now id sync_type metadata total)
unfolding start_fanout create_sync_log
start_fanout-Inv now id sync_type metadata total h = ground arith

step-Inv : (total now : ℕ) (a : Action) (f : Fanout) → Inv total f → Inv total (step total now a f)
unfolding step increment_processed increment_failed set_total_enqueued try_finalize is_finished
    is_stalled closed_by_watchdog
step-Inv total now a f h = ground arith

run-Inv :
    (total : ℕ) (schedule : List (Time × Action)) (f : Fanout)
    → Inv total f
    → Inv total (run total schedule f)
unfolding run
run-Inv total [] f h = h
run-Inv total ((now, a) ∷ later) f h = run-Inv total later _ (step-Inv total now a f h)

-- Nothing is left to do but what the watchdog may.
unfoldable pub is_settled : Fanout → Bool
is_settled f = is_done f.phase && f.unpublished == 0 && f.waiting == 0 && f.counted == 0

step_keeps_skipped :
    (total now : ℕ) (a : Action) (f : Fanout) → f.skipped ≤ (step total now a f).skipped
unfolding step try_finalize is_stalled is_finished
step_keeps_skipped total now a f = ground arith

run_keeps_skipped :
    (total : ℕ) (schedule : List (Time × Action)) (f : Fanout)
    → f.skipped ≤ (run total schedule f).skipped
unfolding run
run_keeps_skipped total [] f = omega arith
run_keeps_skipped total ((now, a) ∷ later) f =
    omega
      (arith, step_keeps_skipped total now a f, run_keeps_skipped total later (step total now a f))

unfinished : (total : ℕ) (f : Fanout) → Inv total f → 0 < f.skipped → f.log.status ≢ completed
unfinished total f h some_skipped ended = absurd (ground arith)

closes_once :
    (total : ℕ) (f : Fanout)
    → Inv total f
    → (f.closed ≤ 1)
      × (f.closed ≡ 1 ↔ f.log.status ≡ completed)
      × (f.log.status ≡ completed
          → (f.log.items_processed + f.log.items_failed ≡ total) × (f.skipped ≡ 0))
closes_once total f h = ground arith

settles :
    (total : ℕ) (f : Fanout)
    → Inv total f
    → is_settled f ≡ true
    → f.skipped ≡ 0
    → (f.log.status ≡ completed) ⊎ (f.log.status ≡ failed)
unfolding is_settled
settles total f h settled none_skipped = ground arith

-- Every schedule of a fan-out whose log's metadata holds no total yet.
module _ (now id total : ℕ) (sync_type : String) (metadata : Option Metadata)
    (fresh : total_of metadata ≡ none) (schedule : List (Time × Action)) where
  abbrev pub after_run : Fanout
  after_run = run total schedule (start_fanout now id sync_type metadata total)

  holds : Inv total after_run
  holds = run-Inv total schedule _ (start_fanout-Inv now id sync_type metadata total fresh)

  -- In whatever order the producer, the consumers and the watchdog commit, at most one call of
  -- `try_finalize` returns True. One has exactly when the log is completed, and then the counters
  -- add up to the number of items and no item was skipped.
  pub run_completes_once :
      (after_run.closed ≤ 1)
      × (after_run.closed ≡ 1 ↔ after_run.log.status ≡ completed)
      × (after_run.log.status ≡ completed
          → (after_run.log.items_processed + after_run.log.items_failed ≡ total)
            × (after_run.skipped ≡ 0))
  run_completes_once = closes_once total after_run holds

  -- Once the producer has recorded the total and made its own call of `try_finalize`, every item has
  -- been counted, no consumer has a call of `try_finalize` left and no item was skipped, the log is
  -- closed: completed, or failed by the watchdog.
  pub run_settles :
      is_settled after_run ≡ true
      → after_run.skipped ≡ 0
      → (after_run.log.status ≡ completed) ⊎ (after_run.log.status ≡ failed)
  run_settles settled none_skipped = settles total after_run holds settled none_skipped

  -- After an item has been skipped, the log is not completed and nothing that is done later completes
  -- it.
  pub run_after_skip :
      (later : List (Time × Action))
      → 0 < after_run.skipped
      → (run total later after_run).log.status ≢ completed
  run_after_skip later some_skipped =
      unfinished total (run total later after_run) (run-Inv total later after_run holds)
        (omega (arith, run_keeps_skipped total later after_run))
