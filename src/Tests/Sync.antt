-- ===== src/Tests/Sync.antt =====
-- Fan-outs and logs at concrete inputs.
use tiny_mirror.Prelude.{◌+◌, ◌≡◌, ◌≢◌, ◌≤◌, ◌↔◌, ◌⊎◌, refl, none, List, [], ◌∷◌, arith}
use tiny_mirror.Sync.Log.{
  Time, completed, failed, SyncLog, create_sync_log, increment_processed, increment_failed,
  set_total_enqueued, try_finalize, is_stalled, mark_stalled_as_failed,
}
use tiny_mirror.Sync.Fanout.{
  Action, publish, record_total, finalize_total, count_synced, count_errored, skip, finalize_item,
  start_fanout, step, run,
}
use tiny_mirror.Sync.Fanout.Invariant.{
  is_settled, after_run, run_completes_once, run_settles, run_after_skip,
}

-- Two items; the first is counted before the number of items is recorded.
abbrev two_items : List (Time × Action)
two_items =
    (1, publish)
    ∷ (2, count_synced)
    ∷ (3, finalize_item)
    ∷ (4, publish)
    ∷ (5, record_total)
    ∷ (6, finalize_total)
    ∷ (7, count_errored)
    ∷ (8, finalize_item)
    ∷ []

two_items_status : (after_run 0 1 2 "stock" none refl two_items).log.status ≡ completed
unfolding run start_fanout step try_finalize increment_processed create_sync_log set_total_enqueued
    increment_failed
two_items_status = refl

run_completes_once_example :
    let f = after_run 0 1 2 "stock" none refl two_items in
    (f.closed ≤ 1)
    × (f.closed ≡ 1 ↔ f.log.status ≡ completed)
    × (f.log.status ≡ completed
        → (f.log.items_processed + f.log.items_failed ≡ 2) × (f.skipped ≡ 0))
run_completes_once_example = run_completes_once 0 1 2 "stock" none refl two_items

run_settles_example :
    let f = after_run 0 1 2 "stock" none refl two_items in
    (f.log.status ≡ completed) ⊎ (f.log.status ≡ failed)
unfolding run start_fanout is_settled step try_finalize increment_processed create_sync_log
    set_total_enqueued increment_failed
run_settles_example = run_settles 0 1 2 "stock" none refl two_items refl refl

-- Tiny does not know the first item.
abbrev one_skipped : List (Time × Action)
one_skipped = (1, publish) ∷ (2, skip) ∷ (3, publish) ∷ (4, record_total) ∷ []

run_after_skip_example :
    (run 2
      ((5, finalize_total) ∷ (6, count_synced) ∷ (7, finalize_item) ∷ [])
      (after_run 0 1 2 "stock" none refl one_skipped)).log.status
    ≢ completed
unfolding run start_fanout step
run_after_skip_example =
    run_after_skip 0 1 2 "stock" none refl one_skipped
      ((5, finalize_total) ∷ (6, count_synced) ∷ (7, finalize_item) ∷ []) (omega arith)

abbrev two_logs : List SyncLog
two_logs = create_sync_log 0 1 "orders" none ∷ create_sync_log 90_000_000 2 "stock" none ∷ []

mark_stalled_count : (mark_stalled_as_failed 100_000_000 1 "auto-closed" two_logs).1 ≡ 1
unfolding mark_stalled_as_failed is_stalled create_sync_log
mark_stalled_count = refl
