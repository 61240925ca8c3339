-- ===== src/Promotions/Resubscribe/Sound.antt =====
-- What holds of the jobs of the queue between two operations
-- (src/tiny_mirror/services/ml_resubscribe_service.py).
use tiny_mirror.Prelude.{
  ℕ, suc, ◌≡◌, ◌≢◌, ◌<◌, refl, String, Bool, true, false, Option, none, some, List, [], ◌∷◌, arith,
  All, All-take, All-imp, All-filter, any, ◌==◌, nat_eq, leb, Bool-cases, and_right, string_eq, inl,
  inr,
}
use tiny_mirror.Fulfillment.Transfer.{Time}
use tiny_mirror.Sort.{All-sort}
use tiny_mirror.Promotions.Resubscribe.{
  Job, JobStatus, pending, is_waiting, is_pending_for, update_jobs, reset_job, enqueue,
  record_completed, due_jobs, cancel_job, bump_attempt, is_due,
}
use tiny_mirror.Promotions.Resubscribe.Moves.{
  Moved, closed, bumped, Moves, process_one-Moves, settle_polled-jobs,
}
use tiny_mirror.Promotions.Resubscribe.Poll.{
  PollContext, Queue, Polled, next_poll, store_job, settle_one, process_each, process_one,
  process_due,
}

-- A job that waits has attempts left and is not resolved; any other says when it was.
pub record IsSound (j : Job) : Type 0 where
  pub has_attempts : j.status ≡ pending → j.attempts < j.max_attempts
  pub unresolved : j.status ≡ pending → j.resolved_at ≡ none
  pub resolved : j.status ≢ pending → j.resolved_at ≢ none

pub is_waiting-pending : (s : JobStatus) → is_waiting s ≡ true → s ≡ pending
is_waiting-pending s h = ground arith

bump_attempt-IsSound :
    (now next : Time) (code : Option ℕ) (j : Job)
    → IsSound j
    → IsSound (bump_attempt now next code j)
unfolding bump_attempt
bump_attempt-IsSound now next code j h = elim (Bool-cases (leb j.max_attempts (suc j.attempts))) [
  | inl last ↦
      rw last (record {
        has_attempts = λ e. absurd cc;
        unresolved = λ e. absurd cc;
        resolved = λ n e. cc;
      })
  | inr more ↦ rw more (record {
    has_attempts = λ e. ground arith;
    unresolved = h.unresolved;
    resolved = h.resolved;
  })
]

pub store_job-IsSound :
    (k : Job) (jobs : List Job) → IsSound k → All IsSound jobs → All IsSound (store_job k jobs)
store_job-IsSound k [] s h = tt
store_job-IsSound k (j ∷ jobs) s h = elim (Bool-cases (j.id == k.id)) [
  | inl hit ↦ rw hit (s, store_job-IsSound k jobs s h.1)
  | inr miss ↦ rw miss (h.0, store_job-IsSound k jobs s h.1)
]

closed-IsSound : (k : Job) → is_waiting k.status ≡ false → k.resolved_at ≢ none → IsSound k
closed-IsSound k not_pending stamped = record {
  has_attempts = λ e. absurd cc;
  unresolved = λ e. absurd cc;
  resolved = λ n. stamped;
}

Moved-IsSound : (w : PollContext) (j : Job) {k : Job} → Moved w j k → IsSound j → IsSound k
Moved-IsSound w j (closed k same not_pending stamped) h = closed-IsSound k not_pending stamped
Moved-IsSound w j (bumped code) h = bump_attempt-IsSound w.clock (next_poll w) code j h

settle_one-IsSound :
    (upper lower : String → String) (w : PollContext) (j : Job) (o : Option Polled) (q : Queue)
    → IsSound j
    → Moves w j o
    → All IsSound q.jobs
    → All IsSound (settle_one upper lower w j o q).jobs
unfolding settle_one
settle_one-IsSound upper lower w j none q s moved h =
    store_job-IsSound _ q.jobs (bump_attempt-IsSound w.clock (next_poll w) none j s) h
settle_one-IsSound upper lower w j (some p) q s moved h =
    rw (settle_polled-jobs p.job p.outcome q)
      (store_job-IsSound p.job q.jobs (Moved-IsSound w j moved s) h)

process_each-IsSound :
    (upper lower : String → String) (w : PollContext) (js : List Job) (q : Queue)
    → All IsSound js
    → All IsSound q.jobs
    → All IsSound (process_each upper lower w js q).jobs
unfolding process_each
process_each-IsSound upper lower w [] q s h = h
process_each-IsSound upper lower w (j ∷ js) q s h = process_each-IsSound upper lower w js _ s.1 (
    settle_one-IsSound upper lower w j (process_one upper lower w j) q s.0
      (process_one-Moves upper lower w j) h)

due-IsSound :
    (now : Time) (limit : ℕ) (jobs : List Job)
    → All IsSound jobs
    → All IsSound (due_jobs now limit jobs)
unfolding due_jobs
due-IsSound now limit jobs h =
    All-take IsSound limit _
      (All-sort IsSound _ _ (All-imp _ (λ j both. both.0) (All-filter IsSound (is_due now) jobs h)))

update_jobs-IsSound :
    (p : Job → Bool) (f : Job → Job) (jobs : List Job)
    → ((j : Job) → p j ≡ true → IsSound j → IsSound (f j))
    → All IsSound jobs
    → All IsSound (update_jobs p f jobs)
update_jobs-IsSound p f [] keep h = tt
update_jobs-IsSound p f (j ∷ jobs) keep h = elim (Bool-cases (p j)) [
  | inl hit ↦ rw hit (keep j hit h.0, update_jobs-IsSound p f jobs keep h.1)
  | inr miss ↦ rw miss (h.0, update_jobs-IsSound p f jobs keep h.1)
]

pub process_due-IsSound :
    (upper lower : String → String) (w : PollContext) (batch_limit : ℕ) (q : Queue)
    → All IsSound q.jobs
    → All IsSound (process_due upper lower w batch_limit q).jobs
unfolding process_due
process_due-IsSound upper lower w batch_limit q h =
    process_each-IsSound upper lower w (due_jobs w.ref batch_limit q.jobs) _
      (due-IsSound w.ref batch_limit q.jobs h) h

-- What happens to the queue: a rise of a price that could not be enrolled at once, one that was, the
-- operator who cancels a job, and the poller.
pub data QueueOp : Type 0 where
  queue_up : (id : ℕ) (now : Time) (new : Job) → QueueOp
  completed : (id : ℕ) (now : Time) (new : Job) → QueueOp
  cancel : (id : ℕ) (now : Time) → QueueOp
  poll : (w : PollContext) (batch_limit : ℕ) → QueueOp

module _ (upper lower : String → String) where
  unfoldable pub handle : QueueOp → Queue → Queue
  handle (queue_up id now new) q = record q { jobs = enqueue id now new q.jobs }
  handle (completed id now new) q = record q { jobs = record_completed id now new q.jobs }
  handle (cancel id now) q = record q {
    jobs = update_jobs (λ j. j.id == id) (cancel_job now) q.jobs;
  }
  handle (poll w batch_limit) q = process_due upper lower w batch_limit q

  unfoldable pub handle_all : List QueueOp → Queue → Queue
  unfolding handle
  handle_all [] q = q
  handle_all (op ∷ ops) q = handle_all ops (handle op q)

  -- `max(1, ...)`
  abbrev pub HasAttempts : QueueOp → Type 0
  HasAttempts (queue_up id now new) = 0 < new.max_attempts
  HasAttempts _ = Unit

  enqueue-IsSound :
      (id : ℕ) (now : Time) (new : Job) (jobs : List Job)
      → 0 < new.max_attempts
      → All IsSound jobs
      → All IsSound (enqueue id now new jobs)
  unfolding enqueue
  enqueue-IsSound id now new jobs some_left h =
      elim (Bool-cases (any (is_pending_for new.mlb_id new.promo_type) jobs)) [
        | inl there ↦ rw there (
            update_jobs-IsSound (is_pending_for new.mlb_id new.promo_type) (reset_job now new) jobs
              (λ j hit s. record {
                has_attempts = λ e. some_left;
                unresolved = λ e. refl;
                resolved = λ n e. n (
                    is_waiting-pending j.status (
                      and_right (j.promo_type == new.promo_type) (is_waiting j.status)
                        (and_right (j.mlb_id == new.mlb_id) _ hit)));
              })
              h)
        | inr absent ↦ rw absent (
          record {
            has_attempts = λ e. some_left;
            unresolved = λ e. refl;
            resolved = λ n e. ground arith;
          },
          h,
        )
      ]

  handle-IsSound :
      (op : QueueOp) (q : Queue)
      → HasAttempts op
      → All IsSound q.jobs
      → All IsSound (handle op q).jobs
  unfolding handle record_completed
  handle-IsSound (queue_up id now new) q fine h = enqueue-IsSound id now new q.jobs fine h
  handle-IsSound (completed id now new) q fine h = (closed-IsSound _ refl (λ e. absurd cc), h)
  handle-IsSound (cancel id now) q fine h =
      update_jobs-IsSound (λ j. j.id == id) (cancel_job now) q.jobs
        (λ j hit s. closed-IsSound _ refl (λ e. absurd cc)) h
  handle-IsSound (poll w batch_limit) q fine h = process_due-IsSound upper lower w batch_limit q h

  -- Whatever is done to the queue, in whatever order, where each job is queued with some attempts: if
  -- at first every job that is pending has attempts left and is not resolved, and any other says when
  -- it was, then so it is afterwards.
  pub handle_all-IsSound :
      (ops : List QueueOp) (q : Queue)
      → All HasAttempts ops
      → All IsSound q.jobs
      → All IsSound (handle_all ops q).jobs
  unfolding handle_all
  handle_all-IsSound [] q fine h = h
  handle_all-IsSound (op ∷ ops) q fine h =
      handle_all-IsSound ops (handle op q) fine.1 (handle-IsSound op q fine.0 h)
