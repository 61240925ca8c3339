-- ===== src/Promotions/Resubscribe/Passes.antt =====
-- The passes of the poller over the queue (src/tiny_mirror/services/ml_resubscribe_service.py).
use tiny_mirror.Prelude.{ℕ, ◌+◌, ◌≤◌, String, List, [], ◌∷◌, arith, All, length}
use tiny_mirror.Promotions.Resubscribe.{due_jobs}
use tiny_mirror.Promotions.Resubscribe.Poll.{PollContext, Queue, process_due}
use tiny_mirror.Promotions.Resubscribe.Sound.{IsSound, process_due-IsSound}
use tiny_mirror.Promotions.Resubscribe.Apart.{IsApart}
use tiny_mirror.Promotions.Resubscribe.Budget.{
  budget, due-IsReady, due-IsApart, process_each-IsApart,
}

module _ (upper lower : String → String) (batch_limit : ℕ) where
  unfoldable pub run_passes : List PollContext → Queue → Queue
  unfolding process_due
  run_passes [] q = q
  run_passes (w ∷ ws) q = run_passes ws (process_due upper lower w batch_limit q)

  -- How many jobs the passes poll.
  unfoldable pub polls : List PollContext → Queue → ℕ
  unfolding process_due due_jobs
  polls [] q = 0
  polls (w ∷ ws) q =
      length (due_jobs w.ref batch_limit q.jobs)
      + polls ws (process_due upper lower w batch_limit q)

  pass_spends :
      (w : PollContext) (q : Queue)
      → IsApart q.jobs
      → All IsSound q.jobs
      → IsApart (process_due upper lower w batch_limit q).jobs
        × (length (due_jobs w.ref batch_limit q.jobs)
              + budget (process_due upper lower w batch_limit q).jobs
            ≤ budget q.jobs)
  unfolding process_due
  pass_spends w q apart sound =
      process_each-IsApart upper lower w (due_jobs w.ref batch_limit q.jobs) _
        (due-IsApart w.ref batch_limit q.jobs apart)
        (due-IsReady w.ref batch_limit q.jobs apart sound) apart

  -- However Mercado Livre answers and whichever calls raise: where the jobs have different ids and
  -- those that are pending have attempts left, each poll of the passes uses up at least one of the
  -- attempts that all pending jobs together had left.
  pub polls_within_budget :
      (ws : List PollContext) (q : Queue)
      → IsApart q.jobs
      → All IsSound q.jobs
      → polls ws q + budget (run_passes ws q).jobs ≤ budget q.jobs
  unfolding polls run_passes
  polls_within_budget [] q apart sound = omega arith
  polls_within_budget (w ∷ ws) q apart sound =
      let here = pass_spends w q apart sound in
      let later =
        polls_within_budget ws (process_due upper lower w batch_limit q) here.0
          (process_due-IsSound upper lower w batch_limit q sound) in
      omega (arith, here.1, later)
