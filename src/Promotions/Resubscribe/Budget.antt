-- ===== src/Promotions/Resubscribe/Budget.antt =====
-- How often the poller can poll (src/tiny_mirror/services/ml_resubscribe_service.py).
use mathlib.Core.Option.{some-injective}
use tiny_mirror.Prelude.{
  ℕ, suc, ◌+◌, ◌-◌, ◌≤◌, ◌≡◌, refl, ap, subst, ◌∙◌, String, true, Option, none, some, List, [], ◌∷◌,
  arith, All, All-take, All-imp, All-filter, length, ◌==◌, nat_eq, if◌then◌else◌, leb, Bool-cases,
  and_left, inl, inr,
}
use tiny_mirror.Sort.{All-sort}
use tiny_mirror.Fulfillment.Transfer.{Time}
use tiny_mirror.Promotions.Resubscribe.{Job, is_waiting, get_job, due_jobs, bump_attempt, is_due}
use tiny_mirror.Promotions.Resubscribe.Moves.{
  Moved, closed, bumped, Moves, process_one-Moves, settle_polled-jobs,
}
use tiny_mirror.Promotions.Resubscribe.Poll.{
  PollContext, Queue, Polled, next_poll, store_job, settle_one, process_one, process_each,
}
use tiny_mirror.Promotions.Resubscribe.Sound.{IsSound, is_waiting-pending}
use tiny_mirror.Promotions.Resubscribe.Apart.{
  Other, IsApart, id_refl, id_sym, store_absent, Other-id, store-IsApart, store-get, sort-IsApart,
  filter-IsApart, take-IsApart,
}

-- The attempts that a job has left.
unfoldable pub attempts_left : Job → ℕ
attempts_left j = if is_waiting j.status then j.max_attempts - j.attempts else 0

unfoldable pub budget : List Job → ℕ
unfolding attempts_left
budget [] = 0
budget (j ∷ jobs) = attempts_left j + budget jobs

bumped_spends :
    (now next : Time) (code : Option ℕ) (j : Job)
    → is_waiting j.status ≡ true
    → IsSound j
    → suc (attempts_left (bump_attempt now next code j)) ≤ attempts_left j
unfolding attempts_left bump_attempt
bumped_spends now next code j waits s =
    let more = s.has_attempts (is_waiting-pending j.status waits) in
    elim (Bool-cases (leb j.max_attempts (suc j.attempts))) [
      | inl last ↦ rw last (rw waits (omega (arith, more)))
      | inr left ↦ rw left (rw waits (omega (arith, more)))
    ]

bump-id : (now next : Time) (code : Option ℕ) (j : Job) → (bump_attempt now next code j).id ≡ j.id
unfolding bump_attempt
bump-id now next code j = elim (Bool-cases (leb j.max_attempts (suc j.attempts))) [
  | inl last ↦ rw last refl
  | inr left ↦ rw left refl
]

Moved-spends :
    (w : PollContext) (j : Job) {k : Job}
    → Moved w j k
    → is_waiting j.status ≡ true
    → IsSound j
    → suc (attempts_left k) ≤ attempts_left j
unfolding attempts_left
Moved-spends w j (closed k same not_pending stamped) waits s =
    let more = s.has_attempts (is_waiting-pending j.status waits) in
    rw not_pending (rw waits (omega (arith, more)))
Moved-spends w j (bumped code) waits s = bumped_spends w.clock (next_poll w) code j waits s

Moved-id : (w : PollContext) (j : Job) {k : Job} → Moved w j k → k.id ≡ j.id
Moved-id w j (closed k same not_pending stamped) = same
Moved-id w j (bumped code) = bump-id w.clock (next_poll w) code j

-- A job that is stored takes the place of the one with its id.
store-budget :
    (j k : Job) (jobs : List Job)
    → k.id ≡ j.id
    → IsApart jobs
    → get_job j.id jobs ≡ some j
    → budget (store_job k jobs) + attempts_left j ≡ budget jobs + attempts_left k
unfolding budget
store-budget j k [] same apart found = absurd cc
store-budget j k (l ∷ jobs) same apart found = elim (Bool-cases (l.id == j.id)) [
  | inl here ↦
      let head : l ≡ j = some-injective l j (rw here at found) in
      let rest : store_job k jobs ≡ jobs =
        store_absent k jobs
          (Other-id j k jobs same (subst (λ x. All (Other x) jobs) head apart.0)) in
      rw same (rw here (rw rest (rw head (omega arith))))
  | inr there ↦
      let later = store-budget j k jobs same apart.1 (rw there at found) in
      rw same (rw there (omega (arith, rw same at later)))
]

-- A job that can be polled: it is the one of the table with its id, it waits and is sound.
pub record IsReady (jobs : List Job) (j : Job) : Type 0 where
  pub found : get_job j.id jobs ≡ some j
  pub waits : is_waiting j.status ≡ true
  pub sound : IsSound j

get_self : (jobs : List Job) → IsApart jobs → All (λ j. get_job j.id jobs ≡ some j) jobs
get_self [] h = tt
get_self (j ∷ jobs) h = (rw (id_refl j.id) refl, later jobs h.0 (get_self jobs h.1))
  where
    later :
        (ks : List Job)
        → All (Other j) ks
        → All (λ k. get_job k.id jobs ≡ some k) ks
        → All (λ k. get_job k.id (j ∷ jobs) ≡ some k) ks
    later [] other found = tt
    later (k ∷ ks) other found = (rw (id_sym k.id j.id other.0) found.0, later ks other.1 found.1)

both-All :
    (P Q : Job → Type 0) (jobs : List Job) → All P jobs → All Q jobs → All (λ j. P j × Q j) jobs
both-All P Q [] p q = tt
both-All P Q (j ∷ jobs) p q = ((p.0, q.0), both-All P Q jobs p.1 q.1)

pub due-IsReady :
    (now : Time) (limit : ℕ) (jobs : List Job)
    → IsApart jobs
    → All IsSound jobs
    → All (IsReady jobs) (due_jobs now limit jobs)
unfolding due_jobs
due-IsReady now limit jobs apart sound =
    let all = both-All _ IsSound jobs (get_self jobs apart) sound in
    All-take (IsReady jobs) limit _ (
      All-sort (IsReady jobs) _ _ (
        All-imp _
          (λ j h. record {
            found = h.0.0;
            waits = and_left (is_waiting j.status) (leb j.next_attempt_at now) h.1;
            sound = h.0.1;
          })
          (All-filter _ (is_due now) jobs all)))

pub due-IsApart :
    (now : Time) (limit : ℕ) (jobs : List Job) → IsApart jobs → IsApart (due_jobs now limit jobs)
unfolding due_jobs
due-IsApart now limit jobs h =
    take-IsApart limit _ (sort-IsApart _ _ (filter-IsApart (is_due now) jobs h))

-- What one poll does to the table and to the attempts that are left.
record IsSpent (j : Job) (q r : Queue) : Type 0 where
  stored : Job
  jobs_eq : r.jobs ≡ store_job stored q.jobs
  same_id : stored.id ≡ j.id
  spent : suc (attempts_left stored) ≤ attempts_left j

module _ (upper lower : String → String) (w : PollContext) where
  settle_one-IsSpent :
      (j : Job) (o : Option Polled) (q : Queue)
      → Moves w j o
      → is_waiting j.status ≡ true
      → IsSound j
      → IsSpent j q (settle_one upper lower w j o q)
  unfolding settle_one
  settle_one-IsSpent j none q moved waits s = record {
    stored = bump_attempt w.clock (next_poll w) none j;
    jobs_eq = refl;
    same_id = bump-id w.clock (next_poll w) none j;
    spent = bumped_spends w.clock (next_poll w) none j waits s;
  }
  settle_one-IsSpent j (some p) q moved waits s = record {
    stored = p.job;
    jobs_eq = settle_polled-jobs p.job p.outcome q;
    same_id = Moved-id w j moved;
    spent = Moved-spends w j moved waits s;
  }

  IsSpent-IsReady :
      (j : Job) (q r : Queue) (js : List Job)
      → IsSpent j q r
      → All (Other j) js
      → All (IsReady q.jobs) js
      → All (IsReady r.jobs) js
  IsSpent-IsReady j q r [] t other h = tt
  IsSpent-IsReady j q r (k ∷ js) t other h = (
    record {
      found =
          rw t.jobs_eq
            (store-get k.id t.stored q.jobs (rw t.same_id (id_sym k.id j.id other.0)) ∙ h.0.found);
      waits = h.0.waits;
      sound = h.0.sound;
    },
    IsSpent-IsReady j q r js t other.1 h.1,
  )

  pub process_each-IsApart :
      (js : List Job) (q : Queue)
      → IsApart js
      → All (IsReady q.jobs) js
      → IsApart q.jobs
      → IsApart (process_each upper lower w js q).jobs
        × (length js + budget (process_each upper lower w js q).jobs ≤ budget q.jobs)
  unfolding process_each
  process_each-IsApart [] q apart ready h = (h, omega arith)
  process_each-IsApart (j ∷ js) q apart ready h =
      let next = settle_one upper lower w j (process_one upper lower w j) q in
      let t =
        settle_one-IsSpent j (process_one upper lower w j) q (process_one-Moves upper lower w j)
          ready.0.waits ready.0.sound in
      let rest =
        process_each-IsApart js next apart.1 (IsSpent-IsReady j q next js t apart.0 ready.1)
          (rw t.jobs_eq (store-IsApart t.stored q.jobs h)) in
      let paid = store-budget j t.stored q.jobs t.same_id h ready.0.found in
      let jobs = ap budget t.jobs_eq in (rest.0, omega (arith, rest.1, paid, jobs, t.spent))
