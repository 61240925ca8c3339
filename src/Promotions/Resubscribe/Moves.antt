-- ===== src/Promotions/Resubscribe/Moves.antt =====
-- What one poll makes of a job of the queue
-- (src/tiny_mirror/services/ml_resubscribe_service.py).
use tiny_mirror.Prelude.{
  ℕ, ◌≡◌, ◌≢◌, refl, String, false, Option, none, some, List, nat_eq, leb, Bool-cases, string_eq,
  inl, inr,
}
use tiny_mirror.Promotions.{Offer}
use tiny_mirror.Promotions.Write.{is_failure}
use tiny_mirror.Promotions.Resubscribe.{Job, is_waiting, mark_done, bump_attempt}
use tiny_mirror.Promotions.Resubscribe.Poll.{
  PollContext, Queue, Polled, PollOutcome, already_active, waiting, exhausted, overdue,
  resubscribed, next_poll, offer_of, or_scheduled, waited, after_enrol, try_candidate,
  unless_active, after_offers, store_job, settle_polled, process_one,
}

-- What a poll makes of a job: it is closed, or has one attempt more.
pub data Moved (w : PollContext) (j : Job) : Job → Type 0 where
  closed :
      (k : Job) → k.id ≡ j.id → is_waiting k.status ≡ false → k.resolved_at ≢ none → Moved w j k
  bumped : (code : Option ℕ) → Moved w j (bump_attempt w.clock (next_poll w) code j)

abbrev pub Moves : PollContext → Job → Option Polled → Type 0
Moves w j none = Unit
Moves w j (some p) = Moved w j p.job

module _ (upper lower : String → String) (w : PollContext) (j : Job) where
  done_moves : Moved w j (mark_done w.clock j)
  done_moves = closed _ refl refl (λ e. absurd cc)

  waited-Moves : (code : Option ℕ) → Moves w j (some (waited upper lower w code j))
  unfolding waited
  waited-Moves code = bumped code

  after_enrol-Moves :
      (found_id : Option String) (o : Option (Option ℕ))
      → Moves w j (after_enrol upper lower w j found_id o)
  unfolding after_enrol
  after_enrol-Moves found_id none = tt
  after_enrol-Moves found_id (some none) = done_moves
  after_enrol-Moves found_id (some (some code)) = elim (Bool-cases (is_failure code)) [
    | inl refused ↦ rw refused (waited-Moves (some code))
    | inr accepted ↦ rw accepted done_moves
  ]

  try_candidate-Moves : (o : Option Offer) → Moves w j (try_candidate upper lower w j o)
  unfolding try_candidate
  try_candidate-Moves none = waited-Moves none
  try_candidate-Moves (some candidate) = after_enrol-Moves _ _

  unless_active-Moves :
      (promos : List Offer) (o : Option Offer) → Moves w j (unless_active upper lower w j promos o)
  unfolding unless_active
  unless_active-Moves promos none =
      try_candidate-Moves (offer_of upper lower w j promos "candidate" j.strict_promo_id)
  unless_active-Moves promos (some started) = done_moves

  after_offers-Moves : (o : Option (List Offer)) → Moves w j (after_offers upper lower w j o)
  unfolding after_offers
  after_offers-Moves none = tt
  after_offers-Moves (some promos) = unless_active-Moves promos (
      or_scheduled upper lower w j promos
        (offer_of upper lower w j promos "started" j.strict_promo_id))

  pub process_one-Moves : Moves w j (process_one upper lower w j)
  unfolding process_one
  process_one-Moves = elim (Bool-cases (leb j.deadline w.ref)) [
    | inl late ↦ rw late (closed _ refl refl (λ e. absurd cc))
    | inr early ↦ rw early (after_offers-Moves (w.fetch j.mlb_id))
  ]

-- The jobs that a settled poll leaves.
pub settle_polled-jobs :
    (k : Job) (o : PollOutcome) (q : Queue) → (settle_polled k o q).jobs ≡ store_job k q.jobs
unfolding settle_polled
settle_polled-jobs k already_active q = refl
settle_polled-jobs k waiting q = refl
settle_polled-jobs k exhausted q = refl
settle_polled-jobs k overdue q = refl
settle_polled-jobs k (resubscribed found_id) q = refl
