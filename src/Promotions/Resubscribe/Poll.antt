-- ===== src/Promotions/Resubscribe/Poll.antt =====
-- The poller of the queue (src/tiny_mirror/services/ml_resubscribe_service.py). Left out: the texts of
-- the errors and of the alert, and the answer that the action keeps.
use tiny_mirror.Prelude.{
  ℕ, suc, ◌+◌, String, Bool, true, false, not, ◌&&◌, ◌||◌, Option, none, some, List, [], ◌∷◌,
  length, ℤ, leb, ◌==◌, nat_eq, string_eq, if◌then◌else◌,
}
use tiny_mirror.Fulfillment.Transfer.{Time}
use tiny_mirror.Fulfillment.Catalog.{holds}
use tiny_mirror.Promotions.{Offer, or_empty}
use tiny_mirror.Promotions.Decisions.{Row, restore_started_price}
use tiny_mirror.Promotions.Write.{
  Request, WriteResult, is_failure, create_price_discount, modify_promotion,
}
use tiny_mirror.Promotions.Resubscribe.{
  Job, is_failed, due_jobs, update_jobs, mark_done, mark_failed, bump_attempt,
}

-- `upper` and `lower` are `strip` with `upper` or `lower`.
module _ (upper lower : String → String) where
  abbrev pub fits : String → String → Offer → Bool
  fits promo_type status p =
      upper (or_empty p.type) == upper promo_type && lower (or_empty p.status) == lower status

  abbrev pub has_id : Option String → Offer → Bool
  has_id none p = false
  has_id (some id) p = not (id == "") && holds p.id id

  abbrev pub or_first : Option Offer → Offer → Option Offer
  or_first none p = some p
  or_first (some first) p = some first

  -- The loop, with the first offer that fits.
  unfoldable pub scan_offers :
      String → String → Option String → Bool → Option Offer → List Offer → Option Offer
  scan_offers promo_type status promo_id strict fallback [] = if strict then none else fallback
  scan_offers promo_type status promo_id strict fallback (p ∷ promos) =
      let passed = scan_offers promo_type status promo_id strict fallback promos in
      let kept = scan_offers promo_type status promo_id strict (or_first fallback p) promos in
      if not (fits promo_type status p) then passed else if has_id promo_id p then some p else kept

  unfoldable pub find_offer_by_status :
      List Offer → String → String → Option String → Bool → Option Offer
  unfolding scan_offers
  find_offer_by_status promos promo_type status promo_id strict =
      scan_offers promo_type status promo_id strict none promos

-- What one pass over the queue meets: its moment and the clock, the interval, `fetch_eligible_promos`,
-- none where it raises, `_ml_write` and the dates of a discount.
pub record PollContext : Type 0 where
  pub ref : Time
  pub clock : Time
  pub poll_interval : Time
  pub fetch : String → Option (List Offer)
  pub write : Request → Option WriteResult
  pub dates : String × String

pub data PollOutcome : Type 0 where
  already_active waiting exhausted overdue : PollOutcome
  resubscribed : (found_id : Option String) → PollOutcome

pub record Polled : Type 0 where
  pub job : Job
  pub outcome : PollOutcome

-- `a or b`
abbrev pub or_id : Option String → Option String → Option String
or_id none other = other
or_id (some id) other = if id == "" then other else some id

abbrev pub next_poll : PollContext → Time
next_poll w = w.ref + w.poll_interval

module _ (upper lower : String → String) (w : PollContext) where
  -- Another attempt, after which the job waits or has failed.
  unfoldable pub waited : Option ℕ → Job → Polled
  unfolding bump_attempt
  waited code j =
      let bumped = bump_attempt w.clock (next_poll w) code j in
      record { job = bumped; outcome = if is_failed bumped.status then exhausted else waiting }

  abbrev pub enrolled : Option String → Job → Polled
  enrolled found_id j = record { job = mark_done w.clock j; outcome = resubscribed found_id }

  -- What follows the call that enrols, none where it raises.
  unfoldable pub after_enrol : Job → Option String → Option (Option ℕ) → Option Polled
  unfolding waited
  after_enrol j found_id none = none
  after_enrol j found_id (some none) = some (enrolled found_id j)
  after_enrol j found_id (some (some code)) =
      some (if is_failure code then waited (some code) j else enrolled found_id j)

  unfoldable pub enrol : Job → Option String → Option (Option ℕ)
  unfolding create_price_discount modify_promotion
  enrol j none = create_price_discount w.write w.dates j.mlb_id j.target_price
  enrol j (some id) =
      if upper j.promo_type == "PRICE_DISCOUNT" || id == ""
      then create_price_discount w.write w.dates j.mlb_id j.target_price
      else modify_promotion w.write w.dates j.mlb_id j.target_price id j.promo_type

  unfoldable pub try_candidate : Job → Option Offer → Option Polled
  unfolding waited after_enrol enrol
  try_candidate j none = some (waited none j)
  try_candidate j (some candidate) =
      let found_id = or_id candidate.id j.promo_id in after_enrol j found_id (enrol j found_id)

  abbrev pub offer_of : Job → List Offer → String → Bool → Option Offer
  offer_of j promos status strict =
      find_offer_by_status upper lower promos j.promo_type status j.promo_id strict

  -- In a campaign that is to come the listing stands as pending.
  abbrev pub or_scheduled : Job → List Offer → Option Offer → Option Offer
  or_scheduled j promos (some started) = some started
  or_scheduled j promos none = if j.strict_promo_id then offer_of j promos "pending" true else none

  unfoldable pub unless_active : Job → List Offer → Option Offer → Option Polled
  unfolding try_candidate find_offer_by_status
  unless_active j promos (some started) =
      some (record { job = mark_done w.clock j; outcome = already_active })
  unless_active j promos none = try_candidate j (offer_of j promos "candidate" j.strict_promo_id)

  unfoldable pub after_offers : Job → Option (List Offer) → Option Polled
  unfolding unless_active find_offer_by_status
  after_offers j none = none
  after_offers j (some promos) =
      unless_active j promos (or_scheduled j promos (offer_of j promos "started" j.strict_promo_id))

  -- `_process_one`, none where it raises.
  unfoldable pub process_one : Job → Option Polled
  unfolding after_offers
  process_one j =
      let polled = after_offers j (w.fetch j.mlb_id) in
      if leb j.deadline w.ref
      then some (record { job = mark_failed w.clock none j; outcome = overdue })
      else polled

pub data GiveUp : Type 0 where
  deadline max_attempts : GiveUp

pub record Alert : Type 0 where
  pub why : GiveUp
  pub job : Job

-- The action `resubscribe_promotion`.
pub record LoggedAction : Type 0 where
  pub sku : String
  pub mlb_id : String
  pub promo_type : String
  pub promo_id : Option String
  pub price_after : ℤ
  pub decided_by : String

pub record PollStats : Type 0 where
  pub due : ℕ
  pub resubscribed : ℕ
  pub already_active : ℕ
  pub waiting : ℕ
  pub failed : ℕ
  pub deadline : ℕ
  pub errors : ℕ

pub record Queue : Type 0 where
  pub jobs : List Job
  pub alerts : List Alert
  pub actions : List LoggedAction
  pub rows : List Row
  pub stats : PollStats

abbrev pub or_queue : Option String → String
or_queue none = "resubscribe-queue"
or_queue (some by) = if by == "" then "resubscribe-queue" else by

abbrev pub store_job : Job → List Job → List Job
store_job j jobs = update_jobs (λ k. k.id == j.id) (λ k. j) jobs

abbrev pub action_of : Job → Option String → LoggedAction
action_of j found_id = record {
  sku = j.sku;
  mlb_id = j.mlb_id;
  promo_type = j.promo_type;
  promo_id = found_id;
  price_after = j.target_price;
  decided_by = or_queue j.decided_by;
}

-- What a job that has been polled leaves.
unfoldable pub settle_polled : Job → PollOutcome → Queue → Queue
unfolding restore_started_price
settle_polled j overdue q = record q {
  jobs = store_job j q.jobs;
  alerts = record { why = deadline; job = j } ∷ q.alerts;
  stats = record q.stats { deadline = suc q.stats.deadline };
}
settle_polled j already_active q = record q {
  jobs = store_job j q.jobs;
  stats = record q.stats { already_active = suc q.stats.already_active };
}
settle_polled j waiting q = record q {
  jobs = store_job j q.jobs;
  stats = record q.stats { waiting = suc q.stats.waiting };
}
settle_polled j exhausted q = record q {
  jobs = store_job j q.jobs;
  alerts = record { why = max_attempts; job = j } ∷ q.alerts;
  stats = record q.stats { failed = suc q.stats.failed };
}
settle_polled j (resubscribed found_id) q = record q {
  jobs = store_job j q.jobs;
  actions = action_of j found_id ∷ q.actions;
  rows = restore_started_price j.mlb_id j.target_price j.promo_id (some j.promo_type) q.rows;
  stats = record q.stats { resubscribed = suc q.stats.resubscribed };
}

module _ (upper lower : String → String) (w : PollContext) where
  -- A job whose poll raised is pushed to the next interval.
  unfoldable pub settle_one : Job → Option Polled → Queue → Queue
  unfolding bump_attempt settle_polled
  settle_one j none q = record q {
    jobs = store_job (bump_attempt w.clock (next_poll w) none j) q.jobs;
    stats = record q.stats { errors = suc q.stats.errors };
  }
  settle_one j (some p) q = settle_polled p.job p.outcome q

  unfoldable pub process_each : List Job → Queue → Queue
  unfolding settle_one process_one
  process_each [] q = q
  process_each (j ∷ js) q = process_each js (settle_one j (process_one upper lower w j) q)

  abbrev pub no_stats : ℕ → PollStats
  no_stats n = record {
    due = n;
    resubscribed = 0;
    already_active = 0;
    waiting = 0;
    failed = 0;
    deadline = 0;
    errors = 0;
  }

  unfoldable pub process_due : ℕ → Queue → Queue
  unfolding process_each due_jobs
  process_due batch_limit q =
      let jobs = due_jobs w.ref batch_limit q.jobs in
      process_each jobs (record q { stats = no_stats (length jobs) })
