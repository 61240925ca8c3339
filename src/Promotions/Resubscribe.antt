-- ===== src/Promotions/Resubscribe.antt =====
-- The queue of re-subscriptions: the table `ml_promo_resubscribe_jobs` and the repository over it
-- (src/tiny_mirror/infrastructure/repositories/ml_promo_repository.py, MLPromoResubscribeRepository).
-- Left out: last_error, which is only stored.
pub mod Poll
pub mod Find
pub mod Moves
pub mod Sound
pub mod Apart
pub mod Budget
pub mod Passes
pub mod Lost
use tiny_mirror.Prelude.{
  ℕ, suc, String, Bool, true, false, ◌&&◌, Option, none, some, List, [], ◌∷◌, map, filter, any,
  take, ℤ, leb, ◌==◌, nat_eq, string_eq, if◌then◌else◌,
}
use tiny_mirror.Sort.{sort, ascending, descending}
use tiny_mirror.Fulfillment.Transfer.{Time}
use tiny_mirror.Promotions.Decisions.{coalesced}

pub data JobStatus : Type 0 where
  pending done failed cancelled : JobStatus

abbrev pub is_waiting : JobStatus → Bool
is_waiting pending = true
is_waiting _ = false

abbrev pub is_failed : JobStatus → Bool
is_failed failed = true
is_failed _ = false

abbrev pub same_job_status : JobStatus → JobStatus → Bool
same_job_status pending pending = true
same_job_status done done = true
same_job_status failed failed = true
same_job_status cancelled cancelled = true
same_job_status _ _ = false

pub record Job : Type 0 where
  pub id : ℕ
  pub mlb_id : String
  pub sku : String
  pub promo_type : String
  pub promo_id : Option String
  pub target_price : ℤ
  pub strict_promo_id : Bool
  pub status : JobStatus
  pub attempts : ℕ
  pub max_attempts : ℕ
  pub next_attempt_at : Time
  pub deadline : Time
  pub last_status_code : Option ℕ
  pub op_id : Option String
  pub decided_by : Option String
  pub created_at : Time
  pub resolved_at : Option Time

-- A partial unique index allows one such row.
abbrev pub is_pending_for : String → String → Job → Bool
is_pending_for mlb_id promo_type j =
    j.mlb_id == mlb_id && (j.promo_type == promo_type && is_waiting j.status)

abbrev pub update_jobs : (Job → Bool) → (Job → Job) → List Job → List Job
update_jobs p f jobs = map (λ j. if p j then f j else j) jobs

abbrev pub reset_job : Time → Job → Job → Job
reset_job now new j = record j {
  sku = new.sku;
  promo_id = new.promo_id;
  target_price = new.target_price;
  deadline = new.deadline;
  max_attempts = new.max_attempts;
  attempts = 0;
  next_attempt_at = now;
  op_id = new.op_id;
  decided_by = new.decided_by;
  last_status_code = new.last_status_code;
  strict_promo_id = new.strict_promo_id;
  resolved_at = none;
}

abbrev pub queued_job : ℕ → Time → Job → Job
queued_job id now new = record new {
  id = id;
  status = pending;
  attempts = 0;
  next_attempt_at = now;
  created_at = now;
  resolved_at = none;
}

-- The arguments of the call are the fields of `new`.
unfoldable pub enqueue : ℕ → Time → Job → List Job → List Job
enqueue id now new jobs =
    if any (is_pending_for new.mlb_id new.promo_type) jobs
    then update_jobs (is_pending_for new.mlb_id new.promo_type) (reset_job now new) jobs
    else queued_job id now new ∷ jobs

unfoldable pub record_completed : ℕ → Time → Job → List Job → List Job
record_completed id now new jobs =
    record new {
      id = id;
      strict_promo_id = false;
      status = done;
      attempts = 0;
      max_attempts = 288;
      next_attempt_at = now;
      deadline = now;
      last_status_code = none;
      created_at = now;
      resolved_at = some now;
    }
    ∷ jobs

abbrev pub is_due : Time → Job → Bool
is_due now j = is_waiting j.status && leb j.next_attempt_at now

unfoldable pub due_jobs : Time → ℕ → List Job → List Job
unfolding sort
due_jobs now limit jobs =
    take limit (sort (ascending (λ j. j.next_attempt_at)) (filter (is_due now) jobs))

abbrev pub is_listed : Option JobStatus → Option String → Job → Bool
is_listed none none j = true
is_listed none (some mlb_id) j = j.mlb_id == mlb_id
is_listed (some status) none j = same_job_status j.status status
is_listed (some status) (some mlb_id) j = same_job_status j.status status && j.mlb_id == mlb_id

unfoldable pub list_jobs : Option JobStatus → Option String → ℕ → List Job → List Job
unfolding sort
list_jobs status mlb_id limit jobs =
    take limit (sort (descending (λ j. j.created_at)) (filter (is_listed status mlb_id) jobs))

abbrev pub get_job : ℕ → List Job → Option Job
get_job id [] = none
get_job id (j ∷ jobs) = if j.id == id then some j else get_job id jobs

abbrev pub mark_done : Time → Job → Job
mark_done now j = record j { status = done; resolved_at = some now }

abbrev pub mark_failed : Time → Option ℕ → Job → Job
mark_failed now code j = record j {
  status = failed;
  resolved_at = some now;
  last_status_code = coalesced code j.last_status_code;
}

abbrev pub cancel_job : Time → Job → Job
cancel_job now j = record j { status = cancelled; resolved_at = some now }

-- Another attempt; the last one flips the job to failed.
unfoldable pub bump_attempt : Time → Time → Option ℕ → Job → Job
bump_attempt now next code j =
    let bumped = record j {
      attempts = suc j.attempts;
      next_attempt_at = next;
      last_status_code = code;
    } in
    if leb j.max_attempts (suc j.attempts)
    then record bumped { status = failed; resolved_at = some now }
    else bumped
