-- ===== src/Tests/Resubscribe.antt =====
-- The queue of re-subscriptions and the calls behind it at concrete inputs.
use tiny_mirror.Prelude.{
  ◌≡◌, ◌≤◌, ◌+◌, refl, ℕ, ℤ, String, true, false, Option, none, some, [], ◌∷◌, All, any, pos, arith,
}
use tiny_mirror.Fulfillment.Catalog.{Listing}
use tiny_mirror.Promotions.{Offer}
use tiny_mirror.Promotions.Write.{
  Listed, Request, WriteAnswer, Sending, is_transient, fetch_eligible_promos, ml_send, after_first,
  rate_retry, delay_of, retry_after_seconds, ml_write,
}
use tiny_mirror.Promotions.Write.Bounds.{ml_send_within}
use tiny_mirror.Promotions.Score.{started}
use tiny_mirror.Promotions.Decisions.{ignored}
use tiny_mirror.Promotions.Generate.{Decided}
use tiny_mirror.Tests.Promotions.{decision}
use tiny_mirror.Promotions.Reconcile.{reconcile_one}
use tiny_mirror.Promotions.Reconcile.Mirror.{shows}
use tiny_mirror.Promotions.Reconcile.Outage.{outage_ends_all}
use tiny_mirror.Promotions.Resubscribe.{Job, pending, mark_done}
use tiny_mirror.Promotions.Resubscribe.Poll.{
  PollContext, Queue, resubscribed, process_one, find_offer_by_status, scan_offers, fits,
}
use tiny_mirror.Promotions.Resubscribe.Find.{
  first_offer, or_offer, is_exact, find_offer_by_status_lem,
}
use tiny_mirror.Promotions.Resubscribe.Sound.{
  IsSound, queue_up, cancel, poll, handle_all, handle_all-IsSound,
}
use tiny_mirror.Promotions.Resubscribe.Budget.{budget, attempts_left}
use tiny_mirror.Promotions.Resubscribe.Passes.{polls, run_passes, polls_within_budget}
use tiny_mirror.Promotions.Resubscribe.Lost.{lost_request_done}

abbrev same : String → String
same s = s

abbrev no_float : String → Option ℤ
no_float s = none

abbrev back : Offer
back = record {
  id = some "C-1";
  type = some "DEAL";
  name = some "Deal";
  status = some "candidate";
  price = none;
  original_price = some 10000;
  meli_percentage = none;
  seller_percentage = none;
  fixed_percentage = none;
  min_discounted_price = none;
  max_discounted_price = none;
  suggested_discounted_price = none;
  stock_min = none;
  stock_max = none;
  start_date = none;
  finish_date = none;
}

-- Two attempts, and none made.
abbrev job : Job
job = record {
  id = 1;
  mlb_id = "MLB1";
  sku = "KIT-7";
  promo_type = "DEAL";
  promo_id = some "C-1";
  target_price = pos 9000;
  strict_promo_id = false;
  status = pending;
  attempts = 0;
  max_attempts = 2;
  next_attempt_at = 100;
  deadline = 1000;
  last_status_code = none;
  op_id = none;
  decided_by = none;
  created_at = 100;
  resolved_at = none;
}

abbrev queue : Queue
queue = record {
  jobs = job ∷ [];
  alerts = [];
  actions = [];
  rows = [];
  stats = record {
    due = 0;
    resubscribed = 0;
    already_active = 0;
    waiting = 0;
    failed = 0;
    deadline = 0;
    errors = 0;
  };
}

-- Nothing is offered, and every request is lost.
abbrev idle : PollContext
idle = record {
  ref = 200;
  clock = 200;
  poll_interval = 300;
  fetch = λ mlb_id. some [];
  write = λ r. none;
  dates = ("2026-06-01T00:00:00", "2026-07-01T23:59:59");
}

abbrev offered : PollContext
offered = record idle { fetch = λ mlb_id. some (back ∷ []) }

-- Too many requests, each time.
abbrev limited : ℕ → String → Option WriteAnswer
limited n token = some (record { status_code = 429; retry_after = none })

-- Four requests, and 1 + 2 + 4 seconds of sleep.
abbrev last_sent : Sending
last_sent = record {
  answer = some (record { status_code = 429; retry_after = none });
  sends = 4;
  slept = 7000;
}

ml_send_within_example :
    (last_sent.sends ≤ 5)
    × (last_sent.slept ≤ 90_000)
    × ((a : WriteAnswer)
        → last_sent.answer ≡ some a
        → is_transient a.status_code ≡ true
        → 4 ≤ last_sent.sends)
unfolding ml_send after_first rate_retry delay_of retry_after_seconds
ml_send_within_example = ml_send_within no_float limited (some "T") none last_sent refl

find_offer_by_status_lem_example :
    find_offer_by_status same same (back ∷ []) "DEAL" "candidate" (some "C-2") false
    ≡ or_offer
        (first_offer (is_exact same same "DEAL" "candidate" (some "C-2")) (back ∷ []))
        (first_offer (fits same same "DEAL" "candidate") (back ∷ []))
find_offer_by_status_lem_example =
    find_offer_by_status_lem same same "DEAL" "candidate" (some "C-2") false (back ∷ [])

job-IsSound : IsSound job
job-IsSound = record {
  has_attempts = λ e. omega arith;
  unresolved = λ e. refl;
  resolved = λ n. absurd (n refl);
}

-- Queued twice for one listing, polled twice, and cancelled when it has failed.
handle_all-IsSound_example :
    All IsSound
      (handle_all same same
        (queue_up 2 100 job
          ∷ queue_up 3 150 job
          ∷ poll idle 100
          ∷ poll (record idle { ref = 500 }) 100
          ∷ cancel 1 600
          ∷ [])
        queue).jobs
handle_all-IsSound_example =
    handle_all-IsSound same same
      (queue_up 2 100 job
        ∷ queue_up 3 150 job
        ∷ poll idle 100
        ∷ poll (record idle { ref = 500 }) 100
        ∷ cancel 1 600
        ∷ [])
      queue (omega arith, (omega arith, (tt, (tt, (tt, tt))))) (job-IsSound, tt)

-- The second pass exhausts the attempts, and the third finds no job that is due.
polls_within_budget_example :
    polls same same 100 (idle ∷ record idle { ref = 500 } ∷ record idle { ref = 800 } ∷ []) queue
      + budget
          (run_passes same same 100
            (idle ∷ record idle { ref = 500 } ∷ record idle { ref = 800 } ∷ [])
            queue).jobs
    ≤ 2
unfolding budget attempts_left
polls_within_budget_example =
    polls_within_budget same same 100
      (idle ∷ record idle { ref = 500 } ∷ record idle { ref = 800 } ∷ []) queue (tt, tt)
      (job-IsSound, tt)

abbrev lost : Request → ℕ → String → Option WriteAnswer
lost r n token = none

lost_request_done_example :
    process_one same same
      (record offered { write = λ r. ml_write no_float (lost r) (some "T") none })
      job
    ≡ some (record { job = mark_done 200 job; outcome = resubscribed (some "C-1") })
unfolding find_offer_by_status scan_offers
lost_request_done_example =
    lost_request_done same same no_float lost "T" none (λ r. refl) offered job (back ∷ []) back refl
      refl refl refl

abbrev listing : Listing
listing = record {
  mlb_id = "MLB1";
  sku = some "KIT-7";
  logistic_type = none;
  status = some "active";
  inventory_id = none;
  has_variations = false;
}

abbrev outage : String → String → Option Listed
outage mlb_id token = some (record { status_code = 503; json = none })

-- A row of a promotion that runs.
abbrev table : Decided
table = record {
  rows =
      record decision { status = ignored; constraint_used = some started; promo_key = "C-1" } ∷ [];
  next_id = 2;
}

outage_ends_all_example :
    any
      (shows "MLB1" "C-1")
      (reconcile_one same same
        (λ date. none)
        600
        (λ m. fetch_eligible_promos outage none m (some "T"))
        []
        listing
        table).rows
    ≡ false
outage_ends_all_example =
    outage_ends_all same same (λ date. none) 600 outage "T" none [] listing table
      (record { status_code = 503; json = none }) "C-1" refl refl refl
