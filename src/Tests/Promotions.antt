-- ===== src/Tests/Promotions.antt =====
-- The engine of src/tiny_mirror/services/ml_promotion_service.py and its decisions at concrete inputs.
use tiny_mirror.Prelude.{
  ◌≡◌, refl, String, true, false, none, some, List, [], ◌∷◌, All, any, map, filter, pos, ◌+ℤ◌, ◌-ℤ◌,
  ◌*ℤ◌, ◌≤ℤ◌, max_ℤ, arith, inl, ◌==◌, string_eq, nat_eq,
}
use tiny_mirror.Sort.{sort}
use tiny_mirror.Pricing.{nearest, nearest_ℕ}
use tiny_mirror.Promotions.{Offer}
use tiny_mirror.Promotions.Score.{
  Constraint, interval, Scored, envelope, score_candidate_promo, score_interval, target_at_cap,
  discounted, discount_of,
}
use tiny_mirror.Promotions.Score.Limits.{IsWithin, accepted-IsWithin}
use tiny_mirror.Promotions.Decide.{Plan}
use tiny_mirror.Promotions.Decide.Item.{Settings, decide_for_item}
use tiny_mirror.Promotions.Decide.Floor.{decision_keeps_floor}
use tiny_mirror.Promotions.Decisions.{
  Row, pending, ignored, expired, approve, would_activate, Override,
}
use tiny_mirror.Promotions.Decisions.Lifecycle.{
  Op, insert, settle, expire_one, undo, perform_all, IsStamped, perform_all-IsStamped,
}
use tiny_mirror.Promotions.Decisions.Keys.{IsDistinct, perform_all-IsDistinct}
use tiny_mirror.Promotions.Bulk.{Filter, integrity_error, bulk_decide_pending, bulk_never_settles}
use tiny_mirror.Promotions.Generate.{Decided, store_entries}
use tiny_mirror.Promotions.Generate.Renewal.{Kept, candidates_keep_decisions}
use tiny_mirror.Promotions.Enumerate.{Entry}
use tiny_mirror.Caps.Recompute.{CapRow}
use tiny_mirror.Promotions.Reconcile.{key_of_started, runs_at_price, reconcile_promos}
use tiny_mirror.Promotions.Reconcile.Mirror.{shows, reconcile_mirrors}

abbrev same : String → String
same s = s

-- R$ 100.00, to be sold at R$ 70.00 or more.
abbrev deal : Offer
deal = record {
  id = some "P-1";
  type = some "DEAL";
  name = some "Deal";
  status = some "candidate";
  price = none;
  original_price = some 10000;
  meli_percentage = none;
  seller_percentage = none;
  fixed_percentage = none;
  min_discounted_price = some (pos 7000);
  max_discounted_price = none;
  suggested_discounted_price = none;
  stock_min = none;
  stock_max = none;
  start_date = none;
  finish_date = none;
}

abbrev running : Offer
running = record deal { id = some "P-3"; status = some "started"; price = some (pos 9000) }

-- A cap of 20% and a floor of R$ 75.00.
abbrev settings : Settings
settings = record {
  cap_seller_pct = pos 2000;
  margin_floor_price = some (pos 7500);
  freight_band_opt_enabled = true;
  excluded_types = [];
  skip_when_winning = false;
}

abbrev plan : Plan
plan = record {
  total_pct = pos 2000;
  seller_pct = pos 2000;
  meli_pct = pos 0;
  price = pos 8000;
  promo_type = some "DEAL";
  promo_id = some "P-1";
  promo_name = some "Deal";
}

abbrev scored_deal : Scored
scored_deal = record {
  denied_reason = none;
  target_price = pos 8000;
  target_total_pct = pos 2000;
  target_seller_pct = pos 2000;
  meli_percentage = pos 0;
  constraint = Constraint.min_discounted_price;
  structure_type = interval;
  min_price = some (pos 7000);
  max_price = some (pos 10000);
  stock_min = none;
  stock_max = none;
}

-- The cap sets the price: R$ 80.00, above the floor and what Mercado Livre asks for.
accepted-IsWithin_example : IsWithin (envelope (pos 2000) (some (pos 7500)) 10000 deal) scored_deal
unfolding max_ℤ ◌+ℤ◌ ◌-ℤ◌ ◌*ℤ◌ nearest nearest_ℕ target_at_cap discounted discount_of score_interval
    score_candidate_promo
accepted-IsWithin_example =
    accepted-IsWithin same deal (pos 2000) (some (pos 7500)) 10000 scored_deal refl refl refl

decision_keeps_floor_example : pos 7500 ≤ℤ pos 8000 +ℤ pos 1
unfolding decide_for_item sort max_ℤ ◌+ℤ◌ ◌-ℤ◌ ◌*ℤ◌ nearest nearest_ℕ target_at_cap discounted
    discount_of score_interval score_candidate_promo
decision_keeps_floor_example =
    decision_keeps_floor same settings (deal ∷ running ∷ []) none none (pos 7500) plan
      (refl, (refl, tt)) refl refl

abbrev pub decision : Row
decision = record {
  id = 1;
  mlb_id = "MLB1";
  sku = "KIT-7";
  promo_key = "P-1";
  promo_id = some "P-1";
  promo_type = "DEAL";
  promo_name = some "Deal";
  decision_kind = would_activate;
  target_price = some (pos 8000);
  target_total_pct = some (pos 2000);
  target_seller_pct = some (pos 2000);
  meli_percentage = some (pos 0);
  constraint_used = some Constraint.min_discounted_price;
  list_price = some 10000;
  cap_pct = some (pos 2000);
  floor_price = some (pos 7500);
  min_price = some (pos 7000);
  max_price = some (pos 10000);
  stock_min = none;
  stock_max = none;
  stock_chosen = none;
  status = pending;
  promo_start_date = none;
  promo_finish_date = none;
  created_at = 100;
  decided_at = none;
  decided_by = none;
  notes = none;
  expired_at = none;
  expired_reason = none;
  ml_apply_status = none;
  ml_apply_status_code = none;
  ml_applied_at = none;
}

abbrev plainly : Override
plainly = record {
  by = some "ana";
  notes = none;
  target_price = none;
  target_total_pct = none;
  target_seller_pct = none;
  stock_chosen = none;
}

-- Offered, expired, offered again, taken back, and approved.
abbrev history : List Op
history =
    insert 1 100 decision
    ∷ expire_one 200 1 "stale_age"
    ∷ insert 2 300 decision
    ∷ undo 1
    ∷ settle 400 1 approve plainly
    ∷ []

perform_all-IsStamped_example : All IsStamped (perform_all history [])
perform_all-IsStamped_example = perform_all-IsStamped history [] (ground arith) tt

perform_all-IsDistinct_example : IsDistinct (perform_all history [])
perform_all-IsDistinct_example = perform_all-IsDistinct history [] tt

abbrev gone : Row
gone = record decision {
  status = expired;
  expired_at = some 200;
  expired_reason = some "stale_age";
}

abbrev everything : Filter
everything = record { promo_types = []; skus = []; min_delta_pct = none; max_delta_pct = none }

bulk_never_settles_example :
    bulk_decide_pending 500 "ignore" everything false none none (decision ∷ []) ≡ integrity_error
unfolding bulk_decide_pending
bulk_never_settles_example =
    bulk_never_settles 500 "ignore" everything none none 1 (decision ∷ []) (inl refl) refl

-- The second row has no promotion any more, and the first gets one.
abbrev before : Decided
before = record {
  rows =
      decision
      ∷ record decision {
        id = 2;
        promo_key = "P-9";
        constraint_used = some Constraint.started;
        status = ignored;
      }
      ∷ [];
  next_id = 3;
}

reconcile_mirrors_example :
    any
      (shows "MLB1" "P-9")
      (reconcile_promos same same
        (λ date. none)
        600
        "MLB1"
        "KIT-7"
        (some 10000)
        (running ∷ deal ∷ [])
        before).rows
    ≡ any
        (λ key. "P-9" == key)
        (map
          (key_of_started same same (λ date. none) 600)
          (filter (runs_at_price same same (λ date. none) 600) (running ∷ deal ∷ [])))
reconcile_mirrors_example =
    reconcile_mirrors same same (λ date. none) 600 "MLB1" "KIT-7" (some 10000) (running ∷ deal ∷ [])
      before "P-9"

-- The promotion of the expired decision is offered again, at another price.
abbrev offered_again : Entry
offered_again = record {
  offer = deal;
  status = would_activate;
  target_price = some (pos 7600);
  target_total_pct = some (pos 2400);
  target_seller_pct = some (pos 2400);
  meli_percentage = pos 0;
  constraint = Constraint.min_discounted_price;
  min_price = some (pos 7000);
  max_price = some (pos 10000);
  stock_min = none;
  stock_max = none;
}

abbrev cap_row : CapRow
cap_row = record {
  mlb_id = "MLB1";
  sku = "KIT-7";
  max_seller_share_pct = pos 3000;
  margin_floor_price = some (pos 7500);
  has_active_promo = false;
  active_promo_price = none;
}

candidates_keep_decisions_example :
    Kept "MLB1" "P-1" gone
      (store_entries same same
        (λ date. none)
        600
        "MLB1"
        "KIT-7"
        10000
        cap_row
        (offered_again ∷ [])
        (record { rows = gone ∷ []; next_id = 2 })).rows
candidates_keep_decisions_example =
    candidates_keep_decisions same same (λ date. none) 600 "MLB1" "KIT-7" 10000 cap_row
      (offered_again ∷ []) (record { rows = gone ∷ []; next_id = 2 }) "MLB1" "P-1" gone (refl, tt)
      refl
