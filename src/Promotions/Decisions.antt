-- ===== src/Promotions/Decisions.antt =====
-- The table `ml_promo_decisions` and the repository over it
-- (src/tiny_mirror/infrastructure/repositories/ml_promo_repository.py, MLPromoDecisionRepository).
-- Left out: the reason, the context and the text of the answer, which are only stored.
pub mod Lifecycle
pub mod Keys
use tiny_mirror.Prelude.{
  ℕ, zero, suc, String, Bool, true, false, not, ◌&&◌, ◌||◌, Option, none, some, List, [], ◌∷◌, map,
  filter, any, length, ℤ, pos, ◌==◌, nat_eq, string_eq, if◌then◌else◌,
}
use tiny_mirror.Fulfillment.Transfer.{Time}
use tiny_mirror.Fulfillment.Catalog.{holds}
use tiny_mirror.Promotions.Score.{Constraint, started, discount_of}

pub data DecisionStatus : Type 0 where
  pending approved rejected ignored expired : DecisionStatus

pub data DecisionKind : Type 0 where
  would_activate already_active denied create_price_discount : DecisionKind

pub data ApplyStatus : Type 0 where
  ok failed skipped : ApplyStatus

abbrev pub is_pending : DecisionStatus → Bool
is_pending pending = true
is_pending _ = false

abbrev pub is_ignored : DecisionStatus → Bool
is_ignored ignored = true
is_ignored _ = false

-- `status NOT IN ('expired', 'rejected')`
abbrev pub is_live : DecisionStatus → Bool
is_live expired = false
is_live rejected = false
is_live _ = true

abbrev pub is_rejected : DecisionStatus → Bool
is_rejected rejected = true
is_rejected _ = false

pub record Row : Type 0 where
  pub id : ℕ
  pub mlb_id : String
  pub sku : String
  pub promo_key : String
  pub promo_id : Option String
  pub promo_type : String
  pub promo_name : Option String
  pub decision_kind : DecisionKind
  pub target_price : Option ℤ
  pub target_total_pct : Option ℤ
  pub target_seller_pct : Option ℤ
  pub meli_percentage : Option ℤ
  pub constraint_used : Option Constraint
  pub list_price : Option ℕ
  pub cap_pct : Option ℤ
  pub floor_price : Option ℤ
  pub min_price : Option ℤ
  pub max_price : Option ℤ
  pub stock_min : Option ℕ
  pub stock_max : Option ℕ
  pub stock_chosen : Option ℕ
  pub status : DecisionStatus
  pub promo_start_date : Option Time
  pub promo_finish_date : Option Time
  pub created_at : Time
  pub decided_at : Option Time
  pub decided_by : Option String
  pub notes : Option String
  pub expired_at : Option Time
  pub expired_reason : Option String
  pub ml_apply_status : Option ApplyStatus
  pub ml_apply_status_code : Option ℕ
  pub ml_applied_at : Option Time

-- The constraint (mlb_id, promo_key) is unique.
abbrev pub has_key : String → String → Row → Bool
has_key mlb_id key r = r.mlb_id == mlb_id && r.promo_key == key

abbrev pub is_started : Row → Bool
is_started r = elim r.constraint_used [ some started ↦ true | _ ↦ false ]

-- COALESCE(new, current)
abbrev pub coalesced {ℓ} : {A : Type ℓ} → Option A → Option A → Option A
coalesced none current = current
coalesced (some new) current = some new

-- An UPDATE with its WHERE.
abbrev pub update_where : (Row → Bool) → (Row → Row) → List Row → List Row
update_where p f rows = map (λ r. if p r then f r else r) rows

abbrev pub by_key : String → String → List Row → Option Row
by_key mlb_id key [] = none
by_key mlb_id key (r ∷ rows) = if has_key mlb_id key r then some r else by_key mlb_id key rows

abbrev pub by_id : ℕ → List Row → Option Row
by_id id [] = none
by_id id (r ∷ rows) = if r.id == id then some r else by_id id rows

abbrev pub refresh_dates : Row → Row → Row
refresh_dates new r = record r {
  promo_finish_date = coalesced new.promo_finish_date r.promo_finish_date;
  promo_start_date = coalesced new.promo_start_date r.promo_start_date;
}

-- The columns that an INSERT leaves to their defaults.
abbrev pub fresh : ℕ → Time → Row → Row
fresh id now new = record new {
  id = id;
  created_at = now;
  stock_chosen = none;
  decided_at = none;
  decided_by = none;
  notes = none;
  expired_at = none;
  expired_reason = none;
  ml_apply_status = none;
  ml_apply_status_code = none;
  ml_applied_at = none;
}

-- The new row, or only its dates where the key is there. The test says whether a row was inserted.
unfoldable pub insert_if_absent : ℕ → Time → Row → List Row → List Row × Bool
insert_if_absent id now new rows =
    if any (has_key new.mlb_id new.promo_key) rows
    then (update_where (has_key new.mlb_id new.promo_key) (refresh_dates new) rows, false)
    else (fresh id now new ∷ rows, true)

-- What the operator may add to a decision.
pub record Override : Type 0 where
  pub by : Option String
  pub notes : Option String
  pub target_price : Option ℤ
  pub target_total_pct : Option ℤ
  pub target_seller_pct : Option ℤ
  pub stock_chosen : Option ℕ

pub data OperatorVerdict : Type 0 where
  approve reject ignore : OperatorVerdict

abbrev pub status_of : OperatorVerdict → DecisionStatus
status_of approve = approved
status_of reject = rejected
status_of ignore = ignored

-- An operation on a row by its id, where the guard holds.
abbrev pub where_id : ℕ → (DecisionStatus → Bool) → Row → Bool
where_id id guard r = r.id == id && guard r.status

-- `decide`; another status raises.
unfoldable pub decide_row : Time → OperatorVerdict → Override → Row → Row
decide_row now verdict o r = record r {
  status = status_of verdict;
  decided_at = some now;
  decided_by = o.by;
  notes = coalesced o.notes r.notes;
  target_price = coalesced o.target_price r.target_price;
  target_total_pct = coalesced o.target_total_pct r.target_total_pct;
  target_seller_pct = coalesced o.target_seller_pct r.target_seller_pct;
  stock_chosen = coalesced o.stock_chosen r.stock_chosen;
}

unfoldable pub decide_pending : Time → ℕ → OperatorVerdict → Override → List Row → List Row
unfolding decide_row
decide_pending now id verdict o = update_where (where_id id is_pending) (decide_row now verdict o)

abbrev pub applied_row : Time → ApplyStatus → Option ℕ → Row → Row
applied_row now status code r = record r {
  ml_apply_status = some status;
  ml_apply_status_code = code;
  ml_applied_at = some now;
}

unfoldable pub record_apply_result : Time → ℕ → ApplyStatus → Option ℕ → List Row → List Row
record_apply_result now id status code =
    update_where (λ r. r.id == id) (applied_row now status code)

abbrev pub expire_row : Time → String → Row → Row
expire_row now reason r = record r {
  status = expired;
  expired_at = some now;
  expired_reason = some reason;
}

unfoldable pub expire : Time → ℕ → String → List Row → List Row
expire now id reason = update_where (where_id id is_pending) (expire_row now reason)

-- The rows of what runs that Mercado Livre no longer lists.
abbrev pub has_disappeared : String → List String → Row → Bool
has_disappeared mlb_id seen r =
    r.mlb_id == mlb_id
    && (is_started r && (is_ignored r.status && not (any (λ key. r.promo_key == key) seen)))

unfoldable pub expire_disappeared_started : Time → String → List String → List Row → List Row
expire_disappeared_started now mlb_id seen =
    update_where (has_disappeared mlb_id seen) (expire_row now "campaign_ended")

abbrev pub of_type : Option String → Row → Bool
of_type none r = true
of_type (some type) r = if type == "" then true else r.promo_type == type

-- The promotion by its id, or else by its type.
abbrev pub of_campaign : Option String → Option String → Row → Bool
of_campaign none type r = of_type type r
of_campaign (some id) type r =
    if id == "" then of_type type r else holds r.promo_id id || r.promo_key == id

abbrev pub repriced : Option ℕ → ℤ → Option ℤ → Option ℤ
repriced none price total = total
repriced (some zero) price total = total
repriced (some (suc n)) price total = some (discount_of (suc n) price)

abbrev pub with_price : ℤ → Row → Row
with_price price r = record r {
  target_price = some price;
  target_total_pct = repriced r.list_price price r.target_total_pct;
}

abbrev pub runs_as : String → Option String → Option String → Row → Bool
runs_as mlb_id promo_id promo_type r =
    r.mlb_id == mlb_id && (is_started r && (is_live r.status && of_campaign promo_id promo_type r))

unfoldable pub update_started_price :
    String → ℤ → Option String → Option String → List Row → List Row
unfolding discount_of
update_started_price mlb_id price promo_id promo_type =
    update_where (runs_as mlb_id promo_id promo_type) (with_price price)

unfoldable pub expire_started :
    Time → String → Option String → Option String → String → List Row → List Row
expire_started now mlb_id promo_id promo_type reason =
    update_where (runs_as mlb_id promo_id promo_type) (expire_row now reason)

abbrev pub restore_row : ℤ → Row → Row
restore_row price r = record (with_price price r) {
  status = ignored;
  expired_at = none;
  expired_reason = none;
}

abbrev pub is_restorable : String → Option String → Option String → Row → Bool
is_restorable mlb_id promo_id promo_type r =
    r.mlb_id == mlb_id
    && (is_started r && (not (is_rejected r.status) && of_campaign promo_id promo_type r))

unfoldable pub restore_started_price :
    String → ℤ → Option String → Option String → List Row → List Row
unfolding discount_of
restore_started_price mlb_id price promo_id promo_type =
    update_where (is_restorable mlb_id promo_id promo_type) (restore_row price)

abbrev pub reopen_row : Row → Row
reopen_row r = record r { status = pending; expired_at = none; expired_reason = none }

unfoldable pub revert_to_pending : ℕ → List Row → List Row
revert_to_pending id = update_where (where_id id (λ s. not (is_pending s))) reopen_row

-- The row that `upsert_started` finds is made one of a promotion that runs, whatever its status.
abbrev pub restart_row : ℤ → Row → Row → Row
restart_row price new r = record r {
  status = ignored;
  constraint_used = some started;
  decision_kind = already_active;
  promo_type = new.promo_type;
  promo_id = new.promo_id;
  target_price = some price;
  expired_at = none;
  expired_reason = none;
  target_total_pct = coalesced (repriced new.list_price price none) r.target_total_pct;
  list_price = coalesced new.list_price r.list_price;
  promo_finish_date = coalesced new.promo_finish_date r.promo_finish_date;
  promo_start_date = coalesced new.promo_start_date r.promo_start_date;
}

abbrev pub running_row : ℕ → Time → ℤ → Row → Row
running_row id now price new = record (fresh id now new) {
  decision_kind = already_active;
  target_price = some price;
  target_total_pct = repriced new.list_price price none;
  target_seller_pct = none;
  meli_percentage = none;
  constraint_used = some started;
  status = ignored;
  min_price = none;
  max_price = none;
  stock_min = none;
  stock_max = none;
}

unfoldable pub upsert_started : ℕ → Time → ℤ → Row → List Row → List Row
unfolding discount_of
upsert_started id now price new rows =
    if any (has_key new.mlb_id new.promo_key) rows
    then update_where (has_key new.mlb_id new.promo_key) (restart_row price new) rows
    else running_row id now price new ∷ rows
