-- ===== src/Promotions/Routes/Allowed.antt =====
-- Which decisions a route settles, and how it may end (src/tiny_mirror/api/routers/ml_promotions.py).
use tiny_mirror.Prelude.{
  ℕ, zero, suc, ◌≡◌, Bool, true, false, not, ◌&&◌, Option, none, some, List, ℤ, pos, ◌+ℤ◌, ltb_ℤ,
  leb_ℤ, ◌==◌, nat_eq,
}
use tiny_mirror.Promotions.Decisions.{
  Row, DecisionStatus, pending, approved, rejected, ignored, by_id,
}
use tiny_mirror.Promotions.Routes.{Response, refused, served}
use tiny_mirror.Promotions.Routes.Serve.{
  Route, approve_one, retry_one, reject_one, ignore_one, undo_one,
}

-- The statuses that a route settles.
abbrev pub settles : Route → DecisionStatus → Bool
settles (approve_one flag now id body) pending = true
settles (retry_one flag now id) approved = flag
settles (reject_one now id body) pending = true
settles (ignore_one now id body) pending = true
settles (undo_one id) pending = false
settles (undo_one id) _ = true
settles _ _ = false

-- The status that it leaves.
abbrev pub leaves : Route → DecisionStatus
leaves (approve_one flag now id body) = approved
leaves (retry_one flag now id) = approved
leaves (reject_one now id body) = rejected
leaves (ignore_one now id body) = ignored
leaves (undo_one id) = pending

abbrev pub route_id : Route → ℕ
route_id (approve_one flag now id body) = id
route_id (retry_one flag now id) = id
route_id (reject_one now id body) = id
route_id (ignore_one now id body) = id
route_id (undo_one id) = id

-- Whether a price may take the place of the target: above nothing, and at most a cent above a list
-- price that is known.
abbrev pub may_cost : Option ℕ → ℤ → Bool
may_cost none price = false
may_cost (some zero) price = false
may_cost (some (suc n)) price =
    not (leb_ℤ price (pos 0)) && not (ltb_ℤ (pos (suc n) +ℤ pos 1) price)

abbrev pub price_allowed : Option ℕ → Option ℤ → Bool
price_allowed list_price none = true
price_allowed list_price (some price) = may_cost list_price price

abbrev pub priced_right : Route → Row → Bool
priced_right (approve_one flag now id body) r = price_allowed r.list_price body.target_price
priced_right _ r = true

abbrev pub is_allowed : Route → Option Row → Bool
is_allowed route none = false
is_allowed route (some r) = settles route r.status && priced_right route r

-- The row with the id has the status and is what is returned, and the other rows are as they were.
pub record IsServed (id : ℕ) (status : DecisionStatus) (rows : List Row) (end : Response × List Row)
    : Type 0 where
  pub row : Row
  pub found : by_id id end.1 ≡ some row
  pub has_status : row.status ≡ status
  pub returned : end.0 ≡ served (some row)
  pub others : (k : ℕ) → (id == k) ≡ false → by_id k end.1 ≡ by_id k rows

-- An error, and the rows as they were.
abbrev pub IsRefused : List Row → Response × List Row → Type 0
IsRefused rows end = (code : ℕ) × (end ≡ (refused code, rows))

abbrev pub EndsBy : Bool → ℕ → DecisionStatus → List Row → Response × List Row → Type 0
EndsBy true id status rows end = IsServed id status rows end
EndsBy false id status rows end = IsRefused rows end
