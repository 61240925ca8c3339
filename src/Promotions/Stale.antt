-- ===== src/Promotions/Stale.antt =====
-- `expire_stale_decisions` (src/tiny_mirror/services/ml_promotion_service.py): pending decisions whose
-- inputs have changed are expired.
use tiny_mirror.Prelude.{
  ℕ, ◌+◌, ◌*◌, String, Bool, false, not, ◌&&◌, Option, none, some, List, [], ◌∷◌, filter, take, ℤ,
  pos, ◌-ℤ◌, ◌*ℤ◌, ltb, ltb_ℤ, max_ℤ, ◌==◌, nat_eq, int_eq, string_eq, if◌then◌else◌,
}
use tiny_mirror.Sort.{sort, descending}
use tiny_mirror.Fulfillment.Transfer.{Time}
use tiny_mirror.Fulfillment.Catalog.{Listing, holds}
use tiny_mirror.Pricing.{whole_percent}
use tiny_mirror.Caps.{CostsSnapshot}
use tiny_mirror.Caps.Recompute.{CapRow}
use tiny_mirror.Promotions.Decisions.{Row, is_pending, expire}

pub data StaleReason : Type 0 where
  listing_not_active campaign_ended list_price_drift cap_changed floor_changed stale_age :
      StaleReason

-- The thresholds: hundredths of a percent, and days.
pub record Thresholds : Type 0 where
  pub price_drift_pct : ℤ
  pub cap_drift_pct : ℤ
  pub floor_drift_pct : ℤ
  pub age_days : ℕ

abbrev pub distance : ℤ → ℤ → ℤ
distance a b = max_ℤ (a -ℤ b) (b -ℤ a)

-- Whether `abs(now - then) / then * 100 > threshold`, for a positive `then`.
unfoldable pub drifts : ℤ → ℤ → ℤ → Bool
drifts threshold before now =
    ltb_ℤ (pos 0) before && ltb_ℤ (threshold *ℤ before) (distance now before *ℤ pos whole_percent)

abbrev pub snap_price : Option CostsSnapshot → Option ℤ
snap_price none = none
snap_price (some s) = s.list_price

-- `if row.list_price and snap.list_price`
unfoldable pub price_drifts : ℤ → Option ℕ → Option ℤ → Bool
unfolding drifts
price_drifts threshold none current = false
price_drifts threshold (some before) none = false
price_drifts threshold (some before) (some current) =
    not (current == pos 0) && drifts threshold (pos before) current

unfoldable pub cap_drifts : ℤ → Option ℤ → Option CapRow → Bool
cap_drifts threshold none cap_row = false
cap_drifts threshold (some before) none = false
cap_drifts threshold (some before) (some c) =
    ltb_ℤ threshold (distance c.max_seller_share_pct before)

unfoldable pub floor_drifts : ℤ → Option ℤ → Option CapRow → Bool
unfolding drifts
floor_drifts threshold none cap_row = false
floor_drifts threshold (some before) none = false
floor_drifts threshold (some before) (some c) = elim c.margin_floor_price [
  | none ↦ false
  | some current ↦ drifts threshold before current
]

abbrev pub microseconds_per_day : ℕ
microseconds_per_day = 86_400_000_000

-- The first reason that applies.
unfoldable pub stale_reason :
    Thresholds → Time → Option CostsSnapshot → Option CapRow → Row → Option StaleReason
unfolding price_drifts cap_drifts floor_drifts
stale_reason t now snap cap_row r =
    if price_drifts t.price_drift_pct r.list_price (snap_price snap)
    then some list_price_drift
    else if cap_drifts t.cap_drift_pct r.cap_pct cap_row
    then some cap_changed
    else if floor_drifts t.floor_drift_pct r.floor_price cap_row
    then some floor_changed
    else if ltb (r.created_at + t.age_days * microseconds_per_day) now
    then some stale_age
    else none

abbrev pub has_ended : Time → Option Time → Bool
has_ended now none = false
has_ended now (some finish) = ltb finish now

unfoldable pub listing_status : List Listing → String → Option String
listing_status [] mlb_id = none
listing_status (l ∷ ls) mlb_id =
    let rest = listing_status ls mlb_id in if l.mlb_id == mlb_id then l.status else rest

unfoldable pub cap_of : List CapRow → String → Option CapRow
cap_of [] mlb_id = none
cap_of (c ∷ caps) mlb_id =
    let rest = cap_of caps mlb_id in if c.mlb_id == mlb_id then some c else rest

unfoldable pub snapshot_of : List CostsSnapshot → String → Option CostsSnapshot
snapshot_of [] mlb_id = none
snapshot_of (s ∷ snapshots) mlb_id =
    let rest = snapshot_of snapshots mlb_id in if s.mlb_id == mlb_id then some s else rest

abbrev pub reason_text : StaleReason → String
reason_text listing_not_active = "listing_not_active"
reason_text campaign_ended = "campaign_ended"
reason_text list_price_drift = "list_price_drift"
reason_text cap_changed = "cap_changed"
reason_text floor_changed = "floor_changed"
reason_text stale_age = "stale_age"

-- What the sweep reads besides the decisions.
pub record Facts : Type 0 where
  pub listings : List Listing
  pub caps : List CapRow
  pub snapshots : List CostsSnapshot

unfoldable pub reason_for : Thresholds → Time → Facts → Row → Option StaleReason
unfolding listing_status cap_of snapshot_of stale_reason
reason_for t now facts r =
    if not (holds (listing_status facts.listings r.mlb_id) "active")
    then some listing_not_active
    else if has_ended now r.promo_finish_date
    then some campaign_ended
    else stale_reason t now (snapshot_of facts.snapshots r.mlb_id) (cap_of facts.caps r.mlb_id) r

-- At most 5000 pending rows, the newest first.
abbrev pub sweep_limit : ℕ
sweep_limit = 5000

unfoldable pub pending_rows : List Row → List Row
pending_rows rows =
    take sweep_limit
      (sort (descending (λ r. r.created_at)) (filter (λ r. is_pending r.status) rows))

unfoldable pub expire_for : Time → ℕ → Option StaleReason → List Row → List Row
expire_for now id none rows = rows
expire_for now id (some reason) rows = expire now id (reason_text reason) rows

unfoldable pub sweep : Thresholds → Time → Facts → List Row → List Row → List Row
unfolding expire_for reason_for
sweep t now facts [] rows = rows
sweep t now facts (r ∷ rs) rows =
    sweep t now facts rs (expire_for now r.id (reason_for t now facts r) rows)

unfoldable pub expire_stale_decisions : Thresholds → Time → Facts → List Row → List Row
unfolding sweep pending_rows
expire_stale_decisions t now facts rows = sweep t now facts (pending_rows rows) rows
