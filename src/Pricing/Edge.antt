-- ===== src/Pricing/Edge.antt =====
-- A price at the edge between two freight bands.
use tiny_mirror.Prelude.{◌≡◌, refl, false, none, [], ℤ, pos, ◌+ℤ◌, ◌-ℤ◌, min_ℤ, leb_ℤ, arith}
use tiny_mirror.Sort.{sort}
use tiny_mirror.Pricing.{
  whole_percent, margin_difal_pct, two_bands, freight_for, commission_pct_for, floor, least, place,
  solve, search_segments, candidate_of, segment_breakpoints, segments_from,
  target_price_for_min_margin_pct,
}

-- The third segment gives no less than its lower edge.
from_edge : (p : ℤ) → least (floor (pos 7900)) (place p 7900 none) ≡ floor (pos 7900)
unfolding place min_ℤ
from_edge p = ground arith

-- Under two freight bands that meet at R$ 79.00, one commission and no co-pay: where the lower band's
-- freight makes 79.00 the price that yields the margin, 79.00 is the price that is returned, though the
-- freight that is charged at 79.00 is the upper band's.
pub target_at_edge :
    (cost pct margin_pct low high : ℤ)
    → leb_ℤ (pos whole_percent -ℤ margin_pct -ℤ (pct +ℤ margin_difal_pct)) (pos 0) ≡ false
    → solve (cost +ℤ low) (pos 0) (pos whole_percent -ℤ margin_pct -ℤ (pct +ℤ margin_difal_pct))
      ≡ pos 7900
    → (target_price_for_min_margin_pct cost pct (two_bands low high) margin_pct none (pos 0) []
        ≡ floor (pos 7900))
      × (freight_for 7900 (two_bands low high) ≡ high)
unfolding target_price_for_min_margin_pct search_segments candidate_of segment_breakpoints
    segments_from sort freight_for commission_pct_for
target_at_edge cost pct margin_pct low high headroom solved = (
  rw (headroom, solved)
      (from_edge (
        solve (cost +ℤ high) (pos 0)
          (pos whole_percent -ℤ margin_pct -ℤ (pct +ℤ margin_difal_pct)))),
  refl,
)
