-- ===== src/Tests/Pricing.antt =====
-- Prices of src/tiny_mirror/services/pricing_service.py at concrete inputs.
use tiny_mirror.Prelude.{
  ◌≡◌, refl, ℕ, ◌≤◌, ◌<ℤ◌, Option, none, some, List, [], ◌∷◌, ℤ, pos, negsuc, ◌+ℤ◌, ◌-ℤ◌, ◌*ℤ◌,
  ◌≤ℤ◌, All,
}
use tiny_mirror.Pricing.{
  FreightBand, two_bands, freight_for, commission_pct_for, nearest, nearest_ℕ, floor, solve,
  segment_breakpoints, banca, breakdown, margin_at_price, MarginBreakdown,
  target_price_for_min_margin_pct, target_price_for_max_discount_pct,
}
use tiny_mirror.Pricing.Floor.{Some}
use tiny_mirror.Pricing.Lowest.{headroom_in, need_in, IsPaying, Upto, target_price_lowest}
use tiny_mirror.Pricing.Edge.{target_at_edge}

-- A cost of R$ 46.93, commission and DIFAL of 11.5%, freights of R$ 6.00 and R$ 20.00, for a margin of 10%.
target_at_edge_example :
    (target_price_for_min_margin_pct
        (pos 4693)
        (pos 1150)
        (two_bands (pos 600) (pos 2000))
        (pos 1000)
        none
        (pos 0)
        []
      ≡ floor (pos 7900))
    × (freight_for 7900 (two_bands (pos 600) (pos 2000)) ≡ pos 2000)
unfolding solve nearest nearest_ℕ ◌+ℤ◌ ◌-ℤ◌ ◌*ℤ◌
target_at_edge_example =
    target_at_edge (pos 4693) (pos 1150) (pos 1000) (pos 600) (pos 2000) refl refl

-- At that price the margin is R$ -6.09 and -7.71%.
abbrev margins : Option MarginBreakdown → List ℤ
margins none = []
margins (some m) = m.margin_value ∷ m.margin_pct ∷ []

margin_at_edge :
    margins
      (margin_at_price 7900 (pos 4693) (pos 1150) (two_bands (pos 600) (pos 2000)) none (pos 0) [])
    ≡ negsuc 608 ∷ negsuc 770 ∷ []
unfolding margin_at_price breakdown banca nearest nearest_ℕ freight_for commission_pct_for ◌+ℤ◌ ◌-ℤ◌
    ◌*ℤ◌
margin_at_edge = refl

-- 30% off R$ 57.00.
discount : target_price_for_max_discount_pct 5700 (pos 3000) ≡ pos 3990
unfolding target_price_for_max_discount_pct nearest nearest_ℕ ◌-ℤ◌ ◌*ℤ◌
discount = refl

edge_price :
    target_price_for_min_margin_pct
      (pos 4693)
      (pos 1150)
      (two_bands (pos 600) (pos 2000))
      (pos 1000)
      none
      (pos 0)
      []
    ≡ floor (pos 7900)
unfolding solve nearest nearest_ℕ ◌+ℤ◌ ◌-ℤ◌ ◌*ℤ◌
edge_price = (target_at_edge (pos 4693) (pos 1150) (pos 1000) (pos 600) (pos 2000) refl refl).0

abbrev meeting : List FreightBand
meeting = two_bands (pos 600) (pos 2000)

abbrev headroom_at : ℕ × Option ℕ → ℤ
headroom_at = headroom_in (pos 4693) (pos 1150) (pos 1000) (pos 0) meeting none []

abbrev need_at : ℕ × Option ℕ → ℤ
need_at = need_in (pos 4693) (pos 1150) (pos 1000) (pos 0) meeting none []

target_price_lowest_example :
    Some
      (λ s. IsPaying (headroom_at s) (need_at s) (pos 7900) s.0 s.1)
      (segment_breakpoints meeting [])
    × All
        (λ s.
          (p : ℕ)
          → pos 0 <ℤ headroom_at s
          → s.0 ≤ p
          → Upto (pos p) s.1
          → need_at s ≤ℤ pos p *ℤ headroom_at s
          → pos 7900 ≤ℤ pos p)
        (segment_breakpoints meeting [])
target_price_lowest_example =
    target_price_lowest (pos 4693) (pos 1150) (pos 1000) (pos 0) meeting none [] (pos 7900)
      edge_price
