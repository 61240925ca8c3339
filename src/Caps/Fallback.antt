-- ===== src/Caps/Fallback.antt =====
-- A cap for a listing without live promotions.
use tiny_mirror.Prelude.{
  ℕ, zero, suc, Bool, true, false, Option, none, some, List, [], ◌∷◌, ℤ, pos, negsuc, ◌≤ℤ◌, ◌-ℤ◌,
  ◌*ℤ◌, max_ℤ, ltb_ℤ, min_ℤ_left, min_ℤ_nonneg, max_ℤ_right, arith, inl, inr, Bool-cases,
  if◌then◌else◌,
}
use tiny_mirror.Pricing.{
  or_own, FreightBand, CommissionBand, Target, no_headroom, no_band, floor, or_fallback,
  whole_percent, nearest, margin_at_price,
}
use tiny_mirror.Caps.{
  CostsSnapshot, CapCalculation, default_cap_pct, min_margin_pct, skipped_cap, pct_of, or_own,
  bands_or_own, cap_from_target, cap_from_margin, cap_from_costs, calc_cap_for_snapshot,
}

-- The discount that the sheet asks for.
abbrev pub base_cap : CostsSnapshot → ℤ
base_cap snap = or_fallback snap.sheet_discount_pct default_cap_pct

module _ (snap : CostsSnapshot) (asked : pos 0 ≤ℤ base_cap snap) where
  abbrev IsWithin : CapCalculation → Type 0
  IsWithin cap = (pos 0 ≤ℤ cap.cap_pct) × (cap.cap_pct ≤ℤ base_cap snap)

  either :
      (b : Bool) (x y : CapCalculation) → IsWithin x → IsWithin y → IsWithin (if b then x else y)
  either true x y h k = h
  either false x y h k = k

  target-IsWithin :
      (cost pct : ℤ) (bands : List FreightBand) (commission_bands : List CommissionBand) (n : ℕ)
      (t : Target)
      → IsWithin (cap_from_target snap cost pct bands commission_bands n t)
  unfolding cap_from_target
  target-IsWithin cost pct bands commission_bands n no_headroom = (omega arith, asked)
  target-IsWithin cost pct bands commission_bands n no_band = (omega arith, asked)
  target-IsWithin cost pct bands commission_bands n (floor price) =
      let by_margin = nearest ((pos n -ℤ price) *ℤ pos whole_percent) n in
      (
        min_ℤ_nonneg (base_cap snap) (max_ℤ by_margin (pos 0)) asked
            (max_ℤ_right by_margin (pos 0)),
        min_ℤ_left (base_cap snap) (max_ℤ by_margin (pos 0)),
      )

  margin-IsWithin :
      (cost pct : ℤ) (bands : List FreightBand) (commission_bands : List CommissionBand) (n : ℕ)
      (margin : Option ℤ)
      → IsWithin (cap_from_margin snap cost pct bands commission_bands n margin)
  unfolding cap_from_margin
  margin-IsWithin cost pct bands commission_bands n margin =
      elim (Bool-cases (ltb_ℤ (or_fallback margin (pos 0)) min_margin_pct)) [
        | inl short ↦ rw short (omega arith, asked)
        | inr reached ↦ rw reached (target-IsWithin cost pct bands commission_bands n _)
      ]

  costs-IsWithin :
      (cost pct list_price : Option ℤ) (bands : List FreightBand)
      (commission_bands : List CommissionBand)
      → IsWithin (cap_from_costs snap cost pct list_price bands commission_bands)
  unfolding cap_from_costs
  costs-IsWithin (some cost) (some pct) (some (pos (suc n))) (b ∷ bands) commission_bands =
      margin-IsWithin cost pct (b ∷ bands) commission_bands (suc n)
        (pct_of (margin_at_price (suc n) cost pct (b ∷ bands) none (pos 0) commission_bands))
  costs-IsWithin (some cost) (some pct) (some (pos (suc n))) [] commission_bands =
      (omega arith, asked)
  costs-IsWithin (some cost) (some pct) (some (pos zero)) bands commission_bands =
      (omega arith, asked)
  costs-IsWithin (some cost) (some pct) (some (negsuc n)) bands commission_bands =
      (omega arith, asked)
  costs-IsWithin (some cost) (some pct) none bands commission_bands = (omega arith, asked)
  costs-IsWithin (some cost) none list_price bands commission_bands = (omega arith, asked)
  costs-IsWithin none pct list_price bands commission_bands = (omega arith, asked)

  -- Where the discount that the sheet asks for, or the default, is not negative: the cap of a listing
  -- without live promotions is not negative and no more than that discount, on every path.
  pub cap_within :
      (commission_pct : Option ℤ) (freight_bands : Option (List FreightBand))
      (commission_bands : List CommissionBand)
      → let cap = calc_cap_for_snapshot snap commission_pct freight_bands commission_bands in
        (pos 0 ≤ℤ cap.cap_pct) × (cap.cap_pct ≤ℤ base_cap snap)
  unfolding calc_cap_for_snapshot
  cap_within commission_pct freight_bands commission_bands =
      either snap.fetch_error (skipped_cap snap none)
        (cap_from_costs snap snap.base_cost (or_own commission_pct snap.commission_pct)
          snap.list_price (bands_or_own freight_bands snap.freight_bands) commission_bands)
        (omega arith, asked)
        (costs-IsWithin snap.base_cost (or_own commission_pct snap.commission_pct) snap.list_price
          (bands_or_own freight_bands snap.freight_bands) commission_bands)
