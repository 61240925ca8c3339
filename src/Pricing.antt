-- ===== src/Pricing.antt =====
-- src/tiny_mirror/services/pricing_service.py: what a price leaves of it, and the lowest price that
-- leaves a given margin. Amounts are whole cents, percentages hundredths of a percent (11.5% is 1150).
-- `Decimal` is exact but for `quantize`, which rounds to the nearest cent, a half to the even one.
pub mod Nearest
pub mod Floor
pub mod Lowest
pub mod Edge
use tiny_mirror.Prelude.{
  ℕ, zero, suc, ◌+◌, ◌*◌, ◌/◌, ◌%◌, Bool, true, false, not, ◌&&◌, Option, none, some, List, [], ◌∷◌,
  ◌++◌, distinct, flat_map, ℤ, pos, negsuc, pos_part, ◌+ℤ◌, ◌-ℤ◌, ◌*ℤ◌, min_ℤ, ltb_ℤ, leb_ℤ, ltb,
  ◌==◌, nat_eq, int_eq, string_eq, String, if◌then◌else◌,
}
use tiny_mirror.Sort.{sort, ascending}

-- `quantize` of n / d; d is not 0.
unfoldable pub nearest_ℕ : ℕ → ℕ → ℕ
nearest_ℕ n d =
    let q = n / d in
    let r = n % d in
    if ltb (2 * r) d then q else if ltb d (2 * r) then suc q else if q % 2 == 0 then q else suc q

unfoldable pub nearest : ℤ → ℕ → ℤ
unfolding nearest_ℕ
nearest (pos n) d = pos (nearest_ℕ n d)
nearest (negsuc n) d = pos 0 -ℤ pos (nearest_ℕ (suc n) d)

abbrev pub whole_percent : ℕ
whole_percent = 10_000

-- DIFAL, 11.5%.
abbrev pub margin_difal_pct : ℤ
margin_difal_pct = pos 1150

pub record FreightBand : Type 0 where
  pub min : Option ℕ
  pub max : Option ℕ
  pub cost : ℤ

pub record CommissionBand : Type 0 where
  pub min : Option ℕ
  pub max : Option ℕ
  pub pct : Option ℤ

-- Both ends belong to the band; without a lower end it holds nothing.
abbrev pub is_inside : Option ℕ → Option ℕ → ℕ → Bool
is_inside none hi p = false
is_inside (some lo) none p = not (ltb p lo)
is_inside (some lo) (some hi) p = not (ltb p lo) && not (ltb hi p)

-- The cost of the first band that holds the price.
unfoldable pub freight_for : ℕ → List FreightBand → ℤ
freight_for price [] = pos 0
freight_for price (b ∷ bands) =
    let rest = freight_for price bands in if is_inside b.min b.max price then b.cost else rest

abbrev pub or_fallback : Option ℤ → ℤ → ℤ
or_fallback none fallback = fallback
or_fallback (some pct) fallback = pct

unfoldable pub commission_pct_for : ℕ → List CommissionBand → ℤ → ℤ
commission_pct_for price [] fallback = fallback
commission_pct_for price (b ∷ bands) fallback =
    let rest = commission_pct_for price bands fallback in
    if is_inside b.min b.max price then or_fallback b.pct fallback else rest

-- `price * pct / 100`, to the cent.
abbrev pub share : ℤ → ℤ → ℤ
share amount pct = nearest (amount *ℤ pct) whole_percent

pub record MarginBreakdown : Type 0 where
  pub price : ℕ
  pub base_cost : ℤ
  pub commission_value : ℤ
  pub commission_pct : ℤ
  pub difal_value : ℤ
  pub difal_pct : ℤ
  pub freight_value : ℤ
  pub ml_banca_value : ℤ
  pub margin_value : ℤ
  pub margin_pct : ℤ
  pub seller_receives : ℤ

-- The co-pay of Mercado Livre; none where it needs a list price and there is none.
unfoldable pub banca : Option ℕ → ℤ → Option ℤ
unfolding nearest
banca list_price meli_banca_pct =
    if meli_banca_pct == pos 0
    then some (pos 0)
    else elim list_price [ none ↦ none | some price ↦ some (share (pos price) meli_banca_pct) ]

abbrev pub margin_share : ℤ → ℕ → ℤ
margin_share margin zero = pos 0
margin_share margin (suc n) = nearest (margin *ℤ pos whole_percent) (suc n)

unfoldable pub breakdown : ℕ → ℤ → ℤ → List FreightBand → List CommissionBand → ℤ → MarginBreakdown
unfolding nearest freight_for commission_pct_for
breakdown price base_cost pct freight_bands commission_bands banca_val =
    let comm_pct = commission_pct_for price commission_bands pct in
    let comm_val = share (pos price) comm_pct in
    let difal_val = share (pos price) margin_difal_pct in
    let freight_val = freight_for price freight_bands in
    let margin = pos price +ℤ banca_val -ℤ base_cost -ℤ comm_val -ℤ difal_val -ℤ freight_val in
    record {
      price = price;
      base_cost = base_cost;
      commission_value = comm_val;
      commission_pct = comm_pct;
      difal_value = difal_val;
      difal_pct = margin_difal_pct;
      freight_value = freight_val;
      ml_banca_value = banca_val;
      margin_value = margin;
      margin_pct = margin_share margin price;
      seller_receives = pos price +ℤ banca_val;
    }

-- None where the source raises.
unfoldable pub margin_at_price :
    ℕ → ℤ → ℤ → List FreightBand → Option ℕ → ℤ → List CommissionBand → Option MarginBreakdown
unfolding breakdown banca
margin_at_price price base_cost pct freight_bands list_price meli_banca_pct commission_bands =
    elim (banca list_price meli_banca_pct) [
      | none ↦ none
      | some value ↦ some (breakdown price base_cost pct freight_bands commission_bands value)
    ]

unfoldable pub target_price_for_max_discount_pct : ℕ → ℤ → ℤ
unfolding nearest
target_price_for_max_discount_pct list_price max_discount_pct =
    share (pos list_price) (pos whole_percent -ℤ max_discount_pct)

abbrev pub edge : Option ℕ → List ℕ
edge none = []
edge (some e) = e ∷ []

unfoldable pub segments_from : List ℕ → List (ℕ × Option ℕ)
segments_from [] = []
segments_from (lo ∷ []) = (lo, none) ∷ []
segments_from (lo ∷ hi ∷ edges) = (lo, some hi) ∷ segments_from (hi ∷ edges)

-- The edges of all bands cut the prices into segments.
unfoldable pub segment_breakpoints : List FreightBand → List CommissionBand → List (ℕ × Option ℕ)
unfolding segments_from
segment_breakpoints freight_bands commission_bands = segments_from (
    sort (ascending (λ e. e)) (
      distinct (
        0
        ∷ (flat_map (λ b. edge b.min ++ edge b.max) freight_bands
            ++ flat_map (λ b. edge b.min ++ edge b.max) commission_bands))))

-- What the search found, or why it raises.
pub data Target : Type 0 where
  no_headroom no_band : Target
  floor : ℤ → Target

-- What a segment gives: it has no headroom, its solution lies above it, or a candidate.
pub data Candidate : Type 0 where
  hopeless above : Candidate
  candidate : ℤ → Candidate

abbrev pub is_above : ℤ → Option ℕ → Bool
is_above p none = false
is_above p (some hi) = ltb_ℤ (pos hi) p

-- `p` is the price that solves the segment.
unfoldable pub place : ℤ → ℕ → Option ℕ → Candidate
place p lo hi =
    if ltb_ℤ p (pos lo) then candidate (pos lo) else if is_above p hi then above else candidate p

-- `banca_pct` is the co-pay of the list price in hundredths of a percent, so `list_price * banca_pct`
-- is the co-pay in ten-thousandths of a cent.
unfoldable pub solve : ℤ → ℤ → ℤ → ℤ
unfolding nearest
solve due copay divisor = nearest (due *ℤ pos whole_percent -ℤ copay) (pos_part divisor)

unfoldable pub candidate_of :
    ℤ → ℤ → List FreightBand → ℤ → ℤ → List CommissionBand → ℕ × Option ℕ → Candidate
unfolding freight_for commission_pct_for place solve
candidate_of cost pct bands margin_pct copay commission_bands (lo, hi) =
    let freight = freight_for lo bands in
    let comm = commission_pct_for lo commission_bands pct in
    let divisor = pos whole_percent -ℤ margin_pct -ℤ (comm +ℤ margin_difal_pct) in
    if leb_ℤ divisor (pos 0) then hopeless else place (solve (cost +ℤ freight) copay divisor) lo hi

-- The least candidate so far.
abbrev pub least : Target → Candidate → Target
least t hopeless = t
least no_headroom above = no_band
least t above = t
least (floor p) (candidate q) = floor (min_ℤ p q)
least _ (candidate q) = floor q

unfoldable pub search_segments : (ℕ × Option ℕ → Candidate) → Target → List (ℕ × Option ℕ) → Target
search_segments f t [] = t
search_segments f t (s ∷ segments) = search_segments f (least t (f s)) segments

abbrev pub bands_or_free : List FreightBand → List FreightBand
bands_or_free [] = record { min = some 0; max = none; cost = pos 0 } ∷ []
bands_or_free (b ∷ bands) = b ∷ bands

abbrev pub copay_of : Option ℕ → ℤ → ℤ
copay_of none meli_banca_pct = pos 0
copay_of (some list_price) meli_banca_pct = pos list_price *ℤ meli_banca_pct

unfoldable pub target_price_for_min_margin_pct :
    ℤ → ℤ → List FreightBand → ℤ → Option ℕ → ℤ → List CommissionBand → Target
unfolding search_segments candidate_of segment_breakpoints
target_price_for_min_margin_pct cost pct freight_bands margin_pct list_price meli_banca_pct
      commission_bands =
    let bands = bands_or_free freight_bands in
    search_segments
      (candidate_of cost pct bands margin_pct (copay_of list_price meli_banca_pct) commission_bands)
      no_headroom (segment_breakpoints bands commission_bands)

-- A row of ml_flex_fee_calibration, as far as the override reads it.
pub record Calibration : Type 0 where
  pub commission_bands : List CommissionBand
  pub real_comm_pct : Option ℤ
  pub freight_bands : List FreightBand
  pub freight_per_unit_lt79 : Option ℤ
  pub freight_per_unit_ge79 : Option ℤ

abbrev pub two_bands : ℤ → ℤ → List FreightBand
two_bands lt79 ge79 =
    record { min = some 0; max = some 7899; cost = lt79 }
    ∷ record { min = some 7900; max = none; cost = ge79 }
    ∷ []

abbrev pub or_bands : List FreightBand → List FreightBand → List FreightBand
or_bands [] other = other
or_bands (b ∷ bands) other = b ∷ bands

-- The percentage, the freight bands and the commission bands to reckon with. A schedule that is missing
-- or empty is the empty list; the payback, which no price depends on, is left out.
-- The first of the two that is there.
abbrev pub or_own : Option ℤ → Option ℤ → Option ℤ
or_own none own = own
or_own (some pct) own = some pct

unfoldable pub apply_flex_calibration :
    Option String
    → Option ℤ
    → List FreightBand
    → Option Calibration
    → Option ℤ × List FreightBand × List CommissionBand
apply_flex_calibration none pct freight_bands calib = (pct, freight_bands, [])
apply_flex_calibration (some logistic_type) pct freight_bands none = (pct, freight_bands, [])
apply_flex_calibration (some logistic_type) pct freight_bands (some calib) =
    if logistic_type == "fulfillment"
    then (pct, or_bands calib.freight_bands freight_bands, calib.commission_bands)
    else (
      or_own calib.real_comm_pct pct,
      or_bands calib.freight_bands (
          two_bands (or_fallback calib.freight_per_unit_lt79 (pos 0))
            (or_fallback calib.freight_per_unit_ge79 (pos 0))),
      calib.commission_bands,
    )
