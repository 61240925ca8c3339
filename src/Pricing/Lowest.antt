-- ===== src/Pricing/Lowest.antt =====
-- What `target_price_for_min_margin_pct` promises (src/tiny_mirror/services/pricing_service.py).
use native.Mathlib.Nat.{suc-mul, zero-mul, mul-le-mul_right, add-mul}
use tiny_mirror.Prelude.{
  ℕ, zero, suc, ◌+◌, ◌*◌, ◌≤◌, ◌<◌, ◌≡◌, refl, subst, true, false, Option, none, some, List, ◌⊎◌,
  inl, inr, All, All-imp, [], ◌∷◌, ℤ, pos, negsuc, pos_part, neg_part, ◌+ℤ◌, ◌-ℤ◌, ◌*ℤ◌, ◌≤ℤ◌, ◌<ℤ◌,
  ltb_ℤ, leb_ℤ, arith, int_laws, leb, if◌then◌else◌, Bool-cases,
}
use tiny_mirror.Pricing.{
  whole_percent, margin_difal_pct, nearest, FreightBand, CommissionBand, floor, Candidate, hopeless,
  candidate, is_above, place, solve, freight_for, commission_pct_for, candidate_of,
  segment_breakpoints, bands_or_free, copay_of, target_price_for_min_margin_pct,
}
use tiny_mirror.Pricing.Nearest.{IsClose, nearest-IsClose}
use tiny_mirror.Pricing.Floor.{Some, target_price_least}

-- What is left of a price, in hundredths of a percent of it, after the margin, the commission and DIFAL.
abbrev pub headroom : ℤ → ℤ → ℤ
headroom margin_pct comm = pos whole_percent -ℤ margin_pct -ℤ (comm +ℤ margin_difal_pct)

-- What it has to pay for, in ten-thousandths of a cent: the cost and the freight, less the co-pay.
abbrev pub need : ℤ → ℤ → ℤ → ℤ
need cost freight copay = (cost +ℤ freight) *ℤ pos whole_percent -ℤ copay

abbrev pub Upto : ℤ → Option ℕ → Type 0
Upto p none = Unit
Upto p (some hi) = p ≤ℤ pos hi

-- A price from the lower edge on, and to the upper one unless it is the lower edge, that pays what it
-- has to, up to half a cent.
pub record IsPaying (h D q : ℤ) (lo : ℕ) (hi : Option ℕ) : Type 0 where
  pub has_headroom : pos 0 <ℤ h
  pub from_edge : pos lo ≤ℤ q
  pub to_edge : (q ≡ pos lo) ⊎ Upto q hi
  pub pays : D +ℤ D ≤ℤ q *ℤ h +ℤ q *ℤ h +ℤ h

mul_pos : (n d : ℕ) → pos n *ℤ pos d ≡ pos (n * d)
unfolding ◌*ℤ◌
mul_pos n d = ground arith

paying :
    (D : ℤ) (d n lo : ℕ) (hi : Option ℕ)
    → 0 < d
    → lo ≤ n
    → (pos n ≡ pos lo) ⊎ Upto (pos n) hi
    → 2 * pos_part D ≤ 2 * (n * d) + 2 * neg_part D + d
    → IsPaying (pos d) D (pos n) lo hi
paying D d n lo hi some_d low high enough = record {
  has_headroom = omega arith;
  from_edge = omega arith;
  to_edge = high;
  pays = rw (mul_pos n d) (omega (int_laws, enough));
}

the_candidate : {c q : ℤ} → candidate c ≡ candidate q → c ≡ q
the_candidate {c} {q} e = ground arith

-- A solution below the edge.
below_pays :
    (D m : ℤ) (d lo : ℕ)
    → IsClose D d m
    → m ≤ℤ pos lo
    → 2 * pos_part D ≤ 2 * (lo * d) + 2 * neg_part D + d
below_pays D m d lo near low =
    let scaled : pos_part m * d ≤ (lo + neg_part m) * d = mul-le-mul_right d (omega arith) in
    omega (arith, near.not_below, scaled, add-mul lo (neg_part m) d)

below_edge : (m : ℤ) (hi : Option ℕ) → is_above m hi ≡ false → Upto m hi
below_edge m none h = tt
below_edge m (some hi) h = ground arith

placed_inside :
    (D m : ℤ) (d lo : ℕ) (hi : Option ℕ)
    → 0 < d
    → IsClose D d m
    → ltb_ℤ m (pos lo) ≡ false
    → is_above m hi ≡ false
    → IsPaying (pos d) D m lo hi
placed_inside D (pos n) d lo hi some_d near enough inside =
    paying D d n lo hi some_d (ground arith) (inr (below_edge (pos n) hi inside))
      (omega (arith, near.not_below, zero-mul d))
placed_inside D (negsuc n) d lo hi some_d near enough inside = absurd (ground arith)

placed_found :
    (D m : ℤ) (d lo : ℕ) (hi : Option ℕ) (q : ℤ)
    → 0 < d
    → IsClose D d m
    → place m lo hi ≡ candidate q
    → IsPaying (pos d) D q lo hi
unfolding place
placed_found D m d lo hi q some_d near e = elim (Bool-cases (ltb_ℤ m (pos lo))) [
  | inl low ↦
      subst (λ x. IsPaying (pos d) D x lo hi) (the_candidate (rw low at e))
        (paying D d lo lo hi some_d (omega arith) (inl refl)
          (below_pays D m d lo near (ground arith)))
  | inr enough ↦ elim (Bool-cases (is_above m hi)) [
    | inl beyond ↦ absurd (cc (rw (enough, beyond) at e))
    | inr inside ↦
        subst (λ x. IsPaying (pos d) D x lo hi) (the_candidate (rw (enough, inside) at e))
          (placed_inside D m d lo hi some_d near enough inside)
  ]
]

solved_below :
    (D m : ℤ) (d p : ℕ) → 0 < d → IsClose D d m → pos_part D ≤ p * d + neg_part D → m ≤ℤ pos p
solved_below D (negsuc n) d p some_d near pays = omega arith
solved_below D (pos n) d p some_d near pays = elim (Bool-cases (leb n p)) [
  | inl fine ↦ ground arith
  | inr more ↦
      let scaled : suc p * d ≤ n * d = mul-le-mul_right d (ground arith) in
      absurd (omega (arith, scaled, suc-mul p d, near.not_above, zero-mul d))
]

not_above : (m : ℤ) (p : ℕ) (hi : Option ℕ) → m ≤ℤ pos p → Upto (pos p) hi → is_above m hi ≡ false
not_above m p none h k = refl
not_above m p (some hi) h k = ground arith

-- A price in the segment that pays is no less than the candidate.
placed_below :
    (D m : ℤ) (d lo : ℕ) (hi : Option ℕ) (p : ℕ)
    → 0 < d
    → IsClose D d m
    → lo ≤ p
    → Upto (pos p) hi
    → pos_part D ≤ p * d + neg_part D
    → (c : ℤ) × (place m lo hi ≡ candidate c) × (c ≤ℤ pos p)
unfolding place
placed_below D m d lo hi p some_d near low high pays =
    let at_most : m ≤ℤ pos p = solved_below D m d p some_d near pays in
    elim (Bool-cases (ltb_ℤ m (pos lo))) [
      | inl under ↦ rw under (pos lo, refl, omega arith)
      | inr enough ↦ rw (enough, not_above m p hi at_most high) (m, refl, at_most)
    ]

-- A segment with its headroom and what is to be paid for.
abbrev in_segment : ℤ → ℤ → ℕ → Option ℕ → Candidate
in_segment h D lo hi = if leb_ℤ h (pos 0) then hopeless else place (nearest D (pos_part h)) lo hi

segment_found :
    (h D q : ℤ) (lo : ℕ) (hi : Option ℕ) → in_segment h D lo hi ≡ candidate q → IsPaying h D q lo hi
segment_found (pos zero) D q lo hi e = absurd cc
segment_found (pos (suc k)) D q lo hi e =
    let some_d : 0 < suc k = omega arith in
    let positive : leb_ℤ (pos (suc k)) (pos 0) ≡ false = ground arith in
    placed_found D (nearest D (suc k)) (suc k) lo hi q some_d (nearest-IsClose D (suc k) some_d)
      (rw positive at e)
segment_found (negsuc k) D q lo hi e =
    let negative : leb_ℤ (negsuc k) (pos 0) ≡ true = ground arith in absurd (cc (rw negative at e))

segment_below :
    (h D : ℤ) (lo : ℕ) (hi : Option ℕ) (p : ℕ)
    → pos 0 <ℤ h
    → lo ≤ p
    → Upto (pos p) hi
    → D ≤ℤ pos p *ℤ h
    → (c : ℤ) × (in_segment h D lo hi ≡ candidate c) × (c ≤ℤ pos p)
segment_below (pos zero) D lo hi p some_h low high pays = absurd (omega arith)
segment_below (pos (suc k)) D lo hi p some_h low high pays =
    let some_d : 0 < suc k = omega arith in
    let positive : leb_ℤ (pos (suc k)) (pos 0) ≡ false = ground arith in
    let paid : D ≤ℤ pos (p * suc k) = subst (λ x. D ≤ℤ x) (mul_pos p (suc k)) pays in
    rw positive (
      placed_below D (nearest D (suc k)) (suc k) lo hi p some_d (nearest-IsClose D (suc k) some_d)
        low high (omega (arith, paid)))
segment_below (negsuc k) D lo hi p some_h low high pays = absurd (omega arith)

Some-imp :
    {A : Type 0} {P Q : A → Type 0} (xs : List A) → ((x : A) → P x → Q x) → Some P xs → Some Q xs
Some-imp [] f h = absurd h
Some-imp (x ∷ xs) f (inl here) = inl (f x here)
Some-imp (x ∷ xs) f (inr later) = inr (Some-imp xs f later)

module _ (cost pct margin_pct meli_banca_pct : ℤ) (freight_bands : List FreightBand)
    (list_price : Option ℕ) (commission_bands : List CommissionBand) where
  -- The fees of a segment are those of its lower edge.
  abbrev pub headroom_in : ℕ × Option ℕ → ℤ
  headroom_in s = headroom margin_pct (commission_pct_for s.0 commission_bands pct)

  abbrev pub need_in : ℕ × Option ℕ → ℤ
  need_in s =
      need cost (freight_for s.0 (bands_or_free freight_bands)) (copay_of list_price meli_banca_pct)

  -- Take the segments in which the commission, DIFAL and the margin leave something of a price. Where a
  -- price is returned, it pays, up to half a cent, for the cost, the freight and these, less the co-pay,
  -- at the fees of such a segment that it lies in, its edges included; and no price of any such segment
  -- that pays for them all at the fees of that one is lower.
  pub target_price_lowest :
      (q : ℤ)
      → target_price_for_min_margin_pct cost pct freight_bands margin_pct list_price meli_banca_pct
          commission_bands
        ≡ floor q
      → let segments = segment_breakpoints (bands_or_free freight_bands) commission_bands in
        Some (λ s. IsPaying (headroom_in s) (need_in s) q s.0 s.1) segments
        × All
            (λ s.
              (p : ℕ)
              → pos 0 <ℤ headroom_in s
              → s.0 ≤ p
              → Upto (pos p) s.1
              → need_in s ≤ℤ pos p *ℤ headroom_in s
              → q ≤ℤ pos p)
            segments
  unfolding candidate_of solve
  target_price_lowest q e =
      let segments = segment_breakpoints (bands_or_free freight_bands) commission_bands in
      let least =
        target_price_least cost pct margin_pct meli_banca_pct q freight_bands list_price
          commission_bands e in
      (
        Some-imp segments (λ s. segment_found (headroom_in s) (need_in s) q s.0 s.1) least.0,
        All-imp segments
            (λ s lower p some_h low high pays.
              let (c, found, at_most) =
                segment_below (headroom_in s) (need_in s) s.0 s.1 p some_h low high pays in
              omega (arith, lower c found, at_most))
            least.1,
      )
