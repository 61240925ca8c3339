-- ===== src/Pricing/Floor.antt =====
-- The price that `target_price_for_min_margin_pct` returns.
use tiny_mirror.Prelude.{
  ℕ, ◌≡◌, ◌∙◌, ap, sym, subst, All-imp, Option, List, [], ◌∷◌, ◌⊎◌, inl, inr, All, ℤ, ◌≤ℤ◌,
  min_ℤ_right, min_ℤ_cases, arith, bound_laws,
}
use tiny_mirror.Pricing.{
  FreightBand, CommissionBand, Target, no_headroom, no_band, floor, Candidate, hopeless, above,
  candidate, least, search_segments, candidate_of, segment_breakpoints, bands_or_free, copay_of,
  target_price_for_min_margin_pct,
}

module _ {A : Type 0} where
  -- At least one item has the property.
  abbrev pub Some : (A → Type 0) → List A → Type 0
  Some P [] = ⊥
  Some P (x ∷ xs) = P x ⊎ Some P xs

-- A target that is no more than p.
abbrev IsAtMost : ℤ → Target → Type 0
IsAtMost p (floor q) = q ≤ℤ p
IsAtMost p _ = ⊥

least_candidate : (t : Target) (c : ℤ) → IsAtMost c (least t (candidate c))
least_candidate no_headroom c = omega arith
least_candidate no_band c = omega arith
least_candidate (floor p) c = min_ℤ_right p c

least_keeps : (p : ℤ) (t : Target) (c : Candidate) → IsAtMost p t → IsAtMost p (least t c)
least_keeps p no_headroom c h = absurd h
least_keeps p no_band c h = absurd h
least_keeps p (floor q) hopeless h = h
least_keeps p (floor q) above h = h
least_keeps p (floor q) (candidate c) h = omega (bound_laws, h)

least_found :
    (q : ℤ) (t : Target) (c : Candidate) → least t c ≡ floor q → (t ≡ floor q) ⊎ (c ≡ candidate q)
least_found q no_headroom hopeless e = inl e
least_found q no_headroom above e = absurd (ground arith)
least_found q no_headroom (candidate c) e = inr (ground arith)
least_found q no_band hopeless e = inl e
least_found q no_band above e = inl e
least_found q no_band (candidate c) e = inr (ground arith)
least_found q (floor p) hopeless e = inl e
least_found q (floor p) above e = inl e
least_found q (floor p) (candidate c) e = elim (min_ℤ_cases p c) [
  | inl here ↦ inl (ap floor (sym here) ∙ e)
  | inr there ↦ inr (ap candidate (sym there) ∙ ground arith)
]

module _ (f : ℕ × Option ℕ → Candidate) where
  search_keeps :
      (p : ℤ) (t : Target) (xs : List (ℕ × Option ℕ))
      → IsAtMost p t
      → IsAtMost p (search_segments f t xs)
  unfolding search_segments
  search_keeps p t [] h = h
  search_keeps p t (x ∷ xs) h = search_keeps p (least t (f x)) xs (least_keeps p t (f x) h)

  search_least :
      (t : Target) (xs : List (ℕ × Option ℕ))
      → All (λ x. (c : ℤ) → f x ≡ candidate c → IsAtMost c (search_segments f t xs)) xs
  unfolding search_segments
  search_least t [] = tt
  search_least t (x ∷ xs) = (
    λ c e.
        search_keeps c (least t (f x)) xs
          (subst (λ d. IsAtMost c (least t d)) (sym e) (least_candidate t c)),
    search_least (least t (f x)) xs,
  )

  search_found :
      (q : ℤ) (t : Target) (xs : List (ℕ × Option ℕ))
      → search_segments f t xs ≡ floor q
      → (t ≡ floor q) ⊎ Some (λ x. f x ≡ candidate q) xs
  unfolding search_segments
  search_found q t [] e = inl e
  search_found q t (x ∷ xs) e = elim (search_found q (least t (f x)) xs e) [
    | inr later ↦ inr (inr later)
    | inl now ↦ elim (least_found q t (f x) now) [
      | inl before ↦ inl before
      | inr here ↦ inr (inl here)
    ]
  ]

-- Where a price is returned, it is the candidate of some segment between the edges of the bands, and no
-- segment has a lower candidate.
pub target_price_least :
    (cost pct margin_pct meli_banca_pct q : ℤ) (freight_bands : List FreightBand)
    (list_price : Option ℕ) (commission_bands : List CommissionBand)
    → target_price_for_min_margin_pct cost pct freight_bands margin_pct list_price meli_banca_pct
        commission_bands
      ≡ floor q
    → let bands = bands_or_free freight_bands in
      let segments = segment_breakpoints bands commission_bands in
      let f =
        candidate_of cost pct bands margin_pct
          (copay_of list_price meli_banca_pct)
          commission_bands in
      Some (λ s. f s ≡ candidate q) segments
      × All (λ s. (c : ℤ) → f s ≡ candidate c → q ≤ℤ c) segments
unfolding target_price_for_min_margin_pct
target_price_least cost pct margin_pct meli_banca_pct q freight_bands list_price commission_bands
      e =
    let bands = bands_or_free freight_bands in
    let segments = segment_breakpoints bands commission_bands in
    let f =
      candidate_of cost pct bands margin_pct (copay_of list_price meli_banca_pct)
        commission_bands in
    (
      elim (search_found f q no_headroom segments e) [
        | inr found ↦ found
        | inl none_yet ↦ absurd (ground arith)
      ],
      All-imp segments (λ s at_most c same. subst (IsAtMost c) e (at_most c same))
          (search_least f no_headroom segments),
    )
