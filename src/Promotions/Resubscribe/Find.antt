-- ===== src/Promotions/Resubscribe/Find.antt =====
-- `find_offer_by_status` (src/tiny_mirror/services/ml_resubscribe_service.py) against two searches.
use tiny_mirror.Prelude.{
  ◌≡◌, refl, ap, ◌∙◌, String, Bool, true, false, ◌&&◌, Option, none, some, List, [], ◌∷◌,
  if◌then◌else◌, Bool-cases, inl, inr,
}
use tiny_mirror.Promotions.{Offer}
use tiny_mirror.Promotions.Resubscribe.Poll.{
  fits, has_id, or_first, scan_offers, find_offer_by_status,
}

unfoldable pub first_offer : (Offer → Bool) → List Offer → Option Offer
first_offer p [] = none
first_offer p (x ∷ xs) = let rest = first_offer p xs in if p x then some x else rest

abbrev pub or_offer : Option Offer → Option Offer → Option Offer
or_offer none other = other
or_offer (some p) other = some p

module _ (upper lower : String → String) (promo_type status : String)
    (promo_id : Option String) where
  abbrev pub is_exact : Offer → Bool
  is_exact p = fits upper lower promo_type status p && has_id upper lower promo_id p

  kept_first :
      (strict : Bool) (fallback : Option Offer) (p : Offer) (found : Option Offer)
      → (if strict then none else or_offer (or_first upper lower fallback p) found)
        ≡ (if strict then none else or_offer fallback (some p))
  kept_first true fallback p found = refl
  kept_first false none p found = refl
  kept_first false (some q) p found = refl

  scan_offers_lem :
      (strict : Bool) (fallback : Option Offer) (promos : List Offer)
      → scan_offers upper lower promo_type status promo_id strict fallback promos
        ≡ or_offer (first_offer is_exact promos) (
            if strict
            then none
            else or_offer fallback (first_offer (fits upper lower promo_type status) promos))
  unfolding scan_offers first_offer
  scan_offers_lem strict none [] = refl
  scan_offers_lem strict (some q) [] = refl
  scan_offers_lem strict fallback (p ∷ promos) =
      elim (Bool-cases (fits upper lower promo_type status p)) [
        | inr other ↦ rw other (scan_offers_lem strict fallback promos)
        | inl fit ↦ rw fit (elim (Bool-cases (has_id upper lower promo_id p)) [
          | inl exact ↦ rw exact refl
          | inr near ↦ rw near (
              scan_offers_lem strict (or_first upper lower fallback p) promos
              ∙ ap (or_offer (first_offer is_exact promos)) (
                  kept_first strict fallback p
                    (first_offer (fits upper lower promo_type status) promos)))
        ])
      ]

  -- The search returns the first offer of the type and the status that has the wanted id. Where there
  -- is none, it returns the first of the type and the status, or nothing if the id has to match.
  pub find_offer_by_status_lem :
      (strict : Bool) (promos : List Offer)
      → find_offer_by_status upper lower promos promo_type status promo_id strict
        ≡ or_offer
            (first_offer is_exact promos)
            (if strict then none else first_offer (fits upper lower promo_type status) promos)
  unfolding find_offer_by_status
  find_offer_by_status_lem strict promos = scan_offers_lem strict none promos
