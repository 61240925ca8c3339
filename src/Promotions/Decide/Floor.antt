-- ===== src/Promotions/Decide/Floor.antt =====
-- The floor under a decision.
use mathlib.Core.Option.{some-injective}
use tiny_mirror.Prelude.{
  ℕ, zero, suc, ◌+◌, pos_part, neg_part, ◌≡◌, refl, ap, subst, String, Bool, true, false, ◌&&◌,
  Option, none, some, List, [], ◌∷◌, All, ℤ, pos, ◌+ℤ◌, ◌≤ℤ◌, max_ℤ, ltb_ℤ, leb_ℤ, ◌⊎◌, inl, inr,
  arith, int_laws, bound_laws, Bool-cases, and_left, leb→le, if◌then◌else◌, string_eq,
}
use tiny_mirror.Fulfillment.Catalog.{holds, is_one_of}
use tiny_mirror.Promotions.{Offer, or_zero}
use tiny_mirror.Promotions.Score.{
  Scored, is_accepted, is_lightning, score_candidate_promo, original_or, discounted,
}
use tiny_mirror.Promotions.Score.Limits.{accepted-IsWithin}
use tiny_mirror.Promotions.Decide.{
  PromoDecision, Seen, Plan, FreightOpt, PriceToWin, Costs, annotate_catalog,
}
use tiny_mirror.Promotions.Decide.Item.{
  Split, Best, Settings, better, seen, split_promos, known_price, or_no_price, kept_opt,
  freight_option, price_after, max_floor, activate, create_discount, best_candidate, no_candidate,
  otherwise, chosen, decide_priced, decided, decide_for_item, is_won, won, floor_in_force,
  sheet_list_price, best_started,
}

abbrev Keeps : PromoDecision → Type 0
Keeps d =
    (f : ℤ) (plan : Plan) → d.floor_price ≡ some f → d.target ≡ some plan → f ≤ℤ plan.price +ℤ pos 1

if-Keeps : (b : Bool) (x y : PromoDecision) → Keeps x → Keeps y → Keeps (if b then x else y)
if-Keeps true x y h k = h
if-Keeps false x y h k = k

kept_opt-le :
    (f target : ℤ) (opt : Option FreightOpt)
    → f ≤ℤ target +ℤ pos 1
    → f ≤ℤ price_after (kept_opt (some f) opt) target +ℤ pos 1
kept_opt-le f target none h = h
kept_opt-le f target (some opt) h = elim (Bool-cases (leb_ℤ f opt.to_price)) [
  | inl kept ↦
      let le =
        leb→le (pos_part f + neg_part opt.to_price) (pos_part opt.to_price + neg_part f) kept in
      rw kept (omega (int_laws, le))
  | inr dropped ↦ rw dropped h
]

freight_option-le :
    (enabled : Bool) (costs : Option Costs) (f target : ℤ)
    → f ≤ℤ target +ℤ pos 1
    → f ≤ℤ price_after (freight_option enabled costs (some f) target) target +ℤ pos 1
unfolding freight_option
freight_option-le false costs f target h = h
freight_option-le true none f target h = h
freight_option-le true (some c) f target h = kept_opt-le f target _ h

activate-Keeps :
    (orig : Option ℕ) (floor : Option ℤ) (best : Option Seen) (s : Seen) (total target : ℤ)
    (enabled : Bool) (costs : Option Costs)
    → or_zero floor ≤ℤ target +ℤ pos 1
    → Keeps (activate orig floor best s total target (freight_option enabled costs floor target))
unfolding activate
activate-Keeps orig none best s total target enabled costs h f plan e planned =
    absurd (ground arith)
activate-Keeps orig (some floor) best s total target enabled costs h f plan e planned =
    let same = some-injective floor f e in
    let price = ap (λ (p : Plan). p.price) (some-injective _ plan planned) in
    subst (λ x. x ≤ℤ plan.price +ℤ pos 1) same
      (subst (λ x. floor ≤ℤ x +ℤ pos 1) price (freight_option-le enabled costs floor target h))

create_discount-Keeps :
    (orig : ℕ) (floor : Option ℤ) (price : ℤ) (enabled : Bool) (costs : Option Costs)
    → Keeps (
        create_discount orig floor
          (max_floor price floor)
          (freight_option enabled costs floor (max_floor price floor)))
unfolding create_discount
create_discount-Keeps orig none price enabled costs f plan e planned = absurd (ground arith)
create_discount-Keeps orig (some floor) price enabled costs f plan e planned =
    let same = some-injective floor f e in
    let cents = ap (λ (p : Plan). p.price) (some-injective _ plan planned) in
    subst (λ x. x ≤ℤ plan.price +ℤ pos 1) same
      (subst (λ x. floor ≤ℤ x +ℤ pos 1) cents
        (freight_option-le enabled costs floor (max_ℤ price floor) (omega bound_laws)))

otherwise-Keeps :
    (upper : String → String) (settings : Settings) (costs : Option Costs) (floor : Option ℤ)
    (orig : ℕ) (started : Option Seen)
    → Keeps (otherwise upper settings costs floor orig started)
unfolding otherwise
otherwise-Keeps upper settings costs floor orig (some s) = λ f plan e planned. absurd (ground arith)
otherwise-Keeps upper settings costs floor orig none =
    if-Keeps (ltb_ℤ (pos 0) settings.cap_seller_pct) _ _
      (create_discount-Keeps orig floor (discounted orig settings.cap_seller_pct)
        settings.freight_band_opt_enabled costs)
      (λ f plan e planned. absurd (ground arith))

module _ (upper : String → String) where
  abbrev pub NotLightning : Offer → Type 0
  NotLightning p = is_lightning upper p ≡ false

  -- The best candidate's price is not below the floor by more than a cent.
  abbrev IsFair : Option ℤ → Best → Type 0
  IsFair floor best = or_zero floor ≤ℤ best.target_price +ℤ pos 1

  abbrev Ok : Option ℤ → Best → Type 0
  Ok floor best = (best.candidate ≡ none) ⊎ IsFair floor best

  if-Ok :
      (floor : Option ℤ) (b : Bool) (x y : Best)
      → (b ≡ true → Ok floor x)
      → Ok floor y
      → Ok floor (if b then x else y)
  if-Ok floor true x y h k = h refl
  if-Ok floor false x y h k = k

  chosen-Keeps :
      (settings : Settings) (costs : Option Costs) (floor : Option ℤ) (orig : ℕ)
      (started : Option Seen) (best : Best) (candidate : Option Seen)
      → best.candidate ≡ candidate
      → Ok floor best
      → Keeps (chosen upper settings costs floor orig started best candidate)
  unfolding chosen
  chosen-Keeps settings costs floor orig started best none same h =
      otherwise-Keeps upper settings costs floor orig started
  chosen-Keeps settings costs floor orig started best (some s) same (inl e) = absurd (ground arith)
  chosen-Keeps settings costs floor orig started best (some s) same (inr fair) =
      if-Keeps _ _ _
        (activate-Keeps (some orig) floor started s best.total_pct best.target_price
          settings.freight_band_opt_enabled costs fair)
        (otherwise-Keeps upper settings costs floor orig started)

  better-IsFair :
      (cap_pct : ℤ) (floor : Option ℤ) (list_price : ℕ) (best : Best) (s : Seen)
      (scored : Option Scored)
      → NotLightning s.offer
      → score_candidate_promo upper s.offer cap_pct floor (some list_price) ≡ scored
      → Ok floor best
      → Ok floor (better best s scored)
  better-IsFair cap_pct floor list_price best s none calm e h = h
  better-IsFair cap_pct floor list_price best s (some scored) calm e h =
      if-Ok floor (is_accepted scored && ltb_ℤ best.total_pct scored.target_total_pct) _ best
        (λ taken.
          inr
            (accepted-IsWithin upper s.offer cap_pct floor list_price scored calm e
              (and_left (is_accepted scored) _ taken)).0)
        h

  best_candidate-IsFair :
      (cap_pct : ℤ) (floor : Option ℤ) (list_price : ℕ) (best : Best) (candidates : List Seen)
      → All (λ s. NotLightning s.offer) candidates
      → Ok floor best
      → Ok floor (best_candidate upper cap_pct floor list_price best candidates)
  unfolding best_candidate
  best_candidate-IsFair cap_pct floor list_price best [] calm h = h
  best_candidate-IsFair cap_pct floor list_price best (s ∷ candidates) calm h =
      best_candidate-IsFair cap_pct floor list_price
        (better best s (score_candidate_promo upper s.offer cap_pct floor (some list_price)))
        candidates calm.1 (better-IsFair cap_pct floor list_price best s _ calm.0 refl h)

  if-candidates :
      (b : Bool) (x y : Split)
      → All (λ s. NotLightning s.offer) x.candidates
      → All (λ s. NotLightning s.offer) y.candidates
      → All (λ s. NotLightning s.offer) (if b then x else y).candidates
  if-candidates true x y h k = h
  if-candidates false x y h k = k

  split_promos-calm :
      (excluded : List String) (orig : Option ℕ) (promos : List Offer)
      → All NotLightning promos
      → All (λ s. NotLightning s.offer) (split_promos excluded orig promos).candidates
  unfolding split_promos seen
  split_promos-calm excluded orig [] calm = tt
  split_promos-calm excluded orig (p ∷ promos) calm =
      let is_excluded = is_one_of p.type excluded in
      let op = original_or p.original_price (or_no_price orig) in
      let orig' = if is_excluded then orig else known_price orig op in
      let h = split_promos-calm excluded orig' promos calm.1 in
      if-candidates is_excluded _ _ h (
        if-candidates (holds p.status "started") _ _ h
          (if-candidates (holds p.status "candidate") _ _ (calm.0, h) h))

  decide_priced-Keeps :
      (settings : Settings) (costs : Option Costs) (split : Split) (n : ℕ)
      → All (λ s. NotLightning s.offer) split.candidates
      → Keeps (decide_priced upper settings costs split n)
  unfolding decide_priced
  decide_priced-Keeps settings costs split zero calm = λ f plan e planned. absurd (ground arith)
  decide_priced-Keeps settings costs split (suc n) calm =
      let floor = floor_in_force settings costs in
      chosen-Keeps settings costs floor (suc n) (best_started split.started) _ _ refl (
        best_candidate-IsFair settings.cap_seller_pct floor (suc n) (no_candidate upper)
          split.candidates calm (inl refl))

  decided-Keeps :
      (settings : Settings) (promos : List Offer) (costs : Option Costs)
      → All NotLightning promos
      → Keeps (decided upper settings promos costs)
  unfolding decided
  decided-Keeps settings promos costs calm =
      let split = split_promos settings.excluded_types none promos in
      decide_priced-Keeps settings costs split (sheet_list_price split.orig_price costs)
        (split_promos-calm settings.excluded_types none promos calm)

  decide_for_item-Keeps :
      (settings : Settings) (promos : List Offer) (costs : Option Costs) (ptw : Option PriceToWin)
      → All NotLightning promos
      → Keeps (decide_for_item upper settings promos costs ptw)
  unfolding decide_for_item annotate_catalog
  decide_for_item-Keeps settings promos costs none calm = decided-Keeps settings promos costs calm
  decide_for_item-Keeps settings promos costs (some ptw) calm =
      if-Keeps (is_won (some ptw) && settings.skip_when_winning) (won ptw)
        (annotate_catalog (decided upper settings promos costs) (some ptw))
        (λ f plan e planned. absurd (ground arith)) (decided-Keeps settings promos costs calm)

  -- Where no promotion is a LIGHTNING one, the price that a decision aims at is at most a cent below
  -- the floor, the freight option included.
  pub decision_keeps_floor :
      (settings : Settings) (promos : List Offer) (costs : Option Costs) (ptw : Option PriceToWin)
      (floor : ℤ) (plan : Plan)
      → All NotLightning promos
      → (decide_for_item upper settings promos costs ptw).floor_price ≡ some floor
      → (decide_for_item upper settings promos costs ptw).target ≡ some plan
      → floor ≤ℤ plan.price +ℤ pos 1
  decision_keeps_floor settings promos costs ptw floor plan calm =
      decide_for_item-Keeps settings promos costs ptw calm floor plan
