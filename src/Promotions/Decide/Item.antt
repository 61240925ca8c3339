-- ===== src/Promotions/Decide/Item.antt =====
-- The body of `decide_for_item`.
use tiny_mirror.Prelude.{
  ℕ, zero, suc, String, Bool, true, false, ◌&&◌, Option, none, some, List, [], ◌∷◌, filter, ℤ, pos,
  ◌+ℤ◌, ◌-ℤ◌, max_ℤ, ltb_ℤ, leb_ℤ, string_eq, if◌then◌else◌,
}
use tiny_mirror.Sort.{sort}
use tiny_mirror.Fulfillment.Catalog.{holds, is_one_of}
use tiny_mirror.Promotions.{Offer, or_zero}
use tiny_mirror.Promotions.Score.{
  Scored, is_accepted, discounted, original_or, score_candidate_promo,
}
use tiny_mirror.Promotions.Decide.{
  PromoDecision, PromoAction, keep, activate_candidate, create_price_discount, skip, no_data,
  keep_winning, Seen, FreightOpt, PriceToWin, Costs, compute_pct, freight_opt_check, nonzero,
  or_else_price, annotate_catalog, plain,
}

-- The promotions that run and those that are offered, and the original price: the first that is known.
pub record Split : Type 0 where
  pub orig_price : Option ℕ
  pub started : List Seen
  pub candidates : List Seen

abbrev pub known_price : Option ℕ → ℕ → Option ℕ
known_price none zero = none
known_price none (suc n) = some (suc n)
known_price (some n) op = some n

abbrev pub or_no_price : Option ℕ → ℕ
or_no_price none = 0
or_no_price (some n) = n

abbrev pub less_meli : Option ℤ → ℤ → Option ℤ
less_meli none meli = none
less_meli (some total) meli = some (total -ℤ meli)

unfoldable pub seen : ℕ → Offer → Seen
unfolding compute_pct
seen op p =
    let price = or_zero p.price in
    let total = if ltb_ℤ (pos 0) price then compute_pct (some op) price else none in
    record {
      offer = p;
      total_pct = total;
      seller_pct = less_meli total (or_zero p.meli_percentage);
      meli_pct = or_zero p.meli_percentage;
      price = price;
    }

abbrev pub place_seen : Seen → Split → Split
place_seen s split =
    if holds s.offer.status "started"
    then record split { started = s ∷ split.started }
    else if holds s.offer.status "candidate"
    then record split { candidates = s ∷ split.candidates }
    else split

unfoldable pub split_promos : List String → Option ℕ → List Offer → Split
unfolding seen
split_promos excluded orig [] = record { orig_price = orig; started = []; candidates = [] }
split_promos excluded orig (p ∷ ps) =
    let is_excluded = is_one_of p.type excluded in
    let op = original_or p.original_price (or_no_price orig) in
    let rest = split_promos excluded (if is_excluded then orig else known_price orig op) ps in
    if is_excluded then rest else place_seen (seen op p) rest

-- The deepest discount among those that run; the first of equals.
abbrev pub head {ℓ} : {A : Type ℓ} → List A → Option A
head [] = none
head (x ∷ xs) = some x

abbrev pub has_pct : Seen → Bool
has_pct s = elim s.total_pct [ none ↦ false | some total ↦ true ]

unfoldable pub best_started : List Seen → Option Seen
best_started started =
    head (sort (λ s t. leb_ℤ (or_zero t.total_pct) (or_zero s.total_pct)) (filter has_pct started))

abbrev pub pct_of_seen : Option Seen → Option ℤ
pct_of_seen none = some (pos 0)
pct_of_seen (some s) = s.total_pct

abbrev pub price_of_seen : Option Seen → Option ℤ
price_of_seen none = none
price_of_seen (some s) = some s.price

-- The best candidate so far, with its discount and its price.
pub record Best : Type 0 where
  pub candidate : Option Seen
  pub total_pct : ℤ
  pub target_price : ℤ

abbrev pub better : Best → Seen → Option Scored → Best
better best s none = best
better best s (some scored) =
    if is_accepted scored && ltb_ℤ best.total_pct scored.target_total_pct
    then record {
      candidate = some s;
      total_pct = scored.target_total_pct;
      target_price = scored.target_price;
    }
    else best

-- The freight option, where it is asked for and keeps the floor.
abbrev pub keeps_floor : Option ℤ → FreightOpt → Bool
keeps_floor none opt = true
keeps_floor (some floor) opt = leb_ℤ floor opt.to_price

abbrev pub kept_opt : Option ℤ → Option FreightOpt → Option FreightOpt
kept_opt floor none = none
kept_opt floor (some opt) = if keeps_floor floor opt then some opt else none

unfoldable pub freight_option : Bool → Option Costs → Option ℤ → ℤ → Option FreightOpt
unfolding freight_opt_check
freight_option false costs floor target = none
freight_option true none floor target = none
freight_option true (some c) floor target =
    kept_opt floor (freight_opt_check target c.freight_bands)

abbrev pub price_after : Option FreightOpt → ℤ → ℤ
price_after none target = target
price_after (some opt) target = opt.to_price

abbrev pub pct_after : Option FreightOpt → Option ℕ → ℤ → ℤ
pct_after none orig total = total
pct_after (some opt) orig total = elim (nonzero (compute_pct orig opt.to_price)) [
  | none ↦ total
  | some pct ↦ pct
]

abbrev pub is_below_floor : Option Seen → Option ℤ → Bool
is_below_floor none floor = false
is_below_floor (some s) none = false
is_below_floor (some s) (some floor) = ltb_ℤ s.price floor

abbrev pub base_decision : PromoAction → Option ℤ → Option Seen → PromoDecision
base_decision action floor best = record (plain action floor) {
  current_total_pct = pct_of_seen best;
  current = best;
  current_price = price_of_seen best;
  floor_violated = is_below_floor best floor;
}

unfoldable pub activate :
    Option ℕ → Option ℤ → Option Seen → Seen → ℤ → ℤ → Option FreightOpt → PromoDecision
unfolding compute_pct
activate orig floor best s total target opt =
    let total' = pct_after opt orig total in
    record (base_decision activate_candidate floor best) {
      target = some (record {
        total_pct = total';
        seller_pct = total' -ℤ s.meli_pct;
        meli_pct = s.meli_pct;
        price = price_after opt target;
        promo_type = s.offer.type;
        promo_id = s.offer.id;
        promo_name = s.offer.name;
      });
      freight_opt = opt;
    }

abbrev pub max_floor : ℤ → Option ℤ → ℤ
max_floor price none = price
max_floor price (some floor) = max_ℤ price floor

unfoldable pub create_discount : ℕ → Option ℤ → ℤ → Option FreightOpt → PromoDecision
unfolding compute_pct
create_discount orig floor target opt =
    let total = pct_after opt (some orig) (or_zero (compute_pct (some orig) target)) in
    record (plain create_price_discount floor) {
      target = some (record {
        total_pct = total;
        seller_pct = total;
        meli_pct = pos 0;
        price = price_after opt target;
        promo_type = some "PRICE_DISCOUNT";
        promo_id = none;
        promo_name = none;
      });
      freight_opt = opt;
    }

-- The settings of a call.
pub record Settings : Type 0 where
  pub cap_seller_pct : ℤ
  pub margin_floor_price : Option ℤ
  pub freight_band_opt_enabled : Bool
  pub excluded_types : List String
  pub skip_when_winning : Bool

abbrev pub is_won : Option PriceToWin → Bool
is_won none = false
is_won (some ptw) = holds ptw.status "winning" && holds ptw.visit_share "maximum"

abbrev pub won : PriceToWin → PromoDecision
won ptw = record (plain keep_winning none) {
  current_price = ptw.current_price;
  catalog_status = ptw.status;
  price_to_win = ptw.price_to_win;
  visit_share = ptw.visit_share;
}

abbrev pub sheet_price : Option Costs → Option ℤ
sheet_price none = none
sheet_price (some c) = c.promo_price

abbrev pub sheet_list_price : Option ℕ → Option Costs → ℕ
sheet_list_price (some n) costs = n
sheet_list_price none none = 0
sheet_list_price none (some c) = or_no_price c.list_price

-- No floor where it is 0.
abbrev pub floor_in_force : Settings → Option Costs → Option ℤ
floor_in_force settings costs =
    nonzero (or_else_price settings.margin_floor_price (sheet_price costs))

module _ (upper : String → String) where
  unfoldable pub best_candidate : ℤ → Option ℤ → ℕ → Best → List Seen → Best
  unfolding score_candidate_promo
  best_candidate cap_pct floor list_price best [] = best
  best_candidate cap_pct floor list_price best (s ∷ candidates) =
      best_candidate cap_pct floor list_price
        (better best s (score_candidate_promo upper s.offer cap_pct floor (some list_price)))
        candidates

  abbrev pub no_candidate : Best
  no_candidate = record { candidate = none; total_pct = pos 0; target_price = pos 0 }

  -- Where no candidate is taken.
  unfoldable pub otherwise : Settings → Option Costs → Option ℤ → ℕ → Option Seen → PromoDecision
  unfolding create_discount freight_option discounted
  otherwise settings costs floor orig (some s) = base_decision keep floor (some s)
  otherwise settings costs floor orig none =
      let target = max_floor (discounted orig settings.cap_seller_pct) floor in
      if ltb_ℤ (pos 0) settings.cap_seller_pct
      then create_discount orig floor target
          (freight_option settings.freight_band_opt_enabled costs floor target)
      else plain skip none

  -- A candidate is taken where it beats what runs by more than one percent.
  unfoldable pub chosen :
      Settings → Option Costs → Option ℤ → ℕ → Option Seen → Best → Option Seen → PromoDecision
  unfolding activate freight_option otherwise
  chosen settings costs floor orig started best none = otherwise settings costs floor orig started
  chosen settings costs floor orig started best (some s) =
      if ltb_ℤ (or_zero (pct_of_seen started) +ℤ pos 100) best.total_pct
      then activate (some orig) floor started s best.total_pct best.target_price
          (freight_option settings.freight_band_opt_enabled costs floor best.target_price)
      else otherwise settings costs floor orig started

  unfoldable pub decide_priced : Settings → Option Costs → Split → ℕ → PromoDecision
  unfolding best_started best_candidate chosen
  decide_priced settings costs split zero = plain no_data none
  decide_priced settings costs split (suc n) =
      let floor = floor_in_force settings costs in
      let best =
        best_candidate settings.cap_seller_pct floor (suc n) no_candidate split.candidates in
      chosen settings costs floor (suc n) (best_started split.started) best best.candidate

  unfoldable pub decided : Settings → List Offer → Option Costs → PromoDecision
  unfolding split_promos decide_priced
  decided settings promos costs =
      let split = split_promos settings.excluded_types none promos in
      decide_priced settings costs split (sheet_list_price split.orig_price costs)

  unfoldable pub decide_for_item :
      Settings → List Offer → Option Costs → Option PriceToWin → PromoDecision
  unfolding decided annotate_catalog
  decide_for_item settings promos costs none = decided settings promos costs
  decide_for_item settings promos costs (some ptw) =
      if is_won (some ptw) && settings.skip_when_winning
      then won ptw
      else annotate_catalog (decided settings promos costs) (some ptw)
