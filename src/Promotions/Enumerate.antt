-- ===== src/Promotions/Enumerate.antt =====
-- `enumerate_activations_for_item` (src/tiny_mirror/services/ml_promotion_service.py): one entry for
-- each promotion of a listing that runs, could be activated, or is denied.
use tiny_mirror.Prelude.{
  ℕ, zero, suc, String, Option, none, some, List, [], ◌∷◌, ◌++◌, ℤ, pos, ◌-ℤ◌, ltb_ℤ, ◌==◌,
  string_eq, if◌then◌else◌,
}
use tiny_mirror.Fulfillment.Catalog.{is_one_of}
use tiny_mirror.Promotions.{Offer, or_zero, or_empty}
use tiny_mirror.Promotions.Score.{
  Scored, Constraint, started, is_accepted, discount_of, original_or, score_candidate_promo,
}
use tiny_mirror.Promotions.Decide.{nonzero}
use tiny_mirror.Promotions.Decisions.{DecisionKind, would_activate, already_active, denied}

pub record Entry : Type 0 where
  pub offer : Offer
  pub status : DecisionKind
  pub target_price : Option ℤ
  pub target_total_pct : Option ℤ
  pub target_seller_pct : Option ℤ
  pub meli_percentage : ℤ
  pub constraint : Constraint
  pub min_price : Option ℤ
  pub max_price : Option ℤ
  pub stock_min : Option ℕ
  pub stock_max : Option ℕ

-- The discount of a promotion that runs; it is rounded where it is stored.
unfoldable pub started_pct : ℕ → ℤ → Option ℤ
unfolding discount_of
started_pct zero price = none
started_pct (suc n) price = if ltb_ℤ (pos 0) price then some (discount_of (suc n) price) else none

abbrev pub minus : Option ℤ → ℤ → Option ℤ
minus none meli = none
minus (some total) meli = some (total -ℤ meli)

unfoldable pub entry_of_started : ℕ → Offer → Entry
unfolding started_pct
entry_of_started list_price p =
    let price = or_zero p.price in
    let total = started_pct (original_or p.original_price list_price) price in
    record {
      offer = p;
      status = already_active;
      target_price = nonzero (some price);
      target_total_pct = total;
      target_seller_pct = minus total (or_zero p.meli_percentage);
      meli_percentage = or_zero p.meli_percentage;
      constraint = started;
      min_price = none;
      max_price = none;
      stock_min = none;
      stock_max = none;
    }

abbrev pub entry_of_scored : Offer → Scored → Entry
entry_of_scored p s = record {
  offer = p;
  status = if is_accepted s then would_activate else denied;
  target_price = some s.target_price;
  target_total_pct = some s.target_total_pct;
  target_seller_pct = some s.target_seller_pct;
  meli_percentage = s.meli_percentage;
  constraint = s.constraint;
  min_price = s.min_price;
  max_price = s.max_price;
  stock_min = s.stock_min;
  stock_max = s.stock_max;
}

abbrev pub entries_of_scored : Offer → Option Scored → List Entry
entries_of_scored p none = []
entries_of_scored p (some s) = entry_of_scored p s ∷ []

-- `str.upper` and `str.lower`.
module _ (upper lower : String → String) where
  unfoldable pub entries_of : ℤ → Option ℤ → ℕ → Offer → List Entry
  unfolding entry_of_started score_candidate_promo
  entries_of cap_pct floor list_price p =
      if lower (or_empty p.status) == "started"
      then entry_of_started list_price p ∷ []
      else if lower (or_empty p.status) == "candidate"
      then entries_of_scored p (score_candidate_promo upper p cap_pct floor (some list_price))
      else []

  abbrev pub enumerate : ℤ → Option ℤ → ℕ → List String → List Offer → List Entry
  enumerate cap_pct floor list_price excluded [] = []
  enumerate cap_pct floor list_price excluded (p ∷ promos) =
      let rest = enumerate cap_pct floor list_price excluded promos in
      if is_one_of p.type excluded then rest else entries_of cap_pct floor list_price p ++ rest

  unfoldable pub enumerate_activations_for_item :
      List Offer → ℤ → Option ℤ → Option ℕ → List String → List Entry
  unfolding entries_of
  enumerate_activations_for_item promos cap_pct floor none excluded = []
  enumerate_activations_for_item promos cap_pct floor (some zero) excluded = []
  enumerate_activations_for_item promos cap_pct floor (some (suc n)) excluded =
      enumerate cap_pct floor (suc n) excluded promos
