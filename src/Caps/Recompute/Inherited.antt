-- ===== src/Caps/Recompute/Inherited.antt =====
-- The costs that a listing inherits from another of its SKU, in
-- src/tiny_mirror/services/cap_recompute_service.py.
use mathlib.Core.Option.{some-injective}
use tiny_mirror.Prelude.{
  ◌≡◌, ◌∙◌, refl, ap, sym, subst, ◌⊎◌, String, Bool, true, false, not, ◌&&◌, ◌||◌, Option, none,
  some, List, [], ◌∷◌, ◌++◌, All, ◌==◌, string_eq, arith, if◌then◌else◌, Bool-cases, inl, inr,
}
use tiny_mirror.Caps.{CostsSnapshot}
use tiny_mirror.Pricing.Floor.{Some}
use tiny_mirror.Caps.Recompute.{
  snapshot_has_cost, good_snap_by_sku, has_own_cost, inherit, from_sibling,
  build_inherited_snapshots,
}

-- A complete cost of the SKU, at the same base cost.
abbrev pub IsDonor : String → CostsSnapshot → CostsSnapshot → Type 0
IsDonor sku t s =
    (snapshot_has_cost s ≡ true) × ((s.sku == sku) ≡ true) × (t.base_cost ≡ s.base_cost)

abbrev pub IsInherited : List CostsSnapshot → CostsSnapshot → Type 0
IsInherited snapshots t =
    (snapshot_has_cost t ≡ true)
    × (has_own_cost snapshots t.mlb_id ≡ false)
    × Some (IsDonor t.sku t) snapshots

and_parts : (a b c : Bool) → a && (b && c) ≡ true → (b ≡ true) × (c ≡ true)
and_parts a b c h = ground arith

or_parts : (a b : Bool) → a || b ≡ false → b ≡ false
or_parts a b h = ground arith

and_right : (a b : Bool) → not a && b ≡ true → b ≡ true
and_right a b h = ground arith

first_cases {ℓ} :
    {A : Type ℓ} (b : Bool) (x y : A) (rest : Option A)
    → (if b then some x else rest) ≡ some y
    → ((b ≡ true) × (x ≡ y)) ⊎ (rest ≡ some y)
first_cases true x y rest e = inl (refl, some-injective x y e)
first_cases false x y rest e = inr e

IsDonor-found :
    (sku : String) (t sib : CostsSnapshot) (snapshots : List CostsSnapshot)
    → good_snap_by_sku snapshots sku ≡ some sib
    → t.base_cost ≡ sib.base_cost
    → Some (IsDonor sku t) snapshots × (snapshot_has_cost sib ≡ true)
unfolding good_snap_by_sku
IsDonor-found sku t sib [] e same = absurd (ground arith)
IsDonor-found sku t sib (s ∷ snapshots) e same =
    elim (first_cases _ s sib (good_snap_by_sku snapshots sku) e) [
      | inl (test, found) ↦
          let parts = and_parts _ (snapshot_has_cost s) _ test in
          (
            inl (parts.0, parts.1, same ∙ ap (λ s. s.base_cost) (sym found)),
            subst (λ s. snapshot_has_cost s ≡ true) found parts.0,
          )
      | inr later ↦ let rest = IsDonor-found sku t sib snapshots later same in (inr rest.0, rest.1)
    ]

module _ (snapshots : List CostsSnapshot) where
  inherit-All :
      (mlb_id sku : String) (sib : CostsSnapshot) (rest : List CostsSnapshot)
      → IsInherited snapshots (record sib { mlb_id = mlb_id; sku = sku; fetch_error = false })
      → All (IsInherited snapshots) rest
      → All (IsInherited snapshots) (inherit mlb_id sku sib ++ rest)
  inherit-All mlb_id sku sib rest h hs = elim (Bool-cases (sib.mlb_id == mlb_id)) [
    | inl own ↦ rw own hs
    | inr other ↦ rw other (h, hs)
  ]

  from_sibling-All :
      (mlb_id sku : String) (found : Option CostsSnapshot) (rest : List CostsSnapshot)
      → good_snap_by_sku snapshots sku ≡ found
      → has_own_cost snapshots mlb_id ≡ false
      → All (IsInherited snapshots) rest
      → All (IsInherited snapshots) (from_sibling mlb_id sku found ++ rest)
  unfolding snapshot_has_cost
  from_sibling-All mlb_id sku none rest e h hs = hs
  from_sibling-All mlb_id sku (some sib) rest e h hs =
      let donor =
        IsDonor-found sku (record sib { mlb_id = mlb_id; sku = sku; fetch_error = false }) sib
          snapshots e refl in
      let costs = and_right sib.fetch_error _ donor.1 in
      inherit-All mlb_id sku sib rest (costs, h, donor.0) hs

  -- Whatever a listing inherits is a complete cost, of the same base cost as that of a listing with
  -- the same SKU whose own costs are complete, and the listing has no complete cost of its own.
  pub IsInherited-complete :
      (active : List (String × Option String))
      → All (IsInherited snapshots) (build_inherited_snapshots snapshots active)
  unfolding build_inherited_snapshots
  IsInherited-complete [] = tt
  IsInherited-complete ((mlb_id, none) ∷ active) = IsInherited-complete active
  IsInherited-complete ((mlb_id, some sku) ∷ active) =
      elim (Bool-cases (sku == "" || has_own_cost snapshots mlb_id)) [
        | inl skipped ↦ rw skipped (IsInherited-complete active)
        | inr used ↦ rw used (
            from_sibling-All mlb_id sku (good_snap_by_sku snapshots sku) _ refl
              (or_parts (sku == "") _ used) (IsInherited-complete active))
      ]
