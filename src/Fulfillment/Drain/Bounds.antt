-- ===== src/Fulfillment/Drain/Bounds.antt =====
-- How much of a SKU's pending units the drain cancels.
use tiny_mirror.Prelude.{
  ℕ, ◌≡◌, refl, ap, ◌∙◌, ◌⊎◌, true, false, List, [], ◌∷◌, filter, arith, ℤ, pos, ◌+ℤ◌, ◌-ℤ◌, ◌≤ℤ◌,
  ◌<ℤ◌, leb_ℤ, int_laws, All, All-imp, All-Unit, Option, some, String, Bool-cases, inl, inr,
  parts_of_eq,
}
use tiny_mirror.Fulfillment.Transfer.{Time, Transfer}
use tiny_mirror.Fulfillment.Drain.{
  net, sum_net, is_stale, is_in_grace, drained, drain_sku, drain_rows, ml_transfer,
}
use tiny_mirror.Json.{Fields}
use tiny_mirror.Fulfillment.Paging.{InventorySource}

-- Each row is cancelled while the units that are left are more than `keep`.
abbrev pub IsNeeded : ℤ → ℤ → List Transfer → Type 0
IsNeeded keep total [] = Unit
IsNeeded keep total (r ∷ gone) = (keep <ℤ total) × IsNeeded keep (total -ℤ net r) gone

module _ (cutoff : Time) (keep : ℤ) where
  -- The loop stops, goes past a row, or cancels it.
  drained_cases :
      (total : ℤ) (r : Transfer) (rows : List Transfer)
      → (total ≤ℤ keep) × (drained cutoff keep total (r ∷ rows) ≡ [])
        ⊎ (keep <ℤ total)
          × (is_stale cutoff r ≡ false)
          × (drained cutoff keep total (r ∷ rows) ≡ drained cutoff keep total rows)
        ⊎ (keep <ℤ total)
          × (is_stale cutoff r ≡ true)
          × (drained cutoff keep total (r ∷ rows) ≡ r ∷ drained cutoff keep (total -ℤ net r) rows)
  unfolding drained
  drained_cases total r rows = elim (Bool-cases (leb_ℤ total keep)) [
    | inl settled ↦ inl (ground arith, rw settled)
    | inr over ↦ elim (Bool-cases (is_in_grace cutoff r)) [
      | inl young ↦ inr (inl (ground arith, ground arith, rw (over, young)))
      | inr old ↦ elim (Bool-cases (leb_ℤ (net r) (pos 0))) [
        | inl arrived ↦ inr (inl (ground arith, ground arith, rw (over, old, arrived)))
        | inr out ↦ inr (inr (ground arith, ground arith, rw (over, old, out)))
      ]
    ]
  ]

  drained_none : (total : ℤ) → drained cutoff keep total [] ≡ []
  unfolding drained
  drained_none total = refl

  -- Only stale rows are cancelled, and what held of all rows holds of them.
  pub drained-All {κ} :
      (P : Transfer → Type κ) (total : ℤ) (rows : List Transfer)
      → All P rows
      → All (λ r. P r × (is_stale cutoff r ≡ true)) (drained cutoff keep total rows)
  unfolding drained
  drained-All P total [] h = tt
  drained-All P total (r ∷ rows) h = elim (drained_cases total r rows) [
    | inl (settled, e) ↦ rw e tt
    | inr (inl (over, spared, e)) ↦ rw e (drained-All P total rows h.1)
    | inr (inr (over, stale, e)) ↦ rw e ((h.0, stale), drained-All P (total -ℤ net r) rows h.1)
  ]

  drained-IsNeeded :
      (total : ℤ) (rows : List Transfer) → IsNeeded keep total (drained cutoff keep total rows)
  unfolding drained
  drained-IsNeeded total [] = tt
  drained-IsNeeded total (r ∷ rows) = elim (drained_cases total r rows) [
    | inl (settled, e) ↦ rw e tt
    | inr (inl (over, spared, e)) ↦ rw e (drained-IsNeeded total rows)
    | inr (inr (over, stale, e)) ↦ rw e (over, drained-IsNeeded (total -ℤ net r) rows)
  ]

  -- The rest reaches `keep` if cancelling all stale rows does.
  drained_reaches :
      (total : ℤ) (rows : List Transfer)
      → total -ℤ sum_net (filter (is_stale cutoff) rows) ≤ℤ keep
      → total -ℤ sum_net (drained cutoff keep total rows) ≤ℤ keep
  unfolding drained
  drained_reaches total [] h = h
  drained_reaches total (r ∷ rows) h = elim (drained_cases total r rows) [
    | inl (settled, e) ↦ rw e (omega int_laws)
    | inr (inl (over, spared, e)) ↦ rw e (drained_reaches total rows (rw spared at h))
    | inr (inr (over, stale, e)) ↦
        let cancelled = rw stale at h in
        let rest = drained_reaches (total -ℤ net r) rows (omega int_laws) in rw e (omega int_laws)
  ]

sum_net-in_grace :
    (cutoff : Time) (rows : List Transfer)
    → sum_net rows -ℤ sum_net (filter (is_stale cutoff) rows)
      ≤ℤ sum_net (filter (is_in_grace cutoff) rows)
sum_net-in_grace cutoff [] = omega int_laws
sum_net-in_grace cutoff (r ∷ rows) =
    let ih = sum_net-in_grace cutoff rows in
    elim (Bool-cases (is_in_grace cutoff r)) [
      | inl young ↦
          let spared : is_stale cutoff r ≡ false = ground arith in
          rw (young, spared) (omega int_laws)
      | inr old ↦ elim (Bool-cases (is_stale cutoff r)) [
        | inl stale ↦ rw (old, stale) (omega int_laws)
        | inr arrived ↦
            let none_out : net r ≤ℤ pos 0 = ground arith in rw (old, arrived) (omega int_laws)
      ]
    ]

module _ (get_inventory_stock : String → Option Fields) (cutoff : Time)
    (sources : List InventorySource) where
  drain_sku-confirmed :
      (rows : List Transfer) (confirmed : ℕ)
      → ml_transfer get_inventory_stock sources (pos 0) ≡ some (pos confirmed)
      → (drain_sku get_inventory_stock cutoff sources rows).0
        ≡ drained cutoff
            (pos confirmed +ℤ sum_net (filter (is_in_grace cutoff) rows))
            (sum_net rows)
            rows
  unfolding drain_sku
  drain_sku-confirmed rows confirmed e = ap (λ found. (drain_rows cutoff rows found).0) e

  -- Suppose the service confirms that `confirmed` units of a SKU are on their way. Each row that the
  -- drain cancels is older than the grace period and has units out, and is cancelled while more units
  -- are left than the confirmed ones and those of the rows inside the grace period. In the end no
  -- more than these are left.
  pub drain_sku_lem :
      (rows : List Transfer) (confirmed : ℕ)
      → ml_transfer get_inventory_stock sources (pos 0) ≡ some (pos confirmed)
      → let keep = pos confirmed +ℤ sum_net (filter (is_in_grace cutoff) rows) in
        let gone = (drain_sku get_inventory_stock cutoff sources rows).0 in
        All (λ r. is_stale cutoff r ≡ true) gone
        × IsNeeded keep (sum_net rows) gone
        × (sum_net rows -ℤ sum_net gone ≤ℤ keep)
  drain_sku_lem rows confirmed e =
      let keep = pos confirmed +ℤ sum_net (filter (is_in_grace cutoff) rows) in
      let total = sum_net rows in
      let recent = sum_net-in_grace cutoff rows in
      let stale = drained-All cutoff keep (λ _. Unit {0}) total rows (All-Unit rows) in
      rw (drain_sku-confirmed rows confirmed e) (
        All-imp _ (λ r h. h.1) stale,
        drained-IsNeeded cutoff keep total rows,
        drained_reaches cutoff keep total rows (omega int_laws),
      )

  -- A stale row is cancelled whole although the service confirms some, but not all, of its units:
  -- nothing is left of what it confirms.
  pub drain_undershoots :
      (r : Transfer) (confirmed : ℕ)
      → ml_transfer get_inventory_stock sources (pos 0) ≡ some (pos confirmed)
      → is_stale cutoff r ≡ true
      → pos confirmed <ℤ net r
      → (drain_sku get_inventory_stock cutoff sources (r ∷ [])).0 ≡ r ∷ []
  drain_undershoots r confirmed e stale more =
      let keep = pos confirmed +ℤ sum_net (filter (is_in_grace cutoff) (r ∷ [])) in
      let total = sum_net (r ∷ []) in
      let old : is_in_grace cutoff r ≡ false = ground arith in
      let none_recent : sum_net (filter (is_in_grace cutoff) (r ∷ [])) ≡ pos 0 = rw old refl in
      let zero_part = parts_of_eq none_recent in
      rw (drain_sku-confirmed (r ∷ []) confirmed e) (elim (drained_cases cutoff keep total r []) [
        | inl (settled, _) ↦ absurd (omega int_laws)
        | inr (inl (_, spared, _)) ↦ absurd (cc)
        | inr (inr (_, _, gone)) ↦ gone ∙ ap (λ rest. r ∷ rest) (drained_none cutoff keep _)
      ])
