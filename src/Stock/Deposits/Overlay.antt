-- ===== src/Stock/Deposits/Overlay.antt =====
-- The two ways in which Mercado Livre's numbers reach the stored deposits.
use tiny_mirror.Prelude.{
  ℕ, ◌≡◌, ◌∙◌, refl, ap, sym, subst, true, false, List, [], ◌∷◌, All, ℤ, ◌==◌, string_eq, int_eq,
  nat_eq, arith, inl, inr, Bool-cases, if◌then◌else◌,
}
use tiny_mirror.Fulfillment.Drain.Table.{true_or_false}
use tiny_mirror.Stock.Deposits.{
  Deposit, StockDeposits, ml_full_deposit_name, ml_full_deposit_sentinel_id, synthetic_row,
  overlay_ml_full_deposit, upsert_deposits, full_deposit_id, insert_or_update,
  upsert_ml_full_deposit,
}

-- No two deposits have the same id, and one with the sentinel's id has the name.
abbrev pub IsKeyed : List Deposit → Type 0
IsKeyed [] = Unit
IsKeyed (d ∷ ds) =
    All (λ e. (e.deposit_tiny_id == d.deposit_tiny_id) ≡ false) ds
    × ((d.deposit_tiny_id == ml_full_deposit_sentinel_id) ≡ true
        → (d.deposit_name == ml_full_deposit_name) ≡ true)
    × IsKeyed ds

-- Where the name is found, the id found is that of a later deposit.
id_beyond :
    (id : ℤ) (ds : List Deposit)
    → All (λ e. (e.deposit_tiny_id == id) ≡ false) ds
    → (id == ml_full_deposit_sentinel_id) ≡ false
    → (id == full_deposit_id ds) ≡ false
unfolding full_deposit_id
id_beyond id [] h s = s
id_beyond id (d ∷ ds) h s = ground (arith, id_beyond id ds h.1 s)

same_id : (id : ℤ) → (id == id) ≡ true
same_id id = ground arith

unnamed :
    (d : Deposit)
    → ((d.deposit_tiny_id == ml_full_deposit_sentinel_id) ≡ true
        → (d.deposit_name == ml_full_deposit_name) ≡ true)
    → (d.deposit_name == ml_full_deposit_name) ≡ false
    → (d.deposit_tiny_id == ml_full_deposit_sentinel_id) ≡ false
unnamed d h other = elim (Bool-cases (d.deposit_tiny_id == ml_full_deposit_sentinel_id)) [
  | inl sentinel ↦ absurd (true_or_false (h sentinel) other)
  | inr e ↦ e
]

id_named :
    (d : Deposit) (ds : List Deposit)
    → (d.deposit_name == ml_full_deposit_name) ≡ true
    → full_deposit_id (d ∷ ds) ≡ d.deposit_tiny_id
unfolding full_deposit_id
id_named d ds named = rw named refl

id_unnamed :
    (d : Deposit) (ds : List Deposit)
    → (d.deposit_name == ml_full_deposit_name) ≡ false
    → full_deposit_id (d ∷ ds) ≡ full_deposit_id ds
unfolding full_deposit_id
id_unnamed d ds other = rw other refl

insert-overlay :
    (id available in_transfer : ℤ) (ds : List Deposit)
    → full_deposit_id ds ≡ id
    → IsKeyed ds
    → insert_or_update id available in_transfer ds
      ≡ overlay_ml_full_deposit available in_transfer ds
unfolding insert_or_update overlay_ml_full_deposit full_deposit_id
insert-overlay id available in_transfer [] e h =
    ap (λ i. record (synthetic_row available in_transfer) { deposit_tiny_id = i } ∷ []) (sym e)
insert-overlay id available in_transfer (d ∷ ds) e h =
    elim (Bool-cases (d.deposit_name == ml_full_deposit_name)) [
      | inl named ↦
          let here : (d.deposit_tiny_id == id) ≡ true =
            subst (λ i. (d.deposit_tiny_id == i) ≡ true) (sym (id_named d ds named) ∙ e)
              (same_id d.deposit_tiny_id) in
          rw (named, here) refl
      | inr other ↦
          let later = sym (id_unnamed d ds other) ∙ e in
          let beyond : (d.deposit_tiny_id == id) ≡ false =
            subst (λ i. (d.deposit_tiny_id == i) ≡ false) later
              (id_beyond d.deposit_tiny_id ds h.0 (unnamed d h.1 other)) in
          rw (other, beyond)
            (ap (λ rest. d ∷ rest) (insert-overlay id available in_transfer ds later h.2))
    ]

-- For a product whose stored deposits have distinct ids, the sentinel's only under the name of the
-- Full deposit: the refresh from Mercado Livre alone stores what the sync from Tiny stores when it
-- overlays the same numbers on those deposits. The rows of the other products stay.
pub refresh-overlay :
    (id : ℕ) (available in_transfer : ℤ) (table : StockDeposits)
    → IsKeyed (table id)
    → (other : ℕ)
    → upsert_ml_full_deposit id available in_transfer table other
      ≡ upsert_deposits id (overlay_ml_full_deposit available in_transfer (table id)) table other
unfolding upsert_ml_full_deposit upsert_deposits
refresh-overlay id available in_transfer table keyed other =
    ap (λ rows. if id == other then rows else table other)
      (insert-overlay (full_deposit_id (table id)) available in_transfer (table id) refl keyed)
