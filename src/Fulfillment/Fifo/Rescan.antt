-- ===== src/Fulfillment/Fifo/Rescan.antt =====
-- A second scan of the same events, after the first one has been stored: what `last_event_at`
-- prevents.
use native.Mathlib.Nat.{le_trans, le_refl}
use tiny_mirror.Prelude.{
  ℕ, ◌≤◌, ◌<◌, ◌≡◌, refl, ap, subst, sym, ◌⊎◌, true, false, Option, none, some, List, [], ◌∷◌,
  arith, ℤ, pos, ◌+ℤ◌, ◌-ℤ◌, ◌≤ℤ◌, ◌<ℤ◌, min_ℤ, max_ℤ, leb_ℤ, ltb_ℤ, max_ℤ_left, -ℤ_parts,
  eq_of_parts, All, Bool-cases, inl, inr,
}
use tiny_mirror.Sort.{IsSorted}
use tiny_mirror.Fulfillment.Transfer.{Time, Transfer, receive}
use tiny_mirror.Fulfillment.Fifo.{
  Slot, Credit, already_seen, is_eligible, visit, credit, start, date_key,
}
use tiny_mirror.Fulfillment.Fifo.Chronology.{IsTimely, credit-IsTimely, filled_covers}

All-low : (slots : List Slot) → All (λ s. 0 ≤ date_key s.date) slots
All-low [] = tt
All-low (s ∷ slots) = (omega arith, All-low slots)

-- An event with units that the transfer could be credited with is dated at or before `last`.
abbrev IsCovered : Time → Option Time → ℕ → Slot → Type 0
IsCovered at seen last s =
    is_eligible at seen s.date ≡ true → pos 0 <ℤ s.remaining → date_key s.date ≤ last

taken_something : (a b : ℤ) → pos 0 <ℤ a → pos 0 <ℤ b → ltb_ℤ (pos 0) (min_ℤ a b) ≡ false → ⊥
unfolding min_ℤ
taken_something a b p q h = ground arith

module _ (at : Time) (seen : Option Time) where
  -- With every event dated at or after what was credited last, the date of the last credit rises.
  visit_last :
      (s : Slot) (c : Credit)
      → date_key c.last_event_date ≤ date_key s.date
      → let (_, c') = visit at seen s c in
        (date_key c.last_event_date ≤ date_key c'.last_event_date)
        × (date_key c'.last_event_date ≤ date_key s.date)
        × (pos 0 <ℤ c.outstanding → IsCovered at seen (date_key c'.last_event_date) s)
  unfolding visit
  visit_last s c h = elim (Bool-cases (leb_ℤ s.remaining (pos 0))) [
    | inl spent ↦ rw spent (le_refl _, h, λ _ e p. absurd (ground arith))
    | inr some_left ↦ elim (Bool-cases (is_eligible at seen s.date)) [
      | inl ours ↦
          rw (some_left, ours)
            (elim (Bool-cases (ltb_ℤ (pos 0) (min_ℤ c.outstanding s.remaining))) [
              | inl taken ↦ rw taken (h, le_refl _, λ _ e p. le_refl _)
              | inr nothing ↦ rw nothing (
                le_refl _,
                h,
                λ p e q. absurd (taken_something c.outstanding s.remaining p q nothing),
              )
            ])
      | inr other ↦ rw (some_left, other) (le_refl _, h, λ _ e p. cc)
    ]
  ]

  All-after :
      {m n : ℕ} (slots : List Slot)
      → m ≤ n
      → All (λ s. n ≤ date_key s.date) slots
      → All (λ s. m ≤ date_key s.date) slots
  All-after [] h a = tt
  All-after (s ∷ slots) h a = (le_trans h a.0, All-after slots h a.1)

  credit_stops :
      (slots : List Slot) (c : Credit)
      → leb_ℤ c.outstanding (pos 0) ≡ true
      → (credit at seen slots c).1 ≡ c
  unfolding credit
  credit_stops [] c h = refl
  credit_stops (s ∷ slots) c h = rw h

  credit_goes_on :
      (s : Slot) (slots : List Slot) (c : Credit)
      → leb_ℤ c.outstanding (pos 0) ≡ false
      → (credit at seen (s ∷ slots) c).1 ≡ (credit at seen slots (visit at seen s c).1).1
  unfolding credit
  credit_goes_on s slots c h = rw h

  -- The loop went from `c` to `c'` over the events: the date of the last credit has not fallen, and
  -- unless the transfer is filled it covers every event that could be credited.
  abbrev IsLast : List Slot → Credit → Credit → Type 0
  IsLast slots c c' =
      (date_key c.last_event_date ≤ date_key c'.last_event_date)
      × ((c'.outstanding ≤ℤ pos 0) ⊎ All (IsCovered at seen (date_key c'.last_event_date)) slots)

  IsLast-cons :
      (s : Slot) (slots : List Slot) (c d e : Credit)
      → date_key c.last_event_date ≤ date_key d.last_event_date
      → IsCovered at seen (date_key d.last_event_date) s
      → IsLast slots d e
      → IsLast (s ∷ slots) c e
  IsLast-cons s slots c d e low covered (rises, inl filled) = (le_trans low rises, inl filled)
  IsLast-cons s slots c d e low covered (rises, inr rest) =
      (le_trans low rises, inr (λ x p. le_trans (covered x p) rises, rest))

  -- Over events in the order of their dates.
  credit-IsLast :
      (slots : List Slot) (c : Credit)
      → IsSorted (λ s. date_key s.date) slots
      → All (λ s. date_key c.last_event_date ≤ date_key s.date) slots
      → IsLast slots c (credit at seen slots c).1
  unfolding credit
  credit-IsLast [] c sorted after = (le_refl _, inr tt)
  credit-IsLast (s ∷ slots) c sorted after =
      let d = (visit at seen s c).1 in
      let first = visit_last s c after.0 in
      let rest = credit-IsLast slots d sorted.1 (All-after slots first.1 sorted.0) in
      elim (Bool-cases (leb_ℤ c.outstanding (pos 0))) [
        | inl done ↦
            subst (IsLast (s ∷ slots) c) (sym (credit_stops (s ∷ slots) c done))
              (le_refl _, inl (ground arith))
        | inr more ↦
            let cons =
              IsLast-cons s slots c d (credit at seen slots d).1 first.0 (first.2 (ground arith))
                rest in
            subst (IsLast (s ∷ slots) c) (sym (credit_goes_on s slots c more)) cons
      ]

  visit_nothing :
      (s : Slot) (c : Credit)
      → (is_eligible at seen s.date ≡ true → s.remaining ≤ℤ pos 0)
      → visit at seen s c ≡ (s, c)
  unfolding visit
  visit_nothing s c h = elim (Bool-cases (is_eligible at seen s.date)) [
    | inl ours ↦ let e : leb_ℤ s.remaining (pos 0) ≡ true = ground (arith, h ours) in rw e
    | inr other ↦ rw other (ground arith)
  ]

  -- No event qualifies, so the loop changes nothing.
  pub credit_nothing :
      (slots : List Slot) (c : Credit)
      → All (λ s. is_eligible at seen s.date ≡ true → s.remaining ≤ℤ pos 0) slots
      → (credit at seen slots c).1 ≡ c
  unfolding credit
  credit_nothing [] c h = refl
  credit_nothing (s ∷ slots) c h = ground (arith, visit_nothing s c h.0, credit_nothing slots c h.1)

-- The decision for one transfer, over events in the order of their dates.
abbrev pub rescan_delta : Transfer → List Slot → ℤ
rescan_delta t slots = (credit t.transferred_at t.last_event_at slots (start t)).1.delta

eligible_later :
    (tat at : Time) (seen date : Option Time)
    → already_seen seen at ≡ false
    → is_eligible tat (some at) date ≡ true
    → (is_eligible tat seen date ≡ true) × (at < date_key date)
eligible_later tat at seen none h e = cc
eligible_later tat at none (some date) h e = ground arith
eligible_later tat at (some x) (some date) h e = ground arith

-- Past the last credited event nothing is left of what was covered.
covered_spent :
    (tat at : Time) (seen : Option Time) (slots : List Slot)
    → already_seen seen at ≡ false
    → All (IsCovered tat seen at) slots
    → All (λ s. is_eligible tat (some at) s.date ≡ true → s.remaining ≤ℤ pos 0) slots
covered_spent tat at seen [] h a = tt
covered_spent tat at seen (s ∷ slots) h a = (
  λ e.
      let old = eligible_later tat at seen s.date h e in
      let not_positive : ¬ (pos 0 <ℤ s.remaining) =
        λ p. absurd (omega (arith, a.0 old.0 p, old.1)) in
      omega (arith, not_positive),
  covered_spent tat at seen slots h a.1,
)

owed_nothing : (q s : ℤ) → q ≤ℤ s → max_ℤ (pos 0) (q -ℤ min_ℤ q s) ≡ pos 0
unfolding max_ℤ min_ℤ
owed_nothing q s h =
    ground (
      arith,
      -ℤ_parts q q,
      -ℤ_parts q s,
      eq_of_parts (q -ℤ q) (pos 0),
      eq_of_parts (q -ℤ s) (pos 0),
    )

filled_start :
    (t : Transfer) (delta : ℤ) (at : Time)
    → t.quantity ≤ℤ t.quantity_received +ℤ delta
    → (start (receive delta at t)).outstanding ≡ pos 0
unfolding receive
filled_start t delta at h = owed_nothing t.quantity (t.quantity_received +ℤ delta) h

timely_at :
    (tat at : Time) (seen : Option Time) (delta : ℤ) (last : Option Time)
    → last ≡ some at
    → IsTimely tat seen delta last
    → already_seen seen at ≡ false
timely_at tat at seen delta last e h = (subst (IsTimely tat seen delta) e h).2

-- Storing a decision that credits units, and running the same events again, credits nothing more
-- to that transfer. The events are in the order of their dates.
pub rescan_credits_nothing :
    (t : Transfer) (slots : List Slot) (at : Time)
    → IsSorted (λ s. date_key s.date) slots
    → let c = (credit t.transferred_at t.last_event_at slots (start t)).1 in
      c.last_event_date ≡ some at → rescan_delta (receive c.delta at t) slots ≡ pos 0
unfolding receive
rescan_credits_nothing t slots at sorted e =
    let c = (credit t.transferred_at t.last_event_at slots (start t)).1 in
    let t' = receive c.delta at t in
    let timely =
      credit-IsTimely t.transferred_at t.last_event_at slots (start t) refl (max_ℤ_left _ _) in
    let fresh = timely_at t.transferred_at at t.last_event_at c.delta c.last_event_date e timely in
    elim (credit-IsLast t.transferred_at t.last_event_at slots (start t) sorted (All-low slots)).1 [
      | inl filled ↦
          let none_owed = filled_start t c.delta at (filled_covers t slots filled) in
          let stops : leb_ℤ (start t').outstanding (pos 0) ≡ true = rw none_owed in
          ap (λ (d : Credit). d.delta)
            (credit_stops t.transferred_at (some at) slots (start t') stops)
      | inr covered ↦
          let last =
            subst (λ d. All (IsCovered t.transferred_at t.last_event_at (date_key d)) slots) e
              covered in
          ap (λ (d : Credit). d.delta)
            (credit_nothing t.transferred_at (some at) slots (start t')
              (covered_spent t.transferred_at at t.last_event_at slots fresh last))
    ]
