-- ===== src/Fulfillment/Fifo/Chronology.antt =====
-- Which events a transfer is credited with: only eligible ones, and every one that is left.
use tiny_mirror.Prelude.{
  ◌≤◌, ◌≡◌, refl, ◌⊎◌, true, false, Option, none, some, List, [], ◌∷◌, arith, ℤ, pos, ◌+ℤ◌, ◌≤ℤ◌,
  ◌<ℤ◌, min_ℤ, leb_ℤ, ltb_ℤ, int_laws, bound_laws, min_ℤ_nonneg, min_ℤ_cases, parts_of_eq, +ℤ_parts,
  max_ℤ_left, eq_of_parts, All, AllPairs, Bool-cases, inl, inr,
}
use tiny_mirror.Fulfillment.Transfer.{Time, Transfer}
use tiny_mirror.Fulfillment.Fifo.{
  Slot, Credit, Decision, already_seen, is_eligible, take_units, visit, credit, start, decide,
  match_all,
}
use tiny_mirror.Fulfillment.Fifo.Units.{credit-Moves, visit-nonneg}

-- The last event that a credit names is eligible; with none named, nothing was credited.
abbrev pub IsTimely : Time → Option Time → ℤ → Option Time → Type 0
IsTimely at seen delta none = delta ≡ pos 0
IsTimely at seen delta (some date) =
    (pos 0 <ℤ delta) × (at ≤ date) × (already_seen seen date ≡ false)

-- Nothing is left of any event that the transfer could be credited with.
abbrev pub IsSpent : Time → Option Time → List Slot → Type 0
IsSpent at seen = All (λ s. is_eligible at seen s.date ≡ true → s.remaining ≤ℤ pos 0)

module _ (at : Time) (seen : Option Time) where
  delta_nonneg : (delta : ℤ) (last : Option Time) → IsTimely at seen delta last → pos 0 ≤ℤ delta
  delta_nonneg delta none h = rw h (omega arith)
  delta_nonneg delta (some date) h = omega arith

  eligible-IsTimely :
      (delta : ℤ) (date : Option Time)
      → is_eligible at seen date ≡ true
      → pos 0 <ℤ delta
      → IsTimely at seen delta date
  eligible-IsTimely delta none e p = cc
  eligible-IsTimely delta (some date) e p = ground arith

  take_units-IsTimely :
      (taken : ℤ) (s : Slot) (c : Credit)
      → pos 0 ≤ℤ taken
      → is_eligible at seen s.date ≡ true
      → IsTimely at seen c.delta c.last_event_date
      → let (_, c') = take_units taken s c in IsTimely at seen c'.delta c'.last_event_date
  take_units-IsTimely taken s c low e h = elim (Bool-cases (ltb_ℤ (pos 0) taken)) [
    | inl some_taken ↦
        let before = delta_nonneg c.delta c.last_event_date h in
        rw some_taken
          (eligible-IsTimely (c.delta +ℤ taken) s.date e (ground (arith, +ℤ_parts c.delta taken)))
    | inr none_taken ↦
        let same : c.delta +ℤ taken ≡ c.delta =
          ground (arith, +ℤ_parts c.delta taken, eq_of_parts (c.delta +ℤ taken) c.delta) in
        rw (none_taken, same) h
  ]

  visit-IsTimely :
      (s : Slot) (c : Credit)
      → IsTimely at seen c.delta c.last_event_date
      → pos 0 ≤ℤ c.outstanding
      → let (_, c') = visit at seen s c in IsTimely at seen c'.delta c'.last_event_date
  unfolding visit
  visit-IsTimely s c h p = elim (Bool-cases (leb_ℤ s.remaining (pos 0))) [
    | inl spent ↦ rw spent h
    | inr some_left ↦ elim (Bool-cases (is_eligible at seen s.date)) [
      | inl ours ↦
          let taken = min_ℤ c.outstanding s.remaining in
          rw (some_left, ours)
            (take_units-IsTimely taken s c (min_ℤ_nonneg c.outstanding s.remaining p (ground arith))
              ours h)
      | inr other ↦ rw (some_left, other) h
    ]
  ]

  pub credit-IsTimely :
      (slots : List Slot) (c : Credit)
      → IsTimely at seen c.delta c.last_event_date
      → pos 0 ≤ℤ c.outstanding
      → let (_, c') = credit at seen slots c in IsTimely at seen c'.delta c'.last_event_date
  unfolding credit
  credit-IsTimely [] c h p = h
  credit-IsTimely (s ∷ slots) c h p = elim (Bool-cases (leb_ℤ c.outstanding (pos 0))) [
    | inl done ↦ rw done h
    | inr more ↦ rw more (
        credit-IsTimely slots (visit at seen s c).1 (visit-IsTimely s c h p)
          (visit-nonneg s c p at seen))
  ]

  credit_done :
      (slots : List Slot) (c : Credit)
      → c.outstanding ≤ℤ pos 0
      → (credit at seen slots c).1.outstanding ≤ℤ pos 0
  unfolding credit
  credit_done [] c h = h
  credit_done (s ∷ slots) c h = let e : leb_ℤ c.outstanding (pos 0) ≡ true = ground arith in rw e h

  -- After a round the event is spent, or the transfer waits for nothing.
  visit-spends :
      (s : Slot) (c : Credit)
      → let (s', c') = visit at seen s c in
        (c'.outstanding ≤ℤ pos 0) ⊎ (is_eligible at seen s'.date ≡ true → s'.remaining ≤ℤ pos 0)
  unfolding visit
  visit-spends s c = elim (Bool-cases (leb_ℤ s.remaining (pos 0))) [
    | inl spent ↦ rw spent (inr (λ _. ground arith))
    | inr some_left ↦ elim (Bool-cases (is_eligible at seen s.date)) [
      | inl ours ↦
          rw (some_left, ours)
            (elim (min_ℤ_cases c.outstanding s.remaining) [
              | inl all_owed ↦ inl (rw all_owed (omega int_laws))
              | inr all_left ↦ inr (λ _. rw all_left (omega int_laws))
            ])
      | inr other ↦ rw (some_left, other) (inr (λ e. cc))
    ]
  ]

  -- Units are credited as long as the transfer waits for some and an event has some for it.
  credit-spends :
      (slots : List Slot) (c : Credit)
      → let (slots', c') = credit at seen slots c in
        (c'.outstanding ≤ℤ pos 0) ⊎ IsSpent at seen slots'
  unfolding credit
  credit-spends [] c = inr tt
  credit-spends (s ∷ slots) c =
      let (s', c') = visit at seen s c in
      let ih = credit-spends slots c' in
      elim (Bool-cases (leb_ℤ c.outstanding (pos 0))) [
        | inl done ↦ rw done (inl (ground arith))
        | inr more ↦ rw more (elim (visit-spends s c) [
          | inl filled ↦ inl (credit_done slots c' filled)
          | inr spent ↦ elim ih [ inl filled ↦ inl filled | inr rest ↦ inr (spent, rest) ]
        ])
      ]

  -- What is spent for one transfer stays spent while others are credited.
  visit-keeps_spent :
      (at' : Time) (seen' : Option Time) (s : Slot) (c : Credit)
      → pos 0 ≤ℤ c.outstanding
      → (is_eligible at seen s.date ≡ true → s.remaining ≤ℤ pos 0)
      → let (s', _) = visit at' seen' s c in
        is_eligible at seen s'.date ≡ true → s'.remaining ≤ℤ pos 0
  unfolding visit
  visit-keeps_spent at' seen' s c p h = elim (Bool-cases (leb_ℤ s.remaining (pos 0))) [
    | inl spent ↦ rw spent h
    | inr some_left ↦ elim (Bool-cases (is_eligible at' seen' s.date)) [
      | inl theirs ↦
          rw (some_left, theirs)
            (λ e.
              let low : pos 0 ≤ℤ s.remaining = ground arith in
              omega (int_laws, h e, min_ℤ_nonneg c.outstanding s.remaining p low))
      | inr other ↦ rw (some_left, other) h
    ]
  ]

  credit-keeps_IsSpent :
      (at' : Time) (seen' : Option Time) (slots : List Slot) (c : Credit)
      → pos 0 ≤ℤ c.outstanding
      → IsSpent at seen slots
      → IsSpent at seen (credit at' seen' slots c).0
  unfolding credit
  credit-keeps_IsSpent at' seen' [] c p h = tt
  credit-keeps_IsSpent at' seen' (s ∷ slots) c p h =
      let p' = visit-nonneg s c p at' seen' in
      let c' = (visit at' seen' s c).1 in
      let ih = credit-keeps_IsSpent at' seen' slots c' p' h.1 in
      elim (Bool-cases (leb_ℤ c.outstanding (pos 0))) [
        | inl done ↦ rw done h
        | inr more ↦ rw more (visit-keeps_spent at' seen' s c p h.0, ih)
      ]

  match_all-keeps_IsSpent :
      (ts : List Transfer) (slots : List Slot)
      → IsSpent at seen slots
      → IsSpent at seen (match_all ts slots).1
  unfolding match_all
  match_all-keeps_IsSpent [] slots h = h
  match_all-keeps_IsSpent (t ∷ ts) slots h =
      let slots' = (credit t.transferred_at t.last_event_at slots (start t)).0 in
      match_all-keeps_IsSpent ts slots'
        (credit-keeps_IsSpent t.transferred_at t.last_event_at slots (start t) (max_ℤ_left _ _) h)

-- A decision credits from eligible events only, and is full unless no eligible event has units left.
pub record IsFair (rest : List Slot) (t : Transfer) (d : Decision) : Type 0 where
  pub timely : IsTimely t.transferred_at t.last_event_at d.delta_units d.last_event_at
  pub greedy : (d.is_full ≡ true) ⊎ IsSpent t.transferred_at t.last_event_at rest

module _ (t : Transfer) (slots : List Slot) where
  -- A transfer that waits for nothing is covered by what it has and what it is credited with.
  pub filled_covers :
      let (_, c) = credit t.transferred_at t.last_event_at slots (start t) in
      c.outstanding ≤ℤ pos 0 → t.quantity ≤ℤ t.quantity_received +ℤ c.delta
  filled_covers h =
      let m = credit-Moves t.transferred_at t.last_event_at slots (start t) (max_ℤ_left _ _) in
      let mo = parts_of_eq m.owed in omega (bound_laws, m.nonneg, mo.0, mo.1, h)

  filled_is_full :
      let (_, c) = credit t.transferred_at t.last_event_at slots (start t) in
      c.outstanding ≤ℤ pos 0 → (decide t c).is_full ≡ true
  filled_is_full h = let covered = filled_covers h in ground (arith, covered)

  decide-IsFair :
      (ts : List Transfer)
      → let (slots', c) = credit t.transferred_at t.last_event_at slots (start t) in
        IsFair (match_all ts slots').1 t (decide t c)
  decide-IsFair ts =
      let (slots', c) = credit t.transferred_at t.last_event_at slots (start t) in
      record {
        timely =
            credit-IsTimely t.transferred_at t.last_event_at slots (start t) refl (max_ℤ_left _ _);
        greedy = elim (credit-spends t.transferred_at t.last_event_at slots (start t)) [
          | inl filled ↦ inl (filled_is_full filled)
          | inr spent ↦
              inr (match_all-keeps_IsSpent t.transferred_at t.last_event_at ts slots' spent)
        ];
      }

pub match_all-IsFair :
    (ts : List Transfer) (slots : List Slot)
    → let (ds, rest) = match_all ts slots in AllPairs (IsFair rest) ts ds
unfolding match_all
match_all-IsFair [] slots = tt
match_all-IsFair (t ∷ ts) slots =
    let slots' = (credit t.transferred_at t.last_event_at slots (start t)).0 in
    (decide-IsFair t slots ts, match_all-IsFair ts slots')
