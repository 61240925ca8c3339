-- ===== src/Fulfillment/Fifo/Units.antt =====
-- Conservation of units: what the decisions credit is what the events lose, and no transfer is
-- credited beyond what it still waits for.
use tiny_mirror.Prelude.{
  ℕ, ◌+◌, ◌≡◌, refl, true, Option, List, [], ◌∷◌, arith, ℤ, pos, pos_part, ◌+ℤ◌, ◌-ℤ◌, ◌≤ℤ◌, max_ℤ,
  leb_ℤ, int_laws, bound_laws, parts_of_eq, -ℤ_parts, +ℤ_parts, max_ℤ_left, AllPairs, ◌↔◌,
  min_ℤ_nonneg, nonneg_part, min_ℤ, Bool-cases, inl, inr,
}
use tiny_mirror.Fulfillment.Transfer.{Time, Transfer}
use tiny_mirror.Fulfillment.Fifo.{
  Slot, Credit, Decision, is_eligible, take_units, visit, credit, start, decide, match_all,
}

-- The units that are left to credit; an event with none or fewer counts for nothing.
abbrev pub units : List Slot → ℕ
units [] = 0
units (s ∷ slots) = pos_part s.remaining + units slots

-- One step of the loop moves units from the events to the transfer.
pub record Moves (before after : ℕ) (c c' : Credit) : Type 0 where
  pub nonneg : pos 0 ≤ℤ c'.outstanding
  pub grows : c.delta ≤ℤ c'.delta
  pub owed : c'.outstanding +ℤ c'.delta ≡ c.outstanding +ℤ c.delta
  pub same_units : pos after +ℤ c'.delta ≡ pos before +ℤ c.delta

Moves-refl : (n : ℕ) (c : Credit) → pos 0 ≤ℤ c.outstanding → Moves n n c c
Moves-refl n c h = record { nonneg = h; grows = omega arith; owed = refl; same_units = refl }

module _ (s : Slot) (c : Credit) (h : pos 0 ≤ℤ c.outstanding) where
  take_units-Moves :
      pos 0 ≤ℤ s.remaining
      → let (s', c') = take_units (min_ℤ c.outstanding s.remaining) s c in
        Moves (pos_part s.remaining) (pos_part s'.remaining) c c'
  take_units-Moves p =
      let taken = min_ℤ c.outstanding s.remaining in
      let low : pos 0 ≤ℤ taken = min_ℤ_nonneg c.outstanding s.remaining h p in
      let left : pos 0 ≤ℤ s.remaining -ℤ taken = omega bound_laws in
      record {
        nonneg = omega bound_laws;
        grows = omega int_laws;
        owed = omega int_laws;
        same_units =
            omega (int_laws, nonneg_part (s.remaining -ℤ taken) left, nonneg_part s.remaining p);
      }

  visit-Moves :
      (at : Time) (seen : Option Time)
      → let (s', c') = visit at seen s c in
        Moves (pos_part s.remaining) (pos_part s'.remaining) c c'
  unfolding visit
  visit-Moves at seen = elim (Bool-cases (leb_ℤ s.remaining (pos 0))) [
    | inl spent ↦ rw spent (Moves-refl (pos_part s.remaining) c h)
    | inr some_left ↦ elim (Bool-cases (is_eligible at seen s.date)) [
      | inl ours ↦ rw (some_left, ours) (take_units-Moves (ground arith))
      | inr other ↦ rw (some_left, other) (Moves-refl (pos_part s.remaining) c h)
    ]
  ]

pub visit-nonneg :
    (s : Slot) (c : Credit)
    → pos 0 ≤ℤ c.outstanding
    → (at : Time) (seen : Option Time) → pos 0 ≤ℤ (visit at seen s c).1.outstanding
visit-nonneg s c h at seen = (visit-Moves s c h at seen).nonneg

Moves-trans :
    {b a b' a' : ℕ} {c d e : Credit} → Moves b a c d → Moves b' a' d e → Moves (b + b') (a + a') c e
Moves-trans m n =
    let mo = parts_of_eq m.owed in
    let no = parts_of_eq n.owed in
    let mu = parts_of_eq m.same_units in
    let nu = parts_of_eq n.same_units in
    record {
      nonneg = n.nonneg;
      grows = omega (arith, m.grows, n.grows);
      owed = omega (int_laws, mo.0, mo.1, no.0, no.1);
      same_units = omega (int_laws, mu.0, mu.1, nu.0, nu.1);
    }

pub credit-Moves :
    (at : Time) (seen : Option Time) (slots : List Slot) (c : Credit)
    → pos 0 ≤ℤ c.outstanding
    → let (slots', c') = credit at seen slots c in Moves (units slots) (units slots') c c'
unfolding credit
credit-Moves at seen [] c h = Moves-refl 0 c h
credit-Moves at seen (s ∷ slots) c h =
    let first = visit-Moves s c h at seen in
    let rest = credit-Moves at seen slots (visit at seen s c).1 first.nonneg in
    elim (Bool-cases (leb_ℤ c.outstanding (pos 0))) [
      | inl done ↦ rw done (Moves-refl (units (s ∷ slots)) c h)
      | inr more ↦ rw more (Moves-trans first rest)
    ]

-- What a decision may credit: no fewer than no units, and no more than the transfer waits for.
pub record Fits (t : Transfer) (d : Decision) : Type 0 where
  pub same_id : d.transfer_id ≡ t.id
  pub credits : pos 0 ≤ℤ d.delta_units
  pub within : t.quantity_received +ℤ d.delta_units ≤ℤ max_ℤ t.quantity t.quantity_received
  pub full_iff : (d.is_full ≡ true) ↔ (t.quantity ≤ℤ t.quantity_received +ℤ d.delta_units)

abbrev pub total_delta : List Decision → ℤ
total_delta [] = pos 0
total_delta (d ∷ ds) = d.delta_units +ℤ total_delta ds

owed_within : (q r : ℤ) → r +ℤ max_ℤ (pos 0) (q -ℤ r) ≤ℤ max_ℤ q r
unfolding max_ℤ
owed_within q r = ground (arith, -ℤ_parts q r, +ℤ_parts r (pos 0), +ℤ_parts r (q -ℤ r))

decide-Fits : (t : Transfer) (c : Credit) {b a : ℕ} → Moves b a (start t) c → Fits t (decide t c)
decide-Fits t c m =
    let mo = parts_of_eq m.owed in
    record {
      same_id = refl;
      credits = m.grows;
      within = omega (int_laws, mo.0, mo.1, m.nonneg, owed_within t.quantity t.quantity_received);
      full_iff = ground arith;
    }

pub match_all-Fits :
    (ts : List Transfer) (slots : List Slot) → AllPairs Fits ts (match_all ts slots).0
unfolding match_all
match_all-Fits [] slots = tt
match_all-Fits (t ∷ ts) slots =
    let m = credit-Moves t.transferred_at t.last_event_at slots (start t) (max_ℤ_left _ _) in
    let (slots', c) = credit t.transferred_at t.last_event_at slots (start t) in
    (decide-Fits t c m, match_all-Fits ts slots')

pub match_all-units :
    (ts : List Transfer) (slots : List Slot)
    → let (ds, rest) = match_all ts slots in pos (units rest) +ℤ total_delta ds ≡ pos (units slots)
unfolding match_all
match_all-units [] slots = omega int_laws
match_all-units (t ∷ ts) slots =
    let m = credit-Moves t.transferred_at t.last_event_at slots (start t) (max_ℤ_left _ _) in
    let (slots', c) = credit t.transferred_at t.last_event_at slots (start t) in
    let mu = parts_of_eq m.same_units in
    let ih = parts_of_eq (match_all-units ts slots') in omega (int_laws, mu.0, mu.1, ih.0, ih.1)
