-- ===== src/Fulfillment/Fifo/DoubleCredit.antt =====
-- A second scan once an older transfer has left the queue: what `last_event_at`, which belongs to one
-- transfer, does not prevent.
use native.Mathlib.Nat.{le_trans}
use tiny_mirror.Prelude.{
  ◌≤◌, ◌≡◌, ap, ◌∙◌, true, Option, none, some, List, [], ◌∷◌, map, arith, ℤ, pos, ◌+ℤ◌, ◌-ℤ◌, ◌≤ℤ◌,
  ◌<ℤ◌, min_ℤ, max_ℤ, leb, int_laws, parts_of_eq, -ℤ_parts, eq_of_parts,
}
use tiny_mirror.Sort.{sort}
use tiny_mirror.Fulfillment.Transfer.{Time, Transfer}
use tiny_mirror.Fulfillment.Fifo.{
  Slot, Credit, Decision, visit, credit, start, match_all, match_slots,
}
use tiny_mirror.Fulfillment.Fifo.Rescan.{credit_nothing}

-- One event that covers one transfer.
abbrev pub one_event : Time → ℤ → List Slot
one_event date q = record { date = some date; remaining = q } ∷ []

-- A pending transfer that has received nothing.
pub record IsUntouched (t : Transfer) : Type 0 where
  pub none_received : t.quantity_received ≡ pos 0
  pub none_seen : t.last_event_at ≡ none

abbrev pub deltas : List Decision → List ℤ
deltas = map (λ d. d.delta_units)

start_untouched :
    (t : Transfer) → IsUntouched t → pos 0 ≤ℤ t.quantity → (start t).outstanding ≡ t.quantity
unfolding max_ℤ
start_untouched t u p = ground (
  arith,
  parts_of_eq u.none_received,
  -ℤ_parts t.quantity t.quantity_received,
  eq_of_parts (t.quantity -ℤ t.quantity_received) t.quantity,
  eq_of_parts (pos 0) t.quantity,
)

credit_one :
    (at : Time) (seen : Option Time) (date : Time) (q owed : ℤ) (c : Credit)
    → seen ≡ none
    → at ≤ date
    → c.outstanding ≡ owed
    → pos 0 <ℤ owed
    → pos 0 <ℤ q
    → let (slots, c') = credit at seen (one_event date q) c in
      (slots ≡ one_event date (q -ℤ min_ℤ owed q)) × (c'.delta ≡ c.delta +ℤ min_ℤ owed q)
unfolding credit visit
credit_one at seen date q owed c e h o p p' = (ground arith, ground arith)

credit_spent :
    (at : Time) (seen : Option Time) (date : Time) (c : Credit)
    → (credit at seen (one_event date (pos 0)) c).1 ≡ c
credit_spent at seen date c =
    credit_nothing at seen (one_event date (pos 0)) c ((λ _. omega arith), tt)

two_items : {a b c d : ℤ} → a ≡ b → c ≡ d → a ∷ c ∷ [] ≡ b ∷ d ∷ []
two_items e f = cc

min_self : (q : ℤ) → min_ℤ q q ≡ q
unfolding min_ℤ
min_self q = ground arith

zero_plus : (q : ℤ) → pos 0 +ℤ q ≡ q
zero_plus q = omega int_laws

minus_self : (q : ℤ) → q -ℤ q ≡ pos 0
minus_self q = omega int_laws

module _ (t t' : Transfer) (date : Time) (q : ℤ) where
  -- An event whose units all go to the older transfer is counted again for the newer one by the next
  -- scan, which no longer sees the older transfer.
  pub rescan_counts_twice :
      IsUntouched t
      → IsUntouched t'
      → t.transferred_at ≤ t'.transferred_at
      → t'.transferred_at ≤ date
      → pos 0 <ℤ q
      → t.quantity ≡ q
      → pos 0 <ℤ t'.quantity
      → (deltas (match_slots (t ∷ t' ∷ []) (one_event date q)).0 ≡ q ∷ pos 0 ∷ [])
        × (deltas (match_slots (t' ∷ []) (one_event date q)).0 ≡ min_ℤ t'.quantity q ∷ [])
  unfolding match_slots match_all sort
  rescan_counts_twice u u' older before p e p' =
      let slots = one_event date q in
      let owes : (start t).outstanding ≡ q = start_untouched t u (rw e (omega arith)) ∙ e in
      let owes' : (start t').outstanding ≡ t'.quantity = start_untouched t' u' (omega arith) in
      let first =
        credit_one t.transferred_at t.last_event_at date q q (start t) u.none_seen
          (le_trans older before) owes p p in
      let again =
        credit_one t'.transferred_at t'.last_event_at date q t'.quantity (start t') u'.none_seen
          before owes' p' p in
      let in_order : leb t.transferred_at t'.transferred_at ≡ true = ground arith in
      let nothing_left = rw (min_self, minus_self) at first.0 in
      let spent = credit_spent t'.transferred_at t'.last_event_at date (start t') in
      let all_to_older = first.1 ∙ zero_plus (min_ℤ q q) ∙ min_self q in
      let none_to_newer : (credit t'.transferred_at t'.last_event_at
            (credit t.transferred_at t.last_event_at slots (start t)).0 (start t')).1.delta
          ≡ pos 0 =
        rw nothing_left (ap (λ (c : Credit). c.delta) spent) in
      (
        rw in_order (two_items all_to_older none_to_newer),
        ap (λ x. x ∷ []) (again.1 ∙ zero_plus (min_ℤ t'.quantity q)),
      )
