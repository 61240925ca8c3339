-- ===== src/Promotions/Routes/Rows.antt =====
-- The rows by their ids, after an update (src/tiny_mirror/api/routers/ml_promotions.py).
use mathlib.Core.Option.{some-injective}
use tiny_mirror.Prelude.{
  arith, ℕ, ◌≡◌, refl, ap, subst, ◌∙◌, Bool, true, false, ◌&&◌, some, List, [], ◌∷◌, ◌==◌, nat_eq,
  string_eq, if◌then◌else◌, Bool-cases, inl, inr,
}
use tiny_mirror.Promotions.Decisions.{Row, by_id, update_where}

-- The row with an id, after an update of the rows with that id.
pub by_id-update_where :
    (id : ℕ) (p : Row → Bool) (f : Row → Row) (r : Row) (rows : List Row)
    → by_id id rows ≡ some r
    → p r ≡ true
    → ((s : Row) → (f s).id ≡ s.id)
    → ((s : Row) → p s ≡ true → (s.id == id) ≡ true)
    → by_id id (update_where p f rows) ≡ some (f r)
by_id-update_where id p f r [] found hit same only = absurd cc
by_id-update_where id p f r (s ∷ rows) found hit same only = elim (Bool-cases (s.id == id)) [
  | inl here ↦
      let head : s ≡ r = some-injective s r (rw here at found) in
      let kept : p s ≡ true = rw head hit in
      let still : ((f s).id == id) ≡ true = ap (λ x. x == id) (same s) ∙ here in
      rw kept (rw still (ap (λ (x : Row). some (f x)) head))
  | inr there ↦ elim (Bool-cases (p s)) [
    | inl touched ↦ absurd (cc (only s touched))
    | inr left ↦
        rw left (rw there (by_id-update_where id p f r rows (rw there at found) hit same only))
  ]
]

pub found_id : (id : ℕ) (r : Row) (rows : List Row) → by_id id rows ≡ some r → (r.id == id) ≡ true
found_id id r [] found = absurd cc
found_id id r (s ∷ rows) found = elim (Bool-cases (s.id == id)) [
  | inl here ↦ subst (λ (x : Row). (x.id == id) ≡ true) (some-injective s r (rw here at found)) here
  | inr there ↦ found_id id r rows (rw there at found)
]

pub guarded : (a : Bool) {b : Bool} → a ≡ true → b ≡ true → a && b ≡ true
guarded a h k = rw h k

other_id : (a b k : ℕ) → (a == b) ≡ true → (b == k) ≡ false → (a == k) ≡ false
other_id a b k h other = ground arith

-- An update of the rows with an id leaves the others.
pub by_id-other :
    (id k : ℕ) (p : Row → Bool) (f : Row → Row) (rows : List Row)
    → (id == k) ≡ false
    → ((s : Row) → (f s).id ≡ s.id)
    → ((s : Row) → p s ≡ true → (s.id == id) ≡ true)
    → by_id k (update_where p f rows) ≡ by_id k rows
by_id-other id k p f [] other same only = refl
by_id-other id k p f (s ∷ rows) other same only = elim (Bool-cases (p s)) [
  | inl touched ↦
      let apart : (s.id == k) ≡ false = other_id s.id id k (only s touched) other in
      let still : ((f s).id == k) ≡ false = ap (λ x. x == k) (same s) ∙ apart in
      rw touched (rw still (rw apart (by_id-other id k p f rows other same only)))
  | inr left ↦
      rw left (
        ap (λ rest. if s.id == k then some s else rest) (by_id-other id k p f rows other same only))
]
