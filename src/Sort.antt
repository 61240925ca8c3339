-- ===== src/Sort.antt =====
-- Python's `sorted` and SQL's `ORDER BY`: a stable sort by a Boolean comparison.
use native.Mathlib.Nat.{le_trans}
use mathlib.Core.List.{Perm}
use mathlib.Core.List.Perm
use tiny_mirror.Prelude.{
  ℕ, ◌≤◌, Bool, true, false, ◌&&◌, ◌||◌, ltb, ◌==◌, nat_eq, any, ap, ◌≡◌, ◌∙◌, refl, List, [], ◌∷◌,
  arith, inl, inr, leb, All, Bool-cases, if◌then◌else◌,
}

-- Python's order of texts, by their codes: whether the first goes before the second or equals it.
abbrev pub codes_before : List ℕ → List ℕ → Bool
codes_before [] ds = true
codes_before (c ∷ cs) [] = false
codes_before (c ∷ cs) (d ∷ ds) = ltb c d || (c == d && codes_before cs ds)

module _ {ℓ} {A : Type ℓ} where
  abbrev pub insert : (A → A → Bool) → A → List A → List A
  insert before x [] = x ∷ []
  insert before x (y ∷ ys) = if before x y then x ∷ y ∷ ys else y ∷ insert before x ys

  -- Each item goes before the first that it may precede, so equal items keep their order.
  unfoldable pub sort : (A → A → Bool) → List A → List A
  sort before [] = []
  sort before (x ∷ xs) = insert before x (sort before xs)

  -- `sorted(xs, key=key)`
  abbrev pub ascending : (A → ℕ) → A → A → Bool
  ascending key x y = leb (key x) (key y)

  -- `ORDER BY key DESC`
  abbrev pub descending : (A → ℕ) → A → A → Bool
  descending key x y = leb (key y) (key x)

  insert-perm : (before : A → A → Bool) (x : A) (xs : List A) → Perm (insert before x xs) (x ∷ xs)
  insert-perm before x [] = Perm.refl _
  insert-perm before x (y ∷ ys) = elim (Bool-cases (before x y)) [
    | inl first ↦ rw first (Perm.refl _)
    | inr later ↦ rw later (Perm.trans (Perm.cons y (insert-perm before x ys)) (Perm.swap x y ys))
  ]

  -- A sort returns the same items.
  pub sort-perm : (before : A → A → Bool) (xs : List A) → Perm (sort before xs) xs
  unfolding sort
  sort-perm before [] = Perm.refl _
  sort-perm before (x ∷ xs) =
      Perm.trans (insert-perm before x (sort before xs)) (Perm.cons x (sort-perm before xs))

  pub All-insert {κ} :
      (P : A → Type κ) (before : A → A → Bool) (x : A) (xs : List A)
      → P x
      → All P xs
      → All P (insert before x xs)
  All-insert P before x [] px h = (px, tt)
  All-insert P before x (y ∷ ys) px h = elim (Bool-cases (before x y)) [
    | inl first ↦ rw first (px, h)
    | inr later ↦ rw later (h.0, All-insert P before x ys px h.1)
  ]

  pub All-sort {κ} :
      (P : A → Type κ) (before : A → A → Bool) (xs : List A) → All P xs → All P (sort before xs)
  unfolding sort
  All-sort P before [] h = tt
  All-sort P before (x ∷ xs) h =
      All-insert P before x (sort before xs) h.0 (All-sort P before xs h.1)

  -- The keys rise along the list.
  abbrev pub IsSorted : (A → ℕ) → List A → Type 0
  IsSorted key [] = Unit
  IsSorted key (x ∷ xs) = All (λ y. key x ≤ key y) xs × IsSorted key xs

  All-weaken :
      (key : A → ℕ) {m n : ℕ} (xs : List A)
      → m ≤ n
      → All (λ y. n ≤ key y) xs
      → All (λ y. m ≤ key y) xs
  All-weaken key [] h a = tt
  All-weaken key (x ∷ xs) h a = (le_trans h a.0, All-weaken key xs h a.1)

  insert-IsSorted :
      (key : A → ℕ) (x : A) (xs : List A)
      → IsSorted key xs
      → IsSorted key (insert (ascending key) x xs)
  insert-IsSorted key x [] s = (tt, tt)
  insert-IsSorted key x (y ∷ ys) s = elim (Bool-cases (leb (key x) (key y))) [
    | inl first ↦
        let lower : key x ≤ key y = ground arith in
        rw first ((lower, All-weaken key ys lower s.0), s)
    | inr later ↦ rw later (
      All-insert (λ z. key y ≤ key z) (ascending key) x ys (ground arith) s.0,
      insert-IsSorted key x ys s.1,
    )
  ]

  pub sort-IsSorted : (key : A → ℕ) (xs : List A) → IsSorted key (sort (ascending key) xs)
  unfolding sort
  sort-IsSorted key [] = tt
  sort-IsSorted key (x ∷ xs) =
      insert-IsSorted key x (sort (ascending key) xs) (sort-IsSorted key xs)

or_swap : (a b c : Bool) → a || (b || c) ≡ b || (a || c)
or_swap a b c = ground arith

module _ {ℓ} {A : Type ℓ} (p : A → Bool) (before : A → A → Bool) where
  any-insert : (x : A) (xs : List A) → any p (insert before x xs) ≡ p x || any p xs
  any-insert x [] = refl
  any-insert x (y ∷ ys) = elim (Bool-cases (before x y)) [
    | inl first ↦ rw first refl
    | inr later ↦ rw later (ap (λ r. p y || r) (any-insert x ys) ∙ or_swap (p y) (p x) (any p ys))
  ]

  -- A sort keeps the members.
  pub any-sort : (xs : List A) → any p (sort before xs) ≡ any p xs
  unfolding sort
  any-sort [] = refl
  any-sort (x ∷ xs) = any-insert x (sort before xs) ∙ ap (λ r. p x || r) (any-sort xs)
