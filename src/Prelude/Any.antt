-- ===== src/Prelude/Any.antt =====
-- Comprehensions over several lists, and the test of whether any member passes: two lists of which
-- the same tests hold have the same members.
use mathlib.Core.Path.{◌≡◌, refl, ap, ◌∙◌, sym, subst}
use mathlib.Core.Bool.{Bool, true, false, ◌&&◌, ◌||◌}
use mathlib.Core.List.{map, List, [], ◌∷◌, ◌++◌}
use mathlib.Core.Logic.{inl, inr}
use native.Mathlib.Omega.{arith}
use tiny_mirror.Prelude.Tests.{if◌then◌else◌, Bool-cases, Comparable, ◌==◌}
use tiny_mirror.Prelude.Lists.{any, filter, All}

module _ {ℓ κ} {A : Type ℓ} {B : Type κ} where
  -- `[y for x in xs for y in f(x)]`
  abbrev pub flat_map : (A → List B) → List A → List B
  flat_map f [] = []
  flat_map f (x ∷ xs) = f x ++ flat_map f xs

-- A set, as the list of its members.
abbrev pub distinct {ℓ} : {A : Type ℓ} ⦃c : Comparable A⦄ → List A → List A
distinct [] = []
distinct (x ∷ xs) = let rest = distinct xs in if any (λ y. y == x) rest then rest else x ∷ rest

or_assoc : (a b c : Bool) → (a || b) || c ≡ a || (b || c)
or_assoc a b c = ground arith

idem : (a b : Bool) → a || b ≡ a || (a || b)
idem a b = ground arith

module _ {ℓ} {A : Type ℓ} where
  pub any-append : (p : A → Bool) (xs ys : List A) → any p (xs ++ ys) ≡ any p xs || any p ys
  any-append p [] ys = refl
  any-append p (x ∷ xs) ys =
      ap (λ r. p x || r) (any-append p xs ys) ∙ sym (or_assoc (p x) (any p xs) (any p ys))

  pub any-filter : (p q : A → Bool) (xs : List A) → any p (filter q xs) ≡ any (λ x. q x && p x) xs
  any-filter p q [] = refl
  any-filter p q (x ∷ xs) = elim (Bool-cases (q x)) [
    | inl kept ↦ rw kept (ap (λ r. p x || r) (any-filter p q xs))
    | inr left ↦ rw left (any-filter p q xs)
  ]

  pub any-cong : (p q : A → Bool) (xs : List A) → All (λ x. p x ≡ q x) xs → any p xs ≡ any q xs
  any-cong p q [] h = refl
  any-cong p q (x ∷ xs) h = ap (λ r. r || any p xs) h.0 ∙ ap (λ r. q x || r) (any-cong p q xs h.1)

  pub any-ext : (p q : A → Bool) (xs : List A) → ((x : A) → p x ≡ q x) → any p xs ≡ any q xs
  any-ext p q [] h = refl
  any-ext p q (x ∷ xs) h = ap (λ r. r || any p xs) (h x) ∙ ap (λ r. q x || r) (any-ext p q xs h)

  pub any-none : (p : A → Bool) (xs : List A) → All (λ x. p x ≡ false) xs → any p xs ≡ false
  any-none p [] h = refl
  any-none p (x ∷ xs) h = rw h.0 (any-none p xs h.1)

  -- A test that goes with a fixed one.
  pub any_and : (b : Bool) (p : A → Bool) (xs : List A) → any (λ x. b && p x) xs ≡ b && any p xs
  any_and true p xs = refl
  any_and false p xs = any-false xs
    where
      any-false : (ys : List A) → any (λ y. false) ys ≡ false
      any-false [] = refl
      any-false (y ∷ ys) = any-false ys

  any_or : (p q : A → Bool) (xs : List A) → any (λ x. p x || q x) xs ≡ any p xs || any q xs
  any_or p q [] = refl
  any_or p q (x ∷ xs) = ground (arith, any_or p q xs)

module _ {ℓ κ} {A : Type ℓ} {B : Type κ} where
  pub any-flat_map :
      (p : B → Bool) (f : A → List B) (xs : List A)
      → any p (flat_map f xs) ≡ any (λ x. any p (f x)) xs
  any-flat_map p f [] = refl
  any-flat_map p f (x ∷ xs) =
      any-append p (f x) (flat_map f xs) ∙ ap (λ r. any p (f x) || r) (any-flat_map p f xs)

  pub any-map : (p : B → Bool) (f : A → B) (xs : List A) → any p (map f xs) ≡ any (λ x. p (f x)) xs
  any-map p f [] = refl
  any-map p f (x ∷ xs) = ap (λ r. p (f x) || r) (any-map p f xs)

  -- Two lists are searched in either order.
  pub any-swap :
      (r : A → B → Bool) (xs : List A) (ys : List B)
      → any (λ x. any (r x) ys) xs ≡ any (λ y. any (λ x. r x y) xs) ys
  any-swap r [] ys = sym (any-none _ ys (nothing ys))
    where
      nothing : (zs : List B) → All (λ z. false ≡ false) zs
      nothing [] = tt
      nothing (z ∷ zs) = (refl, nothing zs)
  any-swap r (x ∷ xs) ys =
      ap (λ b. any (r x) ys || b) (any-swap r xs ys)
      ∙ sym (any_or (r x) (λ y. any (λ z. r z y) xs) ys)

member_or {ℓ} :
    {A : Type ℓ} ⦃c : Comparable A⦄ (p : A → Bool) (x : A) (xs : List A)
    → ((y z : A) → (y == z) ≡ true → y ≡ z)
    → any (λ y. y == x) xs ≡ true
    → any p xs ≡ p x || any p xs
member_or p x [] same h = cc
member_or p x (y ∷ ys) same h = elim (Bool-cases (y == x)) [
  | inl here ↦
      subst (λ z. p y || any p ys ≡ p z || (p y || any p ys)) (same y x here) (idem (p y) _)
  | inr there ↦
      let later : any (λ z. z == x) ys ≡ true = ground arith in
      ground (arith, member_or p x ys same later)
]

-- Where equal values are told equal, a set has the members of the list.
pub any-distinct {ℓ} :
    {A : Type ℓ} ⦃c : Comparable A⦄ (p : A → Bool) (xs : List A)
    → ((x y : A) → (x == y) ≡ true → x ≡ y)
    → any p (distinct xs) ≡ any p xs
any-distinct p [] same = refl
any-distinct p (x ∷ xs) same = elim (Bool-cases (any (λ y. y == x) (distinct xs))) [
  | inl seen ↦
      rw seen (member_or p x (distinct xs) same seen ∙ ap (λ r. p x || r) (any-distinct p xs same))
  | inr new ↦ rw new (ap (λ r. p x || r) (any-distinct p xs same))
]
