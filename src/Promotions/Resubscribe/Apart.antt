-- ===== src/Promotions/Resubscribe/Apart.antt =====
-- Jobs with different ids, and what storing one of them changes
-- (src/tiny_mirror/services/ml_resubscribe_service.py).
use tiny_mirror.Prelude.{
  ℕ, zero, suc, ◌≡◌, refl, ap, sym, subst, Bool, true, false, some, List, [], ◌∷◌, arith, All,
  All-take, All-imp, All-filter, take, filter, ◌==◌, nat_eq, if◌then◌else◌, Bool-cases, inl, inr,
}
use tiny_mirror.Sort.{sort, insert, All-sort, All-insert}
use tiny_mirror.Promotions.Resubscribe.{Job, get_job}
use tiny_mirror.Promotions.Resubscribe.Poll.{store_job}

abbrev pub Other : Job → Job → Type 0
Other j k = k.id == j.id ≡ false

-- No two jobs have the same id.
abbrev pub IsApart : List Job → Type 0
IsApart [] = Unit
IsApart (j ∷ jobs) = All (Other j) jobs × IsApart jobs

pub equal_ids : (a b : ℕ) → (a == b) ≡ true → a ≡ b
equal_ids a b h = ground arith

pub id_refl : (a : ℕ) → (a == a) ≡ true
id_refl a = ground arith

pub id_sym : (a b : ℕ) → (a == b) ≡ false → (b == a) ≡ false
id_sym a b h = ground arith

pub store_absent : (k : Job) (jobs : List Job) → All (Other k) jobs → store_job k jobs ≡ jobs
store_absent k [] h = refl
store_absent k (j ∷ jobs) h = rw h.0 (ap (λ rest. j ∷ rest) (store_absent k jobs h.1))

pub Other-id : (j k : Job) (jobs : List Job) → k.id ≡ j.id → All (Other j) jobs → All (Other k) jobs
Other-id j k jobs same h = All-imp jobs (λ l other. rw same other) h

pub store-All :
    (P : Job → Type 0) (k : Job) (jobs : List Job)
    → ((j : Job) → j.id ≡ k.id → P j → P k)
    → All P jobs
    → All P (store_job k jobs)
store-All P k [] f h = tt
store-All P k (j ∷ jobs) f h = elim (Bool-cases (j.id == k.id)) [
  | inl here ↦ rw here (f j (equal_ids j.id k.id here) h.0, store-All P k jobs f h.1)
  | inr there ↦ rw there (h.0, store-All P k jobs f h.1)
]

pub store-IsApart : (k : Job) (jobs : List Job) → IsApart jobs → IsApart (store_job k jobs)
store-IsApart k [] h = tt
store-IsApart k (j ∷ jobs) h =
    let rest = store-IsApart k jobs h.1 in
    let others = store-All (Other j) k jobs (λ l same other. rw⁻¹ same other) h.0 in
    elim (Bool-cases (j.id == k.id)) [
      | inl here ↦ rw here (Other-id j k _ (sym (equal_ids j.id k.id here)) others, rest)
      | inr there ↦ rw there (others, rest)
    ]

pub store-get :
    (id : ℕ) (k : Job) (jobs : List Job)
    → (k.id == id) ≡ false
    → get_job id (store_job k jobs) ≡ get_job id jobs
store-get id k [] other = refl
store-get id k (j ∷ jobs) other = elim (Bool-cases (j.id == k.id)) [
  | inl here ↦
      let gone : (j.id == id) ≡ false =
        subst (λ x. (x == id) ≡ false) (sym (equal_ids j.id k.id here)) other in
      rw here (rw other (rw gone (store-get id k jobs other)))
  | inr there ↦
      rw there (ap (λ rest. if j.id == id then some j else rest) (store-get id k jobs other))
]

-- The jobs that are due have different ids too.
pub insert-IsApart :
    (before : Job → Job → Bool) (j : Job) (jobs : List Job)
    → All (Other j) jobs
    → IsApart jobs
    → IsApart (insert before j jobs)
insert-IsApart before j [] other h = (tt, tt)
insert-IsApart before j (k ∷ jobs) other h = elim (Bool-cases (before j k)) [
  | inl first ↦ rw first (other, h)
  | inr later ↦ rw later (
    All-insert (Other k) before j jobs (id_sym k.id j.id other.0) h.0,
    insert-IsApart before j jobs other.1 h.1,
  )
]

pub sort-IsApart :
    (before : Job → Job → Bool) (jobs : List Job) → IsApart jobs → IsApart (sort before jobs)
unfolding sort
sort-IsApart before [] h = tt
sort-IsApart before (j ∷ jobs) h =
    insert-IsApart before j (sort before jobs) (All-sort (Other j) before jobs h.0)
      (sort-IsApart before jobs h.1)

pub filter-IsApart : (p : Job → Bool) (jobs : List Job) → IsApart jobs → IsApart (filter p jobs)
filter-IsApart p [] h = tt
filter-IsApart p (j ∷ jobs) h = elim (Bool-cases (p j)) [
  | inl kept ↦ rw kept (
    All-imp (filter p jobs) (λ k both. both.0) (All-filter (Other j) p jobs h.0),
    filter-IsApart p jobs h.1,
  )
  | inr left ↦ rw left (filter-IsApart p jobs h.1)
]

pub take-IsApart : (n : ℕ) (jobs : List Job) → IsApart jobs → IsApart (take n jobs)
take-IsApart zero jobs h = tt
take-IsApart (suc n) [] h = tt
take-IsApart (suc n) (j ∷ jobs) h = (All-take (Other j) n jobs h.0, take-IsApart n jobs h.1)
