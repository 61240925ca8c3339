-- ===== src/Fulfillment/Send/Copies.antt =====
-- How often a movement is recorded that the client posts (`record_stock_movement` and `_request` of
-- src/tiny_mirror/infrastructure/external/tiny_client.py).
use native.Mathlib.Nat.{zero-add, suc-add}
use tiny_mirror.Prelude.{
  ℕ, zero, suc, ◌+◌, ◌≤◌, ◌≡◌, refl, ap, sym, ◌∙◌, Bool, true, false, List, [], ◌∷◌, ◌++◌, arith,
  if◌then◌else◌, Bool-cases, inl, inr,
}
use tiny_mirror.Fulfillment.Request.{
  Seen, Verdict, returns, raises, retries, unauthorized, verdict_of, concluded, request_refreshed,
  refreshed_request, request,
}
use tiny_mirror.Fulfillment.Send.{Movement, Exchange}

-- The same movement, so many times.
abbrev pub copies : ℕ → Movement → List Movement
copies zero mv = []
copies (suc n) mv = mv ∷ copies n mv

pub append_assoc : {A : Type 0} (xs ys zs : List A) → (xs ++ ys) ++ zs ≡ xs ++ (ys ++ zs)
append_assoc [] ys zs = refl
append_assoc (x ∷ xs) ys zs = ap (λ r. x ∷ r) (append_assoc xs ys zs)

pub append_nil : {A : Type 0} (xs : List A) → xs ++ [] ≡ xs
append_nil [] = refl
append_nil (x ∷ xs) = ap (λ r. x ∷ r) (append_nil xs)

copies_add : (m n : ℕ) (mv : Movement) → copies m mv ++ copies n mv ≡ copies (m + n) mv
copies_add zero n mv = sym (ap (λ k. copies k mv) (zero-add n))
copies_add (suc m) n mv =
    ap (λ r. mv ∷ r) (copies_add m n mv) ∙ sym (ap (λ k. copies k mv) (suc-add m n))

-- From the movements before to the end of a call: a bounded number of copies, and one at least where
-- the call returns.
pub record IsCopied (mv : Movement) (bound : ℕ) (before : List Movement)
    (end : Bool × List Movement) : Type 0 where
  pub count : ℕ
  pub count_le : count ≤ bound
  pub moved : end.1 ≡ before ++ copies count mv
  pub returned : end.0 ≡ true → 1 ≤ count

-- Tiny has recorded a movement whose request it answers by success.
abbrev pub IsHonest : (List Movement → Movement → ℕ → Exchange) → Type 0
IsHonest exchange =
    (before : List Movement) (mv : Movement) (n : ℕ)
    → verdict_of (exchange before mv n).seen ≡ returns
    → (exchange before mv n).recorded ≡ true

stopped : (mv : Movement) (bound : ℕ) (s : List Movement) → IsCopied mv bound s (false, s)
stopped mv bound s = record {
  count = 0;
  count_le = omega arith;
  moved = sym (append_nil s);
  returned = λ e. absurd cc;
}

-- One request, and what follows it.
module _ (exchange : List Movement → Movement → ℕ → Exchange) (honest : IsHonest exchange)
    (mv : Movement) where
  abbrev sending : ℕ → List Movement → Seen × List Movement
  sending n before =
      let x = exchange before mv n in (x.seen, if x.recorded then before ++ mv ∷ [] else before)

  record IsOnce (s : List Movement) (end : Seen × List Movement) : Type 0 where
    count : ℕ
    count_le : count ≤ 1
    moved : end.1 ≡ s ++ copies count mv
    returned : verdict_of end.0 ≡ returns → 1 ≤ count

  sending-IsOnce : (n : ℕ) (s : List Movement) → IsOnce s (sending n s)
  sending-IsOnce n s = elim (Bool-cases (exchange s mv n).recorded) [
    | inl counted ↦
        rw counted
          (record { count = 1; count_le = omega arith; moved = refl; returned = λ e. omega arith })
    | inr lost ↦ rw lost (record {
      count = 0;
      count_le = omega arith;
      moved = sym (append_nil s);
      returned = λ e. absurd (cc (honest s mv n e));
    })
  ]

  -- What follows a request adds its own copies.
  added :
      (bound : ℕ) (s : List Movement) (first : Seen × List Movement) (end : Bool × List Movement)
      → IsOnce s first
      → IsCopied mv bound first.1 end
      → IsCopied mv (suc bound) s end
  added bound s first end h k = record {
    count = h.count + k.count;
    count_le = omega (arith, h.count_le, k.count_le);
    moved =
        k.moved
        ∙ ap (λ r. r ++ copies k.count mv) h.moved
        ∙ append_assoc s (copies h.count mv) (copies k.count mv)
        ∙ ap (λ r. s ++ r) (copies_add h.count k.count mv);
    returned = λ e. omega (arith, k.returned e);
  }

  ended :
      (bound : ℕ) (s : List Movement) (b : Bool) (first : Seen × List Movement)
      → (b ≡ true → verdict_of first.0 ≡ returns)
      → IsOnce s first
      → IsCopied mv (suc bound) s (b, first.1)
  ended bound s b first why h = record {
    count = h.count;
    count_le = omega (arith, h.count_le);
    moved = h.moved;
    returned = λ e. h.returned (why e);
  }

  concluded-IsCopied :
      (bound : ℕ) (s : List Movement) (first : Seen × List Movement) (v : Verdict)
      (again fresh : Bool × List Movement)
      → verdict_of first.0 ≡ v
      → IsOnce s first
      → IsCopied mv bound first.1 again
      → IsCopied mv bound first.1 fresh
      → IsCopied mv (suc bound) s (concluded sending true v first.1 again fresh)
  concluded-IsCopied bound s first returns again fresh e h k l = ended bound s true first (λ t. e) h
  concluded-IsCopied bound s first raises again fresh e h k l =
      ended bound s false first (λ t. absurd cc) h
  concluded-IsCopied bound s first retries again fresh e h k l = added bound s first again h k
  concluded-IsCopied bound s first unauthorized again fresh e h k l = added bound s first fresh h l

  module _ (refresh_ok : Bool) where
    refreshed-IsCopied :
        (left n : ℕ) (s : List Movement)
        → IsCopied mv (suc left) s (request_refreshed sending refresh_ok left n s)
    unfolding request_refreshed
    refreshed-IsCopied zero n s =
        concluded-IsCopied 0 s (sending n s) (verdict_of (sending n s).0) _ _ refl
          (sending-IsOnce n s) (stopped mv 0 _) (stopped mv 0 _)
    refreshed-IsCopied (suc left) n s =
        concluded-IsCopied (suc left) s (sending n s) (verdict_of (sending n s).0) _ _ refl
          (sending-IsOnce n s) (refreshed-IsCopied left (suc n) (sending n s).1) (stopped mv _ _)

    fresh-IsCopied :
        (left n : ℕ) (s : List Movement)
        → IsCopied mv (suc left) s (refreshed_request sending refresh_ok left n s)
    fresh-IsCopied left n s = elim (Bool-cases refresh_ok) [
      | inl fine ↦ rw fine (rw fine at (refreshed-IsCopied left n s))
      | inr broken ↦ rw broken (stopped mv _ s)
    ]

    pub request-IsCopied :
        (left n : ℕ) (s : List Movement)
        → IsCopied mv (suc (suc left)) s (request sending refresh_ok left n s)
    unfolding request
    request-IsCopied zero n s =
        concluded-IsCopied 1 s (sending n s) (verdict_of (sending n s).0) _ _ refl
          (sending-IsOnce n s) (stopped mv 1 _) (fresh-IsCopied zero (suc n) _)
    request-IsCopied (suc left) n s =
        concluded-IsCopied (suc (suc left)) s (sending n s) (verdict_of (sending n s).0) _ _ refl
          (sending-IsOnce n s) (request-IsCopied left (suc n) _)
          (fresh-IsCopied (suc left) (suc n) _)
