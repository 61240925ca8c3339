-- ===== src/Promotions/Write/Bounds.antt =====
-- How many requests one change makes and how long it sleeps (src/tiny_mirror/services/ml_promotion_service.py,
-- `_ml_write`).
use mathlib.Core.Option.{some-injective}
use tiny_mirror.Prelude.{
  ap, subst, ℕ, zero, suc, ◌+◌, ◌*◌, ◌≤◌, ◌≡◌, String, true, Option, none, some, ℤ, pos, negsuc,
  arith, ◌==◌, nat_eq, string_eq, Bool-cases, inl, inr,
}
use tiny_mirror.Promotions.Write.{
  WriteAnswer, Sending, is_transient, within_half_minute, half_minute_of, or_backoff, backoff,
  retry_after_seconds, delay_of, rate_retry, after_unauthorized, after_first, ml_send,
}

within_half_minute_le : (x : ℤ) → within_half_minute x ≤ 30_000
within_half_minute_le (pos n) = ground arith
within_half_minute_le (negsuc n) = omega arith

backoff_le : (k : ℕ) → k ≤ 2 → backoff k ≤ 30_000
backoff_le zero h = omega arith
backoff_le (suc zero) h = omega arith
backoff_le (suc (suc zero)) h = omega arith
backoff_le (suc (suc (suc k))) h = absurd (omega arith)

abbrev IsShort : Option ℕ → Type 0
IsShort none = Unit
IsShort (some delay) = delay ≤ 30_000

module _ (to_float : String → Option ℤ) where
  half_minute-IsShort : (o : Option ℤ) → IsShort (half_minute_of to_float o)
  half_minute-IsShort none = tt
  half_minute-IsShort (some x) = within_half_minute_le x

  header-IsShort : (o : Option String) → IsShort (retry_after_seconds to_float o)
  unfolding retry_after_seconds
  header-IsShort none = tt
  header-IsShort (some raw) = elim (Bool-cases (raw == "")) [
    | inl empty ↦ rw empty tt
    | inr given ↦ rw given (half_minute-IsShort (to_float raw))
  ]

  or_backoff_le : (k : ℕ) (o : Option ℕ) → k ≤ 2 → IsShort o → or_backoff to_float k o ≤ 30_000
  or_backoff_le k none h short = backoff_le k h
  or_backoff_le k (some delay) h short = short

  delay_of_le : (k : ℕ) (a : WriteAnswer) → k ≤ 2 → delay_of to_float k a ≤ 30_000
  unfolding delay_of
  delay_of_le k a h = or_backoff_le k _ h (header-IsShort a.retry_after)

  -- From so many requests and so much sleep on: at most one request for each retry that is left, and
  -- all of them where the last answer is transient.
  record IsWithin (left sends slept : ℕ) (r : Sending) : Type 0 where
    sends_le : r.sends ≤ sends + left
    slept_le : r.slept ≤ slept + 30_000 * left
    all_used :
        (a : WriteAnswer)
        → r.answer ≡ some a
        → is_transient a.status_code ≡ true
        → r.sends ≡ sends + left

  module _ (send : ℕ → String → Option WriteAnswer) where
    rate_retry-IsWithin :
        (left k : ℕ) (token : String) (answer : Option WriteAnswer) (sends slept : ℕ)
        → k + left ≤ 3
        → IsWithin left sends slept (rate_retry to_float send left k token answer sends slept)
    unfolding rate_retry
    rate_retry-IsWithin zero k token answer sends slept h = record {
      sends_le = omega arith;
      slept_le = omega arith;
      all_used = λ a last bad. omega arith;
    }
    rate_retry-IsWithin (suc left) k token none sends slept h = record {
      sends_le = omega arith;
      slept_le = omega arith;
      all_used = λ a last bad. cc;
    }
    rate_retry-IsWithin (suc left) k token (some a) sends slept h =
        elim (Bool-cases (is_transient a.status_code)) [
          | inl bad ↦
              let short = delay_of_le k a (omega arith) in
              let next =
                rate_retry-IsWithin left (suc k) token (send sends token) (suc sends)
                  (slept + delay_of to_float k a) (omega arith) in
              rw bad (record {
                sends_le = omega (arith, next.sends_le);
                slept_le = omega (arith, next.slept_le);
                all_used = λ b last worse. omega (arith, next.all_used b last worse);
              })
          | inr fine ↦ rw fine (record {
            sends_le = omega arith;
            slept_le = omega arith;
            all_used = λ b last bad.
                let same =
                  ap (λ (x : WriteAnswer). is_transient x.status_code) (some-injective a b last) in
                cc;
          })
        ]

    record IsFinal (r : Sending) : Type 0 where
      sends_le : r.sends ≤ 5
      slept_le : r.slept ≤ 90_000
      retried :
          (a : WriteAnswer) → r.answer ≡ some a → is_transient a.status_code ≡ true → 4 ≤ r.sends

    IsWithin-IsFinal :
        (sends : ℕ) (r : Sending) → 1 ≤ sends → sends ≤ 2 → IsWithin 3 sends 0 r → IsFinal r
    IsWithin-IsFinal sends r low high h = record {
      sends_le = omega (arith, h.sends_le);
      slept_le = omega (arith, h.slept_le);
      retried = λ a last bad. omega (arith, h.all_used a last bad);
    }

    after_unauthorized-IsFinal :
        (refreshed : Option String) (r : Sending)
        → after_unauthorized to_float send refreshed ≡ some r
        → IsFinal r
    unfolding after_unauthorized
    after_unauthorized-IsFinal none r e = absurd cc
    after_unauthorized-IsFinal (some fresh) r e = subst IsFinal (some-injective _ r e) (
        IsWithin-IsFinal 2 _ (omega arith) (omega arith)
          (rate_retry-IsWithin 3 0 fresh (send 1 fresh) 2 0 (omega arith)))

    after_first-IsFinal :
        (refreshed : Option String) (token : String) (answer : Option WriteAnswer) (r : Sending)
        → after_first to_float send refreshed token answer ≡ some r
        → IsFinal r
    unfolding after_first
    after_first-IsFinal refreshed token none r e = subst IsFinal (some-injective _ r e) (record {
      sends_le = omega arith;
      slept_le = omega arith;
      retried = λ a last bad. absurd cc;
    })
    after_first-IsFinal refreshed token (some a) r e = elim (Bool-cases (a.status_code == 401)) [
      | inl unauthorized ↦ after_unauthorized-IsFinal refreshed r (rw unauthorized at e)
      | inr known ↦ subst IsFinal (some-injective _ r (rw known at e)) (
          IsWithin-IsFinal 1 _ (omega arith) (omega arith)
            (rate_retry-IsWithin 3 0 token (some a) 1 0 (omega arith)))
    ]

    -- However Mercado Livre answers, a change makes at most five requests and sleeps at most 90
    -- seconds, and it ends with an answer that is worth a retry only after at least four requests.
    pub ml_send_within :
        (token refreshed : Option String) (r : Sending)
        → ml_send to_float send token refreshed ≡ some r
        → (r.sends ≤ 5)
          × (r.slept ≤ 90_000)
          × ((a : WriteAnswer)
              → r.answer ≡ some a
              → is_transient a.status_code ≡ true
              → 4 ≤ r.sends)
    unfolding ml_send
    ml_send_within none refreshed r e = absurd cc
    ml_send_within (some token) refreshed r e =
        let final = after_first-IsFinal refreshed token (send 0 token) r e in
        (final.sends_le, final.slept_le, final.retried)
