-- ===== src/RateLimiter/Waking.antt =====
-- When a caller that waits for the budget wakes up.
use tiny_mirror.Prelude.{
  ◌≡◌, String, Option, none, some, List, ℤ, pos, ◌+ℤ◌, ◌-ℤ◌, ◌*ℤ◌, ◌≤ℤ◌, ◌<ℤ◌, ltb_ℤ, leb_ℤ,
  int_laws, eq_of_parts, leb→le, ltb→lt, arith, ◌⊎◌, inl, inr, Bool-cases,
}
use tiny_mirror.RateLimiter.{
  Limits, rate_limit_safe_threshold, remaining_of, reset_in_of, sleep_until, wait_if_needed,
  update_from_headers,
}

-- A wait, if there is one, ends a tenth of a second and the jitter after the reset.
abbrev pub Wakes : ℤ → ℤ → ℤ → ℤ → Option ℤ → Type 0
Wakes remaining reset_at now jitter none =
    (rate_limit_safe_threshold <ℤ remaining) ⊎ (reset_at ≤ℤ now)
Wakes remaining reset_at now jitter (some wait) =
    (remaining ≤ℤ rate_limit_safe_threshold) × (reset_at +ℤ pos 100 +ℤ jitter ≡ now +ℤ wait)

sleep_until-Wakes :
    (remaining reset_at now jitter : ℤ)
    → remaining ≤ℤ rate_limit_safe_threshold
    → Wakes remaining reset_at now jitter (sleep_until reset_at now jitter)
unfolding sleep_until
sleep_until-Wakes remaining reset_at now jitter low =
    elim (Bool-cases (leb_ℤ (reset_at -ℤ now) (pos 0))) [
      | inl past ↦ rw past (inr (omega (int_laws, leb→le _ _ past)))
      | inr ahead ↦ rw ahead (low, eq_of_parts _ _ (omega int_laws))
    ]

module _ (to_int to_moment : String → Option ℤ) (text_of : ℤ → String) where
  -- After an answer whose headers can be read and whose moment of reset reads back as it was written:
  -- a call sleeps only where at most five requests remain, and then wakes up a tenth of a second and
  -- the jitter after the reset. It goes on at once only where more remain or the reset is past.
  pub wait-update :
      (headers : List (String × String)) (limits : Limits) (r s : String)
      (remaining seconds answered now jitter : ℤ)
      → remaining_of headers ≡ some r
      → to_int r ≡ some remaining
      → reset_in_of headers ≡ some s
      → to_int s ≡ some seconds
      → to_moment (text_of (answered +ℤ seconds *ℤ pos 1000))
        ≡ some (answered +ℤ seconds *ℤ pos 1000)
      → Wakes remaining (answered +ℤ seconds *ℤ pos 1000) now jitter (
          wait_if_needed to_int to_moment text_of
            (update_from_headers to_int to_moment text_of answered headers limits)
            now
            jitter)
  unfolding wait_if_needed update_from_headers
  wait-update headers limits r s remaining seconds answered now jitter hr hn hs hk back = rw hr (
      rw hs (
        rw hk (
          rw hn (elim (Bool-cases (ltb_ℤ rate_limit_safe_threshold remaining)) [
            | inl high ↦ rw high (inl (ltb→lt _ _ high))
            | inr low ↦ rw low (rw back (sleep_until-Wakes remaining _ now jitter (ground arith)))
          ]))))
