-- ===== src/RateLimiter.antt =====
-- src/tiny_mirror/infrastructure/external/rate_limiter.py: the budget of requests that Tiny reports,
-- shared by the workers in two keys of Redis.
pub mod Waking
use tiny_mirror.Prelude.{
  String, Bool, true, false, Option, none, some, List, [], ◌∷◌, ℤ, pos, ◌+ℤ◌, ◌-ℤ◌, ◌*ℤ◌, ltb_ℤ,
  leb_ℤ, ◌==◌, string_eq, if◌then◌else◌,
}
use tiny_mirror.Fulfillment.Event.{◌>>=◌}

abbrev pub rate_limit_safe_threshold : ℤ
rate_limit_safe_threshold = pos 5

-- The two keys, none where one is not set or has expired.
pub record Limits : Type 0 where
  pub remaining : Option String
  pub reset_at : Option String

unfoldable pub header : String → List (String × String) → Option String
header key [] = none
header key ((k, v) ∷ headers) = let rest = header key headers in if k == key then some v else rest

-- `a or b`
abbrev pub or_text : Option String → Option String → Option String
or_text none other = other
or_text (some text) other = if text == "" then other else some text

unfoldable pub remaining_of : List (String × String) → Option String
unfolding header
remaining_of headers =
    or_text (header "X-RateLimit-Remaining" headers) (header "x-ratelimit-remaining" headers)

unfoldable pub reset_in_of : List (String × String) → Option String
unfolding header
reset_in_of headers =
    or_text (header "X-RateLimit-Reset" headers) (header "x-ratelimit-reset" headers)

-- Moments and waits are whole milliseconds. The wait ends a tenth of a second after the reset, plus the
-- jitter.
unfoldable pub sleep_until : ℤ → ℤ → ℤ → Option ℤ
sleep_until reset_at now jitter =
    let seconds_to_wait = reset_at -ℤ now in
    if leb_ℤ seconds_to_wait (pos 0) then none else some (seconds_to_wait +ℤ pos 100 +ℤ jitter)

-- `int` and `float` of a text, none where they raise, and the text of a moment.
module _ (to_int to_moment : String → Option ℤ) (text_of : ℤ → String) where
  -- How long the caller sleeps, none where it goes on at once.
  unfoldable pub wait_if_needed : Limits → ℤ → ℤ → Option ℤ
  unfolding sleep_until
  wait_if_needed limits now jitter = do
    remaining_raw ← limits.remaining
    remaining ← to_int remaining_raw
    reset_at_raw ← if ltb_ℤ rate_limit_safe_threshold remaining then none else limits.reset_at
    reset_at ← to_moment reset_at_raw
    sleep_until reset_at now jitter

  abbrev pub stored : Limits → ℤ → Option String → Option String → Option ℤ → Limits
  stored limits now (some remaining) (some reset_in) (some seconds) = record {
    remaining = some remaining;
    reset_at = some (text_of (now +ℤ seconds *ℤ pos 1000));
  }
  stored limits now _ _ _ = limits

  abbrev pub seconds_of : Option String → Option ℤ
  seconds_of none = none
  seconds_of (some text) = to_int text

  unfoldable pub update_from_headers : ℤ → List (String × String) → Limits → Limits
  unfolding remaining_of reset_in_of
  update_from_headers now headers limits =
      stored limits now (remaining_of headers) (reset_in_of headers)
        (seconds_of (reset_in_of headers))
