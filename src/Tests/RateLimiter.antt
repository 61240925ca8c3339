-- ===== src/Tests/RateLimiter.antt =====
-- The limiter of src/tiny_mirror/infrastructure/external/rate_limiter.py at concrete inputs.
use tiny_mirror.Prelude.{
  ◌≡◌, refl, String, Option, none, some, List, [], ◌∷◌, ℤ, pos, ◌==◌, string_eq, if◌then◌else◌,
  ◌+ℤ◌, ◌*ℤ◌, ◌-ℤ◌,
}
use tiny_mirror.RateLimiter.{
  Limits, header, remaining_of, reset_in_of, sleep_until, wait_if_needed, update_from_headers,
}
use tiny_mirror.RateLimiter.Waking.{Wakes, wait-update}

abbrev numeral : String → Option ℤ
numeral text = if text == "3" then some (pos 3) else if text == "30" then some (pos 30) else none

-- Three requests remain; the window ends thirty seconds after the answer.
abbrev low_budget : List (String × String)
low_budget = ("x-ratelimit-remaining", "3") ∷ ("x-ratelimit-reset", "30") ∷ []

abbrev unknown : Limits
unknown = record { remaining = none; reset_at = none }

abbrev moment : String → Option ℤ
moment text = if text == "31.000" then some (pos 31000) else none

abbrev text_of_moment : ℤ → String
text_of_moment z = "31.000"

wait-update_example : Wakes (pos 3) (pos 31000) (pos 20000) (pos 400) (
    wait_if_needed numeral moment text_of_moment
      (update_from_headers numeral moment text_of_moment (pos 1000) low_budget unknown)
      (pos 20000)
      (pos 400))
unfolding ◌+ℤ◌ ◌*ℤ◌ remaining_of reset_in_of header
wait-update_example =
    wait-update numeral moment text_of_moment low_budget unknown "3" "30" (pos 3) (pos 30)
      (pos 1000) (pos 20000) (pos 400) refl refl refl refl refl

-- Eleven seconds to go, and half a second more.
sleeps :
    wait_if_needed numeral moment text_of_moment
      (update_from_headers numeral moment text_of_moment (pos 1000) low_budget unknown)
      (pos 20000)
      (pos 400)
    ≡ some (pos 11500)
unfolding ◌+ℤ◌ ◌*ℤ◌ ◌-ℤ◌ remaining_of reset_in_of header sleep_until wait_if_needed
    update_from_headers
sleeps = refl

-- The name in capitals comes first, unless it is empty.
second_name : remaining_of (("X-RateLimit-Remaining", "") ∷ low_budget) ≡ some "3"
unfolding remaining_of header
second_name = refl
