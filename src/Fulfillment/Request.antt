-- ===== src/Fulfillment/Request.antt =====
-- A request to Tiny (src/tiny_mirror/infrastructure/external/tiny_client.py, `_request`): what comes
-- back, and when the request is sent again. The sleeps in between are left out.
use tiny_mirror.Prelude.{
  ℕ, zero, suc, Bool, true, false, ◌&&◌, ◌||◌, leb, ltb, ◌==◌, nat_eq, if◌then◌else◌,
}

-- What the client meets: `broken` is whatever else raises, in the rate limiter, the token service or
-- the HTTP client.
pub data Seen : Type 0 where
  timed_out network_error broken : Seen
  answered : (code : ℕ) (is_json : Bool) → Seen

pub data Verdict : Type 0 where
  returns raises retries unauthorized : Verdict

abbrev pub max_retries : ℕ
max_retries = 5

abbrev pub is_transient_code : ℕ → Bool
is_transient_code code =
    code == 400
    || (code == 408
        || (code == 425 || (code == 500 || (code == 502 || (code == 503 || code == 504)))))

abbrev pub verdict_of_code : ℕ → Bool → Verdict
verdict_of_code code is_json =
    if leb 200 code && ltb code 300
    then (if is_json then returns else raises)
    else if code == 401
    then unauthorized
    else if code == 404
    then raises
    else if code == 429 || is_transient_code code
    then retries
    else raises

abbrev pub verdict_of : Seen → Verdict
verdict_of timed_out = retries
verdict_of network_error = retries
verdict_of broken = raises
verdict_of (answered code is_json) = verdict_of_code code is_json

-- `send` is the request of that number, which may change the state of Tiny. The test says whether the
-- call returns; `refresh_ok` whether `handle_unauthorized` does.
module _ {S : Type 0} (send : ℕ → S → Seen × S) (refresh_ok : Bool) where
  abbrev pub concluded : Verdict → S → Bool × S → Bool × S → Bool × S
  concluded returns s again fresh = (true, s)
  concluded raises s again fresh = (false, s)
  concluded retries s again fresh = again
  concluded unauthorized s again fresh = fresh

  -- After the token has been refreshed, with the retries that are left.
  unfoldable pub request_refreshed : ℕ → ℕ → S → Bool × S
  request_refreshed zero n s =
      let (seen, s') = send n s in concluded (verdict_of seen) s' (false, s') (false, s')
  request_refreshed (suc left) n s =
      let (seen, s') = send n s in
      concluded (verdict_of seen) s' (request_refreshed left (suc n) s') (false, s')

  abbrev pub refreshed_request : ℕ → ℕ → S → Bool × S
  refreshed_request left n s = if refresh_ok then request_refreshed left n s else (false, s)

  unfoldable pub request : ℕ → ℕ → S → Bool × S
  unfolding request_refreshed
  request zero n s =
      let (seen, s') = send n s in
      concluded (verdict_of seen) s' (false, s') (refreshed_request zero (suc n) s')
  request (suc left) n s =
      let (seen, s') = send n s in
      concluded (verdict_of seen) s' (request left (suc n) s')
        (refreshed_request (suc left) (suc n) s')
