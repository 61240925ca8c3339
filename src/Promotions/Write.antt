-- ===== src/Promotions/Write.antt =====
-- The calls of Mercado Livre's promotions in src/tiny_mirror/services/ml_promotion_service.py: the
-- one that lists them, `_ml_write`, through which every change goes, and the two that enrol a listing.
-- The HTTP client is a parameter. Amounts are whole cents, delays whole milliseconds.
pub mod Bounds
use tiny_mirror.Prelude.{
  ℕ, zero, suc, ◌+◌, ◌*◌, String, Bool, true, false, ◌||◌, Option, none, some, List, [], ℤ, pos,
  negsuc, leb, ◌==◌, nat_eq, string_eq, if◌then◌else◌,
}
use tiny_mirror.Promotions.{Offer}

-- An answer to the list of promotions. `json` is none where the body is no JSON, and some none where it
-- is something other than a list.
pub record Listed : Type 0 where
  pub status_code : ℕ
  pub json : Option (Option (List Offer))

abbrev pub list_or_empty : Option (List Offer) → List Offer
list_or_empty none = []
list_or_empty (some promos) = promos

abbrev pub is_failure : ℕ → Bool
is_failure code = leb 400 code

abbrev pub read_list : Option (Option (List Offer)) → Option (List Offer)
read_list none = none
read_list (some body) = some (list_or_empty body)

-- What the last answer says; none where the call raises.
abbrev pub listed_of : Option Listed → Option (List Offer)
listed_of none = none
listed_of (some a) = if is_failure a.status_code then some [] else read_list a.json

-- `get` is the request with a token, none where it raises; `token` and `refreshed` are what
-- `get_valid_access_token` and `handle_unauthorized` return, none where they raise.
module _ (get : String → String → Option Listed) (refreshed : Option String) (mlb_id : String) where
  abbrev pub listed_after_refresh : Option String → Option (List Offer)
  listed_after_refresh none = none
  listed_after_refresh (some fresh) = listed_of (get mlb_id fresh)

  abbrev pub listed_after : Option Listed → Option (List Offer)
  listed_after none = none
  listed_after (some a) =
      if a.status_code == 401 then listed_after_refresh refreshed else listed_of (some a)

  unfoldable pub fetch_eligible_promos : Option String → Option (List Offer)
  fetch_eligible_promos none = none
  fetch_eligible_promos (some token) = listed_after (get mlb_id token)

pub data Method : Type 0 where
  delete put post : Method

-- The body of a change, with none for a key that it leaves out.
pub record Body : Type 0 where
  pub promotion_type : String
  pub deal_price : Option ℤ
  pub promotion_id : Option String
  pub stock : Option ℕ
  pub start_date : Option String
  pub finish_date : Option String

pub record Request : Type 0 where
  pub method : Method
  pub mlb_id : String
  pub body : Option Body

-- An answer, with its header Retry-After.
pub record WriteAnswer : Type 0 where
  pub status_code : ℕ
  pub retry_after : Option String

-- A change while it is sent: the last answer, none after a transport error, how many requests have
-- been sent and how long the call has slept.
pub record Sending : Type 0 where
  pub answer : Option WriteAnswer
  pub sends : ℕ
  pub slept : ℕ

pub data WriteError : Type 0 where
  http transport : WriteError

pub record WriteResult : Type 0 where
  pub ok : Bool
  pub status_code : Option ℕ
  pub error : Option WriteError

abbrev pub ml_write_max_rate_retries : ℕ
ml_write_max_rate_retries = 3

abbrev pub is_transient : ℕ → Bool
is_transient code = code == 429 || (code == 502 || (code == 503 || code == 504))

-- `min(max(x, 0.0), 30.0)`
abbrev pub within_half_minute : ℤ → ℕ
within_half_minute (pos n) = if leb n 30_000 then n else 30_000
within_half_minute (negsuc n) = 0

-- `float(2 ** rate_retries)`
abbrev pub backoff : ℕ → ℕ
backoff zero = 1000
backoff (suc n) = 2 * backoff n

abbrev pub result_of : Option WriteAnswer → WriteResult
result_of none = record { ok = false; status_code = none; error = some transport }
result_of (some a) =
    let ok = if leb 200 a.status_code then leb (suc a.status_code) 300 else false in
    record { ok = ok; status_code = some a.status_code; error = if ok then none else some http }

abbrev pub written : Option Sending → Option WriteResult
written none = none
written (some s) = some (result_of s.answer)

-- `float` of a header, none where it raises.
module _ (to_float : String → Option ℤ) where
  abbrev pub half_minute_of : Option ℤ → Option ℕ
  half_minute_of none = none
  half_minute_of (some x) = some (within_half_minute x)

  unfoldable pub retry_after_seconds : Option String → Option ℕ
  retry_after_seconds none = none
  retry_after_seconds (some raw) = if raw == "" then none else half_minute_of (to_float raw)

  abbrev pub or_backoff : ℕ → Option ℕ → ℕ
  or_backoff rate_retries none = backoff rate_retries
  or_backoff rate_retries (some delay) = delay

  unfoldable pub delay_of : ℕ → WriteAnswer → ℕ
  unfolding retry_after_seconds
  delay_of rate_retries a = or_backoff rate_retries (retry_after_seconds a.retry_after)

  -- `send` is the request of that number with a token, none for a transport error.
  module _ (send : ℕ → String → Option WriteAnswer) where
    -- The loop, with the retries that are left.
    unfoldable pub rate_retry : ℕ → ℕ → String → Option WriteAnswer → ℕ → ℕ → Sending
    unfolding delay_of
    rate_retry zero rate_retries token answer sends slept = record {
      answer = answer;
      sends = sends;
      slept = slept;
    }
    rate_retry (suc left) rate_retries token none sends slept = record {
      answer = none;
      sends = sends;
      slept = slept;
    }
    rate_retry (suc left) rate_retries token (some a) sends slept =
        let rest =
          rate_retry left (suc rate_retries) token (send sends token) (suc sends)
            (slept + delay_of rate_retries a) in
        if is_transient a.status_code
        then rest
        else record { answer = some a; sends = sends; slept = slept }

    -- After a 401; none where the refresh raises.
    unfoldable pub after_unauthorized : Option String → Option Sending
    unfolding rate_retry
    after_unauthorized none = none
    after_unauthorized (some fresh) =
        some (rate_retry ml_write_max_rate_retries 0 fresh (send 1 fresh) 2 0)

    unfoldable pub after_first : Option String → String → Option WriteAnswer → Option Sending
    unfolding rate_retry after_unauthorized
    after_first refreshed token none = some (record { answer = none; sends = 1; slept = 0 })
    after_first refreshed token (some a) =
        if a.status_code == 401
        then after_unauthorized refreshed
        else some (rate_retry ml_write_max_rate_retries 0 token (some a) 1 0)

    unfoldable pub ml_send : Option String → Option String → Option Sending
    unfolding after_first
    ml_send none refreshed = none
    ml_send (some token) refreshed = after_first refreshed token (send 0 token)

    unfoldable pub ml_write : Option String → Option String → Option WriteResult
    unfolding ml_send
    ml_write token refreshed = written (ml_send token refreshed)

-- The two calls that enrol a listing. `write` is `_ml_write`, and `dates` are the default ones of a
-- discount, today and thirty days later.
module _ (write : Request → Option WriteResult) (dates : String × String) where
  abbrev pub status_of_write : Option WriteResult → Option (Option ℕ)
  status_of_write none = none
  status_of_write (some result) = some result.status_code

  unfoldable pub create_price_discount : String → ℤ → Option (Option ℕ)
  create_price_discount mlb_id deal_price = status_of_write (
      write (record {
        method = post;
        mlb_id = mlb_id;
        body = some (record {
          promotion_type = "PRICE_DISCOUNT";
          deal_price = some deal_price;
          promotion_id = none;
          stock = none;
          start_date = some dates.0;
          finish_date = some dates.1;
        });
      }))

  unfoldable pub modify_promotion : String → ℤ → String → String → Option (Option ℕ)
  modify_promotion mlb_id deal_price promotion_id promotion_type = status_of_write (
      write (record {
        method = post;
        mlb_id = mlb_id;
        body = some (record {
          promotion_type = promotion_type;
          deal_price = some deal_price;
          promotion_id = some promotion_id;
          stock = none;
          start_date = none;
          finish_date = none;
        });
      }))
