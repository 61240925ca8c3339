-- ===== src/Token/Exec.antt =====
-- The state that a call of the service works on, and calls that may raise. What was written before a
-- raise stays written.
use tiny_mirror.Prelude.{ℕ, ◌+◌, ◌-◌, ◌*◌, ◌/◌, String, Bool, Option, ltb, leb}

-- Microseconds from `datetime.min`.
abbrev pub Time : Type 0
Time = ℕ

abbrev pub second : ℕ
second = 1_000_000

pub record OAuthToken : Type 0 where
  pub access_token : String
  pub refresh_token : String
  pub expires_at : Time
  pub refresh_expires_at : Time

unfoldable pub is_expired : Time → OAuthToken → Bool
is_expired now t = leb t.expires_at now

unfoldable pub is_refresh_expired : Time → OAuthToken → Bool
is_refresh_expired now t = leb t.refresh_expires_at now

unfoldable pub is_expiring_soon : ℕ → Time → OAuthToken → Bool
is_expiring_soon minutes now t = ltb t.expires_at (now + minutes * 60 * second)

-- Whole seconds, none once the token has expired.
unfoldable pub seconds_until_expiry : Time → OAuthToken → ℕ
seconds_until_expiry now t = (t.expires_at - now) / second

-- What the stash's key holds: a pair, or text that cannot be read as one.
pub data Stash : Type 0 where
  readable : OAuthToken → Stash
  unreadable : Stash

-- The access token in the cache, and the seconds for which it stays there.
pub record Cached : Type 0 where
  pub access_token : String
  pub ttl : ℕ

-- Postgres and Redis.
pub record Store : Type 0 where
  pub row : Option OAuthToken
  pub cached : Option Cached
  pub pending : Option Stash
  pub locked : Bool

pub data Error : Type 0 where
  configuration token_expired key_error : Error

pub data Result (A : Type 0) : Type 0 where
  ok : A → Result A
  err : Error → Result A

-- What the endpoint answers: no response (an HTTP error), a status of 400 or more, a payload, or a
-- payload that lacks a key.
pub data Reply : Type 0 where
  http_error : Reply
  rejected : ℕ → Reply
  granted : String → String → ℕ → ℕ → Reply
  malformed : Reply

-- A call's state: the store, the clock, and the state of the endpoint.
pub record World (Server : Type 0) : Type 0 where
  pub store : Store
  pub clock : Time
  pub server : Server

abbrev pub Exec : Type 0 → Type 0 → Type 0
Exec S A = World S → Result A × World S

module _ {S : Type 0} where
  abbrev pub pure : {A : Type 0} → A → Exec S A
  pure a w = (ok a, w)

  abbrev pub raise : {A : Type 0} → Error → Exec S A
  raise e w = (err e, w)

  abbrev pub gets : {A : Type 0} → (World S → A) → Exec S A
  gets f w = (ok (f w), w)

  abbrev pub modify : (Store → Store) → Exec S (Unit {0})
  modify f w = (ok tt, record w { store = f w.store })

  infixl 5 ◌>>=◌ ◌>>◌
  abbrev pub ◌>>=◌ : {A B : Type 0} → Exec S A → (A → Exec S B) → Exec S B
  ◌>>=◌ m f w = let (r, w') = m w in elim r [ ok a ↦ f a w' | err e ↦ (err e, w') ]

  abbrev pub ◌>>◌ : {B : Type 0} → Exec S (Unit {0}) → Exec S B → Exec S B
  m >> k = m >>= λ _. k
