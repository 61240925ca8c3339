-- ===== src/Token/Service.antt =====
-- `TokenService`. `post refresh_token` is the call of the token endpoint: it sees the clock and gives
-- its reply, the clock at the reply and the endpoint's next state. `others` is what the other
-- workers do to the store in the second for which a caller without the lock sleeps.
use tiny_mirror.Prelude.{
  ℕ, ◌+◌, ◌-◌, ◌*◌, String, true, false, Option, none, some, ◌==◌, string_eq, if◌then◌else◌,
}
use Prim.Native.Nat.{max}
use tiny_mirror.Token.Exec.{
  Time, second, OAuthToken, is_expired, is_refresh_expired, is_expiring_soon, seconds_until_expiry,
  Stash, readable, unreadable, Cached, Store, configuration, token_expired, key_error, ok, err,
  Reply, http_error, rejected, granted, malformed, Exec, pure, raise, gets, modify, ◌>>=◌, ◌>>◌,
}

abbrev pub ttl_buffer : ℕ
ttl_buffer = 600

abbrev pub ttl_min : ℕ
ttl_min = 60

abbrev pub expiry_warning_minutes : ℕ
expiry_warning_minutes = 30

unfoldable pub cache_ttl : Time → OAuthToken → ℕ
cache_ttl now t = max ttl_min (seconds_until_expiry now t - ttl_buffer)

abbrev pub new_token : Time → String → String → ℕ → ℕ → OAuthToken
new_token now access refresh expires_in refresh_expires_in = record {
  access_token = access;
  refresh_token = refresh;
  expires_at = now + expires_in * second;
  refresh_expires_at = now + refresh_expires_in * second;
}

module _ {S : Type 0} where
  unfoldable pub cache_access_token : OAuthToken → Exec S (Unit {0})
  cache_access_token t w =
      let entry : Cached = record { access_token = t.access_token; ttl = cache_ttl w.clock t } in
      modify (λ s. record s { cached = some entry }) w

  -- `save_token`: the one row is replaced.
  unfoldable pub save_token : OAuthToken → Exec S (Unit {0})
  save_token t = modify (λ s. record s { row = some t })

  unfoldable pub persist_token : OAuthToken → Exec S (Unit {0})
  unfolding save_token cache_access_token
  persist_token t = do save_token t; cache_access_token t; modify (λ s. record s { pending = none })

  unfoldable pub stash_pending_rotation : OAuthToken → Exec S (Unit {0})
  stash_pending_rotation t = modify (λ s. record s { pending = some (readable t) })

  -- A stash that cannot be read is dropped.
  unfoldable pub read_stash : Option Stash → Exec S (Option OAuthToken)
  read_stash none = pure none
  read_stash (some (readable t)) = pure (some t)
  read_stash (some unreadable) = do modify (λ s. record s { pending = none }); pure none

  unfoldable pub load_pending_rotation : Exec S (Option OAuthToken)
  unfolding read_stash
  load_pending_rotation = do read_stash (← gets (λ w. w.store.pending))

  unfoldable pub take_reply : Reply → Exec S OAuthToken
  unfolding stash_pending_rotation persist_token
  take_reply http_error = raise token_expired
  take_reply (rejected status) = raise token_expired
  take_reply malformed = raise key_error
  take_reply (granted access refresh expires_in refresh_expires_in) = do
    now ← gets (λ w. w.clock)
    let t = new_token now access refresh expires_in refresh_expires_in
    stash_pending_rotation t
    persist_token t
    pure t

  module _ (post : String → Time → S → Reply × Time × S) (others : Store → Store) where
    call_endpoint : String → Exec S Reply
    call_endpoint refresh_token w =
        let (reply, now, server) = post refresh_token w.clock w.server in
        (ok reply, record w { clock = now; server = server })

    -- Everything from the request on.
    unfoldable pub rotate : String → Exec S OAuthToken
    unfolding take_reply call_endpoint
    rotate refresh_token = do take_reply (← call_endpoint refresh_token)

    -- The rotation that a stash shows to have been interrupted is completed first.
    unfoldable pub resume : OAuthToken → Exec S OAuthToken
    unfolding persist_token
    resume stashed = do
      persist_token stashed
      now ← gets (λ w. w.clock)
      if is_expired now stashed then rotate stashed.refresh_token else pure stashed

    unfoldable pub recover : String → Option OAuthToken → Exec S OAuthToken
    recover refresh_token none = rotate refresh_token
    recover refresh_token (some stashed) =
        if stashed.refresh_token == refresh_token then rotate refresh_token else resume stashed

    unfoldable pub refresh_with_token : String → Exec S OAuthToken
    unfolding recover resume load_pending_rotation
    refresh_with_token refresh_token = do recover refresh_token (← load_pending_rotation)

    -- The lock is taken by SET NX; `finally` deletes it.
    unfoldable pub with_lock : Exec S OAuthToken → Exec S OAuthToken
    with_lock m w =
        let (r, w') = m (record w { store = record w.store { locked = true } }) in
        (r, record w' { store = record w'.store { locked = false } })

    sleep : Exec S (Unit {0})
    sleep w = (ok tt, record w { store = others w.store; clock = w.clock + second })

    unfoldable pub after_sleep : String → Option OAuthToken → Time → Exec S OAuthToken
    after_sleep refresh_token none now = refresh_with_token refresh_token
    after_sleep refresh_token (some latest) now =
        if is_expired now latest then refresh_with_token refresh_token else pure latest

    unfoldable pub refresh_with_lock : String → Exec S OAuthToken
    unfolding with_lock sleep after_sleep
    refresh_with_lock refresh_token w =
        if w.store.locked
        then (do
          sleep
          latest ← gets (λ w. w.store.row)
          now ← gets (λ w. w.clock)
          after_sleep refresh_token latest now)
            w
        else with_lock (refresh_with_token refresh_token) w

    -- `except TokenExpiredException`: the current token goes on being used.
    unfoldable pub or_current : OAuthToken → Exec S OAuthToken → Exec S OAuthToken
    or_current t m w =
        let (r, w') = m w in
        elim r [ ok t' ↦ (ok t', w') | err token_expired ↦ (ok t, w') | err e ↦ (err e, w') ]

    unfoldable pub renew : OAuthToken → Time → Exec S OAuthToken
    unfolding or_current
    renew t now =
        if is_expired now t
        then refresh_with_lock t.refresh_token
        else if is_expiring_soon expiry_warning_minutes now t
        then or_current t (refresh_with_lock t.refresh_token)
        else pure t

    unfoldable pub load_and_renew : Option OAuthToken → Exec S String
    load_and_renew none = raise configuration
    load_and_renew (some t) = do
      now ← gets (λ w. w.clock)
      if is_refresh_expired now t
          then raise token_expired
          else do fresh ← renew t now; cache_access_token fresh; pure fresh.access_token

    unfoldable pub from_cache : Option Cached → Exec S String
    from_cache (some c) = pure c.access_token
    from_cache none = do load_and_renew (← gets (λ w. w.store.row))

    unfoldable pub get_valid_access_token : Exec S String
    unfolding from_cache load_and_renew renew cache_access_token
    get_valid_access_token = do from_cache (← gets (λ w. w.store.cached))

    force_refresh : Option OAuthToken → Exec S OAuthToken
    force_refresh none = raise configuration
    force_refresh (some t) = do
      now ← gets (λ w. w.clock)
      if is_refresh_expired now t then raise token_expired else refresh_with_lock t.refresh_token

    unfoldable pub refresh_tokens : Exec S OAuthToken
    unfolding force_refresh
    refresh_tokens = do force_refresh (← gets (λ w. w.store.row))

    unfoldable pub handle_unauthorized : Exec S String
    unfolding refresh_tokens
    handle_unauthorized = do
      modify (λ s. record s { cached = none })
      t ← refresh_tokens
      pure t.access_token

    -- `initial` is TINY_REFRESH_TOKEN. Its rejection is a configuration error.
    as_configuration : {A : Type 0} → Exec S A → Exec S A
    as_configuration m w =
        let (r, w') = m w in
        elim r [
          | ok a ↦ (ok a, w')
          | err token_expired ↦ (err configuration, w')
          | err e ↦ (err e, w')
        ]

    bootstrap : String → Option OAuthToken → Exec S OAuthToken
    unfolding as_configuration
    bootstrap initial (some t) = pure t
    bootstrap initial none =
        if initial == "" then raise configuration else as_configuration (refresh_with_token initial)

    unfoldable pub validate_on_startup : String → Exec S (Unit {0})
    unfolding bootstrap cache_access_token
    validate_on_startup initial = do
      t ← bootstrap initial (← gets (λ w. w.store.row))
      now ← gets (λ w. w.clock)
      if is_refresh_expired now t then raise configuration else do
        fresh ←
            (if is_expired now t
              then refresh_with_lock t.refresh_token
              else if is_expiring_soon expiry_warning_minutes now t
              then refresh_with_lock t.refresh_token
              else pure t)
        cache_access_token fresh
