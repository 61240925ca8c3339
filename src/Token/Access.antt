-- ===== src/Token/Access.antt =====
-- The access token that a caller gets: how long the cache keeps it, and what a failed renewal costs.
use tiny_mirror.Prelude.{
  ◌≡◌, ◌≢◌, ◌≤◌, ◌↔◌, subst, sym, String, false, none, some, arith, inl, inr, Bool-cases,
}
use tiny_mirror.Token.Exec.{
  Time, OAuthToken, is_expired, is_refresh_expired, is_expiring_soon, seconds_until_expiry, Store,
  token_expired, configuration, key_error, pure, ◌>>◌, Result, ok, err, Reply, World,
}
use tiny_mirror.Token.Service.{
  cache_ttl, ttl_min, expiry_warning_minutes, refresh_with_lock, get_valid_access_token, or_current,
  renew, from_cache, load_and_renew, cache_access_token,
}

-- The cache gives up an access token before it expires exactly when it was good for at least 60
-- seconds: a token nearer to its expiry is served after it.
pub cache_ttl-in_time :
    (now : Time) (t : OAuthToken)
    → (cache_ttl now t ≤ seconds_until_expiry now t) ↔ (ttl_min ≤ seconds_until_expiry now t)
unfolding cache_ttl
cache_ttl-in_time now t = (λ h. ground arith, λ h. ground arith)

-- What renewing left, handed to the rest of the call.
abbrev handed_over : {S : Type 0} → Result OAuthToken × World S → Result String × World S
handed_over p = elim p.0 [
  | ok t ↦ (do cache_access_token t; pure t.access_token) p.1
  | err e ↦ (err e, p.1)
]

handed_over-no_expiry :
    {S : Type 0} (p : Result OAuthToken × World S)
    → p.0 ≢ err token_expired
    → (handed_over p).0 ≢ err token_expired
unfolding cache_access_token
handed_over-no_expiry (ok t, w) h e = cc
handed_over-no_expiry (err x, w) h e = h (cc)

-- A result with token_expired replaced by the current token.
abbrev kept : {S : Type 0} → OAuthToken → Result OAuthToken × World S → Result OAuthToken × World S
kept t p = elim p.0 [
  | ok t' ↦ (ok t', p.1)
  | err token_expired ↦ (ok t, p.1)
  | err e ↦ (err e, p.1)
]

kept-no_expiry :
    {S : Type 0} (t : OAuthToken) (p : Result OAuthToken × World S)
    → (kept t p).0 ≢ err token_expired
kept-no_expiry t (ok t', w) e = cc
kept-no_expiry t (err token_expired, w) e = cc
kept-no_expiry t (err configuration, w) e = cc
kept-no_expiry t (err key_error, w) e = cc

module _ {S : Type 0} (post : String → Time → S → Reply × Time × S) (others : Store → Store) where
  renew-no_expiry :
      (t : OAuthToken) (w : World S)
      → is_expired w.clock t ≡ false
      → (renew post others t w.clock w).0 ≢ err token_expired
  unfolding renew or_current
  renew-no_expiry t w fresh =
      elim (Bool-cases (is_expiring_soon expiry_warning_minutes w.clock t)) [
        | inl soon ↦
            rw (fresh, soon) (kept-no_expiry t (refresh_with_lock post others t.refresh_token w))
        | inr good ↦ rw (fresh, good) (λ e. cc)
      ]

  row-no_expiry :
      (t : OAuthToken) (w : World S)
      → is_expired w.clock t ≡ false
      → is_refresh_expired w.clock t ≡ false
      → (load_and_renew post others (some t) w).0 ≢ err token_expired
  unfolding load_and_renew
  row-no_expiry t w fresh good =
      rw good (handed_over-no_expiry (renew post others t w.clock w) (renew-no_expiry t w fresh))

  -- With no access token in the cache and a row that has expired in neither way, the call never says
  -- that the token has expired: where a refresh ahead of time fails, the old access token serves on.
  pub get_valid_access_token_serves :
      (w : World S) (t : OAuthToken)
      → w.store.cached ≡ none
      → w.store.row ≡ some t
      → is_expired w.clock t ≡ false
      → is_refresh_expired w.clock t ≡ false
      → (get_valid_access_token post others w).0 ≢ err token_expired
  unfolding get_valid_access_token from_cache
  get_valid_access_token_serves w t cold e fresh good =
      subst (λ c. (from_cache post others c w).0 ≢ err token_expired) (sym cold)
        (subst (λ row. (load_and_renew post others row w).0 ≢ err token_expired) (sym e)
          (row-no_expiry t w fresh good))
