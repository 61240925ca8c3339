-- ===== src/Token/Answer.antt =====
-- What a refresh returns for each answer of the endpoint.
use tiny_mirror.Prelude.{◌≡◌, refl, String, Bool, false, Option, none, some}
use tiny_mirror.Token.Exec.{
  Time, OAuthToken, token_expired, key_error, Store, Result, ok, err, Reply, http_error, rejected,
  granted, malformed, World, Stash, Cached,
}
use tiny_mirror.Token.Service.{
  new_token, take_reply, rotate, recover, read_stash, refresh_with_token, refresh_with_lock,
}

abbrev pub answer : Time → Reply → Result OAuthToken
answer now (granted access refresh e₁ e₂) = ok (new_token now access refresh e₁ e₂)
answer now malformed = err key_error
answer now http_error = err token_expired
answer now (rejected status) = err token_expired

-- A pair that is returned is the row; an exception leaves the row.
abbrev pub row_after : Option OAuthToken → Result OAuthToken → Option OAuthToken
row_after old (ok t) = some t
row_after old (err e) = old

take_reply-answer :
    {S : Type 0} (reply : Reply) (w : World S)
    → let (r, w') = take_reply reply w in
      (r ≡ answer w.clock reply) × (w'.store.row ≡ row_after w.store.row r)
unfolding take_reply
take_reply-answer http_error w = (refl, refl)
take_reply-answer (rejected status) w = (refl, refl)
take_reply-answer malformed w = (refl, refl)
take_reply-answer (granted access refresh e₁ e₂) w = (refl, refl)

module _ {S : Type 0} (post : String → Time → S → Reply × Time × S) (others : Store → Store) where
  abbrev IsSettled : String → World S → Type 0
  IsSettled rt w =
      let (reply, later, _) = post rt w.clock w.server in
      let (r, w') = refresh_with_lock post others rt w in
      (r ≡ answer later reply) × (w'.store.row ≡ row_after w.store.row r)

  free_and_IsSettled :
      (rt : String) (row : Option OAuthToken) (cached : Option Cached) (pending : Option Stash)
      (locked : Bool) (now : Time) (server : S)
      → locked ≡ false
      → pending ≡ none
      → let s : Store = record { row = row; cached = cached; pending = pending; locked = locked } in
        IsSettled rt (record { store = s; clock = now; server = server })
  unfolding refresh_with_lock refresh_with_token rotate recover read_stash
  free_and_IsSettled rt row cached pending locked now server free settled =
      rw (free, settled) (take_reply-answer (post rt now server).0 _)

  -- With the lock free and no rotation pending, a call ends as the answer says: with the new pair,
  -- which then is the row, or with an exception, and the row as it was.
  pub refresh_settled :
      (rt : String) (w : World S)
      → w.store.locked ≡ false
      → w.store.pending ≡ none
      → let (reply, later, _) = post rt w.clock w.server in
        let (r, w') = refresh_with_lock post others rt w in
        (r ≡ answer later reply) × (w'.store.row ≡ row_after w.store.row r)
  refresh_settled rt w free settled =
      free_and_IsSettled rt w.store.row w.store.cached w.store.pending w.store.locked w.clock
        w.server free settled
