-- ===== src/Token/Refresh.antt =====
-- What a rotation leaves in the store, the lock around it, and what happens when the process dies in
-- the middle of one.
use tiny_mirror.Prelude.{
  ◌≡◌, ◌+◌, ap, subst, sym, ◌∙◌, refl, ◌⊎◌, String, Bool, true, false, Option, none, some, inl, inr,
  Bool-cases, ◌==◌, string_eq, if◌then◌else◌,
}
use tiny_mirror.Token.Exec.{
  Time, second, OAuthToken, is_expired, Stash, readable, unreadable, Cached, Store, Result, ok,
  Reply, http_error, rejected, granted, malformed, World, Exec, ◌>>=◌,
}
use tiny_mirror.Token.Service.{
  cache_ttl, with_lock, after_sleep, new_token, read_stash, resume, persist_token, take_reply,
  rotate, recover, refresh_with_token, refresh_with_lock,
}

-- The pair is the row, its access token is in the cache, and no rotation is pending.
pub record IsStored (t : OAuthToken) (s : Store) : Type 0 where
  pub in_row : s.row ≡ some t
  pub in_cache : (c : Cached) × (s.cached ≡ some c) × (c.access_token ≡ t.access_token)
  pub settled : s.pending ≡ none

-- What a call that may return a pair does: it stores a pair that it returns, and leaves the lock alone.
pub record Stores {S : Type 0} (m : Exec S OAuthToken) : Type 0 where
  pub stored : (w : World S) (t : OAuthToken) → (m w).0 ≡ ok t → IsStored t (m w).1.store
  pub lock : (w : World S) → (m w).1.store.locked ≡ w.store.locked

module _ {S : Type 0} where
  persisted-IsStored : (t : OAuthToken) (w : World S) → IsStored t (persist_token t w).1.store
  unfolding persist_token
  persisted-IsStored t w = record {
    in_row = refl;
    in_cache = (record { access_token = t.access_token; ttl = cache_ttl w.clock t }, refl, refl);
    settled = refl;
  }

  take_reply-Stores : (r : Reply) → Stores (take_reply {S = S} r)
  unfolding take_reply persist_token
  take_reply-Stores http_error = record { stored = λ w t e. cc; lock = λ w. refl }
  take_reply-Stores (rejected status) = record { stored = λ w t e. cc; lock = λ w. refl }
  take_reply-Stores malformed = record { stored = λ w t e. cc; lock = λ w. refl }
  take_reply-Stores (granted access refresh e₁ e₂) = record {
    stored = λ w t e.
        let new = new_token w.clock access refresh e₁ e₂ in
        let same : new ≡ t = cc in rw (← same) (persisted-IsStored new w);
    lock = λ w. refl;
  }

module _ {S : Type 0} (post : String → Time → S → Reply × Time × S) (others : Store → Store) where
  rotate-Stores : (rt : String) → Stores (rotate post others rt)
  unfolding rotate
  rotate-Stores rt = record {
    stored = λ w t e. (take_reply-Stores (post rt w.clock w.server).0).stored _ t e;
    lock = λ w. (take_reply-Stores (post rt w.clock w.server).0).lock _;
  }

  resume-Stores : (stashed : OAuthToken) → Stores (resume post others stashed)
  unfolding resume
  resume-Stores stashed = record {
    stored = λ w t e.
        let w' = (persist_token stashed w).1 in
        elim (Bool-cases (is_expired w.clock stashed)) [
          | inl expired ↦
              rw expired ((rotate-Stores stashed.refresh_token).stored w' t (rw expired at e))
          | inr fresh ↦
              let same : stashed ≡ t = cc (rw fresh at e) in
              rw (fresh, ← same) (persisted-IsStored stashed w)
        ];
    lock = λ w.
        let w' = (persist_token stashed w).1 in
        elim (Bool-cases (is_expired w.clock stashed)) [
          | inl expired ↦ rw expired ((rotate-Stores stashed.refresh_token).lock w')
          | inr fresh ↦ rw fresh
        ];
  }

  recover-Stores : (rt : String) (found : Option OAuthToken) → Stores (recover post others rt found)
  unfolding recover
  recover-Stores rt none = rotate-Stores rt
  recover-Stores rt (some stashed) = elim (Bool-cases (stashed.refresh_token == rt)) [
    | inl same ↦ rw same (rotate-Stores rt)
    | inr newer ↦ rw newer (resume-Stores stashed)
  ]

  read_stash-Stores :
      (rt : String) (p : Option Stash) → Stores (read_stash p >>= recover post others rt)
  unfolding read_stash
  read_stash-Stores rt none = recover-Stores rt none
  read_stash-Stores rt (some (readable t)) = recover-Stores rt (some t)
  read_stash-Stores rt (some unreadable) = record {
    stored = λ w. (recover-Stores rt none).stored _;
    lock = λ w. (recover-Stores rt none).lock _;
  }

  refresh_with_token-Stores : (rt : String) → Stores (refresh_with_token post others rt)
  unfolding refresh_with_token
  refresh_with_token-Stores rt = record {
    stored = λ w. (read_stash-Stores rt w.store.pending).stored w;
    lock = λ w. (read_stash-Stores rt w.store.pending).lock w;
  }

  unlock-IsStored :
      (t : OAuthToken) (s : Store) → IsStored t s → IsStored t (record s { locked = false })
  unlock-IsStored t s h = record { in_row = h.in_row; in_cache = h.in_cache; settled = h.settled }

  -- With the lock free, a call that returns a pair has stored it: it is the row, its access token is in
  -- the cache, and no rotation is pending. Whether the call returns or raises, the lock is free again.
  pub refresh_holding_lock :
      (rt : String) (w : World S)
      → w.store.locked ≡ false
      → let (r, w') = refresh_with_lock post others rt w in
        ((t : OAuthToken) → r ≡ ok t → IsStored t w'.store) × (w'.store.locked ≡ false)
  unfolding refresh_with_lock
  refresh_holding_lock rt w free =
      let held = record w { store = record w.store { locked = true } } in
      let stored = (refresh_with_token-Stores rt).stored held in
      rw free (
        λ t e. unlock-IsStored t (refresh_with_token post others rt held).1.store (stored t e),
        refl,
      )

  -- What a caller that found the lock taken ends with.
  abbrev pub IsCurrent : OAuthToken → World S → Type 0
  IsCurrent t w = IsStored t w.store ⊎ (w.store.row ≡ some t) × (is_expired w.clock t ≡ false)

  after_sleep-IsCurrent :
      (rt : String) (row : Option OAuthToken) (w : World S)
      → w.store.row ≡ row
      → let (r, w') = after_sleep post others rt row w.clock w in
        ((t : OAuthToken) → r ≡ ok t → IsCurrent t w') × (w'.store.locked ≡ w.store.locked)
  unfolding after_sleep
  after_sleep-IsCurrent rt none w e =
      let s = refresh_with_token-Stores rt in (λ t e. inl (s.stored w t e), s.lock w)
  after_sleep-IsCurrent rt (some latest) w e =
      let s = refresh_with_token-Stores rt in
      elim (Bool-cases (is_expired w.clock latest)) [
        | inl expired ↦ rw expired (λ t e. inl (s.stored w t e), s.lock w)
        | inr fresh ↦ rw fresh (λ t same. inr (current t same fresh), refl)
      ]
    where
      current :
          (t : OAuthToken)
          → ok latest ≡ ok t
          → is_expired w.clock latest ≡ false
          → (w.store.row ≡ some t) × (is_expired w.clock t ≡ false)
      current t same fresh = let p : latest ≡ t = cc in (e ∙ ap some p, rw (← p) fresh)

  refresh-waits :
      (rt : String) (w : World S)
      → w.store.locked ≡ true
      → let woken = record w { store = others w.store; clock = w.clock + second } in
        refresh_with_lock post others rt w
        ≡ after_sleep post others rt woken.store.row woken.clock woken
  unfolding refresh_with_lock
  refresh-waits rt w taken =
      let woken = record w { store = others w.store; clock = w.clock + second } in
      ap
        (λ (b : Bool).
          if b
          then after_sleep post others rt woken.store.row woken.clock woken
          else with_lock post others (refresh_with_token post others rt) w)
        taken

  -- With the lock taken by another worker, a call that returns a pair has stored it, or it is the row
  -- that the other worker left, not expired. The lock is left as the other worker leaves it.
  pub refresh_after_waiting :
      (rt : String) (w : World S)
      → w.store.locked ≡ true
      → let (r, w') = refresh_with_lock post others rt w in
        ((t : OAuthToken) → r ≡ ok t → IsCurrent t w') × (w'.store.locked ≡ (others w.store).locked)
  refresh_after_waiting rt w taken =
      let woken = record w { store = others w.store; clock = w.clock + second } in
      subst
        (λ (x : Result OAuthToken × World S).
          ((t : OAuthToken) → x.0 ≡ ok t → IsCurrent t x.1)
          × (x.1.store.locked ≡ (others w.store).locked))
        (sym (refresh-waits rt w taken)) (after_sleep-IsCurrent rt woken.store.row woken refl)
