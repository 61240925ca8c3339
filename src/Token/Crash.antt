-- ===== src/Token/Crash.antt =====
-- A process that dies between two writes of a rotation, and the next refresh.
use tiny_mirror.Prelude.{
  ℕ, zero, suc, ◌≡◌, refl, ap, sym, ◌∙◌, String, none, some, List, [], ◌∷◌, inl, inr, All,
  Bool-cases, ◌==◌, string_eq, eq_iff, take,
}
use tiny_mirror.Token.Exec.{
  Time, OAuthToken, is_expired, readable, Store, Result, ok, Reply, http_error, rejected, granted,
  malformed, World,
}
use tiny_mirror.Token.Service.{
  cache_ttl, new_token, take_reply, rotate, resume, recover, refresh_with_token, read_stash,
}

-- The writes of a rotation that has its reply, in the order in which it makes them.
abbrev pub rotation_writes : Time → OAuthToken → List (Store → Store)
rotation_writes now t =
    (λ s. record s { pending = some (readable t) })
    ∷ (λ s. record s { row = some t })
    ∷ (λ s. record s {
      cached = some (record { access_token = t.access_token; ttl = cache_ttl now t });
    })
    ∷ (λ s. record s { pending = none })
    ∷ []

abbrev pub apply_all : List (Store → Store) → Store → Store
apply_all [] s = s
apply_all (f ∷ fs) s = apply_all fs (f s)

-- They are the writes that the service makes.
take_reply-rotation_writes :
    {S : Type 0} (access refresh : String) (e₁ e₂ : ℕ) (w : World S)
    → (take_reply (granted access refresh e₁ e₂) w).1.store
      ≡ apply_all (rotation_writes w.clock (new_token w.clock access refresh e₁ e₂)) w.store
unfolding take_reply
take_reply-rotation_writes access refresh e₁ e₂ w = refl

-- The store of a process that died after `k` of them.
abbrev pub crashed : ℕ → Time → OAuthToken → Store → Store
crashed k now t s = apply_all (take k (rotation_writes now t)) s

-- An endpoint that keeps the refresh tokens that were sent to it, the last one first.
abbrev pub logging :
    (String → Time → Reply × Time) → String → Time → List String → Reply × Time × List String
logging reply rt now sent = let (r, later) = reply rt now in (r, later, rt ∷ sent)

-- Only this pair's refresh token has been sent, and the call that sent none returned the pair.
abbrev pub Recovers : OAuthToken → Result OAuthToken × World (List String) → Type 0
Recovers t (r, w) =
    All (λ (rt : String). rt ≡ t.refresh_token) w.server × (w.server ≡ [] → r ≡ ok t)

take_reply-server : {S : Type 0} (r : Reply) (w : World S) → (take_reply r w).1.server ≡ w.server
unfolding take_reply
take_reply-server http_error w = refl
take_reply-server (rejected status) w = refl
take_reply-server malformed w = refl
take_reply-server (granted access refresh e₁ e₂) w = refl

module _ (reply : String → Time → Reply × Time) (others : Store → Store) where
  rotate-server :
      (rt : String) (w : World (List String))
      → (rotate (logging reply) others rt w).1.server ≡ rt ∷ w.server
  unfolding rotate
  rotate-server rt w = take_reply-server (reply rt w.clock).0 _

  rotate-Recovers :
      (t : OAuthToken) (rt : String) (w : World (List String))
      → w.server ≡ []
      → rt ≡ t.refresh_token
      → Recovers t (rotate (logging reply) others rt w)
  rotate-Recovers t rt w e same =
      let sent : (rotate (logging reply) others rt w).1.server ≡ rt ∷ [] =
        rotate-server rt w ∙ ap (λ l. rt ∷ l) e in
      (rw sent (same, tt), λ silent. cc)

  resume-Recovers :
      (t : OAuthToken) (w : World (List String))
      → w.server ≡ []
      → Recovers t (resume (logging reply) others t w)
  unfolding resume
  resume-Recovers t w e = elim (Bool-cases (is_expired w.clock t)) [
    | inl expired ↦ rw expired (rotate-Recovers t t.refresh_token _ e refl)
    | inr fresh ↦ rw fresh (rw e tt, λ _. refl)
  ]

  recover-Recovers :
      (t : OAuthToken) (rt : String) (w : World (List String))
      → w.server ≡ []
      → Recovers t (recover (logging reply) others rt (some t) w)
  unfolding recover
  recover-Recovers t rt w e = elim (Bool-cases (t.refresh_token == rt)) [
    | inl same ↦ rw same (rotate-Recovers t rt w e (sym ((eq_iff t.refresh_token rt).0 same)))
    | inr newer ↦ rw newer (resume-Recovers t w e)
  ]

  found_token : (t found : OAuthToken) → some t ≡ some found → found.refresh_token ≡ t.refresh_token
  found_token t found e = let same : found ≡ t = cc in ap (λ (x : OAuthToken). x.refresh_token) same

  -- Suppose a process dies after at least the first write of a rotation to the pair `t`. The next
  -- refresh with the refresh token of the row sends the endpoint no other refresh token than that of
  -- `t`; if it sends none, it returns `t`.
  pub refresh_after_crash :
      (k : ℕ) (died : Time) (t : OAuthToken) (s : Store) (now : Time) (found : OAuthToken)
      → (crashed (suc k) died t s).row ≡ some found
      → Recovers t (
          refresh_with_token
            (logging reply)
            others
            found.refresh_token
            (record { store = crashed (suc k) died t s; clock = now; server = [] }))
  unfolding refresh_with_token read_stash recover
  refresh_after_crash zero died t s now found e = recover-Recovers t found.refresh_token _ refl
  refresh_after_crash (suc zero) died t s now found e =
      recover-Recovers t found.refresh_token _ refl
  refresh_after_crash (suc (suc zero)) died t s now found e =
      recover-Recovers t found.refresh_token _ refl
  refresh_after_crash (suc (suc (suc zero))) died t s now found e =
      rotate-Recovers t found.refresh_token _ refl (found_token t found e)
  refresh_after_crash (suc (suc (suc (suc k)))) died t s now found e =
      rotate-Recovers t found.refresh_token _ refl (found_token t found e)
