-- ===== src/Sessions/Requests/Revocation.antt =====
-- src/modules/identity/sessions: what makes a revocation effective at once and for good.
use transport_api.Common.{
  All, All-update_where, All-updated, Bool, List, [], ap, arith, false, find_first, if◌then◌else◌,
  is_none, ltb, none, refl, some, subst, true, update_where, ℕ, ◌&&◌, ◌-◌, ◌<◌, ◌==◌, ◌∙◌, ◌∷◌, ◌≡◌,
}
use transport_api.Common.Action.{err, invalid_refresh_token, session_revoked, unauthorized}
use transport_api.Sessions.{
  AuthConfig, JwtPayload, SessionStore, TokenLibrary, UserSession, create_session, find_valid,
  is_current_hash, is_refresh, is_valid, refresh_payload, revoke, rotate_refresh_token,
  rotate_session, set_active, set_revoked, touch_activity_throttled, validate, verify_refresh_token,
}
use transport_api.Sessions.Requests.{
  Request, Write, handle_all, handle_all-keep, inserted, revoked, rotated, touched, waited,
}

-- Every row with the id is revoked, and the id is not free any more.
abbrev pub IsRevoked : ℕ → UserSession → Type 0
IsRevoked id s = (s.id == id) ≡ true → is_none s.revoked_at ≡ false

pub record IsDead (id : ℕ) (st : SessionStore) : Type 0 where
  pub rows : All (IsRevoked id) st.sessions
  pub issued : id < st.next_id

revoke-IsDead : (id : ℕ) (st : SessionStore) → id < st.next_id → IsDead id (revoke id st)
unfolding revoke
revoke-IsDead id st issued = record {
  rows =
      All-updated (IsRevoked id) (λ (s : UserSession). s.id == id && is_none s.revoked_at)
        (set_revoked st.now) st.sessions (λ s here. ground arith);
  issued = issued;
}

module _ (lib : TokenLibrary) (auth : AuthConfig) (id : ℕ) where
  pick :
      (b : Bool) {u v : SessionStore} → IsDead id u → IsDead id v → IsDead id (if b then u else v)
  pick true h k = h
  pick false h k = k

  updated :
      (p : UserSession → Bool) (f : UserSession → UserSession) (st : SessionStore)
      → ((s : UserSession) → (f s).id ≡ s.id)
      → ((s : UserSession) → is_none s.revoked_at ≡ false → is_none (f s).revoked_at ≡ false)
      → IsDead id st
      → All (IsRevoked id) (update_where p f st.sessions)
  updated p f st same keep dead =
      All-update_where (IsRevoked id) p f st.sessions
        (λ s h here. keep s (h (subst (λ k. (k == id) ≡ true) (same s) here))) dead.rows

  Write-IsDead : (st u : SessionStore) → Write lib auth st u → IsDead id st → IsDead id u
  unfolding create_session rotate_refresh_token touch_activity_throttled
  Write-IsDead st _ (inserted user_id is_web) dead =
      let free = dead.issued in
      record { rows = ((λ here. absurd (ground arith)), dead.rows); issued = omega (arith, free) }
  Write-IsDead st _ (revoked p) dead = record {
    rows =
        updated (λ (s : UserSession). p s && is_none s.revoked_at) (set_revoked st.now) st
          (λ s. refl) (λ s h. refl) dead;
    issued = dead.issued;
  }
  Write-IsDead st _ (rotated k s hash found) dead = record {
    rows = updated (is_current_hash lib auth s.id hash) _ st (λ x. refl) (λ x h. h) dead;
    issued = dead.issued;
  }
  Write-IsDead st _ (touched s) dead =
      pick (ltb (st.now - s.last_activity_at) 300000) dead (record {
        rows = updated (λ x. x.id == s.id) (set_active st.now) st (λ x. refl) (λ x h. h) dead;
        issued = dead.issued;
      })
  Write-IsDead st _ (waited ms) dead = record { rows = dead.rows; issued = dead.issued }

  no_valid_row :
      (now : ℕ) (ss : List UserSession)
      → All (IsRevoked id) ss
      → find_first (is_valid lib auth now id) ss ≡ none
  no_valid_row now [] dead = refl
  no_valid_row now (s ∷ ss) dead = ground (arith, dead.0, no_valid_row now ss dead.1)

  find_valid-dead : (st : SessionStore) → IsDead id st → find_valid lib auth id st ≡ none
  unfolding find_valid
  find_valid-dead st dead = no_valid_row st.now st.sessions dead.rows

  validate-dead :
      (claims : JwtPayload) (st : SessionStore)
      → claims.session_id ≡ id
      → find_valid lib auth id st ≡ none
      → validate lib auth claims st
        ≡ (err (if is_refresh claims.type then unauthorized else session_revoked), st)
  unfolding validate
  validate-dead claims st at gone = ground (arith, ap (λ k. find_valid lib auth k st) at ∙ gone)

  rotate_session-dead :
      (token : ℕ) (claims : JwtPayload) (st : SessionStore)
      → refresh_payload lib auth (lib.verify_async st.now token) ≡ some claims
      → claims.session_id ≡ id
      → find_valid lib auth id st ≡ none
      → rotate_session lib auth token st ≡ (err invalid_refresh_token, st)
  unfolding rotate_session verify_refresh_token
  rotate_session-dead token claims st genuine at gone =
      ground (arith, ap (λ k. find_valid lib auth k st) at ∙ gone)

-- A revocation is effective at once and for good. Once a session with an issued id is revoked, then
-- whatever requests follow and however much time passes, a genuine access token of that session is
-- refused on every request, and a genuine refresh token of it is refused too; neither writes
-- anything.
pub revocation_is_final :
    (lib : TokenLibrary) (auth : AuthConfig) (id : ℕ) (st : SessionStore) (rs : List Request)
    (claims payload : JwtPayload) (token : ℕ)
    → id < st.next_id
    → claims.session_id ≡ id
    → payload.session_id ≡ id
    → let u = handle_all lib auth rs (revoke id st) in
      refresh_payload lib auth (lib.verify_async u.now token) ≡ some payload
      → (validate lib auth claims u
          ≡ (err (if is_refresh claims.type then unauthorized else session_revoked), u))
        × (rotate_session lib auth token u ≡ (err invalid_refresh_token, u))
revocation_is_final lib auth id st rs claims payload token issued at of genuine =
    let u = handle_all lib auth rs (revoke id st) in
    let dead =
      handle_all-keep lib auth (IsDead id) (Write-IsDead lib auth id) rs (revoke id st)
        (revoke-IsDead id st issued) in
    let gone = find_valid-dead lib auth id u dead in
    (
      validate-dead lib auth id claims u at gone,
      rotate_session-dead lib auth id token payload u genuine of gone,
    )
