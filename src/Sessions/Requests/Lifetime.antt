-- ===== src/Sessions/Requests/Lifetime.antt =====
-- src/modules/identity/sessions: `nextExpiry` caps the life of a session, however often it rotates.
use transport_api.Common.{
  All, All-map, All-update_where, All-update_where_given, Bool, Distinct, Distinct-update_where,
  List, ap, arith, false, found_agrees, if◌then◌else◌, is_none, ltb, refl, subst, suc, sym, true,
  update_where, ℕ, ◌&&◌, ◌+◌, ◌-◌, ◌<◌, ◌==◌, ◌≡◌, ◌≤◌,
}
use transport_api.Sessions.{
  AuthConfig, SessionStore, TokenLibrary, UserSession, create_session, find_valid, is_current_hash,
  is_valid, next_expiry, refresh_ttl_for, rotate_refresh_token, set_active, set_revoked,
  touch_activity_throttled,
}
use transport_api.Sessions.Requests.{
  Request, Write, handle_all, handle_all-keep, inserted, revoked, rotated, touched, waited,
}

module _ (lib : TokenLibrary) (auth : AuthConfig) where
  -- Within the cap.
  abbrev pub IsCapped : UserSession → Type 0
  IsCapped s = s.expires_at ≤ s.created_at + auth.session_max_age

  -- The rows have different ids, all of them issued already, and every one is within the cap.
  pub record IsSound (st : SessionStore) : Type 0 where
    pub distinct : Distinct (λ (s : UserSession). s.id) st.sessions
    pub issued : All (λ (s : UserSession). s.id < st.next_id) st.sessions
    pub capped : All IsCapped st.sessions

  next_expiry-le :
      (now created_at ttl : ℕ)
      → next_expiry lib auth now created_at ttl ≤ created_at + auth.session_max_age
  next_expiry-le now created_at ttl = ground arith

  issued_apart :
      (n : ℕ) (ss : List UserSession)
      → All (λ (s : UserSession). s.id < n) ss
      → All (λ (s : UserSession). (s.id == n) ≡ false) ss
  issued_apart n ss =
      All-map (λ (s : UserSession). s.id < n) (λ (s : UserSession). (s.id == n) ≡ false) ss
        (λ s h. ground arith)

  -- An update of rows that keeps the ids, and the cap of the rows that it moves.
  updated-IsSound :
      (st : SessionStore) (u : SessionStore) (p : UserSession → Bool)
      (f : UserSession → UserSession)
      → u.sessions ≡ update_where p f st.sessions
      → u.next_id ≡ st.next_id
      → ((s : UserSession) → (f s).id ≡ s.id)
      → All IsCapped (update_where p f st.sessions)
      → IsSound st
      → IsSound u
  updated-IsSound st u p f rows next same capped sound = record {
    distinct =
        subst (Distinct (λ (s : UserSession). s.id)) (sym rows)
          (Distinct-update_where (λ (s : UserSession). s.id) p f st.sessions same sound.distinct);
    issued =
        subst (λ n. All (λ (s : UserSession). s.id < n) u.sessions) (sym next)
          (subst (All (λ (s : UserSession). s.id < st.next_id)) (sym rows) (
            All-update_where (λ (s : UserSession). s.id < st.next_id) p f st.sessions
              (λ s h. subst (λ k. k < st.next_id) (sym (same s)) h) sound.issued));
    capped = subst (All IsCapped) (sym rows) capped;
  }

  either : (b : Bool) {u v : SessionStore} → IsSound u → IsSound v → IsSound (if b then u else v)
  either true h k = h
  either false h k = k

  Write-IsSound : (st u : SessionStore) → Write lib auth st u → IsSound st → IsSound u
  unfolding create_session rotate_refresh_token touch_activity_throttled find_valid
  Write-IsSound st _ (inserted user_id is_web) sound = record {
    distinct = (issued_apart st.next_id st.sessions sound.issued, sound.distinct);
    issued = (
      omega arith,
      All-map (λ (s : UserSession). s.id < st.next_id) (λ (s : UserSession). s.id < suc st.next_id)
          st.sessions (λ s h. omega (arith, h)) sound.issued,
    );
    capped = (next_expiry-le st.now st.now (refresh_ttl_for lib auth is_web), sound.capped);
  }
  Write-IsSound st _ (revoked p) sound =
      updated-IsSound st _ _ _ refl refl (λ s. refl)
        (All-update_where IsCapped (λ (s : UserSession). p s && is_none s.revoked_at)
          (set_revoked st.now) st.sessions (λ s h. h) sound.capped)
        sound
  Write-IsSound st _ (rotated id s hash found) sound =
      updated-IsSound st _ _ _ refl refl (λ x. refl)
        (All-update_where_given IsCapped (λ x. (x.id == s.id) ≡ true → x ≡ s)
          (is_current_hash lib auth s.id hash) _ st.sessions
          (λ x h agree here.
            let same = agree (ground arith) in
            subst
              (λ c.
                next_expiry lib auth st.now s.created_at (refresh_ttl_for lib auth s.is_web)
                ≤ c + auth.session_max_age)
              (ap (λ (y : UserSession). y.created_at) (sym same))
              (next_expiry-le st.now s.created_at (refresh_ttl_for lib auth s.is_web)))
          sound.capped
          (found_agrees (λ (x : UserSession). x.id) (is_valid lib auth st.now id) st.sessions s
            sound.distinct found))
        sound
  Write-IsSound st _ (touched s) sound = either (ltb (st.now - s.last_activity_at) 300000) sound (
      updated-IsSound st _ _ _ refl refl (λ x. refl)
        (All-update_where IsCapped (λ x. x.id == s.id) (set_active st.now) st.sessions (λ x h. h)
          sound.capped)
        sound)
  Write-IsSound st _ (waited ms) sound = record {
    distinct = sound.distinct;
    issued = sound.issued;
    capped = sound.capped;
  }

  -- No sequence of requests and waiting, whatever tokens are presented, makes a session outlive its
  -- cap: if the ids of the rows are distinct and already issued and every session ends within
  -- `sessionMaxAge` of its creation, then all of this holds after the requests.
  pub handle_all-IsSound :
      (rs : List Request) (st : SessionStore) → IsSound st → IsSound (handle_all lib auth rs st)
  handle_all-IsSound = handle_all-keep lib auth IsSound Write-IsSound
