-- ===== src/Sessions/Requests.antt =====
-- src/modules/identity/sessions: the requests that the sessions serve, in any order, with time
-- passing between them, and the writes on the table of sessions that they come down to.
pub mod Lifetime
pub mod Revocation
pub mod Reuse
use transport_api.Common.{
  Bool, Bool-cases, List, Option, Option-cases, [], arith, inl, inr, not, some, subst, sym, ℕ, ◌&&◌,
  ◌+◌, ◌==◌, ◌||◌, ◌∙◌, ◌∷◌, ◌≡◌, ◌⊎◌,
}
use transport_api.Domain.{Role, includes}
use transport_api.Sessions.{
  AuthConfig, JwtPayload, SessionStore, TokenLibrary, UserSession, account_of, create_session,
  find_valid, is_active_account, is_refresh, refresh_payload, refuse_inactive, reuse_token, revoke,
  revoke_all_for_user, revoke_session_for, revoke_where, rotate_current, rotate_refresh_token,
  rotate_session, session_of, touch_activity_throttled, validate, verify_refresh_token,
}
use transport_api.World.{AuthenticatedUser}

pub data Request : Type 0 where
  log_in : ℕ → Bool → Request
  refresh_with : ℕ → Request
  authenticate : JwtPayload → Request
  log_out : ℕ → Request
  revoke_by : ℕ → AuthenticatedUser → Request
  log_out_everywhere : ℕ → Option ℕ → Request
  wait : ℕ → Request

module _ (lib : TokenLibrary) (auth : AuthConfig) where
  -- The state after one request, whatever it returned.
  unfoldable pub handle : Request → SessionStore → SessionStore
  handle (log_in user_id is_web) st = create_session lib auth user_id is_web st
  handle (refresh_with token) st = (rotate_session lib auth token st).1
  handle (authenticate payload) st = (validate lib auth payload st).1
  handle (log_out id) st = revoke id st
  handle (revoke_by id actor) st = (revoke_session_for id actor st).1
  handle (log_out_everywhere user_id except) st = revoke_all_for_user user_id except st
  handle (wait ms) st = record st { now = st.now + ms }

  unfoldable pub handle_all : List Request → SessionStore → SessionStore
  handle_all [] st = st
  handle_all (r ∷ rs) st = handle_all rs (handle r st)

  -- One write on the table of sessions, or time passing.
  pub data Write (st : SessionStore) : SessionStore → Type 0 where
    inserted : (user_id : ℕ) (is_web : Bool) → Write st (create_session lib auth user_id is_web st)
    revoked : (p : UserSession → Bool) → Write st (revoke_where p st)
    rotated :
        (id : ℕ) (s : UserSession) (hash : ℕ)
        → find_valid lib auth id st ≡ some s
        → Write st (rotate_refresh_token lib auth s hash st).1
    touched : (s : UserSession) → Write st (touch_activity_throttled s st)
    waited : (ms : ℕ) → Write st (record st { now = st.now + ms })

  pub data Writes (st : SessionStore) : SessionStore → Type 0 where
    nothing : Writes st st
    after : {u v : SessionStore} → Writes st u → Write u v → Writes st v

  -- How a refresh ends, as far as the table is concerned.
  rotate_current-cases :
      (s : UserSession) (hash : ℕ) (st : SessionStore)
      → let u = (rotate_refresh_token lib auth s hash st).1 in
        let v = (rotate_current lib auth s hash st).1 in (v ≡ u) ⊎ (v ≡ revoke s.id u)
  unfolding rotate_current reuse_token
  rotate_current-cases s hash st = ground arith

  rotate_session-cases :
      (token : ℕ) (st : SessionStore)
      → let v = (rotate_session lib auth token st).1 in
        (v ≡ st)
        ⊎ ((id : ℕ) × (v ≡ revoke id st))
        ⊎ ((id : ℕ) × (s : UserSession) × (find_valid lib auth id st ≡ some s)
            × (v ≡ (rotate_current lib auth s (lib.sha256 token) st).1))
  unfolding rotate_session verify_refresh_token refuse_inactive
  rotate_session-cases token st =
      elim (Option-cases (refresh_payload lib auth (lib.verify_async st.now token))) [
        | inl forged ↦ inl (ground arith)
        | inr (payload, genuine) ↦ elim (Option-cases (find_valid lib auth payload.session_id st)) [
          | inl missing ↦ inl (ground arith)
          | inr (s, found) ↦ elim (Bool-cases (s.user_id == payload.sub)) [
            | inr other ↦ inl (ground arith)
            | inl own ↦ elim (Option-cases (account_of lib auth s st)) [
              | inl gone ↦ inl (ground arith)
              | inr (a, there) ↦ elim (Bool-cases (is_active_account a.status)) [
                | inr off ↦ inr (inl (s.id, ground arith))
                | inl active ↦ inr (inr (payload.session_id, s, found, ground arith))
              ]
            ]
          ]
        ]
      ]

  validate-cases :
      (payload : JwtPayload) (st : SessionStore)
      → let v = (validate lib auth payload st).1 in
        (v ≡ st) ⊎ ((s : UserSession) × (v ≡ touch_activity_throttled s st))
  unfolding validate
  validate-cases payload st = elim (Option-cases (find_valid lib auth payload.session_id st)) [
    | inl missing ↦ inl (ground arith)
    | inr (s, found) ↦
        elim (Bool-cases (is_refresh payload.type || not (s.user_id == payload.sub))) [
          | inl refused ↦ inl (ground arith)
          | inr fine ↦ inr (s, ground arith)
        ]
  ]

  revoke_session_for-cases :
      (id : ℕ) (actor : AuthenticatedUser) (st : SessionStore)
      → let v = (revoke_session_for id actor st).1 in (v ≡ st) ⊎ (v ≡ revoke id st)
  unfolding revoke_session_for
  revoke_session_for-cases id actor st = elim (Option-cases (session_of id st)) [
    | inl missing ↦ inl (ground arith)
    | inr (s, found) ↦
        elim (Bool-cases (not (s.user_id == actor.id) && not (includes Role.admin actor.roles))) [
          | inl refused ↦ inl (ground arith)
          | inr fine ↦ inr (ground arith)
        ]
  ]

  unchanged : {st v : SessionStore} → v ≡ st → Writes st v
  unchanged {st} e = subst (Writes st) (sym e) nothing

  written :
      {st u v : SessionStore} → Writes st u → (w : SessionStore) → Write u w → v ≡ w → Writes st v
  written {st} before w write e = subst (Writes st) (sym e) (after before write)

  revoke-Write : (id : ℕ) (st : SessionStore) → Write st (revoke id st)
  unfolding revoke
  revoke-Write id st = revoked (λ s. s.id == id)

  rotate_session-Writes :
      (token : ℕ) (st : SessionStore) → Writes st (rotate_session lib auth token st).1
  rotate_session-Writes token st = elim (rotate_session-cases token st) [
    | inl same ↦ unchanged same
    | inr (inl (id, off)) ↦ written nothing (revoke id st) (revoke-Write id st) off
    | inr (inr (id, s, found, e)) ↦
        let hash = lib.sha256 token in
        let u = (rotate_refresh_token lib auth s hash st).1 in
        elim (rotate_current-cases s hash st) [
          | inl moved ↦ written nothing u (rotated id s hash found) (e ∙ moved)
          | inr stolen ↦
              written (after nothing (rotated id s hash found)) (revoke s.id u)
                (revoke-Write s.id u) (e ∙ stolen)
        ]
  ]

  -- Every request comes down to writes.
  pub handle-Writes : (r : Request) (st : SessionStore) → Writes st (handle r st)
  unfolding handle revoke_all_for_user
  handle-Writes (log_in user_id is_web) st = after nothing (inserted user_id is_web)
  handle-Writes (refresh_with token) st = rotate_session-Writes token st
  handle-Writes (authenticate payload) st = elim (validate-cases payload st) [
    | inl same ↦ unchanged same
    | inr (s, seen) ↦ written nothing (touch_activity_throttled s st) (touched s) seen
  ]
  handle-Writes (log_out id) st = after nothing (revoke-Write id st)
  handle-Writes (revoke_by id actor) st = elim (revoke_session_for-cases id actor st) [
    | inl same ↦ unchanged same
    | inr gone ↦ written nothing (revoke id st) (revoke-Write id st) gone
  ]
  handle-Writes (log_out_everywhere user_id except) st = after nothing (revoked _)
  handle-Writes (wait ms) st = after nothing (waited ms)

  module _ (I : SessionStore → Type 0)
      (keep : (st u : SessionStore) → Write st u → I st → I u) where
    Writes-keep : {st u : SessionStore} → Writes st u → I st → I u
    Writes-keep nothing h = h
    Writes-keep (after before write) h = keep _ _ write (Writes-keep before h)

    -- What every write keeps holds after any requests.
    pub handle_all-keep : (rs : List Request) (st : SessionStore) → I st → I (handle_all rs st)
    unfolding handle_all
    handle_all-keep [] st h = h
    handle_all-keep (r ∷ rs) st h =
        handle_all-keep rs (handle r st) (Writes-keep (handle-Writes r st) h)
