-- ===== src/Sessions.antt =====
-- src/modules/identity/sessions: sessions.service.ts, sessions.repository.ts, token.service.ts and
-- strategies/jwt.strategy.ts. Tokens and hashes are numbers, which are only compared. The signing
-- library and SHA-256 are parameters; durations are the parsed ones, in milliseconds.
pub mod Requests
use transport_api.Common.{
  Bool, List, Option, count_where, false, find_first, if◌then◌else◌, is_none, leb, ltb, none, not,
  some, suc, true, update_where, ℕ, ◌&&◌, ◌*◌, ◌+◌, ◌-◌, ◌/◌, ◌==◌, ◌∷◌,
}
use transport_api.Common.Action.{
  Action, Result, account_blocked, account_inactive, err, forbidden, gets, invalid_refresh_token,
  modify, ok, or_throw, pure, resource_not_found, session_revoked, throw_if, token_reuse_detected,
  unauthorized, ◌>>=◌, ◌>>◌,
}
use transport_api.Domain.{Role, StatusAccount, includes}
use transport_api.World.{AuthenticatedUser}

-- `refreshTtlWeb`, `refreshTtlMobile`, `sessionMaxAge` and `refreshReuseGraceSeconds`
pub record AuthConfig : Type 0 where
  pub refresh_ttl_web : ℕ
  pub refresh_ttl_mobile : ℕ
  pub session_max_age : ℕ
  pub refresh_reuse_grace_seconds : ℕ

pub data TokenType : Type 0 where
  access refresh : TokenType

pub record JwtPayload : Type 0 where
  pub sub : ℕ
  pub session_id : ℕ
  pub type : TokenType

-- What the sessions use of @nestjs/jwt and of the hash. `sign_async payload iat expires_in` is the
-- token of those claims; `verify_async now token` gives the claims back, or nothing for a token
-- that is forged or over.
pub record TokenLibrary : Type 0 where
  pub sign_async : JwtPayload → ℕ → ℕ → ℕ
  pub verify_async : ℕ → ℕ → Option JwtPayload
  pub sha256 : ℕ → ℕ

-- `is_web` is `platform === 'web'`.
pub record UserSession : Type 0 where
  pub id : ℕ
  pub user_id : ℕ
  pub refresh_token_hash : ℕ
  pub previous_refresh_token_hash : Option ℕ
  pub refresh_rotated_at : Option ℕ
  pub is_web : Bool
  pub last_activity_at : ℕ
  pub expires_at : ℕ
  pub revoked_at : Option ℕ
  pub created_at : ℕ

pub record Account : Type 0 where
  pub id : ℕ
  pub status : StatusAccount
  pub roles : List Role

pub record SessionStore : Type 0 where
  pub now : ℕ
  pub next_id : ℕ
  pub accounts : List Account
  pub sessions : List UserSession

pub record RotatedSession : Type 0 where
  pub session : UserSession
  pub refresh_token : ℕ

abbrev pub is_refresh : TokenType → Bool
is_refresh TokenType.refresh = true
is_refresh TokenType.access = false

abbrev pub is_active_account : StatusAccount → Bool
is_active_account StatusAccount.active = true
is_active_account _ = false

abbrev pub is_blocked_account : StatusAccount → Bool
is_blocked_account StatusAccount.blocked = true
is_blocked_account _ = false

abbrev pub session_of : ℕ → SessionStore → Option UserSession
session_of id st = find_first (λ (s : UserSession). s.id == id) st.sessions

abbrev pub set_revoked : ℕ → UserSession → UserSession
set_revoked now s = record s { revoked_at = some now }

abbrev pub set_active : ℕ → UserSession → UserSession
set_active now s = record s { last_activity_at = now }

-- `revoke` and `revokeUserSessions`: the first moment of the revocation stays.
abbrev pub revoke_where : (UserSession → Bool) → SessionStore → SessionStore
revoke_where p st = record st {
  sessions =
      update_where (λ (s : UserSession). p s && is_none s.revoked_at) (set_revoked st.now)
        st.sessions;
}

unfoldable pub revoke : ℕ → SessionStore → SessionStore
revoke id = revoke_where (λ s. s.id == id)

abbrev pub is_spared : Option ℕ → UserSession → Bool
is_spared none s = false
is_spared (some id) s = s.id == id

unfoldable pub revoke_all_for_user : ℕ → Option ℕ → SessionStore → SessionStore
revoke_all_for_user user_id except =
    revoke_where (λ s. s.user_id == user_id && not (is_spared except s))

-- `touchActivityThrottled`, at most one write in five minutes
unfoldable pub touch_activity_throttled : UserSession → SessionStore → SessionStore
touch_activity_throttled session st =
    if ltb (st.now - session.last_activity_at) 300000 then st else record st {
      sessions =
          update_where (λ (s : UserSession). s.id == session.id) (set_active st.now) st.sessions;
    }

-- `revokeSessionFor`
unfoldable pub revoke_session_for : ℕ → AuthenticatedUser → Action SessionStore (Unit {0})
revoke_session_for session_id actor = do
  session ← or_throw (← gets (session_of session_id)) resource_not_found
  throw_if (not (session.user_id == actor.id) && not (includes Role.admin actor.roles)) forbidden
  modify (revoke session_id)

module _ (lib : TokenLibrary) (auth : AuthConfig) where
  abbrev pub refresh_ttl_for : Bool → ℕ
  refresh_ttl_for is_web = if is_web then auth.refresh_ttl_web else auth.refresh_ttl_mobile

  -- Sliding expiry, never beyond the cap.
  abbrev pub next_expiry : ℕ → ℕ → ℕ → ℕ
  next_expiry now created_at ttl =
      let sliding = now + ttl in
      let cap = created_at + auth.session_max_age in if ltb sliding cap then sliding else cap

  -- `findValidWithUser`; the cutoff is `createdAt > now - sessionMaxAge`.
  abbrev pub is_valid : ℕ → ℕ → UserSession → Bool
  is_valid now id s =
      s.id == id
      && is_none s.revoked_at
      && ltb now s.expires_at
      && ltb now (s.created_at + auth.session_max_age)

  unfoldable pub find_valid : ℕ → SessionStore → Option UserSession
  find_valid id st = find_first (is_valid st.now id) st.sessions

  abbrev pub account_of : UserSession → SessionStore → Option Account
  account_of s st = find_first (λ (a : Account). a.id == s.user_id) st.accounts

  abbrev pub sign_refresh_token : UserSession → ℕ → ℕ
  sign_refresh_token s issued_at =
      lib.sign_async (record { sub = s.user_id; session_id = s.id; type = TokenType.refresh })
        issued_at (refresh_ttl_for s.is_web / 1000)

  abbrev pub refresh_payload : Option JwtPayload → Option JwtPayload
  refresh_payload none = none
  refresh_payload (some p) = if is_refresh p.type then some p else none

  -- `verifyRefreshToken`
  unfoldable pub verify_refresh_token : ℕ → Action SessionStore JwtPayload
  verify_refresh_token token st =
      or_throw (refresh_payload (lib.verify_async st.now token)) invalid_refresh_token st

  -- `createSession`; the database fills in `createdAt` and `lastActivityAt`.
  abbrev pub new_session : ℕ → Bool → SessionStore → UserSession
  new_session user_id is_web st =
      let draft : UserSession = record {
        id = st.next_id;
        user_id = user_id;
        refresh_token_hash = 0;
        previous_refresh_token_hash = none;
        refresh_rotated_at = none;
        is_web = is_web;
        last_activity_at = st.now;
        expires_at = next_expiry st.now st.now (refresh_ttl_for is_web);
        revoked_at = none;
        created_at = st.now;
      } in
      record draft { refresh_token_hash = lib.sha256 (sign_refresh_token draft (st.now / 1000)) }

  unfoldable pub create_session : ℕ → Bool → SessionStore → SessionStore
  create_session user_id is_web st = record st {
    next_id = suc st.next_id;
    sessions = new_session user_id is_web st ∷ st.sessions;
  }

  -- `rotateRefreshToken`: the row moves only while the presented hash is the current one.
  abbrev pub is_current_hash : ℕ → ℕ → UserSession → Bool
  is_current_hash id hash s = s.id == id && s.refresh_token_hash == hash && is_none s.revoked_at

  abbrev pub set_rotation : ℕ → ℕ → ℕ → ℕ → UserSession → UserSession
  set_rotation current next expires now s = record s {
    refresh_token_hash = next;
    previous_refresh_token_hash = some current;
    refresh_rotated_at = some (now / 1000 * 1000);
    expires_at = expires;
    last_activity_at = now;
  }

  unfoldable pub rotate_refresh_token : UserSession → ℕ → SessionStore → ℕ × SessionStore
  rotate_refresh_token s presented st =
      let next = lib.sha256 (sign_refresh_token s (st.now / 1000)) in
      let expires = next_expiry st.now s.created_at (refresh_ttl_for s.is_web) in
      (
        count_where (is_current_hash s.id presented) st.sessions,
        record st {
          sessions =
              update_where (is_current_hash s.id presented)
                (set_rotation presented next expires st.now) st.sessions;
        },
      )

  -- The conditions of `currentTokenWithinGrace` on the session that it reads again.
  abbrev pub in_grace : ℕ → ℕ → UserSession → ℕ → Bool
  in_grace now presented s rotated_at =
      let grace_ms = auth.refresh_reuse_grace_seconds * 1000 in
      ltb 0 grace_ms
      && is_none s.revoked_at
      && ltb now s.expires_at
      && elim s.previous_refresh_token_hash [ none ↦ false | some hash ↦ hash == presented ]
      && leb (now - rotated_at) grace_ms

  abbrev pub reproduced_token : ℕ → ℕ → UserSession → ℕ → Result (Option ℕ)
  reproduced_token now presented s rotated_at =
      let token = sign_refresh_token s (rotated_at / 1000) in
      if not (in_grace now presented s rotated_at)
      then ok none
      else if lib.sha256 token == s.refresh_token_hash
      then ok (some token)
      else err invalid_refresh_token

  -- `currentTokenWithinGrace`
  unfoldable pub current_token_within_grace : ℕ → ℕ → SessionStore → Result (Option ℕ)
  current_token_within_grace id presented st = elim (session_of id st) [
    | none ↦ ok none
    | some s ↦ elim s.refresh_rotated_at [
      | none ↦ ok none
      | some rotated_at ↦ reproduced_token st.now presented s rotated_at
    ]
  ]

  -- `rotateSession` where the presented token is not the current one
  unfoldable pub reuse_token : UserSession → ℕ → Action SessionStore RotatedSession
  reuse_token session presented st = elim (current_token_within_grace session.id presented st) [
    | err e ↦ (err e, st)
    | ok (some token) ↦ (ok (record { session = session; refresh_token = token }), st)
    | ok none ↦ (err token_reuse_detected, revoke session.id st)
  ]

  unfoldable pub rotate_current : UserSession → ℕ → Action SessionStore RotatedSession
  rotate_current session presented st =
      let (rotated, st') = rotate_refresh_token session presented st in
      if rotated == 0 then reuse_token session presented st' else (
        ok (record {
          session = session;
          refresh_token = sign_refresh_token session (st.now / 1000);
        }),
        st',
      )

  -- A session of an account that is not active is revoked for good.
  unfoldable pub refuse_inactive : UserSession → StatusAccount → Action SessionStore (Unit {0})
  refuse_inactive session status st = if is_active_account status then (ok tt, st) else (
    err (if is_blocked_account status then account_blocked else account_inactive),
    revoke session.id st,
  )

  -- `rotateSession`
  unfoldable pub rotate_session : ℕ → Action SessionStore RotatedSession
  rotate_session refresh_token = do
    payload ← verify_refresh_token refresh_token
    session ← or_throw (← gets (find_valid payload.session_id)) invalid_refresh_token
    throw_if (not (session.user_id == payload.sub)) invalid_refresh_token
    account ← or_throw (← gets (account_of session)) invalid_refresh_token
    refuse_inactive session account.status
    rotate_current session (lib.sha256 refresh_token)

  -- `JwtStrategy.validate`, on the claims of an access token whose signature was checked
  unfoldable pub validate : JwtPayload → Action SessionStore UserSession
  validate payload = do
    throw_if (is_refresh payload.type) unauthorized
    session ← or_throw (← gets (find_valid payload.session_id)) session_revoked
    throw_if (not (session.user_id == payload.sub)) session_revoked
    modify (touch_activity_throttled session)
    pure session
