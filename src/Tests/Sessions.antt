-- ===== src/Tests/Sessions.antt =====
-- Runs of the sessions: src/modules/identity/sessions.
use transport_api.Common.{
  List, [], any, arith, false, none, refl, some, true, ◌%◌, ◌*◌, ◌+◌, ◌/◌, ◌∷◌, ◌≡◌, ◌≢◌,
}
use transport_api.Common.Action.{
  err, invalid_refresh_token, ok, session_revoked, token_reuse_detected,
}
use transport_api.Domain.{StatusAccount}
use transport_api.Sessions.{
  AuthConfig, JwtPayload, RotatedSession, SessionStore, TokenLibrary, TokenType, UserSession,
  current_token_within_grace, find_valid, refuse_inactive, reuse_token, revoke, rotate_current,
  rotate_refresh_token, rotate_session, sign_refresh_token, validate, verify_refresh_token,
}
use transport_api.Sessions.Requests.{Request, handle_all, log_in, refresh_with, wait}
use transport_api.Sessions.Requests.Lifetime.{IsSound, handle_all-IsSound}
use transport_api.Sessions.Requests.Reuse.{
  is_current_token, only_one_refresh_moves, refreshed_token_is_current,
}
use transport_api.Sessions.Requests.Revocation.{revocation_is_final}

-- A library whose tokens are numbers that spell out their claims.
abbrev numbers : TokenLibrary
numbers = record {
  sign_async = λ payload iat expires_in. payload.session_id * 100000 + payload.sub * 1000 + iat;
  verify_async = λ now token.
      some (record {
        sub = token / 1000 % 100;
        session_id = token / 100000;
        type = TokenType.refresh;
      });
  sha256 = λ token. token + 7;
}

abbrev config : AuthConfig
config = record {
  refresh_ttl_web = 60000;
  refresh_ttl_mobile = 90000;
  session_max_age = 200000;
  refresh_reuse_grace_seconds = 10;
}

abbrev phone : UserSession
phone = record {
  id = 4;
  user_id = 7;
  refresh_token_hash = 407008;
  previous_refresh_token_hash = none;
  refresh_rotated_at = none;
  is_web = false;
  last_activity_at = 1000;
  expires_at = 91000;
  revoked_at = none;
  created_at = 1000;
}

abbrev one_phone : SessionStore
one_phone = record {
  now = 5000;
  next_id = 5;
  accounts = record { id = 7; status = StatusAccount.active; roles = [] } ∷ [];
  sessions = phone ∷ [];
}

abbrev refreshed : RotatedSession
refreshed = record { session = phone; refresh_token = 407005 }

abbrev after_refresh : SessionStore
after_refresh = (rotate_session numbers config 407001 one_phone).1

refresh_works : rotate_session numbers config 407001 one_phone ≡ (ok refreshed, after_refresh)
unfolding rotate_session verify_refresh_token find_valid refuse_inactive rotate_current
    rotate_refresh_token
refresh_works = refl

-- The replaced token is answered with the current one while the grace lasts ...
within_grace :
    (rotate_session numbers config 407001 after_refresh).0
    ≡ ok (record refreshed {
      session = record phone {
        refresh_token_hash = 407012;
        previous_refresh_token_hash = some 407008;
        refresh_rotated_at = some 5000;
        expires_at = 95000;
        last_activity_at = 5000;
      };
    })
unfolding rotate_session verify_refresh_token find_valid refuse_inactive rotate_current
    rotate_refresh_token reuse_token current_token_within_grace
within_grace = refl

-- ... and revokes the session afterwards.
after_grace :
    (rotate_session numbers config 407001 (record after_refresh { now = 16000 })).0
    ≡ err token_reuse_detected
unfolding rotate_session verify_refresh_token find_valid refuse_inactive rotate_current
    rotate_refresh_token reuse_token current_token_within_grace
after_grace = refl

refreshed_token_is_current_example :
    any (is_current_token numbers config 4 407005) after_refresh.sessions ≡ true
refreshed_token_is_current_example =
    refreshed_token_is_current numbers config 407001 one_phone after_refresh refreshed refresh_works

fresh_hash : numbers.sha256 (sign_refresh_token numbers config phone 5) ≢ 407008
fresh_hash e = omega arith

only_one_refresh_moves_example :
    let st' = (rotate_refresh_token numbers config phone 407008 one_phone).1 in
    (rotate_refresh_token numbers config phone 407008 (record st' { now = st'.now + 20 })).0 ≡ 0
only_one_refresh_moves_example =
    only_one_refresh_moves numbers config phone phone 407008 20 one_phone refl fresh_hash

abbrev evening : List Request
evening = refresh_with 407001 ∷ wait 16000 ∷ refresh_with 407001 ∷ log_in 7 true ∷ []

sound : IsSound numbers config one_phone
sound = record { distinct = (tt, tt); issued = (omega arith, tt); capped = (omega arith, tt) }

handle_all-IsSound_example : IsSound numbers config (handle_all numbers config evening one_phone)
handle_all-IsSound_example = handle_all-IsSound numbers config evening one_phone sound

abbrev claims : JwtPayload
claims = record { sub = 7; session_id = 4; type = TokenType.access }

abbrev refresh_claims : JwtPayload
refresh_claims = record claims { type = TokenType.refresh }

revocation_is_final_example :
    let u = handle_all numbers config evening (revoke 4 one_phone) in
    (validate numbers config claims u ≡ (err session_revoked, u))
    × (rotate_session numbers config 407001 u ≡ (err invalid_refresh_token, u))
revocation_is_final_example =
    revocation_is_final numbers config 4 one_phone evening claims refresh_claims 407001
      (omega arith) refl refl refl
