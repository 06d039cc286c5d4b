-- ===== src/Sessions/Requests/Reuse.antt =====
-- src/modules/identity/sessions: `rotateSession` and the two ways in which it gives a token out.
use transport_api.Common.{
  ==_iff, ==_refl, Bool, Bool-cases, List, Option-cases, [], any, arith, count_where,
  count_where-update_where, false, find_first, find_first_sound, inl, inr, some, subst, sym, true,
  update_where, ℕ, ◌+◌, ◌/◌, ◌==◌, ◌∷◌, ◌≡◌, ◌≢◌, ◌⊎◌,
}
use transport_api.Common.Action.{Result-cases, ok}
use transport_api.Sessions.{
  AuthConfig, RotatedSession, SessionStore, TokenLibrary, UserSession, account_of,
  current_token_within_grace, find_valid, is_active_account, is_current_hash, next_expiry,
  refresh_payload, refresh_ttl_for, refuse_inactive, reuse_token, rotate_current,
  rotate_refresh_token, rotate_session, session_of, set_rotation, sign_refresh_token,
  verify_refresh_token,
}

module _ (lib : TokenLibrary) (auth : AuthConfig) where
  -- The live session whose current refresh token is this one.
  abbrev pub is_current_token : ℕ → ℕ → UserSession → Bool
  is_current_token id token = is_current_hash lib auth id (lib.sha256 token)

  moved_row :
      (p q : UserSession → Bool) (f : UserSession → UserSession) (ss : List UserSession)
      → ((s : UserSession) → p s ≡ true → q (f s) ≡ true)
      → (count_where p ss == 0) ≡ false
      → any q (update_where p f ss) ≡ true
  moved_row p q f [] on some_row = absurd (ground arith)
  moved_row p q f (s ∷ ss) on some_row = ground (arith, on s, moved_row p q f ss on)

  found_row :
      (p q : UserSession → Bool) (ss : List UserSession) (s : UserSession)
      → find_first p ss ≡ some s
      → q s ≡ true
      → any q ss ≡ true
  found_row p q [] s found good = absurd (ground arith)
  found_row p q (x ∷ xs) s found good = ground (arith, found_row p q xs s)

  rotated-is_current :
      (s : UserSession) (hash : ℕ) (st : SessionStore)
      → let (moved, st') = rotate_refresh_token lib auth s hash st in
        (moved == 0) ≡ false
        → any (is_current_token s.id (sign_refresh_token lib auth s (st.now / 1000))) st'.sessions
          ≡ true
  unfolding rotate_refresh_token
  rotated-is_current s hash st moved =
      moved_row (is_current_hash lib auth s.id hash)
        (is_current_token s.id (sign_refresh_token lib auth s (st.now / 1000)))
        (set_rotation lib auth hash (lib.sha256 (sign_refresh_token lib auth s (st.now / 1000)))
          (next_expiry lib auth st.now s.created_at (refresh_ttl_for lib auth s.is_web)) st.now)
        st.sessions
        (λ x here.
          ground (arith, ==_refl (lib.sha256 (sign_refresh_token lib auth s (st.now / 1000)))))
        moved

  grace-is_current :
      (id hash : ℕ) (st : SessionStore) (token : ℕ)
      → current_token_within_grace lib auth id hash st ≡ ok (some token)
      → any (is_current_token id token) st.sessions ≡ true
  unfolding current_token_within_grace
  grace-is_current id hash st token given = elim (Option-cases (session_of id st)) [
    | inl missing ↦ absurd (ground arith)
    | inr (s, found) ↦ elim (Option-cases s.refresh_rotated_at) [
      | inl never ↦ absurd (ground arith)
      | inr (at, once) ↦
          let own = find_first_sound (λ (x : UserSession). x.id == id) st.sessions s found in
          found_row (λ (x : UserSession). x.id == id) (is_current_token id token) st.sessions s
            found
            (ground
              (arith, own, given, found, once, ==_iff (lib.sha256 token) s.refresh_token_hash))
    ]
  ]

  rotate_current-moved :
      (s : UserSession) (hash : ℕ) (st st' : SessionStore) (r : RotatedSession)
      → rotate_current lib auth s hash st ≡ (ok r, st')
      → let (moved, u) = rotate_refresh_token lib auth s hash st in
        ((r.session ≡ s) × (st' ≡ u))
        × (((moved == 0) ≡ false)
              × (r.refresh_token ≡ sign_refresh_token lib auth s (st.now / 1000))
            ⊎ (current_token_within_grace lib auth s.id hash u ≡ ok (some r.refresh_token)))
  unfolding rotate_current reuse_token
  rotate_current-moved s hash st st' r returned =
      let u = (rotate_refresh_token lib auth s hash st).1 in
      elim (Bool-cases ((rotate_refresh_token lib auth s hash st).0 == 0)) [
        | inr some_row ↦ ground arith
        | inl no_row ↦ elim (Result-cases (current_token_within_grace lib auth s.id hash u)) [
          | inr (e, refused) ↦ absurd (ground arith)
          | inl (given, read) ↦ elim (Option-cases given) [
            | inl stolen ↦ absurd (ground arith)
            | inr (token, in_time) ↦ ground arith
          ]
        ]
      ]

  given_is_current :
      (s : UserSession) (hash : ℕ) (st st' : SessionStore) (r : RotatedSession)
      → rotate_current lib auth s hash st ≡ (ok r, st')
      → any (is_current_token r.session.id r.refresh_token) st'.sessions ≡ true
  given_is_current s hash st st' r returned =
      let ((same, at), how) = rotate_current-moved s hash st st' r returned in
      let here = λ (x : UserSession) (token : ℕ) (u : SessionStore).
        any (is_current_token x.id token) u.sessions ≡ true in
      let u = (rotate_refresh_token lib auth s hash st).1 in
      let moved : here s r.refresh_token u = elim how [
        | inl (some_row, token) ↦
            subst (λ t. here s t u) (sym token) (rotated-is_current s hash st some_row)
        | inr given ↦ grace-is_current s.id hash u r.refresh_token given
      ] in
      subst (λ x. here x r.refresh_token st') (sym same)
        (subst (here s r.refresh_token) (sym at) moved)

  rotate_session-ok :
      (token : ℕ) (st st' : SessionStore) (r : RotatedSession)
      → rotate_session lib auth token st ≡ (ok r, st')
      → (s : UserSession) × (rotate_current lib auth s (lib.sha256 token) st ≡ (ok r, st'))
  unfolding rotate_session verify_refresh_token refuse_inactive
  rotate_session-ok token st st' r returned =
      elim (Option-cases (refresh_payload lib auth (lib.verify_async st.now token))) [
        | inl forged ↦ absurd (ground arith)
        | inr (payload, genuine) ↦ elim (Option-cases (find_valid lib auth payload.session_id st)) [
          | inl missing ↦ absurd (ground arith)
          | inr (s, found) ↦ elim (Bool-cases (s.user_id == payload.sub)) [
            | inr other ↦ absurd (ground arith)
            | inl own ↦ elim (Option-cases (account_of lib auth s st)) [
              | inl gone ↦ absurd (ground arith)
              | inr (a, there) ↦ elim (Bool-cases (is_active_account a.status)) [
                | inr off ↦ absurd (ground arith)
                | inl active ↦ (s, ground arith)
              ]
            ]
          ]
        ]
      ]

  -- Every refresh token that is given out, by a rotation or within the grace window, is at that
  -- moment the current one of its session, and the session is not revoked.
  pub refreshed_token_is_current :
      (token : ℕ) (st st' : SessionStore) (r : RotatedSession)
      → rotate_session lib auth token st ≡ (ok r, st')
      → any (is_current_token r.session.id r.refresh_token) st'.sessions ≡ true
  refreshed_token_is_current token st st' r returned =
      let (s, e) = rotate_session-ok token st st' r returned in
      given_is_current s (lib.sha256 token) st st' r e

  -- Of two refreshes with the same token only one moves the session: if the token that the first
  -- one signs has another hash, the second finds no row to move, whatever session row and time it
  -- goes by.
  pub only_one_refresh_moves :
      (s x : UserSession) (hash ms : ℕ) (st : SessionStore)
      → x.id ≡ s.id
      → lib.sha256 (sign_refresh_token lib auth s (st.now / 1000)) ≢ hash
      → let st' = (rotate_refresh_token lib auth s hash st).1 in
        (rotate_refresh_token lib auth x hash (record st' { now = st'.now + ms })).0 ≡ 0
  unfolding rotate_refresh_token
  only_one_refresh_moves s x hash ms st same other =
      let next = lib.sha256 (sign_refresh_token lib auth s (st.now / 1000)) in
      let p = is_current_hash lib auth s.id hash in
      let f =
        set_rotation lib auth hash next
          (next_expiry lib auth st.now s.created_at (refresh_ttl_for lib auth s.is_web)) st.now in
      subst (λ k. count_where (is_current_hash lib auth k hash) (update_where p f st.sessions) ≡ 0)
        (sym same)
        (count_where-update_where p f st.sessions
          (λ y here. ground (arith, other, ==_iff next hash)))
