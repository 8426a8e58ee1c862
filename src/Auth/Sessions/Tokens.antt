-- ===== src/Auth/Sessions/Tokens.antt =====
-- A session lasts while its secret does.
use see_no_evil.Prelude.{
  ℕ, ◌+◌, ◌*◌, ◌&&◌, leb, ltb, if◌then◌else◌, ◌≡◌, refl, ◌≢◌, inl, inr, Bool, true, Option, none,
  some, Bool-cases, arith,
}
use see_no_evil.Text.{Text, lower, truthy}
use see_no_evil.Text.Laws.{eqb_refl}
use see_no_evil.Http.{ok, http}
use see_no_evil.Models.{User}
use see_no_evil.Table.{get, update}
use see_no_evil.Auth.Settings.{jwt_key, get_setting, get-set_setting}
use see_no_evil.Auth.Users.{
  Store, Hasher, Outcome-cases, returns, by_email, ensured, ensure_jwt_secret, rotate_jwt_secret,
  update_user, update_found, hash_password, set_password, set_role, set_disabled, user_id,
}
use see_no_evil.Auth.Sessions.{
  Claims, JwtLib, session_ttl, issue_session, decode, is_enabled_admin, require_admin, current_user,
}

get_setting-rotate :
    (fresh : Text) (store : Store)
    → get_setting jwt_key (rotate_jwt_secret fresh store).settings ≡ some fresh
unfolding rotate_jwt_secret
get_setting-rotate fresh store = rw (get-set_setting, eqb_refl jwt_key) refl

-- The secret that signs is the one that the settings then hold.
ensured_settings :
    (fresh : Text) (store : Store) (o : Option Text)
    → get_setting jwt_key store.settings ≡ o
    → get_setting jwt_key (ensured fresh store o).1.settings ≡ some (ensured fresh store o).0
ensured_settings fresh store none e = get_setting-rotate fresh store
ensured_settings fresh store (some secret) e = elim (Bool-cases (truthy secret)) [
  | inl present ↦ rw present e
  | inr empty ↦ rw empty (get_setting-rotate fresh store)
]

ensured-truthy :
    (fresh : Text) (store : Store) (o : Option Text)
    → truthy fresh ≡ true
    → truthy (ensured fresh store o).0 ≡ true
ensured-truthy fresh store none h = h
ensured-truthy fresh store (some secret) h = elim (Bool-cases (truthy secret)) [
  | inl present ↦ rw present present
  | inr empty ↦ rw empty h
]

ensured_users :
    (fresh : Text) (store : Store) (o : Option Text) → (ensured fresh store o).1.users ≡ store.users
unfolding rotate_jwt_secret
ensured_users fresh store none = refl
ensured_users fresh store (some secret) = elim (Bool-cases (truthy secret)) [
  | inl present ↦ rw present refl
  | inr empty ↦ rw empty refl
]

module _ {Token : Type 0} (lib : JwtLib Token) where
  -- The session that an enabled admin is issued passes the admin guard from its issue until four
  -- hours later, and the guard returns the address that the session was issued for; at any other
  -- time the guard answers 401. Neither the address nor a fresh secret is empty.
  pub require_admin-issue_session :
      (fresh : Text) (now later : ℕ) (email : Text) (store : Store) (u : User)
      → truthy fresh ≡ true
      → truthy email ≡ true
      → by_email (lower email) store.users ≡ some u
      → is_enabled_admin u ≡ true
      → require_admin lib later
          (some (issue_session lib fresh now email store).0)
          (issue_session lib fresh now email store).1
        ≡ (if leb now later && ltb later (now + 4 * 60 * 60) then ok email else http 401)
  unfolding require_admin issue_session decode ensure_jwt_secret
  require_admin-issue_session fresh now later email store u secret_made given found fine =
      let o = get_setting jwt_key store.settings in
      let secret = (ensured fresh store o).0 in
      let claims : Claims = record { sub = email; iat = now; exp = now + session_ttl } in
      let held = ensured_settings fresh store o refl in
      let made = ensured-truthy fresh store o secret_made in
      elim (Bool-cases (leb now later)) [
        | inr early ↦
            rw (held, made, lib.decode_early claims secret secret later (ground arith), early) refl
        | inl issued ↦ elim (Bool-cases (ltb later (now + 4 * 60 * 60))) [
          | inr late ↦
              rw
                (
                  held,
                  made,
                  lib.decode_expired claims secret secret later (ground arith),
                  issued,
                  late,
                )
                refl
          | inl soon ↦
              rw
                (
                  held,
                  made,
                  lib.decode-encode claims secret later (ground arith) (ground arith),
                  given,
                  ensured_users fresh store o,
                  found,
                  fine,
                  issued,
                  soon,
                )
                refl
        ]
      ]

module _ (hasher : Hasher) (fresh : Text) (id : ℕ) where
  set_role-settings :
      (role : Option Text) (store store' : Store)
      → set_role hasher id role store ≡ returns store'
      → store'.settings ≡ store.settings
  set_role-settings none store store' e = ground arith
  set_role-settings (some role) store store' e = ground arith

  set_disabled-settings :
      (disabled : Option Bool) (store : Store)
      → (set_disabled hasher id disabled store).settings ≡ store.settings
  set_disabled-settings none store = refl
  set_disabled-settings (some d) store = refl

  set_password-secret :
      (password : Text) (store store' : Store)
      → set_password hasher fresh id (some password) store ≡ returns store'
      → get_setting jwt_key store'.settings ≡ some fresh
  set_password-secret password store store' e =
      elim (Outcome-cases (hash_password hasher password)) [
        | inr short ↦ absurd (ground arith)
        | inl (hash, hashed) ↦
            let now : rotate_jwt_secret fresh (record store {
              users = update user_id id (λ u. record u { password_hash = hash }) store.users;
            })
                ≡ store' =
              ground arith in
            rw (← now) (get_setting-rotate fresh _)
      ]

  update_found-secret :
      (password : Text) (role : Option Text) (disabled : Option Bool) (store store' : Store)
      (o : Option User)
      → update_found hasher fresh id (some password) role disabled store o ≡ returns store'
      → get_setting jwt_key store'.settings ≡ some fresh
  update_found-secret password role disabled store store' none e = cc
  update_found-secret password role disabled store store' (some u) e =
      elim (Outcome-cases (set_password hasher fresh id (some password) store)) [
        | inr failed ↦ absurd (ground arith)
        | inl (s₁, e₁) ↦ elim (Outcome-cases (set_role hasher id role s₁)) [
          | inr failed ↦ absurd (ground arith)
          | inl (s₂, e₂) ↦
              let last : set_disabled hasher id disabled s₂ ≡ store' = ground arith in
              rw (← last, set_disabled-settings disabled s₂, set_role-settings role s₁ s₂ e₂)
                (set_password-secret password store s₁ e₁)
        ]
      ]

module _ {Token : Type 0} (lib : JwtLib Token) where
  stale :
      (fresh : Text) (now later : ℕ) (email : Text) (old store : Store)
      → (issued : Text) → (ensure_jwt_secret issued old).0 ≢ fresh
      → get_setting jwt_key store.settings ≡ some fresh
      → decode lib later (issue_session lib issued now email old).0 store ≡ http 401
  unfolding decode issue_session
  stale fresh now later email old store issued changed secret = elim (Bool-cases (truthy fresh)) [
    | inr empty ↦ rw (secret, empty) refl
    | inl present ↦
        rw
          (
            secret,
            present,
            lib.decode_other (record { sub = email; iat = now; exp = now + session_ttl })
                (ensure_jwt_secret issued old).0 fresh later changed,
          )
          refl
  ]

  -- A change of any user's password ends every session: a token that was issued before, under a
  -- secret other than the fresh one, gets 401 from the admin guard and from the guard for any user.
  pub update_user-http :
      (hasher : Hasher) (fresh issued : Text) (id now later : ℕ) (email password : Text)
      (role : Option Text) (disabled : Option Bool) (old store store' : Store)
      → (ensure_jwt_secret issued old).0 ≢ fresh
      → update_user hasher fresh id (some password) role disabled store ≡ returns store'
      → (require_admin lib later (some (issue_session lib issued now email old).0) store'
          ≡ http 401)
        × (current_user lib later (some (issue_session lib issued now email old).0) store'
            ≡ http 401)
  unfolding require_admin current_user update_user
  update_user-http hasher fresh issued id now later email password role disabled old store store'
        changed done =
      let secret =
        update_found-secret hasher fresh id password role disabled store store'
          (get user_id id store.users) done in
      rw (stale fresh now later email old store' issued changed secret) (refl, refl)
