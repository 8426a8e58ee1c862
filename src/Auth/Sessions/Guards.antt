-- ===== src/Auth/Sessions/Guards.antt =====
-- What the guards let through.
use see_no_evil.Prelude.{
  ℕ, ◌≡◌, refl, sym, ap, ◌≢◌, ◌↔◌, ◌⊎◌, inl, inr, true, false, Option, none, some, List, [], ◌∷◌,
  ◌==◌, Bool-cases, Option-cases, arith,
}
use see_no_evil.Text.{Text, codes, lower, truthy}
use see_no_evil.Text.Laws.{eqb_iff}
use see_no_evil.Http.{Reply, ok, http, Reply-cases}
use see_no_evil.Models.{User}
use see_no_evil.Auth.Bearer.{bearer_token, configured_token, compared-token_matches}
use see_no_evil.Auth.Users.{Store, role_admin, by_email, is_legacy_single_admin}
use see_no_evil.Auth.Sessions.{
  JwtLib, decode, is_enabled_admin, admin_found, admin_of_sub, require_admin, user_found,
  current_user, scanner_reply, or_scanner, require_admin_or_scanner,
}

no_users : (users : List User) → is_legacy_single_admin users ≡ true → users ≡ []
unfolding is_legacy_single_admin
no_users [] h = refl
no_users (u ∷ users) h = cc

enabled_parts :
    (u : User) → is_enabled_admin u ≡ true → (u.disabled ≡ false) × (u.role ≡ role_admin)
enabled_parts u h = ground (arith, eqb_iff u.role role_admin)

parts_enabled : (u : User) → u.disabled ≡ false → u.role ≡ role_admin → is_enabled_admin u ≡ true
parts_enabled u d r = ground (arith, eqb_iff u.role role_admin)

scanner_reply_sound :
    (expected auth who : Text)
    → scanner_reply expected auth ≡ ok who
    → (truthy expected ≡ true) × (bearer_token auth ≡ expected)
scanner_reply_sound expected auth who e =
    compared-token_matches (bearer_token auth) expected who (codes "scanner") 401 e

or_scanner_sound :
    (expected auth : Text) (r : Reply Text) (who : Text)
    → or_scanner expected auth r ≡ ok who
    → ((r ≡ ok who) ⊎ ((truthy expected ≡ true) × (bearer_token auth ≡ expected))) × (r ≢ http 403)
or_scanner_sound expected auth (ok sub) who e = (inl e, cc)
or_scanner_sound expected auth (http code) who e = elim (Bool-cases (code == 403)) [
  | inl forbidden ↦ absurd (ground arith)
  | inr other ↦ (inr (scanner_reply_sound expected auth who (rw other at e)), λ q. ground arith)
]

module _ {Token : Type 0} (lib : JwtLib Token) where
  -- There is no user at all, or the address has an enabled user with the role of an admin.
  abbrev pub IsAdmin : Text → Store → Type 0
  IsAdmin email store =
      (store.users ≡ [])
      ⊎ ((u : User) × (by_email email store.users ≡ some u)
          × (u.disabled ≡ false)
          × (u.role ≡ role_admin))

  admin_found_sound :
      (sub who : Text) (store : Store)
      → admin_found lib sub store (by_email (lower sub) store.users) ≡ ok who
      → (who ≡ sub) × IsAdmin (lower sub) store
  admin_found_sound sub who store e = elim (Option-cases (by_email (lower sub) store.users)) [
    | inl gone ↦ elim (Bool-cases (is_legacy_single_admin store.users)) [
      | inl alone ↦ (ground arith, inl (no_users store.users alone))
      | inr others ↦ absurd (ground arith)
    ]
    | inr (u, found) ↦ elim (Bool-cases (is_enabled_admin u)) [
      | inl fine ↦
          let (on, admin) = enabled_parts u fine in (ground arith, inr (u, found, on, admin))
      | inr bad ↦ absurd (ground arith)
    ]
  ]

  admin_of_sub_sound :
      (store : Store) (r : Reply Text) (who : Text)
      → admin_of_sub lib store r ≡ ok who
      → (r ≡ ok who) × IsAdmin (lower who) store
  admin_of_sub_sound store (http code) who e = cc
  admin_of_sub_sound store (ok sub) who e = elim (Bool-cases (truthy sub)) [
    | inr empty ↦ absurd (ground arith)
    | inl present ↦
        let (same, admin) = admin_found_sound sub who store (rw present at e) in
        (ap ok (sym same), rw same admin)
  ]

  -- A request that the admin guard lets through has a session cookie that decodes to the address
  -- which the guard returns, and that address belongs to an enabled admin, or there are no users.
  pub require_admin_sound :
      (now : ℕ) (cookie : Option Token) (store : Store) (who : Text)
      → require_admin lib now cookie store ≡ ok who
      → ((token : Token) × (cookie ≡ some token) × (decode lib now token store ≡ ok who))
        × IsAdmin (lower who) store
  unfolding require_admin
  require_admin_sound now none store who e = cc
  require_admin_sound now (some token) store who e =
      let (decoded, admin) = admin_of_sub_sound store (decode lib now token store) who e in
      ((token, refl, decoded), admin)

  user_found-admin :
      (sub : Text) (store : Store) (o : Option User) (who : Text)
      → admin_found lib sub store o ≡ ok who
      → (email : Text) × (user_found lib (lower sub) store o ≡ ok (email, role_admin))
  user_found-admin sub store none who e = elim (Bool-cases (is_legacy_single_admin store.users)) [
    | inl alone ↦ (lower sub, rw alone refl)
    | inr others ↦ absurd (ground arith)
  ]
  user_found-admin sub store (some u) who e = elim (Bool-cases (is_enabled_admin u)) [
    | inl fine ↦ let (on, admin) = enabled_parts u fine in (u.email, ground arith)
    | inr bad ↦ absurd (ground arith)
  ]

  admin-user_found :
      (sub email : Text) (store : Store) (o : Option User)
      → user_found lib (lower sub) store o ≡ ok (email, role_admin)
      → admin_found lib sub store o ≡ ok sub
  admin-user_found sub email store none e = elim (Bool-cases (is_legacy_single_admin store.users)) [
    | inl alone ↦ rw alone refl
    | inr others ↦ absurd (ground arith)
  ]
  admin-user_found sub email store (some u) e = elim (Bool-cases u.disabled) [
    | inl off ↦ absurd (ground arith)
    | inr on ↦ let admin : u.role ≡ role_admin = ground arith in rw (parts_enabled u on admin) refl
  ]

  -- The two guards agree on who is an admin: the admin guard lets a request through exactly when
  -- the guard for any user returns the role of an admin.
  pub require_admin-current_user :
      (now : ℕ) (cookie : Option Token) (store : Store)
      → ((who : Text) × (require_admin lib now cookie store ≡ ok who))
        ↔ ((email : Text) × (current_user lib now cookie store ≡ ok (email, role_admin)))
  unfolding require_admin current_user
  require_admin-current_user now none store = (λ k. cc (k.1), λ k. cc (k.1))
  require_admin-current_user now (some token) store =
      elim (Reply-cases (decode lib now token store)) [
        | inr (code, failed) ↦ rw failed (λ k. cc (k.1), λ k. cc (k.1))
        | inl (sub, decoded) ↦ elim (Bool-cases (truthy sub)) [
          | inr empty ↦ rw (decoded, empty) (λ k. cc (k.1), λ k. cc (k.1))
          | inl present ↦
              rw (decoded, present)
                (
                  λ k. user_found-admin sub store (by_email (lower sub) store.users) k.0 k.1,
                  λ k. (sub, admin-user_found sub k.0 store (by_email (lower sub) store.users) k.1),
                )
        ]
      ]

  -- The scanner's endpoint lets a request through only with a cookie that the admin guard accepts,
  -- or with the configured, non-empty scanner token; and where the admin guard answers 403, as for
  -- a disabled user or a viewer, the scanner token does not help.
  pub require_admin_or_scanner_sound :
      (now : ℕ) (cookie : Option Token) (in_config in_env : Option Text) (auth : Text)
      (store : Store) (who : Text)
      → require_admin_or_scanner lib now cookie in_config in_env auth store ≡ ok who
      → ((require_admin lib now cookie store ≡ ok who)
          ⊎ ((truthy (configured_token in_config in_env) ≡ true)
              × (bearer_token auth ≡ configured_token in_config in_env)))
        × (require_admin lib now cookie store ≢ http 403)
  unfolding require_admin_or_scanner
  require_admin_or_scanner_sound now none in_config in_env auth store who e = (
    inr (scanner_reply_sound (configured_token in_config in_env) auth who e),
    λ q. unfold require_admin in ground arith,
  )
  require_admin_or_scanner_sound now (some token) in_config in_env auth store who e =
      or_scanner_sound (configured_token in_config in_env) auth
        (require_admin lib now (some token) store) who e
