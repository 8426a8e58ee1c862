-- ===== src/Auth/Users/Passwords.antt =====
-- Passwords that were set verify, disabled users do not, and addresses stay distinct.
use see_no_evil.Prelude.{
  ℕ, ◌≡◌, refl, ◌∙◌, inl, inr, true, false, not, ◌||◌, Option, none, some, List, [], ◌∷◌, ◌++◌, map,
  ◌==◌, ==_iff, if◌then◌else◌, Bool-cases, Option-cases, arith,
}
use see_no_evil.Text.{Text, eqb, truthy, contains, member, codes}
use see_no_evil.Text.Laws.{eqb_iff, eqb_refl}
use see_no_evil.Models.{User}
use see_no_evil.Table.{get, update, map_option}
use see_no_evil.Auth.Users.{
  Outcome-cases, Store, Hasher, returns, role_admin, valid_roles, user_id, by_email, normal_email,
  rotate_jwt_secret, hash_password, bootstrap, with_admin, set_admin_password, verify_admin,
  create_user, update_user, set_password, set_role, set_disabled, update_found, add_user,
}

by_email-map :
    (f : User → User) (email : Text) (users : List User)
    → ((u : User) → (f u).email ≡ u.email)
    → by_email email (map f users) ≡ map_option f (by_email email users)
unfolding by_email
by_email-map f email [] same = refl
by_email-map f email (u ∷ users) same = elim (Bool-cases (eqb u.email email)) [
  | inl here ↦ simp (same u, here)
  | inr other ↦ simp (same u, other) (by_email-map f email users same)
]

-- Changing a user's row, by id, changes what its address finds.
by_email-update :
    (f : User → User) (email : Text) (users : List User) (u : User)
    → ((v : User) → (f v).email ≡ v.email)
    → by_email email users ≡ some u
    → by_email email (update user_id u.id f users) ≡ some (f u)
unfolding update
by_email-update f email users u same found =
    by_email-map (λ v. if v.id == u.id then f v else v) email users
      (λ v. elim (Bool-cases (v.id == u.id)) [
        | inl here ↦ rw here (same v)
        | inr other ↦ rw other refl
      ])
    ∙ rw (found, (==_iff u.id u.id).1 refl) refl

by_email-append_new :
    (email : Text) (users : List User) (u : User)
    → u.email ≡ email
    → by_email email users ≡ none
    → by_email email (users ++ (u ∷ [])) ≡ some u
unfolding by_email
by_email-append_new email [] u same gone = rw (same, eqb_refl email) refl
by_email-append_new email (v ∷ users) u same gone = elim (Bool-cases (eqb v.email email)) [
  | inl here ↦ absurd (ground arith)
  | inr other ↦ rw other (by_email-append_new email users u same (rw other at gone))
]

module _ (hasher : Hasher) where
  hash_password-returns :
      (password hash : Text)
      → hash_password hasher password ≡ returns hash
      → hash ≡ hasher.hash password
  unfolding hash_password
  hash_password-returns password hash e = ground arith

  by_email-with_admin :
      (norm hash : Text) (fresh_id : ℕ) (users : List User)
      → (u : User) × (by_email norm
            (with_admin hasher norm fresh_id hash (by_email norm users) users)
          ≡ some u)
        × (u.disabled ≡ false)
        × (u.password_hash ≡ hash)
  by_email-with_admin norm hash fresh_id users = elim (Option-cases (by_email norm users)) [
    | inl gone ↦ (
      record {
        id = fresh_id;
        email = norm;
        password_hash = hash;
        role = role_admin;
        disabled = false;
      },
      rw gone (by_email-append_new norm users _ refl gone),
      refl,
      refl,
    )
    | inr (u, found) ↦ (
      bootstrap hasher hash u,
      rw found (by_email-update (bootstrap hasher hash) norm users u (λ v. refl) found),
      refl,
      refl,
    )
  ]

  -- After the bootstrap password is set for an address, that address and password verify, whatever
  -- the tables held before and whether or not the user was disabled.
  pub verify_admin-set_admin_password :
      (fresh : Text) (fresh_id : ℕ) (email password : Text) (store store' : Store)
      → set_admin_password hasher fresh fresh_id email password store ≡ returns store'
      → verify_admin hasher email password store' ≡ true
  unfolding set_admin_password verify_admin
  verify_admin-set_admin_password fresh fresh_id email password store store' made =
      elim (Outcome-cases (hash_password hasher password)) [
        | inr short ↦ absurd (ground arith)
        | inl (hash, hashed) ↦
            let (u, found, enabled, same) =
              by_email-with_admin (normal_email email) hash fresh_id store.users in
            let users_same : store'.users
                ≡ with_admin hasher (normal_email email) fresh_id hash
                    (by_email (normal_email email) store.users) store.users =
              ground arith in
            rw (users_same, found, enabled, same, hash_password-returns password hash hashed)
              (hasher.verify-hash password)
      ]

  module _ (fresh : Text) (norm : Text) (u : User) where
    -- The user's address finds a row with the same id.
    abbrev StillThere : Store → Type 0
    StillThere store = (v : User) × (by_email norm store.users ≡ some v) × (v.id ≡ u.id)

    set_password-StillThere :
        (password : Option Text) (store store' : Store)
        → StillThere store
        → set_password hasher fresh u.id password store ≡ returns store'
        → StillThere store'
    unfolding rotate_jwt_secret
    set_password-StillThere none store store' (v, found, same) e =
        let e' : store ≡ store' = cc e in rw (← e') (v, found, same)
    set_password-StillThere (some password) store store' (v, found, same) e =
        elim (Outcome-cases (hash_password hasher password)) [
          | inr short ↦ absurd (ground arith)
          | inl (hash, hashed) ↦
              let users_same : store'.users
                  ≡ update user_id u.id (λ w. record w { password_hash = hash }) store.users =
                ground arith in
              (
                record v { password_hash = hash },
                rw (users_same, ← same)
                    (by_email-update (λ w. record w { password_hash = hash }) norm store.users v
                      (λ w. refl) found),
                same,
              )
        ]

    set_role-StillThere :
        (role : Option Text) (store store' : Store)
        → StillThere store
        → set_role hasher u.id role store ≡ returns store'
        → StillThere store'
    set_role-StillThere none store store' (v, found, same) e =
        let e' : store ≡ store' = cc e in rw (← e') (v, found, same)
    set_role-StillThere (some role) store store' (v, found, same) e =
        let users_same : store'.users
            ≡ update user_id u.id (λ w. record w { role = role }) store.users =
          ground arith in
        (
          record v { role = role },
          rw (users_same, ← same)
              (by_email-update (λ w. record w { role = role }) norm store.users v (λ w. refl)
                found),
          same,
        )

    disabled_there :
        (store : Store)
        → StillThere store
        → (v : User) × (by_email norm (set_disabled hasher u.id (some true) store).users ≡ some v)
          × (v.disabled ≡ true)
    disabled_there store (v, found, same) = (
      record v { disabled = true },
      rw (← same) (
          by_email-update (λ w. record w { disabled = true }) norm store.users v (λ w. refl) found),
      refl,
    )

    update_found-disabled :
        (password role : Option Text) (store store' : Store) (o : Option User)
        → StillThere store
        → update_found hasher fresh u.id password role (some true) store o ≡ returns store'
        → (v : User) × (by_email norm store'.users ≡ some v) × (v.disabled ≡ true)
    update_found-disabled password role store store' none there e = cc
    update_found-disabled password role store store' (some w) there e =
        elim (Outcome-cases (set_password hasher fresh u.id password store)) [
          | inr failed ↦ absurd (ground arith)
          | inl (s₁, e₁) ↦ elim (Outcome-cases (set_role hasher u.id role s₁)) [
            | inr failed ↦ absurd (ground arith)
            | inl (s₂, e₂) ↦
                let last : set_disabled hasher u.id (some true) s₂ ≡ store' = ground arith in
                rw (← last) (
                  disabled_there s₂ (
                    set_role-StillThere role s₁ s₂
                      (set_password-StillThere password store s₁ there e₁) e₂))
          ]
        ]

  -- Once a user is disabled its address logs in with no password, not even with one that the
  -- legacy row of the settings still holds.
  pub verify_admin-disabled :
      (fresh : Text) (email password : Text) (new_password role : Option Text) (u : User)
      (store store' : Store)
      → by_email (normal_email email) store.users ≡ some u
      → update_user hasher fresh u.id new_password role (some true) store ≡ returns store'
      → verify_admin hasher email password store' ≡ false
  unfolding update_user verify_admin
  verify_admin-disabled fresh email password new_password role u store store' found done =
      let (v, there, off) =
        update_found-disabled fresh (normal_email email) u new_password role store store'
          (get user_id u.id store.users) (u, found, refl) done in
      rw (there, off) refl

  eqb_flip : (a b : Text) → eqb a b ≡ false → eqb b a ≡ false
  eqb_flip a b h = ground (arith, eqb_iff a b, eqb_iff b a)

  by_email-append_other :
      (email : Text) (users : List User) (new : User)
      → by_email email users ≡ none
      → eqb new.email email ≡ false
      → by_email email (users ++ (new ∷ [])) ≡ none
  unfolding by_email
  by_email-append_other email [] new gone other = rw other refl
  by_email-append_other email (u ∷ users) new gone other = elim (Bool-cases (eqb u.email email)) [
    | inl here ↦ absurd (ground arith)
    | inr far ↦ rw far (by_email-append_other email users new (rw far at gone) other)
  ]

  -- No two users have one address.
  abbrev pub HasDistinctEmails : List User → Type 0
  HasDistinctEmails [] = Unit
  HasDistinctEmails (u ∷ users) = (by_email u.email users ≡ none) × HasDistinctEmails users

  Distinct-append :
      (users : List User) (new : User)
      → HasDistinctEmails users
      → by_email new.email users ≡ none
      → HasDistinctEmails (users ++ (new ∷ []))
  Distinct-append [] new d gone = (gone, tt)
  Distinct-append (u ∷ users) new (first_new, d) gone = elim (Bool-cases (eqb u.email new.email)) [
    | inl same ↦ absurd (unfold by_email in ground arith)
    | inr other ↦ (
      by_email-append_other u.email users new first_new (eqb_flip u.email new.email other),
      Distinct-append users new d (unfold by_email in (rw other at gone)),
    )
  ]

  added :
      (fresh_id : ℕ) (norm password role : Text) (store store' : Store) (o : Option User)
      → by_email norm store.users ≡ o
      → member role valid_roles ≡ true
      → add_user hasher fresh_id norm password role store o ≡ returns store'
      → HasDistinctEmails store.users
      → HasDistinctEmails store'.users
        × (by_email norm store.users ≡ none)
        × ((u : User) × (by_email norm store'.users ≡ some u)
            × (member u.role valid_roles ≡ true)
            × (u.disabled ≡ false))
  added fresh_id norm password role store store' (some u) found valid made d = cc
  added fresh_id norm password role store store' none gone valid made d =
      elim (Outcome-cases (hash_password hasher password)) [
        | inr short ↦ absurd (ground arith)
        | inl (hash, hashed) ↦
            let new : User = record {
              id = fresh_id;
              email = norm;
              password_hash = hash;
              role = role;
              disabled = false;
            } in
            let users_same : store'.users ≡ store.users ++ (new ∷ []) = ground arith in
            (
              rw users_same (Distinct-append store.users new d gone),
              gone,
              (
                new,
                rw users_same (by_email-append_new norm store.users new refl gone),
                valid,
                refl,
              ),
            )
      ]

  -- A user that is created is enabled, has a valid role, and has an address, trimmed and lowered, that
  -- no user had; addresses stay distinct.
  pub create_user-HasDistinctEmails :
      (fresh_id : ℕ) (email password role : Text) (store store' : Store)
      → create_user hasher fresh_id email password role store ≡ returns store'
      → HasDistinctEmails store.users
      → HasDistinctEmails store'.users
        × (by_email (normal_email email) store.users ≡ none)
        × ((u : User) × (by_email (normal_email email) store'.users ≡ some u)
            × (member u.role valid_roles ≡ true)
            × (u.disabled ≡ false))
  unfolding create_user
  create_user-HasDistinctEmails fresh_id email password role store store' made d =
      let norm = normal_email email in
      elim (Bool-cases (not (truthy norm) || not (contains (codes "@") norm))) [
        | inl bad ↦ absurd (ground arith)
        | inr fine ↦ elim (Bool-cases (member role valid_roles)) [
          | inr bad ↦ absurd (ground arith)
          | inl valid ↦
              added fresh_id norm password role store store' (by_email norm store.users) refl valid
                (rw (fine, valid) at made) d
        ]
      ]
