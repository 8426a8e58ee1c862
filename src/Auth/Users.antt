-- ===== src/Auth/Users.antt =====
-- Passwords and users: the password and multi-user helpers of auth.py. The Argon2 hasher and the
-- random generator are parameters; each function runs alone on the data base, so that no flush
-- meets a conflicting writer, and its branches for one are not reached.
pub mod Passwords
use see_no_evil.Prelude.{
  ℕ, ◌≡◌, refl, ◌⊎◌, inl, inr, Bool, true, false, not, ◌&&◌, ◌||◌, Option, none, some, List, [],
  ◌∷◌, ◌++◌, map, first, length, ltb, ◌==◌, if◌then◌else◌,
}
use see_no_evil.Text.{Text, codes, eqb, lower, strip, contains, truthy, member}
use see_no_evil.Models.{User}
use see_no_evil.Table.{get, update, delete}
use see_no_evil.Auth.Settings.{
  Settings, pwd_key, email_key, jwt_key, get_setting, set_setting, given,
}

abbrev pub role_admin : Text
role_admin = codes "admin"

abbrev pub role_viewer : Text
role_viewer = codes "viewer"

abbrev pub valid_roles : List Text
valid_roles = role_admin ∷ role_viewer ∷ []

-- The tables that this module writes.
pub record Store : Type 0 where
  pub settings : Settings
  pub users : List User

-- `PasswordHasher`: a hash verifies the password that it was made from.
pub record Hasher : Type 0 where
  pub hash : Text → Text
  pub verify : Text → Text → Bool
  pub verify-hash : (password : Text) → verify (hash password) password ≡ true

-- A value, or `ValueError`.
pub data Outcome (A : Type 0) : Type 0 where
  returns : A → Outcome A
  value_error : Outcome A

abbrev pub user_id : User → ℕ
user_id u = u.id

-- `select(User).where(User.email == email)`, first row.
unfoldable pub by_email : Text → List User → Option User
by_email email users = first (λ u. eqb u.email email) users

unfoldable pub is_legacy_single_admin : List User → Bool
is_legacy_single_admin [] = true
is_legacy_single_admin (u ∷ users) = false

-- `email.strip().lower()`.
unfoldable pub normal_email : Text → Text
unfolding strip lower
normal_email email = lower (strip email)

-- The new secret is the random generator's next one.
unfoldable pub rotate_jwt_secret : Text → Store → Store
rotate_jwt_secret fresh store = record store { settings = set_setting jwt_key fresh store.settings }

abbrev pub ensured : Text → Store → Option Text → Text × Store
ensured fresh store none = (fresh, rotate_jwt_secret fresh store)
ensured fresh store (some secret) =
    if truthy secret then (secret, store) else (fresh, rotate_jwt_secret fresh store)

unfoldable pub ensure_jwt_secret : Text → Store → Text × Store
unfolding rotate_jwt_secret
ensure_jwt_secret fresh store = ensured fresh store (get_setting jwt_key store.settings)

unfoldable pub admin_is_configured : Store → Bool
unfolding is_legacy_single_admin
admin_is_configured store =
    given (get_setting pwd_key store.settings) || not (is_legacy_single_admin store.users)

pub Outcome-cases : {A : Type 0} (o : Outcome A) → ((a : A) × (o ≡ returns a)) ⊎ (o ≡ value_error)
Outcome-cases (returns a) = inl (a, refl)
Outcome-cases value_error = inr refl

module _ (hasher : Hasher) where
  unfoldable pub hash_password : Text → Outcome Text
  hash_password password =
      if not (truthy password) || ltb (length password) 8
      then value_error
      else returns (hasher.hash password)

  abbrev pub bootstrap : Text → User → User
  bootstrap hash u = record u { password_hash = hash; role = role_admin; disabled = false }

  abbrev pub with_admin : Text → ℕ → Text → Option User → List User → List User
  with_admin email fresh_id hash none users =
      users
      ++ (record {
        id = fresh_id;
        email = email;
        password_hash = hash;
        role = role_admin;
        disabled = false;
      }
          ∷ [])
  with_admin email fresh_id hash (some u) users = update user_id u.id (bootstrap hash) users

  abbrev pub on_hash : {A : Type 0} → Outcome Text → (Text → Outcome A) → Outcome A
  on_hash value_error k = value_error
  on_hash (returns hash) k = k hash

  unfoldable pub set_admin_password : Text → ℕ → Text → Text → Store → Outcome Store
  unfolding rotate_jwt_secret
  set_admin_password fresh fresh_id email password store = on_hash (hash_password password) (λ hash.
      let norm = normal_email email in
      returns (
        rotate_jwt_secret fresh (record {
          settings = set_setting email_key norm (set_setting pwd_key hash store.settings);
          users = with_admin norm fresh_id hash (by_email norm store.users) store.users;
        })))

  -- The legacy row of the settings, looked at only where no user has the address.
  abbrev pub verify_legacy : Text → Text → Option Text → Option Text → Bool
  verify_legacy norm password (some stored_email) (some stored_hash) =
      truthy stored_email
      && truthy stored_hash
      && eqb norm (normal_email stored_email)
      && hasher.verify stored_hash password
  verify_legacy norm password _ _ = false

  abbrev pub verify_found : Text → Text → Store → Option User → Bool
  verify_found norm password store none =
      verify_legacy norm password (get_setting email_key store.settings)
        (get_setting pwd_key store.settings)
  verify_found norm password store (some u) =
      if u.disabled then false else hasher.verify u.password_hash password

  unfoldable pub verify_admin : Text → Text → Store → Bool
  verify_admin email password store =
      let norm = normal_email email in verify_found norm password store (by_email norm store.users)

  abbrev pub add_user : ℕ → Text → Text → Text → Store → Option User → Outcome Store
  add_user fresh_id norm password role store (some u) = value_error
  add_user fresh_id norm password role store none = on_hash (hash_password password) (λ hash.
      returns (record store {
        users =
            store.users
            ++ (record {
              id = fresh_id;
              email = norm;
              password_hash = hash;
              role = role;
              disabled = false;
            }
                ∷ []);
      }))

  unfoldable pub create_user : ℕ → Text → Text → Text → Store → Outcome Store
  create_user fresh_id email password role store =
      let norm = normal_email email in
      if not (truthy norm) || not (contains (codes "@") norm)
      then value_error
      else if not (member role valid_roles)
      then value_error
      else add_user fresh_id norm password role store (by_email norm store.users)

  abbrev pub set_password : Text → ℕ → Option Text → Store → Outcome Store
  set_password fresh id none store = returns store
  set_password fresh id (some password) store = on_hash (hash_password password) (λ hash. returns (
      rotate_jwt_secret fresh (record store {
        users = update user_id id (λ u. record u { password_hash = hash }) store.users;
      })))

  abbrev pub set_role : ℕ → Option Text → Store → Outcome Store
  set_role id none store = returns store
  set_role id (some role) store =
      if not (member role valid_roles)
      then value_error
      else returns
          (record store { users = update user_id id (λ u. record u { role = role }) store.users })

  abbrev pub set_disabled : ℕ → Option Bool → Store → Store
  set_disabled id none store = store
  set_disabled id (some disabled) store = record store {
    users = update user_id id (λ u. record u { disabled = disabled }) store.users;
  }

  infixl 5 ◌>>=◌
  abbrev pub ◌>>=◌ : Outcome Store → (Store → Outcome Store) → Outcome Store
  value_error >>= k = value_error
  returns store >>= k = k store

  abbrev pub update_found :
      Text → ℕ → Option Text → Option Text → Option Bool → Store → Option User → Outcome Store
  update_found fresh id password role disabled store none = value_error
  update_found fresh id password role disabled store (some u) = do
    changed ← set_password fresh id password store
    promoted ← set_role id role changed
    returns (set_disabled id disabled promoted)

  -- What an exception leaves is rolled back, so that `value_error` stands for the old store.
  unfoldable pub update_user :
      Text → ℕ → Option Text → Option Text → Option Bool → Store → Outcome Store
  unfolding rotate_jwt_secret
  update_user fresh id password role disabled store =
      update_found fresh id password role disabled store (get user_id id store.users)

  abbrev pub delete_found : Text → ℕ → Store → Option User → Store
  delete_found fresh id store none = store
  delete_found fresh id store (some u) =
      rotate_jwt_secret fresh (record store { users = delete user_id id store.users })

  unfoldable pub delete_user : Text → ℕ → Store → Store
  unfolding rotate_jwt_secret
  delete_user fresh id store = delete_found fresh id store (get user_id id store.users)
