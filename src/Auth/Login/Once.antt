-- ===== src/Auth/Login/Once.antt =====
-- Set-up happens once.
use see_no_evil.Prelude.{
  ℕ, ◌≡◌, refl, ◌∙◌, inl, inr, true, Option, none, some, List, [], ◌∷◌, Bool-cases,
}
use see_no_evil.Text.{Text, truthy, eqb}
use see_no_evil.Auth.Settings.{pwd_key, jwt_key, get_setting, get-set_setting}
use see_no_evil.Auth.Users.{
  Store, Hasher, ensured, ensure_jwt_secret, rotate_jwt_secret, admin_is_configured, verify_admin,
}
use see_no_evil.Auth.Sessions.{JwtLib, issue_session}
use see_no_evil.Auth.RateLimiter.{allow}
use see_no_evil.Auth.Login.{Gate, window, setup, login}

-- The same users, and the same password of the bootstrap.
abbrev pub IsSame : Store → Store → Type 0
IsSame a b = (b.users ≡ a.users) × (get_setting pwd_key b.settings ≡ get_setting pwd_key a.settings)

rotate-IsSame : (fresh : Text) (store : Store) → IsSame store (rotate_jwt_secret fresh store)
unfolding rotate_jwt_secret eqb
rotate-IsSame fresh store = (refl, get-set_setting jwt_key pwd_key fresh store.settings)

ensured-IsSame :
    (fresh : Text) (store : Store) (o : Option Text) → IsSame store (ensured fresh store o).1
ensured-IsSame fresh store none = rotate-IsSame fresh store
ensured-IsSame fresh store (some secret) = elim (Bool-cases (truthy secret)) [
  | inl present ↦ rw present (refl, refl)
  | inr empty ↦ rw empty (rotate-IsSame fresh store)
]

-- A request to set up or to log in, with the clocks, the client's address and what is fresh.
pub data Request : Type 0 where
  setup_of : ℕ → Text → Text → ℕ → Text → Text → Request
  login_of : ℕ → ℕ → Text → Text → Text → Text → Request

module _ {Token : Type 0} (lib : JwtLib Token) (hasher : Hasher) where
  abbrev pub handle : Request → Gate → Gate
  handle (setup_of now ip fresh id email password) gate =
      (setup lib hasher now ip fresh id email password gate).1
  handle (login_of now wall ip fresh email password) gate =
      (login lib hasher now wall ip fresh email password gate).1

  unfoldable pub serve : List Request → Gate → Gate
  serve [] gate = gate
  serve (r ∷ rest) gate = serve rest (handle r gate)

  setup-IsSame :
      (now : ℕ) (ip fresh : Text) (id : ℕ) (email password : Text) (gate : Gate)
      → admin_is_configured gate.store ≡ true
      → (setup lib hasher now ip fresh id email password gate).1.store ≡ gate.store
  unfolding setup
  setup-IsSame now ip fresh id email password gate there =
      elim (Bool-cases (allow 5 window now ip gate.setups).0) [
        | inl admitted ↦ rw (admitted, there) refl
        | inr limited ↦ rw limited refl
      ]

  login-IsSame :
      (now wall : ℕ) (ip fresh email password : Text) (gate : Gate)
      → IsSame gate.store (login lib hasher now wall ip fresh email password gate).1.store
  unfolding login issue_session ensure_jwt_secret
  login-IsSame now wall ip fresh email password gate =
      elim (Bool-cases (allow 10 window now ip gate.logins).0) [
        | inl admitted ↦ elim (Bool-cases (verify_admin hasher email password gate.store)) [
          | inl right ↦
              rw (admitted, right)
                (ensured-IsSame fresh gate.store (get_setting jwt_key gate.store.settings))
          | inr wrong ↦ rw (admitted, wrong) (refl, refl)
        ]
        | inr limited ↦ rw limited (refl, refl)
      ]

  IsSame-configured :
      (a b : Store) → IsSame a b → admin_is_configured a ≡ true → admin_is_configured b ≡ true
  unfolding admin_is_configured
  IsSame-configured a b (users, password) h = rw (users, password) h

  handle-IsSame :
      (r : Request) (gate : Gate)
      → admin_is_configured gate.store ≡ true
      → IsSame gate.store (handle r gate).store
  handle-IsSame (setup_of now ip fresh id email password) gate there =
      rw (setup-IsSame now ip fresh id email password gate there) (refl, refl)
  handle-IsSame (login_of now wall ip fresh email password) gate there =
      login-IsSame now wall ip fresh email password gate

  -- Once an admin is configured, no requests to set up or to log in, in any order, change the users
  -- or the password of the bootstrap, and set-up stays closed.
  pub serve-IsSame :
      (requests : List Request) (gate : Gate)
      → admin_is_configured gate.store ≡ true
      → IsSame gate.store (serve requests gate).store
        × (admin_is_configured (serve requests gate).store ≡ true)
  unfolding serve
  serve-IsSame [] gate there = ((refl, refl), there)
  serve-IsSame (r ∷ rest) gate there =
      let (users, password) = handle-IsSame r gate there in
      let still = IsSame-configured gate.store (handle r gate).store (users, password) there in
      let ((users', password'), configured) = serve-IsSame rest (handle r gate) still in
      ((users' ∙ users, password' ∙ password), configured)
