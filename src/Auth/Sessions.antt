-- ===== src/Auth/Sessions.antt =====
-- Session cookies and the guards on them: `issue_session`, `_decode`, `require_admin`,
-- `current_user` and `require_admin_or_scanner` of auth.py. The JWT library is a parameter.
pub mod Guards
pub mod Tokens
use see_no_evil.Prelude.{
  ℕ, ◌+◌, ◌≡◌, ◌≢◌, ◌<◌, ◌≤◌, Bool, true, false, not, ◌&&◌, ◌||◌, Option, none, some, List, [], ◌∷◌,
  ◌==◌, if◌then◌else◌,
}
use see_no_evil.Text.{Text, codes, eqb, lower, truthy}
use see_no_evil.Http.{Reply, ok, http}
use see_no_evil.Models.{User}
use see_no_evil.Auth.Settings.{jwt_key, get_setting, given}
use see_no_evil.Auth.Bearer.{bearer_token, token_matches, compared, configured_token}
use see_no_evil.Auth.Users.{Store, role_admin, by_email, is_legacy_single_admin, ensure_jwt_secret}

-- The claims of a session.
pub record Claims : Type 0 where
  pub sub : Text
  pub iat : ℕ
  pub exp : ℕ

-- `jwt.encode` and `jwt.decode` with HS256: `none` stands for `PyJWTError`. A token decodes from its
-- issue until it expires, under the secret that signed it, and neither at another time nor under
-- another secret. Times are whole seconds.
pub record JwtLib (Token : Type 0) : Type 0 where
  pub encode : Claims → Text → Token
  pub decode : ℕ → Token → Text → Option Text
  pub decode-encode :
      (c : Claims) (secret : Text) (now : ℕ)
      → c.iat ≤ now
      → now < c.exp
      → decode now (encode c secret) secret ≡ some c.sub
  pub decode_early :
      (c : Claims) (secret other : Text) (now : ℕ)
      → now < c.iat
      → decode now (encode c secret) other ≡ none
  pub decode_expired :
      (c : Claims) (secret other : Text) (now : ℕ)
      → c.exp ≤ now
      → decode now (encode c secret) other ≡ none
  pub decode_other :
      (c : Claims) (secret other : Text) (now : ℕ)
      → secret ≢ other
      → decode now (encode c secret) other ≡ none

-- `SESSION_TTL`, four hours, in seconds.
abbrev pub session_ttl : ℕ
session_ttl = 14400

-- A user who may act as an administrator.
abbrev pub is_enabled_admin : User → Bool
is_enabled_admin u = not (u.disabled || not (eqb u.role role_admin))

-- The scanner's bearer token, or 401.
abbrev pub scanner_reply : Text → Text → Reply Text
scanner_reply expected auth =
    compared (codes "scanner") 401 (token_matches (bearer_token auth) expected)

-- A 403 of the cookie stands; after any other failure the scanner's token decides.
abbrev pub or_scanner : Text → Text → Reply Text → Reply Text
or_scanner expected auth (ok sub) = ok sub
or_scanner expected auth (http code) = if code == 403 then http 403 else scanner_reply expected auth

module _ {Token : Type 0} (lib : JwtLib Token) where
  -- The token that `issue_session` signs; the secret is made where there is none.
  unfoldable pub issue_session : Text → ℕ → Text → Store → Token × Store
  issue_session fresh now email store =
      let (secret, store') = ensure_jwt_secret fresh store in
      (lib.encode (record { sub = email; iat = now; exp = now + session_ttl }) secret, store')

  abbrev pub decode_with : ℕ → Token → Option Text → Reply Text
  decode_with now token none = http 401
  decode_with now token (some secret) =
      if truthy secret
      then elim (lib.decode now token secret) [ none ↦ http 401 | some sub ↦ ok sub ]
      else http 401

  unfoldable pub decode : ℕ → Token → Store → Reply Text
  decode now token store = decode_with now token (get_setting jwt_key store.settings)

  abbrev pub admin_found : Text → Store → Option User → Reply Text
  admin_found sub store none = if is_legacy_single_admin store.users then ok sub else http 401
  admin_found sub store (some u) = if is_enabled_admin u then ok sub else http 403

  abbrev pub admin_of_sub : Store → Reply Text → Reply Text
  admin_of_sub store (http code) = http code
  admin_of_sub store (ok sub) =
      if truthy sub then admin_found sub store (by_email (lower sub) store.users) else http 401

  -- `require_admin`; no cookie, or an empty one, is `none`.
  unfoldable pub require_admin : ℕ → Option Token → Store → Reply Text
  require_admin now none store = http 401
  require_admin now (some token) store = admin_of_sub store (decode now token store)

  abbrev pub user_found : Text → Store → Option User → Reply (Text × Text)
  user_found email store none =
      if is_legacy_single_admin store.users then ok (email, role_admin) else http 401
  user_found email store (some u) = if u.disabled then http 403 else ok (u.email, u.role)

  abbrev pub user_of_sub : Store → Reply Text → Reply (Text × Text)
  user_of_sub store (http code) = http code
  user_of_sub store (ok sub) =
      if truthy sub
      then user_found (lower sub) store (by_email (lower sub) store.users)
      else http 401

  unfoldable pub current_user : ℕ → Option Token → Store → Reply (Text × Text)
  current_user now none store = http 401
  current_user now (some token) store = user_of_sub store (decode now token store)

  unfoldable pub require_admin_or_scanner :
      ℕ → Option Token → Option Text → Option Text → Text → Store → Reply Text
  unfolding require_admin
  require_admin_or_scanner now none in_config in_env auth store =
      scanner_reply (configured_token in_config in_env) auth
  require_admin_or_scanner now (some token) in_config in_env auth store =
      or_scanner (configured_token in_config in_env) auth (require_admin now (some token) store)
