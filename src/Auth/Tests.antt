-- ===== src/Auth/Tests.antt =====
-- The theorems about authentication at concrete tables.
use see_no_evil.Prelude.{
  List, ℕ, ◌+◌, ◌*◌, ◌<◌, ◌≤◌, ◌≡◌, refl, ◌≢◌, ◌↔◌, ◌⊎◌, true, false, Option, none, some, [], ◌∷◌,
  leb, ltb, if◌then◌else◌, arith, ◌&&◌,
}
use see_no_evil.Text.{
  Text, codes, eqb, truthy, member, lower, lookup, strip, contains, starts_with, is_ascii,
  compare_digest,
}
use see_no_evil.Text.Laws.{eqb_iff, eqb_refl}
use see_no_evil.Http.{ok, http}
use see_no_evil.Models.{User}
use see_no_evil.Table.{get}
use see_no_evil.Auth.Settings.{jwt_key, given, get_setting, set_setting}
use see_no_evil.Auth.Bearer.{text_of, token_matches, bearer_token, configured_token, require_proxy}
use see_no_evil.Auth.Csrf.{Request, verify_csrf, verify_csrf_iff}
use see_no_evil.Auth.Users.{
  Store, Hasher, returns, role_admin, valid_roles, by_email, normal_email, set_admin_password,
  verify_admin, create_user, update_user, ensure_jwt_secret, hash_password,
}
use see_no_evil.Auth.Users.Passwords.{
  verify_admin-disabled, HasDistinctEmails, create_user-HasDistinctEmails,
}
use see_no_evil.Auth.UserRoutes.{enabled_admins, patch_user, remove_user, patch_user-enabled_admins}
use see_no_evil.Auth.RateLimiter.Admitted.{admitted, IsLimited, admitted-IsLimited}
use see_no_evil.Auth.Sessions.{
  Claims, JwtLib, issue_session, decode, require_admin, current_user, require_admin_or_scanner,
}
use see_no_evil.Auth.Sessions.Guards.{IsAdmin, require_admin_sound, require_admin_or_scanner_sound}
use see_no_evil.Auth.Sessions.Tokens.{require_admin-issue_session, update_user-http}

-- A hasher that keeps the password, and tokens that show their claims and secret.
abbrev plain : Hasher
plain = record { hash = λ p. p; verify = eqb; verify-hash = eqb_refl }

abbrev clear_decode : ℕ → Claims × Text → Text → Option Text
clear_decode now (claims, signed) secret =
    if eqb signed secret && (leb claims.iat now && ltb now claims.exp)
    then some claims.sub
    else none

clear_decode-encode :
    (c : Claims) (secret : Text) (now : ℕ)
    → c.iat ≤ now
    → now < c.exp
    → clear_decode now (c, secret) secret ≡ some c.sub
clear_decode-encode c secret now h h' = rw (eqb_refl secret) (ground arith)

clear_decode_early :
    (c : Claims) (secret other : Text) (now : ℕ)
    → now < c.iat
    → clear_decode now (c, secret) other ≡ none
clear_decode_early c secret other now h = ground arith

clear_decode_expired :
    (c : Claims) (secret other : Text) (now : ℕ)
    → c.exp ≤ now
    → clear_decode now (c, secret) other ≡ none
clear_decode_expired c secret other now h = ground arith

clear_decode_other :
    (c : Claims) (secret other : Text) (now : ℕ)
    → secret ≢ other
    → clear_decode now (c, secret) other ≡ none
clear_decode_other c secret other now h = ground (arith, eqb_iff secret other)

abbrev clear_lib : JwtLib (Claims × Text)
clear_lib = record {
  encode = λ c secret. (c, secret);
  decode = clear_decode;
  decode-encode = clear_decode-encode;
  decode_early = clear_decode_early;
  decode_expired = clear_decode_expired;
  decode_other = clear_decode_other;
}

abbrev ann : User
ann = record {
  id = 1;
  email = codes "ann@home.lan";
  password_hash = codes "long password";
  role = role_admin;
  disabled = false;
}

abbrev bob : User
bob = record {
  id = 2;
  email = codes "bob@home.lan";
  password_hash = codes "another one";
  role = role_admin;
  disabled = false;
}

abbrev home : Store
home = record { settings = (jwt_key, codes "s1") ∷ []; users = ann ∷ bob ∷ [] }

abbrev token : Claims × Text
token = (record { sub = codes "Ann@home.lan"; iat = 5; exp = 100 }, codes "s1")

abbrev browser : Request
browser = record {
  method = codes "POST";
  path = codes "/v1/users";
  authorization = codes "Bearer x";
  session_cookie = some (codes "c");
  csrf_cookie = some (codes "t");
  csrf_header = some (codes "t");
}

engine : Unit {0}
unfolding is_ascii compare_digest token_matches set_admin_password verify_admin create_user
    update_user require_admin current_user require_admin_or_scanner issue_session decode verify_csrf
    patch_user remove_user require_proxy configured_token bearer_token by_email get normal_email
    lookup member eqb lower enabled_admins ensure_jwt_secret get_setting set_setting hash_password
    strip contains starts_with
engine = tt

verify_admin-disabled_example :
    (after : Store) × (update_user plain (codes "s2") ann.id none none (some true) home
      ≡ returns after)
    × (verify_admin plain (codes "ann@home.lan") (codes "long password") after ≡ false)
unfolding engine
verify_admin-disabled_example = (
  _,
  refl,
  verify_admin-disabled plain (codes "s2") (codes "ann@home.lan") (codes "long password") none none
      ann home _ refl refl,
)

require_admin_sound_example :
    ((t : Claims × Text) × (some token ≡ some t)
      × (decode clear_lib 50 t home ≡ ok (codes "Ann@home.lan")))
    × IsAdmin clear_lib (codes "ann@home.lan") home
unfolding engine
require_admin_sound_example =
    require_admin_sound clear_lib 50 (some token) home (codes "Ann@home.lan") refl

require_admin_or_scanner_sound_example :
    ((require_admin clear_lib 500 (some token) home ≡ ok (codes "scanner"))
      ⊎ ((truthy (configured_token none (some (codes "k"))) ≡ true)
          × (bearer_token (codes "Bearer k") ≡ configured_token none (some (codes "k")))))
    × (require_admin clear_lib 500 (some token) home ≢ http 403)
unfolding engine
require_admin_or_scanner_sound_example =
    require_admin_or_scanner_sound clear_lib 500 (some token) none (some (codes "k"))
      (codes "Bearer k") home (codes "scanner") refl

require_admin-issue_session_example :
    require_admin clear_lib 14000
      (some (issue_session clear_lib (codes "s2") 5 (codes "ann@home.lan") home).0)
      (issue_session clear_lib (codes "s2") 5 (codes "ann@home.lan") home).1
    ≡ (if leb 5 14000 && ltb 14000 (5 + 4 * 60 * 60) then ok (codes "ann@home.lan") else http 401)
unfolding engine
require_admin-issue_session_example =
    require_admin-issue_session clear_lib (codes "s2") 5 14000 (codes "ann@home.lan") home ann refl
      refl refl refl

update_user-http_example :
    (after : Store) × (update_user plain (codes "s2") 2 (some (codes "new password")) none none home
      ≡ returns after)
    × ((require_admin clear_lib 6
            (some (issue_session clear_lib (codes "s0") 5 (codes "ann@home.lan") home).0)
            after
          ≡ http 401)
        × (current_user clear_lib 6
              (some (issue_session clear_lib (codes "s0") 5 (codes "ann@home.lan") home).0)
              after
            ≡ http 401))
unfolding engine
update_user-http_example = (
  _,
  refl,
  update_user-http clear_lib plain (codes "s2") (codes "s0") 2 5 6 (codes "ann@home.lan")
      (codes "new password") none none home home _ (λ e. absurd (ground arith)) refl,
)

verify_csrf_iff_example : (verify_csrf [] browser ≡ ok tt) ↔ (
    (given browser.csrf_cookie ≡ true)
    × (browser.csrf_cookie ≡ browser.csrf_header)
    × (is_ascii (text_of browser.csrf_cookie) ≡ true))
unfolding engine
verify_csrf_iff_example = verify_csrf_iff [] browser refl refl refl refl

patch_user-enabled_admins_example :
    1
    ≤ enabled_admins
        (patch_user plain (codes "s2") 1 none (some (codes "viewer")) none home).1.users
unfolding engine
patch_user-enabled_admins_example =
    patch_user-enabled_admins plain (codes "s2") 1 none (some (codes "viewer")) none home
      (omega arith)

create_user-HasDistinctEmails_example :
    (after : Store) × (create_user plain 3 (codes "Cat@home.lan") (codes "password") role_admin home
      ≡ returns after)
    × (HasDistinctEmails plain after.users
        × (by_email (codes "cat@home.lan") home.users ≡ none)
        × ((u : User) × (by_email (codes "cat@home.lan") after.users ≡ some u)
            × (member u.role valid_roles ≡ true)
            × (u.disabled ≡ false)))
unfolding engine
create_user-HasDistinctEmails_example = (
  _,
  refl,
  create_user-HasDistinctEmails plain 3 (codes "Cat@home.lan") (codes "password") role_admin home _
      refl (refl, (refl, tt)),
)

abbrev attempts : List (ℕ × Text)
attempts = (1, codes "a") ∷ (2, codes "a") ∷ (2, codes "b") ∷ (3, codes "a") ∷ (12, codes "a") ∷ []

admitted-IsLimited_example : IsLimited 2 10 (admitted 2 10 (codes "a") attempts [] [])
admitted-IsLimited_example =
    admitted-IsLimited 2 10 (codes "a") attempts
      (omega arith, (omega arith, (omega arith, (omega arith, (omega arith, tt)))))
