-- ===== src/Auth/Login/Tests.antt =====
-- Set-up and login of one admin, and the address of a client behind the proxy.
use see_no_evil.Prelude.{
  ℕ, ◌≡◌, ◌≢◌, ◌<◌, ◌≤◌, refl, true, false, ◌&&◌, Option, none, some, [], ◌∷◌, ◌++◌, leb, ltb,
  if◌then◌else◌, arith,
}
use see_no_evil.Text.{Text, codes, eqb, strip, lookup}
use see_no_evil.Text.Laws.{eqb_iff, eqb_refl}
use see_no_evil.Models.{User}
use see_no_evil.Auth.Settings.{get_setting}
use see_no_evil.Auth.Users.{role_admin, Hasher, admin_is_configured, is_legacy_single_admin}
use see_no_evil.Auth.Sessions.{Claims, JwtLib}
use see_no_evil.Auth.Clients.{AddressLib, host_is_trusted_proxy, client_ip}
use see_no_evil.Auth.Clients.Forwarded.{client_ip-append}
use see_no_evil.Auth.Login.{Gate}
use see_no_evil.Auth.Login.Once.{IsSame, setup_of, login_of, serve, serve-IsSame}

-- A hasher that keeps the password, and tokens that show their claims and secret.
abbrev plain : Hasher
plain = record { hash = λ p. p; verify = eqb; verify-hash = eqb_refl }

abbrev clear_decode : ℕ → Claims × Text → Text → Option Text
clear_decode now (claims, signed) secret =
    if eqb signed secret && (leb claims.iat now && ltb now claims.exp)
    then some claims.sub
    else none

clear_decode-encode :
    (c : Claims) (secret : Text) (now : ℕ)
    → c.iat ≤ now
    → now < c.exp
    → clear_decode now (c, secret) secret ≡ some c.sub
clear_decode-encode c secret now h h' = rw (eqb_refl secret) (ground arith)

clear_decode_early :
    (c : Claims) (secret other : Text) (now : ℕ)
    → now < c.iat
    → clear_decode now (c, secret) other ≡ none
clear_decode_early c secret other now h = ground arith

clear_decode_expired :
    (c : Claims) (secret other : Text) (now : ℕ)
    → c.exp ≤ now
    → clear_decode now (c, secret) other ≡ none
clear_decode_expired c secret other now h = ground arith

clear_decode_other :
    (c : Claims) (secret other : Text) (now : ℕ)
    → secret ≢ other
    → clear_decode now (c, secret) other ≡ none
clear_decode_other c secret other now h = ground (arith, eqb_iff secret other)

abbrev clear_lib : JwtLib (Claims × Text)
clear_lib = record {
  encode = λ c secret. (c, secret);
  decode = clear_decode;
  decode-encode = clear_decode-encode;
  decode_early = clear_decode_early;
  decode_expired = clear_decode_expired;
  decode_other = clear_decode_other;
}

abbrev ann : User
ann = record {
  id = 1;
  email = codes "ann@home.lan";
  password_hash = codes "long password";
  role = role_admin;
  disabled = false;
}

abbrev gate : Gate
gate = record { setups = []; logins = []; store = record { settings = []; users = ann ∷ [] } }

abbrev after : Gate
after =
    serve clear_lib plain
      (setup_of 1 (codes "192.168.1.9") (codes "s1") 2 (codes "eve@home.lan") (codes "long enough")
        ∷ login_of 2 6 (codes "192.168.1.9") (codes "s2") (codes "ann@home.lan")
            (codes "long password")
        ∷ [])
      gate

serve-IsSame_example : IsSame gate.store after.store × (admin_is_configured after.store ≡ true)
unfolding admin_is_configured is_legacy_single_admin get_setting lookup
serve-IsSame_example =
    serve-IsSame clear_lib plain
      (setup_of 1 (codes "192.168.1.9") (codes "s1") 2 (codes "eve@home.lan") (codes "long enough")
        ∷ login_of 2 6 (codes "192.168.1.9") (codes "s2") (codes "ann@home.lan")
            (codes "long password")
        ∷ [])
      gate refl

abbrev unread : AddressLib
unread = record { ip_address = λ s. none; ip_network = λ s. none }

client_ip-append_example :
    client_ip unread []
      (some (codes "127.0.0.1"))
      (some (codes "10.9.9.9, 1.2.3.4" ++ (b',' ∷ codes " 192.168.1.9")))
    ≡ codes "192.168.1.9"
unfolding strip
client_ip-append_example =
    client_ip-append unread [] (codes "127.0.0.1") (codes "10.9.9.9, 1.2.3.4")
      (codes " 192.168.1.9") (unfold host_is_trusted_proxy in refl) (ground arith) refl
