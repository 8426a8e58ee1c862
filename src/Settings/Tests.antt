-- ===== src/Settings/Tests.antt =====
-- Settings after two patches, the second of which is refused.
use see_no_evil.Prelude.{
  ℕ, ◌≡◌, ◌<◌, refl, Bool, true, false, not, Option, none, some, List, [], ◌∷◌, length, leb, ◌==◌,
  if◌then◌else◌,
}
use see_no_evil.Text.{Text, codes, member, starts_with}
use see_no_evil.Json.{text, obj, Fields, end, field, get, at}
use see_no_evil.Policy.Types.{GlobalRules}
use see_no_evil.Policy.Urls.{UrlLib}
use see_no_evil.Ssrf.{Ip, v4, quad, IpLib, is_private_url}
use see_no_evil.Runtime.{FloatLib, get_runtime}
use see_no_evil.Decide.Rules.{global_rules}
use see_no_evil.Settings.{put_settings}
use see_no_evil.Settings.Rules.{served, global_rules-served}
use see_no_evil.Settings.Targets.{served-target}

abbrev whole : FloatLib ℕ
whole = record {
  at_least = λ score t. leb t score;
  is_positive = λ n. not (n == 0);
  is_zero = λ n. n == 0;
  one = 100;
  half = 50;
  six_tenths = 60;
  is_huge = λ n. false;
}

abbrev in_unit : ℕ → Bool
in_unit n = leb n 100

abbrev same_host : UrlLib
same_host = record {
  urlparse = λ url. some (record { netloc = url; path = []; query = []; hostname = some url });
  unquote_plus = λ s. s;
}

abbrev literal : Text → Option Ip
literal [] = none
literal (c ∷ s) = if c == b'1' then some (v4 (quad 10 0 0 1)) else none

abbrev ips : IpLib
ips = record { ip_address = literal }

abbrev target : Text → Fields ℕ
target url = field (codes "notifications") (obj (field (codes "ntfy_url") (text url) end)) end

abbrev patches : List (Fields ℕ)
patches = target (codes "https://ntfy.example") ∷ target (codes "http://10.0.0.1") ∷ []

global_rules-served_example :
    (rules : GlobalRules ℕ) × (global_rules whole
        (served in_unit (is_private_url same_host ips) whole patches none)
      ≡ some rules)
global_rules-served_example =
    global_rules-served in_unit (is_private_url same_host ips) whole refl refl patches

served-target_example :
    (starts_with (codes "https://") (codes "https://ntfy.example") ≡ true)
    × (length (codes "https://ntfy.example") < 500)
    × (is_private_url same_host ips (codes "https://ntfy.example") ≡ false)
unfolding get get_runtime put_settings is_private_url
served-target_example =
    served-target in_unit whole same_host ips refl refl patches (codes "ntfy_url")
      (codes "https://ntfy.example") (unfold member in refl) refl (unfold at in refl)
