-- ===== src/Decide/Tests.antt =====
-- The endpoint of the proxy at a small data base.
use see_no_evil.Prelude.{
  ℕ, ◌≡◌, refl, ◌≤◌, true, false, Option, none, some, [], ◌∷◌, leb, not, ◌==◌, arith,
}
use see_no_evil.Text.{Text, codes, eqb, split, strip, starts_with, lower, lookup}
use see_no_evil.Text.Number.{pos}
use see_no_evil.Http.{Reply, ok}
use see_no_evil.Models.{Profile, Device}
use see_no_evil.Policy.Types.{block}
use see_no_evil.Table.{get}
use see_no_evil.Policy.Urls.{UrlLib}
use see_no_evil.Json.{Json, text}
use see_no_evil.Runtime.{FloatLib}
use see_no_evil.Opa.{OpaLib}
use see_no_evil.Auth.Settings.{get_setting, set_setting}
use see_no_evil.AuditSig.{SigLib, sign_row, get_secret, ensure_secret}
use see_no_evil.Panic.{TimeLib, parse}
use see_no_evil.Decide.{
  Clock, Fresh, Commit, committed, busy, flushed, DecideResponse, DecideRequest, Tables,
  normal_reason, prepared, post_decide, pre_blocked, default_profile, device_step, verdict_on,
  engine_kind, should_quarantine, bounded_thumbnail,
}
use see_no_evil.Decide.Devices.{
  octets, synthetic_mac_from_ip, recent_count, auto_create_device, resolve_device, by_ip, by_mac,
}
use see_no_evil.Decide.Devices.Distinct.{HasDistinctMacs}
use see_no_evil.Decide.Devices.Created.{
  auto_create_device-recent_count, auto_create_device-HasDistinctMacs,
}
use see_no_evil.Decide.Outcome.{IsLogged, IsReviewed, post_decide-IsLogged}
use see_no_evil.Decide.Blocked.{IsShortened, post_decide-pre_blocked}

abbrev read_time : Text → Option ℕ
read_time [] = none
read_time (t ∷ s) = some t

written : (t : ℕ) → read_time (t ∷ []) ≡ some t
written t = refl

-- Times written as one code point.
abbrev short_times : TimeLib
short_times = record {
  isoformat = λ t. t ∷ [];
  fromisoformat = read_time;
  fromisoformat-isoformat = written;
  truthy-isoformat = λ t. refl;
}

abbrev clear_sigs : SigLib ℕ
clear_sigs = record {
  str = λ n. n ∷ [];
  isoformat = λ ts. [];
  dumps = λ scores. [];
  sha256 = λ s. s;
  hmac = λ secret message. 35 ∷ message;
}

abbrev host_lib : UrlLib
host_lib = record {
  urlparse = λ url. some (record { netloc = url; path = []; query = []; hostname = some url });
  unquote_plus = λ s. s;
}

abbrev whole : FloatLib ℕ
whole = record {
  at_least = λ score t. leb t score;
  is_positive = λ n. not (n == 0);
  is_zero = λ n. n == 0;
  one = 100;
  half = 50;
  six_tenths = 60;
  is_huge = λ n. false;
}

abbrev text_value : Json ℕ → Text
text_value (text s) = s
text_value _ = []

text_value-text : (s : Text) → text_value (text s) ≡ s
text_value-text s = refl

abbrev no_sidecar : OpaLib ℕ
no_sidecar = record { post = λ url input. none; str = text_value; str-text = text_value-text }

abbrev child : Profile ℕ
child = record {
  id = 1;
  name = codes "child";
  image_thresholds = [];
  schedule = [];
  quota_minutes_per_day = pos 0;
  allow_domains = [];
  enforce_allowlist = false;
  deny_domains = [];
  deny_url_keywords = [];
  allow_youtube_channels = [];
  deny_youtube_channels = [];
}

abbrev phone : Device
phone = record {
  id = 7;
  mac = codes "aa:bb:cc:dd:ee:ff";
  name = none;
  profile_id = 1;
  bypass_proxy = false;
  ip = some (codes "192.168.1.20");
  vendor = none;
  last_seen_at = none;
  created_at = 0;
}

abbrev base : Tables ℕ
base = record {
  profiles = child ∷ [];
  devices = phone ∷ [];
  quotas = [];
  panic = none;
  runtime = none;
  settings = [];
  audit = [];
  quarantine = [];
}

abbrev relaxed : Tables ℕ
relaxed = record base {
  panic =
      some (record { active = true; until = none; reason = none; set_by = none; set_at = none });
}

abbrev body : DecideRequest ℕ
body = record {
  url = codes "http://example.org/x.png";
  content_type = some (codes "image/png");
  classifier_scores = [];
  device_mac = none;
  device_id = some 7;
  client_ip = none;
  decision = some (codes "block");
  reason = some (codes "classifier:image:porn");
  thumbnail_b64 = none;
}

abbrev clock : Clock
clock = record { utc = 5; dow = 2; time = 0; today = 1 }

abbrev fresh : Fresh
fresh = record { device_id = 8; audit_id = 1; item_id = 1; secret = codes "k" }

engine : Unit {0}
unfolding get post_decide prepared default_profile device_step verdict_on engine_kind
    should_quarantine bounded_thumbnail pre_blocked normal_reason sign_row get_secret ensure_secret
    get_setting set_setting lookup parse auto_create_device resolve_device by_ip by_mac recent_count
    synthetic_mac_from_ip octets split strip starts_with lower eqb
engine = tt

auto_create_device-recent_count_example :
    recent_count 5 (auto_create_device 5 8 none (some (codes "10.0.0.7")) 1 (phone ∷ [])).1 ≤ 21
unfolding engine
auto_create_device-recent_count_example =
    auto_create_device-recent_count 5 8 none (some (codes "10.0.0.7")) 1 (phone ∷ []) (omega arith)

auto_create_device-HasDistinctMacs_example :
    HasDistinctMacs (auto_create_device 5 8 none (some (codes "10.0.0.7")) 1 (phone ∷ [])).1
unfolding by_mac
auto_create_device-HasDistinctMacs_example =
    auto_create_device-HasDistinctMacs 5 8 none (some (codes "10.0.0.7")) 1 (phone ∷ []) (refl, tt)

abbrev run : Commit → Tables ℕ → Reply DecideResponse × Tables ℕ
run commit tables =
    post_decide whole host_lib short_times clear_sigs no_sidecar [] none (codes "python")
      (codes "child") (flushed commit) clock fresh body tables

post_decide-IsLogged_example :
    (response : DecideResponse) × (after : Tables ℕ) × (run committed base ≡ (ok response, after))
    × (IsLogged body response base after × IsReviewed body response base after)
unfolding engine
post_decide-IsLogged_example = (
  _,
  _,
  refl,
  post_decide-IsLogged whole host_lib short_times clear_sigs no_sidecar [] none (codes "python")
      (codes "child") clock fresh body base _ _ refl,
)

post_decide-pre_blocked_example :
    (response : DecideResponse) × ((run busy base).0 ≡ ok response)
    × (response.decision ≡ block)
    × IsShortened (codes "classifier:image:porn") response.reason
unfolding engine
post_decide-pre_blocked_example =
    post_decide-pre_blocked whole host_lib short_times clear_sigs no_sidecar [] none
      (codes "python") (codes "child") clock fresh body base _ (codes "classifier:image:porn") child
      _ busy refl refl refl refl refl refl refl (λ e. cc)
