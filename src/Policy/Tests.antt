-- ===== src/Policy/Tests.antt =====
-- The theorems about the policy engine at concrete requests.
use see_no_evil.Prelude.{
  ℕ, ◌≡◌, refl, ◌≢◌, ◌↔◌, ◌⊎◌, Bool, true, false, none, some, List, [], ◌∷◌, ◌++◌, All, Some, leb,
  arith,
}
use see_no_evil.Text.{Text, codes, split}
use see_no_evil.Text.Number.{pos}
use see_no_evil.Policy.Types.{allow, block, Dict, DecisionInput, ProfileView, default_rules}
use see_no_evil.Policy.Schedule.{parsed, parse_window, in_schedule}
use see_no_evil.Policy.Schedule.RoundTrip.{clock_text, parse_window-clock_text}
use see_no_evil.Policy.Domains.{host_matches, matched_pattern, normal_pattern, normal_host, base}
use see_no_evil.Policy.Domains.Subdomains.{IsSubdomain, host_matches_iff}
use see_no_evil.Policy.Urls.{
  UrlLib, qualified, matched_keyword, is_youtube_host, url_keyword_text, host_of,
}
use see_no_evil.Policy.Engine.{
  gate_rules, global_domain_rules, listed, unlisted, later_rules, keyword_rules, deny_domain_rules,
  youtube_rules, allow_domain_rules, classifier_rules, score_rules, decide, threshold_for,
  config_thresholds,
}
use see_no_evil.Policy.Engine.Strict.{IsBlock, stricter_profile, decide-stricter_profile}
use see_no_evil.Policy.Engine.Allow.{
  IsWithin, IfOn, NoDomain, IsGloballyAllowed, IsNotDenied, decide-IsAllow,
}
use see_no_evil.Policy.Engine.Scores.{IsHarmless, Reaches, decide-default, decide-classifier}

-- A parser for "http://host/path", and one that refuses every URL.
abbrev host_part : List Text → Text
host_part (a ∷ b ∷ host ∷ rest) = host
host_part _ = []

abbrev simple_lib : UrlLib
simple_lib = record {
  urlparse = λ url. some (record {
    netloc = host_part (split b'/' url);
    path = [];
    query = [];
    hostname = some (host_part (split b'/' url));
  });
  unquote_plus = λ s. s;
}

abbrev refusing_lib : UrlLib
refusing_lib = record { urlparse = λ url. none; unquote_plus = λ s. s }

abbrev at_least : ℕ → ℕ → Bool
at_least score t = leb t score

abbrev weekday : Dict Text
weekday = (codes "Weekdays", codes "22:00-06:30") ∷ []

abbrev child : ProfileView ℕ
child = record {
  name = codes "child";
  image_thresholds = (codes "porn", 50) ∷ [];
  schedule = [];
  quota_minutes_per_day = pos 60;
  allow_domains = [];
  deny_domains = codes "TikTok.com" ∷ [];
  enforce_allowlist = false;
  deny_url_keywords = codes "casino" ∷ [];
  allow_youtube_channels = [];
  deny_youtube_channels = [];
}

abbrev ask : Text → ℕ → DecisionInput ℕ
ask url score = record {
  url = url;
  classifier_scores = (codes "image:porn", score) ∷ [];
  now_dow = 2;
  now_time = 0;
  minutes_used_today = 30;
  panic_relax = false;
}

abbrev blocked : DecisionInput ℕ
blocked = ask (codes "http://www.tiktok.com/x") 10

abbrev harmless : DecisionInput ℕ
harmless = ask (codes "http://example.org/x") 10

abbrev harmful : DecisionInput ℕ
harmful = ask (codes "http://example.org/x") 50

engine : Unit {0}
unfolding decide gate_rules global_domain_rules listed matched_pattern unlisted later_rules
    keyword_rules matched_keyword deny_domain_rules youtube_rules is_youtube_host allow_domain_rules
    classifier_rules score_rules threshold_for host_of url_keyword_text qualified split in_schedule
engine = tt

decide_tests :
    (decide at_least simple_lib none child blocked none
      ≡ some (record { decision = block; reason = codes "deny_domain:tiktok.com" }))
    × (decide at_least simple_lib none child harmless (some default_rules)
        ≡ some (record { decision = allow; reason = codes "default" }))
    × (decide at_least simple_lib none child harmful (some default_rules)
        ≡ some (record { decision = block; reason = codes "classifier:" ++ codes "porn" }))
unfolding engine
decide_tests = (refl, refl, refl)

parse_window-clock_text_example :
    parse_window (clock_text 22 0 ++ (b'-' ∷ clock_text 6 30)) ≡ parsed (79200000000, 23400000000)
parse_window-clock_text_example =
    parse_window-clock_text 22 0 6 30 (omega arith) (omega arith) (omega arith) (omega arith)

host_matches_iff_example :
    (host_matches (codes "*.Example.com") (codes "www.example.com") ≡ true) ↔ (
      (normal_pattern (codes "*.Example.com") ≢ [])
      × (normal_host (codes "www.example.com") ≢ [])
      × IsSubdomain
          (base (normal_pattern (codes "*.Example.com")))
          (normal_host (codes "www.example.com")))
host_matches_iff_example = host_matches_iff (codes "*.Example.com") (codes "www.example.com")

decide-stricter_profile_example : IsBlock (
    decide at_least simple_lib none
      (stricter_profile at_least simple_lib none child blocked (codes "x.org") (codes "poker"))
      blocked
      none)
unfolding engine
decide-stricter_profile_example =
    decide-stricter_profile at_least simple_lib none child blocked (codes "x.org") (codes "poker")
      none refl

decide-IsAllow_example :
    (in_schedule child.schedule 2 0 ≡ some true)
    × IsWithin child.quota_minutes_per_day 30
    × IfOn true (NoDomain [] (codes "example.org"))
    × (IsGloballyAllowed at_least simple_lib none child harmless default_rules (codes "example.org")
        ⊎ IsNotDenied at_least simple_lib none child harmless default_rules
            (codes "example.org")
            (codes "http://example.org/x example.org  "))
unfolding engine
decide-IsAllow_example =
    decide-IsAllow at_least simple_lib none child harmless default_rules (codes "example.org")
      (codes "http://example.org/x example.org  ") refl refl refl refl refl

decide-default_example :
    All
      (IsHarmless at_least (
        threshold_for at_least child.image_thresholds []
          (config_thresholds at_least simple_lib none)))
      harmless.classifier_scores
decide-default_example =
    decide-default at_least simple_lib none child harmless default_rules decide_tests.1

decide-classifier_example :
    Some
      (Reaches at_least
        (threshold_for at_least child.image_thresholds []
          (config_thresholds at_least simple_lib none))
        (codes "porn"))
      harmful.classifier_scores
decide-classifier_example =
    decide-classifier at_least simple_lib none child harmful default_rules (codes "porn")
      decide_tests.2
