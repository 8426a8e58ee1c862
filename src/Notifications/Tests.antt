-- ===== src/Notifications/Tests.antt =====
-- A notification to one public and one private address.
use see_no_evil.Prelude.{
  ℕ, ◌≡◌, refl, true, false, Option, none, some, List, [], ◌∷◌, ◌++◌, All, ◌==◌, if◌then◌else◌,
}
use see_no_evil.Text.{Text, codes, eqb, lower, strip}
use see_no_evil.Policy.Urls.{UrlLib}
use see_no_evil.Ssrf.{Ip, v4, quad, IpLib, is_private_ip, is_private_url}
use see_no_evil.Notifications.{
  NotificationsConfig, Post, to_ntfy, send_async, send_block, send_panic_change,
}
use see_no_evil.Notifications.Targets.{IsSafe, sends-IsSafe}

abbrev same_host : UrlLib
same_host = record {
  urlparse = λ url. some (record { netloc = url; path = []; query = []; hostname = some url });
  unquote_plus = λ s. s;
}

abbrev literal : Text → Option Ip
literal [] = none
literal (c ∷ s) = if c == b'1' then some (v4 (quad 10 0 0 1)) else none

abbrev ips : IpLib
ips = record { ip_address = literal }

abbrev cfg : NotificationsConfig
cfg = record {
  enabled = true;
  ntfy_url = some (codes "ntfy.example");
  webhook_url = some (codes "10.0.0.1");
  webhook_token = some (codes "t");
}

abbrev panic_posts : List (Post ℕ)
panic_posts =
    send_panic_change same_host ips false false cfg (codes "now") true (codes "admin")
      (codes "homework") none

posts_tests :
    panic_posts
    ≡ to_ntfy (codes "ntfy.example") (codes "[see-no-evil] panic_enabled") (
        codes "panic_enabled"
        ++ (10
            ∷ (codes "profile=-"
                ++ (10
                    ∷ (codes "device=-"
                        ++ (10
                            ∷ (codes "url=seenoevil://panic"
                                ++ (10 ∷ codes "reason=homework"))))))))
      ∷ []
unfolding send_panic_change send_async is_private_url is_private_ip eqb lower strip
posts_tests = refl

sends-IsSafe_example :
    All (IsSafe {Float = ℕ} same_host ips cfg) (
      send_block same_host ips false false cfg
        (codes "now")
        none
        none
        (codes "example.org")
        (codes "homework")
        ((codes "porn", 90) ∷ []))
    × All (IsSafe {Float = ℕ} same_host ips cfg) panic_posts
sends-IsSafe_example =
    sends-IsSafe same_host ips false false cfg (codes "now") none none (codes "example.org")
      (codes "homework") ((codes "porn", 90) ∷ []) true (codes "admin") none
