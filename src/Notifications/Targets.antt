-- ===== src/Notifications/Targets.antt =====
-- Where notifications go.
use see_no_evil.Prelude.{
  ◌≡◌, refl, inl, inr, Bool, true, false, Option, none, some, List, [], ◌∷◌, ◌++◌, if◌then◌else◌,
  Bool-cases, All, arith,
}
use see_no_evil.Text.{Text, truthy}
use see_no_evil.Policy.Types.{Dict}
use see_no_evil.Policy.Urls.{UrlLib}
use see_no_evil.Ssrf.{IpLib, is_private_url}
use see_no_evil.Notifications.{
  NotificationsConfig, has_targets, Message, Post, to_ntfy, to_webhook, bearer, ntfy_posts,
  webhook_posts, send, send_sync, send_async, send_block, send_panic_change, block_message,
  panic_message,
}

module _ {Float : Type 0} (urls : UrlLib) (ips : IpLib) where
  -- A post to an address of the configuration that is not private; the token goes with the webhook's.
  abbrev pub IsSafe : NotificationsConfig → Post Float → Type 0
  IsSafe cfg (to_ntfy url title body) =
      (cfg.enabled ≡ true) × (cfg.ntfy_url ≡ some url) × (is_private_url urls ips url ≡ false)
  IsSafe cfg (to_webhook url token m) =
      (cfg.enabled ≡ true)
      × (cfg.webhook_url ≡ some url)
      × (is_private_url urls ips url ≡ false)
      × (token ≡ bearer cfg.webhook_token)

  ntfy_posts-IsSafe :
      (cfg : NotificationsConfig) (m : Message Float)
      → cfg.enabled ≡ true
      → (o : Option Text) → cfg.ntfy_url ≡ o
      → All (IsSafe cfg) (ntfy_posts urls ips m o)
  ntfy_posts-IsSafe cfg m on none e = tt
  ntfy_posts-IsSafe cfg m on (some url) e = elim (Bool-cases (truthy url)) [
    | inl given ↦ elim (Bool-cases (is_private_url urls ips url)) [
      | inl private ↦ rw (given, private) tt
      | inr public ↦ rw (given, public) ((on, e, public), tt)
    ]
    | inr empty ↦ rw empty tt
  ]

  webhook_posts-IsSafe :
      (cfg : NotificationsConfig) (m : Message Float)
      → cfg.enabled ≡ true
      → (o : Option Text) → cfg.webhook_url ≡ o
      → All (IsSafe cfg) (webhook_posts urls ips m cfg.webhook_token o)
  webhook_posts-IsSafe cfg m on none e = tt
  webhook_posts-IsSafe cfg m on (some url) e = elim (Bool-cases (truthy url)) [
    | inl given ↦ elim (Bool-cases (is_private_url urls ips url)) [
      | inl private ↦ rw (given, private) tt
      | inr public ↦ rw (given, public) ((on, e, public, refl), tt)
    ]
    | inr empty ↦ rw empty tt
  ]

  All-append :
      (cfg : NotificationsConfig) (ps qs : List (Post Float))
      → All (IsSafe cfg) ps
      → All (IsSafe cfg) qs
      → All (IsSafe cfg) (ps ++ qs)
  All-append cfg [] qs hp hq = hq
  All-append cfg (p ∷ ps) qs (h, hp) hq = (h, All-append cfg ps qs hp hq)

  posts-IsSafe :
      (cfg : NotificationsConfig) (m : Message Float)
      → cfg.enabled ≡ true
      → All (IsSafe cfg) (
          ntfy_posts urls ips m cfg.ntfy_url
          ++ webhook_posts urls ips m cfg.webhook_token cfg.webhook_url)
  posts-IsSafe cfg m on =
      All-append cfg (ntfy_posts urls ips m cfg.ntfy_url)
        (webhook_posts urls ips m cfg.webhook_token cfg.webhook_url)
        (ntfy_posts-IsSafe cfg m on cfg.ntfy_url refl)
        (webhook_posts-IsSafe cfg m on cfg.webhook_url refl)

  send_sync-IsSafe :
      (cfg : NotificationsConfig) (m : Message Float) → All (IsSafe cfg) (send_sync urls ips cfg m)
  unfolding send_sync
  send_sync-IsSafe cfg m = elim (Bool-cases (has_targets cfg)) [
    | inl some_target ↦ rw some_target (posts-IsSafe cfg m (ground arith))
    | inr nothing ↦ rw nothing tt
  ]

  send_async-send_sync :
      (cfg : NotificationsConfig) (m : Message Float)
      → send_async urls ips false cfg m ≡ send_sync urls ips cfg m
  unfolding send_sync send_async
  send_async-send_sync cfg m = refl

  send-IsSafe :
      (mocked client_fails : Bool) (cfg : NotificationsConfig) (m : Message Float)
      → All (IsSafe cfg) (send urls ips mocked client_fails cfg m)
  send-IsSafe true client_fails cfg m = send_sync-IsSafe cfg m
  send-IsSafe false false cfg m = rw (send_async-send_sync cfg m) (send_sync-IsSafe cfg m)
  send-IsSafe false true cfg m =
      unfold send_async in
      elim (Bool-cases (has_targets cfg)) [
        | inl some_target ↦ rw some_target tt
        | inr nothing ↦ rw nothing tt
      ]

  guarded-IsSafe :
      (cfg : NotificationsConfig) (posts : List (Post Float))
      → All (IsSafe cfg) posts
      → All (IsSafe cfg) (if has_targets cfg then posts else [])
  guarded-IsSafe cfg posts h = elim (Bool-cases (has_targets cfg)) [
    | inl some_target ↦ rw some_target h
    | inr nothing ↦ rw nothing tt
  ]

  -- A notification of a block or of panic-relax is only ever posted while notifications are enabled,
  -- to an address of the configuration that is not private, with the token for the webhook alone.
  pub sends-IsSafe :
      (mocked client_fails : Bool) (cfg : NotificationsConfig) (ts : Text)
      (profile device_mac : Option Text) (url reason : Text) (classifier_scores : Dict Float)
      (active : Bool) (set_by : Text) (until : Option Text)
      → All (IsSafe cfg) (
          send_block urls ips mocked client_fails cfg ts profile device_mac url reason
            classifier_scores)
        × All
            (IsSafe cfg)
            (send_panic_change urls ips mocked client_fails cfg ts active set_by reason until)
  unfolding send_block send_panic_change
  sends-IsSafe mocked client_fails cfg ts profile device_mac url reason classifier_scores active
        set_by until =
      let block = block_message ts profile device_mac url reason classifier_scores in
      let change = panic_message ts active set_by reason until in
      (
        guarded-IsSafe cfg (send urls ips mocked client_fails cfg block)
            (send-IsSafe mocked client_fails cfg block),
        guarded-IsSafe cfg (send urls ips mocked client_fails cfg change)
            (send-IsSafe mocked client_fails cfg change),
      )
