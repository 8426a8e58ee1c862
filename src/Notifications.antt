-- ===== src/Notifications.antt =====
-- Outgoing notifications, services/api/src/seenoevil_api/notifications.py: the requests that are
-- attempted, in their order. What becomes of a request changes nothing, since every exception is
-- caught.
pub mod Targets
mod Tests
use see_no_evil.Prelude.{
  ℕ, ◌≡◌, Bool, true, false, ◌&&◌, ◌||◌, Option, none, some, List, [], ◌∷◌, ◌++◌, if◌then◌else◌,
}
use see_no_evil.Text.{Text, codes, truthy}
use see_no_evil.Policy.Types.{Dict}
use see_no_evil.Policy.Urls.{UrlLib}
use see_no_evil.Ssrf.{IpLib, is_private_url}

pub record NotificationsConfig : Type 0 where
  pub enabled : Bool
  pub ntfy_url : Option Text
  pub webhook_url : Option Text
  pub webhook_token : Option Text

abbrev pub is_given : Option Text → Bool
is_given none = false
is_given (some s) = truthy s

-- `cfg.enabled and bool(cfg.ntfy_url or cfg.webhook_url)`.
abbrev pub has_targets : NotificationsConfig → Bool
has_targets cfg = cfg.enabled && (is_given cfg.ntfy_url || is_given cfg.webhook_url)

abbrev or_dash : Option Text → Text
or_dash none = codes "-"
or_dash (some s) = if truthy s then s else codes "-"

abbrev pub bearer : Option Text → Option Text
bearer none = none
bearer (some token) = if truthy token then some (codes "Bearer " ++ token) else none

module _ (Float : Type 0) where
  -- The `extra` of the two events.
  pub data Extra : Type 0 where
    scores : Dict Float → Extra
    change : Text → Option Text → Extra

  pub record Message : Type 0 where
    pub event : Text
    pub ts : Text
    pub profile : Option Text
    pub device : Option Text
    pub url : Text
    pub reason : Text
    pub extra : Extra

  -- A POST to ntfy, with its title and text, and one to the webhook, with its bearer token.
  pub data Post : Type 0 where
    to_ntfy : Text → Text → Text → Post
    to_webhook : Text → Option Text → Message → Post

module _ {Float : Type 0} where
  abbrev pub body_text : Message Float → Text
  body_text m =
      m.event
      ++ (codes "\nprofile="
          ++ (or_dash m.profile
              ++ (codes "\ndevice="
                  ++ (or_dash m.device
                      ++ (codes "\nurl="
                          ++ (or_dash (some m.url)
                              ++ (codes "\nreason=" ++ or_dash (some m.reason))))))))

  -- The messages that `build_payload` makes for the two events.
  abbrev pub block_message :
      Text → Option Text → Option Text → Text → Text → Dict Float → Message Float
  block_message ts profile device_mac url reason classifier_scores = record {
    event = codes "block";
    ts = ts;
    profile = profile;
    device = device_mac;
    url = url;
    reason = reason;
    extra = scores classifier_scores;
  }

  abbrev pub panic_message : Text → Bool → Text → Text → Option Text → Message Float
  panic_message ts active set_by reason until = record {
    event = if active then codes "panic_enabled" else codes "panic_disabled";
    ts = ts;
    profile = none;
    device = none;
    url = codes "seenoevil://panic";
    reason = reason;
    extra = change set_by until;
  }

  module _ (urls : UrlLib) (ips : IpLib) where
    -- The first request; none to a private address.
    abbrev pub ntfy_posts : Message Float → Option Text → List (Post Float)
    ntfy_posts m none = []
    ntfy_posts m (some url) =
        if truthy url
        then if is_private_url urls ips url
          then []
          else to_ntfy url (codes "[see-no-evil] " ++ m.event) (body_text m) ∷ []
        else []

    abbrev pub webhook_posts : Message Float → Option Text → Option Text → List (Post Float)
    webhook_posts m token none = []
    webhook_posts m token (some url) =
        if truthy url
        then if is_private_url urls ips url then [] else to_webhook url (bearer token) m ∷ []
        else []

    unfoldable pub send_sync : NotificationsConfig → Message Float → List (Post Float)
    unfolding is_private_url
    send_sync cfg m =
        if has_targets cfg
        then ntfy_posts m cfg.ntfy_url ++ webhook_posts m cfg.webhook_token cfg.webhook_url
        else []

    -- The client may fail before any request.
    unfoldable pub send_async : Bool → NotificationsConfig → Message Float → List (Post Float)
    unfolding is_private_url
    send_async client_fails cfg m =
        if has_targets cfg
        then if client_fails
          then []
          else ntfy_posts m cfg.ntfy_url ++ webhook_posts m cfg.webhook_token cfg.webhook_url
        else []

    -- What runs the sending: `httpx.post` is replaced in tests.
    abbrev pub send : Bool → Bool → NotificationsConfig → Message Float → List (Post Float)
    send mocked client_fails cfg m =
        if mocked then send_sync cfg m else send_async client_fails cfg m

    unfoldable pub send_block :
        Bool
        → Bool
        → NotificationsConfig
        → Text
        → Option Text
        → Option Text
        → Text
        → Text
        → Dict Float
        → List (Post Float)
    unfolding send_sync send_async
    send_block mocked client_fails cfg ts profile device_mac url reason classifier_scores =
        if has_targets cfg
        then send mocked client_fails cfg
            (block_message ts profile device_mac url reason classifier_scores)
        else []

    unfoldable pub send_panic_change :
        Bool
        → Bool
        → NotificationsConfig
        → Text
        → Bool
        → Text
        → Text
        → Option Text
        → List (Post Float)
    unfolding send_sync send_async
    send_panic_change mocked client_fails cfg ts active set_by reason until =
        if has_targets cfg
        then send mocked client_fails cfg (panic_message ts active set_by reason until)
        else []
