-- ===== src/Settings.antt =====
-- The route that changes the run-time settings, services/api/src/seenoevil_api/routers/settings.py. A
-- number of JSON is a float, or an integer that may be too large for one.
pub mod Merged
pub mod Kept
pub mod Rules
pub mod Targets
mod Tests
use see_no_evil.Prelude.{
  ℕ, ◌≡◌, Bool, true, false, not, ◌&&◌, ◌||◌, Option, none, some, List, [], ◌∷◌, length, ltb,
  if◌then◌else◌,
}
use see_no_evil.Text.{Text, codes, eqb, truthy, starts_with, member}
use see_no_evil.Http.{Reply, ok, http}
use see_no_evil.Json.{
  Json, null, bool, num, text, arr, obj, Items, nil, cons, Fields, end, field, get,
}
use see_no_evil.Policy.Urls.{UrlLib}
use see_no_evil.Ssrf.{IpLib, is_private_url}
use see_no_evil.Runtime.{FloatLib, get_runtime, update_runtime}

abbrev pub allowed_top : List Text
allowed_top =
    codes "inspect" ∷ codes "lists" ∷ codes "text" ∷ codes "image" ∷ codes "notifications" ∷ []

abbrev pub allowed_inspect : List Text
allowed_inspect = codes "image" ∷ codes "video" ∷ codes "text" ∷ codes "domain" ∷ codes "url" ∷ []

abbrev pub text_lists : List Text
text_lists =
    codes "global_allow_domains" ∷ codes "global_deny_domains" ∷ codes "global_deny_keywords" ∷ []

abbrev pub allowed_image : List Text
allowed_image = codes "sexy_threshold" ∷ codes "porn_threshold" ∷ codes "hentai_threshold" ∷ []

abbrev pub notify_flags : List Text
notify_flags = codes "enabled" ∷ codes "on_block" ∷ codes "on_quarantine" ∷ codes "on_panic" ∷ []

abbrev pub notify_urls : List Text
notify_urls = codes "ntfy_url" ∷ codes "webhook_url" ∷ []

module _ {Float : Type 0} where
  abbrev pub is_bool : Json Float → Bool
  is_bool (bool b) = true
  is_bool _ = false

  abbrev pub all_texts : Items Float → Bool
  all_texts nil = true
  all_texts (cons (text s) xs) = all_texts xs
  all_texts (cons _ xs) = false

  abbrev pub is_text_list : Json Float → Bool
  is_text_list (arr xs) = all_texts xs
  is_text_list _ = false

  -- A check of every field of a dict.
  unfoldable pub each : (Text → Json Float → Bool) → Fields Float → Bool
  each check end = true
  each check (field k v fs) = check k v && each check fs

  abbrev pub each_of : (Text → Json Float → Bool) → Json Float → Bool
  each_of check (obj fs) = each check fs
  each_of check _ = false

  abbrev pub is_token : Json Float → Bool
  is_token null = true
  is_token (text s) = true
  is_token _ = false

  abbrev pub check_inspect : Text → Json Float → Bool
  check_inspect k v = member k allowed_inspect && is_bool v

  abbrev pub check_lists : Text → Json Float → Bool
  check_lists k v =
      if eqb k (codes "enforce_global_allowlist")
      then is_bool v
      else member k text_lists && is_text_list v

  abbrev pub is_not_null : Option (Json Float) → Bool
  is_not_null (some null) = false
  is_not_null _ = true

  abbrev pub shows_targets : Option (Json Float) → Bool
  shows_targets (some (obj fs)) =
      is_not_null (get (codes "ntfy_url") fs)
      && is_not_null (get (codes "webhook_url") fs)
      && is_not_null (get (codes "webhook_token") fs)
  shows_targets _ = true

  -- The settings fit the response model `RuntimeSettings`, where every row so far was written by
  -- this route.
  abbrev pub fits_response : Fields Float → Bool
  fits_response settings = shows_targets (get (codes "notifications") settings)

  -- `0 <= float(v) <= 1`, and the library's check of addresses.
  module _ (in_unit : Float → Bool) (is_private : Text → Bool) where
    abbrev pub is_share : Json Float → Bool
    is_share (num n) = in_unit n
    is_share _ = false

    abbrev pub is_target_text : Text → Bool
    is_target_text s =
        not (truthy s)
        || (ltb (length s) 500 && starts_with (codes "https://") s && not (is_private s))

    abbrev pub is_target : Json Float → Bool
    is_target null = true
    is_target (text s) = is_target_text s
    is_target _ = false

    abbrev pub check_text : Text → Json Float → Bool
    check_text k v = eqb k (codes "nsfw_threshold") && is_share v

    abbrev pub check_image : Text → Json Float → Bool
    check_image k v = member k allowed_image && is_share v

    abbrev pub check_notifications : Text → Json Float → Bool
    check_notifications k v =
        if member k notify_flags
        then is_bool v
        else if member k notify_urls
        then is_target v
        else eqb k (codes "webhook_token") && is_token v

    abbrev pub check_section : Text → Json Float → Bool
    check_section k v =
        if eqb k (codes "inspect")
        then each_of check_inspect v
        else if eqb k (codes "lists")
        then each_of check_lists v
        else if eqb k (codes "text")
        then each_of check_text v
        else if eqb k (codes "image")
        then each_of check_image v
        else eqb k (codes "notifications") && each_of check_notifications v

    -- `_validate_patch` raises nothing.
    unfoldable pub is_valid_patch : Fields Float → Bool
    unfolding each eqb member starts_with
    is_valid_patch patch = each check_section patch

    module _ (floats : FloatLib Float) where
      abbrev pub is_huge_number : Json Float → Bool
      is_huge_number (num n) = floats.is_huge n
      is_huge_number _ = false

      -- The first field that fails its check does so with the `OverflowError` of `float(v)`.
      unfoldable pub overflow_first : (Text → Json Float → Bool) → Fields Float → Bool
      overflow_first check end = false
      overflow_first check (field k v fs) =
          let later = overflow_first check fs in if check k v then later else is_huge_number v

      -- The names are checked before the numbers.
      abbrev pub section_overflows : Text → Json Float → Bool
      section_overflows k (obj fs) =
          if eqb k (codes "text")
          then each (λ k v. eqb k (codes "nsfw_threshold")) fs && overflow_first check_text fs
          else eqb k (codes "image")
            && each (λ k v. member k allowed_image) fs
            && overflow_first check_image fs
      section_overflows k _ = false

      unfoldable pub sections_overflow : Fields Float → Bool
      unfolding overflow_first
      sections_overflow end = false
      sections_overflow (field k v fs) =
          let later = sections_overflow fs in
          if check_section k v then later else section_overflows k v

      -- What `_validate_patch` fails with: 400, or 500 where `float` overflows.
      unfoldable pub refusal : Fields Float → ℕ
      unfolding sections_overflow each
      refusal patch =
          if each (λ k v. member k allowed_top) patch && sections_overflow patch then 500 else 400

      -- The reply and the new row. A null among the targets is stored, but is no text, as the
      -- response needs it, and the reply is 500.
      unfoldable pub put_settings :
          Option (Json Float) → Fields Float → Reply (Fields Float) × Option (Json Float)
      unfolding is_valid_patch update_runtime refusal get
      put_settings row patch =
          let after = update_runtime floats row patch in
          if is_valid_patch patch
          then (if fits_response after then ok after else http 500, some (obj after))
          else (http (refusal patch), row)
