-- ===== src/Inventory/Profiles.antt =====
-- The handlers of routers/profiles.py that change rows.
use see_no_evil.Prelude.{
  ℕ, Bool, not, ◌&&◌, Option, none, some, List, [], ◌∷◌, ◌++◌, any, ◌==◌, if◌then◌else◌,
}
use see_no_evil.Text.Number.{ℤ}
use see_no_evil.Text.{Text, eqb}
use see_no_evil.Http.{Reply, ok, http}
use see_no_evil.Policy.Types.{Dict}
use see_no_evil.Models.{Device, Profile}
use see_no_evil.Table.{get, update, delete}
use see_no_evil.Decide.{profile_id}
use see_no_evil.Inventory.{Field, set_field}
use see_no_evil.Opa.{◌>>=◌}

module _ (Float : Type 0) where
  -- The columns that the modelled code reads.
  pub record ProfileUpdate : Type 0 where
    pub name : Field Text
    pub image_thresholds : Field (Dict Float)
    pub schedule : Field (Dict Text)
    pub quota_minutes_per_day : Field ℤ
    pub allow_domains : Field (List Text)
    pub enforce_allowlist : Field Bool
    pub deny_domains : Field (List Text)
    pub deny_url_keywords : Field (List Text)
    pub allow_youtube_channels : Field (List Text)
    pub deny_youtube_channels : Field (List Text)

module _ {Float : Type 0} where
  -- Another row has the name.
  abbrev pub name_taken : Profile Float → List (Profile Float) → Bool
  name_taken p profiles = any (λ q. eqb q.name p.name && not (q.id == p.id)) profiles

  -- The body's columns, with the id of the new row.
  unfoldable pub create_profile :
      Profile Float → List (Profile Float) → Reply (Profile Float) × List (Profile Float)
  unfolding eqb
  create_profile new profiles =
      if any (λ q. eqb q.name new.name) profiles
      then (http 409, profiles)
      else (ok new, profiles ++ (new ∷ []))

  abbrev pub changed_profile : ProfileUpdate Float → Profile Float → Option (Profile Float)
  changed_profile body p = do
    name ← set_field body.name p.name
    thresholds ← set_field body.image_thresholds p.image_thresholds
    schedule ← set_field body.schedule p.schedule
    quota ← set_field body.quota_minutes_per_day p.quota_minutes_per_day
    allowed ← set_field body.allow_domains p.allow_domains
    enforced ← set_field body.enforce_allowlist p.enforce_allowlist
    denied ← set_field body.deny_domains p.deny_domains
    keywords ← set_field body.deny_url_keywords p.deny_url_keywords
    channels ← set_field body.allow_youtube_channels p.allow_youtube_channels
    denied_channels ← set_field body.deny_youtube_channels p.deny_youtube_channels
    some (record p {
      name = name;
      image_thresholds = thresholds;
      schedule = schedule;
      quota_minutes_per_day = quota;
      allow_domains = allowed;
      enforce_allowlist = enforced;
      deny_domains = denied;
      deny_url_keywords = keywords;
      allow_youtube_channels = channels;
      deny_youtube_channels = denied_channels;
    })

  -- Either broken constraint is answered 409.
  abbrev pub store_profile :
      ℕ
      → List (Profile Float)
      → Option (Profile Float)
      → Reply (Profile Float) × List (Profile Float)
  store_profile id profiles none = (http 409, profiles)
  store_profile id profiles (some p) =
      if name_taken p profiles
      then (http 409, profiles)
      else (ok p, update profile_id id (λ old. p) profiles)

  abbrev pub update_profile_found :
      ℕ
      → ProfileUpdate Float
      → List (Profile Float)
      → Option (Profile Float)
      → Reply (Profile Float) × List (Profile Float)
  update_profile_found id body profiles none = (http 404, profiles)
  update_profile_found id body profiles (some p) =
      store_profile id profiles (changed_profile body p)

  unfoldable pub update_profile :
      ℕ → ProfileUpdate Float → List (Profile Float) → Reply (Profile Float) × List (Profile Float)
  unfolding get update eqb
  update_profile id body profiles =
      update_profile_found id body profiles (get profile_id id profiles)

  abbrev pub delete_profile_found :
      ℕ
      → List Device
      → List (Profile Float)
      → Option (Profile Float)
      → Reply (Unit {0}) × List (Profile Float)
  delete_profile_found id devices profiles none = (http 404, profiles)
  delete_profile_found id devices profiles (some p) =
      if any (λ d. d.profile_id == id) devices
      then (http 409, profiles)
      else (ok tt, delete profile_id id profiles)

  unfoldable pub delete_profile :
      ℕ → List Device → List (Profile Float) → Reply (Unit {0}) × List (Profile Float)
  unfolding get delete
  delete_profile id devices profiles =
      delete_profile_found id devices profiles (get profile_id id profiles)
