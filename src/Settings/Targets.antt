-- ===== src/Settings/Targets.antt =====
-- The addresses of notifications in settings that were made of accepted patches.
use see_no_evil.Prelude.{
  ◌≡◌, ◌<◌, refl, sym, ◌∙◌, inl, inr, Bool, true, false, none, some, List, [], ◌∷◌, length,
  Bool-cases, Option-cases, arith,
}
use see_no_evil.Text.{Text, codes, eqb, truthy, starts_with, member}
use see_no_evil.Text.Laws.{eqb_iff}
use see_no_evil.Json.{Json, null, bool, num, text, arr, obj, Fields, get, at}
use see_no_evil.Policy.Urls.{UrlLib}
use see_no_evil.Ssrf.{IpLib, is_private_url}
use see_no_evil.Runtime.{FloatLib, get_runtime}
use see_no_evil.Settings.{each, is_target_text, notify_urls, check_notifications, is_valid_patch}
use see_no_evil.Settings.Merged.{get-each}
use see_no_evil.Settings.Rules.{served, served_valid, section_of}

module _ {Float : Type 0} where
  -- Two keys deep.
  at_one :
      (k j : Text) (fs : Fields Float) (w : Json Float) {v : Json Float}
      → get k fs ≡ some w
      → at (j ∷ []) w ≡ some v
      → (gs : Fields Float) × (get k fs ≡ some (obj gs)) × (get j gs ≡ some v)
  unfolding at
  at_one k j fs (obj gs) found e = elim (Option-cases (get j gs)) [
    | inl gone ↦ absurd (ground arith)
    | inr (u, there) ↦ (gs, found, ground arith)
  ]
  at_one k j fs null found e = absurd (ground arith)
  at_one k j fs (bool b) found e = absurd (ground arith)
  at_one k j fs (num n) found e = absurd (ground arith)
  at_one k j fs (text s) found e = absurd (ground arith)
  at_one k j fs (arr xs) found e = absurd (ground arith)

  at_two :
      (k j : Text) (fs : Fields Float) {v : Json Float}
      → at (k ∷ j ∷ []) (obj fs) ≡ some v
      → (gs : Fields Float) × (get k fs ≡ some (obj gs)) × (get j gs ≡ some v)
  unfolding at
  at_two k j fs {v} e = elim (Option-cases (get k fs)) [
    | inl gone ↦ absurd (ground arith)
    | inr (w, found) ↦ at_one k j fs w found (rw (found, at) at e)
  ]

module _ {Float : Type 0} (in_unit : Float → Bool) (is_private : Text → Bool) where
  target_parts :
      (s : Text)
      → truthy s ≡ true
      → is_target_text in_unit is_private s ≡ true
      → (starts_with (codes "https://") s ≡ true) × (length s < 500) × (is_private s ≡ false)
  target_parts s given t = (ground arith, ground arith, ground arith)

  target_check :
      (k s : Text)
      → member k notify_urls ≡ true
      → check_notifications in_unit is_private k (text s) ≡ is_target_text in_unit is_private s
  unfolding member eqb
  target_check k s url = elim (Bool-cases (eqb (codes "ntfy_url") k)) [
    | inl ntfy ↦ rw (← (eqb_iff (codes "ntfy_url") k).0 ntfy) refl
    | inr other ↦
        let webhook : eqb (codes "webhook_url") k ≡ true = ground arith in
        rw (← (eqb_iff (codes "webhook_url") k).0 webhook) refl
  ]

  notifications_target :
      (k : Text) (s : Text) (gs : Fields Float)
      → member k notify_urls ≡ true
      → each (check_notifications in_unit is_private) gs ≡ true
      → get k gs ≡ some (text s)
      → is_target_text in_unit is_private s ≡ true
  notifications_target k s gs url h e =
      sym (target_check k s url) ∙ get-each (check_notifications in_unit is_private) k gs h e

module _ {Float : Type 0} (in_unit : Float → Bool) (floats : FloatLib Float) (urls : UrlLib)
    (ips : IpLib) (half_in_unit : in_unit floats.half ≡ true)
    (six_tenths_in_unit : in_unit floats.six_tenths ≡ true) where
  -- Whatever patches come in on a fresh data base, an address for notifications that stands in the
  -- settings is empty, or an https URL of fewer than 500 characters that names no private address.
  pub served-target :
      (patches : List (Fields Float)) (k s : Text)
      → member k notify_urls ≡ true
      → truthy s ≡ true
      → at
          (codes "notifications" ∷ k ∷ [])
          (obj (get_runtime floats (served in_unit (is_private_url urls ips) floats patches none)))
        ≡ some (text s)
      → (starts_with (codes "https://") s ≡ true)
        × (length s < 500)
        × (is_private_url urls ips s ≡ false)
  unfolding is_valid_patch
  served-target patches k s url given there =
      let settings =
        get_runtime floats (served in_unit (is_private_url urls ips) floats patches none) in
      let (gs, found, value) = at_two (codes "notifications") k settings there in
      let valid =
        served_valid in_unit (is_private_url urls ips) floats half_in_unit six_tenths_in_unit
          patches none refl in
      let entries =
        section_of in_unit (is_private_url urls ips) floats half_in_unit six_tenths_in_unit
          (codes "notifications") settings valid found in
      let t = notifications_target in_unit (is_private_url urls ips) k s gs url entries value in
      target_parts in_unit (is_private_url urls ips) s given t
