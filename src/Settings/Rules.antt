-- ===== src/Settings/Rules.antt =====
-- What accepted patches guarantee to the readers of the settings.
use see_no_evil.Prelude.{
  ◌≡◌, refl, inl, inr, Bool, true, false, Option, none, some, List, [], ◌∷◌, Bool-cases, arith,
}
use see_no_evil.Text.{Text, codes, eqb, member}
use see_no_evil.Json.{Json, null, bool, num, text, arr, obj, Items, nil, cons, Fields, end, get}
use see_no_evil.Policy.Types.{GlobalRules}
use see_no_evil.Runtime.{FloatLib, defaults, stored, get_runtime, update_runtime}
use see_no_evil.Decide.Rules.{dict_of, texts_of, list_or_empty, rules_of, global_rules}
use see_no_evil.Settings.{
  each, each_of, all_texts, is_text_list, check_inspect, check_lists, check_image, check_section,
  is_valid_patch, put_settings,
}
use see_no_evil.Settings.Merged.{get-each}
use see_no_evil.Settings.Kept.{deep_merge_valid}

module _ {Float : Type 0} (in_unit : Float → Bool) (is_private : Text → Bool)
    (floats : FloatLib Float) where
  -- Patches that come in one after another.
  abbrev pub served : List (Fields Float) → Option (Json Float) → Option (Json Float)
  served [] row = row
  served (patch ∷ patches) row = served patches (put_settings in_unit is_private floats row patch).1

module _ {Float : Type 0} where
  dict_of-each :
      (check : Text → Json Float → Bool) (o : Option (Json Float))
      → ((v : Json Float) → o ≡ some v → each_of check v ≡ true)
      → (fs : Fields Float) × (dict_of o ≡ some fs) × (each check fs ≡ true)
  unfolding each
  dict_of-each check none h = (end, refl, refl)
  dict_of-each check (some (obj fs)) h = (fs, refl, h (obj fs) refl)
  dict_of-each check (some null) h = absurd (ground (arith, h null refl))
  dict_of-each check (some (bool b)) h = absurd (ground (arith, h (bool b) refl))
  dict_of-each check (some (num n)) h = absurd (ground (arith, h (num n) refl))
  dict_of-each check (some (text s)) h = absurd (ground (arith, h (text s) refl))
  dict_of-each check (some (arr xs)) h = absurd (ground (arith, h (arr xs) refl))

  texts_of-all_texts :
      (xs : Items Float) → all_texts xs ≡ true → (ss : List Text) × (texts_of xs ≡ some ss)
  texts_of-all_texts nil h = ([], refl)
  texts_of-all_texts (cons (text s) xs) h =
      let (ss, e) = texts_of-all_texts xs h in (s ∷ ss, rw e refl)
  texts_of-all_texts (cons null xs) h = absurd (ground arith)
  texts_of-all_texts (cons (bool b) xs) h = absurd (ground arith)
  texts_of-all_texts (cons (num n) xs) h = absurd (ground arith)
  texts_of-all_texts (cons (arr ys) xs) h = absurd (ground arith)
  texts_of-all_texts (cons (obj fs) xs) h = absurd (ground arith)

  list_or_empty-is_text_list :
      (floats : FloatLib Float) (o : Option (Json Float))
      → ((v : Json Float) → o ≡ some v → is_text_list v ≡ true)
      → (ss : List Text) × (list_or_empty floats o ≡ some ss)
  list_or_empty-is_text_list floats none h = ([], refl)
  list_or_empty-is_text_list floats (some (arr xs)) h = texts_of-all_texts xs (h (arr xs) refl)
  list_or_empty-is_text_list floats (some null) h = absurd (ground (arith, h null refl))
  list_or_empty-is_text_list floats (some (bool b)) h = absurd (ground (arith, h (bool b) refl))
  list_or_empty-is_text_list floats (some (num n)) h = absurd (ground (arith, h (num n) refl))
  list_or_empty-is_text_list floats (some (text s)) h = absurd (ground (arith, h (text s) refl))
  list_or_empty-is_text_list floats (some (obj fs)) h = absurd (ground (arith, h (obj fs) refl))

module _ {Float : Type 0} (in_unit : Float → Bool) (is_private : Text → Bool)
    (floats : FloatLib Float) (half_in_unit : in_unit floats.half ≡ true)
    (six_tenths_in_unit : in_unit floats.six_tenths ≡ true) where
  defaults_valid : is_valid_patch in_unit is_private (defaults floats) ≡ true
  unfolding is_valid_patch defaults each eqb member
  defaults_valid = rw (half_in_unit, six_tenths_in_unit) refl

  get_runtime_valid :
      (row : Option (Json Float))
      → is_valid_patch in_unit is_private (stored floats row) ≡ true
      → is_valid_patch in_unit is_private (get_runtime floats row) ≡ true
  unfolding get_runtime
  get_runtime_valid row h =
      deep_merge_valid in_unit is_private (defaults floats) (stored floats row) defaults_valid h

  put_settings_valid :
      (row : Option (Json Float)) (patch : Fields Float)
      → is_valid_patch in_unit is_private (stored floats row) ≡ true
      → is_valid_patch in_unit is_private
          (stored floats (put_settings in_unit is_private floats row patch).1)
        ≡ true
  unfolding put_settings update_runtime
  put_settings_valid row patch h = elim (Bool-cases (is_valid_patch in_unit is_private patch)) [
    | inl accepted ↦ rw accepted (
        deep_merge_valid in_unit is_private (get_runtime floats row) patch (get_runtime_valid row h)
          accepted)
    | inr refused ↦ rw refused h
  ]

  pub served_valid :
      (patches : List (Fields Float)) (row : Option (Json Float))
      → is_valid_patch in_unit is_private (stored floats row) ≡ true
      → is_valid_patch in_unit is_private
          (get_runtime floats (served in_unit is_private floats patches row))
        ≡ true
  served_valid [] row h = get_runtime_valid row h
  served_valid (patch ∷ patches) row h =
      served_valid patches (put_settings in_unit is_private floats row patch).1
        (put_settings_valid row patch h)

  pub section_of :
      (k : Text) (fs : Fields Float) {v : Json Float}
      → is_valid_patch in_unit is_private fs ≡ true
      → get k fs ≡ some v
      → check_section in_unit is_private k v ≡ true
  unfolding is_valid_patch
  section_of k fs h e = get-each (check_section in_unit is_private) k fs h e

  lists_list :
      (k : Text) (fs : Fields Float)
      → eqb k (codes "enforce_global_allowlist") ≡ false
      → each check_lists fs ≡ true
      → (ss : List Text) × (list_or_empty floats (get k fs) ≡ some ss)
  lists_list k fs ne h =
      list_or_empty-is_text_list floats (get k fs)
        (λ v e. let c = get-each check_lists k fs h e in ground (arith, c, ne))

  rules_of_valid :
      (fs : Fields Float)
      → is_valid_patch in_unit is_private fs ≡ true
      → (rules : GlobalRules Float) × (rules_of floats fs ≡ some rules)
  unfolding rules_of eqb
  rules_of_valid fs h =
      let (inspect, e₁, c₁) =
        dict_of-each check_inspect (get (codes "inspect") fs)
          (λ v e. section_of (codes "inspect") fs h e) in
      let (lists, e₂, c₂) =
        dict_of-each check_lists (get (codes "lists") fs)
          (λ v e. section_of (codes "lists") fs h e) in
      let (image, e₃, c₃) =
        dict_of-each (check_image in_unit is_private) (get (codes "image") fs)
          (λ v e. section_of (codes "image") fs h e) in
      let (allowed, e₄) = lists_list (codes "global_allow_domains") lists refl c₂ in
      let (denied, e₅) = lists_list (codes "global_deny_domains") lists refl c₂ in
      let (keywords, e₆) = lists_list (codes "global_deny_keywords") lists refl c₂ in
      rw (e₁, e₂, e₃, e₄, e₅, e₆) (_, refl)

  -- Whatever patches come in on a fresh data base, accepted or refused, the settings give rules to
  -- every decision: reading them raises nothing.
  pub global_rules-served :
      (patches : List (Fields Float))
      → (rules : GlobalRules Float) × (global_rules floats
            (served in_unit is_private floats patches none)
          ≡ some rules)
  unfolding global_rules is_valid_patch
  global_rules-served patches =
      rules_of_valid (get_runtime floats (served in_unit is_private floats patches none))
        (served_valid patches none refl)
