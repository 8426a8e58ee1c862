-- ===== src/Decide/Rules.antt =====
-- `_global_rules` of decide.py: the rules in the run-time settings. `none` is an exception; a list with
-- an element that is no text, which raises where that element is used, raises here.
use see_no_evil.Prelude.{
  Bool, true, false, not, Option, none, some, List, [], ◌∷◌, ◌++◌, map, if◌then◌else◌,
}
use see_no_evil.Text.{Text, codes, truthy}
use see_no_evil.Json.{
  Json, null, bool, num, text, arr, obj, Items, nil, cons, Fields, end, field, get,
}
use see_no_evil.Policy.Types.{Dict, GlobalRules}
use see_no_evil.Runtime.{FloatLib, get_runtime}
use see_no_evil.Opa.{◌>>=◌}

module _ {Float : Type 0} where
  -- `settings.get(key, {})`, of which `.get` is called.
  abbrev pub dict_of : Option (Json Float) → Option (Fields Float)
  dict_of none = some end
  dict_of (some (obj fs)) = some fs
  dict_of (some _) = none

  abbrev pub keys_of : Fields Float → List Text
  keys_of end = []
  keys_of (field k v fs) = k ∷ keys_of fs

  abbrev pub texts_of : Items Float → Option (List Text)
  texts_of nil = some []
  texts_of (cons (text s) xs) = texts_of xs >>= λ rest. some (s ∷ rest)
  texts_of (cons _ xs) = none

  module _ (floats : FloatLib Float) where
    -- `list(value or [])`.
    abbrev pub list_or_empty : Option (Json Float) → Option (List Text)
    list_or_empty none = some []
    list_or_empty (some null) = some []
    list_or_empty (some (bool b)) = if b then none else some []
    list_or_empty (some (num n)) = if floats.is_zero n then some [] else none
    list_or_empty (some (text s)) = some (map (λ c. c ∷ []) s)
    list_or_empty (some (arr xs)) = texts_of xs
    list_or_empty (some (obj fs)) = some (keys_of fs)

    -- `bool(value)`.
    abbrev pub truth : Json Float → Bool
    truth null = false
    truth (bool b) = b
    truth (num n) = not (floats.is_zero n)
    truth (text s) = truthy s
    truth (arr nil) = false
    truth (arr (cons x xs)) = true
    truth (obj end) = false
    truth (obj (field k v fs)) = true

    abbrev pub truth_or : Bool → Option (Json Float) → Bool
    truth_or b none = b
    truth_or b (some v) = truth v

    -- A positive number, or `True`, which is 1, is a threshold.
    abbrev pub threshold : Text → Option (Json Float) → Dict Float
    threshold label (some (num n)) = if floats.is_positive n then (label, n) ∷ [] else []
    threshold label (some (bool b)) = if b then (label, floats.one) ∷ [] else []
    threshold label _ = []

    abbrev pub thresholds_of : Fields Float → Dict Float
    thresholds_of image =
        threshold (codes "sexy") (get (codes "sexy_threshold") image)
        ++ (threshold (codes "porn") (get (codes "porn_threshold") image)
            ++ threshold (codes "hentai") (get (codes "hentai_threshold") image))

    unfoldable pub rules_of : Fields Float → Option (GlobalRules Float)
    unfolding get
    rules_of settings = do
      inspect ← dict_of (get (codes "inspect") settings)
      lists ← dict_of (get (codes "lists") settings)
      image ← dict_of (get (codes "image") settings)
      allowed ← list_or_empty (get (codes "global_allow_domains") lists)
      denied ← list_or_empty (get (codes "global_deny_domains") lists)
      keywords ← list_or_empty (get (codes "global_deny_keywords") lists)
      some (record {
        allow_domains = allowed;
        enforce_allowlist = truth_or false (get (codes "enforce_global_allowlist") lists);
        deny_domains = denied;
        deny_url_keywords = keywords;
        apply_domain_rules = truth_or true (get (codes "domain") inspect);
        apply_url_rules = truth_or true (get (codes "url") inspect);
        image_thresholds = thresholds_of image;
      })

    unfoldable pub global_rules : Option (Json Float) → Option (GlobalRules Float)
    unfolding rules_of get_runtime
    global_rules row = rules_of (get_runtime floats row)
