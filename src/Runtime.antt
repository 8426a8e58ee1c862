-- ===== src/Runtime.antt =====
-- The run-time settings, services/api/src/seenoevil_api/runtime.py, and what decide.py reads of them.
-- The floats that the source writes are parameters.
mod Tests
pub mod Updates
use see_no_evil.Prelude.{
  Bool, true, false, not, ◌&&◌, Option, none, some, List, [], ◌∷◌, ◌++◌, if◌then◌else◌,
}
use see_no_evil.Text.{Text, codes, truthy}
use see_no_evil.Json.{
  Json, null, bool, num, text, arr, obj, Items, nil, cons, Fields, end, field, get, put,
}
use see_no_evil.Policy.Types.{Dict, GlobalRules}

-- The floats of the source: `>=`, `> 0`, `== 0`, and the numbers 1, 0.5 and 0.6.
pub record FloatLib (Float : Type 0) : Type 0 where
  pub at_least : Float → Float → Bool
  pub is_positive : Float → Bool
  pub is_zero : Float → Bool
  pub one : Float
  pub half : Float
  pub six_tenths : Float
  -- An integer for which `float(v)` raises `OverflowError`.
  pub is_huge : Float → Bool

module _ {Float : Type 0} where
  -- `_deep_merge`: a dict of the second goes into a dict of the first, all else replaces it.
  unfoldable mutual
    unfolding get put

    pub deep_merge : Fields Float → Fields Float → Fields Float
    deep_merge base end = base
    deep_merge base (field k v over) = deep_merge (put k (merged v (get k base)) base) over

    pub merged : Json Float → Option (Json Float) → Json Float
    merged (obj over) (some (obj base)) = obj (deep_merge base over)
    merged (obj over) (some null) = obj over
    merged (obj over) (some (bool b)) = obj over
    merged (obj over) (some (num n)) = obj over
    merged (obj over) (some (text s)) = obj over
    merged (obj over) (some (arr xs)) = obj over
    merged (obj over) none = obj over
    merged null o = null
    merged (bool b) o = bool b
    merged (num n) o = num n
    merged (text s) o = text s
    merged (arr xs) o = arr xs

  module _ (floats : FloatLib Float) where
    unfoldable pub defaults : Fields Float
    defaults =
        field (codes "inspect")
          (obj (
            field (codes "image") (bool true) (
              field (codes "video") (bool true) (
                field (codes "text") (bool true)
                  (field (codes "domain") (bool true) (field (codes "url") (bool true) end))))))
          (field (codes "lists")
            (obj (
              field (codes "global_allow_domains") (arr nil) (
                field (codes "enforce_global_allowlist") (bool false) (
                  field (codes "global_deny_domains") (arr nil)
                    (field (codes "global_deny_keywords") (arr nil) end)))))
            (field (codes "text") (obj (field (codes "nsfw_threshold") (num floats.half) end)) (
              field (codes "image")
                (obj (
                  field (codes "sexy_threshold") (num floats.six_tenths) (
                    field (codes "porn_threshold") (num floats.half)
                      (field (codes "hentai_threshold") (num floats.half) end))))
                (field (codes "notifications")
                  (obj (
                    field (codes "enabled") (bool false) (
                      field (codes "ntfy_url") (text []) (
                        field (codes "webhook_url") (text []) (
                          field (codes "webhook_token") (text []) (
                            field (codes "on_block") (bool true) (
                              field (codes "on_quarantine") (bool true)
                                (field (codes "on_panic") (bool true) end))))))))
                  end))))

    -- `row.value if row else {}`, and `{}` for a value that is no dict.
    abbrev pub stored : Option (Json Float) → Fields Float
    stored (some (obj fs)) = fs
    stored _ = end

    unfoldable pub get_runtime : Option (Json Float) → Fields Float
    unfolding deep_merge defaults
    get_runtime row = deep_merge defaults (stored row)

    -- The settings it returns, which are also the value of the new row.
    unfoldable pub update_runtime : Option (Json Float) → Fields Float → Fields Float
    unfolding get_runtime deep_merge
    update_runtime row patch = deep_merge (get_runtime row) patch
