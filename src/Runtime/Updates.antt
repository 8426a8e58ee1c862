-- ===== src/Runtime/Updates.antt =====
-- What an update changes.
use see_no_evil.Prelude.{
  ◌≡◌, refl, sym, ◌∙◌, inl, inr, false, Option, none, some, List, [], ◌∷◌, if◌then◌else◌,
  Bool-cases, Option-cases, arith,
}
use see_no_evil.Text.{Text, eqb}
use see_no_evil.Text.Laws.{eqb_iff}
use see_no_evil.Json.{
  Json, null, bool, num, text, arr, obj, Fields, end, field, get, put, at, is_obj, IsAbsent,
}
use see_no_evil.Json.Paths.{get-put, get-IsAbsent, IsDict, AreDicts, put-AreDicts, get-IsDict}
use see_no_evil.Runtime.{
  FloatLib, deep_merge, merged, defaults, stored, get_runtime, update_runtime,
}

module _ {Float : Type 0} where
  -- The merged value of one key.
  abbrev one_key : Option (Json Float) → Option (Json Float) → Option (Json Float)
  one_key none base = base
  one_key (some v) base = some (merged v base)

  deep_merge-field :
      (base over : Fields Float) (k : Text) (v : Json Float)
      → deep_merge base (field k v over) ≡ deep_merge (put k (merged v (get k base)) base) over
  unfolding deep_merge
  deep_merge-field base over k v = refl

  parts :
      (k : Text) (v : Json Float) (fs : Fields Float)
      → AreDicts (field k v fs)
      → IsAbsent k fs × IsDict v × AreDicts fs
  unfolding IsDict
  parts k v fs d = d

  get-field :
      (key k : Text) (v : Json Float) (fs : Fields Float)
      → get key (field k v fs) ≡ (if eqb k key then some v else get key fs)
  unfolding get
  get-field key k v fs = refl

  get-deep_merge :
      (key : Text) (base over : Fields Float)
      → AreDicts over
      → get key (deep_merge base over) ≡ one_key (get key over) (get key base)
  get-deep_merge key base end d = unfold deep_merge get in refl
  get-deep_merge key base (field k v over) d =
      let (absent, dv, rest) = parts k v over d in
      let ih = get-deep_merge key (put k (merged v (get k base)) base) over rest in
      elim (Bool-cases (eqb k key)) [
        | inl here ↦
            let same : k ≡ key = (eqb_iff k key).0 here in
            let gone : get key over ≡ none = get-IsAbsent key over (rw same at absent) in
            rw (deep_merge-field, ih, get-put, get-field, here, gone, same) refl
        | inr other ↦ rw (deep_merge-field, ih, get-put, get-field, other) refl
      ]

  mutual
    unfolding deep_merge merged IsDict

    deep_merge-AreDicts :
        (base over : Fields Float) → AreDicts base → AreDicts over → AreDicts (deep_merge base over)
    deep_merge-AreDicts base end d e = d
    deep_merge-AreDicts base (field k v over) d (absent, dv, e) =
        deep_merge-AreDicts (put k (merged v (get k base)) base) over
          (put-AreDicts k (merged v (get k base)) base
            (merged-IsDict v (get k base) (λ w f. get-IsDict k base d f) dv) d)
          e

    merged-IsDict :
        (v : Json Float) (o : Option (Json Float))
        → ((w : Json Float) → o ≡ some w → IsDict w)
        → IsDict v
        → IsDict (merged v o)
    merged-IsDict (obj over) (some (obj base)) d e =
        deep_merge-AreDicts base over (d (obj base) refl) e
    merged-IsDict (obj over) (some null) d e = e
    merged-IsDict (obj over) (some (bool b)) d e = e
    merged-IsDict (obj over) (some (num n)) d e = e
    merged-IsDict (obj over) (some (text s)) d e = e
    merged-IsDict (obj over) (some (arr xs)) d e = e
    merged-IsDict (obj over) none d e = e
    merged-IsDict null o d e = tt
    merged-IsDict (bool b) o d e = tt
    merged-IsDict (num n) o d e = tt
    merged-IsDict (text s) o d e = tt
    merged-IsDict (arr xs) o d e = tt

  -- A value that is no dict replaces what stood there.
  pub merged-leaf : (v : Json Float) (o : Option (Json Float)) → is_obj v ≡ false → merged v o ≡ v
  unfolding merged
  merged-leaf (obj fs) o h = cc
  merged-leaf null o h = refl
  merged-leaf (bool b) o h = refl
  merged-leaf (num n) o h = refl
  merged-leaf (text s) o h = refl
  merged-leaf (arr xs) o h = refl

  pub merged-obj :
      (over base : Fields Float) → merged (obj over) (some (obj base)) ≡ obj (deep_merge base over)
  unfolding merged
  merged-obj over base = refl

  at-obj :
      (key : Text) (path : List Text) (fs : Fields Float) {v : Json Float}
      → get key fs ≡ some v
      → at (key ∷ path) (obj fs) ≡ at path v
  unfolding at
  at-obj key path fs e = rw (e, at) refl

  at-obj_none :
      (key : Text) (path : List Text) (fs : Fields Float)
      → get key fs ≡ none
      → at (key ∷ path) (obj fs) ≡ none
  unfolding at
  at-obj_none key path fs e = rw (e, at) refl

  -- The value at a path of the patch is the value at that path of what is merged.
  at-merged :
      (path : List Text) (w : Json Float) (o : Option (Json Float)) (v : Json Float)
      → IsDict w
      → at path w ≡ some v
      → is_obj v ≡ false
      → at path (merged w o) ≡ some v
  at-merged [] w o v d e leaf =
      let same : w ≡ v = unfold at in cc in rw same (rw (merged-leaf v o leaf) (unfold at in refl))
  at-merged (key ∷ path) (obj over) (some (obj base)) v d e leaf =
      elim (Option-cases (get key over)) [
        | inl gone ↦ absurd (ground (arith, at-obj_none key path over gone))
        | inr (w, found) ↦
            let below : at path (merged w (get key base)) ≡ some v =
              at-merged path w (get key base) v (get-IsDict key over (unfold IsDict in d) found)
                (sym (at-obj key path over found) ∙ e) leaf in
            let there : get key (deep_merge base over) ≡ some (merged w (get key base)) =
              get-deep_merge key base over (unfold IsDict in d) ∙ rw found refl in
            rw (merged-obj over base) (at-obj key path (deep_merge base over) there ∙ below)
      ]
  at-merged (key ∷ path) (obj over) (some null) v d e leaf = unfold merged in e
  at-merged (key ∷ path) (obj over) (some (bool b)) v d e leaf = unfold merged in e
  at-merged (key ∷ path) (obj over) (some (num n)) v d e leaf = unfold merged in e
  at-merged (key ∷ path) (obj over) (some (text s)) v d e leaf = unfold merged in e
  at-merged (key ∷ path) (obj over) (some (arr xs)) v d e leaf = unfold merged in e
  at-merged (key ∷ path) (obj over) none v d e leaf = unfold merged in e
  at-merged (key ∷ path) null o v d e leaf = unfold merged in e
  at-merged (key ∷ path) (bool b) o v d e leaf = unfold merged in e
  at-merged (key ∷ path) (num n) o v d e leaf = unfold merged in e
  at-merged (key ∷ path) (text s) o v d e leaf = unfold merged in e
  at-merged (key ∷ path) (arr xs) o v d e leaf = unfold merged in e

  module _ (floats : FloatLib Float) where
    defaults-AreDicts : AreDicts (defaults floats)
    unfolding defaults IsDict eqb
    defaults-AreDicts = ground arith

    stored-AreDicts :
        (row : Option (Json Float))
        → ((v : Json Float) → row ≡ some v → IsDict v)
        → AreDicts (stored floats row)
    unfolding IsDict
    stored-AreDicts none d = tt
    stored-AreDicts (some null) d = tt
    stored-AreDicts (some (bool b)) d = tt
    stored-AreDicts (some (num n)) d = tt
    stored-AreDicts (some (text s)) d = tt
    stored-AreDicts (some (arr xs)) d = tt
    stored-AreDicts (some (obj fs)) d = d (obj fs) refl

    -- What a patch sets, at any depth, is what the settings hold after it was stored, whatever they
    -- held before.
    pub get_runtime-update_runtime :
        (row : Option (Json Float)) (patch : Fields Float) (path : List Text) (v : Json Float)
        → ((w : Json Float) → row ≡ some w → IsDict w)
        → IsDict (obj patch)
        → at path (obj patch) ≡ some v
        → is_obj v ≡ false
        → at path (obj (get_runtime floats (some (obj (update_runtime floats row patch))))) ≡ some v
    unfolding get_runtime update_runtime
    get_runtime-update_runtime row patch path v stored_dict patch_dict there leaf =
        let current = deep_merge (defaults floats) (stored floats row) in
        let current_dicts =
          deep_merge-AreDicts (defaults floats) (stored floats row) defaults-AreDicts
            (stored-AreDicts row stored_dict) in
        let new_dicts =
          deep_merge-AreDicts current patch current_dicts (unfold IsDict in patch_dict) in
        rw (← merged-obj (deep_merge current patch) (defaults floats)) (
          at-merged path (obj (deep_merge current patch)) (some (obj (defaults floats))) v
            (unfold IsDict in new_dicts)
            (rw (← merged-obj patch current)
              (at-merged path (obj patch) (some (obj current)) v patch_dict there leaf))
            leaf)
