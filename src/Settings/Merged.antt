-- ===== src/Settings/Merged.antt =====
-- A check that holds of the fields of two dicts holds of the merged one.
use see_no_evil.Prelude.{
  ◌≡◌, refl, inl, inr, Bool, true, false, Option, none, some, Bool-cases, arith,
}
use see_no_evil.Text.{Text, eqb}
use see_no_evil.Text.Laws.{eqb_iff}
use see_no_evil.Json.{Json, null, bool, num, text, arr, obj, Fields, end, field, get, put, is_obj}
use see_no_evil.Runtime.{deep_merge, merged}
use see_no_evil.Runtime.Updates.{merged-leaf}
use see_no_evil.Settings.{each, each_of}

module _ {Float : Type 0} (check : Text → Json Float → Bool) where
  pub get-each :
      (k : Text) (fs : Fields Float) {v : Json Float}
      → each check fs ≡ true
      → get k fs ≡ some v
      → check k v ≡ true
  unfolding each get
  get-each k end h e = absurd (ground arith)
  get-each k (field i w fs) {v} h e = elim (Bool-cases (eqb i k)) [
    | inl here ↦
        let same : w ≡ v = ground arith in
        let key : i ≡ k = (eqb_iff i k).0 here in rw (← same, ← key) (ground arith)
    | inr other ↦ get-each k fs (ground arith) (rw other at e)
  ]

  put-each :
      (k : Text) (v : Json Float) (fs : Fields Float)
      → check k v ≡ true
      → each check fs ≡ true
      → each check (put k v fs) ≡ true
  unfolding each put
  put-each k v end h all = rw h refl
  put-each k v (field i w fs) h all = elim (Bool-cases (eqb i k)) [
    | inl here ↦ rw here (ground (arith, h, all))
    | inr other ↦ rw other (ground (arith, all, put-each k v fs h (ground arith)))
  ]

  -- The check of a merged value follows from those of the two.
  abbrev pub IsClosed : Type 0
  IsClosed =
      (k : Text) (v : Json Float) (o : Option (Json Float))
      → check k v ≡ true
      → ((w : Json Float) → o ≡ some w → check k w ≡ true)
      → check k (merged v o) ≡ true

  pub deep_merge-each :
      IsClosed
      → (base over : Fields Float) → each check base ≡ true
      → each check over ≡ true
      → each check (deep_merge base over) ≡ true
  unfolding each deep_merge
  deep_merge-each closed base end hb ho = hb
  deep_merge-each closed base (field k v over) hb ho =
      deep_merge-each closed (put k (merged v (get k base)) base) over
        (put-each k (merged v (get k base)) base
          (closed k v (get k base) (ground arith) (λ w e. get-each k base hb e)) hb)
        (ground arith)

  -- A check that refuses every dict.
  pub leaves-IsClosed :
      ((k : Text) (v : Json Float) → check k v ≡ true → is_obj v ≡ false) → IsClosed
  leaves-IsClosed leaf k v o h hb = rw (merged-leaf v o (leaf k v h)) h

  -- The check of a dict whose fields are checked so.
  pub each_of-merged :
      IsClosed
      → (v : Json Float) (o : Option (Json Float)) → each_of check v ≡ true
      → ((w : Json Float) → o ≡ some w → each_of check w ≡ true)
      → each_of check (merged v o) ≡ true
  unfolding merged
  each_of-merged closed (obj over) (some (obj base)) h hb =
      deep_merge-each closed base over (hb (obj base) refl) h
  each_of-merged closed (obj over) (some null) h hb = h
  each_of-merged closed (obj over) (some (bool b)) h hb = h
  each_of-merged closed (obj over) (some (num n)) h hb = h
  each_of-merged closed (obj over) (some (text s)) h hb = h
  each_of-merged closed (obj over) (some (arr xs)) h hb = h
  each_of-merged closed (obj over) none h hb = h
  each_of-merged closed null o h hb = absurd (ground arith)
  each_of-merged closed (bool b) o h hb = absurd (ground arith)
  each_of-merged closed (num n) o h hb = absurd (ground arith)
  each_of-merged closed (text s) o h hb = absurd (ground arith)
  each_of-merged closed (arr xs) o h hb = absurd (ground arith)
