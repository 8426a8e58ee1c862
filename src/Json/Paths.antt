-- ===== src/Json/Paths.antt =====
-- Reading what was put.
use see_no_evil.Prelude.{◌≡◌, refl, inl, inr, false, none, some, if◌then◌else◌, Bool-cases, arith}
use see_no_evil.Text.{Text, eqb}
use see_no_evil.Text.Laws.{eqb_iff}
use see_no_evil.Json.{Json, null, bool, num, text, arr, obj, Fields, end, field, get, put, IsAbsent}

module _ {Float : Type 0} where
  pub get-put :
      (k j : Text) (v : Json Float) (fs : Fields Float)
      → get j (put k v fs) ≡ (if eqb k j then some v else get j fs)
  unfolding get put
  get-put k j v end = refl
  get-put k j v (field i w fs) =
      ground (arith, eqb_iff i k, eqb_iff k j, eqb_iff i j, get-put k j v fs)

  pub get-IsAbsent : (key : Text) (fs : Fields Float) → IsAbsent key fs → get key fs ≡ none
  unfolding get
  get-IsAbsent key end h = refl
  get-IsAbsent key (field k v fs) (ne, h) = rw ne (get-IsAbsent key fs h)

  pub put-IsAbsent :
      (k j : Text) (v : Json Float) (fs : Fields Float)
      → eqb k j ≡ false
      → IsAbsent j fs
      → IsAbsent j (put k v fs)
  unfolding put
  put-IsAbsent k j v end ne h = (ne, tt)
  put-IsAbsent k j v (field i w fs) ne (far, h) = elim (Bool-cases (eqb i k)) [
    | inl here ↦ rw here (ne, h)
    | inr other ↦ rw other (far, put-IsAbsent k j v fs ne h)
  ]

  -- No dict has a key twice.
  unfoldable mutual
    pub IsDict : Json Float → Type 0
    IsDict (obj fs) = AreDicts fs
    IsDict null = Unit
    IsDict (bool b) = Unit
    IsDict (num n) = Unit
    IsDict (text s) = Unit
    IsDict (arr xs) = Unit

    pub AreDicts : Fields Float → Type 0
    AreDicts end = Unit
    AreDicts (field k v fs) = IsAbsent k fs × IsDict v × AreDicts fs

  pub put-AreDicts :
      (k : Text) (v : Json Float) (fs : Fields Float)
      → IsDict v
      → AreDicts fs
      → AreDicts (put k v fs)
  unfolding put IsDict
  put-AreDicts k v end d h = (tt, d, tt)
  put-AreDicts k v (field i w fs) d (absent, dw, h) = elim (Bool-cases (eqb i k)) [
    | inl here ↦ rw here (rw ((eqb_iff i k).0 here) at absent, d, h)
    | inr other ↦ rw other (
      put-IsAbsent k i v fs (ground (arith, eqb_iff i k, eqb_iff k i)) absent,
      dw,
      put-AreDicts k v fs d h,
    )
  ]

  pub get-IsDict :
      (k : Text) (fs : Fields Float) {v : Json Float} → AreDicts fs → get k fs ≡ some v → IsDict v
  unfolding get IsDict
  get-IsDict k end h e = cc
  get-IsDict k (field i w fs) {v} (absent, d, h) e = elim (Bool-cases (eqb i k)) [
    | inl here ↦ let same : w ≡ v = ground arith in rw (← same) d
    | inr other ↦ get-IsDict k fs h (rw other at e)
  ]
