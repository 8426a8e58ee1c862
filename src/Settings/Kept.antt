-- ===== src/Settings/Kept.antt =====
-- Settings that were made of accepted patches.
use see_no_evil.Prelude.{◌≡◌, refl, inl, inr, Bool, true, false, Bool-cases, arith}
use see_no_evil.Text.{Text, codes, eqb}
use see_no_evil.Json.{Json, null, bool, num, text, arr, obj, Fields, is_obj}
use see_no_evil.Runtime.{deep_merge}
use see_no_evil.Settings.{
  check_inspect, check_lists, check_text, check_image, check_notifications, check_section,
  is_valid_patch,
}
use see_no_evil.Settings.Merged.{IsClosed, deep_merge-each, leaves-IsClosed, each_of-merged}

module _ {Float : Type 0} where
  inspect-leaf : (k : Text) (v : Json Float) → check_inspect k v ≡ true → is_obj v ≡ false
  inspect-leaf k (obj fs) h = absurd (ground arith)
  inspect-leaf k null h = refl
  inspect-leaf k (bool b) h = refl
  inspect-leaf k (num n) h = refl
  inspect-leaf k (text s) h = refl
  inspect-leaf k (arr xs) h = refl

  lists-leaf : (k : Text) (v : Json Float) → check_lists k v ≡ true → is_obj v ≡ false
  lists-leaf k (obj fs) h = absurd (ground arith)
  lists-leaf k null h = refl
  lists-leaf k (bool b) h = refl
  lists-leaf k (num n) h = refl
  lists-leaf k (text s) h = refl
  lists-leaf k (arr xs) h = refl

module _ {Float : Type 0} (in_unit : Float → Bool) (is_private : Text → Bool) where
  text-leaf :
      (k : Text) (v : Json Float) → check_text in_unit is_private k v ≡ true → is_obj v ≡ false
  text-leaf k (obj fs) h = absurd (ground arith)
  text-leaf k null h = refl
  text-leaf k (bool b) h = refl
  text-leaf k (num n) h = refl
  text-leaf k (text s) h = refl
  text-leaf k (arr xs) h = refl

  image-leaf :
      (k : Text) (v : Json Float) → check_image in_unit is_private k v ≡ true → is_obj v ≡ false
  image-leaf k (obj fs) h = absurd (ground arith)
  image-leaf k null h = refl
  image-leaf k (bool b) h = refl
  image-leaf k (num n) h = refl
  image-leaf k (text s) h = refl
  image-leaf k (arr xs) h = refl

  notifications-leaf :
      (k : Text) (v : Json Float)
      → check_notifications in_unit is_private k v ≡ true
      → is_obj v ≡ false
  notifications-leaf k (obj fs) h = absurd (ground arith)
  notifications-leaf k null h = refl
  notifications-leaf k (bool b) h = refl
  notifications-leaf k (num n) h = refl
  notifications-leaf k (text s) h = refl
  notifications-leaf k (arr xs) h = refl

  check_section-IsClosed : IsClosed (check_section in_unit is_private)
  check_section-IsClosed k v o h hb = elim (Bool-cases (eqb k (codes "inspect"))) [
    | inl here ↦ rw (here) (
        each_of-merged check_inspect (leaves-IsClosed check_inspect inspect-leaf) v o
          (rw (here) at h) (λ w e. rw (here) at (hb w e)))
    | inr not_inspect ↦ elim (Bool-cases (eqb k (codes "lists"))) [
      | inl here ↦
          rw (not_inspect, here)
            (each_of-merged check_lists (leaves-IsClosed check_lists lists-leaf) v o
              (rw (not_inspect, here) at h) (λ w e. rw (not_inspect, here) at (hb w e)))
      | inr not_lists ↦ elim (Bool-cases (eqb k (codes "text"))) [
        | inl here ↦
            rw (not_inspect, not_lists, here)
              (each_of-merged (check_text in_unit is_private)
                (leaves-IsClosed (check_text in_unit is_private) (text-leaf)) v o
                (rw (not_inspect, not_lists, here) at h)
                (λ w e. rw (not_inspect, not_lists, here) at (hb w e)))
        | inr not_text ↦ elim (Bool-cases (eqb k (codes "image"))) [
          | inl here ↦
              rw (not_inspect, not_lists, not_text, here)
                (each_of-merged (check_image in_unit is_private)
                  (leaves-IsClosed (check_image in_unit is_private) (image-leaf)) v o
                  (rw (not_inspect, not_lists, not_text, here) at h)
                  (λ w e. rw (not_inspect, not_lists, not_text, here) at (hb w e)))
          | inr not_image ↦ elim (Bool-cases (eqb k (codes "notifications"))) [
            | inl here ↦
                rw (not_inspect, not_lists, not_text, not_image, here)
                  (each_of-merged (check_notifications in_unit is_private)
                    (leaves-IsClosed (check_notifications in_unit is_private) notifications-leaf) v
                    o (rw (not_inspect, not_lists, not_text, not_image, here) at h)
                    (λ w e. rw (not_inspect, not_lists, not_text, not_image, here) at (hb w e)))
            | inr other ↦ absurd (ground arith)
          ]
        ]
      ]
    ]
  ]

  pub deep_merge_valid :
      (base over : Fields Float)
      → is_valid_patch in_unit is_private base ≡ true
      → is_valid_patch in_unit is_private over ≡ true
      → is_valid_patch in_unit is_private (deep_merge base over) ≡ true
  unfolding is_valid_patch
  deep_merge_valid base over hb ho =
      deep_merge-each (check_section in_unit is_private) check_section-IsClosed base over hb ho
