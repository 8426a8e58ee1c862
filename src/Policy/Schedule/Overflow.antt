-- ===== src/Policy/Schedule/Overflow.antt =====
-- When reading a window raises `OverflowError`.
use see_no_evil.Prelude.{
  ◌≤◌, ◌≡◌, refl, ◌↔◌, ◌⊎◌, inl, inr, false, some, Bool-cases, Option-cases, arith,
}
use see_no_evil.Text.{Text, strip, split_once}
use see_no_evil.Text.Number.{ℤ, pos, negsuc, int}
use see_no_evil.Policy.Types.{Time}
use see_no_evil.Policy.Schedule.{
  Parsed, parsed, value_error, overflow_error, fits_c_int, in_range, time, pair_of, parse_time,
  parse_window,
}

-- Outside the 32 bits of a C int.
abbrev pub IsBeyond : ℤ → Type 0
IsBeyond (pos n) = 2147483648 ≤ n
IsBeyond (negsuc n) = 2147483648 ≤ n

-- Two integers on the sides of a colon, one of them beyond a C int.
abbrev pub IsTooLarge : Text → Type 0
IsTooLarge s =
    (a : Text) × (b : Text) × (h : ℤ) × (m : ℤ) × (split_once b':' (strip s) ≡ some (a, b))
    × (int a ≡ some h)
    × (int b ≡ some m)
    × (IsBeyond h ⊎ IsBeyond m)

-- The start of the window is too large, or it is a time and the end is too large.
abbrev pub IsOverlarge : Text → Type 0
IsOverlarge spec =
    (start : Text) × (end : Text) × (split_once b'-' spec ≡ some (start, end))
    × (IsTooLarge start ⊎ (((t : Time) × (parse_time start ≡ parsed t)) × IsTooLarge end))

unfits : (n : ℤ) → fits_c_int n ≡ false → IsBeyond n
unfits (pos n) e = ground arith
unfits (negsuc n) e = ground arith

beyond_unfits : (n : ℤ) → IsBeyond n → fits_c_int n ≡ false
beyond_unfits (pos n) h = ground (arith, h)
beyond_unfits (negsuc n) h = ground (arith, h)

in_range-parses : (h m : ℤ) → in_range h m ≡ overflow_error → ⊥
in_range-parses (pos h) (pos m) e = ground arith
in_range-parses (pos h) (negsuc m) e = cc
in_range-parses (negsuc h) m e = cc

time-overflow : (h m : ℤ) → (time h m ≡ overflow_error) ↔ (IsBeyond h ⊎ IsBeyond m)
unfolding time
time-overflow h m = elim (Bool-cases (fits_c_int h)) [
  | inr large ↦ rw large (λ e. inl (unfits h large), λ k. refl)
  | inl fine ↦ elim (Bool-cases (fits_c_int m)) [
    | inr large ↦ rw (fine, large) (λ e. inr (unfits m large), λ k. refl)
    | inl fine' ↦
        rw (fine, fine')
          (
            λ e. absurd (in_range-parses h m e),
            elim [
              | inl k ↦ absurd (ground (arith, beyond_unfits h k))
              | inr k ↦ absurd (ground (arith, beyond_unfits m k))
            ],
          )
  ]
]

parse_time-overflow : (s : Text) → (parse_time s ≡ overflow_error) ↔ IsTooLarge s
unfolding parse_time
parse_time-overflow s = (
  λ e. elim (Option-cases (split_once b':' (strip s))) [
    | inl whole ↦ absurd (ground arith)
    | inr ((a, b), split) ↦ elim (Option-cases (int a)) [
      | inl unread ↦ absurd (ground arith)
      | inr (h, read) ↦ elim (Option-cases (int b)) [
        | inl unread ↦ absurd (ground arith)
        | inr (m, read') ↦
            (a, b, h, m, split, read, read', (time-overflow h m).0 (rw (split, read, read') at e))
      ]
    ]
  ],
  λ (a, b, h, m, split, read, read', beyond).
      rw (split, read, read') ((time-overflow h m).1 beyond),
)

pair_of-overflow :
    (p q : Parsed Time)
    → pair_of p q ≡ overflow_error
    → (p ≡ overflow_error) ⊎ (((t : Time) × (p ≡ parsed t)) × (q ≡ overflow_error))
pair_of-overflow (parsed a) (parsed b) e = cc
pair_of-overflow (parsed a) value_error e = cc
pair_of-overflow (parsed a) overflow_error e = inr ((a, refl), refl)
pair_of-overflow value_error q e = cc
pair_of-overflow overflow_error q e = inl refl

-- Reading a window raises `OverflowError` exactly when it is overlarge.
pub parse_window-overflow : (spec : Text) → (parse_window spec ≡ overflow_error) ↔ IsOverlarge spec
unfolding parse_window
parse_window-overflow spec = (
  λ e. elim (Option-cases (split_once b'-' spec)) [
    | inl whole ↦ absurd (ground arith)
    | inr ((start, end), split) ↦
        elim (pair_of-overflow (parse_time start) (parse_time end) (rw split at e)) [
          | inl large ↦ (start, end, split, inl ((parse_time-overflow start).0 large))
          | inr (read, large) ↦ (start, end, split, inr (read, (parse_time-overflow end).0 large))
        ]
  ],
  λ (start, end, split, k). rw split (elim k [
    | inl large ↦ rw ((parse_time-overflow start).1 large) refl
    | inr ((t, read), large) ↦ rw (read, (parse_time-overflow end).1 large) refl
  ]),
)
