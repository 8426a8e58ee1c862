-- ===== src/Policy/Schedule.antt =====
-- The schedule check: `_SCHEDULE_KEYS`, `_parse_window` and `_in_schedule` of policy.py.
pub mod Overflow
pub mod Windows
pub mod RoundTrip
use see_no_evil.Prelude.{
  ℕ, ◌+◌, ◌*◌, Bool, true, false, ◌&&◌, ◌||◌, Option, none, some, List, [], ◌∷◌, leb, ltb, any,
  ◌==◌, if◌then◌else◌,
}
use see_no_evil.Text.{Text, codes, lower, strip, split_once, lookup}
use see_no_evil.Text.Number.{ℤ, pos, negsuc, int}
use see_no_evil.Policy.Types.{Dict, Time}

abbrev minute : ℕ
minute = 60000000

-- What a parser of this file does: it returns a value, or raises `ValueError` or `OverflowError`.
pub data Parsed (A : Type 0) : Type 0 where
  parsed : A → Parsed A
  value_error overflow_error : Parsed A

-- The number fits in a C int of 32 bits.
abbrev pub fits_c_int : ℤ → Bool
fits_c_int (pos n) = ltb n 2147483648
fits_c_int (negsuc n) = ltb n 2147483648

abbrev pub in_range : ℤ → ℤ → Parsed Time
in_range (pos h) (pos m) =
    if ltb h 24 && ltb m 60 then parsed ((h * 60 + m) * minute) else value_error
in_range _ _ = value_error

-- `datetime.time(h, m)` first converts both numbers to C ints, which overflows for larger ones, and
-- then checks the ranges.
unfoldable pub time : ℤ → ℤ → Parsed Time
time h m = if fits_c_int h && fits_c_int m then in_range h m else overflow_error

abbrev pub time_of : Option ℤ → Option ℤ → Parsed Time
time_of (some h) (some m) = time h m
time_of _ _ = value_error

abbrev on_parts : {A : Type 0} → Option (Text × Text) → (Text → Text → Parsed A) → Parsed A
on_parts none k = value_error
on_parts (some (a, b)) k = k a b

-- The inner `_t` of `_parse_window`.
unfoldable pub parse_time : Text → Parsed Time
unfolding time int strip split_once
parse_time s = on_parts (split_once b':' (strip s)) (λ h m. time_of (int h) (int m))

-- The start is parsed first, and what it raises is raised.
abbrev pub pair_of : Parsed Time → Parsed Time → Parsed (Time × Time)
pair_of (parsed a) (parsed b) = parsed (a, b)
pair_of (parsed a) value_error = value_error
pair_of (parsed a) overflow_error = overflow_error
pair_of value_error _ = value_error
pair_of overflow_error _ = overflow_error

unfoldable pub parse_window : Text → Parsed (Time × Time)
unfolding parse_time split_once
parse_window spec =
    on_parts (split_once b'-' spec) (λ start end. pair_of (parse_time start) (parse_time end))

abbrev schedule_keys : Dict (List ℕ)
schedule_keys =
    (codes "monday", 0 ∷ [])
    ∷ (codes "tuesday", 1 ∷ [])
    ∷ (codes "wednesday", 2 ∷ [])
    ∷ (codes "thursday", 3 ∷ [])
    ∷ (codes "friday", 4 ∷ [])
    ∷ (codes "saturday", 5 ∷ [])
    ∷ (codes "sunday", 6 ∷ [])
    ∷ (codes "monday_friday", 0 ∷ 1 ∷ 2 ∷ 3 ∷ 4 ∷ [])
    ∷ (codes "weekdays", 0 ∷ 1 ∷ 2 ∷ 3 ∷ 4 ∷ [])
    ∷ (codes "saturday_sunday", 5 ∷ 6 ∷ [])
    ∷ (codes "weekend", 5 ∷ 6 ∷ [])
    ∷ (codes "everyday", 0 ∷ 1 ∷ 2 ∷ 3 ∷ 4 ∷ 5 ∷ 6 ∷ [])
    ∷ (codes "all", 0 ∷ 1 ∷ 2 ∷ 3 ∷ 4 ∷ 5 ∷ 6 ∷ [])
    ∷ []

-- `days is not None and dow in days`.
abbrev day_in : ℕ → Option (List ℕ) → Bool
day_in dow none = false
day_in dow (some days) = any (λ d. d == dow) days

unfoldable pub applies : Text → ℕ → Bool
unfolding lookup lower
applies key dow = day_in dow (lookup (lower key) schedule_keys)

abbrev push {ℓ} : {A : Type ℓ} → A → Option (List A) → Option (List A)
push x none = none
push x (some xs) = some (x ∷ xs)

abbrev pub add_window :
    Parsed (Time × Time) → Option (List (Time × Time)) → Option (List (Time × Time))
add_window (parsed w) windows = push w windows
add_window value_error windows = windows
add_window overflow_error windows = none

-- The first loop. A window that raises `ValueError` is skipped; `none` is an `OverflowError`, which
-- the loop does not catch.
unfoldable pub applicable_windows : Dict Text → ℕ → Option (List (Time × Time))
unfolding applies parse_window
applicable_windows [] dow = some []
applicable_windows ((key, spec) ∷ rest) dow =
    let later = applicable_windows rest dow in
    if applies key dow then add_window (parse_window spec) later else later

-- The test of the second loop; a window with its end before its start wraps midnight.
abbrev pub in_window : Time → Time × Time → Bool
in_window now (start, end) =
    if leb start end then leb start now && leb now end else leb start now || leb now end

unfoldable pub in_windows : Time → List (Time × Time) → Bool
in_windows now [] = false
in_windows now (w ∷ ws) = any (in_window now) (w ∷ ws)

abbrev opened_by : Time → Option (List (Time × Time)) → Option Bool
opened_by now none = none
opened_by now (some windows) = some (in_windows now windows)

-- `none` is an exception.
unfoldable pub in_schedule : Dict Text → ℕ → Time → Option Bool
unfolding applicable_windows in_windows
in_schedule [] dow now = some true
in_schedule (entry ∷ rest) dow now = opened_by now (applicable_windows (entry ∷ rest) dow)
