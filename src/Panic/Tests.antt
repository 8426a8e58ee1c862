-- ===== src/Panic/Tests.antt =====
-- Panic-relax at concrete times.
use see_no_evil.Prelude.{ℕ, ◌≡◌, refl, ◌+◌, ◌*◌, ◌<◌, ◌↔◌, true, Option, none, some, [], ◌∷◌}
use see_no_evil.Text.{Text, codes}
use see_no_evil.Panic.{TimeLib, PanicState, minute, parse, set_active, parse-set_active}

abbrev read_time : Text → Option ℕ
read_time [] = none
read_time (t ∷ s) = some t

written : (t : ℕ) → read_time (t ∷ []) ≡ some t
written t = refl

-- Times written as one code point.
abbrev short_times : TimeLib
short_times = record {
  isoformat = λ t. t ∷ [];
  fromisoformat = read_time;
  fromisoformat-isoformat = written;
  truthy-isoformat = λ t. refl;
}

parse-set_active_example :
    (state : PanicState) × (parse short_times 7
        (set_active short_times 5 30 (codes "homework") (codes "ann") none)
      ≡ some state)
    × ((state.active ≡ true) ↔ (7 < 5 + 30 * minute))
parse-set_active_example = parse-set_active short_times 5 7 30 (codes "homework") (codes "ann") none
