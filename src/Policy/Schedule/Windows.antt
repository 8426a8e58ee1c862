-- ===== src/Policy/Schedule/Windows.antt =====
-- What the schedule check decides.
use see_no_evil.Prelude.{ℕ, ◌≤◌, ◌<◌, ◌≡◌, ◌⊎◌, true}
use see_no_evil.Text.{Text}
use see_no_evil.Policy.Types.{Time}
use see_no_evil.Policy.Schedule.Overflow.{IsOverlarge}
use see_no_evil.Policy.Schedule.{parsed, applies, parse_window}

-- Inside the window, ends included; an end before the start means the two ends of the day.
abbrev pub Within : Time → Time × Time → Type 0
Within now (start, end) =
    ((start ≤ end) × (start ≤ now) × (now ≤ end)) ⊎ ((end < start) × ((start ≤ now) ⊎ (now ≤ end)))

-- The entry names the day, its window can be read, and the time is inside it.
abbrev pub Opens : ℕ → Time → Text × Text → Type 0
Opens dow now (key, spec) =
    (window : Time × Time) × (applies key dow ≡ true)
    × (parse_window spec ≡ parsed window)
    × Within now window

-- The entry names the day, and its window is overlarge.
abbrev pub Overflows : ℕ → Text × Text → Type 0
Overflows dow (key, spec) = (applies key dow ≡ true) × IsOverlarge spec
