-- ===== src/Policy/Schedule/RoundTrip.antt =====
-- A window that is written as "HH:MM-HH:MM" is read back as it was meant.
use see_no_evil.Prelude.{
  ℕ, zero, suc, ◌+◌, ◌*◌, ◌/◌, ◌%◌, ◌<◌, ◌≡◌, refl, ap, Bool, true, false, some, [], ◌∷◌, ◌++◌, All,
  arith, ◌==◌, ==_iff,
}
use see_no_evil.Text.{Text, split_once}
use see_no_evil.Policy.Types.{Time}
use see_no_evil.Policy.Schedule.{
  Parsed, parsed, value_error, overflow_error, parse_time, parse_window,
}

abbrev two_digits : ℕ → Text
two_digits n = (48 + n / 10) ∷ (48 + n % 10) ∷ []

-- A time of day as "HH:MM".
abbrev pub clock_text : ℕ → ℕ → Text
clock_text h m = two_digits h ++ (b':' ∷ two_digits m)

abbrev minute : ℕ
minute = 60000000

abbrev is_time : ℕ → Parsed Time → Bool
is_time t (parsed u) = u == t
is_time t _ = false

-- The test holds of every number below the bound.
checked : (ℕ → Bool) → ℕ → Bool
checked test zero = true
checked test (suc bound) = elim (test bound) [ true ↦ checked test bound | false ↦ false ]

checked_at : (test : ℕ → Bool) (bound k : ℕ) → k < bound → checked test bound ≡ true → test k ≡ true
unfolding checked
checked_at test zero k small e = elim small [ ]
checked_at test (suc bound) k small e = ground (arith, checked_at test bound k)

reads : ℕ → ℕ → Bool
unfolding parse_time
reads h m = is_time ((h * 60 + m) * minute) (parse_time (clock_text h m))

clock_texts_checked : checked (λ h. checked (reads h) 60) 24 ≡ true
unfolding checked reads
clock_texts_checked = refl

is_time_sound : (t : ℕ) (o : Parsed Time) → is_time t o ≡ true → o ≡ parsed t
is_time_sound t (parsed u) h = ap parsed ((==_iff u t).0 h)
is_time_sound t value_error h = cc
is_time_sound t overflow_error h = cc

parse_time-clock_text :
    (h m : ℕ) → h < 24 → m < 60 → parse_time (clock_text h m) ≡ parsed ((h * 60 + m) * minute)
parse_time-clock_text h m hh hm =
    let hour = checked_at (λ h. checked (reads h) 60) 24 h hh clock_texts_checked in
    is_time_sound _ _ (unfold reads in checked_at (reads h) 60 m hm hour)

split_once-append :
    (sep : ℕ) (a b : Text)
    → All (λ c. (c == sep) ≡ false) a
    → split_once sep (a ++ (sep ∷ b)) ≡ some (a, b)
unfolding split_once
split_once-append sep [] b h = ground arith
split_once-append sep (c ∷ a) b (h, hs) = ground (arith, split_once-append sep a b hs)

no_dash : (h m : ℕ) → All (λ c. (c == b'-') ≡ false) (clock_text h m)
no_dash h m = (ground arith, (ground arith, (refl, (ground arith, (ground arith, tt)))))

-- Every pair of times of day, written as "HH:MM-HH:MM" with two digits each, is parsed to that pair.
pub parse_window-clock_text :
    (h m h' m' : ℕ)
    → h < 24
    → m < 60
    → h' < 24
    → m' < 60
    → parse_window (clock_text h m ++ (b'-' ∷ clock_text h' m'))
      ≡ parsed ((h * 60 + m) * minute, (h' * 60 + m') * minute)
unfolding parse_window
parse_window-clock_text h m h' m' hh hm hh' hm' =
    rw
      (
        split_once-append b'-' (clock_text h m) (clock_text h' m') (no_dash h m),
        parse_time-clock_text h m hh hm,
        parse_time-clock_text h' m' hh' hm',
      )
      refl
