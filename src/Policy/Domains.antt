-- ===== src/Policy/Domains.antt =====
-- Domain patterns: `_host_matches`, `_matched_pattern` and `_match_any` of policy.py.
pub mod Subdomains
use see_no_evil.Prelude.{
  Bool, true, false, not, ◌||◌, Option, none, some, List, [], ◌∷◌, if◌then◌else◌,
}
use see_no_evil.Text.{Text, codes, eqb, truthy, lower, lstrip, strip, starts_with, ends_with, drop}

-- `pattern.strip().lower().lstrip(".")`.
unfoldable pub normal_pattern : Text → Text
unfolding strip lower lstrip
normal_pattern pattern = lstrip b'.' (lower (strip pattern))

unfoldable pub normal_host : Text → Text
unfolding strip lower
normal_host host = lower (strip host)

-- `h == d or h.endswith("." + d)`.
unfoldable pub under : Text → Text → Bool
unfolding eqb ends_with
under d h = eqb h d || ends_with (b'.' ∷ d) h

-- The pattern without a leading "*.".
unfoldable pub base : Text → Text
unfolding starts_with drop
base p = if starts_with (codes "*.") p then drop 2 p else p

unfoldable pub host_matches : Text → Text → Bool
unfolding normal_pattern normal_host under base
host_matches pattern host =
    let p = normal_pattern pattern in
    let h = normal_host host in if not (truthy p) || not (truthy h) then false else under (base p) h

unfoldable pub matched_pattern : List Text → Text → Option Text
unfolding host_matches
matched_pattern [] host = none
matched_pattern (pattern ∷ patterns) host =
    if host_matches pattern host
    then some (normal_pattern pattern)
    else matched_pattern patterns host

abbrev is_some {ℓ} : {A : Type ℓ} → Option A → Bool
is_some none = false
is_some (some a) = true

unfoldable pub match_any : List Text → Text → Bool
unfolding matched_pattern
match_any patterns host = is_some (matched_pattern patterns host)
