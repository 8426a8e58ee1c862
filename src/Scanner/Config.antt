-- ===== src/Scanner/Config.antt =====
-- The scanner's configuration, `_parse_duration` and `load_config`. The environment, the section of
-- the file and the network that is detected are arguments; `str` of a value that is no text is a
-- parameter.
use see_no_evil.Prelude.{
  ℕ, zero, suc, ◌*◌, Bool, true, false, not, ◌&&◌, ◌||◌, Option, none, some, List, [], ◌∷◌, reverse,
  any, ◌==◌, if◌then◌else◌,
}
use see_no_evil.Text.{Text, codes, eqb, truthy, strip, rstrip}
use see_no_evil.Text.Number.{ℤ, pos, negsuc, int, is_digit}

-- A value of the section; a list is one of texts.
pub data Value : Type 0 where
  null : Value
  number : ℤ → Value
  flag : Bool → Value
  text : Text → Value
  list : List Text → Value

abbrev seconds_in : ℕ → Option ℕ
seconds_in unit =
    if unit == b's'
    then some 1
    else if unit == b'm'
    then some 60
    else if unit == b'h'
    then some 3600
    else if unit == b'd'
    then some 86400
    else none

abbrev times : ℤ → ℕ → ℤ
times (pos n) k = pos (n * k)
times (negsuc n) k = negsuc n

abbrev is_number_text : Text → Bool
is_number_text s = truthy s && not (any (λ c. not (is_digit c)) s)

abbrev scaled : ℤ → Option ℤ → Option ℕ → ℤ
scaled default (some n) (some k) = times n k
scaled default _ _ = default

-- The match of `_DURATION_RE`: digits, white space, a unit, taken from the end of the text.
abbrev duration_of : ℤ → Text → ℤ
duration_of default [] = default
duration_of default (unit ∷ rest) =
    let digits = strip (reverse rest) in
    let n = scaled default (int digits) (seconds_in unit) in
    if is_number_text digits then n else default

module _ (str : Value → Text) where
  -- A flag is an `int` of Python, 1 or 0.
  unfoldable pub parse_duration : Value → ℤ → ℤ
  unfolding strip int
  parse_duration null default = default
  parse_duration (number n) default = n
  parse_duration (flag b) default = if b then pos 1 else pos 0
  parse_duration (text s) default = duration_of default (reverse (strip s))
  parse_duration (list xs) default = duration_of default (reverse (strip (str (list xs))))

  abbrev pub default_cidr : Text
  default_cidr = codes "192.168.1.0/24"

  abbrev is_true : Value → Bool
  is_true null = false
  is_true (number (pos zero)) = false
  is_true (number (pos (suc n))) = true
  is_true (number (negsuc n)) = true
  is_true (flag b) = b
  is_true (text s) = truthy s
  is_true (list []) = false
  is_true (list (x ∷ xs)) = true

  abbrev text_of : Value → Text
  text_of (text s) = s
  text_of v = str v

  -- `scanner.cidrs`, a list or a text, where `scanner.cidr` is not given.
  abbrev first_of : Value → Value → Value
  first_of cidr (list (x ∷ xs)) = text x
  first_of cidr (text s) = if truthy s then text s else cidr
  first_of cidr _ = cidr

  abbrev configured : Value → Value → Value
  configured cidr cidrs = if is_true cidr then cidr else first_of cidr cidrs

  abbrev or_detected : Option Text → Text
  or_detected none = default_cidr
  or_detected (some detected) = if truthy detected then detected else default_cidr

  abbrev is_placeholder : Value → Bool
  is_placeholder (text s) = eqb s default_cidr
  is_placeholder _ = false

  abbrev from_file : Value → Option Text → Text
  from_file cidr detected =
      if is_true cidr && not (is_placeholder cidr) then text_of cidr else or_detected detected

  -- The environment first, then the file unless it holds the placeholder, then what is detected.
  unfoldable pub scan_cidr : Option Text → Value → Value → Option Text → Text
  unfolding eqb
  scan_cidr none cidr cidrs detected = from_file (configured cidr cidrs) detected
  scan_cidr (some env) cidr cidrs detected =
      if truthy env then env else from_file (configured cidr cidrs) detected

  abbrev or_text : Text → Option Text → Text
  or_text default none = default
  or_text default (some s) = rstrip b'/' s

  abbrev is_on : Option Text → Bool
  is_on none = false
  is_on (some s) = eqb s (codes "1") || eqb s (codes "true")

  -- The API's address, with the host of a base as `urlparse` gives it; on the host's network the name
  -- of the pod's service is no address.
  unfoldable pub api_base : (Text → Text) → Option Text → Option Text → Option Text → Text
  unfolding rstrip eqb
  api_base host_of_base base host_network base_host =
      let raw = or_text (codes "http://api:8000") base in
      if eqb (host_of_base raw) (codes "api") && is_on host_network
      then or_text (codes "http://127.0.0.1:8000") base_host
      else raw
