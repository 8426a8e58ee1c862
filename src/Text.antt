-- ===== src/Text.antt =====
-- Python's `str` as the source uses it: a list of code points. Case and white space follow Python
-- on ASCII text; a code point from 128 on has no case and is no space here.
pub mod Laws
pub mod Number
use Prim.Native.Char.{code}
use see_no_evil.Prelude.{
  ℕ, ◌+◌, ◌-◌, ◌*◌, zero, suc, Bool, true, false, ◌&&◌, ◌||◌, Option, none, some, List, [], ◌∷◌,
  ◌++◌, map, reverse, String, leb, ◌==◌, ltb, if◌then◌else◌,
}

abbrev pub Text : Type 0
Text = List ℕ

-- A literal of the source.
abbrev pub codes : String → Text
codes String.[] = []
codes (String.◌∷◌ c s) = code c ∷ codes s

unfoldable pub eqb : Text → Text → Bool
eqb [] [] = true
eqb (a ∷ s) (b ∷ t) = a == b && eqb s t
eqb _ _ = false

-- Truth of a `str`: not empty.
abbrev pub truthy : Text → Bool
truthy [] = false
truthy (c ∷ s) = true

abbrev pub is_space : ℕ → Bool
is_space c = (leb 9 c && leb c 13) || (leb 28 c && leb c 32)

unfoldable pub lower_char : ℕ → ℕ
lower_char c = if leb 65 c && leb c 90 then c + 32 else c

unfoldable pub lower : Text → Text
unfolding lower_char
lower s = map lower_char s

-- `lstrip` with the characters given by a test.
unfoldable pub lstrip_by : (ℕ → Bool) → Text → Text
lstrip_by p [] = []
lstrip_by p (c ∷ s) = if p c then lstrip_by p s else c ∷ s

unfoldable pub lstrip : ℕ → Text → Text
unfolding lstrip_by
lstrip c s = lstrip_by (λ d. d == c) s

unfoldable pub rstrip : ℕ → Text → Text
unfolding lstrip_by
rstrip c s = reverse (lstrip_by (λ d. d == c) (reverse s))

unfoldable pub strip : Text → Text
unfolding lstrip_by
strip s = reverse (lstrip_by is_space (reverse (lstrip_by is_space s)))

unfoldable pub starts_with : Text → Text → Bool
starts_with [] s = true
starts_with (c ∷ p) [] = false
starts_with (c ∷ p) (d ∷ s) = c == d && starts_with p s

unfoldable pub ends_with : Text → Text → Bool
unfolding eqb
ends_with p [] = eqb p []
ends_with p (c ∷ s) = eqb p (c ∷ s) || ends_with p s

-- Python's `k in s`.
unfoldable pub contains : Text → Text → Bool
unfolding starts_with
contains k [] = starts_with k []
contains k (c ∷ s) = starts_with k (c ∷ s) || contains k s

abbrev before : ℕ → Option (Text × Text) → Option (Text × Text)
before c none = none
before c (some (a, b)) = some (c ∷ a, b)

-- `s.split(sep, 1)` where it has two parts.
unfoldable pub split_once : ℕ → Text → Option (Text × Text)
split_once sep [] = none
split_once sep (c ∷ s) =
    let rest = split_once sep s in if c == sep then some ([], s) else before c rest

abbrev extend : ℕ → List Text → List Text
extend c [] = (c ∷ []) ∷ []
extend c (part ∷ parts) = (c ∷ part) ∷ parts

-- `s.split(sep)`.
unfoldable pub split : ℕ → Text → List Text
split sep [] = [] ∷ []
split sep (c ∷ s) = let rest = split sep s in if c == sep then [] ∷ rest else extend c rest

-- `s[n:]` for `n` at most the length.
unfoldable pub drop : ℕ → Text → Text
drop zero s = s
drop (suc n) [] = []
drop (suc n) (c ∷ s) = drop n s

unfoldable pub member : Text → List Text → Bool
unfolding eqb
member k [] = false
member k (x ∷ xs) = eqb x k || member k xs

-- `d.get(key)` of a `dict` with text keys, in the order of insertion.
unfoldable pub lookup {ℓ} : {V : Type ℓ} → Text → List (Text × V) → Option V
unfolding eqb
lookup k [] = none
lookup k ((j, v) ∷ m) = if eqb j k then some v else lookup k m

unfoldable pub is_ascii : Text → Bool
is_ascii [] = true
is_ascii (c ∷ s) = ltb c 128 && is_ascii s

-- `hmac.compare_digest` of two texts; `none` is its `TypeError` for a text that is not ASCII.
unfoldable pub compare_digest : Text → Text → Option Bool
unfolding eqb is_ascii
compare_digest a b = if is_ascii a && is_ascii b then some (eqb a b) else none
