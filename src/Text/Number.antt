-- ===== src/Text/Number.antt =====
-- Python's `int(s)` on ASCII text: white space round it, one sign, digits, and single underscores
-- between digits, of which there are at most 4300. `none` stands for its `ValueError`.
use see_no_evil.Prelude.{
  ℕ, ◌+◌, ◌-◌, ◌*◌, suc, zero, Bool, true, false, ◌&&◌, ◌||◌, reverse, Option, none, some, [], ◌∷◌,
  leb, ◌==◌, if◌then◌else◌,
}
use see_no_evil.Text.{Text, lstrip_by}

-- `negsuc n` is -(n + 1).
pub data ℤ : Type 0 where
  pos : ℕ → ℤ
  negsuc : ℕ → ℤ

abbrev neg : ℕ → ℤ
neg zero = pos zero
neg (suc n) = negsuc n

abbrev pub is_digit : ℕ → Bool
is_digit c = leb b'0' c && leb c b'9'

-- `after_digit` says that the last character was a digit.
digits_from : Bool → ℕ → Text → Option ℕ
digits_from after_digit n [] = if after_digit then some n else none
digits_from after_digit n (c ∷ s) =
    let more = digits_from true (n * 10 + (c - 48)) s in
    let skip = digits_from false n s in
    if is_digit c then more else if c == b'_' && after_digit then skip else none

abbrev map_sign : (ℕ → ℤ) → Option ℕ → Option ℤ
map_sign f none = none
map_sign f (some n) = some (f n)

signed : Text → Option ℤ
signed [] = none
signed (c ∷ s) =
    if c == b'-'
    then map_sign neg (digits_from false 0 s)
    else if c == b'+'
    then map_sign pos (digits_from false 0 s)
    else map_sign pos (digits_from false 0 (c ∷ s))

-- The white space that `int` skips; unlike `strip` it keeps the separators 28 to 31.
abbrev is_c_space : ℕ → Bool
is_c_space c = (leb 9 c && leb c 13) || c == 32

digit_count : Text → ℕ
digit_count [] = 0
digit_count (c ∷ s) = let n = digit_count s in if is_digit c then n + 1 else n

unfoldable pub int : Text → Option ℤ
unfolding signed digits_from lstrip_by digit_count
int s =
    let body = reverse (lstrip_by is_c_space (reverse (lstrip_by is_c_space s))) in
    if leb (digit_count body) 4300 then signed body else none
