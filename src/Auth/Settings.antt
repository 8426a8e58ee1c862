-- ===== src/Auth/Settings.antt =====
-- The `settings` table as auth.py uses it: keys with text values.
use see_no_evil.Prelude.{◌≡◌, refl, Bool, false, Option, none, some, [], ◌∷◌, if◌then◌else◌, arith}
use see_no_evil.Text.{Text, codes, eqb, lookup, truthy}
use see_no_evil.Text.Laws.{eqb_iff}
use see_no_evil.Policy.Types.{Dict}

abbrev pub Settings : Type 0
Settings = Dict Text

abbrev pub pwd_key : Text
pwd_key = codes "auth.admin_password_hash"

abbrev pub email_key : Text
email_key = codes "auth.admin_email"

abbrev pub jwt_key : Text
jwt_key = codes "auth.jwt_secret"

unfoldable pub get_setting : Text → Settings → Option Text
get_setting key settings = lookup key settings

unfoldable pub set_setting : Text → Text → Settings → Settings
set_setting key value [] = (key, value) ∷ []
set_setting key value ((k, v) ∷ rest) =
    if eqb k key then (key, value) ∷ rest else (k, v) ∷ set_setting key value rest

pub get-set_setting :
    (key other value : Text) (settings : Settings)
    → get_setting other (set_setting key value settings)
      ≡ (if eqb key other then some value else get_setting other settings)
unfolding get_setting set_setting lookup
get-set_setting key other value [] = refl
get-set_setting key other value ((k, v) ∷ rest) =
    ground (
      arith,
      eqb_iff k key,
      eqb_iff key other,
      eqb_iff k other,
      get-set_setting key other value rest,
    )

-- `if not secret`: missing or empty.
abbrev pub given : Option Text → Bool
given none = false
given (some s) = truthy s
