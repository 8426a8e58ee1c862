-- ===== src/Auth/Bearer.antt =====
-- Bearer tokens of the pod's own services: `_bearer_token`, `_token_matches` and `require_proxy` of
-- auth.py.
use see_no_evil.Prelude.{
  ℕ, Bool, true, false, ◌&&◌, Option, none, some, ◌≡◌, refl, ap, ◌↔◌, inl, inr, Bool-cases, [],
  if◌then◌else◌, arith,
}
use see_no_evil.Text.{Text, codes, truthy, starts_with, drop, strip, is_ascii, compare_digest}
use see_no_evil.Text.Laws.{eqb_iff}
use see_no_evil.Http.{Reply, ok, http}

abbrev pub text_of : Option Text → Text
text_of none = []
text_of (some s) = s

-- The `Authorization` header, empty if it is missing.
unfoldable pub bearer_token : Text → Text
unfolding starts_with drop strip
bearer_token auth = if starts_with (codes "Bearer ") auth then strip (drop 7 auth) else []

-- `provided and expected and hmac.compare_digest(provided, expected)`; `none` is its `TypeError`.
unfoldable pub token_matches : Text → Text → Option Bool
unfolding compare_digest
token_matches provided expected =
    if truthy provided && truthy expected then compare_digest provided expected else some false

-- A comparison lets through or refuses; a `TypeError` of it is not caught.
abbrev pub compared {ℓ} : {A : Type ℓ} → A → ℕ → Option Bool → Reply A
compared a code none = http 500
compared a code (some same) = if same then ok a else http code

-- `config.proxy.api_token or os.environ.get(…)`.
unfoldable pub configured_token : Option Text → Option Text → Text
configured_token in_config in_env =
    if truthy (text_of in_config) then text_of in_config else text_of in_env

unfoldable pub require_proxy : Option Text → Option Text → Text → Reply Text
require_proxy in_config in_env auth =
    let expected = configured_token in_config in_env in
    if truthy expected
    then compared (codes "proxy") 401 (token_matches (bearer_token auth) expected)
    else http 503

-- Two texts that the comparison calls the same are equal, and ASCII.
pub compare_digest_iff :
    (a b : Text) → (compare_digest a b ≡ some true) ↔ ((a ≡ b) × (is_ascii a ≡ true))
unfolding compare_digest
compare_digest_iff a b = elim (Bool-cases (is_ascii a && is_ascii b)) [
  | inl both ↦ (λ e. ground (arith, eqb_iff a b), λ k. rw both (ap some ((eqb_iff a b).1 k.0)))
  | inr other ↦ (λ e. absurd (ground arith), λ k. absurd (ground (arith, rw k.0 at other)))
]

pub token_matches_sound :
    (provided expected : Text)
    → token_matches provided expected ≡ some true
    → (truthy expected ≡ true) × (provided ≡ expected)
unfolding token_matches
token_matches_sound provided expected h = elim (Bool-cases (truthy provided && truthy expected)) [
  | inl both ↦ (ground arith, ((compare_digest_iff provided expected).0 (rw both at h)).0)
  | inr other ↦ absurd (ground arith)
]

pub compared_sound {ℓ} :
    {A : Type ℓ} (a b : A) (code : ℕ) (o : Option Bool) → compared a code o ≡ ok b → o ≡ some true
compared_sound a b code none e = cc
compared_sound a b code (some true) e = refl
compared_sound a b code (some false) e = cc

-- A token that lets its bearer through is the configured one, which is not empty.
pub compared-token_matches :
    (provided expected who name : Text) (code : ℕ)
    → compared name code (token_matches provided expected) ≡ ok who
    → (truthy expected ≡ true) × (provided ≡ expected)
compared-token_matches provided expected who name code e =
    token_matches_sound provided expected
      (compared_sound name who code (token_matches provided expected) e)
