-- ===== src/Policy/Domains/Subdomains.antt =====
-- What a domain pattern matches: whole labels only.
use see_no_evil.Prelude.{
  ◌≡◌, refl, ◌∙◌, All, ◌≢◌, ◌↔◌, ◌⊎◌, inl, inr, not, if◌then◌else◌, true, false, none, some, List,
  [], ◌∷◌, ◌++◌, Some, ◌||◌, arith, or-cases, or-true_right, Bool-cases,
}
use see_no_evil.Text.{Text, truthy, eqb, ends_with}
use see_no_evil.Text.Laws.{eqb_iff, ends_with-append, ends_with_sound}
use see_no_evil.Policy.Domains.{
  normal_pattern, normal_host, under, base, host_matches, matched_pattern,
}

-- `host` is `domain`, or ends in a dot and then `domain`.
abbrev pub IsSubdomain : Text → Text → Type 0
IsSubdomain domain host = (host ≡ domain) ⊎ ((labels : Text) × (host ≡ labels ++ (b'.' ∷ domain)))

under_iff : (d h : Text) → (under d h ≡ true) ↔ IsSubdomain d h
unfolding under
under_iff d h = (
  λ e. elim (or-cases (eqb h d) (ends_with (b'.' ∷ d) h) e) [
    | inl same ↦ inl ((eqb_iff h d).0 same)
    | inr longer ↦ inr (ends_with_sound (b'.' ∷ d) h longer)
  ],
  elim [
    | inl e ↦ rw ((eqb_iff h d).1 e) refl
    | inr (labels, e) ↦ rw (e, ends_with-append labels (b'.' ∷ d)) (or-true_right _)
  ],
)

both_given :
    (p h : Text)
    → ((if not (truthy p) || not (truthy h) then false else under (base p) h) ≡ true)
      ↔ ((p ≢ []) × (h ≢ []) × IsSubdomain (base p) h)
both_given [] h = (λ e. cc, λ k. absurd (k.0 refl))
both_given (c ∷ p) [] = (λ e. cc, λ k. absurd (k.1 refl))
both_given (c ∷ p) (d ∷ h) = (
  λ e. (λ q. cc, λ q. cc, (under_iff (base (c ∷ p)) (d ∷ h)).0 e),
  λ k. (under_iff (base (c ∷ p)) (d ∷ h)).1 k.2,
)

-- A pattern matches a host exactly when both are non-empty once trimmed and lowered, and the host
-- is the pattern's domain, "*." taken off, or that domain below one more dot.
pub host_matches_iff :
    (pattern host : Text)
    → (host_matches pattern host ≡ true) ↔ (
        (normal_pattern pattern ≢ [])
        × (normal_host host ≢ [])
        × IsSubdomain (base (normal_pattern pattern)) (normal_host host))
unfolding host_matches
host_matches_iff pattern host = both_given (normal_pattern pattern) (normal_host host)

-- The pattern that is reported is one of the list, it matches the host, and it is not empty.
pub matched_pattern_sound :
    (patterns : List Text) (host : Text) {m : Text}
    → matched_pattern patterns host ≡ some m
    → Some (λ p. (host_matches p host ≡ true) × (normal_pattern p ≡ m)) patterns × (m ≢ [])
unfolding matched_pattern
matched_pattern_sound [] host h = cc
matched_pattern_sound (p ∷ ps) host {m} h = elim (Bool-cases (host_matches p host)) [
  | inl hit ↦
      let e : normal_pattern p ≡ m = ground arith in
      (inl (hit, e), λ q. ((host_matches_iff p host).0 hit).0 (e ∙ q))
  | inr miss ↦
      let (later, given) = matched_pattern_sound ps host (ground arith) in (inr later, given)
]

-- No pattern is reported exactly when none of the list matches.
pub matched_pattern-none :
    (patterns : List Text) (host : Text)
    → matched_pattern patterns host ≡ none
    → All (λ p. host_matches p host ≡ false) patterns
unfolding matched_pattern
matched_pattern-none [] host h = tt
matched_pattern-none (p ∷ ps) host h = (ground arith, matched_pattern-none ps host (ground arith))
