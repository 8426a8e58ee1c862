-- ===== src/Policy/Engine/Strict.antt =====
-- Longer deny lists never let more through.
use see_no_evil.Prelude.{
  ◌≡◌, refl, ◌≢◌, ◌&&◌, ◌⊎◌, inl, inr, Bool, true, false, Option, none, some, List, [], ◌∷◌,
  Bool-cases, arith,
}
use see_no_evil.Text.{Text, codes, truthy, lower, strip, contains}
use see_no_evil.Policy.Types.{block, DecisionOutput, Dict, DecisionInput, ProfileView, GlobalRules}
use see_no_evil.Policy.Domains.{host_matches, matched_pattern, normal_pattern}
use see_no_evil.Policy.Domains.Subdomains.{matched_pattern_sound}
use see_no_evil.Policy.Urls.{UrlLib, host_of, matched_keyword, keyword_in, map_text}
use see_no_evil.Policy.Engine.{
  Flow, done, raised, next, ◌⨾◌, finish, on_match, on_raising, listed, when, on_host, gate_rules,
  global_domain_rules, keyword_rules, deny_domain_rules, youtube_rules, allow_domain_rules,
  classifier_rules, later_rules, rules_or_default, decide,
}

abbrev Blocks : Flow → Type 0
Blocks (done out) = out.decision ≡ block
Blocks _ = ⊥

-- Where the first rule blocks so does the second, and where the first passes on the second passes
-- on or blocks.
abbrev Stricter : Flow → Flow → Type 0
Stricter a b = (Blocks a → Blocks b) × (a ≡ next → (b ≡ next) ⊎ Blocks b)

Stricter-refl : (a : Flow) → Stricter a a
Stricter-refl a = (λ h. h, λ e. inl e)

Blocks-⨾ : (a b : Flow) → Blocks a → Blocks (a ⨾ b)
Blocks-⨾ (done out) b h = h
Blocks-⨾ _ b h = absurd h

Stricter-⨾ : (a a' b b' : Flow) → Stricter a a' → Stricter b b' → Stricter (a ⨾ b) (a' ⨾ b')
Stricter-⨾ (done out) a' b b' s t = (λ h. Blocks-⨾ a' b' (s.0 h), λ e. cc)
Stricter-⨾ raised a' b b' s t = (λ h. absurd h, λ e. cc)
Stricter-⨾ next a' b b' s t = elim (s.1 refl) [
  | inl e ↦ rw e t
  | inr h ↦ (λ _. Blocks-⨾ a' b' h, λ _. inr (Blocks-⨾ a' b' h))
]

Stricter-when : (t : Bool) (a b : Flow) → Stricter a b → Stricter (when t a) (when t b)
Stricter-when true a b s = s
Stricter-when false a b s = Stricter-refl next

abbrev pub IsBlock : Option DecisionOutput → Type 0
IsBlock none = ⊥
IsBlock (some out) = out.decision ≡ block

finish-Blocks : (a : Flow) → IsBlock (finish a) → Blocks a
finish-Blocks (done out) h = h
finish-Blocks raised h = h
finish-Blocks next h = cc

Blocks-finish : (a : Flow) → Blocks a → IsBlock (finish a)
Blocks-finish (done out) h = h
Blocks-finish _ h = absurd h

finish-Stricter : (a b : Flow) → Stricter a b → IsBlock (finish a) → IsBlock (finish b)
finish-Stricter a b s h = Blocks-finish b (s.0 (finish-Blocks a h))

-- Both answers block, or only the second does.
on_match-Stricter :
    (label : Text) (o o' : Option Text)
    → ((m : Text) → o ≡ some m → (m' : Text) × (o' ≡ some m') × (truthy m' ≡ true))
    → (o ≡ none → (o' ≡ none) ⊎ ((m' : Text) × (o' ≡ some m') × (truthy m' ≡ true)))
    → Stricter (on_match block label o) (on_match block label o')
on_match-Stricter label none o' f g = elim (g refl) [
  | inl e ↦ rw e (Stricter-refl next)
  | inr (m', e, t) ↦ (λ h. absurd h, λ _. inr (rw (e, t) refl))
]
on_match-Stricter label (some m) o' f g =
    let (m', e, t) = f m refl in (λ _. rw (e, t) refl, λ _. inr (rw (e, t) refl))

-- The search reports a text that is not empty.
abbrev Hit : Option Text → Type 0
Hit o = (m : Text) × (o ≡ some m) × (truthy m ≡ true)

extended-Stricter :
    (label : Text) (o o' : Option Text)
    → ((m : Text) → o ≡ some m → truthy m ≡ true)
    → (o' ≡ o) ⊎ Hit o'
    → Stricter (on_match block label o) (on_match block label o')
extended-Stricter label o o' given (inl same) = rw same (Stricter-refl _)
extended-Stricter label o o' given (inr hit) =
    on_match-Stricter label o o' (λ m e. hit) (λ e. inr hit)

truthy_of_ne : (s : Text) → s ≢ [] → truthy s ≡ true
truthy_of_ne [] h = absurd (h refl)
truthy_of_ne (c ∷ s) h = refl

matched_pattern-Hit :
    (ps : List Text) (host m : Text) → matched_pattern ps host ≡ some m → truthy m ≡ true
matched_pattern-Hit ps host m e = truthy_of_ne m (matched_pattern_sound ps host e).1

matched_pattern-cons :
    (p : Text) (ps : List Text) (host : Text)
    → (matched_pattern (p ∷ ps) host ≡ matched_pattern ps host)
      ⊎ Hit (matched_pattern (p ∷ ps) host)
matched_pattern-cons p ps host = elim (Bool-cases (host_matches p host)) [
  | inl hit ↦
      let e : matched_pattern (p ∷ ps) host ≡ some (normal_pattern p) =
        unfold matched_pattern in rw hit refl in
      inr (normal_pattern p, e, matched_pattern-Hit (p ∷ ps) host (normal_pattern p) e)
  | inr miss ↦ inl (unfold matched_pattern in rw miss refl)
]

keyword_in-Hit : (ks : List Text) (text m : Text) → keyword_in ks text ≡ some m → truthy m ≡ true
unfolding keyword_in
keyword_in-Hit [] text m e = cc
keyword_in-Hit (k ∷ ks) text m e =
    elim (Bool-cases (truthy (lower (strip k)) && contains (lower (strip k)) text)) [
      | inl hit ↦ ground arith
      | inr miss ↦ keyword_in-Hit ks text m (rw miss at e)
    ]

keyword_in-cons :
    (k : Text) (ks : List Text) (text : Text)
    → (keyword_in (k ∷ ks) text ≡ keyword_in ks text) ⊎ Hit (keyword_in (k ∷ ks) text)
unfolding keyword_in
keyword_in-cons k ks text =
    elim (Bool-cases (truthy (lower (strip k)) && contains (lower (strip k)) text)) [
      | inl hit ↦ inr (lower (strip k), ground arith, ground arith)
      | inr miss ↦ inl (rw miss refl)
    ]

listed-Stricter :
    (label p : Text) (ps : List Text) (host : Text)
    → Stricter (listed block label ps host) (listed block label (p ∷ ps) host)
unfolding listed
listed-Stricter label p ps [] = Stricter-refl next
listed-Stricter label p ps (c ∷ host) =
    extended-Stricter label (matched_pattern ps (c ∷ host)) (matched_pattern (p ∷ ps) (c ∷ host))
      (matched_pattern-Hit ps (c ∷ host)) (matched_pattern-cons p ps (c ∷ host))

on_raising-Stricter :
    (label k : Text) (ks : List Text) (text : Option Text)
    → Stricter
        (on_raising block label (map_text (keyword_in ks) text))
        (on_raising block label (map_text (keyword_in (k ∷ ks)) text))
on_raising-Stricter label k ks none = Stricter-refl raised
on_raising-Stricter label k ks (some text) =
    extended-Stricter label (keyword_in ks text) (keyword_in (k ∷ ks) text) (keyword_in-Hit ks text)
      (keyword_in-cons k ks text)

module _ {Float : Type 0} (at_least : Float → Float → Bool) (lib : UrlLib)
    (config : Option (Dict Float)) (profile : ProfileView Float) (inputs : DecisionInput Float)
    (p k : Text) where
  -- The profile with one more denied domain and one more denied keyword.
  abbrev pub stricter_profile : ProfileView Float
  stricter_profile = record profile {
    deny_domains = p ∷ profile.deny_domains;
    deny_url_keywords = k ∷ profile.deny_url_keywords;
  }

  module _ (rules : GlobalRules Float) (host : Text) where
    keyword_rules-Stricter :
        Stricter
          (keyword_rules at_least lib config profile inputs rules host
            (codes "deny_keyword:")
            profile.deny_url_keywords)
          (keyword_rules at_least lib config stricter_profile inputs rules host
            (codes "deny_keyword:")
            (k ∷ profile.deny_url_keywords))
    unfolding keyword_rules matched_keyword
    keyword_rules-Stricter =
        Stricter-when rules.apply_url_rules _ _
          (on_raising-Stricter (codes "deny_keyword:") k profile.deny_url_keywords _)

    deny_domain_rules-Stricter :
        Stricter
          (deny_domain_rules at_least lib config profile inputs rules host)
          (deny_domain_rules at_least lib config stricter_profile inputs rules host)
    unfolding deny_domain_rules
    deny_domain_rules-Stricter =
        Stricter-when rules.apply_domain_rules _ _
          (listed-Stricter (codes "deny_domain:") p profile.deny_domains host)

    later_rules-Stricter :
        Stricter
          (later_rules at_least lib config profile inputs rules host)
          (later_rules at_least lib config stricter_profile inputs rules host)
    unfolding later_rules keyword_rules youtube_rules allow_domain_rules classifier_rules
    later_rules-Stricter = Stricter-⨾ _ _ _ _ (Stricter-refl _) (
        Stricter-⨾ _ _ _ _ deny_domain_rules-Stricter
          (Stricter-⨾ _ _ _ _ keyword_rules-Stricter (Stricter-refl _)))

  on_host-Stricter :
      (rules : GlobalRules Float) (host : Option Text)
      → Stricter
          (on_host host (λ h.
            global_domain_rules at_least lib config profile inputs rules h
            ⨾ later_rules at_least lib config profile inputs rules h))
          (on_host host (λ h.
            global_domain_rules at_least lib config stricter_profile inputs rules h
            ⨾ later_rules at_least lib config stricter_profile inputs rules h))
  unfolding global_domain_rules
  on_host-Stricter rules none = Stricter-refl raised
  on_host-Stricter rules (some h) =
      Stricter-⨾ _ _ _ _ (Stricter-refl _) (later_rules-Stricter rules h)

  -- A request that is blocked stays blocked when its profile denies one more domain and one more
  -- URL keyword, whatever these are.
  pub decide-stricter_profile :
      (global_rules : Option (GlobalRules Float))
      → IsBlock (decide at_least lib config profile inputs global_rules)
      → IsBlock (decide at_least lib config stricter_profile inputs global_rules)
  unfolding decide gate_rules
  decide-stricter_profile global_rules = finish-Stricter _ _ (
      Stricter-⨾ _ _ _ _ (Stricter-refl _) (
        on_host-Stricter (rules_or_default at_least lib config profile inputs global_rules)
          (host_of lib inputs.url)))
