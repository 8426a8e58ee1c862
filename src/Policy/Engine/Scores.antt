-- ===== src/Policy/Engine/Scores.antt =====
-- What the classifier scores have to do with the answer.
use see_no_evil.Prelude.{
  ◌≡◌, refl, ◌⊎◌, inl, inr, Bool, true, false, not, ◌&&◌, ◌||◌, ◌++◌, Option, none, some, List, [],
  ◌∷◌, All, Some, any, if◌then◌else◌, Bool-cases, arith,
}
use see_no_evil.Text.{Text, codes, truthy, starts_with, member}
use see_no_evil.Policy.Types.{
  Decision, block, allow, DecisionOutput, Dict, DecisionInput, ProfileView, GlobalRules,
}
use see_no_evil.Policy.Domains.{matched_pattern, match_any}
use see_no_evil.Policy.Urls.{
  channel_matches, UrlLib, host_of, is_youtube_host, extract_youtube_channel,
}
use see_no_evil.Policy.Engine.{
  Flow, done, raised, next, ◌⨾◌, finish, answer, is_listed, on_match, on_raising, listed, unlisted,
  when, schedule_rule, channel_rules, on_channel, on_host, label_of, non_blocking, reaches,
  threshold_for, score_blocks, score_rules, config_thresholds, gate_rules, global_domain_rules,
  keyword_rules, deny_domain_rules, youtube_rules, allow_domain_rules, classifier_rules,
  later_rules, decide,
}

-- The answer is neither "allow, d…" nor "block, c…": it differs from those of the last two rules.
is_apart : DecisionOutput → Bool
unfolding starts_with
is_apart out = elim out.decision [
  | allow ↦ not (starts_with (codes "d") out.reason)
  | block ↦ not (starts_with (codes "c") out.reason)
]

abbrev Apart : Flow → Type 0
Apart (done out) = is_apart out ≡ true
Apart _ = Unit

skipped :
    (a b : Flow) (out : DecisionOutput)
    → Apart a
    → is_apart out ≡ false
    → finish (a ⨾ b) ≡ some out
    → finish b ≡ some out
skipped (done made) b out h k e = absurd (ground arith)
skipped raised b out h k e = cc
skipped next b out h k e = e

Apart-when : (t : Bool) (f : Flow) → Apart f → Apart (when t f)
Apart-when true f h = h
Apart-when false f h = tt

Apart-if : (t : Bool) (f g : Flow) → Apart f → Apart g → Apart (if t then f else g)
Apart-if true f g h k = h
Apart-if false f g h k = k

Apart-⨾ : (a b : Flow) → Apart a → Apart b → Apart (a ⨾ b)
Apart-⨾ (done out) b h k = h
Apart-⨾ raised b h k = tt
Apart-⨾ next b h k = k

-- A label that keeps every answer with it apart.
abbrev Keeps : Decision → Text → Type 0
Keeps d label = (m : Text) → is_apart (record { decision = d; reason = label ++ m }) ≡ true

Apart-on_match :
    (d : Decision) (label : Text) (o : Option Text) → Keeps d label → Apart (on_match d label o)
Apart-on_match d label none k = tt
Apart-on_match d label (some []) k = tt
Apart-on_match d label (some (c ∷ m)) k = k (c ∷ m)

Apart-on_raising :
    (label : Text) (o : Option (Option Text)) → Keeps block label → Apart (on_raising block label o)
Apart-on_raising label none k = tt
Apart-on_raising label (some o) k = Apart-on_match block label o k

Apart-listed :
    (d : Decision) (label : Text) (ps : List Text) (h : Text)
    → Keeps d label
    → Apart (listed d label ps h)
unfolding listed
Apart-listed d label ps [] k = tt
Apart-listed d label ps (c ∷ h) k = Apart-on_match d label (matched_pattern ps (c ∷ h)) k

Apart-unlisted :
    (label : Text) (enforce : Bool) (ps : List Text) (h : Text)
    → Keeps block label
    → Apart (unlisted label enforce ps h)
unfolding unlisted
Apart-unlisted label enforce ps h k =
    Apart-when (enforce && is_listed ps && (not (truthy h) || not (match_any ps h)))
      (answer block (label ++ (if truthy h then h else codes "unknown")))
      (k (if truthy h then h else codes "unknown"))

Apart-channel_rules :
    (allowed denied : List Text) (o : Option Text) → Apart (channel_rules allowed denied o)
unfolding channel_rules is_apart
Apart-channel_rules allowed denied none = Apart-when (is_listed allowed) _ refl
Apart-channel_rules allowed denied (some c) =
    Apart-if (any (λ p. channel_matches p c) denied) _ _ refl
      (Apart-when (is_listed allowed && not (any (λ p. channel_matches p c) allowed)) _ refl)

Apart-on_channel :
    (allowed denied : List Text) (o : Option (Option Text)) → Apart (on_channel allowed denied o)
Apart-on_channel allowed denied none = tt
Apart-on_channel allowed denied (some o) = Apart-channel_rules allowed denied o

Apart-gate :
    (panic spent : Bool) (o : Option Bool)
    → Apart (
        when panic (answer allow (codes "panic_relax"))
        ⨾ schedule_rule o
        ⨾ when spent (answer block (codes "quota")))
unfolding is_apart
Apart-gate true spent o = refl
Apart-gate false spent none = tt
Apart-gate false true (some true) = refl
Apart-gate false false (some true) = tt
Apart-gate false spent (some false) = refl

module _ {Float : Type 0} (at_least : Float → Float → Bool) where
  -- The class of this entry is not one that blocks, or has no threshold, or is below it.
  abbrev pub IsHarmless : (Text → Option Float) → Text × Float → Type 0
  IsHarmless threshold (cls, score) =
      (member (label_of cls) non_blocking ≡ true)
      ⊎ (threshold (label_of cls) ≡ none)
      ⊎ ((t : Float) × (threshold (label_of cls) ≡ some t) × (at_least score t ≡ false))

  -- The class of this entry has the label, may block, and its score reaches the threshold.
  abbrev pub Reaches : (Text → Option Float) → Text → Text × Float → Type 0
  Reaches threshold label (cls, score) =
      (t : Float) × (label_of cls ≡ label)
      × (member label non_blocking ≡ false)
      × (threshold label ≡ some t)
      × (at_least score t ≡ true)

  harmless_parts :
      (m : Bool) (score : Float) (o : Option Float)
      → (not m && reaches at_least score o) ≡ false
      → (m ≡ true) ⊎ (o ≡ none) ⊎ ((t : Float) × (o ≡ some t) × (at_least score t ≡ false))
  harmless_parts true score o e = inl refl
  harmless_parts false score none e = inr (inl refl)
  harmless_parts false score (some t) e = inr (inr (t, refl, e))

  reached_parts :
      (m : Bool) (score : Float) (o : Option Float)
      → (not m && reaches at_least score o) ≡ true
      → (t : Float) × (m ≡ false) × (o ≡ some t) × (at_least score t ≡ true)
  reached_parts true score o e = cc
  reached_parts false score none e = cc
  reached_parts false score (some t) e = (t, refl, refl, e)

  score_rules-next :
      (threshold : Text → Option Float) (scores : Dict Float)
      → score_rules at_least threshold scores ≡ next
      → All (IsHarmless threshold) scores
  unfolding score_rules
  score_rules-next threshold [] e = tt
  score_rules-next threshold ((cls, score) ∷ rest) e =
      elim (Bool-cases (score_blocks at_least threshold (cls, score))) [
        | inl hit ↦ absurd (ground arith)
        | inr miss ↦ (
          harmless_parts (member (label_of cls) non_blocking) score (threshold (label_of cls))
              (unfold score_blocks in miss),
          score_rules-next threshold rest (rw miss at e),
        )
      ]

  score_rules-done :
      (threshold : Text → Option Float) (scores : Dict Float) (label : Text)
      → score_rules at_least threshold scores ≡ answer block (codes "classifier:" ++ label)
      → Some (Reaches threshold label) scores
  unfolding score_rules
  score_rules-done threshold [] label e = cc
  score_rules-done threshold ((cls, score) ∷ rest) label e =
      elim (Bool-cases (score_blocks at_least threshold (cls, score))) [
        | inl hit ↦
            let same : label_of cls ≡ label = ground arith in
            let (t, may_block, found, reached) =
              reached_parts (member (label_of cls) non_blocking) score (threshold (label_of cls))
                (unfold score_blocks in hit) in
            inl (t, same, rw same at may_block, rw same at found, reached)
        | inr miss ↦ inr (score_rules-done threshold rest label (rw miss at e))
      ]

  score_rules-total :
      (threshold : Text → Option Float) (scores : Dict Float) (out : DecisionOutput)
      → finish (score_rules at_least threshold scores) ≡ some out
      → (score_rules at_least threshold scores ≡ next)
        ⊎ ((out.decision ≡ block) × (score_rules at_least threshold scores ≡ done out))
  unfolding score_rules
  score_rules-total threshold [] out e = inl refl
  score_rules-total threshold (entry ∷ rest) out e =
      elim (Bool-cases (score_blocks at_least threshold entry)) [
        | inl hit ↦ inr (ground arith, ground arith)
        | inr miss ↦ rw miss (score_rules-total threshold rest out (rw miss at e))
      ]

  module _ (lib : UrlLib) (config : Option (Dict Float)) (profile : ProfileView Float)
      (inputs : DecisionInput Float) where
    Apart-gate_rules : Apart (gate_rules at_least lib config profile inputs)
    unfolding gate_rules
    Apart-gate_rules = Apart-gate inputs.panic_relax _ _

    module _ (rules : GlobalRules Float) (host : Text) where
      Apart-global_domain_rules :
          Apart (global_domain_rules at_least lib config profile inputs rules host)
      unfolding global_domain_rules is_apart
      Apart-global_domain_rules = Apart-when rules.apply_domain_rules _ (
          Apart-⨾ _ _ (Apart-listed block _ rules.deny_domains host (λ m. refl)) (
            Apart-⨾ _ _ (Apart-listed allow _ rules.allow_domains host (λ m. refl))
              (Apart-unlisted _ rules.enforce_allowlist rules.allow_domains host (λ m. refl))))

      Apart-keyword_rules :
          (label : Text) (ks : List Text)
          → Keeps block label
          → Apart (keyword_rules at_least lib config profile inputs rules host label ks)
      unfolding keyword_rules
      Apart-keyword_rules label ks k =
          Apart-when rules.apply_url_rules _ (Apart-on_raising label _ k)

      Apart-deny_domain_rules :
          Apart (deny_domain_rules at_least lib config profile inputs rules host)
      unfolding deny_domain_rules is_apart
      Apart-deny_domain_rules =
          Apart-when rules.apply_domain_rules _
            (Apart-listed block _ profile.deny_domains host (λ m. refl))

      Apart-youtube_rules : Apart (youtube_rules at_least lib config profile inputs rules host)
      unfolding youtube_rules
      Apart-youtube_rules =
          Apart-when (rules.apply_domain_rules && truthy host && is_youtube_host host) _ (
            Apart-on_channel profile.allow_youtube_channels profile.deny_youtube_channels
              (extract_youtube_channel lib inputs.url))

      Apart-allow_domain_rules :
          Apart (allow_domain_rules at_least lib config profile inputs rules host)
      unfolding allow_domain_rules is_apart
      Apart-allow_domain_rules = Apart-when rules.apply_domain_rules _ (
          Apart-⨾ _ _ (Apart-listed allow _ profile.allow_domains host (λ m. refl))
            (Apart-unlisted _ profile.enforce_allowlist profile.allow_domains host (λ m. refl)))

      -- An answer that no earlier rule gives comes from the scores.
      later-scores :
          (out : DecisionOutput)
          → is_apart out ≡ false
          → finish (later_rules at_least lib config profile inputs rules host) ≡ some out
          → finish (classifier_rules at_least lib config profile inputs rules host) ≡ some out
      unfolding later_rules is_apart
      later-scores out k e =
          let e₁ =
            skipped _ _ out (Apart-keyword_rules _ rules.deny_url_keywords (λ m. refl)) k e in
          let e₂ = skipped _ _ out Apart-deny_domain_rules k e₁ in
          let e₃ =
            skipped _ _ out (Apart-keyword_rules _ profile.deny_url_keywords (λ m. refl)) k e₂ in
          let e₄ = skipped _ _ out Apart-youtube_rules k e₃ in
          skipped _ _ out Apart-allow_domain_rules k e₄

    on_host-scores :
        (rules : GlobalRules Float) (host : Option Text) (out : DecisionOutput)
        → is_apart out ≡ false
        → finish (
            on_host host (λ h.
              global_domain_rules at_least lib config profile inputs rules h
              ⨾ later_rules at_least lib config profile inputs rules h))
          ≡ some out
        → finish (
            score_rules at_least
              (threshold_for at_least profile.image_thresholds rules.image_thresholds
                (config_thresholds at_least lib config))
              inputs.classifier_scores)
          ≡ some out
    unfolding classifier_rules
    on_host-scores rules none out k e = cc
    on_host-scores rules (some h) out k e = later-scores rules h out k (
        skipped (global_domain_rules at_least lib config profile inputs rules h) _ out
          (Apart-global_domain_rules rules h) k e)

    decide-scores :
        (rules : GlobalRules Float) (out : DecisionOutput)
        → is_apart out ≡ false
        → decide at_least lib config profile inputs (some rules) ≡ some out
        → finish (
            score_rules at_least
              (threshold_for at_least profile.image_thresholds rules.image_thresholds
                (config_thresholds at_least lib config))
              inputs.classifier_scores)
          ≡ some out
    unfolding decide
    decide-scores rules out k e =
        on_host-scores rules (host_of lib inputs.url) out k
          (skipped (gate_rules at_least lib config profile inputs) _ out Apart-gate_rules k e)

    -- After the answer "allow, default" every class with a score is one that never blocks, has no
    -- threshold, or is below its threshold: the profile's, else the run-time one, else the
    -- configuration's.
    pub decide-default :
        (rules : GlobalRules Float)
        → decide at_least lib config profile inputs (some rules)
          ≡ some (record { decision = allow; reason = codes "default" })
        → All
            (IsHarmless (
              threshold_for at_least profile.image_thresholds rules.image_thresholds
                (config_thresholds at_least lib config)))
            inputs.classifier_scores
    decide-default rules e =
        let out : DecisionOutput = record { decision = allow; reason = codes "default" } in
        elim (score_rules-total _ _ out (decide-scores rules out (unfold is_apart in refl) e)) [
          | inl passed ↦ score_rules-next _ _ passed
          | inr (blocked, _) ↦ cc (blocked)
        ]

    -- A block for "classifier:label" is due to a score: some class has that label, may block, and
    -- its score reaches the label's threshold.
    pub decide-classifier :
        (rules : GlobalRules Float) (label : Text)
        → decide at_least lib config profile inputs (some rules)
          ≡ some (record { decision = block; reason = codes "classifier:" ++ label })
        → Some
            (Reaches
              (threshold_for at_least profile.image_thresholds rules.image_thresholds
                (config_thresholds at_least lib config))
              label)
            inputs.classifier_scores
    decide-classifier rules label e =
        let out : DecisionOutput = record {
          decision = block;
          reason = codes "classifier:" ++ label;
        } in
        let e' = decide-scores rules out (unfold is_apart in refl) e in
        elim (score_rules-total _ _ out e') [
          | inl passed ↦ absurd (ground arith)
          | inr (_, made) ↦ score_rules-done _ inputs.classifier_scores label made
        ]
