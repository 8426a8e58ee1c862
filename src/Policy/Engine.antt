-- ===== src/Policy/Engine.antt =====
-- `decide` of policy.py: the rules in their order, the first that answers wins.
pub mod Totality
pub mod Allow
pub mod Strict
pub mod Scores
use see_no_evil.Prelude.{
  ℕ, Bool, true, false, not, ◌&&◌, ◌||◌, Option, none, some, List, [], ◌∷◌, ◌++◌, any, leb, ltb,
  if◌then◌else◌,
}
use see_no_evil.Text.{Text, codes, truthy, split_once, member, lookup}
use see_no_evil.Text.Number.{ℤ, pos, negsuc}
use see_no_evil.Policy.Types.{
  Decision, allow, block, DecisionOutput, Dict, DecisionInput, ProfileView, GlobalRules,
  default_rules,
}
use see_no_evil.Policy.Schedule.{in_schedule}
use see_no_evil.Policy.Domains.{matched_pattern, match_any}
use see_no_evil.Policy.Urls.{
  UrlLib, host_of, matched_keyword, is_youtube_host, extract_youtube_channel, channel_matches,
}

-- What one rule does: return from `decide`, raise, or go on to the next rule.
pub data Flow : Type 0 where
  done : DecisionOutput → Flow
  raised : Flow
  next : Flow

infixr 10 ◌⨾◌
abbrev pub ◌⨾◌ : Flow → Flow → Flow
done out ⨾ rest = done out
raised ⨾ rest = raised
next ⨾ rest = rest

-- The last line of `decide` answers when no rule did; `none` is an exception.
abbrev pub finish : Flow → Option DecisionOutput
finish (done out) = some out
finish raised = none
finish next = some (record { decision = allow; reason = codes "default" })

abbrev pub answer : Decision → Text → Flow
answer verdict reason = done (record { decision = verdict; reason = reason })

-- `if (match := …): return DecisionOutput(verdict, f"{label}{match}")`.
abbrev pub on_match : Decision → Text → Option Text → Flow
on_match verdict label none = next
on_match verdict label (some m) = if truthy m then answer verdict (label ++ m) else next

abbrev pub on_raising : Decision → Text → Option (Option Text) → Flow
on_raising verdict label none = raised
on_raising verdict label (some found) = on_match verdict label found

abbrev pub is_listed {ℓ} : {A : Type ℓ} → List A → Bool
is_listed [] = false
is_listed (x ∷ xs) = true

-- A list of domain patterns that answers for the hosts that it matches.
unfoldable pub listed : Decision → Text → List Text → Text → Flow
listed verdict label patterns host =
    if truthy host then on_match verdict label (matched_pattern patterns host) else next

-- An enforced, non-empty allow list answers for every host that it does not match.
unfoldable pub unlisted : Text → Bool → List Text → Text → Flow
unlisted label enforce patterns host =
    if enforce && is_listed patterns && (not (truthy host) || not (match_any patterns host))
    then answer block (label ++ (if truthy host then host else codes "unknown"))
    else next

abbrev pub when : Bool → Flow → Flow
when test flow = if test then flow else next

abbrev pub schedule_rule : Option Bool → Flow
schedule_rule none = raised
schedule_rule (some open_now) = when (not open_now) (answer block (codes "schedule"))

-- `quota > 0 and used >= quota`.
abbrev pub quota_is_spent : ℤ → ℕ → Bool
quota_is_spent (pos quota) used = ltb 0 quota && leb quota used
quota_is_spent (negsuc n) used = false

-- Rule 5, for a URL of YouTube.
unfoldable pub channel_rules : List Text → List Text → Option Text → Flow
unfolding channel_matches
channel_rules allowed denied none =
    if is_listed allowed then answer block (codes "youtube_channel_not_allowed") else next
channel_rules allowed denied (some channel) =
    if any (λ p. channel_matches p channel) denied
    then answer block (codes "deny_youtube_channel")
    else if is_listed allowed && not (any (λ p. channel_matches p channel) allowed)
    then answer block (codes "youtube_channel_not_allowed")
    else next

abbrev pub on_channel : List Text → List Text → Option (Option Text) → Flow
on_channel allowed denied none = raised
on_channel allowed denied (some channel) = channel_rules allowed denied channel

abbrev second_part : Option (Text × Text) → Text → Text
second_part none s = s
second_part (some (a, b)) s = b

-- `cls.split(":", 1)[1] if ":" in cls else cls`.
unfoldable pub label_of : Text → Text
unfolding split_once
label_of cls = second_part (split_once b':' cls) cls

abbrev pub non_blocking : List Text
non_blocking = codes "neutral" ∷ codes "drawing" ∷ codes "drawings" ∷ codes "safe" ∷ []

abbrev pub or_else {ℓ} : {A : Type ℓ} → Option A → Option A → Option A
or_else none o = o
or_else (some a) o = some a

abbrev pub on_host : Option Text → (Text → Flow) → Flow
on_host none k = raised
on_host (some host) k = k host

module _ {Float : Type 0} (at_least : Float → Float → Bool) where
  -- The profile's threshold, else the run-time one, else the configuration's.
  unfoldable pub threshold_for : Dict Float → Dict Float → Dict Float → Text → Option Float
  unfolding lookup
  threshold_for profile runtime global label =
      or_else (lookup label profile) (or_else (lookup label runtime) (lookup label global))

  abbrev pub reaches : Float → Option Float → Bool
  reaches score none = false
  reaches score (some t) = at_least score t

  -- One class of the scores blocks.
  unfoldable pub score_blocks : (Text → Option Float) → Text × Float → Bool
  unfolding member label_of
  score_blocks threshold (cls, score) =
      not (member (label_of cls) non_blocking) && reaches score (threshold (label_of cls))

  unfoldable pub score_rules : (Text → Option Float) → Dict Float → Flow
  unfolding score_blocks
  score_rules threshold [] = next
  score_rules threshold (entry ∷ rest) =
      if score_blocks threshold entry
      then answer block (codes "classifier:" ++ label_of entry.0)
      else score_rules threshold rest

  module _ (lib : UrlLib) (config : Option (Dict Float)) where
    abbrev pub config_thresholds : Dict Float
    config_thresholds = elim config [ none ↦ [] | some thresholds ↦ thresholds ]

    module _ (profile : ProfileView Float) (inputs : DecisionInput Float) where
      -- Panic-relax, schedule and quota: the rules that do not look at the URL.
      unfoldable pub gate_rules : Flow
      gate_rules =
          when inputs.panic_relax (answer allow (codes "panic_relax"))
          ⨾ schedule_rule (in_schedule profile.schedule inputs.now_dow inputs.now_time)
          ⨾ when (quota_is_spent profile.quota_minutes_per_day inputs.minutes_used_today)
              (answer block (codes "quota"))

      module _ (rules : GlobalRules Float) (host : Text) where
        unfoldable pub global_domain_rules : Flow
        global_domain_rules = when rules.apply_domain_rules (
            listed block (codes "global_deny_domain:") rules.deny_domains host
            ⨾ listed allow (codes "global_allow_domain:") rules.allow_domains host
            ⨾ unlisted (codes "global_not_in_allowlist:") rules.enforce_allowlist
                rules.allow_domains host)

        unfoldable pub keyword_rules : Text → List Text → Flow
        keyword_rules label keywords =
            when rules.apply_url_rules
              (on_raising block label (matched_keyword lib keywords inputs.url))

        unfoldable pub deny_domain_rules : Flow
        deny_domain_rules =
            when rules.apply_domain_rules
              (listed block (codes "deny_domain:") profile.deny_domains host)

        unfoldable pub youtube_rules : Flow
        youtube_rules = when (rules.apply_domain_rules && truthy host && is_youtube_host host) (
            on_channel profile.allow_youtube_channels profile.deny_youtube_channels
              (extract_youtube_channel lib inputs.url))

        unfoldable pub allow_domain_rules : Flow
        allow_domain_rules = when rules.apply_domain_rules (
            listed allow (codes "allow_domain:") profile.allow_domains host
            ⨾ unlisted (codes "not_in_allowlist:") profile.enforce_allowlist profile.allow_domains
                host)

        unfoldable pub classifier_rules : Flow
        classifier_rules =
            score_rules
              (threshold_for profile.image_thresholds rules.image_thresholds config_thresholds)
              inputs.classifier_scores

        -- The rules after the global domain lists.
        unfoldable pub later_rules : Flow
        later_rules =
            keyword_rules (codes "global_deny_keyword:") rules.deny_url_keywords
            ⨾ deny_domain_rules
            ⨾ keyword_rules (codes "deny_keyword:") profile.deny_url_keywords
            ⨾ youtube_rules
            ⨾ allow_domain_rules
            ⨾ classifier_rules

      abbrev pub rules_or_default : Option (GlobalRules Float) → GlobalRules Float
      rules_or_default none = default_rules
      rules_or_default (some rules) = rules

      unfoldable pub decide : Option (GlobalRules Float) → Option DecisionOutput
      decide global_rules =
          let rules = rules_or_default global_rules in
          finish (
            gate_rules
            ⨾ on_host (host_of lib inputs.url)
                (λ host. global_domain_rules rules host ⨾ later_rules rules host))
