-- ===== src/Policy/Types.antt =====
-- The records of policy.py. Floats are a type of the caller's, compared by a test `at_least`.
use see_no_evil.Prelude.{ℕ, Bool, true, false, List, []}
use see_no_evil.Text.Number.{ℤ}
use see_no_evil.Text.{Text}

pub data Decision : Type 0 where
  allow block : Decision

pub record DecisionOutput : Type 0 where
  pub decision : Decision
  pub reason : Text

-- A `dict` with text keys, in the order of insertion.
abbrev pub Dict : Type 0 → Type 0
Dict V = List (Text × V)

-- A time of day, in microseconds since midnight.
abbrev pub Time : Type 0
Time = ℕ

module _ (Float : Type 0) where
  pub record DecisionInput : Type 0 where
    pub url : Text
    pub classifier_scores : Dict Float
    pub now_dow : ℕ
    pub now_time : Time
    pub minutes_used_today : ℕ
    pub panic_relax : Bool

  pub record ProfileView : Type 0 where
    pub name : Text
    pub image_thresholds : Dict Float
    pub schedule : Dict Text
    pub quota_minutes_per_day : ℤ
    pub allow_domains : List Text
    pub deny_domains : List Text
    pub enforce_allowlist : Bool
    pub deny_url_keywords : List Text
    pub allow_youtube_channels : List Text
    pub deny_youtube_channels : List Text

  pub record GlobalRules : Type 0 where
    pub allow_domains : List Text
    pub enforce_allowlist : Bool
    pub deny_domains : List Text
    pub deny_url_keywords : List Text
    pub apply_domain_rules : Bool
    pub apply_url_rules : Bool
    pub image_thresholds : Dict Float

-- `GlobalRules()`.
abbrev pub default_rules : {Float : Type 0} → GlobalRules Float
default_rules = record {
  allow_domains = [];
  enforce_allowlist = false;
  deny_domains = [];
  deny_url_keywords = [];
  apply_domain_rules = true;
  apply_url_rules = true;
  image_thresholds = [];
}
