-- ===== src/Models.antt =====
-- The rows of the data base, services/api/src/seenoevil_api/models.py. Times are microseconds of
-- naive UTC. A column that nothing modelled here reads or writes has no field.
use see_no_evil.Prelude.{ℕ, Bool, Option, List}
use see_no_evil.Text.Number.{ℤ}
use see_no_evil.Text.{Text}
use see_no_evil.Policy.Types.{Dict, Decision}

-- The three values of `QuarantineItem.status`.
pub data Status : Type 0 where
  pending allowed denied : Status

pub record Device : Type 0 where
  pub id : ℕ
  pub mac : Text
  pub name : Option Text
  pub profile_id : ℕ
  pub bypass_proxy : Bool
  pub ip : Option Text
  pub vendor : Option Text
  pub last_seen_at : Option ℕ
  pub created_at : ℕ

pub record User : Type 0 where
  pub id : ℕ
  pub email : Text
  pub password_hash : Text
  pub role : Text
  pub disabled : Bool

pub record Quota : Type 0 where
  pub device_id : ℕ
  pub day : ℕ
  pub minutes_used : ℕ

module _ (Float : Type 0) where
  pub record Profile : Type 0 where
    pub id : ℕ
    pub name : Text
    pub image_thresholds : Dict Float
    pub schedule : Dict Text
    pub quota_minutes_per_day : ℤ
    pub allow_domains : List Text
    pub enforce_allowlist : Bool
    pub deny_domains : List Text
    pub deny_url_keywords : List Text
    pub allow_youtube_channels : List Text
    pub deny_youtube_channels : List Text

  pub record AuditDecision : Type 0 where
    pub id : ℕ
    pub ts : ℕ
    pub device_id : Option ℕ
    pub profile_id : Option ℕ
    pub url : Text
    pub content_type : Option Text
    pub decision : Decision
    pub reason : Text
    pub classifier_scores : Dict Float
    pub thumbnail_b64 : Option Text
    pub signature : Option Text

  pub record QuarantineItem : Type 0 where
    pub id : ℕ
    pub ts : ℕ
    pub device_id : Option ℕ
    pub profile_id : Option ℕ
    pub url : Text
    pub content_type : Option Text
    pub reason : Text
    pub classifier_scores : Dict Float
    pub thumbnail_b64 : Option Text
    pub status : Status
    pub resolved_at : Option ℕ
    pub resolved_by : Option Text
    pub flag_note : Option Text
    pub flagged_by : Option Text
    pub flagged_at : Option ℕ
