-- ===== src/Decide.antt =====
-- The endpoint of the proxy, services/api/src/seenoevil_api/routers/decide.py: `post_decide` with
-- its helpers. The clock, the fresh ids and what the data base does with the flush and the commit
-- are arguments; the flush of a device, whose failure is caught on the spot, succeeds.
pub mod Devices
pub mod Rules
pub mod Outcome
pub mod Atomic
pub mod Blocked
mod Tests
use see_no_evil.Prelude.{
  ℕ, ◌+◌, Bool, true, false, not, ◌&&◌, ◌||◌, Option, none, some, List, [], ◌∷◌, ◌++◌, first,
  length, ltb, leb, ◌==◌, if◌then◌else◌,
}
use see_no_evil.Text.{Text, codes, eqb, truthy, strip, lower, starts_with, drop}
use see_no_evil.Http.{Reply, ok, http}
use see_no_evil.Models.{Profile, Device, Quota, AuditDecision, QuarantineItem, pending}
use see_no_evil.Table.{get, update}
use see_no_evil.Policy.Types.{
  Decision, allow, block, DecisionOutput, Dict, DecisionInput, ProfileView, GlobalRules,
}
use see_no_evil.Policy.Urls.{UrlLib}
use see_no_evil.Json.{Json}
use see_no_evil.Runtime.{FloatLib}
use see_no_evil.Opa.{OpaLib, ask_sidecar, ◌>>=◌}
use see_no_evil.Decide.Rules.{global_rules}
use see_no_evil.Policy.Engine.{decide}
use see_no_evil.Auth.Settings.{Settings, given}
use see_no_evil.Text.Number.{pos}
use see_no_evil.AuditSig.{Stamp, aware, SigLib, sign_row}
use see_no_evil.Panic.{TimeLib, Payload, PanicState, parse}
use see_no_evil.Decide.Devices.{device_id, resolve_device, seen, auto_create_device}

-- `MAX_THUMBNAIL_B64`.
abbrev pub max_thumbnail_b64 : ℕ
max_thumbnail_b64 = 50000

-- The clock: UTC, and the local day of the week, time of day and day.
pub record Clock : Type 0 where
  pub utc : ℕ
  pub dow : ℕ
  pub time : ℕ
  pub today : ℕ

-- Ids and the secret that the data base and the random generator would give next.
pub record Fresh : Type 0 where
  pub device_id : ℕ
  pub audit_id : ℕ
  pub item_id : ℕ
  pub secret : Text

-- What `session.commit` does: it commits, raises `OperationalError`, or raises something else.
pub data Commit : Type 0 where
  committed busy failed : Commit

-- What becomes of the writes: the flush of the audit row or of its secret raises, or both pass and
-- the commit follows.
pub data Storage : Type 0 where
  unflushed : Storage
  flushed : Commit → Storage

pub data EngineKind : Type 0 where
  python opa auto : EngineKind

unfoldable pub engine_kind : Text → EngineKind
engine_kind name =
    if eqb name (codes "opa") then opa else if eqb name (codes "auto") then auto else python

pub record DecideResponse : Type 0 where
  pub decision : Decision
  pub reason : Text
  pub profile : Text
  pub device_id : Option ℕ

unfoldable pub minutes_used_today : Option Device → ℕ → List Quota → ℕ
minutes_used_today none today quotas = 0
minutes_used_today (some d) today quotas =
    elim (first (λ q. q.device_id == d.id && q.day == today) quotas) [
      | none ↦ 0
      | some q ↦ q.minutes_used
    ]

-- A classifier blocked an image, a video, or something of an unknown type.
unfoldable pub should_quarantine : Text → Option Text → Bool
should_quarantine reason none = starts_with (codes "classifier:") reason
should_quarantine reason (some content_type) =
    starts_with (codes "classifier:") reason
    && (starts_with (codes "image/") (lower content_type)
        || starts_with (codes "video/") (lower content_type))

-- A reason of one classifier, without the classifier's name.
unfoldable pub normal_reason : Text → Text
normal_reason reason =
    let norm = strip reason in
    if starts_with (codes "classifier:image:") norm
    then codes "classifier:" ++ drop 17 norm
    else if starts_with (codes "classifier:video:") norm
    then codes "classifier:" ++ drop 17 norm
    else if starts_with (codes "classifier:text:") norm
    then codes "classifier:" ++ drop 16 norm
    else norm

-- An oversize preview is dropped.
unfoldable pub bounded_thumbnail : Option Text → Option Text
bounded_thumbnail none = none
bounded_thumbnail (some thumb) = if ltb max_thumbnail_b64 (length thumb) then none else some thumb

abbrev pub id_of : Option Device → Option ℕ
id_of none = none
id_of (some d) = some d.id

-- The explicit block of the proxy: its reason, if it is one of a classifier.
unfoldable pub pre_blocked : Option Text → Option Text → Option Text
pre_blocked (some decision) (some reason) =
    if eqb decision (codes "block") && starts_with (codes "classifier:") reason
    then some reason
    else none
pre_blocked _ _ = none

abbrev pub is_block : Decision → Bool
is_block allow = false
is_block block = true

-- An uncaught exception is answered 500.
abbrev pub or_500 : {A : Type 0} → Option A → Reply A
or_500 none = http 500
or_500 (some a) = ok a

-- The engine `opa` answers 503 where the sidecar fails, `auto` falls back on Python.
abbrev pub by_engine :
    EngineKind → Option DecisionOutput → Option DecisionOutput → Reply DecisionOutput
by_engine python sidecar own = or_500 own
by_engine opa (some out) own = ok out
by_engine opa none own = http 503
by_engine auto (some out) own = ok out
by_engine auto none own = or_500 own

abbrev pub verdict_given :
    Option Text → EngineKind → Option DecisionOutput → Option DecisionOutput → Reply DecisionOutput
verdict_given (some reason) engine sidecar own =
    ok (record { decision = block; reason = normal_reason reason })
verdict_given none engine sidecar own = by_engine engine sidecar own

-- Panic-relax first, then the proxy's own block, then the engine.
abbrev pub verdict :
    Option PanicState
    → Option Text
    → EngineKind
    → Option DecisionOutput
    → Option DecisionOutput
    → Reply DecisionOutput
verdict none blocked engine sidecar own = http 500
verdict (some state) blocked engine sidecar own =
    if state.active
    then ok (record { decision = allow; reason = codes "panic_relax" })
    else verdict_given blocked engine sidecar own

module _ (Float : Type 0) where
  pub record DecideRequest : Type 0 where
    pub url : Text
    pub content_type : Option Text
    pub classifier_scores : Dict Float
    pub device_mac : Option Text
    pub device_id : Option ℕ
    pub client_ip : Option Text
    pub decision : Option Text
    pub reason : Option Text
    pub thumbnail_b64 : Option Text

  -- The tables that the handler reads and writes; `panic` and `runtime` are the settings'
  -- rows `panic_relax` and `runtime.v1`.
  pub record Tables : Type 0 where
    pub profiles : List (Profile Float)
    pub devices : List Device
    pub quotas : List Quota
    pub panic : Option Payload
    pub runtime : Option (Json Float)
    pub settings : Settings
    pub audit : List (AuditDecision Float)
    pub quarantine : List (QuarantineItem Float)

module _ {Float : Type 0} where
  unfoldable pub profile_view : Profile Float → ProfileView Float
  profile_view p = record {
    name = p.name;
    image_thresholds = p.image_thresholds;
    schedule = p.schedule;
    quota_minutes_per_day = p.quota_minutes_per_day;
    allow_domains = p.allow_domains;
    deny_domains = p.deny_domains;
    enforce_allowlist = p.enforce_allowlist;
    deny_url_keywords = p.deny_url_keywords;
    allow_youtube_channels = p.allow_youtube_channels;
    deny_youtube_channels = p.deny_youtube_channels;
  }

  abbrev pub profile_id : Profile Float → ℕ
  profile_id p = p.id

  unfoldable pub default_profile : Text → List (Profile Float) → Option (Profile Float)
  default_profile name profiles = first (λ p. eqb p.name name) profiles

  -- The device's profile, else the default one.
  abbrev pub profile_of : Text → List (Profile Float) → Option Device → Option (Profile Float)
  profile_of name profiles none = default_profile name profiles
  profile_of name profiles (some d) = elim (get profile_id d.profile_id profiles) [
    | none ↦ default_profile name profiles
    | some p ↦ some p
  ]

  -- A device that is known is seen again; one that is not may be made.
  unfoldable pub device_step :
      ℕ → ℕ → DecideRequest Float → ℕ → List Device → Option Device → Option Device × List Device
  device_step now fresh_id body profile devices (some d) =
      (some (seen now body.client_ip d), update device_id d.id (seen now body.client_ip) devices)
  device_step now fresh_id body profile devices none =
      if given body.device_mac || given body.client_ip
      then auto_create_device now fresh_id body.device_mac body.client_ip profile devices
      else (none, devices)

  abbrev pub decision_input :
      DecideRequest Float → Clock → Option Device → List Quota → DecisionInput Float
  decision_input body clock device quotas = record {
    url = body.url;
    classifier_scores = body.classifier_scores;
    now_dow = clock.dow;
    now_time = clock.time;
    minutes_used_today = minutes_used_today device clock.today quotas;
    panic_relax = false;
  }

  abbrev pub audit_row :
      ℕ
      → Fresh
      → DecideRequest Float
      → Option Device
      → Profile Float
      → DecisionOutput
      → AuditDecision Float
  audit_row now fresh body device profile out = record {
    id = fresh.audit_id;
    ts = now;
    device_id = id_of device;
    profile_id = some profile.id;
    url = body.url;
    content_type = body.content_type;
    decision = out.decision;
    reason = out.reason;
    classifier_scores = body.classifier_scores;
    thumbnail_b64 = bounded_thumbnail body.thumbnail_b64;
    signature = none;
  }

  abbrev pub quarantine_row :
      ℕ
      → Fresh
      → DecideRequest Float
      → Option Device
      → Profile Float
      → DecisionOutput
      → QuarantineItem Float
  quarantine_row now fresh body device profile out = record {
    id = fresh.item_id;
    ts = now;
    device_id = id_of device;
    profile_id = some profile.id;
    url = body.url;
    content_type = body.content_type;
    reason = out.reason;
    classifier_scores = body.classifier_scores;
    thumbnail_b64 = bounded_thumbnail body.thumbnail_b64;
    status = pending;
    resolved_at = none;
    resolved_by = none;
    flag_note = none;
    flagged_by = none;
    flagged_at = none;
  }

  abbrev pub held :
      ℕ
      → Fresh
      → DecideRequest Float
      → Option Device
      → Profile Float
      → DecisionOutput
      → List (QuarantineItem Float)
  held now fresh body device profile out =
      if is_block out.decision && should_quarantine out.reason body.content_type
      then quarantine_row now fresh body device profile out ∷ []
      else []

  abbrev pub respond : DecisionOutput → Option Device → Profile Float → DecideResponse
  respond out device profile = record {
    decision = out.decision;
    reason = out.reason;
    profile = profile.name;
    device_id = id_of device;
  }

  module _ (floats : FloatLib Float) (urls : UrlLib) (times : TimeLib) (sigs : SigLib Float)
      (opa : OpaLib Float) (opa_url : Text) (thresholds : Option (Dict Float))
      (engine default_name : Text) where
    abbrev pub signed_rows :
        Tables Float
        → List Device
        → List (QuarantineItem Float)
        → DecideResponse
        → Option (AuditDecision Float × Settings)
        → Reply (DecideResponse × Tables Float)
    signed_rows tables devices items response none = http 500
    signed_rows tables devices items response (some (row, settings)) = ok (
      response,
      record tables {
        devices = devices;
        settings = settings;
        audit = tables.audit ++ (row ∷ []);
        quarantine = tables.quarantine ++ items;
      },
    )

    abbrev pub recorded :
        Clock
        → Fresh
        → DecideRequest Float
        → Tables Float
        → Profile Float
        → Option Device × List Device
        → Reply DecisionOutput
        → Reply (DecideResponse × Tables Float)
    recorded clock fresh body tables profile (device, devices) (http code) = http code
    recorded clock fresh body tables profile (device, devices) (ok out) =
        signed_rows tables devices (held clock.utc fresh body device profile out)
          (respond out device profile)
          (sign_row sigs fresh.secret (aware clock.utc (pos 0))
            (audit_row clock.utc fresh body device profile out) tables.settings)

    -- The verdict on a request of a device, if there is one, with a profile.
    unfoldable pub verdict_on :
        Clock
        → DecideRequest Float
        → Tables Float
        → Profile Float
        → Option Device
        → Reply DecisionOutput
    unfolding profile_view minutes_used_today
    verdict_on clock body tables profile device =
        let view = profile_view profile in
        let inputs = decision_input body clock device tables.quotas in
        let rules = global_rules floats tables.runtime in
        verdict (parse times clock.utc tables.panic) (pre_blocked body.decision body.reason)
          (engine_kind engine) (ask_sidecar urls opa opa_url thresholds view inputs rules)
          (rules >>= λ r. decide floats.at_least urls thresholds view inputs (some r))

    abbrev pub with_profile :
        Clock
        → Fresh
        → DecideRequest Float
        → Tables Float
        → Option Device
        → Option (Profile Float)
        → Reply (DecideResponse × Tables Float)
    with_profile clock fresh body tables device none = http 503
    with_profile clock fresh body tables device (some profile) =
        let step = device_step clock.utc fresh.device_id body profile.id tables.devices device in
        recorded clock fresh body tables profile step (verdict_on clock body tables profile step.0)

    -- What `post_decide` answers and would commit.
    unfoldable pub prepared :
        Clock → Fresh → DecideRequest Float → Tables Float → Reply (DecideResponse × Tables Float)
    unfolding device_step verdict_on default_profile
    prepared clock fresh body tables =
        let device = resolve_device body.device_id body.client_ip body.device_mac tables.devices in
        with_profile clock fresh body tables device (profile_of default_name tables.profiles device)

    abbrev pub after_commit :
        Storage
        → Tables Float
        → Reply (DecideResponse × Tables Float)
        → Reply DecideResponse × Tables Float
    after_commit storage tables (http code) = (http code, tables)
    after_commit unflushed tables (ok (response, tables')) = (http 500, tables)
    after_commit (flushed committed) tables (ok (response, tables')) = (ok response, tables')
    after_commit (flushed busy) tables (ok (response, tables')) = (ok response, tables)
    after_commit (flushed failed) tables (ok (response, tables')) = (http 500, tables)

    unfoldable pub post_decide :
        Storage
        → Clock
        → Fresh
        → DecideRequest Float
        → Tables Float
        → Reply DecideResponse × Tables Float
    unfolding prepared
    post_decide storage clock fresh body tables =
        after_commit storage tables (prepared clock fresh body tables)
