-- ===== src/Decide/Blocked.antt =====
-- What becomes of a block that the proxy reports to `post_decide`.
use see_no_evil.Prelude.{
  ◌≡◌, ◌≢◌, refl, ◌⊎◌, inl, inr, true, false, Option, some, [], ◌∷◌, ◌++◌, Bool-cases,
}
use see_no_evil.Text.{Text, codes, strip, starts_with}
use see_no_evil.Text.Laws.{eqb_refl, starts_with-drop}
use see_no_evil.Http.{ok}
use see_no_evil.Models.{Profile, Device, AuditDecision}
use see_no_evil.Policy.Types.{block, DecisionOutput, Dict}
use see_no_evil.Policy.Urls.{UrlLib}
use see_no_evil.Runtime.{FloatLib}
use see_no_evil.Opa.{OpaLib}
use see_no_evil.Auth.Settings.{Settings}
use see_no_evil.Text.Number.{pos}
use see_no_evil.AuditSig.{aware, SigLib, ensure_secret, sign_row, canonical}
use see_no_evil.Panic.{TimeLib, PanicState, parse}
use see_no_evil.Decide.{
  Clock, Fresh, Commit, committed, busy, failed, flushed, DecideResponse, DecideRequest, Tables,
  pre_blocked, normal_reason, held, audit_row, respond, verdict_on, prepared, profile_of,
  device_step, after_commit, post_decide,
}
use see_no_evil.Decide.Devices.{resolve_device}
use see_no_evil.Decide.Outcome.{run}

-- Without white space at its ends, and without the classifier's name behind "classifier:".
abbrev pub IsShortened : Text → Text → Type 0
IsShortened reason short =
    ((label : Text) × (strip reason ≡ codes "classifier:image:" ++ label)
      × (short ≡ codes "classifier:" ++ label))
    ⊎ ((label : Text) × (strip reason ≡ codes "classifier:video:" ++ label)
        × (short ≡ codes "classifier:" ++ label))
    ⊎ ((label : Text) × (strip reason ≡ codes "classifier:text:" ++ label)
        × (short ≡ codes "classifier:" ++ label))
    ⊎ ((short ≡ strip reason)
        × (starts_with (codes "classifier:image:") short ≡ false)
        × (starts_with (codes "classifier:video:") short ≡ false)
        × (starts_with (codes "classifier:text:") short ≡ false))

normal_reason-IsShortened : (reason : Text) → IsShortened reason (normal_reason reason)
unfolding normal_reason
normal_reason-IsShortened reason =
    elim (Bool-cases (starts_with (codes "classifier:image:") (strip reason))) [
      | inl image ↦
          rw image
            (inl (_, starts_with-drop (codes "classifier:image:") (strip reason) image, refl))
      | inr no_image ↦ elim (Bool-cases (starts_with (codes "classifier:video:") (strip reason))) [
        | inl video ↦
            rw (no_image, video)
              (inr
                (inl (_, starts_with-drop (codes "classifier:video:") (strip reason) video, refl)))
        | inr no_video ↦ elim (Bool-cases (starts_with (codes "classifier:text:") (strip reason))) [
          | inl text ↦
              rw (no_image, no_video, text)
                (inr (
                  inr (
                    inl
                      (_, starts_with-drop (codes "classifier:text:") (strip reason) text, refl))))
          | inr no_text ↦
              rw (no_image, no_video, no_text) (inr (inr (inr (refl, no_image, no_video, no_text))))
        ]
      ]
    ]

module _ {Float : Type 0} where
  module _ (floats : FloatLib Float) (urls : UrlLib) (times : TimeLib) (sigs : SigLib Float)
      (opa : OpaLib Float) (opa_url : Text) (thresholds : Option (Dict Float))
      (engine default_name : Text) (clock : Clock) (fresh : Fresh) (body : DecideRequest Float)
      (tables : Tables Float) where
    sign_row_made :
        (row : AuditDecision Float) (key : Text × Settings)
        → ensure_secret fresh.secret tables.settings ≡ some key
        → (p : AuditDecision Float × Settings) × (sign_row sigs fresh.secret
              (aware clock.utc (pos 0))
              row
              tables.settings
            ≡ some p)
    unfolding sign_row
    sign_row_made row key made = (
      (
        record row {
          signature = some (sigs.hmac key.0 (canonical sigs (aware clock.utc (pos 0)) row));
        },
        key.1,
      ),
      rw made refl,
    )

    kept :
        (response : DecideResponse) (tables' : Tables Float) (commit : Commit)
        → commit ≢ failed
        → (after_commit floats urls times sigs opa opa_url thresholds engine default_name
            (flushed commit)
            tables
            (ok (response, tables'))).0
          ≡ ok response
    kept response tables' committed h = refl
    kept response tables' busy h = refl
    kept response tables' failed h = absurd (h refl)

    -- With a profile, a verdict and a secret the reply is the verdict.
    prepared-ok :
        (profile : Profile Float) (out : DecisionOutput) (key : Text × Settings)
        → profile_of default_name tables.profiles
            (resolve_device body.device_id body.client_ip body.device_mac tables.devices)
          ≡ some profile
        → ((device : Option Device)
            → verdict_on floats urls times sigs opa opa_url thresholds engine default_name clock
                body tables profile device
              ≡ ok out)
        → ensure_secret fresh.secret tables.settings ≡ some key
        → (response : DecideResponse) × (tables' : Tables Float) × (prepared floats urls times sigs
              opa opa_url thresholds engine default_name clock fresh body tables
            ≡ ok (response, tables'))
          × (response.decision ≡ out.decision)
          × (response.reason ≡ out.reason)
    unfolding prepared
    prepared-ok profile out key found given made =
        let device = resolve_device body.device_id body.client_ip body.device_mac tables.devices in
        let step = device_step clock.utc fresh.device_id body profile.id tables.devices device in
        let (p, signed) =
          sign_row_made (audit_row clock.utc fresh body step.0 profile out) key made in
        (
          respond out step.0 profile,
          record tables {
            devices = step.1;
            settings = p.1;
            audit = tables.audit ++ (p.0 ∷ []);
            quarantine = tables.quarantine ++ held clock.utc fresh body step.0 profile out;
          },
          rw (found, given step.0, signed) refl,
          refl,
          refl,
        )

    blocked_verdict :
        (state : PanicState) (reason : Text) (profile : Profile Float) (device : Option Device)
        → parse times clock.utc tables.panic ≡ some state
        → state.active ≡ false
        → body.decision ≡ some (codes "block")
        → body.reason ≡ some reason
        → starts_with (codes "classifier:") reason ≡ true
        → verdict_on floats urls times sigs opa opa_url thresholds engine default_name clock body
            tables profile device
          ≡ ok (record { decision = block; reason = normal_reason reason })
    unfolding verdict_on pre_blocked
    blocked_verdict state reason profile device parsed off held given classified =
        rw (parsed, off, held, given, eqb_refl (codes "block"), classified) refl

    -- A block that the proxy reports with a reason that starts with "classifier:" is answered as a
    -- block, with that reason trimmed and without the classifier's name, where panic-relax is not
    -- active, a profile is found, the signing secret can be had, the writes are flushed, and the
    -- commit passes or meets a busy data base.
    pub post_decide-pre_blocked :
        (state : PanicState) (reason : Text) (profile : Profile Float) (key : Text × Settings)
        (commit : Commit)
        → parse times clock.utc tables.panic ≡ some state
        → state.active ≡ false
        → body.decision ≡ some (codes "block")
        → body.reason ≡ some reason
        → starts_with (codes "classifier:") reason ≡ true
        → profile_of default_name tables.profiles
            (resolve_device body.device_id body.client_ip body.device_mac tables.devices)
          ≡ some profile
        → ensure_secret fresh.secret tables.settings ≡ some key
        → commit ≢ failed
        → (response : DecideResponse) × ((run floats urls times sigs opa opa_url thresholds engine
              default_name clock fresh body tables commit).0
            ≡ ok response)
          × (response.decision ≡ block)
          × IsShortened reason response.reason
    unfolding post_decide
    post_decide-pre_blocked state reason profile key commit parsed off held given classified found
          made fine =
        let out : DecisionOutput = record { decision = block; reason = normal_reason reason } in
        let (response, tables', done, verdict, short) =
          prepared-ok profile out key found
            (λ device. blocked_verdict state reason profile device parsed off held given classified)
            made in
        (
          response,
          rw done (kept response tables' commit fine),
          verdict,
          rw short (normal_reason-IsShortened reason),
        )
