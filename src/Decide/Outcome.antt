-- ===== src/Decide/Outcome.antt =====
-- What `post_decide` records and answers.
use see_no_evil.Prelude.{
  ◌≡◌, refl, sym, ap, ◌≤◌, ◌⊎◌, inl, inr, true, false, ◌&&◌, Option, none, some, List, [], ◌∷◌,
  ◌++◌, length, ltb, Bool-cases, Option-cases, arith, append-nil,
}
use see_no_evil.Text.{Text, codes}
use see_no_evil.Http.{Reply, ok, http, Reply-cases}
use see_no_evil.Models.{Profile, Device, AuditDecision, QuarantineItem, pending}
use see_no_evil.Policy.Types.{Decision, allow, block, DecisionOutput, Dict}
use see_no_evil.Policy.Urls.{UrlLib}
use see_no_evil.Runtime.{FloatLib}
use see_no_evil.Opa.{OpaLib}
use see_no_evil.Auth.Settings.{Settings}
use see_no_evil.Text.Number.{pos}
use see_no_evil.AuditSig.{Stamp, aware, SigLib, ensure_secret, sign_row}
use see_no_evil.Panic.{TimeLib, PanicState, parse}
use see_no_evil.Decide.{
  max_thumbnail_b64, Clock, Fresh, Commit, committed, busy, failed, Storage, flushed,
  DecideResponse, DecideRequest, Tables, should_quarantine, bounded_thumbnail, is_block, held,
  audit_row, quarantine_row, respond, verdict_on, prepared, profile_of, device_step, after_commit,
  post_decide,
}
use see_no_evil.Decide.Devices.{resolve_device}

-- A stored preview is within the bound.
abbrev pub IsBounded : Option Text → Type 0
IsBounded none = Unit
IsBounded (some thumb) = length thumb ≤ max_thumbnail_b64

bounded_thumbnail-IsBounded : (o : Option Text) → IsBounded (bounded_thumbnail o)
unfolding bounded_thumbnail
bounded_thumbnail-IsBounded none = tt
bounded_thumbnail-IsBounded (some thumb) =
    elim (Bool-cases (ltb max_thumbnail_b64 (length thumb))) [
      | inl large ↦ rw large tt
      | inr fine ↦ rw fine (ground arith)
    ]

decision_of : Reply DecisionOutput → Decision
decision_of (ok out) = out.decision
decision_of (http code) = block

reason_of : Reply DecisionOutput → Text
reason_of (ok out) = out.reason
reason_of (http code) = []

module _ {Float : Type 0} where
  -- Signing fills in the signature alone.
  sign_row_same :
      (sigs : SigLib Float) (secret : Text) (stamp : Stamp) (row signed : AuditDecision Float)
      (settings settings' : Settings)
      → sign_row sigs secret stamp row settings ≡ some (signed, settings')
      → (s : Option Text) × (signed ≡ record row { signature = s })
  unfolding sign_row
  sign_row_same sigs secret stamp row signed settings settings' e =
      elim (Option-cases (ensure_secret secret settings)) [
        | inl bad ↦ absurd (ground arith)
        | inr ((key, after), made) ↦
            (_, sym (ap (λ o. elim o [ none ↦ row | some p ↦ p.0 ]) (rw made at e)))
      ]

  -- One row in the log of a decision, as it was answered.
  abbrev pub IsLogged : DecideRequest Float → DecideResponse → Tables Float → Tables Float → Type 0
  IsLogged body response tables tables' =
      (row : AuditDecision Float) × (tables'.audit ≡ tables.audit ++ (row ∷ []))
      × (row.url ≡ body.url)
      × (row.decision ≡ response.decision)
      × (row.reason ≡ response.reason)
      × (row.device_id ≡ response.device_id)
      × IsBounded row.thumbnail_b64

  -- An item for review exactly for what a classifier blocked in an image, a video or something
  -- of an unknown type.
  abbrev pub IsReviewed :
      DecideRequest Float → DecideResponse → Tables Float → Tables Float → Type 0
  IsReviewed body response tables tables' =
      ((item : QuarantineItem Float) × (tables'.quarantine ≡ tables.quarantine ++ (item ∷ []))
        × (item.status ≡ pending)
        × (item.reason ≡ response.reason)
        × (item.url ≡ body.url)
        × ((is_block response.decision && should_quarantine response.reason body.content_type)
            ≡ true))
      ⊎ ((tables'.quarantine ≡ tables.quarantine)
          × ((is_block response.decision && should_quarantine response.reason body.content_type)
              ≡ false))

  module _ (floats : FloatLib Float) (urls : UrlLib) (times : TimeLib) (sigs : SigLib Float)
      (opa : OpaLib Float) (opa_url : Text) (thresholds : Option (Dict Float))
      (engine default_name : Text) (clock : Clock) (fresh : Fresh) (body : DecideRequest Float)
      (tables : Tables Float) where
    after :
        Profile Float
        → Option Device × List Device
        → DecisionOutput
        → AuditDecision Float
        → Settings
        → Tables Float
    after profile step out row settings = record tables {
      devices = step.1;
      settings = settings;
      audit = tables.audit ++ (row ∷ []);
      quarantine = tables.quarantine ++ held clock.utc fresh body step.0 profile out;
    }

    rows_sound :
        (profile : Profile Float) (step : Option Device × List Device) (out : DecisionOutput)
        (row : AuditDecision Float) (settings : Settings)
        → sign_row sigs fresh.secret
            (aware clock.utc (pos 0))
            (audit_row clock.utc fresh body step.0 profile out)
            tables.settings
          ≡ some (row, settings)
        → IsLogged body (respond out step.0 profile) tables (after profile step out row settings)
          × IsReviewed body
              (respond out step.0 profile)
              tables
              (after profile step out row settings)
    unfolding after
    rows_sound profile step out row settings signed =
        let (s, filled) =
          sign_row_same sigs fresh.secret (aware clock.utc (pos 0))
            (audit_row clock.utc fresh body step.0 profile out) row tables.settings settings
            signed in
        (
          (
            row,
            refl,
            rw filled refl,
            rw filled refl,
            rw filled refl,
            rw filled refl,
            rw filled (bounded_thumbnail-IsBounded body.thumbnail_b64),
          ),
          elim (Bool-cases
              (is_block out.decision && should_quarantine out.reason body.content_type)) [
                | inl holds ↦ inl (
                  quarantine_row clock.utc fresh body step.0 profile out,
                  rw holds refl,
                  refl,
                  refl,
                  refl,
                  holds,
                )
                | inr fails ↦ inr (rw fails (append-nil tables.quarantine), fails)
              ],
        )

    -- A reply with a decision comes of a verdict on some profile, and of rows for it.
    pub prepared_sound :
        (response : DecideResponse) (tables' : Tables Float)
        → prepared floats urls times sigs opa opa_url thresholds engine default_name clock fresh
            body tables
          ≡ ok (response, tables')
        → (profile : Profile Float) × (step : Option Device × List Device) × (verdict_on floats urls
              times sigs opa opa_url thresholds engine default_name clock body tables profile step.0
            ≡ ok (record { decision = response.decision; reason = response.reason }))
          × IsLogged body response tables tables'
          × IsReviewed body response tables tables'
    unfolding prepared after
    prepared_sound response tables' e =
        let device = resolve_device body.device_id body.client_ip body.device_mac tables.devices in
        elim (Option-cases (profile_of default_name tables.profiles device)) [
          | inl lacking ↦ absurd (ground arith)
          | inr (profile, found) ↦
              let step =
                device_step clock.utc fresh.device_id body profile.id tables.devices device in
              elim (Reply-cases (
                verdict_on floats urls times sigs opa opa_url thresholds engine default_name clock
                  body tables profile step.0)) [
                    | inr (code, raised) ↦ absurd (ground arith)
                    | inl (out, given) ↦
                        elim (Option-cases (
                          sign_row sigs fresh.secret (aware clock.utc (pos 0))
                            (audit_row clock.utc fresh body step.0 profile out) tables.settings)) [
                              | inl raised ↦ absurd (ground arith)
                              | inr ((row, settings), signed) ↦
                                  let pair : (
                                    respond out step.0 profile,
                                    after profile step out row settings,
                                  )
                                      ≡ (response, tables') =
                                    ap (λ r. elim r [ ok p ↦ p | http c ↦ (response, tables') ])
                                      (rw (found, given, signed) at e) in
                                  let same : respond out step.0 profile ≡ response =
                                    ap (λ p. p.0) pair in
                                  let same' : after profile step out row settings ≡ tables' =
                                    ap (λ p. p.1) pair in
                                  let (logged, reviewed) =
                                    rows_sound profile step out row settings signed in
                                  rw (← same, ← same') (profile, step, given, logged, reviewed)
                            ]
                  ]
        ]

    committed_sound :
        (response : DecideResponse) (tables' : Tables Float)
        (r : Reply (DecideResponse × Tables Float))
        → after_commit floats urls times sigs opa opa_url thresholds engine default_name
            (flushed committed)
            tables
            r
          ≡ (ok response, tables')
        → r ≡ ok (response, tables')
    committed_sound response tables' (http code) e = absurd (ground (arith, ap (λ p. p.0) e))
    committed_sound response tables' (ok (response', tables'')) e = cc

    answered :
        (response : DecideResponse) (commit : Commit) (r : Reply (DecideResponse × Tables Float))
        → (after_commit floats urls times sigs opa opa_url thresholds engine default_name
            (flushed commit)
            tables
            r).0
          ≡ ok response
        → (tables' : Tables Float) × (r ≡ ok (response, tables'))
    answered response commit (http code) e = cc
    answered response committed (ok (response', tables')) e = (tables', cc)
    answered response busy (ok (response', tables')) e = (tables', cc)
    answered response failed (ok (response', tables')) e = cc

    abbrev pub run_on : Storage → Reply DecideResponse × Tables Float
    run_on storage =
        post_decide floats urls times sigs opa opa_url thresholds engine default_name storage clock
          fresh body tables

    abbrev pub run : Commit → Reply DecideResponse × Tables Float
    run commit = run_on (flushed commit)

    -- A decision that is answered and committed stands in the log, in one new row with the decision,
    -- the reason, the URL and the device of the answer and a preview within the bound; and an item is
    -- held for review exactly when a classifier blocked an image, a video or an unknown type.
    pub post_decide-IsLogged :
        (response : DecideResponse) (tables' : Tables Float)
        → run committed ≡ (ok response, tables')
        → IsLogged body response tables tables' × IsReviewed body response tables tables'
    unfolding post_decide
    post_decide-IsLogged response tables' e =
        let (profile, step, given, logged, reviewed) = prepared_sound response tables' (
          committed_sound response tables'
            (prepared floats urls times sigs opa opa_url thresholds engine default_name clock fresh
              body tables)
            e) in
        (logged, reviewed)

    -- While panic-relax is active every decision that is answered is an allow.
    pub post_decide-panic :
        (state : PanicState) (response : DecideResponse) (commit : Commit)
        → parse times clock.utc tables.panic ≡ some state
        → state.active ≡ true
        → (run commit).0 ≡ ok response
        → (response.decision ≡ allow) × (response.reason ≡ codes "panic_relax")
    unfolding post_decide verdict_on decision_of reason_of
    post_decide-panic state response commit parsed on e =
        let (tables', made) =
          answered response commit
            (prepared floats urls times sigs opa opa_url thresholds engine default_name clock fresh
              body tables)
            e in
        let (profile, step, given, logged, reviewed) = prepared_sound response tables' made in
        let out : ok (record { decision = allow; reason = codes "panic_relax" })
            ≡ ok (record { decision = response.decision; reason = response.reason }) =
          rw (parsed, on) at given in
        (sym (ap decision_of out), sym (ap reason_of out))
