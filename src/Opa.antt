-- ===== src/Opa.antt =====
-- The adapter for the OPA sidecar, services/api/src/seenoevil_api/policy_opa.py. The module's copies
-- of the URL helpers are the same code as those of policy.py. The HTTP client and `str` of a JSON
-- value are parameters.
use see_no_evil.Prelude.{ℕ, ◌/◌, ◌≡◌, Bool, Option, none, some, [], ◌++◌, leb, if◌then◌else◌}
use see_no_evil.Text.{Text, codes, eqb, rstrip}
use see_no_evil.Json.{Json, text, obj, get}
use see_no_evil.Policy.Types.{
  Dict, allow, block, DecisionOutput, DecisionInput, ProfileView, GlobalRules, default_rules,
}
use see_no_evil.Policy.Urls.{
  UrlLib, host_of, path_query_of, url_keyword_text, is_youtube_host, extract_youtube_channel,
}

infixl 5 ◌>>=◌
abbrev pub ◌>>=◌ : {A B : Type 0} → Option A → (A → Option B) → Option B
none >>= k = none
some a >>= k = k a

-- Whole minutes of a time of day.
abbrev pub time_to_minutes : ℕ → ℕ
time_to_minutes t = t / 60000000

abbrev pub channel_if_youtube : UrlLib → Text → Text → Option (Option Text)
channel_if_youtube urls host url =
    if is_youtube_host host then extract_youtube_channel urls url else some none

module _ (Float : Type 0) where
  -- The document that is posted as `input`.
  pub record OpaInput : Type 0 where
    pub url : Text
    pub host : Text
    pub path_query : Text
    pub url_text : Text
    pub youtube_channel : Option Text
    pub classifier_scores : Dict Float
    pub now_dow : ℕ
    pub now_time_minutes : ℕ
    pub minutes_used_today : ℕ
    pub panic_relax : Bool
    pub profile : ProfileView Float
    pub global_rules : GlobalRules Float
    pub config_thresholds : Dict Float

  -- `post` gives the status and the body, `none` if it is no JSON; the outer `none` is an exception.
  pub record OpaLib : Type 0 where
    pub post : Text → OpaInput → Option (ℕ × Option (Json Float))
    pub str : Json Float → Text
    pub str-text : (s : Text) → str (text s) ≡ s

module _ {Float : Type 0} where
  abbrev pub rules_or_default : Option (GlobalRules Float) → GlobalRules Float
  rules_or_default none = default_rules
  rules_or_default (some rules) = rules

  abbrev pub config_or_empty : Option (Dict Float) → Dict Float
  config_or_empty none = []
  config_or_empty (some thresholds) = thresholds

  module _ (urls : UrlLib) where
    -- `none` is the `ValueError` of `urlparse`.
    unfoldable pub build_opa_input :
        Option (Dict Float)
        → ProfileView Float
        → DecisionInput Float
        → Option (GlobalRules Float)
        → Option (OpaInput Float)
    build_opa_input config profile inputs rules = do
      host ← host_of urls inputs.url
      path_query ← path_query_of urls inputs.url
      url_text ← url_keyword_text urls inputs.url
      channel ← channel_if_youtube urls host inputs.url
      some (record {
        url = inputs.url;
        host = host;
        path_query = path_query;
        url_text = url_text;
        youtube_channel = channel;
        classifier_scores = inputs.classifier_scores;
        now_dow = inputs.now_dow;
        now_time_minutes = time_to_minutes inputs.now_time;
        minutes_used_today = inputs.minutes_used_today;
        panic_relax = inputs.panic_relax;
        profile = profile;
        global_rules = rules_or_default rules;
        config_thresholds = config_or_empty config;
      })

  module _ (opa : OpaLib Float) where
    -- `str(result.get(key, ""))`.
    abbrev pub str_or_empty : Option (Json Float) → Text
    str_or_empty none = []
    str_or_empty (some v) = opa.str v

    abbrev pub checked : Text → Text → Option DecisionOutput
    checked decision reason =
        if eqb decision (codes "allow")
        then some (record { decision = allow; reason = reason })
        else if eqb decision (codes "block")
        then some (record { decision = block; reason = reason })
        else none

    -- The `result` of the reply: an object, else an error.
    abbrev pub of_result : Option (Json Float) → Option DecisionOutput
    of_result (some (obj fs)) =
        checked (str_or_empty (get (codes "decision") fs)) (str_or_empty (get (codes "reason") fs))
    of_result _ = none

    abbrev pub of_body : Option (Json Float) → Option DecisionOutput
    of_body (some (obj fs)) = of_result (get (codes "result") fs)
    of_body _ = none

    abbrev pub of_reply : Option (ℕ × Option (Json Float)) → Option DecisionOutput
    of_reply none = none
    of_reply (some (status, body)) = if leb 400 status then none else of_body body

    unfoldable pub opa_decide : Text → OpaInput Float → Option DecisionOutput
    unfolding rstrip
    opa_decide opa_url input =
        of_reply
          (opa.post (rstrip b'/' opa_url ++ codes "/v1/data/seenoevil/policy/decision") input)

  -- What post_decide makes of the two; `none` is any exception on the way.
  unfoldable pub ask_sidecar :
      UrlLib
      → OpaLib Float
      → Text
      → Option (Dict Float)
      → ProfileView Float
      → DecisionInput Float
      → Option (GlobalRules Float)
      → Option DecisionOutput
  unfolding build_opa_input opa_decide
  ask_sidecar urls opa opa_url config view inputs rules = do
    r ← rules
    input ← build_opa_input urls config view inputs (some r)
    opa_decide opa opa_url input
