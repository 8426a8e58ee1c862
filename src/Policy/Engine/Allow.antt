-- ===== src/Policy/Engine/Allow.antt =====
-- What an answer of `allow` has gone through.
use see_no_evil.Prelude.{
  ℕ, ◌<◌, ◌≡◌, refl, ◌≢◌, ◌⊎◌, inl, inr, Bool, true, false, not, ◌&&◌, ◌||◌, ◌++◌, if◌then◌else◌,
  Option, none, some, List, [], ◌∷◌, All, Some, Option-cases, Bool-cases, arith,
}
use see_no_evil.Text.{Text, codes, truthy, lower, strip, contains}
use see_no_evil.Text.Number.{ℤ, pos, negsuc}
use see_no_evil.Policy.Types.{
  Decision, block, allow, DecisionOutput, Dict, DecisionInput, ProfileView, GlobalRules,
}
use see_no_evil.Policy.Schedule.{in_schedule}
use see_no_evil.Policy.Domains.{host_matches, matched_pattern, match_any}
use see_no_evil.Policy.Domains.Subdomains.{matched_pattern_sound, matched_pattern-none}
use see_no_evil.Policy.Urls.{UrlLib, host_of, url_keyword_text, matched_keyword, keyword_in}
use see_no_evil.Policy.Engine.{
  answer, is_listed, Flow, done, raised, next, ◌⨾◌, finish, on_match, on_raising, listed, unlisted,
  when, schedule_rule, quota_is_spent, gate_rules, global_domain_rules, keyword_rules,
  deny_domain_rules, later_rules, decide,
}

-- The rule ends in `allow`, or lets the later rules decide.
abbrev Allows : Flow → Type 0
Allows (done out) = out.decision ≡ allow
Allows raised = ⊥
Allows next = Unit

abbrev OnlyBlocks : Flow → Type 0
OnlyBlocks (done out) = out.decision ≡ block
OnlyBlocks _ = Unit

abbrev pub IsAllow : Option DecisionOutput → Type 0
IsAllow none = ⊥
IsAllow (some out) = out.decision ≡ allow

finish-Allows : (f : Flow) → IsAllow (finish f) → Allows f
finish-Allows (done out) h = h
finish-Allows raised h = h
finish-Allows next h = tt

-- A rule that cannot allow has passed on.
passed : (a b : Flow) → OnlyBlocks a → Allows (a ⨾ b) → (a ≡ next) × Allows b
passed (done out) b o h = cc (o, h)
passed raised b o h = absurd h
passed next b o h = (refl, h)

passed_in :
    (a b rest : Flow) → OnlyBlocks a → Allows ((a ⨾ b) ⨾ rest) → (a ≡ next) × Allows (b ⨾ rest)
passed_in (done out) b rest o h = cc (o, h)
passed_in raised b rest o h = absurd h
passed_in next b rest o h = (refl, h)

allowed_or_passed :
    (b c rest : Flow) → OnlyBlocks c → Allows ((b ⨾ c) ⨾ rest) → (b ≢ next) ⊎ Allows rest
allowed_or_passed (done out) c rest o h = inl (λ e. cc)
allowed_or_passed raised c rest o h = absurd h
allowed_or_passed next c rest o h = inr (passed c rest o h).1

OnlyBlocks-when : (t : Bool) (f : Flow) → OnlyBlocks f → OnlyBlocks (when t f)
OnlyBlocks-when true f h = h
OnlyBlocks-when false f h = tt

OnlyBlocks-on_match : (label : Text) (o : Option Text) → OnlyBlocks (on_match block label o)
OnlyBlocks-on_match label none = tt
OnlyBlocks-on_match label (some []) = tt
OnlyBlocks-on_match label (some (c ∷ m)) = refl

OnlyBlocks-on_raising :
    (label : Text) (o : Option (Option Text)) → OnlyBlocks (on_raising block label o)
OnlyBlocks-on_raising label none = tt
OnlyBlocks-on_raising label (some o) = OnlyBlocks-on_match label o

OnlyBlocks-listed :
    (label : Text) (ps : List Text) (host : Text) → OnlyBlocks (listed block label ps host)
unfolding listed
OnlyBlocks-listed label ps [] = tt
OnlyBlocks-listed label ps (c ∷ host) = OnlyBlocks-on_match label (matched_pattern ps (c ∷ host))

-- The statement holds, or its switch is off.
abbrev pub IfOn : Bool → Type 0 → Type 0
IfOn switch P = (switch ≡ false) ⊎ P

IfOn-intro : (switch : Bool) (P : Type 0) → (switch ≡ true → P) → IfOn switch P
IfOn-intro true P h = inr (h refl)
IfOn-intro false P h = inl refl

-- No pattern of the list matches the host.
abbrev pub NoDomain : List Text → Text → Type 0
NoDomain patterns host = All (λ p. host_matches p host ≡ false) patterns

-- Trimmed and lowered, every keyword is empty or absent from the text.
abbrev pub NoKeyword : List Text → Text → Type 0
NoKeyword keywords text =
    All (λ k. (lower (strip k) ≡ []) ⊎ (contains (lower (strip k)) text ≡ false)) keywords

on_match-next :
    (d : Decision) (label : Text) (o : Option Text)
    → ((m : Text) → o ≡ some m → m ≢ [])
    → on_match d label o ≡ next
    → o ≡ none
on_match-next d label none given e = refl
on_match-next d label (some []) given e = absurd (given [] refl refl)
on_match-next d label (some (c ∷ m)) given e = cc

listed-next :
    (d : Decision) (label : Text) (ps : List Text) (host : Text)
    → truthy host ≡ true
    → listed d label ps host ≡ next
    → NoDomain ps host
unfolding listed
listed-next d label ps [] t e = cc
listed-next d label ps (c ∷ host) t e = matched_pattern-none ps (c ∷ host) (
    on_match-next d label (matched_pattern ps (c ∷ host))
      (λ m found. (matched_pattern_sound ps (c ∷ host) found).1) e)

OnlyBlocks-unlisted :
    (label : Text) (enforce : Bool) (ps : List Text) (host : Text)
    → OnlyBlocks (unlisted label enforce ps host)
unfolding unlisted
OnlyBlocks-unlisted label enforce ps host =
    OnlyBlocks-when (enforce && is_listed ps && (not (truthy host) || not (match_any ps host)))
      (answer block (label ++ (if truthy host then host else codes "unknown"))) refl

Some-fst : {A : Type 0} (P Q : A → Type 0) (xs : List A) → Some (λ x. P x × Q x) xs → Some P xs
Some-fst P Q [] h = h
Some-fst P Q (x ∷ xs) (inl h) = inl h.0
Some-fst P Q (x ∷ xs) (inr h) = inr (Some-fst P Q xs h)

listed-ne-next :
    (d : Decision) (label : Text) (ps : List Text) (host : Text)
    → listed d label ps host ≢ next
    → Some (λ p. host_matches p host ≡ true) ps
unfolding listed
listed-ne-next d label ps [] h = absurd (h refl)
listed-ne-next d label ps (c ∷ host) h = elim (Option-cases (matched_pattern ps (c ∷ host))) [
  | inl missed ↦ absurd (h (rw missed refl))
  | inr (m, found) ↦ Some-fst _ _ ps (matched_pattern_sound ps (c ∷ host) found).0
]

keyword_missed :
    (kw text : Text)
    → (truthy kw && contains kw text) ≡ false
    → (kw ≡ []) ⊎ (contains kw text ≡ false)
keyword_missed [] text e = inl refl
keyword_missed (c ∷ kw) text e = inr e

keyword_in-next :
    (label : Text) (ks : List Text) (text : Text)
    → on_match block label (keyword_in ks text) ≡ next
    → NoKeyword ks text
unfolding keyword_in
keyword_in-next label [] text e = tt
keyword_in-next label (k ∷ ks) text e =
    elim (Bool-cases (truthy (lower (strip k)) && contains (lower (strip k)) text)) [
      | inl hit ↦ absurd (ground arith)
      | inr miss ↦
          (keyword_missed (lower (strip k)) text miss, keyword_in-next label ks text (rw miss at e))
    ]

when-next : (t : Bool) (f : Flow) → when t f ≡ next → t ≡ true → f ≡ next
when-next true f e h = e
when-next false f e h = cc

next-⨾ : (a b : Flow) → (a ⨾ b) ≡ next → (a ≡ next) × (b ≡ next)
next-⨾ (done out) b e = cc
next-⨾ raised b e = cc
next-⨾ next b e = (refl, e)

gate_passed :
    (panic spent : Bool) (o : Option Bool) (rest : Flow)
    → panic ≡ false
    → Allows (
        (when panic (answer allow (codes "panic_relax"))
          ⨾ schedule_rule o
          ⨾ when spent (answer block (codes "quota")))
        ⨾ rest)
    → (o ≡ some true) × (spent ≡ false) × Allows rest
gate_passed true spent o rest calm h = cc
gate_passed false spent none rest calm h = absurd h
gate_passed false true (some true) rest calm h = cc
gate_passed false false (some true) rest calm h = (refl, refl, h)
gate_passed false spent (some false) rest calm h = cc

-- No quota is set, by 0 or a negative number, or fewer minutes are used.
abbrev pub IsWithin : ℤ → ℕ → Type 0
IsWithin (pos quota) used = (quota ≡ 0) ⊎ (used < quota)
IsWithin (negsuc n) used = Unit

pub minutes_left : (quota : ℤ) (used : ℕ) → quota_is_spent quota used ≡ false → IsWithin quota used
minutes_left (pos quota) used e = grind arith
minutes_left (negsuc n) used e = tt

pub IsWithin-unspent :
    (quota : ℤ) (used : ℕ) → IsWithin quota used → quota_is_spent quota used ≡ false
IsWithin-unspent (pos quota) used h = ground (arith, h)
IsWithin-unspent (negsuc n) used h = refl

module _ {Float : Type 0} (at_least : Float → Float → Bool) (lib : UrlLib)
    (config : Option (Dict Float)) (profile : ProfileView Float)
    (inputs : DecisionInput Float) where
  gate-Allows :
      (rest : Flow)
      → inputs.panic_relax ≡ false
      → Allows (gate_rules at_least lib config profile inputs ⨾ rest)
      → (in_schedule profile.schedule inputs.now_dow inputs.now_time ≡ some true)
        × IsWithin profile.quota_minutes_per_day inputs.minutes_used_today
        × Allows rest
  unfolding gate_rules
  gate-Allows rest calm h =
      let (open_now, left, later) = gate_passed inputs.panic_relax _ _ rest calm h in
      (open_now, minutes_left profile.quota_minutes_per_day inputs.minutes_used_today left, later)

  module _ (rules : GlobalRules Float) (host : Text) where
    -- The global allow list has a pattern for the host, and is applied.
    abbrev pub IsGloballyAllowed : Type 0
    IsGloballyAllowed =
        (rules.apply_domain_rules ≡ true)
        × Some (λ p. host_matches p host ≡ true) rules.allow_domains

    global-Allows :
        (rest : Flow)
        → truthy host ≡ true
        → Allows (global_domain_rules at_least lib config profile inputs rules host ⨾ rest)
        → IfOn rules.apply_domain_rules (NoDomain rules.deny_domains host)
          × (IsGloballyAllowed ⊎ Allows rest)
    unfolding global_domain_rules
    global-Allows rest t h = elim (Bool-cases rules.apply_domain_rules) [
      | inr skipped ↦ (inl skipped, inr (rw skipped at h))
      | inl on ↦
          let (denied, h') =
            passed_in (listed block (codes "global_deny_domain:") rules.deny_domains host) _ rest
              (OnlyBlocks-listed (codes "global_deny_domain:") rules.deny_domains host)
              (rw on at h) in
          (
            inr (listed-next block (codes "global_deny_domain:") rules.deny_domains host t denied),
            elim (allowed_or_passed
                (listed allow (codes "global_allow_domain:") rules.allow_domains host) _ rest
                (OnlyBlocks-unlisted (codes "global_not_in_allowlist:") rules.enforce_allowlist
                  rules.allow_domains host)
                h') [
                  | inl hit ↦ inl (
                    on,
                    listed-ne-next allow (codes "global_allow_domain:") rules.allow_domains host
                        hit,
                  )
                  | inr later ↦ inr later
                ],
          )
    ]

    -- No applied deny list of keywords or of the profile's domains speaks against the request.
    abbrev pub IsNotDenied : Text → Type 0
    IsNotDenied text =
        IfOn rules.apply_url_rules
          (NoKeyword rules.deny_url_keywords text × NoKeyword profile.deny_url_keywords text)
        × IfOn rules.apply_domain_rules (NoDomain profile.deny_domains host)

    OnlyBlocks-keyword_rules :
        (label : Text) (ks : List Text)
        → OnlyBlocks (keyword_rules at_least lib config profile inputs rules host label ks)
    unfolding keyword_rules
    OnlyBlocks-keyword_rules label ks =
        OnlyBlocks-when rules.apply_url_rules _
          (OnlyBlocks-on_raising label (matched_keyword lib ks inputs.url))

    OnlyBlocks-deny_domain_rules :
        OnlyBlocks (deny_domain_rules at_least lib config profile inputs rules host)
    unfolding deny_domain_rules
    OnlyBlocks-deny_domain_rules =
        OnlyBlocks-when rules.apply_domain_rules _
          (OnlyBlocks-listed (codes "deny_domain:") profile.deny_domains host)

    keyword_rules-next :
        (text : Text)
        → url_keyword_text lib inputs.url ≡ some text
        → (label : Text) (ks : List Text) → rules.apply_url_rules ≡ true
        → keyword_rules at_least lib config profile inputs rules host label ks ≡ next
        → NoKeyword ks text
    unfolding keyword_rules matched_keyword
    keyword_rules-next text read label ks on e = keyword_in-next label ks text (rw (on, read) at e)

    deny_domain_rules-next :
        truthy host ≡ true
        → rules.apply_domain_rules ≡ true
        → deny_domain_rules at_least lib config profile inputs rules host ≡ next
        → NoDomain profile.deny_domains host
    unfolding deny_domain_rules
    deny_domain_rules-next t on e =
        listed-next block (codes "deny_domain:") profile.deny_domains host t (rw on at e)

    later-Allows :
        (text : Text)
        → truthy host ≡ true
        → url_keyword_text lib inputs.url ≡ some text
        → Allows (later_rules at_least lib config profile inputs rules host)
        → IsNotDenied text
    unfolding later_rules
    later-Allows text t read h =
        let (k, h₁) = passed _ _ (OnlyBlocks-keyword_rules _ rules.deny_url_keywords) h in
        let (d, h₂) = passed _ _ OnlyBlocks-deny_domain_rules h₁ in
        let (k', h₃) = passed _ _ (OnlyBlocks-keyword_rules _ profile.deny_url_keywords) h₂ in
        (
          IfOn-intro rules.apply_url_rules _ (λ on. (
            keyword_rules-next text read (codes "global_deny_keyword:") rules.deny_url_keywords on
                k,
            keyword_rules-next text read (codes "deny_keyword:") profile.deny_url_keywords on k',
          )),
          IfOn-intro rules.apply_domain_rules _ (λ on. deny_domain_rules-next t on d),
        )

  -- With given rules, a URL that names a host and panic-relax off, an answer of `allow` means: the
  -- schedule check admits the time; no quota above 0 is set, or fewer minutes are used; where
  -- `apply_domain_rules` is on, no globally denied pattern matches the host. And either that switch
  -- is on and a globally allowed pattern matches the host; or, where `apply_url_rules` is on, no
  -- denied keyword, global or of the profile, is in the URL's text, and, where `apply_domain_rules`
  -- is on, no pattern that the profile denies matches the host.
  pub decide-IsAllow :
      (rules : GlobalRules Float) (host text : Text)
      → inputs.panic_relax ≡ false
      → host_of lib inputs.url ≡ some host
      → truthy host ≡ true
      → url_keyword_text lib inputs.url ≡ some text
      → IsAllow (decide at_least lib config profile inputs (some rules))
      → (in_schedule profile.schedule inputs.now_dow inputs.now_time ≡ some true)
        × IsWithin profile.quota_minutes_per_day inputs.minutes_used_today
        × IfOn rules.apply_domain_rules (NoDomain rules.deny_domains host)
        × (IsGloballyAllowed rules host ⊎ IsNotDenied rules host text)
  unfolding decide
  decide-IsAllow rules host text calm host_read t read h =
      let (open_now, left, h₁) = gate-Allows _ calm (finish-Allows _ h) in
      let (not_global, rest) = global-Allows rules host _ t (rw host_read at h₁) in
      (
        open_now,
        left,
        not_global,
        elim rest [
          | inl hit ↦ inl hit
          | inr later ↦ inr (later-Allows rules host text t read later)
        ],
      )
