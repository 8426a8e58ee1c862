-- ===== src/Auth/Csrf.antt =====
-- The double-submit check `verify_csrf` of auth.py. A header or a cookie that is missing is `none`;
-- header names have no case, so that the second spelling of the token's header adds nothing.
use see_no_evil.Prelude.{
  ◌≡◌, refl, sym, ◌∙◌, ◌↔◌, inl, inr, Bool, true, false, not, ◌&&◌, ◌||◌, Option, none, some, [],
  ◌∷◌, if◌then◌else◌, Bool-cases, arith,
}
use see_no_evil.Text.{Text, codes, lower, starts_with, member, is_ascii, compare_digest}
use see_no_evil.Http.{Reply, ok, http}
use see_no_evil.Auth.Settings.{given}
use see_no_evil.Auth.Bearer.{text_of, compared, compared_sound, compare_digest_iff}

pub record Request : Type 0 where
  pub method : Text
  pub path : Text
  pub authorization : Text
  pub session_cookie : Option Text
  pub csrf_cookie : Option Text
  pub csrf_header : Option Text

-- The value of `SEENOEVIL_DISABLE_CSRF` switches the check off.
abbrev pub csrf_is_disabled : Text → Bool
csrf_is_disabled value = member (lower value) (codes "1" ∷ codes "true" ∷ codes "yes" ∷ [])

abbrev pub changes_state : Text → Bool
changes_state method =
    member method (codes "POST" ∷ codes "PUT" ∷ codes "DELETE" ∷ codes "PATCH" ∷ [])

abbrev pub is_exempt_path : Text → Bool
is_exempt_path path =
    starts_with (codes "/v1/auth/login") path
    || starts_with (codes "/v1/auth/setup") path
    || starts_with (codes "/v1/auth/oidc") path

abbrev pub is_bearer_call : Request → Bool
is_bearer_call r = starts_with (codes "Bearer ") r.authorization && not (given r.session_cookie)

abbrev pub has_no_tokens : Request → Bool
has_no_tokens r =
    not (given r.csrf_cookie) && not (given r.csrf_header) && not (given r.session_cookie)

unfoldable pub verify_csrf : Text → Request → Reply (Unit {0})
verify_csrf env r =
    if csrf_is_disabled env
    then ok tt
    else if not (changes_state r.method)
    then ok tt
    else if is_bearer_call r
    then ok tt
    else if is_exempt_path r.path
    then ok tt
    else if has_no_tokens r
    then ok tt
    else if not (given r.csrf_cookie) || not (given r.csrf_header)
    then http 403
    else compared tt 403 (compare_digest (text_of r.csrf_cookie) (text_of r.csrf_header))

given_text : (o : Option Text) → given o ≡ true → o ≡ some (text_of o)
given_text none h = cc
given_text (some s) h = refl

both_given :
    (a b : Option Text) → given a ≡ true → a ≡ b → (given b ≡ true) × (text_of a ≡ text_of b)
both_given a b h e = (rw (← e) h, rw e refl)

-- With the check not switched off by its environment variable, a request that changes state, carries
-- a session cookie and goes to no exempt path passes exactly when its token cookie is not empty and
-- ASCII, and its token header is the same text; a bearer header makes no difference.
pub verify_csrf_iff :
    (env : Text) (r : Request)
    → csrf_is_disabled env ≡ false
    → changes_state r.method ≡ true
    → given r.session_cookie ≡ true
    → is_exempt_path r.path ≡ false
    → (verify_csrf env r ≡ ok tt) ↔ (
        (given r.csrf_cookie ≡ true)
        × (r.csrf_cookie ≡ r.csrf_header)
        × (is_ascii (text_of r.csrf_cookie) ≡ true))
unfolding verify_csrf
verify_csrf_iff env r on changing session path =
    let bearer : is_bearer_call r ≡ false = rw session (ground arith) in
    let tokens : has_no_tokens r ≡ false = rw session (ground arith) in
    let digest = compare_digest_iff (text_of r.csrf_cookie) (text_of r.csrf_header) in
    rw (on, changing, bearer, path, tokens)
      (elim (Bool-cases (not (given r.csrf_cookie) || not (given r.csrf_header))) [
        | inl lacking ↦ rw lacking (
          λ e. absurd (ground arith),
          λ k. absurd (ground (arith, both_given r.csrf_cookie r.csrf_header k.0 k.1)),
        )
        | inr full ↦
            let c : given r.csrf_cookie ≡ true = ground arith in
            let h : given r.csrf_header ≡ true = ground arith in
            rw full (
              λ e.
                  (let (same, ascii) = digest.0 (compared_sound tt tt 403 _ e) in
                    (
                      c,
                      given_text r.csrf_cookie c ∙ (rw same (sym (given_text r.csrf_header h))),
                      ascii,
                    )),
              λ k. rw (digest.1 ((both_given r.csrf_cookie r.csrf_header k.0 k.1).1, k.2)) refl,
            )
      ])
