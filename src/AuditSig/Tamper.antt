-- ===== src/AuditSig/Tamper.antt =====
-- What a signature says of an audit row, and what it does not.
use see_no_evil.Prelude.{
  ap, ℕ, ◌+◌, ◌++◌, ◌∷◌, append_assoc, ◌≡◌, refl, inl, inr, true, Option, none, some, [],
  Option-cases, arith,
}
use see_no_evil.Text.{Text, truthy, is_ascii}
use see_no_evil.Text.Laws.{eqb_refl}
use see_no_evil.Text.Number.{pos, negsuc}
use see_no_evil.Auth.Bearer.{compare_digest_iff}
use see_no_evil.Models.{AuditDecision}
use see_no_evil.Auth.Settings.{Settings, get_setting, set_setting, get-set_setting}
use see_no_evil.AuditSig.{
  sig_key, Stamp, naive, aware, naive_utc, SigLib, usable, get_secret, ensured, ensure_secret,
  canonical, canonical_legacy, join, canonical_parts, str_of, thumb_hash, presence, decision_text,
  signed_as, sign_row, verify_row,
}

usable-truthy : (o : Option Text) (secret : Text) → usable o ≡ some secret → truthy secret ≡ true
usable-truthy none secret e = cc
usable-truthy (some s) secret e = ground arith

ensured-get_secret :
    (fresh secret : Text) (settings settings' : Settings)
    → truthy fresh ≡ true
    → ensure_secret fresh settings ≡ some (secret, settings')
    → get_secret settings' ≡ some secret
unfolding ensure_secret get_secret
ensured-get_secret fresh secret settings settings' made e =
    elim (Option-cases (get_setting sig_key settings)) [
      | inl lacking ↦
          let new : set_setting sig_key fresh settings ≡ settings' = ground arith in
          let same : fresh ≡ secret = ground arith in
          rw (← new, get-set_setting, eqb_refl sig_key, made, same) refl
      | inr (held, found) ↦ elim (Option-cases (usable (some held))) [
        | inl bad ↦ absurd (ground arith)
        | inr (s, good) ↦
            let same : settings ≡ settings' = ground arith in
            let same' : s ≡ secret = ground arith in rw (← same, found, good, same') refl
      ]
    ]

-- The time is that many microseconds of UTC.
abbrev pub HasUtc : Stamp → ℕ → Type 0
HasUtc (naive t) utc = t ≡ utc
HasUtc (aware t (pos east)) utc = t ≡ utc + east
HasUtc (aware t (negsuc n)) utc = t + (n + 1) ≡ utc

naive_utc-HasUtc : (ts : Stamp) (utc : ℕ) → HasUtc ts utc → naive_utc ts ≡ naive utc
naive_utc-HasUtc (naive t) utc h = ap naive h
naive_utc-HasUtc (aware t (pos east)) utc h = ap naive (omega (arith, h))
naive_utc-HasUtc (aware t (negsuc n)) utc h = ap naive h

moved :
    (a b c t : Text)
    → (a ++ (b'|' ∷ b)) ++ (b'|' ∷ (c ++ t)) ≡ a ++ (b'|' ∷ ((b ++ (b'|' ∷ c)) ++ t))
moved a b c t = rw (append_assoc, append_assoc) refl

pairs : {a a' b b' : Text} → a ≡ a' → b ≡ b' → ◌≡◌ {A = Text × Text} (a, b) (a', b')
pairs e e' = rw (e, e') refl

module _ {Float : Type 0} (lib : SigLib Float) where
  canonical-HasUtc :
      (ts : Stamp) (row : AuditDecision Float)
      → HasUtc ts row.ts
      → canonical lib ts row ≡ canonical lib (naive row.ts) row
  unfolding canonical
  canonical-HasUtc ts row h = rw (naive_utc-HasUtc ts row.ts h) refl

  -- A row that was signed with a time of any zone, naive or aware, and is read back with the same
  -- time as naive UTC, verifies under the secret that the settings then hold, where the digests are
  -- ASCII and not empty and a fresh secret is not empty.
  pub verify_row-sign_row :
      (fresh : Text) (ts : Stamp) (row signed : AuditDecision Float) (settings settings' : Settings)
      → ((secret message : Text)
          → (truthy (lib.hmac secret message) ≡ true) × (is_ascii (lib.hmac secret message) ≡ true))
      → HasUtc ts row.ts
      → truthy fresh ≡ true
      → sign_row lib fresh ts row settings ≡ some (signed, settings')
      → (secret : Text) × (get_secret settings' ≡ some secret)
        × (verify_row lib secret signed ≡ some true)
  unfolding sign_row verify_row canonical
  verify_row-sign_row fresh ts row signed settings settings' digest utc made e =
      elim (Option-cases (ensure_secret fresh settings)) [
        | inl failed ↦ absurd (ground arith)
        | inr ((secret, after), ensured) ↦
            let same : record row { signature = some (lib.hmac secret (canonical lib ts row)) }
                ≡ signed =
              ground arith in
            let same' : after ≡ settings' = ground arith in
            let (present, ascii) = digest secret (canonical lib (naive row.ts) row) in
            (
              secret,
              ensured-get_secret fresh secret settings settings' made (rw (← same') ensured),
              rw
                  (
                    ← same,
                    canonical-HasUtc ts row utc,
                    present,
                    (compare_digest_iff (lib.hmac secret (canonical lib (naive row.ts) row))
                          (lib.hmac secret (canonical lib (naive row.ts) row))).1
                        (refl, ascii),
                  )
                  refl,
            )
      ]

  -- The row with that URL and content type.
  abbrev pub with_texts : Text → Text → AuditDecision Float → AuditDecision Float
  with_texts url content_type row = record row { url = url; content_type = some content_type }

  join-moved :
      (ts : Stamp) (a b c last : Text) (row : AuditDecision Float)
      → join (canonical_parts lib ts (with_texts (a ++ (b'|' ∷ b)) c row) last)
        ≡ join (canonical_parts lib ts (with_texts a (b ++ (b'|' ∷ c)) row) last)
  unfolding join
  join-moved ts a b c last row =
      ap
        (λ s.
          lib.str row.id
          ++ (b'|'
              ∷ (lib.isoformat (naive_utc ts)
                  ++ (b'|'
                      ∷ (str_of lib row.device_id
                          ++ (b'|' ∷ (str_of lib row.profile_id ++ (b'|' ∷ s))))))))
        (moved a b c (
          b'|'
          ∷ join (
              decision_text row.decision
              ∷ row.reason
              ∷ lib.dumps row.classifier_scores
              ∷ last
              ∷ [])))

  -- The bar between the fields is not escaped: text behind a bar at the end of a row's URL can be
  -- moved to the front of its content type, and the verification answers as before.
  pub verify_row-moved :
      (secret a b c : Text) (row : AuditDecision Float)
      → verify_row lib secret (with_texts (a ++ (b'|' ∷ b)) c row)
        ≡ verify_row lib secret (with_texts a (b ++ (b'|' ∷ c)) row)
  unfolding verify_row canonical canonical_legacy
  verify_row-moved secret a b c row =
      ap (λ p. signed_as lib secret row.signature p.0 p.1)
        (pairs (join-moved (naive row.ts) a b c (thumb_hash lib row.thumbnail_b64) row)
          (join-moved (naive row.ts) a b c (presence lib row.thumbnail_b64) row))
