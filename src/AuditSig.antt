-- ===== src/AuditSig.antt =====
-- The signatures of audit rows, services/api/src/seenoevil_api/audit_sig.py. The hashes, the text of
-- numbers and times and the JSON of the scores are parameters. A row that is signed has an aware
-- time, which stands beside it; a row that is read back has a naive one, its `ts`. What a flush that
-- fails does is in Decide.
pub mod Tamper
mod Tests
use see_no_evil.Prelude.{
  ℕ, ◌+◌, ◌-◌, ◌≡◌, ◌≢◌, Bool, true, false, ◌||◌, Option, none, some, List, [], ◌∷◌, ◌++◌,
  if◌then◌else◌,
}
use see_no_evil.Text.{Text, codes, truthy, compare_digest}
use see_no_evil.Text.Number.{ℤ, pos, negsuc}
use see_no_evil.Models.{AuditDecision}
use see_no_evil.Policy.Types.{Dict, Decision, allow, block}
use see_no_evil.Auth.Settings.{Settings, get_setting, set_setting}

abbrev pub sig_key : Text
sig_key = codes "audit.hmac_secret"

-- A `datetime`, in microseconds: naive, or aware with the offset of its time zone east of UTC.
pub data Stamp : Type 0 where
  naive : ℕ → Stamp
  aware : ℕ → ℤ → Stamp

-- `ts.astimezone(UTC).replace(tzinfo=None)` of an aware time.
abbrev pub naive_utc : Stamp → Stamp
naive_utc (naive t) = naive t
naive_utc (aware t (pos east)) = naive (t - east)
naive_utc (aware t (negsuc n)) = naive (t + (n + 1))

-- What the module calls. `dumps` sorts the keys; `sha256` and `hmac` return hexadecimal digests.
pub record SigLib (Float : Type 0) : Type 0 where
  pub str : ℕ → Text
  pub isoformat : Stamp → Text
  pub dumps : Dict Float → Text
  pub sha256 : Text → Text
  pub hmac : Text → Text → Text

abbrev pub decision_text : Decision → Text
decision_text allow = codes "allow"
decision_text block = codes "block"

abbrev pub text_or_empty : Option Text → Text
text_or_empty none = []
text_or_empty (some s) = s

-- `"|".join(parts)`.
unfoldable pub join : List Text → Text
join [] = []
join (part ∷ []) = part
join (part ∷ more ∷ parts) = part ++ (b'|' ∷ join (more ∷ parts))

abbrev pub usable : Option Text → Option Text
usable none = none
usable (some secret) = if truthy secret then some secret else none

unfoldable pub get_secret : Settings → Option Text
get_secret settings = usable (get_setting sig_key settings)

-- A row whose value is no usable text is in the way of the new one: the second flush raises.
abbrev pub ensured : Text → Settings → Option Text → Option Text → Option (Text × Settings)
ensured fresh settings (some secret) row = some (secret, settings)
ensured fresh settings none none = some (fresh, set_setting sig_key fresh settings)
ensured fresh settings none (some unusable) = none

-- `fresh` is the digest of random bytes that the function would make; `none` is an exception.
unfoldable pub ensure_secret : Text → Settings → Option (Text × Settings)
unfolding get_secret
ensure_secret fresh settings =
    ensured fresh settings (get_secret settings) (get_setting sig_key settings)

module _ {Float : Type 0} (lib : SigLib Float) where
  -- `str(…)` of an optional id.
  abbrev pub str_of : Option ℕ → Text
  str_of none = codes "None"
  str_of (some n) = lib.str n

  abbrev pub thumb_hash : Option Text → Text
  thumb_hash none = []
  thumb_hash (some thumb) = if truthy thumb then lib.sha256 thumb else []

  abbrev pub presence : Option Text → Text
  presence none = codes "0"
  presence (some thumb) = if truthy thumb then codes "1" else codes "0"

  -- The parts that both canonical texts begin with.
  abbrev pub canonical_parts : Stamp → AuditDecision Float → Text → List Text
  canonical_parts ts row last =
      lib.str row.id
      ∷ lib.isoformat (naive_utc ts)
      ∷ str_of row.device_id
      ∷ str_of row.profile_id
      ∷ row.url
      ∷ text_or_empty row.content_type
      ∷ decision_text row.decision
      ∷ row.reason
      ∷ lib.dumps row.classifier_scores
      ∷ last
      ∷ []

  unfoldable pub canonical : Stamp → AuditDecision Float → Text
  unfolding join
  canonical ts row = join (canonical_parts ts row (thumb_hash row.thumbnail_b64))

  unfoldable pub canonical_legacy : Stamp → AuditDecision Float → Text
  unfolding join
  canonical_legacy ts row = join (canonical_parts ts row (presence row.thumbnail_b64))

  abbrev pub signed_with :
      Stamp
      → AuditDecision Float
      → Option (Text × Settings)
      → Option (AuditDecision Float × Settings)
  signed_with ts row none = none
  signed_with ts row (some (secret, settings)) =
      some (record row { signature = some (lib.hmac secret (canonical ts row)) }, settings)

  -- `ts` is the time of the row in the session.
  unfoldable pub sign_row :
      Text → Stamp → AuditDecision Float → Settings → Option (AuditDecision Float × Settings)
  unfolding canonical
  sign_row fresh ts row settings = signed_with ts row (ensure_secret fresh settings)

  -- The older form is compared where the new one differs.
  abbrev pub or_legacy : Option Bool → Option Bool → Option Bool
  or_legacy none legacy = none
  or_legacy (some same) legacy = if same then some true else legacy

  -- Of the signature and the two canonical texts.
  abbrev pub signed_as : Text → Option Text → Text → Text → Option Bool
  signed_as secret none text legacy = some false
  signed_as secret (some signature) text legacy =
      if truthy signature
      then or_legacy (compare_digest (lib.hmac secret text) signature)
          (compare_digest (lib.hmac secret legacy) signature)
      else some false

  -- `none` is the `TypeError` of a comparison.
  unfoldable pub verify_row : Text → AuditDecision Float → Option Bool
  unfolding canonical canonical_legacy compare_digest
  verify_row secret row =
      signed_as secret row.signature (canonical (naive row.ts) row)
        (canonical_legacy (naive row.ts) row)
