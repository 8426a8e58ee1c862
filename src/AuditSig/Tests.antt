-- ===== src/AuditSig/Tests.antt =====
-- Signed rows of a small log.
use see_no_evil.Prelude.{ℕ, ◌+◌, ◌%◌, ◌++◌, arith, ◌≡◌, refl, true, none, some, [], ◌∷◌}
use see_no_evil.Text.{Text, codes, is_ascii, lookup}
use see_no_evil.Text.Number.{pos}
use see_no_evil.Models.{AuditDecision}
use see_no_evil.Policy.Types.{block}
use see_no_evil.Auth.Settings.{Settings, get_setting, set_setting}
use see_no_evil.AuditSig.{naive, aware, SigLib, get_secret, ensure_secret, sign_row, verify_row}
use see_no_evil.AuditSig.Tamper.{with_texts, verify_row-sign_row, verify_row-moved}

abbrev row : AuditDecision ℕ
row = record {
  id = 4;
  ts = 100;
  device_id = some 2;
  profile_id = none;
  url = codes "http://example.org/x";
  content_type = none;
  decision = block;
  reason = codes "quota";
  classifier_scores = [];
  thumbnail_b64 = none;
  signature = none;
}

hexed : Text → Text
hexed [] = []
hexed (c ∷ s) = (97 + c % 6) ∷ hexed s

is_ascii-hexed : (s : Text) → is_ascii (hexed s) ≡ true
unfolding hexed is_ascii
is_ascii-hexed [] = refl
is_ascii-hexed (c ∷ s) = ground (arith, is_ascii-hexed s)

abbrev clear_sigs : SigLib ℕ
clear_sigs = record {
  str = λ n. n ∷ [];
  isoformat = elim [ naive t ↦ t ∷ [] | aware t east ↦ t ∷ b'+' ∷ [] ];
  dumps = λ scores. [];
  sha256 = λ s. s;
  hmac = λ secret message. 35 ∷ hexed message;
}

verify_row-sign_row_example :
    (signed : AuditDecision ℕ) × (settings : Settings) × (sign_row clear_sigs
        (codes "k")
        (aware 107 (pos 7))
        row
        []
      ≡ some (signed, settings))
    × ((secret : Text) × (get_secret settings ≡ some secret)
        × (verify_row clear_sigs secret signed ≡ some true))
unfolding sign_row ensure_secret get_secret get_setting set_setting lookup is_ascii
verify_row-sign_row_example = (
  _,
  _,
  refl,
  verify_row-sign_row clear_sigs (codes "k") (aware 107 (pos 7)) row _ [] _
      (λ secret message. (refl, is_ascii-hexed message)) refl refl refl,
)

verify_row-moved_example :
    verify_row clear_sigs
      (codes "k")
      (with_texts clear_sigs (codes "http://x/a" ++ (b'|' ∷ codes "b")) (codes "c") row)
    ≡ verify_row clear_sigs
        (codes "k")
        (with_texts clear_sigs (codes "http://x/a") (codes "b" ++ (b'|' ∷ codes "c")) row)
verify_row-moved_example =
    verify_row-moved clear_sigs (codes "k") (codes "http://x/a") (codes "b") (codes "c") row
