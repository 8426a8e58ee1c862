-- ===== src/Cleanup/Tests.antt =====
-- A clean-up at small tables.
use see_no_evil.Prelude.{ℕ, ◌≡◌, refl, Option, none, some, List, [], ◌∷◌, ◌*◌}
use see_no_evil.Text.{codes}
use see_no_evil.Text.Number.{pos}
use see_no_evil.Policy.Types.{allow}
use see_no_evil.Models.{Status, pending, allowed, AuditDecision, QuarantineItem}
use see_no_evil.Cleanup.{
  went, busy, day, Cleaned, audit_id, item_id, is_old, is_spent, cleanup_expired,
}
use see_no_evil.Cleanup.Batches.{stale_count, fresh}
use see_no_evil.Cleanup.Kept.{IsKept, cleanup_expired-IsKept}
use see_no_evil.Cleanup.Exact.{cleanup_expired-fresh}

abbrev row : ℕ → ℕ → AuditDecision ℕ
row id ts = record {
  id = id;
  ts = ts;
  device_id = none;
  profile_id = none;
  url = codes "http://example.org/x";
  content_type = none;
  decision = allow;
  reason = codes "default";
  classifier_scores = [];
  thumbnail_b64 = none;
  signature = none;
}

abbrev item : ℕ → Status → Option ℕ → QuarantineItem ℕ
item id status resolved_at = record {
  id = id;
  ts = 5;
  device_id = none;
  profile_id = none;
  url = codes "http://example.org/x";
  content_type = none;
  reason = codes "classifier:porn";
  classifier_scores = [];
  thumbnail_b64 = none;
  status = status;
  resolved_at = resolved_at;
  resolved_by = none;
  flag_note = none;
  flagged_by = none;
  flagged_at = none;
}

abbrev rows : List (AuditDecision ℕ)
rows = row 1 0 ∷ row 2 (9 * day) ∷ []

abbrev items : List (QuarantineItem ℕ)
items = item 1 pending none ∷ item 2 allowed (some 7) ∷ []

cleanup_expired-IsKept_example :
    (c : Cleaned ℕ) × (cleanup_expired (10 * day) (pos 7) (went ∷ busy ∷ []) rows items ≡ some c)
    × IsKept (10 * day) (7 * day) rows items c
cleanup_expired-IsKept_example =
    cleanup_expired-IsKept (10 * day) 6 rows items ((refl, tt), (tt, tt)) ((refl, tt), (tt, tt))
      (went ∷ busy ∷ [])

cleanup_expired-fresh_example :
    cleanup_expired (10 * day) (pos 7) [] rows items
    ≡ some (record {
      audit_deleted = stale_count audit_id (is_old (10 * day) (7 * day)) rows;
      quarantine_deleted = stale_count item_id (is_spent (10 * day) (7 * day)) items;
      audit = fresh audit_id (is_old (10 * day) (7 * day)) rows;
      quarantine = fresh item_id (is_spent (10 * day) (7 * day)) items;
    })
cleanup_expired-fresh_example =
    cleanup_expired-fresh (10 * day) 6 rows items ((refl, tt), (tt, tt)) ((refl, tt), (tt, tt))
