-- ===== src/Cleanup.antt =====
-- Retention, services/api/src/seenoevil_api/cleanup.py. Each round of a batched delete meets an
-- attempt of the data base, which goes through or raises `OperationalError`; when the list of attempts
-- is used up, all go through.
pub mod Batches
pub mod Rounds
pub mod Kept
pub mod Exact
mod Tests
use see_no_evil.Prelude.{
  ℕ, zero, suc, ◌+◌, ◌*◌, Bool, true, false, not, ◌&&◌, Option, none, some, List, [], ◌∷◌, keep,
  any, length, ltb, ◌==◌, if◌then◌else◌,
}
use see_no_evil.Text.Number.{ℤ, pos, negsuc}
use see_no_evil.Models.{AuditDecision, QuarantineItem}
use see_no_evil.Quarantine.{is_pending}

pub data Attempt : Type 0 where
  went busy : Attempt

-- One day.
abbrev pub day : ℕ
day = 86400000000

-- A batched delete is finished, with its count, or `OperationalError` left it; with the rows and the
-- attempts that remain.
pub data Run (Row : Type 0) : Type 0 where
  finished : ℕ → List Row → List Attempt → Run Row
  raised : List Row → List Attempt → Run Row

module _ {Row : Type 0} (key : Row → ℕ) (is_stale : Row → Bool) where
  -- `select(Model.id).where(…).limit(n)`.
  unfoldable pub batch : ℕ → List Row → List ℕ
  batch zero rows = []
  batch (suc n) [] = []
  batch (suc n) (r ∷ rows) = elim (is_stale r) [
    | true ↦ key r ∷ batch n rows
    | false ↦ batch (suc n) rows
  ]

  -- `delete(Model).where(Model.id.in_(ids))`.
  unfoldable pub delete_ids : List ℕ → List Row → List Row
  delete_ids ids rows = keep (λ r. not (any (λ id. id == key r) ids)) rows

  abbrev pub is_none : List ℕ → Bool
  is_none [] = true
  is_none (id ∷ ids) = false

  -- `while True:` with fuel; `none` means that the fuel ran out.
  unfoldable pub batched : ℕ → ℕ → List Attempt → List Row → Option (Run Row)
  unfolding batch delete_ids
  batched zero total attempts rows = none
  batched (suc fuel) total (busy ∷ attempts) rows = some (raised rows attempts)
  batched (suc fuel) total (went ∷ attempts) rows =
      let ids = batch 1000 rows in
      let rest = batched fuel (total + length ids) attempts (delete_ids ids rows) in
      if is_none ids then some (finished total rows attempts) else rest
  batched (suc fuel) total [] rows =
      let ids = batch 1000 rows in
      let rest = batched fuel (total + length ids) [] (delete_ids ids rows) in
      if is_none ids then some (finished total rows []) else rest

  -- With fuel for one row in each round.
  unfoldable pub batched_all : List Attempt → List Row → Option (Run Row)
  unfolding batched
  batched_all attempts rows = batched (suc (length rows)) 0 attempts rows

abbrev pub resolved_before : ℕ → ℕ → Option ℕ → Bool
resolved_before now retention none = false
resolved_before now retention (some t) = ltb (t + retention) now

-- The counts that are returned, and the two tables.
pub record Cleaned (Float : Type 0) : Type 0 where
  pub audit_deleted : ℕ
  pub quarantine_deleted : ℕ
  pub audit : List (AuditDecision Float)
  pub quarantine : List (QuarantineItem Float)

module _ {Float : Type 0} where
  abbrev pub audit_id : AuditDecision Float → ℕ
  audit_id a = a.id

  abbrev pub item_id : QuarantineItem Float → ℕ
  item_id i = i.id

  -- `ts < now - retention`.
  abbrev pub is_old : ℕ → ℕ → AuditDecision Float → Bool
  is_old now retention a = ltb (a.ts + retention) now

  abbrev pub is_spent : ℕ → ℕ → QuarantineItem Float → Bool
  is_spent now retention i =
      not (is_pending i.status) && resolved_before now retention i.resolved_at

  module _ (now retention : ℕ) where
    -- The second try, after the counts that stand already.
    abbrev pub retry_quarantine :
        ℕ
        → List (AuditDecision Float)
        → List (QuarantineItem Float)
        → Option (Run (QuarantineItem Float))
        → Option (Cleaned Float)
    retry_quarantine n audit items none = none
    retry_quarantine n audit items (some (finished m items' attempts)) =
        some
          (record { audit_deleted = n; quarantine_deleted = m; audit = audit; quarantine = items' })
    retry_quarantine n audit items (some (raised items' attempts)) =
        some
          (record { audit_deleted = n; quarantine_deleted = 0; audit = audit; quarantine = items' })

    abbrev pub retry_audit :
        ℕ
        → List (QuarantineItem Float)
        → Option (Run (AuditDecision Float))
        → Option (Cleaned Float)
    retry_audit n items none = none
    retry_audit n items (some (finished m audit attempts)) =
        retry_quarantine (n + m) audit items
          (batched_all item_id (is_spent now retention) attempts items)
    retry_audit n items (some (raised audit attempts)) =
        some
          (record { audit_deleted = n; quarantine_deleted = 0; audit = audit; quarantine = items })

    abbrev pub retry :
        ℕ
        → List Attempt
        → List (AuditDecision Float)
        → List (QuarantineItem Float)
        → Option (Cleaned Float)
    retry n attempts audit items =
        retry_audit n items (batched_all audit_id (is_old now retention) attempts audit)

    -- The first try; a count is kept only when its delete is finished.
    abbrev pub then_quarantine :
        ℕ
        → List (AuditDecision Float)
        → Option (Run (QuarantineItem Float))
        → Option (Cleaned Float)
    then_quarantine n audit none = none
    then_quarantine n audit (some (finished m items attempts)) =
        some
          (record { audit_deleted = n; quarantine_deleted = m; audit = audit; quarantine = items })
    then_quarantine n audit (some (raised items attempts)) = retry n attempts audit items

    abbrev pub then_audit :
        List (QuarantineItem Float) → Option (Run (AuditDecision Float)) → Option (Cleaned Float)
    then_audit items none = none
    then_audit items (some (finished n audit attempts)) =
        then_quarantine n audit (batched_all item_id (is_spent now retention) attempts items)
    then_audit items (some (raised audit attempts)) = retry 0 attempts audit items

  unfoldable pub cleanup_expired :
      ℕ
      → ℤ
      → List Attempt
      → List (AuditDecision Float)
      → List (QuarantineItem Float)
      → Option (Cleaned Float)
  unfolding batched_all
  cleanup_expired now (negsuc n) attempts audit items =
      some (record { audit_deleted = 0; quarantine_deleted = 0; audit = audit; quarantine = items })
  cleanup_expired now (pos zero) attempts audit items =
      some (record { audit_deleted = 0; quarantine_deleted = 0; audit = audit; quarantine = items })
  cleanup_expired now (pos (suc days)) attempts audit items =
      then_audit now (suc days * day) items
        (batched_all audit_id (is_old now (suc days * day)) attempts audit)
