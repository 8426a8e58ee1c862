-- ===== src/Cleanup/Kept.antt =====
-- What a clean-up keeps, over both tries, in Cleanup.
use see_no_evil.Prelude.{ℕ, suc, ◌+◌, ◌*◌, ◌≡◌, refl, Option, some, List}
use see_no_evil.Text.Number.{pos}
use see_no_evil.Models.{AuditDecision, QuarantineItem}
use see_no_evil.Cleanup.{
  Attempt, Run, finished, raised, day, audit_id, item_id, is_old, is_spent, Cleaned,
  retry_quarantine, retry_audit, retry, then_quarantine, then_audit, cleanup_expired,
}
use see_no_evil.Cleanup.Batches.{HasDistinctIds, fresh}
use see_no_evil.Cleanup.Rounds.{Holds, rows_of, batched_all-Holds}

module _ {Float : Type 0} (now retention : ℕ) (audit₀ : List (AuditDecision Float))
    (items₀ : List (QuarantineItem Float)) where
  -- All rows that are not stale are there.
  abbrev pub IsKept : Cleaned Float → Type 0
  IsKept c =
      (fresh audit_id (is_old now retention) c.audit ≡ fresh audit_id (is_old now retention) audit₀)
      × (fresh item_id (is_spent now retention) c.quarantine
          ≡ fresh item_id (is_spent now retention) items₀)

  abbrev Kept : Option (Cleaned Float) → Type 0
  Kept o = (c : Cleaned Float) × (o ≡ some c) × IsKept c

  abbrev HoldsAudit : List (AuditDecision Float) → Type 0
  HoldsAudit = Holds audit_id (is_old now retention) audit₀

  abbrev HoldsItems : List (QuarantineItem Float) → Type 0
  HoldsItems = Holds item_id (is_spent now retention) items₀

  retry_quarantine-Kept :
      (n : ℕ) (audit : List (AuditDecision Float)) (items : List (QuarantineItem Float))
      (run : Run (QuarantineItem Float))
      → HoldsAudit audit
      → HoldsItems (rows_of item_id (is_spent now retention) run)
      → Kept (retry_quarantine now retention n audit items (some run))
  retry_quarantine-Kept n audit items (finished m items' left) a i = (_, refl, (a.0, i.0))
  retry_quarantine-Kept n audit items (raised items' left) a i = (_, refl, (a.0, i.0))

  retry_audit-Kept :
      (n : ℕ) (items : List (QuarantineItem Float)) (run : Run (AuditDecision Float))
      → HoldsAudit (rows_of audit_id (is_old now retention) run)
      → HoldsItems items
      → Kept (retry_audit now retention n items (some run))
  retry_audit-Kept n items (raised audit left) a i = (_, refl, (a.0, i.0))
  retry_audit-Kept n items (finished m audit left) a i =
      let (run, e, i') = batched_all-Holds item_id (is_spent now retention) items₀ left items i in
      rw e (retry_quarantine-Kept (n + m) audit items run a i')

  retry-Kept :
      (n : ℕ) (attempts : List Attempt) (audit : List (AuditDecision Float))
      (items : List (QuarantineItem Float))
      → HoldsAudit audit
      → HoldsItems items
      → Kept (retry now retention n attempts audit items)
  retry-Kept n attempts audit items a i =
      let (run, e, a') =
        batched_all-Holds audit_id (is_old now retention) audit₀ attempts audit a in
      rw e (retry_audit-Kept n items run a' i)

  then_quarantine-Kept :
      (n : ℕ) (audit : List (AuditDecision Float)) (run : Run (QuarantineItem Float))
      → HoldsAudit audit
      → HoldsItems (rows_of item_id (is_spent now retention) run)
      → Kept (then_quarantine now retention n audit (some run))
  then_quarantine-Kept n audit (finished m items left) a i = (_, refl, (a.0, i.0))
  then_quarantine-Kept n audit (raised items left) a i = retry-Kept n left audit items a i

  then_audit-Kept :
      (items : List (QuarantineItem Float)) (run : Run (AuditDecision Float))
      → HoldsAudit (rows_of audit_id (is_old now retention) run)
      → HoldsItems items
      → Kept (then_audit now retention items (some run))
  then_audit-Kept items (raised audit left) a i = retry-Kept 0 left audit items a i
  then_audit-Kept items (finished n audit left) a i =
      let (run, e, i') = batched_all-Holds item_id (is_spent now retention) items₀ left items i in
      rw e (then_quarantine-Kept n audit run a i')

module _ {Float : Type 0} (now days : ℕ) (audit : List (AuditDecision Float))
    (items : List (QuarantineItem Float)) (audit_distinct : HasDistinctIds audit_id audit)
    (items_distinct : HasDistinctIds item_id items) where
  -- Whichever attempts meet a busy data base, a clean-up comes to its end and leaves, in their order,
  -- all audit rows younger than the retention and all items that are pending or were resolved within
  -- it.
  pub cleanup_expired-IsKept :
      (attempts : List Attempt)
      → (c : Cleaned Float) × (cleanup_expired now (pos (suc days)) attempts audit items ≡ some c)
        × IsKept now (suc days * day) audit items c
  unfolding cleanup_expired
  cleanup_expired-IsKept attempts =
      let (run, e, a) =
        batched_all-Holds audit_id (is_old now (suc days * day)) audit attempts audit
          (refl, audit_distinct) in
      rw e (then_audit-Kept now (suc days * day) audit items items run a (refl, items_distinct))
