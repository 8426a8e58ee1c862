-- ===== src/Cleanup/Exact.antt =====
-- What a clean-up removes where nothing is in its way, in Cleanup.
use see_no_evil.Prelude.{
  ℕ, zero, suc, ◌+◌, ◌*◌, ◌≡◌, refl, ap, ◌∙◌, inl, inr, Bool, some, List, [], length, Bool-cases,
  arith,
}
use see_no_evil.Text.Number.{pos}
use see_no_evil.Models.{AuditDecision, QuarantineItem}
use see_no_evil.Cleanup.{
  Attempt, Run, finished, raised, is_none, batch, batched, batched_all, day, audit_id, item_id,
  is_old, is_spent, cleanup_expired,
}
use see_no_evil.Cleanup.Batches.{
  HasDistinctIds, stale_count, fresh, EndsWell, after_round, batched_nil,
}
use see_no_evil.Cleanup.Rounds.{batched_all-Ends}

module _ {Row : Type 0} (key : Row → ℕ) (is_stale : Row → Bool) where
  abbrev attempts_of : Run Row → List Attempt
  attempts_of (finished n rows attempts) = attempts
  attempts_of (raised rows attempts) = attempts

  batched_attempts :
      (fuel total : ℕ) (rows : List Row) (run : Run Row)
      → batched key is_stale fuel total [] rows ≡ some run
      → attempts_of run ≡ []
  batched_attempts zero total rows run e = absurd (unfold batched in ground arith)
  batched_attempts (suc fuel) total rows run e =
      elim (Bool-cases (is_none key is_stale (batch key is_stale 1000 rows))) [
        | inl empty ↦
            let same : finished total rows [] ≡ run =
              ground (arith, batched_nil key is_stale fuel total rows) in
            rw (← same) refl
        | inr more ↦
            batched_attempts fuel (total + length (batch key is_stale 1000 rows))
              (after_round key is_stale rows) run
              (rw (batched_nil key is_stale fuel total rows, more) at e)
      ]

  -- With nothing in its way a delete counts and removes all that is stale.
  exact :
      (rows : List Row) (run : Run Row)
      → EndsWell key is_stale 0 [] rows run
      → attempts_of run ≡ []
      → run ≡ finished (stale_count key is_stale rows) (fresh key is_stale rows) []
  exact rows (finished n rows' left) (counted, kept) none_left =
      let same : n ≡ stale_count key is_stale rows = omega (arith, counted) in
      rw (kept, same, none_left) refl
  exact rows (raised rows' left) (some_left, kept, d', fewer) none_left = absurd (some_left refl)

  batched_all_exact :
      (rows : List Row)
      → HasDistinctIds key rows
      → batched_all key is_stale [] rows
        ≡ some (finished (stale_count key is_stale rows) (fresh key is_stale rows) [])
  batched_all_exact rows d =
      let (run, e, ends) = batched_all-Ends key is_stale [] rows d in
      e
      ∙ ap some (
          exact rows run ends
            (batched_attempts (suc (length rows)) 0 rows run (unfold batched_all in e)))

module _ {Float : Type 0} (now days : ℕ) (audit : List (AuditDecision Float))
    (items : List (QuarantineItem Float)) (audit_distinct : HasDistinctIds audit_id audit)
    (items_distinct : HasDistinctIds item_id items) where
  -- Where no attempt meets a busy data base, exactly the rows older than the retention and the items
  -- resolved before it are gone, the rest keeps its order, and the counts are theirs.
  pub cleanup_expired-fresh :
      cleanup_expired now (pos (suc days)) [] audit items
      ≡ some (record {
        audit_deleted = stale_count audit_id (is_old now (suc days * day)) audit;
        quarantine_deleted = stale_count item_id (is_spent now (suc days * day)) items;
        audit = fresh audit_id (is_old now (suc days * day)) audit;
        quarantine = fresh item_id (is_spent now (suc days * day)) items;
      })
  unfolding cleanup_expired
  cleanup_expired-fresh =
      rw
        (
          batched_all_exact audit_id (is_old now (suc days * day)) audit audit_distinct,
          batched_all_exact item_id (is_spent now (suc days * day)) items items_distinct,
        )
        refl
