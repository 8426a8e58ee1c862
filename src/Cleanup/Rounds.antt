-- ===== src/Cleanup/Rounds.antt =====
-- A batched delete comes to its end, by its rounds, in Cleanup.
use see_no_evil.Prelude.{
  ℕ, zero, suc, ◌+◌, ◌≡◌, ◌≢◌, refl, ap, ◌∙◌, ◌<◌, inl, inr, Bool, false, some, List, [], ◌∷◌,
  length, Bool-cases, arith, length-keep, All, ◌==◌,
}
use see_no_evil.Cleanup.{
  Attempt, went, busy, Run, finished, raised, is_none, batch, batched, batched_all,
}
use see_no_evil.Cleanup.Batches.{
  HasDistinctIds, stale_count, fresh, EndsWell, Ends, after_round, Ends_here, Ends_later,
  batched_went, batched_nil,
}

module _ {Row : Type 0} (key : Row → ℕ) (is_stale : Row → Bool) where
  later :
      (total n : ℕ) (attempts attempts' : List Attempt) (rows rows' : List Row) (run : Run Row)
      → (attempts' ≢ [] → attempts ≢ [])
      → stale_count key is_stale rows' + n ≡ stale_count key is_stale rows
      → fresh key is_stale rows' ≡ fresh key is_stale rows
      → EndsWell key is_stale (total + n) attempts' rows' run
      → EndsWell key is_stale total attempts rows run
  later total n attempts attempts' rows rows' (finished m last rest) some_left counts same (e, f) =
      (omega (arith, e, counts), f ∙ same)
  later total n attempts attempts' rows rows' (raised last rest) some_left counts same
        (left, f, d, h) =
      (some_left left, f ∙ same, d, omega (arith, h, counts))

  batched-Ends :
      (fuel total : ℕ) (attempts : List Attempt) (rows : List Row)
      → HasDistinctIds key rows
      → stale_count key is_stale rows < fuel
      → Ends key is_stale total attempts rows (batched key is_stale fuel total attempts rows)
  batched-Ends zero total attempts rows d h = absurd (omega arith)
  batched-Ends (suc fuel) total (busy ∷ attempts) rows d h =
      (raised rows attempts, unfold batched in refl, ((λ e. cc), refl, d, omega arith))
  batched-Ends (suc fuel) total (went ∷ attempts) rows d h =
      elim (Bool-cases (is_none key is_stale (batch key is_stale 1000 rows))) [
        | inl empty ↦ (
          finished total rows attempts,
          batched_went key is_stale fuel total attempts rows ∙ rw empty refl,
          Ends_here key is_stale total (went ∷ attempts) rows d empty,
        )
        | inr more ↦
            let (counts, fewer, same, d') = Ends_later key is_stale total attempts rows d more in
            let (run, e, ends) =
              batched-Ends fuel (total + length (batch key is_stale 1000 rows)) attempts
                (after_round key is_stale rows) d' (omega (arith, fewer, h)) in
            (
              run,
              batched_went key is_stale fuel total attempts rows ∙ rw more e,
              later total (length (batch key is_stale 1000 rows)) (went ∷ attempts) attempts rows
                  (after_round key is_stale rows) run (λ left f. cc) counts same ends,
            )
      ]
  batched-Ends (suc fuel) total [] rows d h =
      elim (Bool-cases (is_none key is_stale (batch key is_stale 1000 rows))) [
        | inl empty ↦ (
          finished total rows [],
          batched_nil key is_stale fuel total rows ∙ rw empty refl,
          Ends_here key is_stale total [] rows d empty,
        )
        | inr more ↦
            let (counts, fewer, same, d') = Ends_later key is_stale total [] rows d more in
            let (run, e, ends) =
              batched-Ends fuel (total + length (batch key is_stale 1000 rows)) []
                (after_round key is_stale rows) d' (omega (arith, fewer, h)) in
            (
              run,
              batched_nil key is_stale fuel total rows ∙ rw more e,
              later total (length (batch key is_stale 1000 rows)) [] [] rows
                  (after_round key is_stale rows) run (λ left. left) counts same ends,
            )
      ]

  pub batched_all-Ends :
      (attempts : List Attempt) (rows : List Row)
      → HasDistinctIds key rows
      → Ends key is_stale 0 attempts rows (batched_all key is_stale attempts rows)
  unfolding batched_all
  batched_all-Ends attempts rows d =
      batched-Ends (suc (length rows)) 0 attempts rows d (omega (arith, length-keep is_stale rows))

module _ {Row : Type 0} (key : Row → ℕ) (is_stale : Row → Bool) where
  All-fresh :
      (k : ℕ) (rows : List Row)
      → All (λ s. (k == key s) ≡ false) rows
      → All (λ s. (k == key s) ≡ false) (fresh key is_stale rows)
  All-fresh k [] h = tt
  All-fresh k (r ∷ rows) (far, h) = elim (Bool-cases (is_stale r)) [
    | inl stale ↦ rw stale (All-fresh k rows h)
    | inr fine ↦ rw fine (far, All-fresh k rows h)
  ]

  fresh-HasDistinctIds :
      (rows : List Row) → HasDistinctIds key rows → HasDistinctIds key (fresh key is_stale rows)
  fresh-HasDistinctIds [] d = tt
  fresh-HasDistinctIds (r ∷ rows) (absent, d) = elim (Bool-cases (is_stale r)) [
    | inl stale ↦ rw stale (fresh-HasDistinctIds rows d)
    | inr fine ↦ rw fine (All-fresh (key r) rows absent, fresh-HasDistinctIds rows d)
  ]

  fresh_idem :
      (rows : List Row) → fresh key is_stale (fresh key is_stale rows) ≡ fresh key is_stale rows
  fresh_idem [] = refl
  fresh_idem (r ∷ rows) = elim (Bool-cases (is_stale r)) [
    | inl stale ↦ rw stale (fresh_idem rows)
    | inr fine ↦ rw (fine, fine) (ap (λ l. r ∷ l) (fresh_idem rows))
  ]

  -- The rows that a delete leaves hold all that is not stale, under distinct ids.
  abbrev pub Holds : List Row → List Row → Type 0
  Holds rows₀ rows = (fresh key is_stale rows ≡ fresh key is_stale rows₀) × HasDistinctIds key rows

  abbrev pub rows_of : Run Row → List Row
  rows_of (finished n rows attempts) = rows
  rows_of (raised rows attempts) = rows

  EndsWell-Holds :
      (rows₀ rows : List Row) (attempts : List Attempt) (run : Run Row)
      → Holds rows₀ rows
      → EndsWell key is_stale 0 attempts rows run
      → Holds rows₀ (rows_of run)
  EndsWell-Holds rows₀ rows attempts (finished n rows' left) (same, d) (counted, kept) =
      rw kept (fresh_idem rows ∙ same, fresh-HasDistinctIds rows d)
  EndsWell-Holds rows₀ rows attempts (raised rows' left) (same, d) (some_left, kept, d', fewer) =
      (kept ∙ same, d')

  -- Every run that starts from such rows ends with such rows.
  pub batched_all-Holds :
      (rows₀ : List Row) (attempts : List Attempt) (rows : List Row)
      → Holds rows₀ rows
      → (run : Run Row) × (batched_all key is_stale attempts rows ≡ some run)
        × Holds rows₀ (rows_of run)
  batched_all-Holds rows₀ attempts rows h =
      let (run, e, ends) = batched_all-Ends key is_stale attempts rows h.1 in
      (run, e, EndsWell-Holds rows₀ rows attempts run h ends)
