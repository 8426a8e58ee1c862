-- ===== src/Cleanup/Batches.antt =====
-- A batched delete removes what is stale and nothing else, in enough rounds.
use see_no_evil.Prelude.{
  ℕ, zero, suc, ◌+◌, ◌≡◌, ◌≢◌, refl, sym, ap, ◌∙◌, ◌≤◌, ◌<◌, inl, inr, Bool, true, false, not,
  Option, some, List, [], ◌∷◌, keep, any, length, ◌==◌, ==_iff, if◌then◌else◌, Bool-cases, arith,
  All,
}
use see_no_evil.Cleanup.{Attempt, went, Run, finished, raised, batch, delete_ids, is_none, batched}

module _ {Row : Type 0} (key : Row → ℕ) where
  -- No two rows have one id.
  abbrev pub HasDistinctIds : List Row → Type 0
  HasDistinctIds [] = Unit
  HasDistinctIds (r ∷ rows) = All (λ s. (key r == key s) ≡ false) rows × HasDistinctIds rows

module _ {Row : Type 0} (key : Row → ℕ) (is_stale : Row → Bool) where
  -- The first n stale rows taken out.
  drop_stale : ℕ → List Row → List Row
  drop_stale zero rows = rows
  drop_stale (suc n) [] = []
  drop_stale (suc n) (r ∷ rows) = elim (is_stale r) [
    | true ↦ drop_stale n rows
    | false ↦ r ∷ drop_stale (suc n) rows
  ]

  -- How many rows are stale.
  abbrev pub stale_count : List Row → ℕ
  stale_count rows = length (keep is_stale rows)

  abbrev pub fresh : List Row → List Row
  fresh rows = keep (λ r. not (is_stale r)) rows

  absent-batch :
      (n : ℕ) (k : ℕ) (rows : List Row)
      → All (λ s. (k == key s) ≡ false) rows
      → any (λ id. id == k) (batch key is_stale n rows) ≡ false
  unfolding batch
  absent-batch zero k rows h = refl
  absent-batch (suc n) k [] h = refl
  absent-batch (suc n) k (r ∷ rows) (far, h) = elim (Bool-cases (is_stale r)) [
    | inl stale ↦ rw (stale, batch) (ground (arith, absent-batch n k rows h))
    | inr fine ↦ rw (fine, batch) (absent-batch (suc n) k rows h)
  ]

  delete_ids-cons :
      (k : ℕ) (ids : List ℕ) (rows : List Row)
      → All (λ s. (k == key s) ≡ false) rows
      → delete_ids key is_stale (k ∷ ids) rows ≡ delete_ids key is_stale ids rows
  unfolding delete_ids
  delete_ids-cons k ids [] h = refl
  delete_ids-cons k ids (r ∷ rows) (far, h) =
      rw far (elim (Bool-cases (any (λ id. id == key r) ids)) [
        | inl out ↦ rw out (delete_ids-cons k ids rows h)
        | inr kept ↦ rw kept (ap (λ l. r ∷ l) (delete_ids-cons k ids rows h))
      ])

  delete_ids_nil : (rows : List Row) → delete_ids key is_stale [] rows ≡ rows
  unfolding delete_ids
  delete_ids_nil [] = refl
  delete_ids_nil (r ∷ rows) = ap (λ l. r ∷ l) (delete_ids_nil rows)

  batch_stale :
      (n : ℕ) (r : Row) (rows : List Row)
      → is_stale r ≡ true
      → batch key is_stale (suc n) (r ∷ rows) ≡ key r ∷ batch key is_stale n rows
  unfolding batch
  batch_stale n r rows stale = rw (stale, batch) refl

  batch_fresh :
      (n : ℕ) (r : Row) (rows : List Row)
      → is_stale r ≡ false
      → batch key is_stale (suc n) (r ∷ rows) ≡ batch key is_stale (suc n) rows
  unfolding batch
  batch_fresh n r rows fine = rw (fine, batch) refl

  drop_stale_stale :
      (n : ℕ) (r : Row) (rows : List Row)
      → is_stale r ≡ true
      → drop_stale (suc n) (r ∷ rows) ≡ drop_stale n rows
  unfolding drop_stale
  drop_stale_stale n r rows stale = rw (stale, drop_stale) refl

  drop_stale_fresh :
      (n : ℕ) (r : Row) (rows : List Row)
      → is_stale r ≡ false
      → drop_stale (suc n) (r ∷ rows) ≡ r ∷ drop_stale (suc n) rows
  unfolding drop_stale
  drop_stale_fresh n r rows fine = rw (fine, drop_stale) refl

  delete_ids_out :
      (ids : List ℕ) (r : Row) (rows : List Row)
      → any (λ id. id == key r) ids ≡ true
      → delete_ids key is_stale ids (r ∷ rows) ≡ delete_ids key is_stale ids rows
  unfolding delete_ids
  delete_ids_out ids r rows out = rw out refl

  delete_ids_kept :
      (ids : List ℕ) (r : Row) (rows : List Row)
      → any (λ id. id == key r) ids ≡ false
      → delete_ids key is_stale ids (r ∷ rows) ≡ r ∷ delete_ids key is_stale ids rows
  unfolding delete_ids
  delete_ids_kept ids r rows kept = rw kept refl

  delete_ids-batch :
      (n : ℕ) (rows : List Row)
      → HasDistinctIds key rows
      → delete_ids key is_stale (batch key is_stale n rows) rows ≡ drop_stale n rows
  delete_ids-batch zero rows d = unfold batch drop_stale in delete_ids_nil rows
  delete_ids-batch (suc n) [] d = unfold delete_ids drop_stale in refl
  delete_ids-batch (suc n) (r ∷ rows) (absent, d) = elim (Bool-cases (is_stale r)) [
    | inl stale ↦
        let self : any (λ id. id == key r) (key r ∷ batch key is_stale n rows) ≡ true =
          rw ((==_iff (key r) (key r)).1 refl) refl in
        ap (λ ids. delete_ids key is_stale ids (r ∷ rows)) (batch_stale n r rows stale)
        ∙ (delete_ids_out (key r ∷ batch key is_stale n rows) r rows self
            ∙ (delete_ids-cons (key r) (batch key is_stale n rows) rows absent
                ∙ (delete_ids-batch n rows d ∙ sym (drop_stale_stale n r rows stale))))
    | inr fine ↦
        ap (λ ids. delete_ids key is_stale ids (r ∷ rows)) (batch_fresh n r rows fine)
        ∙ (delete_ids_kept (batch key is_stale (suc n) rows) r rows
              (absent-batch (suc n) (key r) rows absent)
            ∙ (ap (λ l. r ∷ l) (delete_ids-batch (suc n) rows d)
                ∙ sym (drop_stale_fresh n r rows fine)))
  ]

  fresh-drop_stale : (n : ℕ) (rows : List Row) → fresh (drop_stale n rows) ≡ fresh rows
  unfolding drop_stale
  fresh-drop_stale zero rows = refl
  fresh-drop_stale (suc n) [] = refl
  fresh-drop_stale (suc n) (r ∷ rows) = elim (Bool-cases (is_stale r)) [
    | inl stale ↦ rw (stale, drop_stale) (fresh-drop_stale n rows)
    | inr fine ↦ rw (fine, drop_stale, fine) (ap (λ l. r ∷ l) (fresh-drop_stale (suc n) rows))
  ]

  stale_count-drop_stale :
      (n : ℕ) (rows : List Row)
      → stale_count (drop_stale n rows) + length (batch key is_stale n rows) ≡ stale_count rows
  unfolding drop_stale batch
  stale_count-drop_stale zero rows = omega arith
  stale_count-drop_stale (suc n) [] = omega arith
  stale_count-drop_stale (suc n) (r ∷ rows) = elim (Bool-cases (is_stale r)) [
    | inl stale ↦ rw (stale, drop_stale, batch) (omega (arith, stale_count-drop_stale n rows))
    | inr fine ↦ rw (fine, drop_stale, batch, fine) (stale_count-drop_stale (suc n) rows)
  ]

  -- An empty batch says that nothing is stale.
  none_stale :
      (n : ℕ) (rows : List Row)
      → is_none key is_stale (batch key is_stale (suc n) rows) ≡ true
      → (stale_count rows ≡ 0) × (fresh rows ≡ rows)
  none_stale n [] e = (refl, refl)
  none_stale n (r ∷ rows) e = elim (Bool-cases (is_stale r)) [
    | inl stale ↦ absurd (ground (arith, batch_stale n r rows stale))
    | inr fine ↦
        let (zero_stale, same) = none_stale n rows (rw (batch_fresh n r rows fine) at e) in
        rw fine (zero_stale, ap (λ l. r ∷ l) same)
  ]

  All-drop_stale :
      (k : ℕ) (n : ℕ) (rows : List Row)
      → All (λ s. (k == key s) ≡ false) rows
      → All (λ s. (k == key s) ≡ false) (drop_stale n rows)
  unfolding drop_stale
  All-drop_stale k zero rows h = h
  All-drop_stale k (suc n) [] h = tt
  All-drop_stale k (suc n) (r ∷ rows) (far, h) = elim (Bool-cases (is_stale r)) [
    | inl stale ↦ rw (stale, drop_stale) (All-drop_stale k n rows h)
    | inr fine ↦ rw (fine, drop_stale) (far, All-drop_stale k (suc n) rows h)
  ]

  drop_stale-HasDistinctIds :
      (n : ℕ) (rows : List Row) → HasDistinctIds key rows → HasDistinctIds key (drop_stale n rows)
  unfolding drop_stale
  drop_stale-HasDistinctIds zero rows d = d
  drop_stale-HasDistinctIds (suc n) [] d = tt
  drop_stale-HasDistinctIds (suc n) (r ∷ rows) (absent, d) = elim (Bool-cases (is_stale r)) [
    | inl stale ↦ rw (stale, drop_stale) (drop_stale-HasDistinctIds n rows d)
    | inr fine ↦
        rw (fine, drop_stale)
          (All-drop_stale (key r) (suc n) rows absent, drop_stale-HasDistinctIds (suc n) rows d)
  ]

  -- How a delete ends: finished, with all that was stale counted and gone, or left by a busy data base,
  -- and then what was not stale is all there.
  abbrev pub EndsWell : ℕ → List Attempt → List Row → Run Row → Type 0
  EndsWell total attempts rows (finished n rows' attempts') =
      (n ≡ total + stale_count rows) × (rows' ≡ fresh rows)
  EndsWell total attempts rows (raised rows' attempts') =
      (attempts ≢ [])
      × (fresh rows' ≡ fresh rows)
      × HasDistinctIds key rows'
      × (stale_count rows' ≤ stale_count rows)

  pub batched_went :
      (fuel total : ℕ) (attempts : List Attempt) (rows : List Row)
      → batched key is_stale (suc fuel) total (went ∷ attempts) rows ≡ (
          if is_none key is_stale (batch key is_stale 1000 rows)
          then some (finished total rows attempts)
          else batched key is_stale fuel
              (total + length (batch key is_stale 1000 rows))
              attempts
              (delete_ids key is_stale (batch key is_stale 1000 rows) rows))
  unfolding batched
  batched_went fuel total attempts rows = refl

  pub batched_nil :
      (fuel total : ℕ) (rows : List Row)
      → batched key is_stale (suc fuel) total [] rows ≡ (
          if is_none key is_stale (batch key is_stale 1000 rows)
          then some (finished total rows [])
          else batched key is_stale fuel
              (total + length (batch key is_stale 1000 rows))
              []
              (delete_ids key is_stale (batch key is_stale 1000 rows) rows))
  unfolding batched
  batched_nil fuel total rows = refl

  some_batch : (ids : List ℕ) → is_none key is_stale ids ≡ false → 0 < length ids
  some_batch [] h = cc
  some_batch (id ∷ ids) h = omega arith

  abbrev pub Ends : ℕ → List Attempt → List Row → Option (Run Row) → Type 0
  Ends total attempts rows o = (run : Run Row) × (o ≡ some run) × EndsWell total attempts rows run

  -- The rows after one round.
  abbrev pub after_round : List Row → List Row
  after_round rows = delete_ids key is_stale (batch key is_stale 1000 rows) rows

  module _ (total : ℕ) (attempts : List Attempt) (rows : List Row)
      (d : HasDistinctIds key rows) where
    after_round-eq : after_round rows ≡ drop_stale 1000 rows
    after_round-eq = delete_ids-batch 1000 rows d

    pub Ends_here :
        is_none key is_stale (batch key is_stale 1000 rows) ≡ true
        → EndsWell total attempts rows (finished total rows attempts)
    Ends_here empty =
        let (zero_stale, same) = none_stale 999 rows empty in (omega (arith, zero_stale), sym same)

    pub Ends_later :
        is_none key is_stale (batch key is_stale 1000 rows) ≡ false
        → (after_stale : stale_count (after_round rows) + length (batch key is_stale 1000 rows)
            ≡ stale_count rows)
          × (stale_count (after_round rows) < stale_count rows)
          × (fresh (after_round rows) ≡ fresh rows)
          × HasDistinctIds key (after_round rows)
    Ends_later more = rw after_round-eq (
      stale_count-drop_stale 1000 rows,
      omega
          (arith, stale_count-drop_stale 1000 rows, some_batch (batch key is_stale 1000 rows) more),
      fresh-drop_stale 1000 rows,
      drop_stale-HasDistinctIds 1000 rows d,
    )
