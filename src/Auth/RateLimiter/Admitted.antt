-- ===== src/Auth/RateLimiter/Admitted.antt =====
-- The calls that the limiter admits over time.
use see_no_evil.Prelude.{
  ℕ, suc, ◌≡◌, refl, sym, ap, ◌∙◌, ◌≤◌, ◌<◌, inl, inr, true, false, List, [], ◌∷◌, ◌++◌, keep,
  length, ltb, leb, if◌then◌else◌, Bool-cases, arith, ◌%◌, ◌==◌, ◌&&◌,
}
use see_no_evil.Text.{Text, eqb}
use see_no_evil.Text.Laws.{eqb_iff}
use see_no_evil.Auth.RateLimiter.{Hits, hits_of, put, is_fresh, sweep_large, allow}
use see_no_evil.Auth.RateLimiter.Window.{
  IsDict, hits_of-put_self, hits_of-put_ne, put-IsDict, count, count-keep, count-append,
  sweep-IsDict, count-sweep,
}

-- The clock does not go back.
abbrev pub IsOrdered : ℕ → List (ℕ × Text) → Type 0
IsOrdered start [] = Unit
IsOrdered start ((now, k) ∷ calls) = (start ≤ now) × IsOrdered now calls

module _ (limit window : ℕ) where
  -- The times of the calls with a key that were admitted, the newest first.
  unfoldable pub admitted : Text → List (ℕ × Text) → Hits → List ℕ → List ℕ
  admitted key [] hits log = log
  admitted key ((now, k) ∷ calls) hits log =
      admitted key calls (allow limit window now k hits).1
        (if (allow limit window now k hits).0 && eqb k key then now ∷ log else log)

  -- Each time had less than the limit of earlier ones in its window.
  abbrev pub IsLimited : List ℕ → Type 0
  IsLimited [] = Unit
  IsLimited (t ∷ log) = (count limit window t log < limit) × IsLimited log

  -- From now on the dictionary counts what the log counts.
  abbrev Tracks : Text → ℕ → Hits → List ℕ → Type 0
  Tracks key now hits log =
      IsDict hits
      × ((later : ℕ)
          → now ≤ later
          → count limit window later (hits_of key hits) ≡ count limit window later log)

  Tracks-sweep_large :
      (key : Text) (now : ℕ) (hits : Hits) (log : List ℕ)
      → Tracks key now hits log
      → Tracks key now (sweep_large limit window now hits) log
  Tracks-sweep_large key now hits log (d, same) =
      elim (Bool-cases (ltb 1000 (length hits) && (length hits % 100 == 0))) [
        | inr small ↦ rw small (d, same)
        | inl large ↦ rw large (
          sweep-IsDict limit window now hits d,
          λ later h. count-sweep limit window now later key hits h d ∙ same later h,
        )
      ]

  count-cons :
      (later now : ℕ) (s t : List ℕ)
      → count limit window later s ≡ count limit window later t
      → count limit window later (now ∷ s) ≡ count limit window later (now ∷ t)
  count-cons later now s t e = elim (Bool-cases (is_fresh limit window later now)) [
    | inl young ↦ rw young (ap suc e)
    | inr old ↦ rw old e
  ]

  module _ (key k : Text) (start now : ℕ) (hits : Hits) (log : List ℕ)
      (tracked : Tracks key start hits log) (order : start ≤ now) where
    recent : List ℕ
    recent = keep (is_fresh limit window now) (hits_of k hits)

    count-recent :
        (later : ℕ)
        → eqb k key ≡ true
        → now ≤ later
        → count limit window later recent ≡ count limit window later log
    unfolding recent
    count-recent later same h =
        count-keep limit window now later (hits_of k hits) h
        ∙ (ap (λ j. count limit window later (hits_of j hits)) ((eqb_iff k key).0 same)
            ∙ tracked.1 later (omega (arith, order, h)))

    Tracks-refused : Tracks key now (put k recent hits) log
    Tracks-refused = (
      put-IsDict k recent hits tracked.0,
      λ later h. elim (Bool-cases (eqb k key)) [
        | inr other ↦
            rw (hits_of-put_ne k key recent hits other) (tracked.1 later (omega (arith, order, h)))
        | inl same ↦
            ap (λ j. count limit window later (hits_of j (put k recent hits)))
              (sym ((eqb_iff k key).0 same))
            ∙ (ap (count limit window later) (hits_of-put_self k recent hits)
                ∙ count-recent later same h)
      ],
    )

    Tracks-admitted :
        Tracks key now (put k (recent ++ (now ∷ [])) hits) (if eqb k key then now ∷ log else log)
    Tracks-admitted = (
      put-IsDict k (recent ++ (now ∷ [])) hits tracked.0,
      λ later h. elim (Bool-cases (eqb k key)) [
        | inr other ↦
            rw (hits_of-put_ne k key (recent ++ (now ∷ [])) hits other, other)
              (tracked.1 later (omega (arith, order, h)))
        | inl same ↦ rw same (
            ap (λ j. count limit window later (hits_of j (put k (recent ++ (now ∷ [])) hits)))
              (sym ((eqb_iff k key).0 same))
            ∙ (ap (count limit window later) (hits_of-put_self k (recent ++ (now ∷ [])) hits)
                ∙ (count-append limit window later now recent
                    ∙ count-cons later now recent log (count-recent later same h))))
      ],
    )

    below :
        leb limit (length recent) ≡ false → eqb k key ≡ true → count limit window now log < limit
    unfolding recent
    below free same =
        let e : length (keep (is_fresh limit window now) (hits_of k hits))
            ≡ count limit window now log =
          ap (λ j. count limit window now (hits_of j hits)) ((eqb_iff k key).0 same)
          ∙ tracked.1 now order in
        ground arith

    -- What one call does to the dictionary and to the log.
    log_after : List ℕ
    log_after = if (allow limit window now k hits).0 && eqb k key then now ∷ log else log

    step :
        IsLimited log
        → Tracks key now (allow limit window now k hits).1 log_after × IsLimited log_after
    unfolding allow recent log_after
    step limited = elim (Bool-cases (leb limit (length recent))) [
      | inl full ↦ rw full (Tracks-refused, limited)
      | inr free ↦ elim (Bool-cases (eqb k key)) [
        | inr other ↦
            rw (free, other)
              (
                Tracks-sweep_large key now (put k (recent ++ (now ∷ [])) hits) log
                    (rw other at Tracks-admitted),
                limited,
              )
        | inl same ↦
            rw (free, same)
              (
                Tracks-sweep_large key now (put k (recent ++ (now ∷ [])) hits) (now ∷ log)
                    (rw same at Tracks-admitted),
                (below free same, limited),
              )
      ]
    ]

  admitted-IsLimited_from :
      (key : Text) (start : ℕ) (calls : List (ℕ × Text)) (hits : Hits) (log : List ℕ)
      → Tracks key start hits log
      → IsOrdered start calls
      → IsLimited log
      → IsLimited (admitted key calls hits log)
  unfolding admitted log_after
  admitted-IsLimited_from key start [] hits log tracked order limited = limited
  admitted-IsLimited_from key start ((now, k) ∷ calls) hits log tracked (later, order) limited =
      let (tracked', limited') = step key k start now hits log tracked later limited in
      admitted-IsLimited_from key now calls (allow limit window now k hits).1
        (log_after key k start now hits log tracked later) tracked' order limited'

  -- Whatever calls come with whatever keys, as long as the clock does not go back: of the admitted
  -- calls with one key no window that ends with one of them holds more than the limit.
  pub admitted-IsLimited :
      (key : Text) (calls : List (ℕ × Text))
      → IsOrdered 0 calls
      → IsLimited (admitted key calls [] [])
  unfolding hits_of
  admitted-IsLimited key calls order =
      admitted-IsLimited_from key 0 calls [] [] (tt, λ later h. refl) order tt
