-- ===== src/Auth/RateLimiter.antt =====
-- The sliding-window limiter `_RateLimiter` of auth.py. Its dictionary is an association list; the
-- monotonic clock is read in whole ticks.
pub mod Window
pub mod Admitted
use see_no_evil.Prelude.{
  ℕ, ◌+◌, ◌%◌, Bool, true, false, ◌&&◌, Option, none, some, List, [], ◌∷◌, ◌++◌, keep, any, length,
  ltb, leb, ◌==◌, if◌then◌else◌,
}
use see_no_evil.Text.{Text, eqb}
use see_no_evil.Policy.Types.{Dict}

abbrev pub Hits : Type 0
Hits = Dict (List ℕ)

-- `self._hits.get(key, [])`.
unfoldable pub hits_of : Text → Hits → List ℕ
hits_of key [] = []
hits_of key ((k, v) ∷ rest) = if eqb k key then v else hits_of key rest

-- `self._hits[key] = v`.
unfoldable pub put : Text → List ℕ → Hits → Hits
put key v [] = (key, v) ∷ []
put key v ((k, w) ∷ rest) = if eqb k key then (key, v) ∷ rest else (k, w) ∷ put key v rest

module _ (limit window : ℕ) where
  -- `now - t < self.window`.
  abbrev pub is_fresh : ℕ → ℕ → Bool
  is_fresh now t = ltb now (t + window)

  -- `sweep`: keys without a hit in the window go.
  unfoldable pub sweep : ℕ → Hits → Hits
  sweep now hits = keep (λ entry. any (is_fresh now) entry.1) hits

  abbrev pub sweep_large : ℕ → Hits → Hits
  sweep_large now hits =
      if ltb 1000 (length hits) && (length hits % 100 == 0) then sweep now hits else hits

  unfoldable pub allow : ℕ → Text → Hits → Bool × Hits
  unfolding hits_of put sweep
  allow now key hits =
      let recent = keep (is_fresh now) (hits_of key hits) in
      if leb limit (length recent)
      then (false, put key recent hits)
      else (true, sweep_large now (put key (recent ++ (now ∷ [])) hits))
