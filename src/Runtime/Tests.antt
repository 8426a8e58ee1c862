-- ===== src/Runtime/Tests.antt =====
-- Settings that are updated once.
use see_no_evil.Prelude.{◌≡◌, refl, true, false, none, some, [], ◌∷◌, ℕ, leb, not, ◌==◌}
use see_no_evil.Text.{codes, eqb}
use see_no_evil.Json.{Json, bool, obj, Fields, end, field, get, at}
use see_no_evil.Json.Paths.{IsDict}
use see_no_evil.Runtime.{FloatLib, get_runtime, update_runtime}
use see_no_evil.Runtime.Updates.{get_runtime-update_runtime}

abbrev whole : FloatLib ℕ
whole = record {
  at_least = λ score t. leb t score;
  is_positive = λ n. not (n == 0);
  is_zero = λ n. n == 0;
  one = 100;
  half = 50;
  six_tenths = 60;
  is_huge = λ n. false;
}

-- The domain rules are switched off.
abbrev patch : Fields ℕ
patch = field (codes "inspect") (obj (field (codes "domain") (bool false) end)) end

updated_tests :
    (at (codes "inspect" ∷ codes "url" ∷ []) (obj (update_runtime whole none patch))
      ≡ some (bool true))
    × (at (codes "inspect" ∷ codes "domain" ∷ []) (obj (update_runtime whole none patch))
        ≡ some (bool false))
unfolding update_runtime at get eqb
updated_tests = (refl, refl)

stored-IsDict : (w : Json ℕ) → some (bool true) ≡ some w → IsDict w
unfolding IsDict
stored-IsDict w e = let same : bool true ≡ w = cc in rw (← same) tt

get_runtime-update_runtime_example :
    at
      (codes "inspect" ∷ codes "domain" ∷ [])
      (obj (get_runtime whole (some (obj (update_runtime whole (some (bool true)) patch)))))
    ≡ some (bool false)
unfolding at get eqb IsDict
get_runtime-update_runtime_example =
    get_runtime-update_runtime whole (some (bool true)) patch
      (codes "inspect" ∷ codes "domain" ∷ []) (bool false) stored-IsDict (tt, (tt, tt, tt), tt) refl
      refl
