-- ===== src/Decide/Atomic.antt =====
-- What becomes of a decision when the data base fails.
use see_no_evil.Prelude.{◌≡◌, ◌⊎◌}
use see_no_evil.Text.{Text}
use see_no_evil.Http.{Reply, ok, http}
use see_no_evil.Decide.{busy, Storage, flushed, DecideResponse, DecideRequest, Tables}
use see_no_evil.Decide.Outcome.{IsLogged, IsReviewed}

-- The reply and the tables agree: a decision that stands in the log and the review queue, or a
-- decision of a busy data base or a failure, which changed nothing.
abbrev pub IsAtomic :
    {Float : Type 0}
    → DecideRequest Float
    → Tables Float
    → Storage
    → Reply DecideResponse × Tables Float
    → Type 0
IsAtomic body tables storage (ok response, tables') =
    (IsLogged body response tables tables' × IsReviewed body response tables tables')
    ⊎ ((storage ≡ flushed busy) × (tables' ≡ tables))
IsAtomic body tables storage (http code, tables') = tables' ≡ tables
