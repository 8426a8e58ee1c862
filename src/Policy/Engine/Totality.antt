-- ===== src/Policy/Engine/Totality.antt =====
-- When `decide` raises.
use see_no_evil.Prelude.{◌≢◌}
use see_no_evil.Text.{Text}
use see_no_evil.Policy.Engine.{Flow, raised}

-- The rule does not raise.
abbrev Returns : Flow → Type 0
Returns flow = flow ≢ raised
