-- ===== src/Auth/Login.antt =====
-- The routes of set-up and login, services/api/src/seenoevil_api/routers/auth.py. The clocks, the
-- fresh secret and id and the client's address, `Auth.Clients`, are arguments; logout changes the
-- reply alone.
pub mod Once
mod Tests
use see_no_evil.Prelude.{ℕ, Bool, true, false, Option, none, some, List, [], ◌∷◌, if◌then◌else◌}
use see_no_evil.Text.{Text}
use see_no_evil.Http.{Reply, ok, http}
use see_no_evil.Auth.Users.{
  Store, Hasher, Outcome, returns, value_error, admin_is_configured, set_admin_password,
  verify_admin,
}
use see_no_evil.Auth.Sessions.{JwtLib, issue_session}
use see_no_evil.Auth.RateLimiter.{Hits, allow}

-- The two limiters of the module and the tables.
pub record Gate : Type 0 where
  pub setups : Hits
  pub logins : Hits
  pub store : Store

-- Five minutes.
abbrev pub window : ℕ
window = 300

module _ {Token : Type 0} (lib : JwtLib Token) (hasher : Hasher) where
  abbrev pub set_up : Gate → Outcome Store → Text → Reply Text × Gate
  set_up gate value_error email = (http 400, gate)
  set_up gate (returns store) email = (ok email, record gate { store = store })

  abbrev pub setup_admitted : Text → ℕ → Text → Text → Gate → Reply Text × Gate
  setup_admitted fresh fresh_id email password gate =
      if admin_is_configured gate.store
      then (http 409, gate)
      else set_up gate (set_admin_password hasher fresh fresh_id email password gate.store) email

  -- The address is counted, whatever the answer.
  unfoldable pub setup : ℕ → Text → Text → ℕ → Text → Text → Gate → Reply Text × Gate
  unfolding allow admin_is_configured set_admin_password
  setup now ip fresh fresh_id email password gate =
      let counted = allow 5 window now ip gate.setups in
      let gate' = record gate { setups = counted.1 } in
      if counted.0 then setup_admitted fresh fresh_id email password gate' else (http 429, gate')

  abbrev pub login_admitted : ℕ → Text → Text → Text → Gate → Reply (Text × Token) × Gate
  login_admitted wall fresh email password gate =
      let issued = issue_session lib fresh wall email gate.store in
      if verify_admin hasher email password gate.store
      then (ok (email, issued.0), record gate { store = issued.1 })
      else (http 401, gate)

  -- The reply has the cookie's token.
  unfoldable pub login : ℕ → ℕ → Text → Text → Text → Text → Gate → Reply (Text × Token) × Gate
  unfolding allow verify_admin issue_session
  login now wall ip fresh email password gate =
      let counted = allow 10 window now ip gate.logins in
      let gate' = record gate { logins = counted.1 } in
      if counted.0 then login_admitted wall fresh email password gate' else (http 429, gate')
