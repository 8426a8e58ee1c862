-- ===== src/Lib.antt =====
-- See No Evil: a pod that filters the web for a household. The proxy asks the API service for a
-- decision on every request; administrators manage users, devices, profiles and the quarantine
-- queue through the same service. This library models the logic of that service, below
-- services/api/src/seenoevil_api/.
--
-- - Prelude, Text, Table, Http: the numbers, Python's `str` as a list of code points (case and
--   white space follow Python on ASCII), `int(s)`, `hmac.compare_digest`, a table as the list of
--   its rows, and the reply of a handler, a value or a status code.
-- - Models: the rows of models.py. Times are microseconds of naive UTC.
-- - Policy: policy.py. `Policy.Types` has its records, `Policy.Schedule` the windows
--   (`_parse_window`, `_in_schedule`, with the `OverflowError` of `datetime.time`),
--   `Policy.Domains` the patterns (`_host_matches`, `_matched_pattern`), `Policy.Urls` what is read off a URL, `Policy.Engine` the function
--   `decide`, one definition for each of its numbered rules. `urlparse` and `unquote_plus` are
--   parameters, floats a type with a comparison; `none` is an exception.
-- - Json, Runtime, Opa: JSON values; runtime.py, the stored settings merged over the defaults
--   (`_deep_merge`); policy_opa.py, the document that is posted to the OPA sidecar and the checks
--   of its reply. The HTTP client and `str` of a JSON value are parameters.
-- - Decide: routers/decide.py. `Decide.Devices` finds or makes the device (`_resolve_device`,
--   `_auto_create_device`, `_synthetic_mac_from_ip`), `Decide.Rules` reads the rules of the run-
--   time settings (`_global_rules`); `post_decide` calls both, reads panic-relax, asks the sidecar
--   or runs the engine, signs and stores the audit row, holds items for review and commits. The
--   clock, the next ids and what becomes of the flush and the commit are arguments; the flush of a
--   device and the count of recent devices succeed.
-- - Panic, AuditSig: panic.py and audit_sig.py, called by `post_decide`. The hashes, `json.dumps`
--   and the ISO form of times are parameters.
-- - Auth: auth.py. `Auth.Settings` is the settings table, `Auth.Users` the passwords and users,
--   `Auth.Sessions` the cookies and guards, `Auth.Bearer` the tokens of the proxy and the scanner,
--   `Auth.Csrf` the double-submit check, `Auth.RateLimiter` the sliding window of `_RateLimiter`,
--   `Auth.UserRoutes` the handlers of routers/users.py, `Auth.Clients` the address of a client
--   (`client_ip`), by which the limiters count, `Auth.Login` the routes of set-up and login in
--   routers/auth.py. The Argon2 hasher and the JWT library are records of operations with the laws
--   they document.
-- - Quarantine: routers/quarantine.py, the queue of held items and its handlers.
-- - Quota: routers/quota.py, the minutes of a device on a day, which `post_decide` reads.
--   `Quota.Ledger` is the abstract view. The day is an argument.
-- - Ssrf, Settings, Notifications: ssrf.py, the private addresses; routers/settings.py, whose
--   checks of a patch (`_validate_patch`) call it and whose handler stores through Runtime;
--   notifications.py, the requests that are sent, as a list. The reading of an address literal is a
--   parameter.
-- - Inventory: routers/devices.py and routers/profiles.py. `Inventory.Devices` and
--   `Inventory.Profiles` are the handlers, the scanner's report among them (`discover_devices`).
--   The id of a new row is an argument; a broken constraint of the tables is `IntegrityError`.
-- - Scanner: services/scanner/src/seenoevil_scanner/scanner.py, the service whose report
--   `discover_devices` reads: the loop over nmap's lines, a scan, and in `Scanner.Control` the
--   control plane with its lock, as steps of requests, turns of the loop and ends of scans;
--   `Scanner.Config` has the interval and the choice of the network. What nmap's lines match is a
--   parameter.
-- - Cleanup: cleanup.py, the retention. A batched delete has fuel for one round in each row and one
--   more, which is enough since every round before the last removes a row.
--
-- A function runs alone on the data base, and an exception rolls its changes back. Every other
-- function is total by structural recursion.
--
-- Not modelled: the routes for panic-relax, the routes that only read, backup, OIDC and the
-- configuration of the service, with the terminal wizard; the classifiers; and what is not Python:
-- the proxy, the user interface, the Rego policies and the deployment. Logs and metrics change no
-- modelled state.
pub mod Prelude
pub mod Text
pub mod Table
pub mod Http
pub mod Json
pub mod Policy
pub mod Models
pub mod Runtime
pub mod Opa
pub mod Quarantine
pub mod Auth
pub mod Panic
pub mod AuditSig
pub mod Decide
pub mod Quota
pub mod Cleanup
pub mod Ssrf
pub mod Settings
pub mod Notifications
pub mod Inventory
pub mod Scanner
