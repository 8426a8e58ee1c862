-- ===== src/Policy.antt =====
-- The policy engine, services/api/src/seenoevil_api/policy.py, and its OPA twin, policy_opa.py.
pub mod Types
pub mod Schedule
pub mod Domains
pub mod Urls
pub mod Engine
mod Tests
