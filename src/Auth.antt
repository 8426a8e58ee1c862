-- ===== src/Auth.antt =====
-- Authentication, services/api/src/seenoevil_api/auth.py, and the handlers of routers/users.py.
pub mod Settings
pub mod Users
pub mod Sessions
pub mod UserRoutes
pub mod Bearer
pub mod Csrf
pub mod RateLimiter
pub mod Clients
pub mod Login
mod Tests
