-- ===== src/Auth.antt =====
-- app/core/security.py, app/web/deps.py and app/web/routes_auth.py: passwords, reset tokens, server-side
-- sessions, and the routes that log a caller in and out.
pub mod Tokens
pub mod RoundTrip
pub mod Sessions
pub mod Routes
pub mod Guards
pub mod Resets
