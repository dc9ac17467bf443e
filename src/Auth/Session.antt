-- ===== src/Auth/Session.antt =====
-- frontend/src/features/auth-session.tsx and auth-session-runtime.ts: the session of one tab.
pub mod State
pub mod Changes
pub mod Refresh
pub mod Actions
pub mod Startup
pub mod Machine
