-- ===== src/Auth.antt =====
-- frontend/src/features: the session of the browser, which the tabs of one origin share.
pub mod Channel
pub mod Timing
pub mod Logout
pub mod Lease
pub mod Request
pub mod Session
