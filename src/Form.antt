-- ===== src/Form.antt =====
-- frontend/src/lib: what the forms check before they send.
pub mod Time
pub mod Schedule
pub mod Login
