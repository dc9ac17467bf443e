-- ===== src/Api/Access.antt =====
-- frontend/src/lib/api/access.ts
pub mod Fields
pub mod Answers
