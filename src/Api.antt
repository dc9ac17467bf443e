-- ===== src/Api.antt =====
-- frontend/src/lib/api: requests, errors, and the checks of what the backend answers.
pub mod Errors
pub mod Config
pub mod Access
pub mod Inventory
pub mod Programs
pub mod Equipment
pub mod Commands
pub mod Polling
pub mod QueryClient
pub mod Client
pub mod Answers
pub mod Readiness
pub mod Drive
pub mod Notifications
pub mod Alarms
pub mod Series
pub mod Schedules
pub mod Onboarding
pub mod Diagnostics
pub mod Overview
