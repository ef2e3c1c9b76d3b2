-- ===== src/Backend.antt =====
-- The backend's moderation core (backend/app).
pub mod Sources
pub mod Terms
pub mod Model
pub mod Urlnorm
pub mod Dedup
pub mod Content
pub mod Branches
pub mod Intake
pub mod Rows
pub mod Change
pub mod Chain
pub mod Valid
pub mod Blocklist
pub mod Moderation
pub mod Steps
pub mod Queue
pub mod Tests
