-- ===== src/Setup.antt =====
-- The first run of a new organization.
pub mod Wizard
pub mod Tests
