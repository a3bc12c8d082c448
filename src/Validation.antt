-- ===== src/Validation.antt =====
-- internal/validation: scenarios that break a running system, and the reports on them.
pub mod Scenario
pub mod Report
pub mod Runner
pub mod Run
pub mod Recovery
mod Tests
