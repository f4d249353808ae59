-- ===== src/Services/Laws.antt =====
-- What the calls of the services have in common.
pub mod Reported
pub mod Failures
pub mod Requests
pub mod Filename
