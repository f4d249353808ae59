-- ===== src/Services.antt =====
-- The services of ui/src/services, a module for each file. An operation takes what it calls (`fetch`,
-- `encodeURIComponent`) as a parameter, builds the request that the source builds, and reads the
-- response as the source does.
pub mod Files
pub mod Hooks
pub mod Backup
pub mod System
pub mod Laws
