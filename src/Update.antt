-- ===== src/Update.antt =====
-- internal/update: the updater of one record, and the service that decides which records to update.
pub mod World
pub mod Getip
pub mod Lookup
pub mod Decide
pub mod Updater
pub mod Service
