-- ===== src/Db/Migrator.antt =====
-- `SchemaMigrator` of src/schema_migrator.cpp.
pub mod Steps
pub mod Lists
pub mod Atomicity
pub mod Script
