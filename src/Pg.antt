-- ===== src/Pg.antt =====
-- The PostgreSQL consumer: src/postgres_client.cpp.
pub mod Queue
pub mod Statements
pub mod Inserts
pub mod Client
pub mod Events
pub mod Producers
pub mod Time
pub mod Params
pub mod Session
pub mod Recovery
pub mod Worker
