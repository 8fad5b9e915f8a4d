-- ===== src/Db.antt =====
-- include/db_error.h, src/pg.cpp and src/schema_migrator.cpp: errors of the database, the connection
-- with its transactions, and the schema migrations.
pub mod Errors
pub mod Conn
pub mod Handles
pub mod Migrator
