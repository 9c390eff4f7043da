-- ===== src/Sqlite.antt =====
-- sqlite/src/module.cpp: the SQLite plugin. `Types` holds its data, `Handles` the table of open
-- databases, `Worker` the queue of jobs, its worker, and the delivery of results.
pub mod Types
pub mod Handles
pub mod Worker
mod Tests
