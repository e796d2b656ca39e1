-- ===== src/Connection.antt =====
-- duckdb_compat/connection.py: SynnoConnection, which routes a statement or hands it to DuckDB.
-- `Handles` has the connections on one router, `Statements` the methods execute and executemany,
-- `Lifecycle` cursors and close. The other children prove.
pub mod Handles
pub mod Statements
pub mod Lifecycle
pub mod Endings
pub mod Answers
pub mod Progress
pub mod Blocking
pub mod Releases
pub mod Steadiness
pub mod Counting
