-- ===== src/Discovery.antt =====
-- duckdb_compat/discovery.py: the automatic registration of published engines. `Planes` builds the
-- worker of a package, `Scans` scans the directory; the other children prove.
pub mod Planes
pub mod Scans
pub mod Exactness
pub mod Scanning
