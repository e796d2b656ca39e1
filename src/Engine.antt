-- ===== src/Engine.antt =====
-- router/process_engine.py and router/shm_transport.py: the worker of an engine. `Process` runs queries
-- in a subprocess and reads its result files, `HotLoad` stages the data of a connection in shared
-- memory. The other children prove.
pub mod Process
pub mod HotLoad
pub mod Freshness
pub mod Answering
pub mod Orphans
pub mod Reclaiming
