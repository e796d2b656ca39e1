-- ===== src/Compare.antt =====
-- router/adapt.py: is the engine's result the same as DuckDB's? `Cells` has tables, cells and
-- rows, `Matching` the one-to-one matching of float rows, `Groups` the multiset comparison,
-- `Tables` `results_equal`, `Widen` the candidates of a truncated result. The other children prove.
pub mod Cells
pub mod Matching
pub mod Groups
pub mod Tables
pub mod Widen
pub mod Widening
pub mod Depth
pub mod Diff
pub mod Assignment
pub mod Pairing
pub mod Sorting
pub mod Matchers
pub mod Grouping
pub mod Accepted
pub mod Soundness
pub mod Verdict
