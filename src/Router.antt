-- ===== src/Router.antt =====
-- router/router.py: the decision pipeline. `Trace` is the record of one decision, `Guards` the
-- checks before a template is used, `State` the router's counters and failures, `Route` the method
-- `route`, `Why` the method `why`. The other children prove.
pub mod Trace
pub mod Guards
pub mod State
pub mod Binding
pub mod Route
pub mod Why
pub mod Honesty
pub mod Frames
pub mod FailClosed
pub mod Pipeline
pub mod Invariants
pub mod Counting
pub mod Breaker
pub mod Accounting
pub mod Sessions
pub mod Asking
pub mod BurnIn
pub mod Histories
pub mod Positional
pub mod Foresight
pub mod Clean
