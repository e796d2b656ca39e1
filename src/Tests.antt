-- ===== src/Tests.antt =====
-- Runs of the definitions at concrete inputs, and the theorems applied to them.
pub mod Samples
pub mod Routing
pub mod Comparing
pub mod Binding
pub mod Registering
pub mod Reading
pub mod Marking
pub mod Editing
pub mod Publishing
pub mod Connecting
pub mod Working
