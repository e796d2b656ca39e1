-- ===== src/Editor.antt =====
-- tools/workspace_editor.py: the edits that an agent makes to its workspace, and their replay from a
-- cache. `Diffs` prepares a diff, `Reading` renders a file, `Edits` has the operations on files,
-- `Cache` is the state, `Replay` what the cache does around an operation. The other children prove.
pub mod Diffs
pub mod Reading
pub mod Edits
pub mod Logging
pub mod Replacing
pub mod Operations
pub mod Cache
pub mod Replay
pub mod Runs
pub mod Keeping
pub mod Recording
pub mod Rereading
pub mod Stepping
pub mod Faithful
pub mod Sparing
pub mod Containment
