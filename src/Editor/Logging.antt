-- ===== src/Editor/Logging.antt =====
-- tools/tool_call_error_logger.py: the log of failed tool calls, on the disk of the editor.
use synno_db.Base.{String, Option, ◌∷◌, [], ◌++◌, some, none, if◌then◌else◌}
use synno_db.Python.Faults.{other, Result, ok, err}
use synno_db.Python.Paths.{Parts}
use synno_db.Python.Texts.{Text}
use synno_db.Editor.Edits.{
  Disk, file, binary, directory, put_node, make_dirs, PatchResult, Ran, Workspace,
}

abbrev pub log_dir : Workspace → Parts
log_dir w = w.cwd ++ "tool_call_errors" ∷ []

abbrev pub log_path : Workspace → Parts
log_path w = log_dir w ++ w.log_name ∷ []

-- open(filepath, mode), and the write of the entry
unfoldable pub write_entry : Workspace → Text → Disk → Result (Unit {0}) × Disk
write_entry w entry d = elim (d (log_path w)) [
  | none ↦ (ok tt, put_node (log_path w) (some (file entry)) d)
  | some directory ↦ (err (other "[Errno 21] Is a directory"), d)
  | some (file old) ↦
      (ok tt, put_node (log_path w) (some (file (if w.log_appends then old ++ entry else entry))) d)
  | some binary ↦
      (ok tt, put_node (log_path w) (some (if w.log_appends then binary else file entry)) d)
]

-- log_tool_call_error
unfoldable pub log_tool_call_error : Workspace → String → String → Disk → Result (Unit {0}) × Disk
unfolding write_entry make_dirs
log_tool_call_error w type message d =
    let (made, d') = make_dirs w.cwd ("tool_call_errors" ∷ []) d in
    elim made [ err f ↦ (err f, d') | ok u ↦ write_entry w (w.log_entry type message) d' ]

-- A result after the log is written; an exception of the log leaves the operation.
unfoldable pub after_log : Workspace → String → String → PatchResult × Option Text → Disk → Ran
unfolding log_tool_call_error
after_log w type message done d =
    let (logged, d') = log_tool_call_error w type message d in
    elim logged [ err f ↦ (err f, d') | ok u ↦ (ok done, d') ]
