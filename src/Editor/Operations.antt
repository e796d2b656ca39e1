-- ===== src/Editor/Operations.antt =====
-- tools/workspace_editor.py: update and delete, the writing of a whole file, and one call of any edit tool.
use synno_db.Base.{
  String, Bool, true, false, Option, none, some, [], ◌++◌, get_or_else, is_some, if◌then◌else◌,
}
use synno_db.Python.Faults.{Fault, message, ok, err}
use synno_db.Python.Paths.{Parts}
use synno_db.Python.Texts.{Text, chars, same_text}
use synno_db.Editor.Diffs.{repair_diff_context, normalize_diff_payload}
use synno_db.Editor.Reading.{current_content_block}
use synno_db.Editor.Edits.{
  Disk, put_node, read_text, write_text, Ran, Workspace, failed, relative_path, complete,
  patch_summary, readonly_summary, guard_target, written, create_file,
}
use synno_db.Editor.Logging.{after_log}
use synno_db.Editor.Replacing.{call_summary, failure_summary, call_failed, replace_in_file}

-- the except clause of _update_file_impl
unfoldable pub update_failed : Workspace → Parts → Text → Fault → Disk → Ran
unfolding after_log
update_failed w t original f d =
    after_log w "ApplyPatchFailed" (message f)
      (
        record {
          status = failed;
          output =
              (chars "Error applying patch to "
                ++ (relative_path w t
                    ++ (chars ": "
                        ++ (chars (message f)
                            ++ (chars
                                  ". The workspace may have been reverted since you last read this file — your cached version is likely stale. Rebuild the diff using the CURRENT file content shown below. Context lines must EXACTLY match. Do not wrap the diff in markdown code fences.\n\n"
                                ++ current_content_block (relative_path w t) original)))));
        },
        none,
      )
      d

-- the try block of _update_file_impl
unfoldable pub apply_update : Workspace → String → Text → Text → Disk → Parts → Ran
unfolding write_text repair_diff_context update_failed
apply_update w path diff original d t =
    elim (w.apply_diff original (repair_diff_context w.unicode original diff) false) [
      | err f ↦ update_failed w t original f d
      | ok patched ↦
          let (done, d') = write_text t patched d in
          elim done [
            | err f ↦ update_failed w t original f d'
            | ok u ↦
                complete (chars "Updated " ++ relative_path w t) (patch_summary "Update" path) d'
          ]
    ]

unfoldable pub update_at : Workspace → String → Text → Disk → Parts → Ran
unfolding apply_update read_text
update_at w path diff d t = elim (read_text d t) [
  | err f ↦ (err f, d)
  | ok original ↦ apply_update w path diff original d t
]

abbrev pub update_refusal : String → Text → Text × Option Text
update_refusal path relative = (
  chars "Error: Attempting to update read-only file: " ++ relative,
  some (readonly_summary "Update" path),
)

-- _update_file_impl
unfoldable pub update_file : Workspace → String → Option Text → Disk → Ran
unfolding guard_target update_at normalize_diff_payload
update_file w path diff d =
    guard_target w false path (update_refusal path)
      (update_at w path (normalize_diff_payload (get_or_else diff []))) d

unfoldable pub delete_at : Workspace → String → Disk → Parts → Ran
unfolding read_text
delete_at w path d t = elim (read_text d t) [
  | err f ↦ (err f, d)
  | ok original ↦
      complete (chars "Deleted " ++ relative_path w t) (patch_summary "Delete" path)
        (put_node t none d)
]

abbrev pub delete_refusal : String → Text → Text × Option Text
delete_refusal path relative = (
  chars "Error: Attempting to delete read-only file: " ++ relative,
  some (readonly_summary "Delete" path),
)

-- _delete_file_impl
unfoldable pub delete_file : Workspace → String → Disk → Ran
unfolding guard_target delete_at
delete_file w path d = guard_target w false path (delete_refusal path) (delete_at w path) d

-- the write of _write_file_impl, by the text that the file has, if it exists
unfoldable pub write_over : Workspace → String → Text → Option Text → Disk → Parts → Ran
unfolding write_text
write_over w path content none d t =
    let out = write_text t content d in
    written out
      (complete (chars "Wrote " ++ relative_path w t) (call_summary "write_file" path) out.1)
write_over w path content (some original) d t =
    let out = write_text t content d in
    if same_text original content
    then call_failed "write_file" path
        (chars "Error: write produced no change in " ++ (relative_path w t ++ chars "."))
        "no change" d
    else written out
        (complete (chars "Overwrote " ++ relative_path w t) (call_summary "write_file" path) out.1)

unfoldable pub write_at : Workspace → String → Text → Disk → Parts → Ran
unfolding write_over read_text
write_at w path content d t =
    if is_some (d t)
    then elim (read_text d t) [
      | err f ↦ (err f, d)
      | ok original ↦ write_over w path content (some original) d t
    ]
    else write_over w path content none d t

abbrev pub write_refusal : String → Text → Text × Option Text
write_refusal path relative = (
  chars "Error: Attempting to write read-only file: " ++ relative,
  some (failure_summary "write_file" path "read-only"),
)

-- _write_file_impl
unfoldable pub write_file : Workspace → String → Text → Disk → Ran
unfolding guard_target write_at
write_file w path content d =
    guard_target w true path (write_refusal path) (write_at w path content) d

-- One call of an edit tool.
pub data Edit : Type 0 where
  create : String → Option Text → Edit
  update : String → Option Text → Edit
  delete : String → Edit
  substitute : String → Text → Text → Bool → Edit
  overwrite : String → Text → Edit

unfoldable pub perform : Workspace → Edit → Disk → Ran
unfolding create_file update_file delete_file replace_in_file write_file
perform w (create path diff) d = create_file w path diff d
perform w (update path diff) d = update_file w path diff d
perform w (delete path) d = delete_file w path d
perform w (substitute path old_string new_string all) d =
    replace_in_file w path old_string new_string all d
perform w (overwrite path content) d = write_file w path content d
