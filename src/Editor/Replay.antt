-- ===== src/Editor/Replay.antt =====
-- tools/workspace_editor.py: what the cache does around an edit, a read and a rejected call.
use Prim.Native.String.{◌++◌ as concat}
use synno_db.Base.{
  String, Bool, true, false, not, ◌||◌, Option, none, some, ◌++◌, is_some, if◌then◌else◌,
}
use synno_db.Base.Dict.{get, put, remove}
use synno_db.Base.Int.{ℤ}
use synno_db.Python.Faults.{other, message, Result, ok, err}
use synno_db.Python.Paths.{Parts}
use synno_db.Python.Texts.{Text, chars}
use synno_db.Editor.Edits.{
  Disk, file, binary, directory, read_text, PatchResult, Workspace, resolve, relative_path,
}
use synno_db.Editor.Operations.{Edit, perform}
use synno_db.Editor.Replacing.{call_summary}
use synno_db.Editor.Reading.{render_numbered_lines}
use synno_db.Editor.Cache.{
  PatchEntry, CachedPatch, current, legacy, ReadEntry, Rejection, Snapshots, Editor, cache_enabled,
  note, settle,
}

-- a cache hit
unfoldable pub replay_edit :
    {C : Type 0} → Snapshots C → PatchEntry C → Editor C → Result PatchResult × Editor C
replay_edit git entry e = (
  ok entry.result,
  record e {
    disk = git.checkout entry.snapshot_hash e.disk;
    current_hash = some entry.snapshot_hash;
    activity = note entry.summary e.activity;
  },
)

-- the snapshot and the entry that follow a computed edit; dump_pickle overwrites no entry
unfoldable pub save_edit :
    {C : Type 0}
    → Snapshots C
    → String
    → PatchResult × Option Text
    → Editor C
    → Result PatchResult × Editor C
save_edit git key (result, summary) e = elim (git.commit e.current_hash key e.disk) [
  | none ↦ (err (other "Failed to create git snapshot for apply_patch operation"), e)
  | some commit ↦
      let entry : PatchEntry _ = record {
        result = result;
        snapshot_hash = commit;
        summary = summary;
      } in
      if is_some (get e.patches key)
      then (err (other "File already exists"), record e { current_hash = some commit })
      else (
        ok result,
        record e { current_hash = some commit; patches = put e.patches key (current entry) },
      )
]

-- a cache miss
unfoldable pub compute_edit :
    {C : Type 0} → Snapshots C → String → Edit → Editor C → Result PatchResult × Editor C
unfolding perform save_edit
compute_edit git key edit e =
    let (ran, disk) = perform e.workspace edit e.disk in
    let done = settle edit ran in
    save_edit git key done (record e { disk = disk; activity = note done.1 e.activity })

-- cache_path.unlink(missing_ok=True)
abbrev pub unlink : {C : Type 0} → String → Editor C → Editor C
unlink key e = record e { patches = remove e.patches key }

-- a miss: with only_from_cache it raises, and says why; else an entry that cannot be replayed, if
-- there is one, makes room for the new one
unfoldable pub miss_edit :
    {C : Type 0}
    → Snapshots C
    → String
    → Edit
    → Bool
    → String
    → Editor C
    → Result PatchResult × Editor C
unfolding compute_edit remove
miss_edit git key edit true why e = (err (other why), e)
miss_edit git key edit false why e = compute_edit git key edit (unlink key e)

-- what _run_cached does with what the cache has
unfoldable pub edit_with :
    {C : Type 0}
    → Snapshots C
    → String
    → Edit
    → Option (CachedPatch C)
    → Editor C
    → Result PatchResult × Editor C
unfolding replay_edit miss_edit
edit_with git key edit (some (current entry)) e = replay_edit git entry e
edit_with git key edit (some legacy) e =
    miss_edit git key edit e.only_from_cache
      "cache entry predates the stored activity-summary format" e
edit_with git key edit none e =
    miss_edit git key edit e.only_from_cache "result not found in cache" e

-- _run_cached
unfoldable pub run_cached :
    {C : Type 0} → Snapshots C → Edit → Editor C → Result PatchResult × Editor C
unfolding edit_with
run_cached git edit e =
    let key = git.edit_key e.current_hash edit e.untracked_content in
    if cache_enabled e
    then edit_with git key edit (get e.patches key) e
    else (err (other "Cache is not enabled for WorkspaceEditor."), e)

abbrev pub read_failed : String → String → Text → Text × Option Text
read_failed path why output =
    (output, some (call_summary "read_file" path ++ chars (concat " (FAILED - " (concat why ")"))))

-- the read of _read_file_impl
unfoldable pub read_node :
    Workspace → String → Option ℤ → Option ℤ → Disk → Parts → Text × Option Text
unfolding read_text render_numbered_lines
read_node w path offset limit d t = elim (d t) [
  | none ↦ (chars "Error: file " ++ (relative_path w t ++ chars " does not exist."), none)
  | some directory ↦
      (chars "Error: " ++ (relative_path w t ++ chars " is a directory, not a file."), none)
  | some binary ↦ read_failed path "'utf-8' codec can't decode byte" (
      chars "Error: could not read "
      ++ (relative_path w t ++ chars " as UTF-8 text: 'utf-8' codec can't decode byte"))
  | some (file text) ↦
      (render_numbered_lines text offset limit, some (call_summary "read_file" path))
]

-- _read_file_impl
unfoldable pub read_impl : Workspace → String → Option ℤ → Option ℤ → Disk → Text × Option Text
unfolding resolve read_node
read_impl w path offset limit d = elim (resolve w path) [
  | err f ↦ read_failed path (message f) (chars (concat "Error: " (message f)))
  | ok t ↦ read_node w path offset limit d t
]

-- a live read, whose result is kept under the key if there is one
unfoldable pub read_live :
    {C : Type 0} → Option String → String → Option ℤ → Option ℤ → Editor C → Result Text × Editor C
unfolding read_impl
read_live key path offset limit e =
    let (result, summary) = read_impl e.workspace path offset limit e.disk in
    let e' : Editor _ = record e { activity = note summary e.activity } in
    elim key [
      | none ↦ (ok result, e')
      | some k ↦ if is_some (get e.reads k) then (err (other "File already exists"), e') else (
        ok result,
        record e' { reads = put e.reads k (record { result = result; summary = summary }) },
      )
    ]

unfoldable pub miss_read :
    {C : Type 0}
    → Option String
    → String
    → Option ℤ
    → Option ℤ
    → Bool
    → String
    → Editor C
    → Result Text × Editor C
unfolding read_live
miss_read key path offset limit true why e = (err (other why), e)
miss_read key path offset limit false why e = read_live key path offset limit e

unfoldable pub read_with :
    {C : Type 0}
    → String
    → String
    → Option ℤ
    → Option ℤ
    → Option ReadEntry
    → Editor C
    → Result Text × Editor C
unfolding miss_read
read_with key path offset limit (some entry) e =
    (ok entry.result, record e { activity = note entry.summary e.activity })
read_with key path offset limit none e =
    miss_read (some key) path offset limit e.only_from_cache "read_file result not found in cache" e

-- read_file
unfoldable pub read_file :
    {C : Type 0} → Snapshots C → String → Option ℤ → Option ℤ → Editor C → Result Text × Editor C
unfolding read_with miss_read
read_file git path offset limit e =
    let key = git.read_key e.current_hash path offset limit e.untracked_content in
    if cache_enabled e
    then read_with key path offset limit (get e.reads key) e
    else miss_read none path offset limit e.only_from_cache "read_file cannot honor only_from_cache"
        e

-- replay_rejected_call
unfoldable pub replay_rejected_call :
    {C : Type 0} → Snapshots C → String → String → Editor C → Option String
replay_rejected_call git tool_name args_json e =
    if e.has_cache_dir
    then elim (get e.rejections (git.rejected_key tool_name args_json)) [
      | none ↦ none
      | some rejection ↦ some rejection.message
    ]
    else none

-- record_rejected_call
unfoldable pub record_rejected_call :
    {C : Type 0} → Snapshots C → String → String → Rejection → Editor C → Editor C
record_rejected_call git tool_name args_json rejection e =
    let key = git.rejected_key tool_name args_json in
    if not e.has_cache_dir || e.do_not_cache || e.only_from_cache || is_some (get e.rejections key)
    then e
    else record e { rejections = put e.rejections key rejection }
