-- ===== src/Editor/Cache.antt =====
-- tools/workspace_editor.py: the editor with its cache. The entries of edits, reads and rejected calls
-- lie in one directory under different keys; here each kind has a dictionary of its own.
use Prim.Native.String.{◌++◌ as concat}
use synno_db.Base.{String, Bool, not, ◌&&◌, Option, none, some, List, [], ◌∷◌, ◌++◌}
use synno_db.Base.Dict.{Dict}
use synno_db.Base.Int.{ℤ}
use synno_db.Python.Faults.{message, Result, ok, err}
use synno_db.Python.Paths.{Parts}
use synno_db.Python.Texts.{Text, chars}
use synno_db.Editor.Edits.{Disk, failed, PatchResult, Workspace}
use synno_db.Editor.Operations.{Edit, create, update, delete, substitute, overwrite}

-- ApplyPatchCacheType; `legacy` is an entry without the attribute activity_summary_entry
pub record PatchEntry (C : Type 0) : Type 0 where
  pub result : PatchResult
  pub snapshot_hash : C
  pub summary : Option Text

pub data CachedPatch (C : Type 0) : Type 0 where
  current : PatchEntry C → CachedPatch C
  legacy : CachedPatch C

-- ReadFileCacheType
pub record ReadEntry : Type 0 where
  pub result : Text
  pub summary : Option Text

-- RejectedApplyPatchCacheType
pub record Rejection : Type 0 where
  pub path : Option String
  pub reason : String
  pub message : String

-- C is the type of a commit's name. sha256(stable_json(payload)) of the payloads, and the
-- GitSnapshotter: `commit` is the commit that snapshot(key) makes of the workspace after the current
-- one, or none when it raises, and `checkout` the workspace after restore. `is_tracked` says that no
-- ignore pattern and no excluded file keeps a path out of the snapshots, and `IsClean` that git
-- status reports no change of the workspace since the commit.
pub record Snapshots (C : Type 0) : Type 1 where
  pub edit_key : Option C → Edit → String → String
  pub read_key : Option C → String → Option ℤ → Option ℤ → String → String
  pub rejected_key : String → String → String
  pub commit : Option C → String → Disk → Option C
  pub checkout : C → Disk → Disk
  pub is_tracked : Parts → Bool
  pub IsClean : Option C → Disk → Type 0

pub record Editor (C : Type 0) : Type 0 where
  pub workspace : Workspace
  pub disk : Disk
  pub current_hash : Option C
  pub patches : Dict (CachedPatch C)
  pub reads : Dict ReadEntry
  pub rejections : Dict Rejection
  pub has_snapshotter : Bool
  pub has_cache_dir : Bool
  pub do_not_cache : Bool
  pub only_from_cache : Bool
  pub untracked_content : String
  -- the activity summary of the run
  pub activity : List Text

-- _cache_enabled
abbrev pub cache_enabled : {C : Type 0} → Editor C → Bool
cache_enabled e = e.has_snapshotter && e.has_cache_dir && not e.do_not_cache

-- _record_activity_summary
abbrev pub note : Option Text → List Text → List Text
note none log = log
note (some line) log = log ++ line ∷ []

-- op_type and path of an edit
abbrev pub op_type : Edit → String
op_type (create path diff) = "create_file"
op_type (update path diff) = "update_file"
op_type (delete path) = "delete_file"
op_type (substitute path old_string new_string all) = "replace_in_file"
op_type (overwrite path content) = "write_file"

abbrev pub path_of : Edit → String
path_of (create path diff) = path
path_of (update path diff) = path
path_of (delete path) = path
path_of (substitute path old_string new_string all) = path
path_of (overwrite path content) = path

-- the handler around run_impl(): an exception becomes a failed result
abbrev pub settle : Edit → Result (PatchResult × Option Text) → PatchResult × Option Text
settle edit (ok done) = done
settle edit (err f) = (
  record { status = failed; output = chars (concat "Error applying patch: " (message f)) },
  some (
      chars (
        concat "Apply_patch called: " (
          concat (op_type edit)
            (concat " " (concat (path_of edit) (concat " (FAILED - " (concat (message f) ")"))))))),
)
