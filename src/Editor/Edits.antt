-- ===== src/Editor/Edits.antt =====
-- tools/workspace_editor.py: the operations on files, without the cache. Statistics and log lines are
-- left out; what an operation adds to the activity summary is part of its result.
use Prim.Native.String.{◌++◌ as concat}
use synno_db.Base.{
  String, Bool, true, false, ◌&&◌, ◌||◌, Option, none, some, List, [], ◌∷◌, ◌++◌, ◌==◌, str_eq,
  get_or_else, is_some, if◌then◌else◌,
}
use synno_db.Python.{PythonOps}
use synno_db.Python.Faults.{other, Result, ok, err}
use synno_db.Python.Paths.{Parts, relative_to}
use synno_db.Python.Texts.{Text, chars}
use synno_db.Editor.Diffs.{Unicode, count_diff_operations}

-- What stands at a path: a text in UTF-8, another file, or a directory.
pub data Node : Type 0 where
  file : Text → Node
  binary directory : Node

abbrev pub Disk : Type 0
Disk = Parts → Option Node

abbrev pub same_parts : Parts → Parts → Bool
same_parts [] [] = true
same_parts (p ∷ ps) (q ∷ qs) = str_eq p q && same_parts ps qs
same_parts _ _ = false

abbrev pub put_node : Parts → Option Node → Disk → Disk
put_node t node d q = if same_parts t q then node else d q

-- target.read_text(encoding="utf-8")
unfoldable pub read_text : Disk → Parts → Result Text
read_text d t = elim (d t) [
  | none ↦ err (other "[Errno 2] No such file or directory")
  | some (file text) ↦ ok text
  | some binary ↦ err (other "'utf-8' codec can't decode byte")
  | some directory ↦ err (other "[Errno 21] Is a directory")
]

-- target.write_text(content, encoding="utf-8")
unfoldable pub write_text : Parts → Text → Disk → Result (Unit {0}) × Disk
write_text t content d = elim (d t) [
  | some directory ↦ (err (other "[Errno 21] Is a directory"), d)
  | some binary ↦ (ok tt, put_node t (some (file content)) d)
  | some (file text) ↦ (ok tt, put_node t (some (file content)) d)
  | none ↦ (ok tt, put_node t (some (file content)) d)
]

-- target.mkdir(parents=True, exist_ok=True), for the names ps below base
unfoldable pub make_dirs : Parts → Parts → Disk → Result (Unit {0}) × Disk
make_dirs base [] d = (ok tt, d)
make_dirs base (p ∷ ps) d = elim (d (base ++ p ∷ [])) [
  | none ↦ make_dirs (base ++ p ∷ []) ps (put_node (base ++ p ∷ []) (some directory) d)
  | some directory ↦ make_dirs (base ++ p ∷ []) ps d
  | some (file text) ↦ (err (other "[Errno 17] File exists"), d)
  | some binary ↦ (err (other "[Errno 17] File exists"), d)
]

pub data Status : Type 0 where
  completed failed : Status

pub record PatchResult : Type 0 where
  pub status : Status
  pub output : Text

-- What a raw operation gives: its result with its line of the activity summary, or an exception, and
-- the disk afterwards.
abbrev pub Ran : Type 0
Ran = Result (PatchResult × Option Text) × Disk

-- The editor, as far as the raw operations use it, and what they call outside of the repository.
pub record Workspace : Type 0 where
  pub root : Parts
  pub readonly_files : List Parts
  -- the resolved path of a text, relative ones from the root
  pub locate : String → Parts
  -- agents.apply_diff(original, diff, mode), with mode="create" for true
  pub apply_diff : Text → Text → Bool → Result Text
  pub unicode : Unicode
  pub py : PythonOps
  -- what log_tool_call_error works with: the working directory of the process, the name of the log
  -- file, whether the model has an entry of this run already, and the entry's text by its type and
  -- message
  pub cwd : Parts
  pub log_name : String
  pub log_appends : Bool
  pub log_entry : String → String → Text

abbrev pub parent : Parts → Parts
parent [] = []
parent (p ∷ []) = []
parent (p ∷ q ∷ ps) = p ∷ parent (q ∷ ps)

-- _resolve, without the directory that ensure_parent makes
unfoldable pub resolve : Workspace → String → Result Parts
resolve w path =
    let target = w.locate path in
    elim (relative_to target w.root) [
      | none ↦ err (other (concat "Operation outside workspace: " path))
      | some rest ↦
          if same_parts (parent target) w.root
          then ok target
          else err (other (concat "Operation outside allowed root dir (no subdirs): " path))
    ]

abbrev pub join_parts : Parts → Text
join_parts [] = chars "."
join_parts (p ∷ []) = chars p
join_parts (p ∷ q ∷ ps) = chars p ++ (chars "/" ++ join_parts (q ∷ ps))

-- target.relative_to(self._root).as_posix()
abbrev pub relative_path : Workspace → Parts → Text
unfolding relative_to
relative_path w target = join_parts (get_or_else (relative_to target w.root) [])

unfoldable pub contains_parts : List Parts → Parts → Bool
contains_parts [] t = false
contains_parts (p ∷ ps) t = same_parts p t || contains_parts ps t

-- target in self._readonly_files
abbrev pub is_readonly : Workspace → Parts → Bool
unfolding contains_parts
is_readonly w t = contains_parts w.readonly_files t

-- set_readonly: list.append and list.remove
abbrev pub remove_parts : List Parts → Parts → List Parts
remove_parts [] t = []
remove_parts (p ∷ ps) t = let rest = remove_parts ps t in if same_parts p t then ps else p ∷ rest

unfoldable pub set_readonly : String → Bool → Workspace → Workspace
unfolding contains_parts
set_readonly filename readonly w =
    let path = w.root ++ filename ∷ [] in
    if readonly
    then if is_readonly w path
      then w
      else record w { readonly_files = w.readonly_files ++ path ∷ [] }
    else record w { readonly_files = remove_parts w.readonly_files path }

abbrev pub fail : Text → Option Text → Disk → Ran
fail output summary d = (ok (record { status = failed; output = output }, summary), d)

abbrev pub complete : Text → Text → Disk → Ran
complete output summary d = (ok (record { status = completed; output = output }, some summary), d)

-- Apply_patch called: <action> file <path>
abbrev pub patch_summary : String → String → Text
patch_summary action path =
    chars "Apply_patch called: " ++ (chars action ++ (chars " file " ++ chars path))

abbrev pub readonly_summary : String → String → Text
readonly_summary action path = patch_summary action path ++ chars " (FAILED - read-only)"

-- The test of the resolved path, and what it says when the file is read-only.
unfoldable pub unless_readonly :
    Workspace → (Text → Text × Option Text) → (Disk → Parts → Ran) → Disk → Parts → Ran
unfolding contains_parts
unless_readonly w refusal run d t =
    if is_readonly w t
    then fail (refusal (relative_path w t)).0 (refusal (relative_path w t)).1 d
    else run d t

-- target.parent.mkdir(parents=True, exist_ok=True), with ensure_parent
unfoldable pub make_parent : Bool → Parts → Disk → Result (Unit {0}) × Disk
unfolding make_dirs
make_parent ensure t d = if ensure then make_dirs [] (parent t) d else (ok tt, d)

-- An operation on the resolved path, with its ensure_parent.
unfoldable pub guard_target :
    Workspace → Bool → String → (Text → Text × Option Text) → (Disk → Parts → Ran) → Disk → Ran
unfolding resolve make_parent unless_readonly
guard_target w ensure path refusal run d = elim (resolve w path) [
  | err f ↦ (err f, d)
  | ok t ↦
      let (made, d') = make_parent ensure t d in
      elim made [ err f ↦ (err f, d') | ok u ↦ unless_readonly w refusal run d' t ]
]

abbrev pub written : Result (Unit {0}) × Disk → Ran → Ran
written (err f, d) done = (err f, d)
written (ok u, d) done = done

-- the rest of _create_file_impl
unfoldable pub create_at : Workspace → String → Text → Disk → Parts → Ran
unfolding write_text count_diff_operations
create_at w path diff d t = elim (w.apply_diff [] diff true) [
  | err f ↦ (err f, d)
  | ok content ↦
      let out = write_text t content d in
      written out (
        if (count_diff_operations diff).1 == 0
        then if is_some (d t)
          then complete (chars "Overwrote existing file " ++ relative_path w t)
              (patch_summary "Create" path ++ chars " (overwrote existing file)") out.1
          else complete (chars "Created " ++ relative_path w t) (patch_summary "Create" path) out.1
        else (err (other "Create operation should not have deleted lines"), out.1))
]

abbrev pub create_refusal : String → Text → Text × Option Text
create_refusal path relative = (
  chars "Error: Attempting to create read-only file: " ++ relative,
  some (readonly_summary "Create" path),
)

-- _create_file_impl
unfoldable pub create_file : Workspace → String → Option Text → Disk → Ran
unfolding guard_target create_at
create_file w path diff d =
    guard_target w true path (create_refusal path) (create_at w path (get_or_else diff [])) d
