-- ===== src/Tests/Editing.antt =====
-- The theorems on the workspace editor, applied to a workspace with one file.
use synno_db.Base.{
  ◌≡◌, refl, true, false, none, some, List, [], ◌∷◌, if◌then◌else◌, ap, Bool, not, sym, ◌∙◌,
}
use synno_db.Base.Dict.{get, put}
use synno_db.Python.Samples.{sample_ops}
use synno_db.Python.Faults.{ok}
use synno_db.Python.Texts.{chars, splitlines}
use synno_db.Python.Paths.{Parts, relative_to}
use synno_db.Editor.Edits.{
  Disk, file, same_parts, Workspace, completed, resolve, guard_target, make_parent, make_dirs,
  unless_readonly, contains_parts, read_text, write_text,
}
use synno_db.Editor.Operations.{substitute, overwrite, perform, write_file, write_at, write_over}
use synno_db.Editor.Reading.{render_numbered_lines}
use synno_db.Editor.Containment.{Contained, perform-Contained}
use synno_db.Editor.Cache.{Snapshots, Editor}
use synno_db.Editor.Replay.{
  run_cached, edit_with, miss_edit, compute_edit, save_edit, read_file, read_with, miss_read,
  read_live, read_impl, read_node,
}
use synno_db.Editor.Runs.{Call, edits, reads, Reply, edited, shown, step, run_calls}
use synno_db.Editor.Keeping.{AreFaithful, SameFiles, file_of}
use synno_db.Editor.Stepping.{replaying}
use synno_db.Editor.Faithful.{run_calls-replaying}

abbrev workspace : Workspace
workspace = record {
  root = "w" ∷ [];
  readonly_files = ("w" ∷ "stub.cpp" ∷ []) ∷ [];
  locate = λ path. "w" ∷ path ∷ [];
  apply_diff = λ original diff creating. ok diff;
  unicode = record { nfkc = λ t. t; is_decimal = λ c. false };
  py = sample_ops;
  cwd = "home" ∷ [];
  log_name = "model.log";
  log_appends = false;
  log_entry = λ type message. chars message;
}

abbrev disk : Disk
disk q = if same_parts q ("w" ∷ "a.cpp" ∷ []) then some (file (chars "x = 1")) else none

perform-Contained_example :
    Contained workspace disk
      (perform workspace (substitute "a.cpp" (chars "1") (chars "2") false) disk).1
perform-Contained_example =
    perform-Contained workspace (substitute "a.cpp" (chars "1") (chars "2") false) disk

-- Snapshots that leave out one file; a commit is the whole workspace.
abbrev is_source : Parts → Bool
is_source q = not (same_parts q ("w" ∷ "a.log" ∷ []))

abbrev git : Snapshots Disk
git = record {
  edit_key = λ hash edit untracked. elim hash [ none ↦ "first" | some d ↦ "later" ];
  read_key = λ hash path offset limit untracked. path;
  rejected_key = λ tool args. tool;
  commit = λ hash key d. some d;
  checkout = λ commit d q. if is_source q then commit q else d q;
  is_tracked = is_source;
  IsClean = λ hash d. elim hash [
    | none ↦ Unit
    | some commit ↦ ((q : Parts) → is_source q ≡ true → d q ≡ commit q)
  ];
}

some_injective : {d d' : Disk} → some d ≡ some d' → d ≡ d'
some_injective h = cc

git-AreFaithful : AreFaithful git
git-AreFaithful = record {
  clean-commit = λ hash key commit d h q tracked. ap (λ (c : Disk). c q) (some_injective h);
  clean-checkout = λ hash commit d clean q tracked. rw tracked refl;
  clean-SameFiles =
      λ commit d d' clean clean' q tracked. ap file_of (clean q tracked ∙ sym (clean' q tracked));
}

abbrev editor : Editor Disk
editor = record {
  workspace = workspace;
  disk = disk;
  current_hash = none;
  patches = [];
  reads = [];
  rejections = [];
  has_snapshotter = true;
  has_cache_dir = true;
  do_not_cache = false;
  only_from_cache = false;
  untracked_content = "";
  activity = [];
}

abbrev calls : List Call
calls = edits (overwrite "a.cpp" (chars "x = 2")) ∷ reads "a.cpp" none none ∷ []

abbrev replies : List Reply
replies =
    edited (record { status = completed; output = chars "Overwrote a.cpp" })
    ∷ shown (chars "     1\tx = 2")
    ∷ []

recorded : (run_calls git calls editor).0 ≡ ok replies
unfolding run_calls step run_cached edit_with miss_edit compute_edit save_edit perform write_file
    write_at write_over guard_target make_parent make_dirs unless_readonly resolve contains_parts
    read_text write_text relative_to read_file read_with miss_read read_live read_impl read_node
    render_numbered_lines splitlines get put
recorded = refl

run_calls-replaying_example :
    (d : Disk) × (run_calls git calls (replaying (run_calls git calls editor).1 editor disk)
      ≡ (ok replies, replaying (run_calls git calls editor).1 (run_calls git calls editor).1 d))
    × SameFiles git d (run_calls git calls editor).1.disk
run_calls-replaying_example =
    run_calls-replaying git git-AreFaithful calls editor replies refl tt recorded
