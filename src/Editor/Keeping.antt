-- ===== src/Editor/Keeping.antt =====
-- tools/workspace_editor.py: what stays of an editor and of its cache from call to call.
use synno_db.Base.{
  String, ◌≡◌, inl, inr, Bool, true, Option, none, some, Bool-cases, arith, str_eq, eq_iff,
}
use synno_db.Base.Dict.{Dict, get, put, get-put, get-remove, remove}
use synno_db.Base.Int.{ℤ}
use synno_db.Python.Paths.{Parts}
use synno_db.Editor.Edits.{Disk, Node, directory, Workspace}
use synno_db.Editor.Operations.{Edit}
use synno_db.Editor.Cache.{
  PatchEntry, CachedPatch, current, legacy, ReadEntry, Rejection, Snapshots, Editor,
}

-- The file at a path; git keeps no directories of their own.
abbrev pub file_of : Option Node → Option Node
file_of none = none
file_of (some directory) = none
file_of (some n) = some n

-- Two workspaces hold the same files, but for those that the snapshots leave out.
abbrev pub SameFiles : {C : Type 0} → Snapshots C → Disk → Disk → Type 0
SameFiles git d d' = (q : Parts) → git.is_tracked q ≡ true → file_of (d q) ≡ file_of (d' q)

-- A commit leaves a clean workspace, restoring one in a clean workspace does, and clean workspaces of
-- one commit hold the same files.
pub record AreFaithful {C : Type 0} (git : Snapshots C) : Type 0 where
  pub clean-commit :
      (hash : Option C) (key : String) (commit : C) (d : Disk)
      → git.commit hash key d ≡ some commit
      → git.IsClean (some commit) d
  pub clean-checkout :
      (hash : Option C) (commit : C) (d : Disk)
      → git.IsClean hash d
      → git.IsClean (some commit) (git.checkout commit d)
  pub clean-SameFiles :
      (commit : C) (d d' : Disk)
      → git.IsClean (some commit) d
      → git.IsClean (some commit) d'
      → SameFiles git d d'

-- Every entry that can be replayed stays.
pub record Extends {C : Type 0} (e e' : Editor C) : Type 0 where
  pub patches :
      (k : String) (entry : PatchEntry C)
      → get e.patches k ≡ some (current entry)
      → get e'.patches k ≡ some (current entry)
  pub reads :
      (k : String) (entry : ReadEntry) → get e.reads k ≡ some entry → get e'.reads k ≡ some entry

pub Extends-refl : {C : Type 0} (e : Editor C) → Extends e e
Extends-refl e = record { patches = λ k entry h. h; reads = λ k entry h. h }

pub Extends-trans :
    {C : Type 0} {e e' e'' : Editor C} → Extends e e' → Extends e' e'' → Extends e e''
Extends-trans a b = record {
  patches = λ k entry h. b.patches k entry (a.patches k entry h);
  reads = λ k entry h. b.reads k entry (a.reads k entry h);
}

-- The key is free of an entry that can be replayed.
abbrev pub IsStale : {C : Type 0} → Option (CachedPatch C) → Type 0
IsStale none = Unit
IsStale (some legacy) = Unit
IsStale (some (current entry)) = ⊥

pub put-keeps :
    {C : Type 0} (patches : Dict (CachedPatch C)) (key k : String) (new : CachedPatch C)
    (entry : PatchEntry C)
    → IsStale (get patches key)
    → get patches k ≡ some (current entry)
    → get (put patches key new) k ≡ some (current entry)
put-keeps patches key k new entry stale h = elim (Bool-cases (str_eq key k)) [
  | inl same ↦ let e : key ≡ k = ground (arith, eq_iff key k) in absurd (rw (e, h) at stale)
  | inr other ↦ rw (get-put patches key k new, other) h
]

pub remove-keeps :
    {C : Type 0} (patches : Dict (CachedPatch C)) (key k : String) (entry : PatchEntry C)
    → IsStale (get patches key)
    → get patches k ≡ some (current entry)
    → get (remove patches key) k ≡ some (current entry)
remove-keeps patches key k entry stale h = elim (Bool-cases (str_eq key k)) [
  | inl same ↦ let e : key ≡ k = ground (arith, eq_iff key k) in absurd (rw (e, h) at stale)
  | inr other ↦ rw (get-remove patches key k, other) h
]

-- What no call changes.
pub record Frame : Type 0 where
  pub workspace : Workspace
  pub untracked_content : String
  pub has_snapshotter : Bool
  pub has_cache_dir : Bool
  pub do_not_cache : Bool
  pub only_from_cache : Bool
  pub rejections : Dict Rejection

abbrev pub frame_of : {C : Type 0} → Editor C → Frame
frame_of e = record {
  workspace = e.workspace;
  untracked_content = e.untracked_content;
  has_snapshotter = e.has_snapshotter;
  has_cache_dir = e.has_cache_dir;
  do_not_cache = e.do_not_cache;
  only_from_cache = e.only_from_cache;
  rejections = e.rejections;
}

pub record Framed {C : Type 0} (e e1 : Editor C) : Type 0 where
  pub frame : frame_of e1 ≡ frame_of e
  pub extends : Extends e e1

abbrev pub edit_key_of : {C : Type 0} → Snapshots C → Edit → Editor C → String
edit_key_of git edit e = git.edit_key e.current_hash edit e.untracked_content

abbrev pub read_key_of :
    {C : Type 0} → Snapshots C → String → Option ℤ → Option ℤ → Editor C → String
read_key_of git path offset limit e =
    git.read_key e.current_hash path offset limit e.untracked_content
