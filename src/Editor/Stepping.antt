-- ===== src/Editor/Stepping.antt =====
-- tools/workspace_editor.py: one call that is replayed from the cache of a run.
use synno_db.Base.{String, ◌≡◌, refl, sym, ◌∙◌, ap, inl, inr, true, Option, some, List}
use synno_db.Base.Dict.{get}
use synno_db.Base.Int.{ℤ}
use synno_db.Python.Faults.{Result, ok, err}
use synno_db.Python.Texts.{Text}
use synno_db.Editor.Edits.{Disk, PatchResult}
use synno_db.Editor.Operations.{Edit}
use synno_db.Editor.Cache.{PatchEntry, current, ReadEntry, Snapshots, Editor, cache_enabled, note}
use synno_db.Editor.Replay.{replay_edit, edit_with, run_cached, read_with, read_file}
use synno_db.Editor.Keeping.{
  AreFaithful, SameFiles, Extends, Frame, frame_of, Framed, edit_key_of, read_key_of,
}
use synno_db.Editor.Recording.{EditRecorded, Edited}
use synno_db.Editor.Rereading.{Read}
use synno_db.Editor.Runs.{Call, edits, reads, Reply, edited, shown, reply_of, step}

-- An editor that only reads the cache of another one.
abbrev reading : {C : Type 0} → Editor C → Frame → Disk → Option C → List Text → Editor C
reading f frame disk hash activity = record {
  workspace = frame.workspace;
  disk = disk;
  current_hash = hash;
  patches = f.patches;
  reads = f.reads;
  rejections = frame.rejections;
  has_snapshotter = frame.has_snapshotter;
  has_cache_dir = frame.has_cache_dir;
  do_not_cache = frame.do_not_cache;
  only_from_cache = true;
  untracked_content = frame.untracked_content;
  activity = activity;
}

-- The state of e with the cache of f, from which it only replays, and with a workspace of its own.
abbrev pub replaying : {C : Type 0} → Editor C → Editor C → Disk → Editor C
replaying f e d = reading f (frame_of e) d e.current_hash e.activity

-- The replay's workspace and that of the run are clean at the commit, and hold the same files.
pub record InStep {C : Type 0} (git : Snapshots C) (e : Editor C) (d : Disk) : Type 0 where
  pub clean : git.IsClean e.current_hash e.disk
  pub clean_replay : git.IsClean e.current_hash d
  pub same : SameFiles git d e.disk

module _ {C : Type 0} (git : Snapshots C) (faithful : AreFaithful git) (f : Editor C) where
  -- The replay of a call gives the same reply and keeps in step.
  abbrev pub Replays : Call → Editor C → Disk → Reply → Editor C → Type 0
  Replays c e d reply e1 =
      (d1 : Disk) × (step git c (replaying f e d) ≡ (ok reply, replaying f e1 d1))
      × InStep git e1 d1

  run_cached-hit :
      (edit : Edit) (e : Editor C) (d : Disk) (entry : PatchEntry C)
      → cache_enabled e ≡ true
      → get f.patches (edit_key_of git edit e) ≡ some (current entry)
      → run_cached git edit (replaying f e d) ≡ replay_edit git entry (replaying f e d)
  unfolding run_cached edit_with
  run_cached-hit edit e d entry enabled found = rw (enabled, found, run_cached) refl

  replay_edit-replaying :
      (edit : Edit) (e : Editor C) (d : Disk) (result : PatchResult) (e1 : Editor C)
      → Framed e e1
      → (recorded : EditRecorded git edit e result e1)
      → replay_edit git recorded.entry (replaying f e d)
        ≡ (ok result, replaying f e1 (git.checkout recorded.entry.snapshot_hash d))
  unfolding replay_edit
  replay_edit-replaying edit e d result e1 framed recorded = λ i. (
    ok (recorded.same i),
    reading f (sym framed.frame i) (git.checkout recorded.entry.snapshot_hash d)
        (sym recorded.hash i) (sym recorded.activity i),
  )

  -- The workspace after restoring the entry's commit.
  checkout-InStep :
      (edit : Edit) (e : Editor C) (d : Disk) (result : PatchResult) (e1 : Editor C)
      → InStep git e d
      → (recorded : EditRecorded git edit e result e1)
      → InStep git e1 (git.checkout recorded.entry.snapshot_hash d)
  checkout-InStep edit e d result e1 before recorded =
      let commit = recorded.entry.snapshot_hash in
      let replayed = faithful.clean-checkout e.current_hash commit d before.clean_replay in
      record {
        clean = recorded.clean;
        clean_replay = rw (recorded.hash) replayed;
        same =
            faithful.clean-SameFiles commit (git.checkout commit d) e1.disk replayed
              (rw (recorded.hash) at recorded.clean);
      }

  pub Edited-Replays :
      (edit : Edit) (e : Editor C) (d : Disk) (out : Result PatchResult × Editor C) (reply : Reply)
      → cache_enabled e ≡ true
      → InStep git e d
      → Edited git edit e out
      → reply_of edited out.0 ≡ ok reply
      → Extends out.1 f
      → Replays (edits edit) e d reply out.1
  unfolding step
  Edited-Replays edit e d out reply enabled before (framed, inl (fault, failing)) said kept =
      let clash : err fault ≡ ok reply = rw failing at said in absurd (cc)
  Edited-Replays edit e d out reply enabled before (framed, inr (result, done, recorded)) said
        kept =
      let found = kept.patches _ recorded.entry recorded.stored in
      let d1 = git.checkout recorded.entry.snapshot_hash d in
      let ran : run_cached git edit (replaying f e d) ≡ (ok result, replaying f out.1 d1) =
        run_cached-hit edit e d recorded.entry enabled found
        ∙ replay_edit-replaying edit e d result out.1 framed recorded in
      (
        d1,
        ap (λ o. (reply_of edited o.0, o.1)) ran
            ∙ ap (λ s. (s, replaying f out.1 d1)) (rw done at said),
        checkout-InStep edit e d result out.1 before recorded,
      )

  read_file-hit :
      (path : String) (offset limit : Option ℤ) (e : Editor C) (d : Disk) (entry : ReadEntry)
      → cache_enabled e ≡ true
      → get f.reads (read_key_of git path offset limit e) ≡ some entry
      → read_file git path offset limit (replaying f e d)
        ≡ (ok entry.result, reading f (frame_of e) d e.current_hash (note entry.summary e.activity))
  unfolding read_file read_with
  read_file-hit path offset limit e d entry enabled found = rw (enabled, found, read_file) refl

  pub Read-Replays :
      (path : String) (offset limit : Option ℤ) (e : Editor C) (d : Disk)
      (out : Result Text × Editor C) (reply : Reply)
      → cache_enabled e ≡ true
      → InStep git e d
      → Read git path offset limit e out
      → reply_of shown out.0 ≡ ok reply
      → Extends out.1 f
      → Replays (reads path offset limit) e d reply out.1
  unfolding step
  Read-Replays path offset limit e d out reply enabled before (framed, inl (fault, failing)) said
        kept =
      let clash : err fault ≡ ok reply = rw failing at said in absurd (cc)
  Read-Replays path offset limit e d out reply enabled before (framed, inr (result, done, recorded))
        said kept =
      let found = kept.reads _ recorded.entry recorded.stored in
      let ran : read_file git path offset limit (replaying f e d)
          ≡ (ok result, replaying f out.1 d) =
        read_file-hit path offset limit e d recorded.entry enabled found ∙ (λ i. (
          ok (recorded.same i),
          reading f (sym framed.frame i) d (sym recorded.hash i) (sym recorded.activity i),
        )) in
      (
        d,
        ap (λ o. (reply_of shown o.0, o.1)) ran
            ∙ ap (λ s. (s, replaying f out.1 d)) (rw done at said),
        record {
          clean = rw (recorded.hash, recorded.disk) before.clean;
          clean_replay = rw (recorded.hash) before.clean_replay;
          same = rw (recorded.disk) before.same;
        },
      )
