-- ===== src/Editor/Recording.antt =====
-- tools/workspace_editor.py: what an edit leaves in the cache.
use synno_db.Base.{
  String, ◌≡◌, refl, ◌⊎◌, inl, inr, Bool, true, false, Option, none, some, Bool-cases, Option-cases,
  arith, eq_iff,
}
use synno_db.Base.Dict.{get, put, get-put, get-remove}
use synno_db.Python.Faults.{Fault, Result, ok, err}
use synno_db.Python.Texts.{Text}
use synno_db.Editor.Edits.{Disk, PatchResult}
use synno_db.Editor.Operations.{Edit, perform}
use synno_db.Editor.Cache.{
  PatchEntry, CachedPatch, current, legacy, Snapshots, Editor, cache_enabled, note, settle,
}
use synno_db.Editor.Replay.{
  replay_edit, save_edit, compute_edit, miss_edit, edit_with, run_cached, unlink,
}
use synno_db.Editor.Keeping.{
  AreFaithful, Extends, Extends-refl, Extends-trans, IsStale, put-keeps, remove-keeps, Framed,
  edit_key_of,
}

-- An edit that returned left an entry from which its result and its state are read again.
pub record EditRecorded {C : Type 0} (git : Snapshots C) (edit : Edit) (e : Editor C)
    (result : PatchResult) (e1 : Editor C) : Type 0 where
  pub entry : PatchEntry C
  pub stored : get e1.patches (edit_key_of git edit e) ≡ some (current entry)
  pub same : entry.result ≡ result
  pub hash : e1.current_hash ≡ some entry.snapshot_hash
  pub activity : e1.activity ≡ note entry.summary e.activity
  pub clean : git.IsClean e1.current_hash e1.disk

abbrev pub Edited :
    {C : Type 0} → Snapshots C → Edit → Editor C → Result PatchResult × Editor C → Type 0
Edited git edit e out =
    Framed e out.1
    × (((f : Fault) × (out.0 ≡ err f))
        ⊎ ((result : PatchResult) × (out.0 ≡ ok result) × EditRecorded git edit e result out.1))

module _ {C : Type 0} (git : Snapshots C) (faithful : AreFaithful git) (edit : Edit)
    (e : Editor C) where
  -- The state in which compute_edit takes the snapshot.
  abbrev worked : Disk → PatchResult × Option Text → Editor C
  worked disk done = record e { disk = disk; activity = note done.1 e.activity }

  save_edit-Edited :
      (disk : Disk) (done : PatchResult × Option Text)
      → get e.patches (edit_key_of git edit e) ≡ none
      → Edited git edit e (save_edit git (edit_key_of git edit e) done (worked disk done))
  unfolding save_edit
  save_edit-Edited disk done free =
      let stale : IsStale (get e.patches (edit_key_of git edit e)) = rw free tt in
      let key : String = edit_key_of git edit e in
      elim (Option-cases (git.commit e.current_hash key disk)) [
        | inl failing ↦
            rw (failing, save_edit)
              (
                record {
                  frame = refl;
                  extends = record { patches = λ k old h. h; reads = λ k old h. h };
                },
                inl (_, refl),
              )
        | inr (commit, made) ↦
            let entry : PatchEntry C = record {
              result = done.0;
              snapshot_hash = commit;
              summary = done.1;
            } in
            let grown : Framed e (record (worked disk done) {
              current_hash = some commit;
              patches = put e.patches key (current entry);
            }) =
              record {
                frame = refl;
                extends = record {
                  patches = λ k old. put-keeps e.patches key k (current entry) old stale;
                  reads = λ k old h. h;
                };
              } in
            rw (made, free, save_edit)
              (
                grown,
                inr (
                  done.0,
                  refl,
                  record {
                    entry = entry;
                    stored =
                        rw (get-put e.patches key key (current entry))
                          (ground (arith, eq_iff key key));
                    same = refl;
                    hash = refl;
                    activity = refl;
                    clean = faithful.clean-commit e.current_hash key commit disk made;
                  },
                ),
              )
      ]

  compute_edit-Edited :
      get e.patches (edit_key_of git edit e) ≡ none
      → Edited git edit e (compute_edit git (edit_key_of git edit e) edit e)
  unfolding compute_edit
  compute_edit-Edited free =
      let ran = perform e.workspace edit e.disk in save_edit-Edited ran.1 (settle edit ran.0) free

module _ {C : Type 0} (git : Snapshots C) (faithful : AreFaithful git) (edit : Edit) (e : Editor C)
    (clean : git.IsClean e.current_hash e.disk) where
  abbrev here : Editor C
  here = unlink (edit_key_of git edit e) e

  -- An edit once the entry under its key is dropped.
  unlink-Edited :
      (out : Result PatchResult × Editor C)
      → Extends e here
      → Edited git edit here out
      → Edited git edit e out
  unlink-Edited out grows (framed, inl failing) =
      (record { frame = framed.frame; extends = Extends-trans grows framed.extends }, inl failing)
  unlink-Edited out grows (framed, inr (result, done, recorded)) = (
    record { frame = framed.frame; extends = Extends-trans grows framed.extends },
    inr (
      result,
      done,
      record {
        entry = recorded.entry;
        stored = recorded.stored;
        same = recorded.same;
        hash = recorded.hash;
        activity = recorded.activity;
        clean = recorded.clean;
      },
    ),
  )

  unlink-Extends : IsStale (get e.patches (edit_key_of git edit e)) → Extends e here
  unlink-Extends stale = record {
    patches = λ k old h. remove-keeps e.patches (edit_key_of git edit e) k old stale h;
    reads = λ k old h. h;
  }

  unlinked : get here.patches (edit_key_of git edit e) ≡ none
  unlinked =
      let key : String = edit_key_of git edit e in
      rw (get-remove e.patches key key) (ground (arith, eq_iff key key))

  stays_put : Framed e e
  stays_put = record { frame = refl; extends = Extends-refl e }

  replay_edit-Edited :
      (entry : PatchEntry C)
      → get e.patches (edit_key_of git edit e) ≡ some (current entry)
      → Edited git edit e (replay_edit git entry e)
  unfolding replay_edit
  replay_edit-Edited entry found =
      let framed : Framed e (replay_edit git entry e).1 = record {
        frame = refl;
        extends = record { patches = λ k old h. h; reads = λ k old h. h };
      } in
      (
        framed,
        inr (
          entry.result,
          refl,
          record {
            entry = entry;
            stored = found;
            same = refl;
            hash = refl;
            activity = refl;
            clean = faithful.clean-checkout e.current_hash entry.snapshot_hash e.disk clean;
          },
        ),
      )

  miss_edit-Edited :
      (only : Bool) (why : String)
      → IsStale (get e.patches (edit_key_of git edit e))
      → Edited git edit e (miss_edit git (edit_key_of git edit e) edit only why e)
  unfolding miss_edit
  miss_edit-Edited true why stale = (stays_put, inl (_, refl))
  miss_edit-Edited false why stale =
      unlink-Edited _ (unlink-Extends stale) (compute_edit-Edited git faithful edit here unlinked)

  edit_with-Edited :
      (o : Option (CachedPatch C))
      → get e.patches (edit_key_of git edit e) ≡ o
      → Edited git edit e (edit_with git (edit_key_of git edit e) edit o e)
  unfolding edit_with
  edit_with-Edited none found = miss_edit-Edited e.only_from_cache _ (rw found tt)
  edit_with-Edited (some legacy) found = miss_edit-Edited e.only_from_cache _ (rw found tt)
  edit_with-Edited (some (current entry)) found = replay_edit-Edited entry found

  pub run_cached-Edited : Edited git edit e (run_cached git edit e)
  unfolding run_cached
  run_cached-Edited = elim (Bool-cases (cache_enabled e)) [
    | inl enabled ↦
        rw (enabled, run_cached) (edit_with-Edited (get e.patches (edit_key_of git edit e)) refl)
    | inr disabled ↦ rw (disabled, run_cached) (stays_put, inl (_, refl))
  ]
