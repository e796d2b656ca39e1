-- ===== src/Editor/Faithful.antt =====
-- tools/workspace_editor.py: a replay from the cache of a run is that run.
use synno_db.Base.{◌≡◌, refl, ◌∙◌, ap, inl, inr, true, not, ◌&&◌, List, [], ◌∷◌}
use synno_db.Python.Faults.{Result, ok, err, Result-cases, ok_injective}
use synno_db.Editor.Edits.{Disk}
use synno_db.Editor.Cache.{Snapshots, Editor, cache_enabled}
use synno_db.Editor.Replay.{run_cached, read_file}
use synno_db.Editor.Keeping.{
  AreFaithful, SameFiles, Extends, Extends-refl, Extends-trans, Frame, Framed,
}
use synno_db.Editor.Recording.{run_cached-Edited}
use synno_db.Editor.Rereading.{read_file-Read}
use synno_db.Editor.Runs.{Call, edits, reads, Reply, step, with_reply, run_calls}
use synno_db.Editor.Stepping.{replaying, InStep, Replays, Edited-Replays, Read-Replays}

module _ {C : Type 0} (git : Snapshots C) (faithful : AreFaithful git) (f : Editor C) where
  step-Replays :
      (c : Call) (e : Editor C) (d : Disk) (reply : Reply)
      → cache_enabled e ≡ true
      → InStep git e d
      → (step git c e).0 ≡ ok reply
      → Extends (step git c e).1 f
      → Replays git faithful f c e d reply (step git c e).1
  unfolding step
  step-Replays (edits edit) e d reply enabled before said kept =
      Edited-Replays git faithful f edit e d (run_cached git edit e) reply enabled before
        (run_cached-Edited git faithful edit e before.clean) said kept
  step-Replays (reads path offset limit) e d reply enabled before said kept =
      Read-Replays git faithful f path offset limit e d (read_file git path offset limit e) reply
        enabled before (read_file-Read git path offset limit e enabled) said kept

  -- What a call that is answered leaves is clean.
  step-clean :
      (c : Call) (e : Editor C)
      → git.IsClean e.current_hash e.disk
      → cache_enabled e ≡ true
      → (reply : Reply) → (step git c e).0 ≡ ok reply
      → git.IsClean (step git c e).1.current_hash (step git c e).1.disk
  unfolding step
  step-clean (edits edit) e clean enabled reply said =
      elim (run_cached-Edited git faithful edit e clean).1 [
        | inl (fault, failing) ↦
            let clash : err fault ≡ ok reply = rw failing at said in absurd (cc)
        | inr (result, done, recorded) ↦ recorded.clean
      ]
  step-clean (reads path offset limit) e clean enabled reply said =
      elim (read_file-Read git path offset limit e enabled).1 [
        | inl (fault, failing) ↦
            let clash : err fault ≡ ok reply = rw failing at said in absurd (cc)
        | inr (result, done, recorded) ↦ rw (recorded.hash, recorded.disk) clean
      ]

  step-Framed :
      (c : Call) (e : Editor C)
      → git.IsClean e.current_hash e.disk
      → cache_enabled e ≡ true
      → Framed e (step git c e).1
  unfolding step
  step-Framed (edits edit) e clean enabled = (run_cached-Edited git faithful edit e clean).0
  step-Framed (reads path offset limit) e clean enabled =
      (read_file-Read git path offset limit e enabled).0

  -- Whether the cache is in use is in the frame.
  enabled_after : {e e1 : Editor C} → Framed e e1 → cache_enabled e ≡ true → cache_enabled e1 ≡ true
  enabled_after framed enabled =
      ap (λ (k : Frame). k.has_snapshotter && k.has_cache_dir && not k.do_not_cache) framed.frame
      ∙ enabled

  run_calls-Extends :
      (cs : List Call) (e : Editor C)
      → git.IsClean e.current_hash e.disk
      → cache_enabled e ≡ true
      → Extends e (run_calls git cs e).1
  unfolding run_calls
  run_calls-Extends [] e clean enabled = Extends-refl e
  run_calls-Extends (c ∷ cs) e clean enabled =
      let framed = step-Framed c e clean enabled in
      elim (Result-cases (step git c e).0) [
        | inl (r, answered) ↦
            rw (answered, run_calls)
              (Extends-trans framed.extends (
                run_calls-Extends cs (step git c e).1 (step-clean c e clean enabled r answered)
                  (enabled_after framed enabled)))
        | inr (fault, failing) ↦ rw (failing, run_calls) framed.extends
      ]

  with_reply-eq-ok :
      (r : Reply) (rest : Result (List Reply)) (replies : List Reply)
      → with_reply r rest ≡ ok replies
      → (rs : List Reply) × (rest ≡ ok rs) × (r ∷ rs ≡ replies)
  with_reply-eq-ok r (ok rs) replies h = (rs, refl, ok_injective h)
  with_reply-eq-ok r (err fault) replies h = absurd (cc)

  -- The rest of a run, after a first call.
  abbrev resume : List Call → Result Reply × Editor C → Result (List Reply) × Editor C
  unfolding run_calls
  resume cs out = elim out.0 [
    | err fault ↦ (err fault, out.1)
    | ok r ↦ (with_reply r (run_calls git cs out.1).0, (run_calls git cs out.1).1)
  ]

  run_calls-replays :
      (cs : List Call) (e : Editor C) (d : Disk) (replies : List Reply)
      → cache_enabled e ≡ true
      → InStep git e d
      → (run_calls git cs e).0 ≡ ok replies
      → Extends (run_calls git cs e).1 f
      → (d1 : Disk) × (run_calls git cs (replaying f e d)
          ≡ (ok replies, replaying f (run_calls git cs e).1 d1))
        × SameFiles git d1 (run_calls git cs e).1.disk
  unfolding run_calls
  run_calls-replays [] e d replies enabled before said kept =
      (d, ap (λ s. (s, replaying f e d)) said, before.same)
  run_calls-replays (c ∷ cs) e d replies enabled before said kept =
      let framed = step-Framed c e before.clean enabled in
      let e1 : Editor C = (step git c e).1 in
      let enabled1 = enabled_after framed enabled in
      elim (Result-cases (step git c e).0) [
        | inl (r, answered) ↦
            let kept1 : Extends (run_calls git cs e1).1 f = rw (answered, run_calls) at kept in
            let said1 : with_reply r (run_calls git cs e1).0 ≡ ok replies =
              rw (answered, run_calls) at said in
            let (rs, later, joined) = with_reply-eq-ok r (run_calls git cs e1).0 replies said1 in
            let clean1 = step-clean c e before.clean enabled r answered in
            let (d1, now, between) =
              step-Replays c e d r enabled before answered
                (Extends-trans (run_calls-Extends cs e1 clean1 enabled1) kept1) in
            let (d2, after, same) = run_calls-replays cs e1 d1 rs enabled1 between later kept1 in
            let gone : (run_calls git cs e1).1 ≡ (run_calls git (c ∷ cs) e).1 =
              rw (answered, run_calls) refl in
            (
              d2,
              ap (λ out. resume cs out) now
                  ∙ ap (λ out. (with_reply r out.0, out.1)) after
                  ∙ (λ i. (ok (joined i), replaying f (gone i) d2)),
              rw (← gone) same,
            )
        | inr (fault, failing) ↦
            let clash : err fault ≡ ok replies = rw (failing, run_calls) at said in absurd (cc)
      ]

-- A run of edits and reads from a clean workspace that returned a list of replies, whether its entries
-- were in the cache or were made, is replayed: the same calls from the same workspace, commit and
-- activity summary, with only_from_cache and the cache that the run left, return the same replies and
-- end at the commit and the activity summary in which the run ended, with the same files in the
-- workspace but for those that the snapshots leave out. A commit must leave a clean workspace,
-- restoring a commit must do so, and clean workspaces of one commit must hold the same files.
pub run_calls-replaying :
    {C : Type 0} (git : Snapshots C)
    → AreFaithful git
    → (calls : List Call) (e : Editor C) (replies : List Reply) → cache_enabled e ≡ true
    → git.IsClean e.current_hash e.disk
    → (run_calls git calls e).0 ≡ ok replies
    → let after = (run_calls git calls e).1 in
      (d : Disk) × (run_calls git calls (replaying after e e.disk)
        ≡ (ok replies, replaying after after d))
      × SameFiles git d after.disk
run_calls-replaying git faithful calls e replies enabled clean said =
    let after : Editor _ = (run_calls git calls e).1 in
    run_calls-replays git faithful after calls e e.disk replies enabled
      (record { clean = clean; clean_replay = clean; same = λ q tracked. refl }) said
      (Extends-refl after)
