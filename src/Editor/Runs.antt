-- ===== src/Editor/Runs.antt =====
-- tools/workspace_editor.py: the calls of a run, one after the other; an exception ends the run.
use synno_db.Base.{String, Option, List, [], ◌∷◌}
use synno_db.Base.Int.{ℤ}
use synno_db.Python.Faults.{Result, ok, err}
use synno_db.Python.Texts.{Text}
use synno_db.Editor.Edits.{PatchResult}
use synno_db.Editor.Operations.{Edit}
use synno_db.Editor.Cache.{Snapshots, Editor}
use synno_db.Editor.Replay.{run_cached, read_file}

pub data Call : Type 0 where
  edits : Edit → Call
  reads : String → Option ℤ → Option ℤ → Call

pub data Reply : Type 0 where
  edited : PatchResult → Reply
  shown : Text → Reply

abbrev pub reply_of {ℓ} : {A : Type ℓ} → (A → Reply) → Result A → Result Reply
reply_of f (ok a) = ok (f a)
reply_of f (err e) = err e

unfoldable pub step : {C : Type 0} → Snapshots C → Call → Editor C → Result Reply × Editor C
unfolding run_cached read_file
step git (edits edit) e = let out = run_cached git edit e in (reply_of edited out.0, out.1)
step git (reads path offset limit) e =
    let out = read_file git path offset limit e in (reply_of shown out.0, out.1)

abbrev pub with_reply : Reply → Result (List Reply) → Result (List Reply)
with_reply r (ok rs) = ok (r ∷ rs)
with_reply r (err e) = err e

unfoldable pub run_calls :
    {C : Type 0} → Snapshots C → List Call → Editor C → Result (List Reply) × Editor C
unfolding step
run_calls git [] e = (ok [], e)
run_calls git (c ∷ cs) e =
    let (reply, e') = step git c e in
    let rest = run_calls git cs e' in
    elim reply [ err f ↦ (err f, e') | ok r ↦ (with_reply r rest.0, rest.1) ]
