-- ===== src/Engine/Answering.antt =====
-- router/process_engine.py: exactly when `run` returns a table.
use synno_db.Base.{
  String, ◌≡◌, refl, ◌∙◌, ap, ◌⊎◌, inl, inr, ◌↔◌, true, false, Option, none, some, List, [], ◌∷◌,
  All, Bool-cases, Option-cases, arith, eq_iff,
}
use synno_db.Base.Dict.{Dict, get, remove, get-remove}
use synno_db.Python.{Float, PythonOps}
use synno_db.Python.Faults.{Result, ok, err}
use synno_db.Compare.Cells.{Table}
use synno_db.Engine.Process.{
  Content, arrow, QueryResult, Batch, ProcessEngine, start, put_all, run_batch, has_error,
  server_time, read_result, take_result, then_do, run,
}
use synno_db.Engine.Freshness.{get-put_all, then_do-eq-ok, run-Fresh}

-- The process runs or starts, the batch does not raise, the engine reports no error for any query of
-- it, and writes the table under this req_id.
pub record Answered (req_id : String) (b : Batch) (e : ProcessEngine) (table : Table) : Type 0 where
  pub starts : (b.start_error ≡ none) ⊎ (e.has_proc ≡ true)
  pub ran : b.raised ≡ none
  pub quiet : All (λ r. has_error r ≡ false) b.query_results
  pub written : get (put_all b.written []) req_id ≡ some (arrow table)

start-eq-ok :
    (b : Batch) (e : ProcessEngine)
    → (start b e).0 ≡ ok tt
    → (b.start_error ≡ none) ⊎ (e.has_proc ≡ true)
unfolding start
start-eq-ok b e h = elim (Option-cases b.start_error) [
  | inl calm ↦ inl calm
  | inr (f, failing) ↦ elim (Bool-cases e.has_proc) [
    | inl warm ↦ inr warm
    | inr cold ↦ let clash : err f ≡ ok tt = rw (failing, cold, start) at h in absurd (cc)
  ]
]

start-ok :
    (b : Batch) (e : ProcessEngine)
    → (b.start_error ≡ none) ⊎ (e.has_proc ≡ true)
    → (start b e).0 ≡ ok tt
unfolding start
start-ok b e (inl calm) = rw (calm, start) refl
start-ok b e (inr warm) = elim (Option-cases b.start_error) [
  | inl calm ↦ rw (calm, start) refl
  | inr (f, failing) ↦ rw (failing, warm, start) refl
]

server_time-ok :
    (py : PythonOps) (req_id : String) (rs : List QueryResult) (acc : Option Float)
    → All (λ r. has_error r ≡ false) rs
    → (ms : Option Float) × (server_time py req_id rs acc ≡ ok ms)
unfolding server_time
server_time-ok py req_id [] acc h = (acc, refl)
server_time-ok py req_id (r ∷ rs) acc (good, h) = rw good (server_time-ok py req_id rs _ h)

take_result-ok :
    (py : PythonOps) (req_id : String) (b : Batch) (e : ProcessEngine) (table : Table)
    → All (λ r. has_error r ≡ false) b.query_results
    → get e.files req_id ≡ some (arrow table)
    → (ms : Option Float) × ((take_result py req_id b e).0 ≡ ok (table, ms))
unfolding take_result read_result
take_result-ok py req_id b e table quiet found =
    let (ms, timed) = server_time-ok py req_id b.query_results none quiet in
    (ms, rw (timed, found, take_result, read_result) refl)

then_do-ok {ℓ} :
    {A : Type ℓ} (out : Result (Unit {0}) × ProcessEngine)
    (f : ProcessEngine → Result A × ProcessEngine)
    → out.0 ≡ ok tt
    → then_do out f ≡ f out.1
then_do-ok (ok u, e) f h = refl
then_do-ok (err x, e) f h = absurd (cc)

run-ok :
    (py : PythonOps) (req_id : String) (b : Batch) (e : ProcessEngine) (table : Table)
    → Answered req_id b e table
    → (ms : Option Float) × ((run py req_id b e).0 ≡ ok (table, ms))
unfolding run run_batch get
run-ok py req_id b e table a =
    let started : ProcessEngine = (start b e).1 in
    let clean : ProcessEngine = record started { files = remove started.files req_id } in
    let free : get clean.files req_id ≡ get [] req_id =
      rw (get-remove started.files req_id req_id) (ground (arith, eq_iff req_id req_id)) in
    let ran : (run_batch b clean).0 ≡ ok tt = rw (a.ran, run_batch) refl in
    let files : (run_batch b clean).1.files ≡ put_all b.written clean.files =
      rw (a.ran, run_batch) refl in
    let found : get (run_batch b clean).1.files req_id ≡ some (arrow table) =
      ap (λ (fs : Dict Content). get fs req_id) files
      ∙ get-put_all b.written clean.files [] req_id free
      ∙ a.written in
    let (ms, taken) = take_result-ok py req_id b (run_batch b clean).1 table a.quiet found in
    let whole =
      then_do-ok (start b e) _ (start-ok b e a.starts)
      ∙ then_do-ok (run_batch b clean) (take_result py req_id b) ran in
    (ms, ap (λ o. o.0) whole ∙ taken)

-- `run` returns a table exactly when the process runs or can be started, the batch does not raise, the
-- engine reports no error for any query of it, and the engine wrote that very table under this req_id
-- during this run. What earlier runs left, crashed ones included, has no influence: a stale result is
-- never returned, and never in the way.
pub run-Answered :
    (py : PythonOps) (req_id : String) (b : Batch) (e : ProcessEngine) (table : Table)
    → ((ms : Option Float) × ((run py req_id b e).0 ≡ ok (table, ms))) ↔ Answered req_id b e table
unfolding run
run-Answered py req_id b e table = (
  λ (ms, returned).
      let fresh = run-Fresh py req_id b e table ms returned in
      record {
        starts = start-eq-ok b e (then_do-eq-ok (start b e) _ returned).0;
        ran = fresh.ran;
        quiet = fresh.quiet;
        written = fresh.written;
      },
  run-ok py req_id b e table,
)
