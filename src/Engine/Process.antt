-- ===== src/Engine/Process.antt =====
-- router/process_engine.py: ProcessEngine. The subprocess is a parameter: what it answers to one batch
-- of query lines, and which result files it writes. The result files are those of the result
-- directory, by req_id; the choice of the directory is left out.
use synno_db.Base.{
  String, Bool, true, false, not, ◌&&◌, Option, none, some, List, [], ◌∷◌, str_eq, if◌then◌else◌,
}
use synno_db.Base.Dict.{Dict, get, put, remove}
use synno_db.Python.{Float, PythonOps}
use synno_db.Python.Faults.{Fault, synno, Result, ok, err, ◌>>=◌}
use synno_db.Compare.Cells.{Table}

-- A result file: a whole Arrow table, or one that cannot be read.
pub data Content : Type 0 where
  arrow : Table → Content
  corrupt : Content

pub record QueryResult : Type 0 where
  pub req_id : String
  pub error : Option String
  pub elapsed_ms : Float

-- What happens to one batch: the start of the process, the call of runner.run, the query results it
-- gives, the result files the engine writes meanwhile, and whether the child lives afterwards.
pub record Batch : Type 0 where
  pub start_error : Option Fault
  pub raised : Option Fault
  pub query_results : List QueryResult
  pub written : Dict Content
  pub is_running : Bool

pub record ProcessEngine : Type 0 where
  pub closed : Bool
  pub has_proc : Bool
  pub loaded_data : Bool
  pub files : Dict Content

-- health, by whether the binary exists
abbrev pub health : Bool → ProcessEngine → Bool
health exists e = not e.closed && exists

-- _runner
unfoldable pub start : Batch → ProcessEngine → Result (Unit {0}) × ProcessEngine
start b e = elim b.start_error [
  | none ↦ (ok tt, record e { has_proc = true })
  | some f ↦ if e.has_proc then (ok tt, e) else (err f, e)
]

abbrev pub put_all : Dict Content → Dict Content → Dict Content
put_all [] files = files
put_all ((k, c) ∷ written) files = put_all written (put files k c)

-- runner.run, with what it leaves in the result directory
unfoldable pub run_batch : Batch → ProcessEngine → Result (Unit {0}) × ProcessEngine
unfolding put
run_batch b e = elim b.raised [
  | none ↦ (ok tt, record e { files = put_all b.written e.files })
  | some f ↦ (err f, record e { files = put_all b.written e.files })
]

-- if qr.error
abbrev pub has_error : QueryResult → Bool
has_error r = elim r.error [ none ↦ false | some message ↦ not (str_eq message "") ]

-- the loop over the query results: an error, or the time of the last one for this req_id
unfoldable pub server_time :
    PythonOps → String → List QueryResult → Option Float → Result (Option Float)
server_time py req_id [] ms = ok ms
server_time py req_id (r ∷ rs) ms =
    let rest = server_time py req_id rs (
      if str_eq r.req_id req_id && py.float_le py.zero r.elapsed_ms
      then some r.elapsed_ms
      else ms) in
    if has_error r then err (synno "engine reported an error for query") else rest

-- read_and_delete_result, with the tests of `run` around it
unfoldable pub read_result : String → ProcessEngine → Result Table × ProcessEngine
unfolding get remove
read_result req_id e =
    let e' : ProcessEngine = record e { files = remove e.files req_id } in
    elim (get e.files req_id) [
      | none ↦ (err (synno "engine produced no result file (result_<req_id>.arrow)"), e)
      | some corrupt ↦ (err (synno "failed to read engine result"), e')
      | some (arrow table) ↦ (ok table, e')
    ]

-- the end of `run`
unfoldable pub take_result :
    PythonOps → String → Batch → ProcessEngine → Result (Table × Option Float) × ProcessEngine
unfolding server_time read_result
take_result py req_id b e = elim (server_time py req_id b.query_results none) [
  | err f ↦ (err f, e)
  | ok ms ↦ let out = read_result req_id e in (out.0 >>= λ table. ok (table, ms), out.1)
]

-- What an engine does after a step that may raise.
abbrev pub then_do {ℓ} :
    {A : Type ℓ}
    → Result (Unit {0}) × ProcessEngine
    → (ProcessEngine → Result A × ProcessEngine)
    → Result A × ProcessEngine
then_do (ok u, e) f = f e
then_do (err x, e) f = (err x, e)

-- run, by the req_id of the query line
unfoldable pub run :
    PythonOps → String → Batch → ProcessEngine → Result (Table × Option Float) × ProcessEngine
unfolding start run_batch take_result remove
run py req_id b e = then_do (start b e) (λ e'.
    then_do (run_batch b (record e' { files = remove e'.files req_id })) (take_result py req_id b))

-- the end of load_data
unfoldable pub note_loaded : Batch → ProcessEngine → Result (Unit {0}) × ProcessEngine
note_loaded b e =
    if b.is_running
    then (ok tt, record e { loaded_data = true })
    else (err (synno "engine crashed during data loading"), e)

-- load_data
unfoldable pub load_data : Batch → ProcessEngine → Result (Unit {0}) × ProcessEngine
unfolding start run_batch note_loaded
load_data b e =
    if e.loaded_data
    then (ok tt, e)
    else then_do (start b e) (λ e'. then_do (run_batch b e') (note_loaded b))

-- close
unfoldable pub close : ProcessEngine → ProcessEngine
close e = record e { closed = true; loaded_data = false; has_proc = false }
