-- ===== src/Engine/HotLoad.antt =====
-- router/process_engine.py: ShmHotLoadEngine, and of router/shm_transport.py the budget and the sweep of
-- the directories that dead processes left. The bytes of the segments are left out: of shared memory
-- the model has the names of the ingest directories.
use Prim.Native.Nat.{◌/◌}
use Prim.Native.Char.{Char, code}
use synno_db.Base.{
  ℕ, ◌+◌, ◌*◌, String, Bool, true, false, not, ◌&&◌, Option, none, some, List, [], ◌∷◌, ◌++◌, ◌==◌,
  leb, all, if◌then◌else◌,
}
use synno_db.Base.Dict.{StrSet, add, discard}
use synno_db.Python.{Float, PythonOps}
use synno_db.Python.Faults.{resource, other, Fault, Result, ok, err}
use synno_db.Python.Texts.{Text, chars, text_of, same_text, after_prefix}
use synno_db.Compare.Cells.{Table}
use synno_db.Engine.Process.{Batch, ProcessEngine, health, run, load_data, close}

-- The processes of the machine: which are alive and when they started, this one, and str.isdigit.
pub record Host : Type 0 where
  pub pid_alive : Text → Bool
  pub proc_start_time : Text → Option Text
  pub pid : Text
  pub is_digit : Char → Bool

-- What one ingest meets: the size of the tables, the room in shared memory, the random end of the
-- name that mkdtemp chooses, and the exception of a write.
pub record Staging : Type 0 where
  pub needed : ℕ
  pub free : ℕ
  pub total : ℕ
  pub suffix : Text
  pub write_error : Option Fault

pub record HotLoad : Type 0 where
  pub process : ProcessEngine
  pub ingest_dir : Option String
  pub loaded : Bool

abbrev pub ingest_prefix : Text
ingest_prefix = chars "synno-ingest-"

abbrev pub is_dash : Char → Bool
is_dash c = code c == 45

-- text.split("-")
abbrev pub begin : Char → List Text → List Text
begin c [] = (c ∷ []) ∷ []
begin c (w ∷ ws) = (c ∷ w) ∷ ws

unfoldable pub split_dash : Text → List Text
split_dash [] = [] ∷ []
split_dash (c ∷ cs) = let rest = split_dash cs in if is_dash c then [] ∷ rest else begin c rest

-- s.isdigit()
abbrev pub is_number : Host → Text → Bool
is_number host [] = false
is_number host (c ∷ cs) = all host.is_digit (c ∷ cs)

-- proc_start_time(pid) in (None, tagged_start)
abbrev pub matches_start : Option Text → Text → Bool
matches_start none tagged = true
matches_start (some start) tagged = same_text start tagged

-- The tests of sweep_ingest_orphans on the parts of a name behind the prefix.
abbrev pub is_orphan_of : Host → List Text → Bool
is_orphan_of host [] = false
is_orphan_of host (pid ∷ []) = is_number host pid && not (host.pid_alive pid)
is_orphan_of host (pid ∷ tagged ∷ rest) =
    is_number host pid
    && not (host.pid_alive pid && matches_start (host.proc_start_time pid) tagged)

unfoldable pub is_orphan : Host → String → Bool
unfolding after_prefix split_dash
is_orphan host name = elim (after_prefix ingest_prefix (chars name)) [
  | none ↦ false
  | some rest ↦ is_orphan_of host (split_dash rest)
]

-- sweep_ingest_orphans, on the names of the directories
unfoldable pub sweep_ingest_orphans : Host → StrSet → StrSet
unfolding is_orphan
sweep_ingest_orphans host [] = []
sweep_ingest_orphans host (d ∷ ds) =
    let rest = sweep_ingest_orphans host ds in if is_orphan host d then rest else d ∷ rest

abbrev pub at_least_reserve : ℕ
at_least_reserve = 64 * 1024 * 1024

-- max(64 MiB, total // 20)
abbrev pub reserve : ℕ → ℕ
reserve total = if leb at_least_reserve (total / 20) then total / 20 else at_least_reserve

-- check_shm_budget
unfoldable pub check_shm_budget : Staging → Bool
check_shm_budget s = leb (s.needed + reserve s.total) s.free

-- The start of ingest: a prior snapshot is dropped.
unfoldable pub drop_prior : HotLoad → StrSet → HotLoad × StrSet
unfolding discard
drop_prior e dirs = elim e.ingest_dir [
  | none ↦ (e, dirs)
  | some d ↦ (
    record e {
      process = record (e.process) { loaded_data = false };
      ingest_dir = none;
      loaded = false;
    },
    discard dirs d,
  )
]

abbrev pub or_zero : Option Text → Text
or_zero none = chars "0"
or_zero (some start) = start

-- f"{_INGEST_PREFIX}{pid}-{start}-", with mkdtemp's suffix
abbrev pub ingest_name : Host → Staging → String
ingest_name host s = text_of (
    ingest_prefix
    ++ (host.pid ++ "-" ∷ (or_zero (host.proc_start_time host.pid) ++ "-" ∷ s.suffix)))

-- write_arrow_segments, and the state that follows it: results go to the new directory
unfoldable pub stage : Host → Staging → HotLoad → StrSet → Result (Unit {0}) × HotLoad × StrSet
unfolding add discard
stage host s e dirs =
    let dir = ingest_name host s in
    elim s.write_error [
      | none ↦ (
        ok tt,
        record {
          process = record (e.process) { files = [] };
          ingest_dir = some dir;
          loaded = true;
        },
        add dirs dir,
      )
      | some f ↦ (err f, e, discard (add dirs dir) dir)
    ]

-- ingest
unfoldable pub ingest : Host → Staging → HotLoad → StrSet → Result (Unit {0}) × HotLoad × StrSet
unfolding drop_prior sweep_ingest_orphans check_shm_budget stage
ingest host s e dirs =
    let (e', left) = drop_prior e dirs in
    let swept = sweep_ingest_orphans host left in
    if check_shm_budget s
    then stage host s e' swept
    else (err (resource "not enough shared memory to hot-load this database"), e', swept)

-- health of ShmHotLoadEngine
abbrev pub health_hot : Bool → HotLoad → Bool
health_hot exists e = health exists e.process && e.loaded

-- run of ShmHotLoadEngine
unfoldable pub run_hot :
    PythonOps → String → Batch → HotLoad → Result (Table × Option Float) × HotLoad
unfolding run
run_hot py req_id b e =
    let out = run py req_id b e.process in
    if e.loaded
    then (out.0, record e { process = out.1 })
    else (err (other "run() called before ingest()"), e)

-- load_data of ShmHotLoadEngine
unfoldable pub load_hot : Batch → HotLoad → Result (Unit {0}) × HotLoad
unfolding load_data
load_hot b e =
    let out = load_data b e.process in
    if e.loaded
    then (out.0, record e { process = out.1 })
    else (err (other "load_data() called before ingest()"), e)

-- close of ShmHotLoadEngine
unfoldable pub close_hot : HotLoad → StrSet → HotLoad × StrSet
unfolding close discard
close_hot e dirs = (
  record { process = close e.process; ingest_dir = none; loaded = false },
  elim e.ingest_dir [ none ↦ dirs | some d ↦ discard dirs d ],
)
