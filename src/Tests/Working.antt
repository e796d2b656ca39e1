-- ===== src/Tests/Working.antt =====
-- The theorems on the workers of engines, applied.
use synno_db.Base.{◌↔◌, Option, ◌≡◌, refl, true, false, ◌&&◌, none, some, [], ◌∷◌, String}
use synno_db.Base.Dict.{contains, get, put, remove}
use synno_db.Python.{Float}
use synno_db.Python.Samples.{sample_ops}
use synno_db.Python.Texts.{chars, same_text}
use synno_db.Python.Faults.{ok, other}
use synno_db.Engine.Process.{
  Batch, ProcessEngine, arrow, start, run_batch, take_result, server_time, read_result, run,
}
use synno_db.Engine.HotLoad.{
  Host, Staging, HotLoad, matches_start, or_zero, ingest_name, sweep_ingest_orphans, close_hot,
}
use synno_db.Engine.Answering.{Answered, run-Answered}
use synno_db.Engine.Orphans.{sweep_ingest_orphans-ingest_name}
use synno_db.Engine.Reclaiming.{ingests, runs, apply_all, Reclaimed, apply_all-Reclaimed}
use synno_db.Tests.Samples.{table_of}

-- A crashed run left a file under the same req_id.
abbrev process : ProcessEngine
process = record {
  closed = false;
  has_proc = false;
  loaded_data = false;
  files = ("r1", arrow (table_of 1)) ∷ [];
}

abbrev batch : Batch
batch = record {
  start_error = none;
  raised = none;
  query_results = record { req_id = "r1"; error = none; elapsed_ms = record { bits = 3 } } ∷ [];
  written = ("r1", arrow (table_of 41)) ∷ [];
  is_running = true;
}

answered : (run sample_ops "r1" batch process).0 ≡ ok (table_of 41, some (record { bits = 3 }))
unfolding run start run_batch take_result server_time read_result get put remove
answered = refl

run-Answered_example :
    ((ms : Option Float) × ((run sample_ops "r1" batch process).0 ≡ ok (table_of 41, ms)))
    ↔ Answered "r1" batch process (table_of 41)
run-Answered_example = run-Answered sample_ops "r1" batch process (table_of 41)

-- This process has the number 7 and started at 12; 8 is dead.
abbrev host : Host
host = record {
  pid_alive = λ pid. same_text pid (chars "7");
  proc_start_time = λ pid. some (chars "12");
  pid = chars "7";
  is_digit = λ c. true;
}

abbrev dead : Host
dead = record host { pid = chars "8" }

abbrev small : Staging
small = record {
  needed = 10;
  free = 100000000;
  total = 100000000;
  suffix = chars "abc";
  write_error = none;
}

abbrev torn : Staging
torn = record small { suffix = chars "def"; write_error = some (other "No space left on device") }

sweep_ingest_orphans-ingest_name_example :
    contains (sweep_ingest_orphans host (ingest_name dead small ∷ [])) (ingest_name dead small) ≡ (
      contains (ingest_name dead small ∷ []) (ingest_name dead small)
      && (host.pid_alive dead.pid
          && matches_start
              (host.proc_start_time dead.pid)
              (or_zero (dead.proc_start_time dead.pid))))
sweep_ingest_orphans-ingest_name_example =
    sweep_ingest_orphans-ingest_name host dead small (ingest_name dead small ∷ []) refl refl refl

abbrev cold : HotLoad
cold = record { process = process; ingest_dir = none; loaded = false }

apply_all-Reclaimed_example :
    Reclaimed
      ("other" ∷ [])
      (apply_all
        (ingests host small ∷ runs sample_ops "r1" batch ∷ ingests host torn ∷ [])
        cold
        ("other" ∷ [])).0
      (apply_all
        (ingests host small ∷ runs sample_ops "r1" batch ∷ ingests host torn ∷ [])
        cold
        ("other" ∷ [])).1
    × ((d : String)
        → contains
            (close_hot
              (apply_all
                (ingests host small ∷ runs sample_ops "r1" batch ∷ ingests host torn ∷ [])
                cold
                ("other" ∷ [])).0
              (apply_all
                (ingests host small ∷ runs sample_ops "r1" batch ∷ ingests host torn ∷ [])
                cold
                ("other" ∷ [])).1).1
            d
          ≡ true
        → contains ("other" ∷ []) d ≡ true)
apply_all-Reclaimed_example =
    apply_all-Reclaimed (ingests host small ∷ runs sample_ops "r1" batch ∷ ingests host torn ∷ [])
      cold ("other" ∷ []) refl refl
