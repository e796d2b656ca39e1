-- ===== src/Router/Route/Check.antt =====
-- router/router.py: step 6 of `route`, the cross-check of an engine's result against DuckDB.
use Prim.Native.String.{◌++◌ as concat}
use synno_db.Base.{ℕ, String, Bool, true, false, ◌&&◌, Option, none, some, List, if◌then◌else◌}
use synno_db.Base.Dict.{put}
use synno_db.Python.{Float, PythonOps, is_truthy}
use synno_db.Compare.Cells.{Table}
use synno_db.Compare.Tables.{results_equal}
use synno_db.Compare.Diff.{results_diff}
use synno_db.Compare.Diff.Places.{Report}
use synno_db.Registry.{EngineBinding, quarantine}
use synno_db.Bind.{SqlOps}
use synno_db.Router.Trace.{RouteTrace, GuardResult, add_guard}
use synno_db.Router.Guards.{returned, raised, Params, Conn, World}
use synno_db.Router.State.{QueryRouter, ask, note_check_error, should_cross_check, record_failure}
use synno_db.Router.Route.Ending.{Step, fall_back, serve_reference, serve_engine, failed}

-- float_tol = 1e-6 and limit = 8, the defaults of results_equal and results_diff
abbrev pub float_tol : Float
float_tol = record { bits = 0x3EB0C6F7A0B5ED8D }

abbrev pub diff_limit : ℕ
diff_limit = 8

abbrev pub key_indices : SqlOps → String → Table → Option (List ℕ)
key_indices sql query reference =
    if sql.has_order_by query then sql.order_by_key_indices query reference.column_names else none

unfoldable pub verdict : PythonOps → SqlOps → String → Table → Table → Option Bool
verdict py sql query table reference =
    results_equal py float_tol table reference (sql.has_order_by query)
      (key_indices sql query reference) none none

unfoldable pub divergence : PythonOps → SqlOps → String → Table → Table → Option Report
divergence py sql query table reference =
    results_diff py float_tol diff_limit table reference (sql.has_order_by query)
      (key_indices sql query reference) none none

abbrev cross_check_guard : String → GuardResult
cross_check_guard detail = record { name = "cross_check"; ok = false; detail = detail }

abbrev pub sideline : EngineBinding → QueryRouter → QueryRouter
sideline b s = record s { registry = quarantine b.template_id s.registry }

-- a result that is known to differ from the reference
unfoldable pub diverged :
    PythonOps
    → SqlOps
    → World
    → String
    → EngineBinding
    → Table
    → Table
    → RouteTrace
    → QueryRouter
    → Step
unfolding serve_reference
diverged py sql w query b table reference t s = elim (divergence py sql query table reference) [
  | none ↦ (failed "results_diff raised", s)
  | some report ↦
      serve_reference (add_guard (cross_check_guard (w.describe b report)) t) reference b
        (sideline b s)
]

-- the comparison, once the reference is in hand
unfoldable pub judge :
    PythonOps
    → SqlOps
    → World
    → String
    → EngineBinding
    → Table
    → Table
    → RouteTrace
    → QueryRouter
    → Step
unfolding serve_reference serve_engine diverged
judge py sql w query b table reference t s = elim (verdict py sql query table reference) [
  | none ↦
      serve_reference
        (add_guard
          (cross_check_guard "cross-check comparison error: IndexError('tuple index out of range')")
          t)
        reference b (record_failure b (note_check_error s))
  | some true ↦ serve_engine (record t { results_match = some true }) table b s
  | some false ↦
      diverged py sql w query b table reference (record t { results_match = some false }) s
]

-- self._template_timing[...] = (bespoke_ms, duckdb_ms), if both are truthy
unfoldable pub note_timing : PythonOps → EngineBinding → Float → Float → QueryRouter → QueryRouter
note_timing py b bespoke_ms duckdb_ms s =
    if is_truthy py bespoke_ms && is_truthy py duckdb_ms
    then record s { template_timing = put s.template_timing b.template_id (bespoke_ms, duckdb_ms) }
    else s

-- step 6, on a connection
unfoldable pub cross_check :
    PythonOps
    → SqlOps
    → World
    → Conn
    → String
    → Option Params
    → EngineBinding
    → Table
    → Float
    → RouteTrace
    → QueryRouter
    → Step
unfolding fall_back judge
cross_check py sql w conn query params b table bespoke_ms t s =
    elim (conn.execute_timed query params) [
      | raised e ↦
          fall_back true (concat "cross-check reference error: " e) t
            (note_check_error (ask query s))
      | returned (reference, ms) ↦
          judge py sql w query b table reference
            (record t { duckdb_ms = some ms; cross_checked = true })
            (note_timing py b bespoke_ms ms (ask query s))
    ]

-- `if self._should_cross_check(...) and conn is not None`
unfoldable pub checked :
    PythonOps
    → SqlOps
    → World
    → Option Conn
    → String
    → Option Params
    → EngineBinding
    → Table
    → Float
    → RouteTrace
    → QueryRouter
    → Step
unfolding cross_check serve_engine
checked py sql w none query params b table bespoke_ms t s = serve_engine t table b s
checked py sql w (some conn) query params b table bespoke_ms t s =
    if should_cross_check py s w.draw b.template_id
    then cross_check py sql w conn query params b table bespoke_ms t s
    else serve_engine t table b s
