-- ===== src/Router/Route.antt =====
-- router/router.py: `route`, one function for each stage of the pipeline. A stage returns the answer
-- and the router's state after it. `Ending` has the ways to end, `Check` the cross-check.
mod Ending
mod Check
use Prim.Native.String.{◌++◌ as concat}
use synno_db.Base.{
  String, true, false, not, Option, none, some, List, [], ◌∷◌, ◌==◌, get_or_else, if◌then◌else◌,
}
use synno_db.Python.{Float, PythonOps}
use synno_db.Policy.{routing_active, mode_value}
use synno_db.Compare.Cells.{Table}
use synno_db.Registry.{EngineBinding, match, size}
use synno_db.Bind.{Args, SqlOps}
use synno_db.Router.Trace.{RouteTrace, GuardResult, new_trace, fell_back, routed, add_guard, engine}
use synno_db.Router.Guards.{
  Outcome, returned, raised, Params, World, GuardContext, default_guards, evaluate,
}
use synno_db.Router.State.{QueryRouter, record_failure, count_execution}
use synno_db.Router.Binding.{bind_placeholders}
pub use Ending.{SynnoResult, RouteDecision, Answer, Step, decided, failed}
unfoldable pub use Ending.{to_synno_result, finish, fall_back, serve_reference, serve_engine}
pub use Check.{float_tol, diff_limit, key_indices, sideline}
unfoldable pub use Check.{verdict, divergence, diverged, judge, note_timing, cross_check, checked}

-- step 5b, behind the engine's return
unfoldable pub executed :
    PythonOps
    → SqlOps
    → World
    → String
    → Option Params
    → EngineBinding
    → Table
    → Option Float
    → RouteTrace
    → QueryRouter
    → Step
unfolding checked
executed py sql w query params b table server_ms t s =
    let bespoke_ms = get_or_else server_ms w.elapsed_ms in
    checked py sql w w.conn query params b table bespoke_ms
      (routed b.template_id (record t { bespoke_ms = some bespoke_ms }))
      (count_execution b.template_id s)

-- binding.engine.run(query_id, placeholders), which on None raises an AttributeError
unfoldable pub run_engine : World → EngineBinding → Args → Outcome (Table × Option Float)
run_engine w b args = elim b.engine [
  | none ↦ raised "AttributeError(\"'NoneType' object has no attribute 'run'\")"
  | some handle ↦ w.run handle b.query_id args
]

unfoldable pub execute :
    PythonOps
    → SqlOps
    → World
    → String
    → Option Params
    → EngineBinding
    → Args
    → RouteTrace
    → QueryRouter
    → Step
unfolding fall_back executed run_engine
execute py sql w query params b args t s = elim (run_engine w b args) [
  | raised e ↦ fall_back true (concat "engine error: " e) t (record_failure b s)
  | returned (table, server_ms) ↦ executed py sql w query params b table server_ms t s
]

abbrev pub binding_failed : String
binding_failed = "placeholder binding failed (constant/structure mismatch)"

-- step 5
unfoldable pub bind_and_execute :
    PythonOps
    → SqlOps
    → World
    → String
    → Option Params
    → EngineBinding
    → RouteTrace
    → QueryRouter
    → Step
unfolding execute
bind_and_execute py sql w query params b t s = elim (bind_placeholders py sql b query params) [
  | none ↦ fall_back true binding_failed t s
  | some args ↦ execute py sql w query params b args t s
]

abbrev pub add_guards : List GuardResult → RouteTrace → RouteTrace
add_guards [] t = t
add_guards (g ∷ gs) t = add_guards gs (add_guard g t)

-- results[-1][2] if results else "guard failed"
abbrev pub last_detail : List GuardResult → String
last_detail [] = "guard failed"
last_detail (g ∷ []) = g.detail
last_detail (g ∷ h ∷ gs) = last_detail (h ∷ gs)

abbrev pub context : QueryRouter → String → Option Params → EngineBinding → GuardContext
context s query params b = record {
  sql = query;
  binding = b;
  registry = s.registry;
  parameters = params;
}

-- step 4
unfoldable pub guarded :
    PythonOps → SqlOps → World → String → Option Params → EngineBinding → QueryRouter → Step
unfolding bind_and_execute
guarded py sql w query params b s =
    let (ok, results) = evaluate (context s query params b) (default_guards py sql w) in
    let t = add_guards results (new_trace query) in
    elim ok [
      | false ↦ fall_back true (last_detail results) t s
      | true ↦ bind_and_execute py sql w query params b t s
    ]

abbrev pub inactive_reason : QueryRouter → String
inactive_reason s =
    if s.policy.enabled then concat "mode=" (mode_value s.policy.mode) else "router disabled"

-- steps 2 and 3
unfoldable pub matched : PythonOps → SqlOps → World → String → Option Params → QueryRouter → Step
unfolding guarded
matched py sql w query params s = elim (sql.normalize query) [
  | none ↦ fall_back false "unparseable SQL" (new_trace query) s
  | some key ↦ elim (match s.registry key) [
    | none ↦ fall_back false "no template match" (new_trace query) s
    | some b ↦ guarded py sql w query params b s
  ]
]

-- route
unfoldable pub route : PythonOps → SqlOps → World → String → Option Params → QueryRouter → Step
unfolding matched
route py sql w query params s =
    if not (routing_active s.policy)
    then finish (fell_back (inactive_reason s) (new_trace query)) false none s
    else if size s.registry == 0
    then finish (fell_back "no engines registered" (new_trace query)) false none s
    else matched py sql w query params s
