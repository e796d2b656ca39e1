-- ===== src/Router/Route/Ending.antt =====
-- router/router.py: what `route` answers with, and the ways to end. `failed` is an exception that leaves
-- `route`: the RuntimeError of the bespoke_only mode, or one that `results_diff` raises, which no
-- handler catches.
use Prim.Native.String.{◌++◌ as concat}
use synno_db.Base.{
  String, Bool, true, false, ◌&&◌, Option, none, some, List, [], ◌∷◌, map, if◌then◌else◌,
}
use synno_db.Policy.{is_bespoke_only}
use synno_db.Compare.Cells.{Table}
use synno_db.Registry.{ColumnSpec, EngineBinding}
use synno_db.Router.Trace.{RouteTrace, fell_back, routed, engine, duckdb}
use synno_db.Router.State.{QueryRouter, tally, record_success}

-- SynnoResult(table, duckdb_types)
pub record SynnoResult : Type 0 where
  pub table : Table
  pub duckdb_types : Option (List String)

-- router/adapt.py, to_synno_result
unfoldable pub to_synno_result : Table → List ColumnSpec → SynnoResult
to_synno_result table [] = record { table = table; duckdb_types = none }
to_synno_result table (c ∷ cs) = record {
  table = table;
  duckdb_types = some (map (λ (d : ColumnSpec). d.type) (c ∷ cs));
}

pub record RouteDecision : Type 0 where
  pub routed : Bool
  pub result : Option SynnoResult
  pub trace : RouteTrace
  pub stale_tables : List String

pub data Answer : Type 0 where
  decided : RouteDecision → Answer
  failed : String → Answer

abbrev pub Step : Type 0
Step = Answer × QueryRouter

-- _finish
unfoldable pub finish : RouteTrace → Bool → Option SynnoResult → QueryRouter → Step
finish t routed result s =
    (decided (record { routed = routed; result = result; trace = t; stale_tables = [] }), tally t s)

-- _fallback
unfoldable pub fall_back : Bool → String → RouteTrace → QueryRouter → Step
unfolding finish
fall_back matched reason t s =
    if matched && is_bespoke_only s.policy.mode
    then (failed (concat "bespoke_only: routing failed (" (concat reason ")")), s)
    else finish (fell_back reason t) false none s

-- _serve_reference
unfoldable pub serve_reference : RouteTrace → Table → EngineBinding → QueryRouter → Step
unfolding finish
serve_reference t reference b s =
    finish (record t { served_by = some duckdb }) true
      (some (to_synno_result reference b.output_schema)) s

-- the last lines of `route`
unfoldable pub serve_engine : RouteTrace → Table → EngineBinding → QueryRouter → Step
unfolding finish
serve_engine t table b s =
    finish (record t { served_by = some engine }) true
      (some (to_synno_result table b.output_schema)) (record_success b s)
