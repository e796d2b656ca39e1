-- ===== src/Router/Trace.antt =====
-- router/observe.py: everything decided about one statement.
use synno_db.Base.{String, Bool, false, Option, none, some, List, [], ◌∷◌, ◌++◌}
use synno_db.Python.{Float}

pub data Decision : Type 0 where
  pending bespoke fallback write_passthrough : Decision

pub data Server : Type 0 where
  engine duckdb : Server

-- (name, ok, detail)
pub record GuardResult : Type 0 where
  pub name : String
  pub ok : Bool
  pub detail : String

pub record RouteTrace : Type 0 where
  pub sql : String
  pub decision : Decision
  pub reason : String
  pub template : Option String
  pub guard_results : List GuardResult
  pub bespoke_ms : Option Float
  pub duckdb_ms : Option Float
  pub cross_checked : Bool
  pub results_match : Option Bool
  pub served_by : Option Server

-- RouteTrace(sql=sql)
abbrev pub new_trace : String → RouteTrace
new_trace sql = record {
  sql = sql;
  decision = pending;
  reason = "";
  template = none;
  guard_results = [];
  bespoke_ms = none;
  duckdb_ms = none;
  cross_checked = false;
  results_match = none;
  served_by = none;
}

abbrev pub fell_back : String → RouteTrace → RouteTrace
fell_back reason t = record t { decision = fallback; reason = reason }

abbrev pub routed : String → RouteTrace → RouteTrace
routed template t = record t {
  decision = bespoke;
  template = some template;
  reason = "template match";
}

abbrev pub add_guard : GuardResult → RouteTrace → RouteTrace
add_guard g t = record t { guard_results = t.guard_results ++ g ∷ [] }
