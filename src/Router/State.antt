-- ===== src/Router/State.antt =====
-- router/router.py: the router's state, its counters, the circuit breaker, and the choice of the
-- executions that are cross-checked. Log lines are left out.
use synno_db.Base.{
  ℕ, ◌+◌, String, Bool, true, false, not, ◌&&◌, Option, none, some, List, [], ◌∷◌, get_or_else,
  if◌then◌else◌,
}
use synno_db.Base.Dict.{Dict, get, put, remove}
use synno_db.Base.Int.{at_most, at_least}
use synno_db.Python.{Float, PythonOps}
use synno_db.Policy.{RouterPolicy, is_bespoke_only}
use synno_db.Registry.{EngineBinding, TemplateRegistry, quarantine, is_quarantined}
use synno_db.Router.Trace.{
  RouteTrace, Server, bespoke, fallback, pending, write_passthrough, duckdb,
}

pub record Counters : Type 0 where
  pub routed : ℕ
  pub fell_back : ℕ
  pub cross_checked : ℕ
  pub cross_check_mismatch : ℕ
  pub cross_check_error : ℕ
  pub blocked_writes : ℕ

abbrev pub zero_counters : Counters
zero_counters = record {
  routed = 0;
  fell_back = 0;
  cross_checked = 0;
  cross_check_mismatch = 0;
  cross_check_error = 0;
  blocked_writes = 0;
}

pub record QueryRouter : Type 0 where
  pub policy : RouterPolicy
  pub registry : TemplateRegistry
  pub failures : Dict ℕ
  pub exec_counts : Dict ℕ
  pub counters : Counters
  pub fallback_reasons : Dict ℕ
  pub template_timing : Dict (Float × Float)
  -- not a field of the source: the statements that the cross-check ran on DuckDB, the last one first
  pub asked : List String

-- QueryRouter(policy, registry)
abbrev pub new_router : RouterPolicy → TemplateRegistry → QueryRouter
new_router policy registry = record {
  policy = policy;
  registry = registry;
  failures = [];
  exec_counts = [];
  counters = zero_counters;
  fallback_reasons = [];
  template_timing = [];
  asked = [];
}

-- The cross-check runs a statement on DuckDB.
abbrev pub ask : String → QueryRouter → QueryRouter
ask query s = record s { asked = query ∷ s.asked }

-- d[k] = d.get(k, 0) + 1
abbrev pub bump : Dict ℕ → String → Dict ℕ
bump d k = put d k (get_or_else (get d k) 0 + 1)

abbrev pub count_of : Dict ℕ → String → ℕ
count_of d k = get_or_else (get d k) 0

unfoldable pub last_duckdb_ms : QueryRouter → String → Option Float
last_duckdb_ms s template_id = elim (get s.template_timing template_id) [
  | none ↦ none
  | some pair ↦ some pair.1
]

abbrev pub is_mismatch : Option Bool → Bool
is_mismatch (some false) = true
is_mismatch _ = false

abbrev pub by_duckdb : Option Server → Bool
by_duckdb (some duckdb) = true
by_duckdb _ = false

-- c["cross_checked"] += 1, and the mismatch with it
abbrev pub count_check : RouteTrace → Counters → Counters
count_check t c =
    let c' : Counters = record c { cross_checked = c.cross_checked + 1 } in
    if is_mismatch t.results_match
    then record c' { cross_check_mismatch = c.cross_check_mismatch + 1 }
    else c'

abbrev pub count_bespoke : RouteTrace → Counters → Counters
count_bespoke t c =
    let c' : Counters = record c { routed = c.routed + 1 } in
    if by_duckdb t.served_by
    then count_check t c
    else if t.cross_checked
    then count_check t c'
    else c'

-- _tally
unfoldable pub tally : RouteTrace → QueryRouter → QueryRouter
tally t s = elim t.decision [
  | bespoke ↦ record s { counters = count_bespoke t s.counters }
  | fallback ↦ record s {
    counters = record (s.counters) { fell_back = s.counters.fell_back + 1 };
    fallback_reasons = bump s.fallback_reasons t.reason;
  }
  | pending ↦ s
  | write_passthrough ↦ s
]

unfoldable pub note_blocked_write : QueryRouter → QueryRouter
note_blocked_write s = record s {
  counters = record (s.counters) { blocked_writes = s.counters.blocked_writes + 1 };
}

-- self.counters["cross_check_error"] += 1
unfoldable pub note_check_error : QueryRouter → QueryRouter
note_check_error s = record s {
  counters = record (s.counters) { cross_check_error = s.counters.cross_check_error + 1 };
}

-- _should_cross_check
unfoldable pub should_cross_check : PythonOps → QueryRouter → Float → String → Bool
should_cross_check py s draw template_id =
    let rate = s.policy.cross_check_rate in
    if is_bespoke_only s.policy.mode
    then false
    else if py.float_le rate py.zero
    then false
    else if at_most (count_of s.exec_counts template_id) s.policy.verify_first_n
    then true
    else if py.float_le py.one rate
    then true
    else py.float_lt draw rate

-- _record_failure
unfoldable pub record_failure : EngineBinding → QueryRouter → QueryRouter
record_failure b s =
    let count = count_of s.failures b.template_id + 1 in
    let s' : QueryRouter = record s { failures = put s.failures b.template_id count } in
    if at_least count s.policy.breaker_threshold && not (is_quarantined s.registry b.template_id)
    then record s' { registry = quarantine b.template_id s.registry }
    else s'

-- _record_success
unfoldable pub record_success : EngineBinding → QueryRouter → QueryRouter
record_success b s = record s { failures = remove s.failures b.template_id }

-- self._exec_counts[id] = self._exec_counts.get(id, 0) + 1
unfoldable pub count_execution : String → QueryRouter → QueryRouter
count_execution template_id s = record s { exec_counts = bump s.exec_counts template_id }
