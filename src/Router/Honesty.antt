-- ===== src/Router/Honesty.antt =====
-- router/router.py: what `route` may answer. An engine's result is served only for a query that its
-- template matched, behind all guards, and after a comparison that said yes whenever one was due.
use synno_db.Base.{
  String, ◌≡◌, refl, ◌⊎◌, inl, inr, Bool, true, false, ◌&&◌, Option, none, some, arith, Bool-cases,
}
use synno_db.Python.{Float, PythonOps}
use synno_db.Policy.{is_bespoke_only}
use synno_db.Compare.Cells.{Table}
use synno_db.Registry.{EngineBinding, match}
use synno_db.Bind.{Args, SqlOps}
use synno_db.Router.Trace.{RouteTrace, engine, duckdb}
use synno_db.Router.Guards.{returned, Params, Conn, World, default_guards, evaluate}
use synno_db.Router.State.{QueryRouter, should_cross_check, count_execution}
use synno_db.Router.Binding.{bind_placeholders}
use synno_db.Router.Route.{
  Answer, decided, failed, RouteDecision, to_synno_result, finish, fall_back, serve_engine, verdict,
  divergence, run_engine, context,
}

module _ (py : PythonOps) (sql : SqlOps) (w : World) (query : String) (params : Option Params)
    (s : QueryRouter) where
  -- The query's key matched a binding, all guards passed, the values were bound, and the engine
  -- returned a table for them.
  pub record Ran (b : EngineBinding) (table : Table) : Type 0 where
    pub key : String
    pub args : Args
    pub server_ms : Option Float
    pub normalized : sql.normalize query ≡ some key
    pub match_found : match s.registry key ≡ some b
    pub passed : (evaluate (context s query params b) (default_guards py sql w)).0 ≡ true
    pub bound : bind_placeholders py sql b query params ≡ some args
    pub ran : run_engine w b args ≡ returned (table, server_ms)

  -- DuckDB's own result of the statement with the same parameters.
  pub record Reference (reference : Table) : Type 0 where
    pub conn : Conn
    pub ms : Float
    pub connected : w.conn ≡ some conn
    pub executed : conn.execute_timed query params ≡ returned (reference, ms)

  -- No check was due, or there was no connection to check with, or the check said yes.
  abbrev pub Verified : EngineBinding → Table → Type 0
  Verified b table =
      (should_cross_check py (count_execution b.template_id s) w.draw b.template_id ≡ false)
      ⊎ (w.conn ≡ none)
      ⊎ ((reference : Table) × Reference reference
          × (verdict py sql query table reference ≡ some true))

  pub record FromEngine (d : RouteDecision) : Type 0 where
    pub b : EngineBinding
    pub table : Table
    pub ran : Ran b table
    pub verified : Verified b table
    pub routed : d.routed ≡ true
    pub server : d.trace.served_by ≡ some engine
    pub result : d.result ≡ some (to_synno_result table b.output_schema)

  -- The engine ran, and DuckDB's result is served in its place: the comparison said no or failed.
  pub record FromDuckDb (d : RouteDecision) : Type 0 where
    pub b : EngineBinding
    pub table : Table
    pub reference : Table
    pub ran : Ran b table
    pub trusted : Reference reference
    pub unequal :
        (verdict py sql query table reference ≡ some false)
        ⊎ (verdict py sql query table reference ≡ none)
    pub routed : d.routed ≡ true
    pub server : d.trace.served_by ≡ some duckdb
    pub result : d.result ≡ some (to_synno_result reference b.output_schema)

  -- The caller runs the statement on DuckDB.
  pub record FellBack (d : RouteDecision) : Type 0 where
    pub routed : d.routed ≡ false
    pub result : d.result ≡ none
    pub server : d.trace.served_by ≡ none

  -- `results_diff` raised while it described a difference.
  pub record DiffRaised : Type 0 where
    pub b : EngineBinding
    pub table : Table
    pub reference : Table
    pub ran : Ran b table
    pub trusted : Reference reference
    pub unequal : verdict py sql query table reference ≡ some false
    pub raising : divergence py sql query table reference ≡ none

  -- A routed answer, the engine's or DuckDB's in its place, and the binding whose engine ran.
  abbrev pub Routed : RouteDecision → Type 0
  Routed d = FromEngine d ⊎ FromDuckDb d

  abbrev pub binding_of : {d : RouteDecision} → Routed d → EngineBinding
  binding_of (inl e) = e.b
  binding_of (inr e) = e.b

  abbrev pub table_of : {d : RouteDecision} → Routed d → Table
  table_of (inl e) = e.table
  table_of (inr e) = e.table

  pub Routed-Ran : {d : RouteDecision} (r : Routed d) → Ran (binding_of r) (table_of r)
  Routed-Ran (inl e) = e.ran
  Routed-Ran (inr e) = e.ran

  abbrev pub Honest : Answer → Type 0
  Honest (failed e) = (is_bespoke_only s.policy.mode ≡ true) ⊎ DiffRaised
  Honest (decided d) = FellBack d ⊎ FromEngine d ⊎ FromDuckDb d

  -- The caller's fallback is honest, in any state whose mode is that of s.
  pub fall_back-Honest :
      (m : Bool) (reason : String) (t : RouteTrace) (s' : QueryRouter)
      → t.served_by ≡ none
      → is_bespoke_only s'.policy.mode ≡ is_bespoke_only s.policy.mode
      → Honest (fall_back m reason t s').0
  unfolding fall_back finish
  fall_back-Honest m reason t s' unserved same =
      elim (Bool-cases (m && is_bespoke_only s'.policy.mode)) [
        | inl e ↦ rw e (inl (ground arith))
        | inr e ↦ rw e (inl (record { routed = refl; result = refl; server = unserved }))
      ]

  pub serve_engine-Honest :
      (b : EngineBinding) (table : Table) (t : RouteTrace) (s' : QueryRouter)
      → Ran b table
      → Verified b table
      → Honest (serve_engine t table b s').0
  unfolding serve_engine finish
  serve_engine-Honest b table t s' ran verified = inr (
      inl (record {
        b = b;
        table = table;
        ran = ran;
        verified = verified;
        routed = refl;
        server = refl;
        result = refl;
      }))
