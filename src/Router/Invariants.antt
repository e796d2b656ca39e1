-- ===== src/Router/Invariants.antt =====
-- router/router.py: what holds of the router's state through `route`. A predicate that each single
-- change of the state keeps is kept by every stage, and so by `route`.
use synno_db.Base.{
  String, ◌&&◌, inl, inr, Bool, true, false, not, Option, none, some, ◌==◌, Bool-cases,
  Option-cases, get_or_else,
}
use synno_db.Python.{Float, PythonOps}
use synno_db.Policy.{is_bespoke_only, routing_active}
use synno_db.Compare.Cells.{Table}
use synno_db.Registry.{EngineBinding, match, size}
use synno_db.Bind.{Args, SqlOps}
use synno_db.Router.Trace.{RouteTrace, routed, new_trace}
use synno_db.Router.Guards.{Params, Conn, World, default_guards, evaluate}
use synno_db.Router.State.{
  QueryRouter, ask, tally, note_check_error, record_failure, record_success, count_execution,
  should_cross_check,
}
use synno_db.Router.Binding.{bind_placeholders}
use synno_db.Router.Route.{
  finish, fall_back, serve_reference, serve_engine, verdict, divergence, diverged, judge,
  note_timing, cross_check, checked, executed, execute, run_engine, bind_and_execute, guarded,
  matched, route, context, sideline, add_guards, binding_failed,
}
use synno_db.Router.FailClosed.{Outcome-cases}

-- Each single change of the state, but for the log of the cross-check, keeps P.
pub record Changes (py : PythonOps) (P : QueryRouter → Type 0) : Type 0 where
  pub tallies : (t : RouteTrace) (s : QueryRouter) → P s → P (tally t s)
  pub notes_error : (s : QueryRouter) → P s → P (note_check_error s)
  pub fails : (b : EngineBinding) (s : QueryRouter) → P s → P (record_failure b s)
  pub succeeds : (b : EngineBinding) (s : QueryRouter) → P s → P (record_success b s)
  pub executes : (id : String) (s : QueryRouter) → P s → P (count_execution id s)
  pub times : (b : EngineBinding) (x y : Float) (s : QueryRouter) → P s → P (note_timing py b x y s)
  pub sidelines : (b : EngineBinding) (s : QueryRouter) → P s → P (sideline b s)

-- Each single change of the state keeps P.
pub record Stable (py : PythonOps) (P : QueryRouter → Type 0) : Type 0 where
  pub changes : Changes py P
  pub asks : (query : String) (s : QueryRouter) → P s → P (ask query s)

module _ (py : PythonOps) (P : QueryRouter → Type 0) (stable : Changes py P) where
  fall_back-Stable :
      (m : Bool) (reason : String) (t : RouteTrace) (s : QueryRouter)
      → P s
      → P (fall_back m reason t s).1
  unfolding fall_back finish
  fall_back-Stable m reason t s p = elim (Bool-cases (m && is_bespoke_only s.policy.mode)) [
    | inl e ↦ rw (e, fall_back) p
    | inr e ↦ rw (e, fall_back) (stable.tallies _ s p)
  ]

module _ (py : PythonOps) (sql : SqlOps) (w : World) (query : String) (P : QueryRouter → Type 0)
    (stable : Changes py P) where
  judge-Stable :
      (b : EngineBinding) (table reference : Table) (t : RouteTrace) (s : QueryRouter)
      → P s
      → P (judge py sql w query b table reference t s).1
  unfolding judge diverged serve_reference serve_engine finish
  judge-Stable b table reference t s p =
      elim (Option-cases (verdict py sql query table reference)) [
        | inl e ↦ rw (e, judge) (stable.tallies _ _ (stable.fails b _ (stable.notes_error s p)))
        | inr (true, e) ↦ rw (e, judge) (stable.tallies _ _ (stable.succeeds b s p))
        | inr (false, e) ↦
            rw (e, judge)
              (elim (Option-cases (divergence py sql query table reference)) [
                | inl d ↦ rw (d, diverged) p
                | inr (report, d) ↦ rw (d, diverged) (stable.tallies _ _ (stable.sidelines b s p))
              ])
      ]

-- A predicate P until the cross-check runs the statement on DuckDB, and Q from there on.
module _ (py : PythonOps) (sql : SqlOps) (w : World) (query : String) (params : Option Params)
    (P Q : QueryRouter → Type 0) (before : Changes py P) (after : Changes py Q)
    (into : (s : QueryRouter) → P s → Q s) (asks : (s : QueryRouter) → P s → Q (ask query s)) where
  checked-After :
      (conn : Option Conn) (b : EngineBinding) (table : Table) (ms : Float) (t : RouteTrace)
      (s : QueryRouter)
      → P s
      → Q (checked py sql w conn query params b table ms t s).1
  unfolding checked cross_check serve_engine finish
  checked-After none b table ms t s p = after.tallies _ _ (after.succeeds b s (into s p))
  checked-After (some conn) b table ms t s p =
      elim (Bool-cases (should_cross_check py s w.draw b.template_id)) [
        | inr skip ↦ rw (skip, checked) (after.tallies _ _ (after.succeeds b s (into s p)))
        | inl due ↦
            rw (due, checked)
              (elim (Outcome-cases (conn.execute_timed query params)) [
                | inl (e, raising) ↦
                    rw (raising, cross_check)
                      (fall_back-Stable py Q after true _ t _ (after.notes_error _ (asks s p)))
                | inr ((reference, duckdb_ms), returning) ↦
                    rw (returning, cross_check)
                      (judge-Stable py sql w query Q after b table reference
                        (record t { duckdb_ms = some duckdb_ms; cross_checked = true }) _
                        (after.times b ms duckdb_ms _ (asks s p)))
              ])
      ]

  execute-After :
      (b : EngineBinding) (args : Args) (t : RouteTrace) (s : QueryRouter)
      → P s
      → Q (execute py sql w query params b args t s).1
  unfolding execute executed
  execute-After b args t s p = elim (Outcome-cases (run_engine w b args)) [
    | inl (e, raising) ↦
        rw (raising, execute) (fall_back-Stable py Q after true _ t _ (into _ (before.fails b s p)))
    | inr ((table, server_ms), returning) ↦
        rw (returning, execute)
          (checked-After w.conn b table (get_or_else server_ms w.elapsed_ms)
            (routed b.template_id
              (record t { bespoke_ms = some (get_or_else server_ms w.elapsed_ms) }))
            _ (before.executes b.template_id s p))
  ]

  guarded-After :
      (b : EngineBinding) (s : QueryRouter) → P s → Q (guarded py sql w query params b s).1
  unfolding guarded bind_and_execute
  guarded-After b s p =
      let t =
        add_guards (evaluate (context s query params b) (default_guards py sql w)).1
          (new_trace query) in
      elim (Bool-cases (evaluate (context s query params b) (default_guards py sql w)).0) [
        | inr e ↦ rw (e, guarded) (fall_back-Stable py Q after true _ t s (into s p))
        | inl e ↦
            rw (e, guarded)
              (elim (Option-cases (bind_placeholders py sql b query params)) [
                | inl f ↦
                    rw (f, bind_and_execute)
                      (fall_back-Stable py Q after true binding_failed t s (into s p))
                | inr (args, f) ↦ rw (f, bind_and_execute) (execute-After b args t s p)
              ])
      ]

  -- What holds before the cross-check turns into what holds after it.
  pub route-After : (s : QueryRouter) → P s → Q (route py sql w query params s).1
  unfolding route matched finish
  route-After s p = elim (Bool-cases (not (routing_active s.policy))) [
    | inl e ↦ rw (e, route) (after.tallies _ s (into s p))
    | inr e ↦ elim (Bool-cases (size s.registry == 0)) [
      | inl f ↦ rw (e, f, route) (after.tallies _ s (into s p))
      | inr f ↦
          rw (e, f, route)
            (elim (Option-cases (sql.normalize query)) [
              | inl g ↦
                  rw (g, matched)
                    (fall_back-Stable py Q after false _ (new_trace query) s (into s p))
              | inr (key, g) ↦ elim (Option-cases (match s.registry key)) [
                | inl h ↦
                    rw (g, h, matched)
                      (fall_back-Stable py Q after false _ (new_trace query) s (into s p))
                | inr (b, h) ↦ rw (g, h, matched) (guarded-After b s p)
              ]
            ])
    ]
  ]

-- What each change of the state keeps, `route` keeps.
pub route-Stable :
    (py : PythonOps) (sql : SqlOps) (w : World) (query : String) (params : Option Params)
    (P : QueryRouter → Type 0)
    → Stable py P
    → (s : QueryRouter) → P s
    → P (route py sql w query params s).1
route-Stable py sql w query params P stable =
    route-After py sql w query params P P stable.changes stable.changes (λ s p. p)
      (stable.asks query)
