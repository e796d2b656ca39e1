-- ===== src/Router/Accounting/Stages.antt =====
-- router/router.py: what each stage of `route` counts.
use synno_db.Base.{
  String, ◌≡◌, refl, inl, inr, true, false, not, Option, none, some, List, [], ◌∷◌, arith,
  Bool-cases, Option-cases, get_or_else, ◌==◌,
}
use synno_db.Python.{Float, PythonOps}
use synno_db.Policy.{routing_active}
use synno_db.Compare.Cells.{Table}
use synno_db.Registry.{EngineBinding, match, size}
use synno_db.Bind.{Args, SqlOps}
use synno_db.Router.Trace.{
  RouteTrace, bespoke, routed, new_trace, add_guard, GuardResult, fell_back,
}
use synno_db.Router.Guards.{Params, Conn, World, default_guards, evaluate}
use synno_db.Router.State.{
  QueryRouter, ask, tally, record_failure, note_check_error, count_execution, should_cross_check,
}
use synno_db.Router.Binding.{bind_placeholders}
use synno_db.Router.Route.{
  finish, verdict, divergence, diverged, judge, note_timing, cross_check, checked, executed,
  execute, run_engine, bind_and_execute, guarded, matched, route, context, sideline, add_guards,
  binding_failed, inactive_reason,
}
use synno_db.Router.FailClosed.{Outcome-cases}
use synno_db.Router.Accounting.{
  Pending, Accounted, Fresh, fall_back-Accounted, serve_engine-Accounted, serve_reference-Accounted,
}
use synno_db.Router.Accounting.Changes.{
  ask-Pending, record_failure-Pending, note_check_error-Pending, note_timing-Pending,
  count_execution-Pending, sideline-is_quarantined, unchanged,
}

new_trace-Fresh : (query : String) → Fresh (new_trace query)
new_trace-Fresh query = record { unserved = refl; unchecked = refl; unmatched = refl }

add_guards-Fresh : (gs : List GuardResult) (t : RouteTrace) → Fresh t → Fresh (add_guards gs t)
add_guards-Fresh [] t f = f
add_guards-Fresh (g ∷ gs) t f =
    add_guards-Fresh gs (add_guard g t)
      (record { unserved = f.unserved; unchecked = f.unchecked; unmatched = f.unmatched })

module _ (py : PythonOps) (sql : SqlOps) (w : World) (query : String) (params : Option Params)
    (s : QueryRouter) where
  judge-Accounted :
      (b : EngineBinding) (table reference : Table) (t : RouteTrace) (s' : QueryRouter)
      → t.decision ≡ bespoke
      → t.cross_checked ≡ true
      → t.results_match ≡ none
      → t.template ≡ some b.template_id
      → Pending s s'
      → Accounted s (judge py sql w query b table reference t s')
  unfolding judge diverged
  judge-Accounted b table reference t s' kind due unmatched named p =
      elim (Option-cases (verdict py sql query table reference)) [
        | inl e ↦
            rw (e, judge)
              (serve_reference-Accounted s (record t { guard_results = _ }) reference b
                (record_failure b (note_check_error s')) kind due named
                (λ h. absurd (ground (arith, h, unmatched)))
                (record_failure-Pending s b (note_check_error s')
                  (note_check_error-Pending s s' p)))
        | inr (true, e) ↦
            rw (e, judge)
              (serve_engine-Accounted s (record t { results_match = some true }) table b s' kind
                refl p)
        | inr (false, e) ↦
            rw (e, judge)
              (elim (Option-cases (divergence py sql query table reference)) [
                | inl d ↦ rw (d, diverged) p
                | inr (report, d) ↦
                    rw (d, diverged)
                      (serve_reference-Accounted s
                        (record t { results_match = some false; guard_results = _ }) reference b
                        (sideline b s') kind due named (λ h. sideline-is_quarantined b s')
                        (record {
                          routed = p.routed;
                          fell_back = p.fell_back;
                          cross_checked = p.cross_checked;
                          mismatches = p.mismatches;
                          executions = p.executions;
                        }))
              ])
      ]

  checked-Accounted :
      (conn : Option Conn) (b : EngineBinding) (table : Table) (ms : Float) (t : RouteTrace)
      (s' : QueryRouter)
      → t.decision ≡ bespoke
      → t.template ≡ some b.template_id
      → Fresh t
      → Pending s s'
      → Accounted s (checked py sql w conn query params b table ms t s')
  unfolding checked cross_check
  checked-Accounted none b table ms t s' kind named f p =
      serve_engine-Accounted s t table b s' kind (ground (arith, f.unmatched)) p
  checked-Accounted (some conn) b table ms t s' kind named f p =
      elim (Bool-cases (should_cross_check py s' w.draw b.template_id)) [
        | inr skip ↦
            rw (skip, checked)
              (serve_engine-Accounted s t table b s' kind (ground (arith, f.unmatched)) p)
        | inl due ↦
            rw (due, checked)
              (elim (Outcome-cases (conn.execute_timed query params)) [
                | inl (e, raising) ↦
                    rw (raising, cross_check)
                      (fall_back-Accounted s true _ t (note_check_error (ask query s')) f
                        (note_check_error-Pending s (ask query s') (ask-Pending s s' p)))
                | inr ((reference, duckdb_ms), returning) ↦
                    rw (returning, cross_check)
                      (judge-Accounted b table reference
                        (record t { duckdb_ms = some duckdb_ms; cross_checked = true })
                        (note_timing py b ms duckdb_ms (ask query s')) kind refl f.unmatched named
                        (note_timing-Pending py b ms duckdb_ms s (ask query s')
                          (ask-Pending s s' p)))
              ])
      ]

  execute-Accounted :
      (b : EngineBinding) (args : Args) (t : RouteTrace)
      → Fresh t
      → Accounted s (execute py sql w query params b args t s)
  unfolding execute executed
  execute-Accounted b args t f = elim (Outcome-cases (run_engine w b args)) [
    | inl (e, raising) ↦
        rw (raising, execute)
          (fall_back-Accounted s true _ t (record_failure b s) f
            (record_failure-Pending s b s (unchanged s)))
    | inr ((table, server_ms), returning) ↦
        rw (returning, execute)
          (checked-Accounted w.conn b table (get_or_else server_ms w.elapsed_ms)
            (routed b.template_id
              (record t { bespoke_ms = some (get_or_else server_ms w.elapsed_ms) }))
            (count_execution b.template_id s) refl refl
            (record { unserved = f.unserved; unchecked = f.unchecked; unmatched = f.unmatched })
            (count_execution-Pending s b.template_id))
  ]

  plain-Accounted :
      (reason : String) → Accounted s (finish (fell_back reason (new_trace query)) false none s)
  unfolding finish tally
  plain-Accounted reason = record {
    routed = omega arith;
    fell_back = refl;
    cross_checked = omega arith;
    mismatches = omega arith;
    executions = λ id. omega arith;
    caught = inl refl;
  }

  guarded-Accounted : (b : EngineBinding) → Accounted s (guarded py sql w query params b s)
  unfolding guarded bind_and_execute
  guarded-Accounted b =
      let results = (evaluate (context s query params b) (default_guards py sql w)).1 in
      let t = add_guards results (new_trace query) in
      let f = add_guards-Fresh results (new_trace query) (new_trace-Fresh query) in
      elim (Bool-cases (evaluate (context s query params b) (default_guards py sql w)).0) [
        | inr e ↦ rw (e, guarded) (fall_back-Accounted s true _ t s f (unchanged s))
        | inl e ↦
            rw (e, guarded)
              (elim (Option-cases (bind_placeholders py sql b query params)) [
                | inl g ↦
                    rw (g, bind_and_execute)
                      (fall_back-Accounted s true binding_failed t s f (unchanged s))
                | inr (args, g) ↦ rw (g, bind_and_execute) (execute-Accounted b args t f)
              ])
      ]

  -- A decided statement is counted once, by the answer that it gets: a result of an engine as
  -- routed, a fallback as fallen back, a comparison as cross-checked, a difference as a mismatch.
  -- It adds at most one execution to each template, and at a mismatch the template that the trace
  -- names is quarantined afterwards. An exception counts nothing of these.
  pub route-Accounted : Accounted s (route py sql w query params s)
  unfolding route matched finish tally
  route-Accounted =
      let t = new_trace query in
      let f = new_trace-Fresh query in
      elim (Bool-cases (not (routing_active s.policy))) [
        | inl e ↦ rw (e, route) (plain-Accounted (inactive_reason s))
        | inr e ↦ elim (Bool-cases (size s.registry == 0)) [
          | inl g ↦ rw (e, g, route) (plain-Accounted "no engines registered")
          | inr g ↦
              rw (e, g, route)
                (elim (Option-cases (sql.normalize query)) [
                  | inl h ↦ rw (h, matched) (fall_back-Accounted s false _ t s f (unchanged s))
                  | inr (key, h) ↦ elim (Option-cases (match s.registry key)) [
                    | inl i ↦ rw (h, i, matched) (fall_back-Accounted s false _ t s f (unchanged s))
                    | inr (b, i) ↦ rw (h, i, matched) (guarded-Accounted b)
                  ]
                ])
        ]
      ]
