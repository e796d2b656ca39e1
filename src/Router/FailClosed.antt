-- ===== src/Router/FailClosed.antt =====
-- router/router.py: `route` is fail-closed, stage by stage.
use Prim.Native.String.{◌++◌ as concat}
use synno_db.Base.{
  String, ◌≡◌, refl, ◌⊎◌, inl, inr, true, false, Option, none, some, List, [], ◌∷◌, Bool-cases,
  Option-cases,
}
use synno_db.Python.{Float, PythonOps}
use synno_db.Compare.Cells.{Table}
use synno_db.Registry.{EngineBinding}
use synno_db.Bind.{SqlOps}
use synno_db.Router.Trace.{RouteTrace, GuardResult, add_guard}
use synno_db.Router.Guards.{Outcome, returned, raised, Params, Conn, World}
use synno_db.Router.State.{QueryRouter, ask, should_cross_check, count_execution, note_check_error}
use synno_db.Router.Route.{
  finish, serve_reference, verdict, divergence, diverged, judge, cross_check, checked, note_timing,
  add_guards,
}
use synno_db.Router.Honesty.{Ran, Reference, Honest, fall_back-Honest, serve_engine-Honest}

pub Outcome-cases :
    {A : Type 0} (o : Outcome A) → ((e : String) × (o ≡ raised e)) ⊎ ((a : A) × (o ≡ returned a))
Outcome-cases (raised e) = inl (e, refl)
Outcome-cases (returned a) = inr (a, refl)

pub served-add_guards :
    (gs : List GuardResult) (t : RouteTrace) → (add_guards gs t).served_by ≡ t.served_by
served-add_guards [] t = refl
served-add_guards (g ∷ gs) t = served-add_guards gs (add_guard g t)

module _ (py : PythonOps) (sql : SqlOps) (w : World) (query : String) (params : Option Params)
    (s : QueryRouter) where
  judge-Honest :
      (b : EngineBinding) (table reference : Table) (t : RouteTrace) (s' : QueryRouter)
      → Ran py sql w query params s b table
      → Reference py sql w query params s reference
      → Honest py sql w query params s (judge py sql w query b table reference t s').0
  unfolding judge diverged serve_reference finish
  judge-Honest b table reference t s' ran trusted =
      elim (Option-cases (verdict py sql query table reference)) [
        | inl e ↦
            rw (e, judge)
              (inr (
                inr (record {
                  b = b;
                  table = table;
                  reference = reference;
                  ran = ran;
                  trusted = trusted;
                  unequal = inr e;
                  routed = refl;
                  server = refl;
                  result = refl;
                })))
        | inr (true, e) ↦
            rw (e, judge)
              (serve_engine-Honest py sql w query params s b table
                (record t { results_match = some true }) s' ran (inr (inr (reference, trusted, e))))
        | inr (false, e) ↦
            rw (e, judge)
              (elim (Option-cases (divergence py sql query table reference)) [
                | inl d ↦
                    rw (d, diverged)
                      (inr (record {
                        b = b;
                        table = table;
                        reference = reference;
                        ran = ran;
                        trusted = trusted;
                        unequal = e;
                        raising = d;
                      }))
                | inr (report, d) ↦
                    rw (d, diverged)
                      (inr (
                        inr (record {
                          b = b;
                          table = table;
                          reference = reference;
                          ran = ran;
                          trusted = trusted;
                          unequal = inl e;
                          routed = refl;
                          server = refl;
                          result = refl;
                        })))
              ])
      ]

  cross_check-Honest :
      (conn : Conn) (b : EngineBinding) (table : Table) (bespoke_ms : Float) (t : RouteTrace)
      → w.conn ≡ some conn
      → t.served_by ≡ none
      → Ran py sql w query params s b table
      → Honest py sql w query params s
          (cross_check py sql w conn query params b table bespoke_ms t
            (count_execution b.template_id s)).0
  unfolding cross_check note_check_error count_execution
  cross_check-Honest conn b table bespoke_ms t connected unserved ran =
      elim (Outcome-cases (conn.execute_timed query params)) [
        | inl (e, raising) ↦
            rw (raising, cross_check)
              (fall_back-Honest py sql w query params s true
                (concat "cross-check reference error: " e) t
                (note_check_error (ask query (count_execution b.template_id s))) unserved refl)
        | inr ((reference, ms), returning) ↦
            rw (returning, cross_check)
              (judge-Honest b table reference
                (record t { duckdb_ms = some ms; cross_checked = true })
                (note_timing py b bespoke_ms ms (ask query (count_execution b.template_id s))) ran
                (record { conn = conn; ms = ms; connected = connected; executed = returning }))
      ]

  pub checked-Honest :
      (conn : Option Conn) (b : EngineBinding) (table : Table) (bespoke_ms : Float) (t : RouteTrace)
      → w.conn ≡ conn
      → t.served_by ≡ none
      → Ran py sql w query params s b table
      → Honest py sql w query params s
          (checked py sql w conn query params b table bespoke_ms t
            (count_execution b.template_id s)).0
  unfolding checked
  checked-Honest none b table bespoke_ms t connected unserved ran =
      serve_engine-Honest py sql w query params s b table t (count_execution b.template_id s) ran
        (inr (inl connected))
  checked-Honest (some conn) b table bespoke_ms t connected unserved ran =
      elim (Bool-cases
        (should_cross_check py (count_execution b.template_id s) w.draw b.template_id)) [
          | inr skip ↦
              rw (skip, checked)
                (serve_engine-Honest py sql w query params s b table t
                  (count_execution b.template_id s) ran (inl skip))
          | inl due ↦
              rw (due, checked)
                (cross_check-Honest conn b table bespoke_ms t connected unserved ran)
        ]
