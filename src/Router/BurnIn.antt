-- ===== src/Router/BurnIn.antt =====
-- router/router.py: the first executions of a template are all cross-checked.
use synno_db.Base.{
  ℕ, ◌+◌, ◌≤◌, String, ◌≡◌, refl, ap, ◌∙◌, inl, inr, true, false, some, List, [], ◌∷◌, length,
  arith, str_eq, eq_iff,
}
use synno_db.Base.Dict.{get}
use synno_db.Base.Int.{pos, at_most}
use synno_db.Python.{Float, PythonOps}
use synno_db.Policy.{RouterPolicy, is_bespoke_only}
use synno_db.Compare.Cells.{Table}
use synno_db.Registry.{TemplateRegistry}
use synno_db.Bind.{SqlOps}
use synno_db.Router.Guards.{Conn}
use synno_db.Router.State.{QueryRouter, new_router, count_of, count_execution, should_cross_check}
use synno_db.Router.Route.{Step, route, decided, failed, RouteDecision, verdict}
use synno_db.Router.Trace.{engine}
use synno_db.Router.Pipeline.{route-FromEngine}
use synno_db.Router.Honesty.{Reference, FromEngine}
use synno_db.Router.Accounting.{Accounted}
use synno_db.Router.Accounting.Stages.{route-Accounted}
use synno_db.Router.Sessions.{Call, session, session-Kept}
use synno_db.Router.Accounting.Changes.{bump-count_of}

eq_refl : (k : String) → str_eq k k ≡ true
eq_refl k = ground (arith, eq_iff k k)

executions-Accounted :
    (s : QueryRouter) (step : Step) (id : String)
    → Accounted s step
    → count_of step.1.exec_counts id ≤ count_of s.exec_counts id + 1
executions-Accounted s (failed e, s') id a = a.executions id
executions-Accounted s (decided d, s') id a = a.executions id

pub session-executions :
    (py : PythonOps) (sql : SqlOps) (cs : List Call) (s : QueryRouter) (id : String)
    → count_of (session py sql cs s).exec_counts id ≤ count_of s.exec_counts id + length cs
unfolding session
session-executions py sql [] s id = omega arith
session-executions py sql (c ∷ cs) s id =
    let step = route py sql c.world c.query c.params s in
    let one = executions-Accounted s step id (route-Accounted py sql c.world c.query c.params s) in
    let rest = session-executions py sql cs step.1 id in omega arith

should_cross_check-early :
    (py : PythonOps) (s : QueryRouter) (draw : Float) (id : String)
    → is_bespoke_only s.policy.mode ≡ false
    → py.float_le s.policy.cross_check_rate py.zero ≡ false
    → at_most (count_of s.exec_counts id) s.policy.verify_first_n ≡ true
    → should_cross_check py s draw id ≡ true
unfolding should_cross_check
should_cross_check-early py s draw id soft on early = rw (soft, on, early) refl

at_most-pos : (m : ℕ) (n : ℕ) → m ≤ n → at_most m (pos n) ≡ true
at_most-pos m n h = ground (arith, h)

session-due :
    (py : PythonOps) (sql : SqlOps) (policy : RouterPolicy) (registry : TemplateRegistry)
    (cs : List Call) (n : ℕ) (draw : Float) (id : String)
    → is_bespoke_only policy.mode ≡ false
    → py.float_le policy.cross_check_rate py.zero ≡ false
    → policy.verify_first_n ≡ pos n
    → length cs + 1 ≤ n
    → should_cross_check py
        (count_execution id (session py sql cs (new_router policy registry)))
        draw
        id
      ≡ true
unfolding count_execution get
session-due py sql policy registry cs n draw id soft on window few =
    let start = new_router policy registry in
    let s = session py sql cs start in
    let kept = (session-Kept py sql cs start).policy in
    let executed = session-executions py sql cs start id in
    should_cross_check-early py (count_execution id s) draw id
      (ap (λ (p : RouterPolicy). is_bespoke_only p.mode) kept ∙ soft)
      (ap (λ (p : RouterPolicy). py.float_le p.cross_check_rate py.zero) kept ∙ on)
      (rw
        (
          ap (λ (p : RouterPolicy). p.verify_first_n) kept ∙ window,
          bump-count_of s.exec_counts id id,
          eq_refl id,
        )
        (at_most-pos (count_of s.exec_counts id + 1) n (omega arith)))

-- In a mode other than bespoke_only and with a positive rate, whenever `route` answers one of a new
-- router's first verify_first_n statements, on a connection, with a decision marked as the engine's,
-- the result is a table of the engine behind a comparison: DuckDB returned a reference for the
-- statement, and the two tables compared equal.
pub first_statements-verified :
    (py : PythonOps) (sql : SqlOps) (policy : RouterPolicy) (registry : TemplateRegistry)
    (cs : List Call) (c : Call) (conn : Conn) (n : ℕ) (d : RouteDecision)
    → is_bespoke_only policy.mode ≡ false
    → py.float_le policy.cross_check_rate py.zero ≡ false
    → policy.verify_first_n ≡ pos n
    → length cs + 1 ≤ n
    → c.world.conn ≡ some conn
    → (route py sql c.world c.query c.params (session py sql cs (new_router policy registry))).0
      ≡ decided d
    → d.trace.served_by ≡ some engine
    → (e : FromEngine py sql c.world c.query c.params
        (session py sql cs (new_router policy registry))
        d)
      × (reference : Table) × Reference py sql c.world c.query c.params
          (session py sql cs (new_router policy registry))
          reference
      × (verdict py sql c.query e.table reference ≡ some true)
first_statements-verified py sql policy registry cs c conn n d soft on window few connected answered
      marked =
    let s = session py sql cs (new_router policy registry) in
    let e = route-FromEngine py sql c.world c.query c.params s d answered marked in
    elim e.verified [
      | inl skip ↦ absurd (
          cc (
            skip,
            session-due py sql policy registry cs n c.world.draw e.b.template_id soft on window few,
          ))
      | inr (inl alone) ↦ absurd (ground (arith, connected, alone))
      | inr (inr checked) ↦
          let (reference, trusted, equal) = checked in (e, reference, trusted, equal)
    ]
