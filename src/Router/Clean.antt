-- ===== src/Router/Clean.antt =====
-- router/guards.py: what holds of an engine's result because all guards passed.
use synno_db.Base.{
  String, ◌≡◌, refl, ap, inl, inr, true, false, Option, List, ◌∷◌, arith, Bool-cases, Option-cases,
  is_some, any,
}
use synno_db.Python.{PythonOps}
use synno_db.Base.Dict.{contains}
use synno_db.Compare.Cells.{Table}
use synno_db.Registry.{EngineBinding, TemplateRegistry, is_dirty, mark_tables_dirty}
use synno_db.Registry.Dirtiness.{names, is_dirty-mark_tables_dirty}
use synno_db.Bind.{SqlOps}
use synno_db.Router.Guards.{
  returned, Params, World, Guard, GuardContext, engine_ready_guard, select_only_guard,
  dirty_table_guard, evaluate,
}
use synno_db.Router.State.{QueryRouter}
use synno_db.Router.Route.{RouteDecision, decided, route, context}
use synno_db.Router.Honesty.{Ran, Routed, binding_of, Routed-Ran}
use synno_db.Router.Pipeline.{route-Routed}
use synno_db.Router.Sessions.{Call, session, session-Kept}
use synno_db.Router.FailClosed.{Outcome-cases}

-- Only the dirty tables of a registry count.
is_dirty-same :
    (py : PythonOps) (r r' : TemplateRegistry) (b : EngineBinding)
    → r.dirty_tables ≡ r'.dirty_tables
    → is_dirty py r b ≡ is_dirty py r' b
unfolding is_dirty
is_dirty-same py r r' b same = ap (λ marked. any (λ t. contains marked (py.lower t)) b.tables) same

-- The guard returned that the statement may go on.
Passes : GuardContext → Guard → Type 0
Passes ctx (name, guard) = (detail : String) × (guard ctx ≡ returned (true, detail))

evaluate-head :
    (ctx : GuardContext) (g : Guard) (gs : List Guard)
    → (evaluate ctx (g ∷ gs)).0 ≡ true
    → Passes ctx g × ((evaluate ctx gs).0 ≡ true)
unfolding evaluate Passes
evaluate-head ctx (name, guard) gs h = elim (Outcome-cases (guard ctx)) [
  | inl (e, r) ↦ absurd (cc (rw (r, evaluate) at h))
  | inr ((true, detail), r) ↦ ((detail, r), rw (r, evaluate) at h)
  | inr ((false, detail), r) ↦ absurd (cc (rw (r, evaluate) at h))
]

select_only_lem :
    (sql : SqlOps) (ctx : GuardContext) (detail : String)
    → select_only_guard sql ctx ≡ returned (true, detail)
    → sql.is_select ctx.sql ≡ true
unfolding select_only_guard
select_only_lem sql ctx detail h = elim (Bool-cases (sql.is_select ctx.sql)) [
  | inl e ↦ e
  | inr e ↦ absurd (cc (rw (e, select_only_guard) at h))
]

engine_ready_lem :
    (w : World) (ctx : GuardContext) (detail : String)
    → engine_ready_guard w ctx ≡ returned (true, detail)
    → is_some ctx.binding.engine ≡ true
unfolding engine_ready_guard
engine_ready_lem w ctx detail h = elim (Option-cases ctx.binding.engine) [
  | inl e ↦ absurd (cc (rw (e, engine_ready_guard) at h))
  | inr (handle, e) ↦ rw e refl
]

dirty_table_lem :
    (py : PythonOps) (ctx : GuardContext) (detail : String)
    → dirty_table_guard py ctx ≡ returned (true, detail)
    → is_dirty py ctx.registry ctx.binding ≡ false
unfolding dirty_table_guard
dirty_table_lem py ctx detail h = elim (Bool-cases (is_dirty py ctx.registry ctx.binding)) [
  | inr e ↦ e
  | inl e ↦ absurd (cc (rw (e, dirty_table_guard) at h))
]

module _ (py : PythonOps) (sql : SqlOps) (w : World) (query : String) (params : Option Params)
    (s : QueryRouter) where
  Ran-clean :
      (b : EngineBinding) (table : Table)
      → Ran py sql w query params s b table
      → (sql.is_select query ≡ true)
        × (is_some b.engine ≡ true)
        × (is_dirty py s.registry b ≡ false)
  unfolding Passes
  Ran-clean b table ran =
      let ctx = context s query params b in
      let (ready, rest) =
        evaluate-head ctx ("engine_ready_guard", engine_ready_guard w) _ ran.passed in
      let (select, rest') = evaluate-head ctx ("select_only_guard", select_only_guard sql) _ rest in
      let (clean, rest'') = evaluate-head ctx ("dirty_table_guard", dirty_table_guard py) _ rest' in
      (
        select_only_lem sql ctx select.0 select.1,
        engine_ready_lem w ctx ready.0 ready.1,
        dirty_table_lem py ctx clean.0 clean.1,
      )

  -- Whenever `route` answers with a routed decision, the statement is a plain SELECT, and the binding
  -- whose engine ran for it has a worker and no dirty table.
  pub route-clean :
      (d : RouteDecision)
      → (route py sql w query params s).0 ≡ decided d
      → d.routed ≡ true
      → (r : Routed py sql w query params s d) × (sql.is_select query ≡ true)
        × (is_some (binding_of py sql w query params s r).engine ≡ true)
        × (is_dirty py s.registry (binding_of py sql w query params s r) ≡ false)
  route-clean d answered routed =
      let r = route-Routed py sql w query params s d answered routed in
      let (select, ready, clean) = Ran-clean _ _ (Routed-Ran py sql w query params s r) in
      (r, select, ready, clean)

-- Once tables are marked dirty, and whatever statements pass through the router after that, whenever
-- `route` answers with a routed decision, the binding whose engine ran reads none of those tables.
pub marked-never_serves :
    (py : PythonOps) (sql : SqlOps) (cs : List Call) (c : Call) (s : QueryRouter)
    (tables : List String) (d : RouteDecision)
    → let later =
        session py sql cs (record s { registry = mark_tables_dirty py tables s.registry }) in
      (route py sql c.world c.query c.params later).0 ≡ decided d
      → d.routed ≡ true
      → (r : Routed py sql c.world c.query c.params later d) × (any
            (λ t. names py tables (py.lower t))
            (binding_of py sql c.world c.query c.params later r).tables
          ≡ false)
marked-never_serves py sql cs c s tables d answered routed =
    let marked : QueryRouter = record s { registry = mark_tables_dirty py tables s.registry } in
    let later = session py sql cs marked in
    let (r, select, ready, clean) =
      route-clean py sql c.world c.query c.params later d answered routed in
    let b = binding_of py sql c.world c.query c.params later r in
    let still =
      is_dirty-same py later.registry marked.registry b
        (session-Kept py sql cs marked).dirty_tables in
    let marks = is_dirty-mark_tables_dirty py tables s.registry b in
    (r, ground (arith, clean, marks, still))
