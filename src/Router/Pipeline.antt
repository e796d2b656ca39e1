-- ===== src/Router/Pipeline.antt =====
-- router/router.py: `route` is fail-closed: its stages from the guards on, and the whole.
use mathlib.Core.Path.{subst}
use Prim.Native.String.{◌++◌ as concat}
use synno_db.Base.{
  String, ◌≡◌, refl, sym, ◌∙◌, ap, inl, inr, true, false, not, Option, none, some, ◌==◌, Bool-cases,
  Option-cases, get_or_else,
}
use synno_db.Python.{PythonOps}
use synno_db.Policy.{RouterPolicy, is_bespoke_only, routing_active}
use synno_db.Registry.{EngineBinding, match, size}
use synno_db.Bind.{Args, SqlOps}
use synno_db.Router.Trace.{RouteTrace, routed, new_trace, engine, duckdb}
use synno_db.Router.Guards.{Params, World, default_guards, evaluate}
use synno_db.Router.State.{QueryRouter, record_failure}
use synno_db.Router.Binding.{bind_placeholders}
use synno_db.Router.Route.{
  RouteDecision, decided, finish, executed, execute, run_engine, bind_and_execute, guarded, matched,
  route, context, add_guards, last_detail, binding_failed,
}
use synno_db.Router.Honesty.{Honest, FromEngine, Routed, fall_back-Honest}
use synno_db.Router.Frames.{record_failure-policy}
use synno_db.Router.FailClosed.{Outcome-cases, served-add_guards, checked-Honest}

module _ (py : PythonOps) (sql : SqlOps) (w : World) (query : String) (params : Option Params)
    (s : QueryRouter) where
  execute-Honest :
      (b : EngineBinding) (key : String) (args : Args) (t : RouteTrace)
      → t.served_by ≡ none
      → sql.normalize query ≡ some key
      → match s.registry key ≡ some b
      → (evaluate (context s query params b) (default_guards py sql w)).0 ≡ true
      → bind_placeholders py sql b query params ≡ some args
      → Honest py sql w query params s (execute py sql w query params b args t s).0
  unfolding execute executed
  execute-Honest b key args t unserved normal found passed bound =
      elim (Outcome-cases (run_engine w b args)) [
        | inl (e, raising) ↦
            rw (raising, execute)
              (fall_back-Honest py sql w query params s true (concat "engine error: " e) t
                (record_failure b s) unserved
                (ap (λ (q : RouterPolicy). is_bespoke_only q.mode) (record_failure-policy b s)))
        | inr ((table, server_ms), returning) ↦
            rw (returning, execute)
              (checked-Honest py sql w query params s w.conn b table
                (get_or_else server_ms w.elapsed_ms)
                (routed b.template_id
                  (record t { bespoke_ms = some (get_or_else server_ms w.elapsed_ms) }))
                refl unserved
                (record {
                  key = key;
                  args = args;
                  server_ms = server_ms;
                  normalized = normal;
                  match_found = found;
                  passed = passed;
                  bound = bound;
                  ran = returning;
                }))
      ]

  bind_and_execute-Honest :
      (b : EngineBinding) (key : String) (t : RouteTrace)
      → t.served_by ≡ none
      → sql.normalize query ≡ some key
      → match s.registry key ≡ some b
      → (evaluate (context s query params b) (default_guards py sql w)).0 ≡ true
      → Honest py sql w query params s (bind_and_execute py sql w query params b t s).0
  unfolding bind_and_execute
  bind_and_execute-Honest b key t unserved normal found passed =
      elim (Option-cases (bind_placeholders py sql b query params)) [
        | inl e ↦
            rw (e, bind_and_execute)
              (fall_back-Honest py sql w query params s true binding_failed t s unserved refl)
        | inr (args, e) ↦
            rw (e, bind_and_execute) (execute-Honest b key args t unserved normal found passed e)
      ]

  guarded-Honest :
      (b : EngineBinding) (key : String)
      → sql.normalize query ≡ some key
      → match s.registry key ≡ some b
      → Honest py sql w query params s (guarded py sql w query params b s).0
  unfolding guarded
  guarded-Honest b key normal found =
      let results = (evaluate (context s query params b) (default_guards py sql w)).1 in
      let unserved = served-add_guards results (new_trace query) in
      elim (Bool-cases (evaluate (context s query params b) (default_guards py sql w)).0) [
        | inl e ↦
            rw (e, guarded)
              (bind_and_execute-Honest b key (add_guards results (new_trace query)) unserved normal
                found e)
        | inr e ↦
            rw (e, guarded)
              (fall_back-Honest py sql w query params s true (last_detail results)
                (add_guards results (new_trace query)) s unserved refl)
      ]

  matched-Honest : Honest py sql w query params s (matched py sql w query params s).0
  unfolding matched
  matched-Honest = elim (Option-cases (sql.normalize query)) [
    | inl e ↦
        rw (e, matched)
          (fall_back-Honest py sql w query params s false "unparseable SQL" (new_trace query) s refl
            refl)
    | inr (key, e) ↦ elim (Option-cases (match s.registry key)) [
      | inl f ↦
          rw (e, f, matched)
            (fall_back-Honest py sql w query params s false "no template match" (new_trace query) s
              refl refl)
      | inr (b, f) ↦ rw (e, f, matched) (guarded-Honest b key e f)
    ]
  ]

  -- Whatever the workers, the guards, the statement and the connection do, `route` has one of four
  -- answers. It falls back without a result. It serves the engine's table, and then the statement's
  -- key matched a binding, every guard passed, the values were bound, the engine returned that
  -- table, and the comparison with DuckDB's result said yes unless no check was due or there was no
  -- connection. It serves DuckDB's own result of the statement, when the comparison said no or
  -- failed. Or it raises, and then the mode is bespoke_only, or the description of a difference
  -- between the two results raised.
  pub route-Honest : Honest py sql w query params s (route py sql w query params s).0
  unfolding route finish
  route-Honest = elim (Bool-cases (not (routing_active s.policy))) [
    | inl e ↦ rw (e, route) (inl (record { routed = refl; result = refl; server = refl }))
    | inr e ↦ elim (Bool-cases (size s.registry == 0)) [
      | inl f ↦ rw (e, f, route) (inl (record { routed = refl; result = refl; server = refl }))
      | inr f ↦ rw (e, f, route) matched-Honest
    ]
  ]

-- A routed answer rests on a run of the engine of the binding that the statement matched.
pub route-Routed :
    (py : PythonOps) (sql : SqlOps) (w : World) (query : String) (params : Option Params)
    (s : QueryRouter) (d : RouteDecision)
    → (route py sql w query params s).0 ≡ decided d
    → d.routed ≡ true
    → Routed py sql w query params s d
route-Routed py sql w query params s d answered routed =
    let honest : Honest py sql w query params s (decided d) =
      subst (λ a. Honest py sql w query params s a) answered
        (route-Honest py sql w query params s) in
    elim honest [
      | inl fell ↦ let clash : true ≡ false = sym routed ∙ fell.routed in absurd (cc)
      | inr served ↦ served
    ]

-- An answer that carries the engine's mark is the engine's.
pub route-FromEngine :
    (py : PythonOps) (sql : SqlOps) (w : World) (query : String) (params : Option Params)
    (s : QueryRouter) (d : RouteDecision)
    → (route py sql w query params s).0 ≡ decided d
    → d.trace.served_by ≡ some engine
    → FromEngine py sql w query params s d
route-FromEngine py sql w query params s d answered marked =
    let honest : Honest py sql w query params s (decided d) =
      subst (λ a. Honest py sql w query params s a) answered
        (route-Honest py sql w query params s) in
    elim honest [
      | inl fell ↦ let clash : some engine ≡ none = sym marked ∙ fell.server in absurd (cc)
      | inr (inl served) ↦ served
      | inr (inr other) ↦
          let clash : some engine ≡ some duckdb = sym marked ∙ other.server in absurd (cc)
    ]
