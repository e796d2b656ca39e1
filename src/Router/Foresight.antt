-- ===== src/Router/Foresight.antt =====
-- router/router.py: `why` foretells what `route` does with the same statement in the same state.
use synno_db.Base.{
  String, ◌≡◌, refl, ◌⊎◌, inl, inr, none, Bool, true, false, not, ◌&&◌, Option, some, ◌==◌,
  Bool-cases, Option-cases, arith,
}
use synno_db.Python.{PythonOps}
use synno_db.Policy.{routing_active, is_bespoke_only}
use synno_db.Registry.{EngineBinding, match, quarantined_binding, size}
use synno_db.Bind.{Args, SqlOps}
use synno_db.Statement.{is_read_only_query}
use synno_db.Router.Trace.{RouteTrace, new_trace}
use synno_db.Router.Guards.{Params, World, default_guards, evaluate}
use synno_db.Router.State.{QueryRouter}
use synno_db.Router.Binding.{bind_placeholders}
use synno_db.Router.Route.{
  Step, RouteDecision, decided, failed, finish, fall_back, execute, bind_and_execute, guarded,
  matched, route, inactive_reason, context, last_detail, binding_failed, add_guards,
}
use synno_db.Router.Why.{
  would_route, would_fall_back, blocked, Explanation, no_explanation, why_matched, why_unmatched,
  why_normalized, why,
}

module _ (py : PythonOps) (sql : SqlOps) (w : World) (query : String) (params : Option Params)
    (s : QueryRouter) where
  -- The engine is called, with the explained placeholders.
  pub record Called (x : Explanation) (step : Step) : Type 0 where
    pub b : EngineBinding
    pub args : Args
    pub t : RouteTrace
    pub template : x.template ≡ some b.template_id
    pub placeholders : x.placeholders ≡ some args
    pub calls : step ≡ execute py sql w query params b args t s

  -- The router calls no engine: it falls back in its present state, or raises in bespoke_only mode.
  pub record Declined (step : Step) : Type 0 where
    pub matched : Bool
    pub reason : String
    pub t : RouteTrace
    pub declines : step ≡ fall_back matched reason t s
    pub answer :
        ((d : RouteDecision) × (step.0 ≡ decided d)
          × (d.routed ≡ false)
          × (d.result ≡ none)
          × (d.trace.served_by ≡ t.served_by))
        ⊎ ((e : String) × (step.0 ≡ failed e)
            × (matched ≡ true)
            × (is_bespoke_only s.policy.mode ≡ true))

  declined :
      (matched : Bool) (reason : String) (t : RouteTrace) → Declined (fall_back matched reason t s)
  unfolding fall_back finish
  declined matched reason t = elim (Bool-cases (matched && is_bespoke_only s.policy.mode)) [
    | inl strict ↦
        rw (strict, fall_back)
          (record {
            matched = matched;
            reason = reason;
            t = t;
            declines = rw (strict, fall_back) refl;
            answer = inr (_, refl, ground (arith, strict), ground (arith, strict));
          })
    | inr soft ↦
        rw (soft, fall_back)
          (record {
            matched = matched;
            reason = reason;
            t = t;
            declines = rw (soft, fall_back) refl;
            answer = inl (_, refl, refl, refl, refl);
          })
  ]

  unfoldable pub Foretold : Explanation → Step → Type 0
  Foretold x step = elim x.decision [
    | would_route ↦ Called x step
    | would_fall_back ↦ Declined step
    | blocked ↦ is_read_only_query py sql query ≡ false
  ]

  why_matched-Foretold :
      (b : EngineBinding) (x : Explanation)
      → x.decision ≡ would_fall_back
      → Foretold (why_matched py sql w query params b s x) (guarded py sql w query params b s)
  unfolding Foretold why_matched guarded bind_and_execute
  why_matched-Foretold b x pending =
      let results = (evaluate (context s query params b) (default_guards py sql w)).1 in
      let t = add_guards results (new_trace query) in
      elim (Bool-cases (evaluate (context s query params b) (default_guards py sql w)).0) [
        | inr e ↦ rw (e, why_matched, guarded, pending) (declined true (last_detail results) t)
        | inl e ↦ elim (Option-cases (bind_placeholders py sql b query params)) [
          | inl f ↦
              rw (e, f, why_matched, guarded, bind_and_execute, pending)
                (declined true (binding_failed) t)
          | inr (args, f) ↦
              rw (e, f, why_matched, guarded, bind_and_execute)
                (record {
                  b = b;
                  args = args;
                  t = t;
                  template = refl;
                  placeholders = refl;
                  calls = refl;
                })
        ]
      ]

  why_unmatched-Foretold :
      (key : String) (x : Explanation) (t : RouteTrace)
      → x.decision ≡ would_fall_back
      → Foretold (why_unmatched s key x) (fall_back false "no template match" t s)
  unfolding Foretold why_unmatched
  why_unmatched-Foretold key x t pending =
      elim (Option-cases (quarantined_binding s.registry key)) [
        | inl e ↦ rw (e, why_unmatched, pending) (declined false ("no template match") t)
        | inr (b, e) ↦ rw (e, why_unmatched, pending) (declined false ("no template match") t)
      ]

  why_normalized-Foretold :
      Foretold (why_normalized py sql w query params s) (matched py sql w query params s)
  unfolding Foretold why_normalized matched
  why_normalized-Foretold =
      let t = new_trace query in
      elim (Option-cases (sql.normalize query)) [
        | inl g ↦ rw (g, why_normalized, matched) (declined false ("unparseable SQL") t)
        | inr (key, g) ↦
            let x : Explanation = record no_explanation { normalized = some key } in
            elim (Option-cases (match s.registry key)) [
              | inl h ↦ rw (g, h, why_normalized, matched) (why_unmatched-Foretold key x t refl)
              | inr (b, h) ↦ rw (g, h, why_normalized, matched) (why_matched-Foretold b x refl)
            ]
      ]

  -- When `why` says that the statement would be routed, `route` in the same state calls the engine
  -- of the template that it names with the placeholders that it shows. When it says that it would
  -- fall back, `route` calls no engine: it answers with an unrouted decision without a result, or it
  -- raises, for a matched template in the mode bespoke_only. `why` says blocked only for a statement
  -- that is_read_only_query refuses.
  pub why-Foretold : Foretold (why py sql w query params s) (route py sql w query params s)
  unfolding Foretold why route fall_back
  why-Foretold =
      let t = new_trace query in
      elim (Bool-cases (not (routing_active s.policy))) [
        | inl e ↦ rw (e, why, route) (declined false (inactive_reason s) t)
        | inr e ↦
            elim (Bool-cases (s.policy.block_writes && not (is_read_only_query py sql query))) [
              | inl f ↦ rw (e, f, why) (ground arith)
              | inr f ↦ elim (Bool-cases (size s.registry == 0)) [
                | inl g ↦ rw (e, f, g, why, route) (declined false ("no engines registered") t)
                | inr g ↦ rw (e, f, g, why, route) why_normalized-Foretold
              ]
            ]
      ]
