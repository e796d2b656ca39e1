-- ===== src/Router/Breaker.antt =====
-- router/router.py: the circuit breaker. A template whose failures in a row reach the threshold is
-- quarantined, and `route` never lifts a quarantine.
use synno_db.Base.{
  ℕ, ◌+◌, String, ◌≡◌, refl, sym, ap, ◌∙◌, inl, inr, Bool, true, false, not, ◌&&◌, ◌||◌, Option,
  none, some, arith, Bool-cases, str_eq, if◌then◌else◌, eq_iff,
}
use synno_db.Base.Dict.{get, get-put, get-remove, contains-add}
use synno_db.Base.Int.{at_least}
use synno_db.Python.{PythonOps}
use synno_db.Policy.{RouterPolicy}
use synno_db.Registry.{EngineBinding, TemplateRegistry, is_quarantined, quarantine}
use synno_db.Bind.{SqlOps}
use synno_db.Router.Guards.{Params, World}
use synno_db.Router.State.{
  QueryRouter, count_of, record_failure, record_success, note_check_error, count_execution,
}
use synno_db.Router.Route.{route, sideline}
use synno_db.Router.Frames.{
  Framed, tally-Framed, note_timing-Framed, record_failure-policy, record_failure-failures,
}
use synno_db.Router.Invariants.{Stable, route-Stable}

abbrev reaches : EngineBinding → QueryRouter → Bool
reaches b s = at_least (count_of s.failures b.template_id + 1) s.policy.breaker_threshold

pub quarantine-is_quarantined :
    (id j : String) (r : TemplateRegistry)
    → is_quarantined (quarantine id r) j ≡ (str_eq id j || is_quarantined r j)
unfolding is_quarantined quarantine
quarantine-is_quarantined id j r = contains-add r.quarantined id j

unchanged :
    (b : EngineBinding) (s : QueryRouter) (id : String)
    → (reaches b s && not (is_quarantined s.registry b.template_id)) ≡ false
    → is_quarantined s.registry id
      ≡ (is_quarantined s.registry id || (str_eq b.template_id id && reaches b s))
unchanged b s id e = elim (Bool-cases (str_eq b.template_id id)) [
  | inr f ↦ ground arith
  | inl f ↦
      let same : b.template_id ≡ id = ground (arith, eq_iff b.template_id id) in
      let there : is_quarantined s.registry b.template_id ≡ is_quarantined s.registry id =
        ap (is_quarantined s.registry) same in
      ground arith
]

-- A failure quarantines its own template when the count with it reaches the threshold, and no other
-- template; it lifts no quarantine.
pub record_failure-is_quarantined :
    (b : EngineBinding) (s : QueryRouter) (id : String)
    → is_quarantined (record_failure b s).registry id ≡ (
        is_quarantined s.registry id
        || (str_eq b.template_id id
            && at_least (count_of s.failures b.template_id + 1) s.policy.breaker_threshold))
unfolding record_failure
record_failure-is_quarantined b s id =
    elim (Bool-cases (reaches b s && not (is_quarantined s.registry b.template_id))) [
      | inl e ↦
          rw (e, record_failure, quarantine-is_quarantined b.template_id id s.registry)
            (ground arith)
      | inr e ↦ rw (e, record_failure) (unchanged b s id e)
    ]

-- Every template whose failures in a row reach the threshold is quarantined.
pub record Tripped (s : QueryRouter) : Type 0 where
  pub trips :
      (id : String) (n : ℕ)
      → get s.failures id ≡ some n
      → at_least n s.policy.breaker_threshold ≡ true
      → is_quarantined s.registry id ≡ true

Framed-Tripped : {s s' : QueryRouter} → Framed s s' → Tripped s → Tripped s'
Framed-Tripped {s} {s'} f h = record {
  trips = λ id n counted high. rw f.registry (
      h.trips id n (sym (ap (λ d. get d id) f.failures) ∙ counted)
        (sym (ap (λ (p : RouterPolicy). at_least n p.breaker_threshold) f.policy) ∙ high));
}

record_failure-Tripped :
    (b : EngineBinding) (s : QueryRouter) → Tripped s → Tripped (record_failure b s)
record_failure-Tripped b s h = record {
  trips = λ id n counted high.
      let after : (if str_eq b.template_id id
            then some (count_of s.failures b.template_id + 1)
            else get s.failures id)
          ≡ some n =
        sym (get-put s.failures b.template_id id (count_of s.failures b.template_id + 1))
        ∙ sym (ap (λ d. get d id) (record_failure-failures b s))
        ∙ counted in
      let reached : at_least n s.policy.breaker_threshold ≡ true =
        sym (ap (λ (p : RouterPolicy). at_least n p.breaker_threshold) (record_failure-policy b s))
        ∙ high in
      rw (record_failure-is_quarantined b s id) (elim (Bool-cases (str_eq b.template_id id)) [
        | inr f ↦ let there = h.trips id n (sym (rw f refl) ∙ after) reached in ground arith
        | inl f ↦ ground arith
      ]);
}

record_success-Tripped :
    (b : EngineBinding) (s : QueryRouter) → Tripped s → Tripped (record_success b s)
unfolding record_success
record_success-Tripped b s h = record {
  trips = λ id n counted high.
      let before : (if str_eq b.template_id id then none else get s.failures id) ≡ some n =
        sym (get-remove s.failures b.template_id id) ∙ counted in
      h.trips id n (ground arith) high;
}

sideline-Tripped : (b : EngineBinding) (s : QueryRouter) → Tripped s → Tripped (sideline b s)
sideline-Tripped b s h = record {
  trips = λ id n counted high.
      rw (quarantine-is_quarantined b.template_id id s.registry)
        (let there = h.trips id n counted high in ground arith);
}

pub Tripped-Stable : (py : PythonOps) → Stable py Tripped
unfolding note_check_error count_execution
Tripped-Stable py = record {
  asks = λ query s h. record { trips = h.trips };
  changes = record {
    tallies = λ t s. Framed-Tripped (tally-Framed t s);
    notes_error = λ s h. record { trips = h.trips };
    fails = record_failure-Tripped;
    succeeds = record_success-Tripped;
    executes = λ id s h. record { trips = h.trips };
    times = λ b x y s. Framed-Tripped (note_timing-Framed py b x y s);
    sidelines = sideline-Tripped;
  };
}

-- `route` keeps that a template whose failures in a row reach the threshold is quarantined.
pub route-Tripped :
    (py : PythonOps) (sql : SqlOps) (w : World) (query : String) (params : Option Params)
    (s : QueryRouter)
    → Tripped s
    → Tripped (route py sql w query params s).1
route-Tripped py sql w query params s =
    route-Stable py sql w query params Tripped (Tripped-Stable py) s
