-- ===== src/Router/Sessions.antt =====
-- router/router.py: sequences of statements through one router.
use synno_db.Base.{
  Bool, ◌⊎◌, ◌||◌, String, ◌≡◌, refl, ap, ◌∙◌, inl, inr, true, false, Option, List, [], ◌∷◌, arith,
  Bool-cases, str_eq, eq_iff,
}
use synno_db.Python.{PythonOps}
use synno_db.Registry.{EngineBinding, TemplateRegistry, is_quarantined, quarantine}
use synno_db.Registry.Matching.{match-unquarantined}
use synno_db.Bind.{SqlOps}
use synno_db.Router.Guards.{Params, World}
use synno_db.Router.State.{
  QueryRouter, record_failure, record_success, note_check_error, count_execution,
}
use synno_db.Router.Route.{route, RouteDecision, decided, sideline}
use synno_db.Router.Frames.{
  Framed, tally-Framed, note_timing-Framed, record_failure-policy, record_failure-by_norm,
  record_failure-dirty_tables,
}
use synno_db.Router.Breaker.{quarantine-is_quarantined, record_failure-is_quarantined}
use synno_db.Router.Invariants.{Stable, route-Stable}
use synno_db.Router.Honesty.{Routed, binding_of, Routed-Ran}
use synno_db.Router.Pipeline.{route-Routed}

-- One statement, with what the world answers to it.
pub record Call : Type 0 where
  pub world : World
  pub query : String
  pub params : Option Params

unfoldable pub session : PythonOps → SqlOps → List Call → QueryRouter → QueryRouter
session py sql [] s = s
session py sql (c ∷ cs) s = session py sql cs (route py sql c.world c.query c.params s).1

pub session-Stable :
    (py : PythonOps) (sql : SqlOps) (P : QueryRouter → Type 0)
    → Stable py P
    → (cs : List Call) (s : QueryRouter) → P s
    → P (session py sql cs s)
unfolding session
session-Stable py sql P stable [] s p = p
session-Stable py sql P stable (c ∷ cs) s p =
    session-Stable py sql P stable cs _ (route-Stable py sql c.world c.query c.params P stable s p)

-- The policy, the bindings and the dirty tables are those of s, and no quarantine is lifted.
pub record Kept (s s' : QueryRouter) : Type 0 where
  pub policy : s'.policy ≡ s.policy
  pub by_norm : s'.registry.by_norm ≡ s.registry.by_norm
  pub dirty_tables : s'.registry.dirty_tables ≡ s.registry.dirty_tables
  pub quarantined :
      (id : String)
      → (is_quarantined s.registry id ≡ false) ⊎ (is_quarantined s'.registry id ≡ true)

already : (q : Bool) → (q ≡ false) ⊎ (q ≡ true)
already true = inr refl
already false = inl refl

or_left : {p q : Bool} (r : Bool) → (p ≡ false) ⊎ (q ≡ true) → (p ≡ false) ⊎ ((q || r) ≡ true)
or_left r (inl e) = inl e
or_left r (inr e) = inr (rw e refl)

or_right : {p q : Bool} (r : Bool) → (p ≡ false) ⊎ (q ≡ true) → (p ≡ false) ⊎ ((r || q) ≡ true)
or_right r (inl e) = inl e
or_right r (inr e) = inr (ground (arith, e))

Framed-Kept : {s s' s'' : QueryRouter} → Framed s' s'' → Kept s s' → Kept s s''
Framed-Kept f k = record {
  policy = f.policy ∙ k.policy;
  by_norm = ap (λ (r : TemplateRegistry). r.by_norm) f.registry ∙ k.by_norm;
  dirty_tables = ap (λ (r : TemplateRegistry). r.dirty_tables) f.registry ∙ k.dirty_tables;
  quarantined = λ id. rw f.registry (k.quarantined id);
}

record_failure-Kept :
    (s : QueryRouter) (b : EngineBinding) (s' : QueryRouter)
    → Kept s s'
    → Kept s (record_failure b s')
record_failure-Kept s b s' k = record {
  policy = record_failure-policy b s' ∙ k.policy;
  by_norm = record_failure-by_norm b s' ∙ k.by_norm;
  dirty_tables = record_failure-dirty_tables b s' ∙ k.dirty_tables;
  quarantined = λ id. rw (record_failure-is_quarantined b s' id) (or_left _ (k.quarantined id));
}

sideline-Kept :
    (s : QueryRouter) (b : EngineBinding) (s' : QueryRouter) → Kept s s' → Kept s (sideline b s')
unfolding quarantine
sideline-Kept s b s' k = record {
  policy = k.policy;
  by_norm = k.by_norm;
  dirty_tables = k.dirty_tables;
  quarantined = λ id.
      rw (quarantine-is_quarantined b.template_id id s'.registry) (or_right _ (k.quarantined id));
}

Kept-Stable : (py : PythonOps) (s : QueryRouter) → Stable py (Kept s)
unfolding note_check_error count_execution record_success
Kept-Stable py s = record {
  asks = λ query s' k. record {
    policy = k.policy;
    by_norm = k.by_norm;
    dirty_tables = k.dirty_tables;
    quarantined = k.quarantined;
  };
  changes = record {
    tallies = λ t s'. Framed-Kept (tally-Framed t s');
    notes_error = λ s' k. record {
      policy = k.policy;
      by_norm = k.by_norm;
      dirty_tables = k.dirty_tables;
      quarantined = k.quarantined;
    };
    fails = record_failure-Kept s;
    succeeds = λ b s' k. record {
      policy = k.policy;
      by_norm = k.by_norm;
      dirty_tables = k.dirty_tables;
      quarantined = k.quarantined;
    };
    executes = λ id s' k. record {
      policy = k.policy;
      by_norm = k.by_norm;
      dirty_tables = k.dirty_tables;
      quarantined = k.quarantined;
    };
    times = λ b x y s'. Framed-Kept (note_timing-Framed py b x y s');
    sidelines = sideline-Kept s;
  };
}

-- Whatever statements pass through a router, its policy, its bindings and its dirty tables stay as
-- they are, and no quarantine is lifted.
pub session-Kept :
    (py : PythonOps) (sql : SqlOps) (cs : List Call) (s : QueryRouter)
    → Kept s (session py sql cs s)
session-Kept py sql cs s = session-Stable py sql (Kept s) (Kept-Stable py s) cs s (record {
  policy = refl;
  by_norm = refl;
  dirty_tables = refl;
  quarantined = λ id. already (is_quarantined s.registry id);
})

-- A template that is quarantined serves no statement after that: whenever `route` answers a later
-- statement with a routed decision, the binding whose engine ran for it is of another template.
pub quarantined-never_serves :
    (py : PythonOps) (sql : SqlOps) (cs : List Call) (c : Call) (s : QueryRouter) (id : String)
    (d : RouteDecision)
    → is_quarantined s.registry id ≡ true
    → (route py sql c.world c.query c.params (session py sql cs s)).0 ≡ decided d
    → d.routed ≡ true
    → (r : Routed py sql c.world c.query c.params (session py sql cs s) d) × (str_eq
          (binding_of py sql c.world c.query c.params (session py sql cs s) r).template_id
          id
        ≡ false)
quarantined-never_serves py sql cs c s id d before answered routed =
    let s' = session py sql cs s in
    let r = route-Routed py sql c.world c.query c.params s' d answered routed in
    let b = binding_of py sql c.world c.query c.params s' r in
    let ran = Routed-Ran py sql c.world c.query c.params s' r in
    elim (Bool-cases (str_eq b.template_id id)) [
      | inr f ↦ (r, f)
      | inl f ↦
          let same : b.template_id ≡ id = ground (arith, eq_iff b.template_id id) in
          let after = (session-Kept py sql cs s).quarantined id in
          let free = match-unquarantined s'.registry ran.key ran.match_found in
          elim after [
            | inl never ↦ absurd (cc (before, never))
            | inr still ↦ absurd (cc (same, still, free))
          ]
    ]
