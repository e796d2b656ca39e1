-- ===== src/Router/Accounting/Changes.antt =====
-- router/router.py: the changes of the state before a statement is decided count nothing.
use synno_db.Base.{
  ℕ, ◌+◌, String, ◌≡◌, refl, inl, inr, true, ◌&&◌, arith, Bool-cases, str_eq, eq_iff, if◌then◌else◌,
}
use synno_db.Base.Dict.{Dict, get-put}
use synno_db.Python.{Float, PythonOps, is_truthy}
use synno_db.Registry.{EngineBinding, is_quarantined}
use synno_db.Router.State.{
  QueryRouter, ask, count_of, bump, record_failure, note_check_error, count_execution,
}
use synno_db.Router.Route.{note_timing, sideline}
use synno_db.Router.Frames.{record_failure-counters, record_failure-exec_counts}
use synno_db.Router.Breaker.{quarantine-is_quarantined}
use synno_db.Router.Accounting.{Pending}

pub record_failure-Pending :
    (s : QueryRouter) (b : EngineBinding) (s' : QueryRouter)
    → Pending s s'
    → Pending s (record_failure b s')
record_failure-Pending s b s' p = record {
  routed = rw (record_failure-counters b s') p.routed;
  fell_back = rw (record_failure-counters b s') p.fell_back;
  cross_checked = rw (record_failure-counters b s') p.cross_checked;
  mismatches = rw (record_failure-counters b s') p.mismatches;
  executions = λ id. rw (record_failure-exec_counts b s') (p.executions id);
}

pub ask-Pending : {query : String} (s s' : QueryRouter) → Pending s s' → Pending s (ask query s')
ask-Pending s s' p = record {
  routed = p.routed;
  fell_back = p.fell_back;
  cross_checked = p.cross_checked;
  mismatches = p.mismatches;
  executions = p.executions;
}

pub note_check_error-Pending : (s s' : QueryRouter) → Pending s s' → Pending s (note_check_error s')
unfolding note_check_error
note_check_error-Pending s s' p = record {
  routed = p.routed;
  fell_back = p.fell_back;
  cross_checked = p.cross_checked;
  mismatches = p.mismatches;
  executions = p.executions;
}

pub note_timing-Pending :
    (py : PythonOps) (b : EngineBinding) (x y : Float) (s s' : QueryRouter)
    → Pending s s'
    → Pending s (note_timing py b x y s')
unfolding note_timing
note_timing-Pending py b x y s s' p = elim (Bool-cases (is_truthy py x && is_truthy py y)) [
  | inl e ↦
      rw (e, note_timing)
        (record {
          routed = p.routed;
          fell_back = p.fell_back;
          cross_checked = p.cross_checked;
          mismatches = p.mismatches;
          executions = p.executions;
        })
  | inr e ↦ rw (e, note_timing) p
]

pub bump-count_of :
    (d : Dict ℕ) (k j : String)
    → count_of (bump d k) j ≡ (if str_eq k j then count_of d k + 1 else count_of d j)
bump-count_of d k j = elim (Bool-cases (str_eq k j)) [
  | inl e ↦ rw (get-put d k j (count_of d k + 1), e) refl
  | inr e ↦ rw (get-put d k j (count_of d k + 1), e) refl
]

pub count_execution-Pending : (s : QueryRouter) (id : String) → Pending s (count_execution id s)
unfolding count_execution
count_execution-Pending s id = record {
  routed = refl;
  fell_back = refl;
  cross_checked = refl;
  mismatches = refl;
  executions = λ j. rw (bump-count_of s.exec_counts id j) (elim (Bool-cases (str_eq id j)) [
    | inl e ↦ let same : id ≡ j = ground (arith, eq_iff id j) in rw (e, same) (omega arith)
    | inr e ↦ rw e (omega arith)
  ]);
}

pub sideline-is_quarantined :
    (b : EngineBinding) (s : QueryRouter)
    → is_quarantined (sideline b s).registry b.template_id ≡ true
sideline-is_quarantined b s =
    rw (quarantine-is_quarantined b.template_id b.template_id s.registry)
      (ground (arith, eq_iff b.template_id b.template_id))

pub unchanged : (s : QueryRouter) → Pending s s
unchanged s = record {
  routed = refl;
  fell_back = refl;
  cross_checked = refl;
  mismatches = refl;
  executions = λ id. omega arith;
}
