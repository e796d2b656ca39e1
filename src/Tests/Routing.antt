-- ===== src/Tests/Routing.antt =====
-- The theorems on the router, applied to one template.
use synno_db.Base.{
  ℕ, ◌+◌, String, ◌≡◌, refl, inl, inr, true, false, ◌||◌, ◌&&◌, Option, none, some, [], ◌∷◌, arith,
  str_eq, Bool-cases,
}
use synno_db.Base.Dict.{put, get}
use synno_db.Base.Int.{at_least, pos}
use synno_db.Python.Samples.{sample_ops}
use synno_db.Compare.Cells.{Table}
use synno_db.Registry.{TemplateRegistry, quarantine, is_quarantined}
use synno_db.Router.Trace.{RouteTrace, engine}
use synno_db.Router.Route.{route, Answer, RouteDecision, decided, failed, verdict}
use synno_db.Router.State.{QueryRouter, new_router, count_of, record_failure}
use synno_db.Router.Honesty.{Honest, FromEngine, Routed, binding_of, Reference}
use synno_db.Router.Pipeline.{route-Honest}
use synno_db.Router.Why.{why}
use synno_db.Router.Foresight.{Foretold, why-Foretold}
use synno_db.Router.Breaker.{record_failure-is_quarantined}
use synno_db.Router.Accounting.{Accounted}
use synno_db.Router.Accounting.Stages.{route-Accounted}
use synno_db.Router.Sessions.{session, Kept, session-Kept, quarantined-never_serves}
use synno_db.Router.BurnIn.{first_statements-verified}
use synno_db.Tests.Samples.{
  query, some_params, sample_sql, answering, failing, router, checking, one_template, orders, call,
  duckdb_conn, table_of, decision_of,
}
use synno_db.Base.Dict.{contains, remove}
use synno_db.Compare.Cells.{rows, vec_close, float_close}
use synno_db.Compare.Groups.{keys_within, groups, group_of, exact_indices, groups_match}
use synno_db.Compare.Matching.{match_float_vecs, sort_vecs}
use synno_db.Compare.Diff.{results_diff}
use synno_db.Bind.{
  add_spec, binding_groups, groups_from, merge, merge_from, merge_split, split_literal,
}
use synno_db.Compare.Groups.{multiset_equal}
use synno_db.Compare.Tables.{compare_rows, results_equal}
use synno_db.Policy.{routing_active}
use synno_db.Registry.{is_dirty, match, size}
use synno_db.Router.Binding.{bind_placeholders}
use synno_db.Router.Guards.{
  bound_arity, dirty_table_guard, engine_ready_guard, evaluate, placeholder_arity_guard,
  schema_match_guard, select_only_guard,
}
use synno_db.Router.Route.{
  matched, judge, bind_and_execute, checked, cross_check, diverged, divergence, execute, executed,
  fall_back, finish, guarded, note_timing, run_engine, serve_engine, serve_reference,
  to_synno_result,
}
use synno_db.Router.State.{count_execution, record_success, should_cross_check, tally}

abbrev result : Answer → Option Table
result (failed e) = none
result (decided d) = elim d.result [ none ↦ none | some r ↦ some r.table ]

abbrev trace_of : Answer → Option RouteTrace
trace_of (failed e) = none
trace_of (decided d) = some d.trace

close_enough :
    result (route sample_ops sample_sql (answering 41) query some_params router).0
    ≡ some (table_of 41)
unfolding route matched guarded bind_and_execute execute executed checked cross_check judge diverged
    fall_back finish serve_reference serve_engine run_engine verdict divergence results_equal
    compare_rows multiset_equal routing_active size match get put contains evaluate
    engine_ready_guard select_only_guard dirty_table_guard is_dirty schema_match_guard
    placeholder_arity_guard bound_arity binding_groups groups_from add_spec bind_placeholders
    merge_split merge_from merge split_literal should_cross_check count_execution note_timing
    record_success record_failure tally remove to_synno_result rows keys_within groups group_of
    exact_indices groups_match match_float_vecs sort_vecs vec_close float_close results_diff
    quarantine
close_enough = refl

too_far :
    result (route sample_ops sample_sql (answering 45) query some_params router).0
    ≡ some (table_of 40)
unfolding route matched guarded bind_and_execute execute executed checked cross_check judge diverged
    fall_back finish serve_reference serve_engine run_engine verdict divergence results_equal
    compare_rows multiset_equal routing_active size match get put contains evaluate
    engine_ready_guard select_only_guard dirty_table_guard is_dirty schema_match_guard
    placeholder_arity_guard bound_arity binding_groups groups_from add_spec bind_placeholders
    merge_split merge_from merge split_literal should_cross_check count_execution note_timing
    record_success record_failure tally remove to_synno_result rows keys_within groups group_of
    exact_indices groups_match match_float_vecs sort_vecs vec_close float_close results_diff
    quarantine
too_far = refl

-- A second template is quarantined.
abbrev half_open : TemplateRegistry
half_open = record one_template { quarantined = "t2" ∷ [] }

abbrev with_quarantine : QueryRouter
with_quarantine = new_router checking half_open

-- The router after a statement whose worker raised, and its answer to the next one.
abbrev once_failed : QueryRouter
once_failed = session sample_ops sample_sql (call failing ∷ []) with_quarantine

abbrev served : RouteDecision
served = decision_of (route sample_ops sample_sql (answering 41) query some_params once_failed).0

served-answer :
    (route sample_ops sample_sql (answering 41) query some_params once_failed).0 ≡ decided served
unfolding session route matched guarded bind_and_execute execute executed checked cross_check judge
    diverged fall_back finish serve_reference serve_engine run_engine verdict divergence
    results_equal compare_rows multiset_equal routing_active size match get put contains evaluate
    engine_ready_guard select_only_guard dirty_table_guard is_dirty schema_match_guard
    placeholder_arity_guard bound_arity binding_groups groups_from add_spec bind_placeholders
    merge_split merge_from merge split_literal should_cross_check count_execution note_timing
    record_success record_failure tally remove to_synno_result rows keys_within groups group_of
    exact_indices groups_match match_float_vecs sort_vecs vec_close float_close
served-answer = refl

served-engine : (served.routed ≡ true) × (served.trace.served_by ≡ some engine)
unfolding session route matched guarded bind_and_execute execute executed checked cross_check judge
    diverged fall_back finish serve_reference serve_engine run_engine verdict divergence
    results_equal compare_rows multiset_equal routing_active size match get put contains evaluate
    engine_ready_guard select_only_guard dirty_table_guard is_dirty schema_match_guard
    placeholder_arity_guard bound_arity binding_groups groups_from add_spec bind_placeholders
    merge_split merge_from merge split_literal should_cross_check count_execution note_timing
    record_success record_failure tally remove to_synno_result rows keys_within groups group_of
    exact_indices groups_match match_float_vecs sort_vecs vec_close float_close
served-engine = (refl, refl)

route-Honest_example :
    Honest sample_ops sample_sql
      (answering 45)
      query
      some_params
      router
      (route sample_ops sample_sql (answering 45) query some_params router).0
route-Honest_example = route-Honest sample_ops sample_sql (answering 45) query some_params router

route-Accounted_example :
    Accounted router (route sample_ops sample_sql (answering 45) query some_params router)
route-Accounted_example =
    route-Accounted sample_ops sample_sql (answering 45) query some_params router

why-Foretold_example :
    Foretold sample_ops sample_sql
      (answering 41)
      query
      some_params
      router
      (why sample_ops sample_sql (answering 41) query some_params router)
      (route sample_ops sample_sql (answering 41) query some_params router)
why-Foretold_example = why-Foretold sample_ops sample_sql (answering 41) query some_params router

first_statements-verified_example :
    (e : FromEngine sample_ops sample_sql (answering 41) query some_params once_failed served)
    × (reference : Table) × Reference sample_ops sample_sql
        (answering 41)
        query
        some_params
        once_failed
        reference
    × (verdict sample_ops sample_sql query e.table reference ≡ some true)
first_statements-verified_example =
    first_statements-verified sample_ops sample_sql checking half_open (call failing ∷ [])
      (call (answering 41)) duckdb_conn 3 served refl refl refl (omega arith) refl served-answer
      served-engine.1

quarantined-t2 : is_quarantined with_quarantine.registry "t2" ≡ true
unfolding is_quarantined contains
quarantined-t2 = refl

quarantined-never_serves_example :
    (r : Routed sample_ops sample_sql (answering 41) query some_params once_failed served) × (str_eq
        (binding_of sample_ops sample_sql
          (answering 41)
          query
          some_params
          once_failed
          r).template_id
        "t2"
      ≡ false)
quarantined-never_serves_example =
    quarantined-never_serves sample_ops sample_sql (call failing ∷ []) (call (answering 41))
      with_quarantine "t2" served quarantined-t2 served-answer served-engine.0

session-Kept_example :
    Kept with_quarantine
      (session sample_ops sample_sql (call failing ∷ call (answering 41) ∷ []) with_quarantine)
session-Kept_example =
    session-Kept sample_ops sample_sql (call failing ∷ call (answering 41) ∷ []) with_quarantine

-- Two failures of the template stand to its account, below the threshold.
abbrev failed_twice : QueryRouter
failed_twice = record router { failures = ("t1", 2) ∷ [] }

below : (id : String) (n : ℕ) → get (("t1", 2) ∷ []) id ≡ some n → at_least n (pos 3) ≡ true → ⊥
unfolding get
below id n counted high = elim (Bool-cases (str_eq "t1" id)) [
  | inl e ↦ ground arith
  | inr e ↦ ground arith
]

record_failure-is_quarantined_example :
    is_quarantined (record_failure orders failed_twice).registry "t1" ≡ (
      is_quarantined one_template "t1"
      || (str_eq "t1" "t1"
          && at_least (count_of (("t1", 2) ∷ []) "t1" + 1) checking.breaker_threshold))
record_failure-is_quarantined_example = record_failure-is_quarantined orders failed_twice "t1"
