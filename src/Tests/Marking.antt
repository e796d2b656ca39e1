-- ===== src/Tests/Marking.antt =====
-- The theorems on guards and dirty tables, applied to one engine's result, and those on the
-- histories of a router.
use synno_db.Base.{◌≡◌, refl, true, false, [], ◌∷◌, any, is_some}
use synno_db.Python.Samples.{sample_ops}
use synno_db.Registry.{is_dirty, mark_tables_dirty}
use synno_db.Registry.Dirtiness.{names}
use synno_db.Router.Route.{RouteDecision, decided}
use synno_db.Router.State.{new_router, QueryRouter}
use synno_db.Router.Honesty.{Routed, binding_of}
use synno_db.Router.Clean.{route-clean, marked-never_serves}
use synno_db.Router.Counting.{Balanced}
use synno_db.Router.Breaker.{Tripped}
use synno_db.Router.Sessions.{session}
use synno_db.Router.Histories.{session-Balanced, session-Tripped}
use synno_db.Tests.Samples.{
  call, failing, checking, one_template, query, some_params, sample_sql, answering, router,
  decision_of,
}
use synno_db.Base.Dict.{add, contains, get, put, remove}
use synno_db.Bind.{
  add_spec, binding_groups, groups_from, merge, merge_from, merge_split, split_literal,
}
use synno_db.Compare.Cells.{float_close, rows, vec_close}
use synno_db.Compare.Groups.{
  exact_indices, group_of, groups, groups_match, keys_within, multiset_equal,
}
use synno_db.Compare.Matching.{match_float_vecs, sort_vecs}
use synno_db.Compare.Tables.{compare_rows, results_equal}
use synno_db.Policy.{routing_active}
use synno_db.Registry.{add_lower, match, size}
use synno_db.Router.Binding.{bind_placeholders}
use synno_db.Router.Guards.{
  bound_arity, dirty_table_guard, engine_ready_guard, evaluate, placeholder_arity_guard,
  schema_match_guard, select_only_guard,
}
use synno_db.Router.Route.{bind_and_execute, execute, executed, guarded, matched, route, run_engine}
use synno_db.Router.Route.{checked, cross_check, diverged, divergence, judge, note_timing, verdict}
use synno_db.Router.Route.{fall_back, finish, serve_engine, serve_reference, to_synno_result}
use synno_db.Router.State.{
  count_execution, record_failure, record_success, should_cross_check, tally,
}

-- Another table was written to.
abbrev marked_router : QueryRouter
marked_router = record router {
  registry = mark_tables_dirty sample_ops ("customers" ∷ []) router.registry;
}

-- What follows the mark: a statement whose worker raises, then one that it answers.
abbrev later : QueryRouter
later = session sample_ops sample_sql (call failing ∷ []) marked_router

abbrev served : RouteDecision
served = decision_of (route sample_ops sample_sql (answering 41) query some_params later).0

served-answer :
    (route sample_ops sample_sql (answering 41) query some_params later).0 ≡ decided served
unfolding session route matched guarded bind_and_execute execute executed checked cross_check judge
    diverged fall_back finish serve_reference serve_engine run_engine verdict divergence
    results_equal compare_rows multiset_equal routing_active size match get put contains evaluate
    engine_ready_guard select_only_guard dirty_table_guard is_dirty schema_match_guard
    placeholder_arity_guard bound_arity binding_groups groups_from add_spec bind_placeholders
    merge_split merge_from merge split_literal should_cross_check count_execution note_timing
    record_success record_failure tally remove to_synno_result rows keys_within groups group_of
    exact_indices groups_match match_float_vecs sort_vecs vec_close float_close mark_tables_dirty
    add_lower add
served-answer = refl

served-routed : served.routed ≡ true
unfolding session route matched guarded bind_and_execute execute executed checked cross_check judge
    diverged fall_back finish serve_reference serve_engine run_engine verdict divergence
    results_equal compare_rows multiset_equal routing_active size match get put contains evaluate
    engine_ready_guard select_only_guard dirty_table_guard is_dirty schema_match_guard
    placeholder_arity_guard bound_arity binding_groups groups_from add_spec bind_placeholders
    merge_split merge_from merge split_literal should_cross_check count_execution note_timing
    record_success record_failure tally remove to_synno_result rows keys_within groups group_of
    exact_indices groups_match match_float_vecs sort_vecs vec_close float_close mark_tables_dirty
    add_lower add
served-routed = refl

route-clean_example :
    (r : Routed sample_ops sample_sql (answering 41) query some_params later served)
    × (sample_sql.is_select query ≡ true)
    × (is_some (binding_of sample_ops sample_sql (answering 41) query some_params later r).engine
        ≡ true)
    × (is_dirty sample_ops later.registry
          (binding_of sample_ops sample_sql (answering 41) query some_params later r)
        ≡ false)
route-clean_example =
    route-clean sample_ops sample_sql (answering 41) query some_params later served served-answer
      served-routed

marked-never_serves_example :
    (r : Routed sample_ops sample_sql (answering 41) query some_params later served) × (any
        (λ t. names sample_ops ("customers" ∷ []) (sample_ops.lower t))
        (binding_of sample_ops sample_sql (answering 41) query some_params later r).tables
      ≡ false)
marked-never_serves_example =
    marked-never_serves sample_ops sample_sql (call failing ∷ []) (call (answering 41)) router
      ("customers" ∷ []) served served-answer served-routed

session-Balanced_example : Balanced (
    session sample_ops sample_sql
      (call (answering 45) ∷ call failing ∷ [])
      (new_router checking one_template))
session-Balanced_example =
    session-Balanced sample_ops sample_sql checking one_template
      (call (answering 45) ∷ call failing ∷ [])

session-Tripped_example : Tripped (
    session sample_ops sample_sql
      (call failing ∷ call failing ∷ call failing ∷ [])
      (new_router checking one_template))
session-Tripped_example =
    session-Tripped sample_ops sample_sql checking one_template
      (call failing ∷ call failing ∷ call failing ∷ [])
