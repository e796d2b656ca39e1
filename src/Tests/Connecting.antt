-- ===== src/Tests/Connecting.antt =====
-- The theorems on connections, applied to a connection with one engine and a cursor.
use synno_db.Base.{
  ◌≡◌, refl, inl, inr, true, false, Option, none, some, List, [], ◌∷◌, Option-cases,
}
use synno_db.Base.Int.{pos}
use synno_db.Python.Samples.{sample_ops}
use synno_db.Connection.Handles.{Handle, Site, Moment, maybe_discover, discover_now}
use synno_db.Connection.Statements.{execute, returned as reply_returned}
use synno_db.Connection.Lifecycle.{
  Fleet, Event, executes, executes_many, opens_cursor, closes, apply, apply_all, connect, cursor,
  close, release,
}
use synno_db.Connection.Blocking.{IsGuarded, apply_all-IsGuarded}
use synno_db.Connection.Counting.{AreProper, IsProper, ReleasedLast, close_releases_last}
use synno_db.Connection.Progress.{execute-returned}
use synno_db.Python.{Float}
use synno_db.Python.Faults.{Result, ok, err}
use synno_db.Python.Texts.{starts_with, occurs}
use synno_db.Compare.Cells.{Table}
use synno_db.Registry.{EngineBinding}
use synno_db.Bind.{Args}
use synno_db.Router.Guards.{returned}
use synno_db.Router.Route.{run_engine}
use synno_db.Registration.{
  register_manifest, check_compatibility, problems_of, table_problem, same_columns, norm_type,
  register_queries, make_binding, unsupported_output_reasons, column_reason, has_brackets, base_of,
  without_space,
}
use synno_db.Discovery.Planes.{
  bind_engine, engine_tables, tables_present, shm_schema_ok, hot_load, close_worker,
}
use synno_db.Discovery.Scans.{
  discover_engines, scan_packages, scan_package, scan_present, scan_manifest, try_package,
  register_or_close, handled,
}
use synno_db.Statement.{is_read_only_query}
use synno_db.Base.Dict.{contains, add}
use synno_db.Router.State.{QueryRouter}
use synno_db.Router.Honesty.{DiffRaised}
use synno_db.Tests.Samples.{failing, sample_sql, query, some_params, answering, router}
use synno_db.Tests.Publishing.{published}

abbrev handle : Handle
handle = record {
  owns_inner = true;
  current = none;
  last = none;
  has_engines_dir = true;
  mount = false;
  registered = [];
  last_discover = none;
  is_open = true;
}

abbrev site : Site
site = record {
  router = some router;
  workers = record { workspace = "p"; shm = false; closed = false } ∷ [];
  refcount = pos 0;
  handed = [];
}

abbrev moment : Moment
moment = record {
  world = answering 41;
  found = some (published ∷ []);
  now = record { bits = 1 };
  is_recent = λ last. true;
  elapsed_ms = record { bits = 2 };
  duckdb_error = none;
}

-- A query and a write on the connection, and a query on its cursor.
abbrev events : List Event
events =
    executes 0 moment query some_params
    ∷ executes_many 0 moment "delete from orders"
    ∷ opens_cursor 0
    ∷ executes 1 moment query some_params
    ∷ []

abbrev fleet : Fleet
fleet = record { site = site; handles = handle ∷ [] }

site-IsGuarded : IsGuarded sample_ops sample_sql site
site-IsGuarded = record { r = router; routing = refl; blocking = refl; clean = tt; checked = tt }

apply_all-IsGuarded_example :
    IsGuarded sample_ops sample_sql (apply_all sample_ops sample_sql events fleet).site
apply_all-IsGuarded_example = apply_all-IsGuarded sample_ops sample_sql events fleet site-IsGuarded

-- The parent is closed while the cursor is open.
abbrev parent_first : List Event
parent_first = opens_cursor 0 ∷ closes 0 ∷ []

proper : AreProper sample_ops sample_sql parent_first (connect handle site)
unfolding connect apply cursor close release
proper = (tt, ((handle, refl, refl), tt))

closing : IsProper (closes 1) (apply_all sample_ops sample_sql parent_first (connect handle site))
unfolding connect apply_all apply cursor close release
closing = (_, refl, refl)

close_releases_last_example :
    ReleasedLast 1 (apply_all sample_ops sample_sql parent_first (connect handle site))
close_releases_last_example =
    close_releases_last sample_ops sample_sql handle site parent_first 1 refl refl proper closing

-- A scan is due, and it registers a package; then the engine raises.
abbrev raising : Moment
raising = record moment { world = failing }

abbrev routed_by : Result QueryRouter → QueryRouter
routed_by (ok r) = r
routed_by (err f) = router

abbrev scanned_router : QueryRouter
scanned_router = routed_by (maybe_discover sample_ops sample_sql raising router handle site).0

scan-returned :
    (maybe_discover sample_ops sample_sql raising router handle site).0 ≡ ok scanned_router
unfolding maybe_discover discover_now discover_engines scan_packages scan_package scan_present
    scan_manifest starts_with contains try_package bind_engine engine_tables tables_present
    shm_schema_ok check_compatibility problems_of table_problem same_columns norm_type hot_load
    close_worker register_or_close register_manifest register_queries make_binding
    unsupported_output_reasons column_reason has_brackets base_of occurs handled add without_space
scan-returned = refl

engine-raises :
    (b : EngineBinding) (args : Args) {answer : Table × Option Float}
    → run_engine failing b args ≡ returned answer
    → ⊥
unfolding run_engine
engine-raises b args h = elim (Option-cases b.engine) [
  | inl e ↦ absurd (cc (rw (e, run_engine) at h))
  | inr (handle, e) ↦ absurd (cc (rw (e, run_engine) at h))
]

never_described : ¬ DiffRaised sample_ops sample_sql raising.world query some_params scanned_router
never_described d = engine-raises d.b d.ran.args d.ran.ran

execute-returned_example :
    (execute sample_ops sample_sql raising query some_params handle site).0 ≡ reply_returned
unfolding is_read_only_query contains
execute-returned_example =
    execute-returned sample_ops sample_sql raising query some_params handle site router
      scanned_router refl scan-returned refl refl refl never_described
