-- ===== src/Tests/Publishing.antt =====
-- The theorems on the registration and the discovery of engines, applied to one published package.
use synno_db.Base.{◌≡◌, ◌⊎◌, true, false, none, some, [], ◌∷◌, Some, refl, map}
use synno_db.Base.Dict.{contains, add}
use synno_db.Python.Texts.{starts_with, occurs}
use synno_db.Python.Samples.{sample_ops}
use synno_db.Python.Faults.{ok, err, resource, Fault}
use synno_db.Registry.{empty_registry}
use synno_db.Manifest.{EngineManifest}
use synno_db.Registration.{
  Catalog, register_manifest, check_compatibility, problems_of, table_problem, same_columns,
  norm_type, register_queries, make_binding, unsupported_output_reasons, column_reason,
  has_brackets, base_of, without_space,
}
use synno_db.Registration.Vetting.{Registered, register_manifest-Registered}
use synno_db.Discovery.Planes.{
  Package, bind_engine, engine_tables, tables_present, shm_schema_ok, hot_load, close_worker,
}
use synno_db.Discovery.Scans.{
  Scan, discover_engines, scan_packages, scan_package, scan_present, scan_manifest, try_package,
  register_or_close, handled,
}
use synno_db.Discovery.Exactness.{IsExact}
use synno_db.Discovery.Scanning.{Escaped, listed_packages, discover_engines-Contained}
use synno_db.Tests.Samples.{sample_sql, query, orders}

-- One table with one column.
abbrev pub catalog : Catalog
catalog = record {
  columns = λ table. ok (("name", "VARCHAR") ∷ []);
  table_names = ok ("orders" ∷ []);
  describe_output = λ template specs. ok orders.output_schema;
  schema_fingerprint = λ tables. ok "f";
  tables_in = λ template. "orders" ∷ [];
}

abbrev pub manifest : EngineManifest
manifest = record {
  engine_id = "e1";
  queries =
      record { query_id = "1"; sql_template = query; placeholders = orders.placeholders } ∷ [];
  storage_mode = "memory";
  scale_factor = none;
  source_run_id = none;
  expected_tables = ("orders", record { name = "name"; type = "VARCHAR" } ∷ []) ∷ [];
  parquet_dir = none;
  shm_capable = true;
  source_db = none;
  threads = none;
}

register_manifest-Registered_example :
    ((check_compatibility sample_ops catalog manifest ≡ [])
      × Registered sample_ops sample_sql catalog manifest 0 manifest.queries empty_registry
          (register_manifest sample_ops sample_sql catalog manifest 0 empty_registry))
    ⊎ ((¬ (check_compatibility sample_ops catalog manifest ≡ []))
        × (f : Fault) × ((register_manifest sample_ops sample_sql catalog manifest 0
              empty_registry).0
            ≡ err f)
        × ((register_manifest sample_ops sample_sql catalog manifest 0 empty_registry).1
            ≡ empty_registry))
register_manifest-Registered_example =
    register_manifest-Registered sample_ops sample_sql catalog manifest 0 empty_registry

-- The package of the manifest, whose tables fit into shared memory.
abbrev pub published : Package
published = record {
  name = "p";
  stat_error = none;
  manifest = some (ok manifest);
  cores = ok tt;
  live = catalog;
  mounted = λ tables path. ok catalog;
  ingested = λ tables. ok tt;
  is_absolute = λ raw. false;
  resolve = λ raw. raw ∷ [];
  root = "p" ∷ [];
  exists = λ path. true;
}

-- A package in the same directory that does not fit.
abbrev too_large : Package
too_large = record published {
  name = "q";
  ingested = λ tables. err (resource "no space in /dev/shm");
}

abbrev pub nothing_yet : Scan
nothing_yet = record { registry = empty_registry; registered = []; workers = [] }

discover_engines-Contained_example :
    IsExact sample_ops
      (discover_engines sample_ops sample_sql false
        (some (published ∷ too_large ∷ []))
        nothing_yet).1.registry
    × (((discover_engines sample_ops sample_sql false
            (some (published ∷ too_large ∷ []))
            nothing_yet).0
          ≡ ok tt)
        ⊎ Some (Escaped sample_ops) (listed_packages (some (published ∷ too_large ∷ []))))
discover_engines-Contained_example =
    discover_engines-Contained sample_ops sample_sql false (some (published ∷ too_large ∷ []))
      nothing_yet tt

-- A package that does not fit into shared memory is recorded, and its worker closed.
scan-recorded :
    (discover_engines sample_ops sample_sql false
      (some (published ∷ too_large ∷ []))
      nothing_yet).1.registered
    ≡ "p\u{1f}e1" ∷ "q\u{1f}e1" ∷ []
unfolding discover_engines scan_packages scan_package scan_present scan_manifest starts_with
    contains try_package bind_engine engine_tables tables_present shm_schema_ok check_compatibility
    problems_of table_problem same_columns norm_type hot_load close_worker register_or_close
    register_manifest register_queries make_binding unsupported_output_reasons column_reason
    has_brackets base_of occurs handled add without_space
scan-recorded = refl

scan-closed :
    map
      (λ w. w.closed)
      (discover_engines sample_ops sample_sql false
        (some (published ∷ too_large ∷ []))
        nothing_yet).1.workers
    ≡ false ∷ true ∷ []
unfolding discover_engines scan_packages scan_package scan_present scan_manifest starts_with
    contains try_package bind_engine engine_tables tables_present shm_schema_ok check_compatibility
    problems_of table_problem same_columns norm_type hot_load close_worker register_or_close
    register_manifest register_queries make_binding unsupported_output_reasons column_reason
    has_brackets base_of occurs handled add without_space
scan-closed = refl
