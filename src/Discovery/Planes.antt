-- ===== src/Discovery/Planes.antt =====
-- duckdb_compat/discovery.py: the worker of a package, on the shared-memory plane or on the package's
-- own snapshot. A worker's handle is its place in the list of the workers built so far. Of
-- the environment of a worker (its cores) only the exception is modelled; log lines are left out.
use synno_db.Base.{
  ℕ, String, Bool, true, false, not, ◌&&◌, Option, none, some, List, [], ◌∷◌, ◌++◌, length,
  get_elem?, set, map, all, str_eq, if◌then◌else◌,
}
use synno_db.Base.Dict.{StrSet, contains, add}
use synno_db.Python.{PythonOps}
use synno_db.Python.Faults.{Fault, synno, other, is_resource, Result, ok, err}
use synno_db.Python.Paths.{Parts, is_relative_to}
use synno_db.Manifest.{QueryTemplate, EngineManifest}
use synno_db.Registration.{Catalog, check_compatibility}

-- A ProcessEngine, or its subclass ShmHotLoadEngine, as far as discovery looks at it.
pub record Worker : Type 0 where
  pub workspace : String
  pub shm : Bool
  pub closed : Bool

-- One subdirectory with what its files and the live connection answer during the scan.
pub record Package : Type 0 where
  pub name : String
  -- what manifest_path.exists() raises, if it raises
  pub stat_error : Option Fault
  -- EngineManifest.read of its manifest.json, if there is one
  pub manifest : Option (Result EngineManifest)
  -- whether _engine_extra_env raises for that manifest and the threads given to connect
  pub cores : Result (Unit {0})
  pub live : Catalog
  -- the catalog once the views of _mount_snapshot_views are created
  pub mounted : List String → Parts → Result Catalog
  -- the outcome of ShmHotLoadEngine.ingest on the tables fetched from the connection
  pub ingested : List String → Result (Unit {0})
  -- pathlib: is_absolute, the resolved path below the package, the package's own, and exists
  pub is_absolute : String → Bool
  pub resolve : String → Parts
  pub root : Parts
  pub exists : Parts → Bool

abbrev pub union : StrSet → StrSet → StrSet
union s [] = s
union s (t ∷ ts) = union (add s t) ts

abbrev pub tables_of_queries : Catalog → List QueryTemplate → StrSet
tables_of_queries live [] = []
tables_of_queries live (q ∷ qs) = union (live.tables_in q.sql_template) (tables_of_queries live qs)

-- _engine_tables; the order of the set does not matter
unfoldable pub engine_tables : Catalog → EngineManifest → List String
engine_tables live m = elim m.expected_tables [
  | [] ↦ tables_of_queries live m.queries
  | table ∷ tables ↦ map (λ e. e.0) (table ∷ tables)
]

abbrev pub keep_present : PythonOps → StrSet → List String → StrSet
keep_present py have [] = []
keep_present py have (t ∷ ts) =
    let rest = keep_present py have ts in if contains have (py.lower t) then t ∷ rest else rest

-- _tables_present
unfoldable pub tables_present : PythonOps → Catalog → List String → Result StrSet
tables_present py live [] = ok []
tables_present py live (t ∷ ts) = elim live.table_names [
  | err e ↦ err e
  | ok have ↦ ok (keep_present py have (t ∷ ts))
]

-- set(tables) <= present
abbrev pub is_subset : List String → StrSet → Bool
is_subset tables present = all (contains present) tables

-- _resolve_parquet_dir
unfoldable pub resolve_parquet_dir : Package → EngineManifest → Bool → Result (Option Parts)
resolve_parquet_dir p m require_exists = elim m.parquet_dir [
  | none ↦ ok none
  | some raw ↦
      let path = p.resolve raw in
      if str_eq raw ""
      then ok none
      else if not (p.is_absolute raw) && not (is_relative_to path p.root)
      then err (synno "parquet_dir escapes the engine package; refusing to read it")
      else if require_exists && not (p.exists path)
      then ok none
      else ok (some path)
]

-- _shm_schema_ok
unfoldable pub shm_schema_ok : PythonOps → Catalog → EngineManifest → Bool
shm_schema_ok py live m = elim m.expected_tables [
  | [] ↦ false
  | table ∷ tables ↦ elim (check_compatibility py live m) [ [] ↦ true | p ∷ ps ↦ false ]
]

-- manifest.parquet_dir as a condition
abbrev pub has_parquet_dir : EngineManifest → Bool
has_parquet_dir m = elim m.parquet_dir [ none ↦ false | some raw ↦ not (str_eq raw "") ]

-- engine.close()
unfoldable pub close_worker : ℕ → List Worker → List Worker
close_worker handle ws = elim (get_elem? ws handle) [
  | none ↦ ws
  | some w ↦ set ws handle (record w { closed = true })
]

abbrev pub new_worker : String → Bool → Worker
new_worker workspace shm = record { workspace = workspace; shm = shm; closed = false }

-- What _bind_engine returns: the handle, with the catalog behind the connection afterwards.
abbrev pub Bound : Type 0
Bound = Result (Option ℕ × Catalog) × List Worker

-- the construction of the standalone engine, of _bind_engine and _build_engine
unfoldable pub build_engine : Package → EngineManifest → Catalog → List Worker → Bound
unfolding resolve_parquet_dir
build_engine p m live ws = elim (resolve_parquet_dir p m false) [
  | err e ↦ (err e, ws)
  | ok none ↦ (err (other "manifest has no parquet_dir"), ws)
  | ok (some path) ↦ elim p.cores [
    | err e ↦ (err e, ws)
    | ok u ↦ (ok (some (length ws), live), ws ++ new_worker p.name false ∷ [])
  ]
]

-- The test at the end of the standalone plane.
unfoldable pub build_if_present :
    Package → EngineManifest → List String → StrSet → Catalog → List Worker → Bound
unfolding build_engine
build_if_present p m tables present live ws =
    if is_subset tables present then build_engine p m live ws else (ok (none, live), ws)

abbrev pub missing_from : StrSet → List String → List String
missing_from present [] = []
missing_from present (t ∷ ts) =
    let rest = missing_from present ts in if contains present t then rest else t ∷ rest

-- The mount of the snapshot, if there is one and a table is missing: the catalog and the tables.
unfoldable pub mount_snapshot :
    PythonOps → Package → EngineManifest → List String → StrSet → Result (Catalog × StrSet)
unfolding resolve_parquet_dir tables_present
mount_snapshot py p m tables present = elim (resolve_parquet_dir p m true) [
  | err e ↦ err e
  | ok none ↦ ok (p.live, present)
  | ok (some snapshot) ↦ elim (missing_from present tables) [
    | [] ↦ ok (p.live, present)
    | t ∷ ts ↦ elim (p.mounted (t ∷ ts) snapshot) [
      | err e ↦ err e
      | ok live ↦ elim (tables_present py live tables) [ err e ↦ err e | ok now ↦ ok (live, now) ]
    ]
  ]
]

-- the second plane of _bind_engine
unfoldable pub standalone :
    PythonOps → Package → EngineManifest → Bool → List String → StrSet → List Worker → Bound
unfolding mount_snapshot build_if_present
standalone py p m mount tables present ws =
    if not (has_parquet_dir m)
    then (ok (none, p.live), ws)
    else if mount
    then elim (mount_snapshot py p m tables present) [
      | err e ↦ (err e, ws)
      | ok (live, now) ↦ build_if_present p m tables now live ws
    ]
    else build_if_present p m tables present p.live ws

-- the first plane, which falls through to the second one when shared memory is too small
unfoldable pub hot_load :
    PythonOps → Package → EngineManifest → Bool → List String → StrSet → List Worker → Bound
unfolding standalone close_worker
hot_load py p m mount tables present ws =
    let handle = length ws in
    let ws' : List Worker = ws ++ new_worker p.name true ∷ [] in
    elim p.cores [
      | err e ↦ (err e, ws)
      | ok env ↦ elim (p.ingested tables) [
        | ok u ↦ (ok (some handle, p.live), ws')
        | err e ↦
            let closed : List Worker = close_worker handle ws' in
            if not (is_resource e)
            then (err e, ws')
            else if has_parquet_dir m
            then standalone py p m mount tables present closed
            else (err e, closed)
      ]
    ]

-- _bind_engine
unfoldable pub bind_engine : PythonOps → Package → EngineManifest → Bool → List Worker → Bound
unfolding engine_tables tables_present shm_schema_ok hot_load standalone
bind_engine py p m mount ws =
    let tables = engine_tables p.live m in
    elim (tables_present py p.live tables) [
      | err e ↦ (err e, ws)
      | ok present ↦
          if m.shm_capable && is_subset tables present && shm_schema_ok py p.live m
          then hot_load py p m mount tables present ws
          else standalone py p m mount tables present ws
    ]
