-- ===== src/Discovery/Scans.antt =====
-- duckdb_compat/discovery.py: the scan of the engines directory, which registers newly published
-- packages, and the promotion of a registered package to the shared-memory plane.
use Prim.Native.String.{◌++◌ as concat}
use synno_db.Base.{
  ℕ, String, Bool, true, false, not, ◌&&◌, Option, none, some, List, [], ◌∷◌, ◌++◌, length,
  get_elem?, str_eq, if◌then◌else◌,
}
use synno_db.Base.Dict.{StrSet, contains, add}
use synno_db.Python.{PythonOps}
use synno_db.Python.Faults.{Fault, is_synno, Result, ok, err}
use synno_db.Python.Texts.{chars, starts_with}
use synno_db.Registry.{EngineBinding, TemplateRegistry, bindings}
use synno_db.Manifest.{EngineManifest}
use synno_db.Bind.{SqlOps}
use synno_db.Registration.{Catalog, register_manifest}
use synno_db.Discovery.Planes.{
  Worker, Package, engine_tables, tables_present, is_subset, shm_schema_ok, close_worker,
  new_worker, bind_engine,
}

pub record Scan : Type 0 where
  pub registry : TemplateRegistry
  pub registered : StrSet
  pub workers : List Worker

-- register_manifest, with the engine closed when it raises
unfoldable pub register_or_close :
    PythonOps → SqlOps → Catalog → EngineManifest → ℕ → List Worker → Scan → Result Bool × Scan
unfolding close_worker
register_or_close py sql live m handle ws s =
    let (done, registry) = register_manifest py sql live m handle s.registry in
    elim done [
      | ok bs ↦ (ok true, record s { registry = registry; workers = ws })
      | err e ↦ (err e, record s { registry = registry; workers = close_worker handle ws })
    ]

-- The try block of discover_engines: false for a package that is not servable yet.
unfoldable pub try_package :
    PythonOps → SqlOps → Package → EngineManifest → Bool → Scan → Result Bool × Scan
unfolding bind_engine register_or_close
try_package py sql p m mount s =
    let (bound, ws) = bind_engine py p m mount s.workers in
    elim bound [
      | err e ↦ (err e, record s { workers = ws })
      | ok (none, live) ↦ (ok false, record s { workers = ws })
      | ok (some handle, live) ↦ register_or_close py sql live m handle ws s
    ]

-- The handlers of that block: a SynnoError is not tried again.
unfoldable pub handled : String → Result Bool × Scan → Scan
handled key (ok true, s) = record s { registered = add s.registered key }
handled key (ok false, s) = s
handled key (err e, s) = if is_synno e then record s { registered = add s.registered key } else s

-- Path(getattr(b.engine, "workspace", "")) == engine_dir
abbrev pub works_in : List Worker → String → Option ℕ → Bool
works_in ws name none = false
works_in ws name (some handle) = elim (get_elem? ws handle) [
  | none ↦ false
  | some w ↦ str_eq w.workspace name
]

-- current, of _promote_to_shm
unfoldable pub current_engine : List Worker → String → String → List EngineBinding → Option ℕ
current_engine ws engine_id name [] = none
current_engine ws engine_id name (b ∷ bs) =
    let rest = current_engine ws engine_id name bs in
    if str_eq b.engine_id engine_id && works_in ws name b.engine then b.engine else rest

abbrev pub is_shm : List Worker → ℕ → Bool
is_shm ws handle = elim (get_elem? ws handle) [ none ↦ false | some w ↦ w.shm ]

-- the last lines of _promote_to_shm: the registration, and which of the two engines is closed
unfoldable pub swap_engines :
    PythonOps → SqlOps → Package → EngineManifest → ℕ → ℕ → List Worker → Scan → Scan
unfolding close_worker
swap_engines py sql p m current handle ws s =
    let (done, registry) = register_manifest py sql p.live m handle s.registry in
    elim done [
      | ok bs ↦ record s { registry = registry; workers = close_worker current ws }
      | err e ↦ record s { registry = registry; workers = close_worker handle ws }
    ]

-- _promote_to_shm, once the engine to replace is known. The cores and the ingest may raise, and the
-- exception leaves it.
unfoldable pub promote :
    PythonOps → SqlOps → Package → EngineManifest → ℕ → Scan → Result (Unit {0}) × Scan
unfolding swap_engines engine_tables tables_present shm_schema_ok
promote py sql p m current s =
    let tables = engine_tables p.live m in
    let handle = length s.workers in
    let ws : List Worker = s.workers ++ new_worker p.name true ∷ [] in
    elim (tables_present py p.live tables) [
      | err e ↦ (err e, s)
      | ok present ↦
          if not (is_subset tables present && shm_schema_ok py p.live m)
          then (ok tt, s)
          else elim p.cores [
            | err e ↦ (err e, s)
            | ok env ↦ elim (p.ingested tables) [
              | err e ↦ (err e, record s { workers = ws })
              | ok u ↦ (ok tt, swap_engines py sql p m current handle ws s)
            ]
          ]
    ]

-- _promote_to_shm
unfoldable pub promote_to_shm :
    PythonOps → SqlOps → Package → EngineManifest → Scan → Result (Unit {0}) × Scan
unfolding current_engine promote bindings
promote_to_shm py sql p m s =
    if not m.shm_capable
    then (ok tt, s)
    else elim (current_engine s.workers m.engine_id p.name (bindings s.registry)) [
      | none ↦ (ok tt, s)
      | some current ↦ if is_shm s.workers current then (ok tt, s) else promote py sql p m current s
    ]

abbrev pub package_key : Package → EngineManifest → String
package_key p m = concat p.name (concat "\u{1f}" m.engine_id)

-- What is done with a package, by what reading its manifest.json gives. The promotion stands outside
-- the try block.
unfoldable pub scan_manifest :
    PythonOps
    → SqlOps
    → Bool
    → Package
    → Option (Result EngineManifest)
    → Scan
    → Result (Unit {0}) × Scan
unfolding promote_to_shm try_package handled
scan_manifest py sql mount p none s = (ok tt, s)
scan_manifest py sql mount p (some (err e)) s = (ok tt, s)
scan_manifest py sql mount p (some (ok m)) s =
    if contains s.registered (package_key p m)
    then promote_to_shm py sql p m s
    else (ok tt, handled (package_key p m) (try_package py sql p m mount s))

-- The test that the manifest exists, which stands outside the try block.
unfoldable pub scan_present :
    PythonOps → SqlOps → Bool → Package → Option Fault → Scan → Result (Unit {0}) × Scan
unfolding scan_manifest
scan_present py sql mount p (some e) s = (err e, s)
scan_present py sql mount p none s = scan_manifest py sql mount p p.manifest s

-- The body of the loop of discover_engines.
unfoldable pub scan_package : PythonOps → SqlOps → Bool → Package → Scan → Result (Unit {0}) × Scan
unfolding scan_present starts_with
scan_package py sql mount p s =
    if starts_with (chars ".") (chars p.name)
    then (ok tt, s)
    else scan_present py sql mount p p.stat_error s

unfoldable pub scan_packages :
    PythonOps → SqlOps → Bool → List Package → Scan → Result (Unit {0}) × Scan
unfolding scan_package
scan_packages py sql mount [] s = (ok tt, s)
scan_packages py sql mount (p ∷ ps) s =
    let step = scan_package py sql mount p s in
    let rest = scan_packages py sql mount ps step.1 in elim step.0 [ err e ↦ step | ok u ↦ rest ]

-- discover_engines, on the sorted subdirectories, or none where the directory cannot be listed
unfoldable pub discover_engines :
    PythonOps → SqlOps → Bool → Option (List Package) → Scan → Result (Unit {0}) × Scan
unfolding scan_packages
discover_engines py sql mount none s = (ok tt, s)
discover_engines py sql mount (some ps) s = scan_packages py sql mount ps s
