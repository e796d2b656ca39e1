-- ===== src/Discovery/Scanning.antt =====
-- duckdb_compat/discovery.py: what a scan of the engines directory may leave in the registry, and
-- which exceptions leave it.
use synno_db.Base.{
  ℕ, ◌≡◌, refl, ◌⊎◌, inl, inr, Bool, true, false, ◌&&◌, String, Option, none, some, List, [], ◌∷◌,
  ◌++◌, Bool-cases, Option-cases, arith, Some,
}
use synno_db.Base.Dict.{contains}
use synno_db.Python.{PythonOps}
use synno_db.Python.Texts.{chars, starts_with}
use synno_db.Python.Faults.{Fault, Result, ok, err, Result-cases}
use synno_db.Registry.{TemplateRegistry, bindings}
use synno_db.Manifest.{EngineManifest}
use synno_db.Bind.{SqlOps}
use synno_db.Registration.{Catalog}
use synno_db.Discovery.Planes.{
  Package, Worker, new_worker, engine_tables, tables_present, is_subset, shm_schema_ok, bind_engine,
}
use synno_db.Discovery.Scans.{
  Scan, scan_packages, scan_package, scan_present, scan_manifest, discover_engines, promote_to_shm,
  promote, swap_engines, try_package, register_or_close, handled, current_engine, is_shm,
  package_key,
}
use synno_db.Discovery.Exactness.{IsExact, Step, stays, registers, Step-IsExact}

module _ (py : PythonOps) (sql : SqlOps) (p : Package) (m : EngineManifest) where
  swap_engines-Step :
      (current handle : ℕ) (ws : List Worker) (s : Scan)
      → Step py sql s.registry (swap_engines py sql p m current handle ws s).registry
  unfolding swap_engines
  swap_engines-Step current handle ws s = registers p.live m handle (ground arith)

-- The exception of a promotion: the package has a shm-capable manifest, and the exception is that of
-- the catalog, of the choice of the cores or of the ingest.
pub record Unpromoted (py : PythonOps) (p : Package) (fault : Fault) : Type 0 where
  pub m : EngineManifest
  pub listed : p.manifest ≡ some (ok m)
  pub capable : m.shm_capable ≡ true
  pub raised :
      (tables_present py p.live (engine_tables p.live m) ≡ err fault)
      ⊎ (p.cores ≡ err fault)
      ⊎ (p.ingested (engine_tables p.live m) ≡ err fault)

-- An exception that leaves the scan: that of the test that the manifest exists, or of a promotion.
pub record Escaped (py : PythonOps) (p : Package) : Type 0 where
  pub fault : Fault
  pub raised : (p.stat_error ≡ some fault) ⊎ Unpromoted py p fault

-- What one package may do: the registry's step, and the exception that leaves the scan, if any.
pub record Scanned (py : PythonOps) (sql : SqlOps) (p : Package) (r : TemplateRegistry)
    (out : Result (Unit {0}) × Scan) : Type 0 where
  pub step : Step py sql r out.1.registry
  pub ends : (out.0 ≡ ok tt) ⊎ ((x : Escaped py p) × (out.0 ≡ err x.fault))

module _ (py : PythonOps) (sql : SqlOps) (p : Package) (m : EngineManifest)
    (listed : p.manifest ≡ some (ok m)) (capable : m.shm_capable ≡ true) where
  abbrev escape :
      (f : Fault)
      → (tables_present py p.live (engine_tables p.live m) ≡ err f)
        ⊎ (p.cores ≡ err f)
        ⊎ (p.ingested (engine_tables p.live m) ≡ err f)
      → Escaped py p
  escape f raised = record {
    fault = f;
    raised = inr (record { m = m; listed = listed; capable = capable; raised = raised });
  }

  promote-Scanned :
      (current : ℕ) (s : Scan) → Scanned py sql p s.registry (promote py sql p m current s)
  unfolding promote
  promote-Scanned current s =
      elim (Result-cases (tables_present py p.live (engine_tables p.live m))) [
        | inr (f, e) ↦
            rw (e, promote) (record { step = stays refl; ends = inr (escape f (inl e), refl) })
        | inl (present, e) ↦
            elim (Bool-cases
              (is_subset (engine_tables p.live m) present && shm_schema_ok py p.live m)) [
                | inr no_match ↦
                    rw (e, no_match, promote) (record { step = stays refl; ends = inl refl })
                | inl fits ↦ elim (Result-cases p.cores) [
                  | inr (f, g) ↦
                      simp (e, fits, g, promote)
                        (record { step = stays refl; ends = inr (escape f (inr (inl g)), refl) })
                  | inl (env, c) ↦ elim (Result-cases (p.ingested (engine_tables p.live m))) [
                    | inr (f, g) ↦
                        simp (e, fits, c, g, promote)
                          (record { step = stays refl; ends = inr (escape f (inr (inr g)), refl) })
                    | inl (u, g) ↦
                        simp (e, fits, c, g, promote)
                          (record {
                            step =
                                swap_engines-Step py sql p m current _
                                  (s.workers ++ new_worker p.name true ∷ []) s;
                            ends = inl refl;
                          })
                  ]
                ]
              ]
      ]

module _ (py : PythonOps) (sql : SqlOps) (p : Package) (m : EngineManifest) where
  abbrev Quiet : Scan → Result (Unit {0}) × Scan → Type 0
  Quiet s out = Step py sql s.registry out.1.registry × (out.0 ≡ ok tt)

  promote_to_shm-Scanned :
      (s : Scan)
      → p.manifest ≡ some (ok m)
      → Scanned py sql p s.registry (promote_to_shm py sql p m s)
  unfolding promote_to_shm
  promote_to_shm-Scanned s listed = elim (Bool-cases m.shm_capable) [
    | inr no_shm ↦ rw (no_shm, promote_to_shm) (record { step = stays refl; ends = inl refl })
    | inl capable ↦
        elim (Option-cases (current_engine s.workers m.engine_id p.name (bindings s.registry))) [
          | inl e ↦ rw (capable, e, promote_to_shm) (record { step = stays refl; ends = inl refl })
          | inr (current, e) ↦ elim (Bool-cases (is_shm s.workers current)) [
            | inl f ↦
                rw (capable, e, f, promote_to_shm) (record { step = stays refl; ends = inl refl })
            | inr f ↦
                rw (capable, e, f, promote_to_shm)
                  (promote-Scanned py sql p m listed capable current s)
          ]
        ]
  ]

  register_or_close-Step :
      (live : Catalog) (handle : ℕ) (ws : List Worker) (s : Scan)
      → Step py sql s.registry (register_or_close py sql live m handle ws s).1.registry
  unfolding register_or_close
  register_or_close-Step live handle ws s = registers live m handle (ground arith)

  try_package-Step :
      (mount : Bool) (s : Scan) → Step py sql s.registry (try_package py sql p m mount s).1.registry
  unfolding try_package
  try_package-Step mount s = elim (Result-cases (bind_engine py p m mount s.workers).0) [
    | inr (f, e) ↦ rw (e, try_package) (stays refl)
    | inl ((none, live), e) ↦ rw (e, try_package) (stays refl)
    | inl ((some handle, live), e) ↦ rw (e, try_package) (register_or_close-Step live handle _ s)
  ]

  handled-registry :
      (key : String) (out : Result Bool × Scan) → (handled key out).registry ≡ out.1.registry
  unfolding handled
  handled-registry key (ok true, s) = refl
  handled-registry key (ok false, s) = refl
  handled-registry key (err e, s) = ground arith

Step-eq :
    (py : PythonOps) (sql : SqlOps) {r r' r'' : TemplateRegistry}
    → r'' ≡ r'
    → Step py sql r r'
    → Step py sql r r''
Step-eq py sql same step = rw same step

module _ (py : PythonOps) (sql : SqlOps) (mount : Bool) where
  scan_manifest-Scanned :
      (p : Package) (s : Scan) (o : Option (Result EngineManifest))
      → p.manifest ≡ o
      → Scanned py sql p s.registry (scan_manifest py sql mount p o s)
  unfolding scan_manifest
  scan_manifest-Scanned p s none e = record { step = stays refl; ends = inl refl }
  scan_manifest-Scanned p s (some (err f)) e = record { step = stays refl; ends = inl refl }
  scan_manifest-Scanned p s (some (ok m)) e =
      elim (Bool-cases (contains s.registered (package_key p m))) [
        | inl known ↦ rw (known, scan_manifest) (promote_to_shm-Scanned py sql p m s e)
        | inr fresh ↦
            rw (fresh, scan_manifest)
              (record {
                step =
                    Step-eq py sql (handled-registry py sql p m (package_key p m) _)
                      (try_package-Step py sql p m mount s);
                ends = inl refl;
              })
      ]

  scan_stat-Scanned :
      (p : Package) (s : Scan) (o : Option Fault)
      → p.stat_error ≡ o
      → Scanned py sql p s.registry (scan_present py sql mount p o s)
  unfolding scan_present
  scan_stat-Scanned p s none e = scan_manifest-Scanned p s p.manifest refl
  scan_stat-Scanned p s (some f) e = record {
    step = stays refl;
    ends = inr (record { fault = f; raised = inl e }, refl);
  }

  scan_package-Scanned :
      (p : Package) (s : Scan) → Scanned py sql p s.registry (scan_package py sql mount p s)
  unfolding scan_package
  scan_package-Scanned p s = elim (Bool-cases (starts_with (chars ".") (chars p.name))) [
    | inl hidden ↦ rw (hidden, scan_package) (record { step = stays refl; ends = inl refl })
    | inr plain ↦ rw (plain, scan_package) (scan_stat-Scanned p s p.stat_error refl)
  ]

  scan_packages-IsExact :
      (ps : List Package) (s : Scan)
      → IsExact py s.registry
      → IsExact py (scan_packages py sql mount ps s).1.registry
  unfolding scan_packages
  scan_packages-IsExact [] s h = h
  scan_packages-IsExact (p ∷ ps) s h =
      let one = scan_package-Scanned p s in
      let kept = Step-IsExact py sql one.step h in
      elim one.ends [
        | inl e ↦ rw (e, scan_packages) (scan_packages-IsExact ps _ kept)
        | inr (x, e) ↦ rw (e, scan_packages) kept
      ]

  scan_packages-Escaped :
      (ps : List Package) (s : Scan)
      → ((scan_packages py sql mount ps s).0 ≡ ok tt) ⊎ Some (Escaped py) ps
  unfolding scan_packages
  scan_packages-Escaped [] s = inl refl
  scan_packages-Escaped (p ∷ ps) s = elim (scan_package-Scanned p s).ends [
    | inr (x, e) ↦ inr (inl x)
    | inl e ↦ elim (scan_packages-Escaped ps (scan_package py sql mount p s).1) [
      | inl quiet ↦ inl (rw (e, scan_packages) quiet)
      | inr later ↦ inr (inr later)
    ]
  ]

-- The packages of a directory, of which there are none when it cannot be listed.
abbrev pub listed_packages : Option (List Package) → List Package
listed_packages none = []
listed_packages (some ps) = ps

pub discover_engines-Escaped :
    (py : PythonOps) (sql : SqlOps) (mount : Bool) (found : Option (List Package)) (s : Scan)
    → ((discover_engines py sql mount found s).0 ≡ ok tt)
      ⊎ Some (Escaped py) (listed_packages found)
unfolding discover_engines
discover_engines-Escaped py sql mount none s = inl refl
discover_engines-Escaped py sql mount (some ps) s = scan_packages-Escaped py sql mount ps s

-- Whatever packages, manifests and databases a scan meets, it keeps the registry free of bindings
-- whose output columns are outside the vocabulary of the exact egress. When the scan does not return,
-- a listed package is the cause: the test that its manifest exists raised, or its manifest is
-- shm-capable and the catalog, the choice of the cores or the ingest raised.
pub discover_engines-Contained :
    (py : PythonOps) (sql : SqlOps) (mount : Bool) (found : Option (List Package)) (s : Scan)
    → IsExact py s.registry
    → IsExact py (discover_engines py sql mount found s).1.registry
      × (((discover_engines py sql mount found s).0 ≡ ok tt)
          ⊎ Some (Escaped py) (listed_packages found))
unfolding discover_engines
discover_engines-Contained py sql mount none s h = (h, inl refl)
discover_engines-Contained py sql mount (some ps) s h =
    (scan_packages-IsExact py sql mount ps s h, discover_engines-Escaped py sql mount (some ps) s)
