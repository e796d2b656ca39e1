-- ===== src/Discovery/Exactness.antt =====
-- duckdb_compat/discovery.py and router/manifest.py: the registry holds only bindings whose output is
-- within the exact egress.
use synno_db.Base.{ℕ, ◌≡◌, inl, inr, String, List, [], ◌∷◌, All, Bool-cases, str_eq}
use synno_db.Base.Dict.{Dict, put}
use synno_db.Python.{PythonOps}
use synno_db.Registry.{
  EngineBinding, TemplateRegistry, register, register_engine, register_all, clear_dirty,
}
use synno_db.Manifest.{QueryTemplate, EngineManifest}
use synno_db.Bind.{SqlOps}
use synno_db.Registration.{Catalog, unsupported_output_reasons, register_manifest}
use synno_db.Registration.Vetting.{Vets, register_manifest-Registered}

-- The output columns of every registered binding are within the vocabulary of the exact egress.
abbrev pub IsExact : PythonOps → TemplateRegistry → Type 0
IsExact py r =
    All (λ (e : String × EngineBinding). unsupported_output_reasons py e.1.output_schema ≡ [])
      r.by_norm

All-put {ℓ κ} :
    {V : Type ℓ} (P : V → Type κ) (d : Dict V) (k : String) (v : V)
    → P v
    → All (λ (e : String × V). P e.1) d
    → All (λ (e : String × V). P e.1) (put d k v)
unfolding put
All-put P [] k v pv h = (pv, tt)
All-put P ((j, w) ∷ d) k v pv h = elim (Bool-cases (str_eq j k)) [
  | inl e ↦ rw e (pv, h.1)
  | inr e ↦ rw e (h.0, All-put P d k v pv h.1)
]

register_all-IsExact :
    (py : PythonOps) (sql : SqlOps) (live : Catalog) (m : EngineManifest) (engine : ℕ)
    (qs : List QueryTemplate) (bs : List EngineBinding) (r : TemplateRegistry)
    → Vets py sql live m engine qs bs
    → IsExact py r
    → IsExact py (register_all py bs r)
unfolding register_all register_engine register clear_dirty
register_all-IsExact py sql live m engine qs [] r v h = h
register_all-IsExact py sql live m engine [] (b ∷ bs) r v h = absurd v
register_all-IsExact py sql live m engine (q ∷ qs) (b ∷ bs) r v h =
    register_all-IsExact py sql live m engine qs bs (register_engine py b r) v.1 (
      All-put (λ (c : EngineBinding). unsupported_output_reasons py c.output_schema ≡ []) r.by_norm
        b.normalized_sql b v.0.exact h)

register_manifest-IsExact :
    (py : PythonOps) (sql : SqlOps) (live : Catalog) (m : EngineManifest) (engine : ℕ)
    (r : TemplateRegistry)
    → IsExact py r
    → IsExact py (register_manifest py sql live m engine r).1
register_manifest-IsExact py sql live m engine r h =
    elim (register_manifest-Registered py sql live m engine r) [
      | inl (agrees, done) ↦
          rw (done.registry)
            (register_all-IsExact py sql live m engine m.queries done.made r done.vetted h)
      | inr (differs, f, raised, same) ↦ rw same h
    ]

-- A step that leaves the registry, or lets `register_manifest` work on it.
pub data Step (py : PythonOps) (sql : SqlOps) (r r' : TemplateRegistry) : Type 0 where
  stays : r' ≡ r → Step py sql r r'
  registers :
      (live : Catalog) (m : EngineManifest) (engine : ℕ)
      → r' ≡ (register_manifest py sql live m engine r).1
      → Step py sql r r'

pub Step-IsExact :
    (py : PythonOps) (sql : SqlOps) {r r' : TemplateRegistry}
    → Step py sql r r'
    → IsExact py r
    → IsExact py r'
Step-IsExact py sql (stays e) h = rw e h
Step-IsExact py sql (registers live m engine e) h =
    rw e (register_manifest-IsExact py sql live m engine _ h)
