-- ===== src/Registration/Vetting.antt =====
-- router/registration.py and router/manifest.py: what every binding that a manifest puts into the
-- registry went through.
use mathlib.Core.Path.{subst}
use synno_db.Base.{
  ℕ, suc, length, List-cases, String, ◌≡◌, refl, ap, ◌⊎◌, inl, inr, Option, none, some, List, [],
  ◌∷◌,
}
use synno_db.Python.{PythonOps}
use synno_db.Python.Faults.{Result, ok, err, Fault, Result-cases, >>=-eq-ok, ok_injective}
use synno_db.Registry.{EngineBinding, TemplateRegistry, register_engine, register_all}
use synno_db.Manifest.{QueryTemplate, EngineManifest}
use synno_db.Bind.{SqlOps}
use synno_db.Registration.{
  Catalog, make_binding, key_of, refuse, unsupported_output_reasons, keep, register_queries,
  register_manifest, check_compatibility,
}

-- The binding is that of the query, as the live connection stands.
pub record Vetted (py : PythonOps) (sql : SqlOps) (live : Catalog) (m : EngineManifest) (engine : ℕ)
    (q : QueryTemplate) (b : EngineBinding) : Type 0 where
  pub normalized : sql.normalize q.sql_template ≡ some b.normalized_sql
  pub described : live.describe_output q.sql_template q.placeholders ≡ ok b.output_schema
  pub exact : unsupported_output_reasons py b.output_schema ≡ []
  pub fingerprinted : live.schema_fingerprint b.tables ≡ ok b.schema_fingerprint
  pub reads : b.tables ≡ live.tables_in q.sql_template
  pub template : b.template_sql ≡ some q.sql_template
  pub bound : b.engine ≡ some engine

key_of-eq-ok : (o : Option String) {key : String} → key_of o ≡ ok key → o ≡ some key
key_of-eq-ok none h = absurd (cc)
key_of-eq-ok (some key) h = cc

refuse-eq-ok : (reasons : List String) {u : Unit {0}} → refuse reasons ≡ ok u → reasons ≡ []
refuse-eq-ok [] h = refl
refuse-eq-ok (r ∷ rs) h = absurd (cc)

pub make_binding-Vetted :
    (py : PythonOps) (sql : SqlOps) (live : Catalog) (m : EngineManifest) (engine : ℕ)
    (q : QueryTemplate) {b : EngineBinding}
    → make_binding py sql live m engine q ≡ ok b
    → Vetted py sql live m engine q b
unfolding make_binding
make_binding-Vetted py sql live m engine q {b} made =
    let (key, parsed, made') = >>=-eq-ok (key_of (sql.normalize q.sql_template)) _ made in
    let (schema, described, made'') =
      >>=-eq-ok (live.describe_output q.sql_template q.placeholders) _ made' in
    let (u, exact, made3) = >>=-eq-ok (refuse (unsupported_output_reasons py schema)) _ made'' in
    let (print, printed, built) =
      >>=-eq-ok (live.schema_fingerprint (live.tables_in q.sql_template)) _ made3 in
    subst (Vetted py sql live m engine q) (ok_injective built) (record {
      normalized = key_of-eq-ok _ parsed;
      described = described;
      exact = refuse-eq-ok _ exact;
      fingerprinted = printed;
      reads = refl;
      template = refl;
      bound = refl;
    })

-- The bindings are those of the first queries, one of each and in their order.
abbrev pub Vets :
    PythonOps
    → SqlOps
    → Catalog
    → EngineManifest
    → ℕ
    → List QueryTemplate
    → List EngineBinding
    → Type 0
Vets py sql live m engine qs [] = Unit
Vets py sql live m engine [] (b ∷ bs) = ⊥
Vets py sql live m engine (q ∷ qs) (b ∷ bs) =
    Vetted py sql live m engine q b × Vets py sql live m engine qs bs

-- The error is that of the first query after those of the bindings.
abbrev pub Stops :
    PythonOps
    → SqlOps
    → Catalog
    → EngineManifest
    → ℕ
    → List QueryTemplate
    → List EngineBinding
    → Fault
    → Type 0
Stops py sql live m engine [] bs f = ⊥
Stops py sql live m engine (q ∷ qs) [] f = make_binding py sql live m engine q ≡ err f
Stops py sql live m engine (q ∷ qs) (b ∷ bs) f = Stops py sql live m engine qs bs f

-- What a registration leaves: the registry with the bindings that were made, for every query if it
-- returned them, and for all that come before the refused query if it raised.
pub record Registered (py : PythonOps) (sql : SqlOps) (live : Catalog) (m : EngineManifest)
    (engine : ℕ) (qs : List QueryTemplate) (r : TemplateRegistry)
    (out : Result (List EngineBinding) × TemplateRegistry) : Type 0 where
  pub made : List EngineBinding
  pub vetted : Vets py sql live m engine qs made
  pub registry : out.1 ≡ register_all py made r
  pub complete :
      ((out.0 ≡ ok made) × (length made ≡ length qs))
      ⊎ ((f : Fault) × (out.0 ≡ err f) × Stops py sql live m engine qs made f)

keep_complete :
    (b : EngineBinding) (out : Result (List EngineBinding)) (made : List EngineBinding) (n : ℕ)
    (S : Fault → Type 0)
    → ((out ≡ ok made) × (length made ≡ n)) ⊎ ((f : Fault) × (out ≡ err f) × S f)
    → ((keep b out ≡ ok (b ∷ made)) × (suc (length made) ≡ suc n))
      ⊎ ((f : Fault) × (keep b out ≡ err f) × S f)
keep_complete b out made n S (inl (e, counted)) = inl (rw e refl, ap suc counted)
keep_complete b out made n S (inr (f, e, stops)) = inr (f, rw e refl, stops)

module _ (py : PythonOps) (sql : SqlOps) (live : Catalog) (m : EngineManifest) (engine : ℕ) where
  pub register_queries-Registered :
      (qs : List QueryTemplate) (r : TemplateRegistry)
      → Registered py sql live m engine qs r (register_queries py sql live m engine qs r)
  unfolding register_queries register_all
  register_queries-Registered [] r = record {
    made = [];
    vetted = tt;
    registry = refl;
    complete = inl (refl, refl);
  }
  register_queries-Registered (q ∷ qs) r =
      elim (Result-cases (make_binding py sql live m engine q)) [
        | inr (f, e) ↦
            rw (e, register_queries)
              (record { made = []; vetted = tt; registry = refl; complete = inr (f, refl, e) })
        | inl (b, e) ↦
            let rest = register_queries-Registered qs (register_engine py b r) in
            rw (e, register_queries)
              (record {
                made = b ∷ rest.made;
                vetted = (make_binding-Vetted py sql live m engine q e, rest.vetted);
                registry = rest.registry;
                complete =
                    keep_complete b _ rest.made (length qs)
                      (Stops py sql live m engine qs rest.made) rest.complete;
              })
      ]

  -- When every expected table of the manifest agrees with the live schema, `register_manifest` puts
  -- one binding for each of the first queries into the registry, in their order: the query parsed to
  -- the binding's key, DuckDB described the binding's output columns, none of them is outside the
  -- exact vocabulary, and the fingerprint is that of the tables that the query reads. It returns
  -- exactly these bindings, and then they are those of all queries, or it raises the error of
  -- the query that follows them, and the bindings of all queries before it stay. When a table does
  -- not agree, it raises and the registry is as before.
  pub register_manifest-Registered :
      (r : TemplateRegistry)
      → ((check_compatibility py live m ≡ [])
          × Registered py sql live m engine m.queries r (register_manifest py sql live m engine r))
        ⊎ ((¬ (check_compatibility py live m ≡ []))
            × (f : Fault) × ((register_manifest py sql live m engine r).0 ≡ err f)
            × ((register_manifest py sql live m engine r).1 ≡ r))
  unfolding register_manifest
  register_manifest-Registered r = elim (List-cases (check_compatibility py live m)) [
    | inl agrees ↦
        inl (agrees, rw (agrees, register_manifest) (register_queries-Registered m.queries r))
    | inr (p, ps, e) ↦
        rw (e, register_manifest) (inr ((λ agrees. absurd (cc (agrees))), _, refl, refl))
  ]
