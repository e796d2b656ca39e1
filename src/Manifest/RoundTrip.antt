-- ===== src/Manifest/RoundTrip.antt =====
-- router/manifest.py: a manifest survives being written to a dictionary and read again.
use synno_db.Base.{
  String, ◌≡◌, refl, ap, inl, inr, true, Option, some, List, [], ◌∷◌, map, arith, Bool-cases,
  eq_iff,
}
use synno_db.Base.Int.{ℤ, pos, negsuc, eq_ℤ}
use synno_db.Python.{Kind, exact, PythonOps}
use synno_db.Registry.{ColumnSpec, PlaceholderSpec}
use synno_db.Manifest.{
  QueryTemplate, EngineManifest, is_long, spec_row, row_spec, map_all, query_to_dict,
  query_from_dict, to_dict, from_dict, table_row, row_table, column,
}

eq_ℤ-eq : (x y : ℤ) → eq_ℤ x y ≡ true → x ≡ y
eq_ℤ-eq (pos n) (pos m) h = ap pos (ground (arith, h))
eq_ℤ-eq (negsuc n) (negsuc m) h = ap negsuc (ground (arith, h))
eq_ℤ-eq (pos n) (negsuc m) h = absurd (ground (arith, h))
eq_ℤ-eq (negsuc n) (pos m) h = absurd (ground (arith, h))

row_spec-spec_row : (p : PlaceholderSpec) → row_spec (spec_row p) ≡ some p
unfolding row_spec spec_row
row_spec-spec_row p = elim (Bool-cases (is_long p)) [
  | inl e ↦ rw (e, spec_row) refl
  | inr e ↦
      rw (e, spec_row)
        (let front : p.prefix ≡ "" = ground (arith, e, eq_iff p.prefix "") in
          let back : p.suffix ≡ "" = ground (arith, e, eq_iff p.suffix "") in
          let alone : p.group ≡ negsuc 0 = eq_ℤ-eq p.group (negsuc 0) (ground (arith, e)) in
          rw (front, back, alone) refl)
]

map_all-map :
    {A B : Type 0} (f : B → Option A) (g : A → B) (xs : List A)
    → ((x : A) → f (g x) ≡ some x)
    → map_all f (map g xs) ≡ some xs
unfolding map_all
map_all-map f g [] h = refl
map_all-map f g (x ∷ xs) h = rw (h x, map_all-map f g xs h) refl

map-map_id :
    {A B : Type 0} (f : B → A) (g : A → B) (xs : List A)
    → ((x : A) → f (g x) ≡ x)
    → map f (map g xs) ≡ xs
map-map_id f g [] h = refl
map-map_id f g (x ∷ xs) h = rw (h x, map-map_id f g xs h) refl

row_table-table_row : (e : String × List ColumnSpec) → row_table (table_row e) ≡ e
row_table-table_row e =
    ap (λ cols. (e.0, cols))
      (map-map_id column (λ (c : ColumnSpec). (c.name, c.type)) e.1 (λ c. refl))

-- str() of a text is that text.
abbrev pub ShowsText : PythonOps → Type 0
ShowsText py = (s : String) → py.show (exact (record { kind = Kind.text; repr = s })) ≡ s

query_from_dict-query_to_dict :
    (py : PythonOps) (q : QueryTemplate)
    → ShowsText py
    → query_from_dict py (query_to_dict q) ≡ some q
unfolding query_from_dict query_to_dict
query_from_dict-query_to_dict py q shows =
    rw (map_all-map row_spec spec_row q.placeholders row_spec-spec_row, shows q.query_id) refl

-- A manifest that is written to a dictionary and read again is the same manifest, its embedded and
-- its whole-literal placeholders included, given that str() of a text is that text.
pub from_dict-to_dict :
    (py : PythonOps) (m : EngineManifest) → ShowsText py → from_dict py (to_dict m) ≡ some m
unfolding from_dict to_dict
from_dict-to_dict py m shows =
    rw
      (
        map_all-map (query_from_dict py) query_to_dict m.queries
            (λ q. query_from_dict-query_to_dict py q shows),
        map-map_id row_table table_row m.expected_tables row_table-table_row,
      )
      refl
