-- ===== src/Registration.antt =====
-- router/registration.py and the registration of a manifest in router/manifest.py: a binding is made
-- from what the live DuckDB says of the query, and refused when its output columns are outside the
-- vocabulary of the exact egress.
pub mod Vetting
use Prim.Native.Char.{Char, code}
use Prim.Native.String.{◌++◌ as concat}
use synno_db.Base.{
  ℕ, String, Bool, true, false, ◌&&◌, ◌||◌, Option, none, some, List, [], ◌∷◌, ◌++◌, length, map,
  ◌==◌, leb, str_eq, if◌then◌else◌,
}
use synno_db.Base.Dict.{Dict, StrSet, contains}
use synno_db.Python.{Float, PythonOps}
use synno_db.Python.Faults.{Fault, message, unsupported, synno, other, Result, ok, err, ◌>>=◌}
use synno_db.Python.Texts.{chars, text_of, occurs}
use synno_db.Statement.{is_space}
use synno_db.Registry.{
  ColumnSpec, PlaceholderSpec, EngineBinding, TemplateRegistry, register_engine,
}
use synno_db.Manifest.{QueryTemplate, EngineManifest}
use synno_db.Bind.{SqlOps}

-- What the live connection answers, as its catalog stands, and what sqlglot says of a text.
pub record Catalog : Type 0 where
  -- SELECT column_name, data_type ... WHERE lower(table_name) = ?
  pub columns : String → Result (List (String × String))
  -- SELECT DISTINCT lower(table_name)
  pub table_names : Result StrSet
  -- describe_output: the description of the template with typed NULLs for its parameters
  pub describe_output : String → List PlaceholderSpec → Result (List ColumnSpec)
  -- schema_fingerprint of the connection
  pub schema_fingerprint : StrSet → Result String
  -- tables_in of normalize.py
  pub tables_in : String → StrSet

abbrev pub nested_output_bases : StrSet
nested_output_bases = "LIST" ∷ "ARRAY" ∷ "STRUCT" ∷ "MAP" ∷ "UNION" ∷ "ROW" ∷ []

abbrev pub unsupported_output_bases : StrSet
unsupported_output_bases =
    "INTERVAL" ∷ "BLOB" ∷ "BYTEA" ∷ "VARBINARY" ∷ "BIT" ∷ "UUID" ∷ "TIME" ∷ "ENUM" ∷ "JSON"
    ∷ "UHUGEINT" ∷ []

abbrev is_digit : Char → Bool
is_digit c = leb 48 (code c) && leb (code c) 57

-- [A-Z0-9_]
abbrev is_base_char : Char → Bool
is_base_char c = leb 65 (code c) && leb (code c) 90 || is_digit c || code c == 95

-- the characters at the front that pass a test
unfoldable pub span_of : (Char → Bool) → List Char → List Char
span_of p [] = []
span_of p (c ∷ cs) = let rest = span_of p cs in if p c then c ∷ rest else []

-- the leading type token, re.match(r"[A-Z0-9_]+", t), or t
unfoldable pub base_of : List Char → String
unfolding span_of
base_of t = elim (span_of is_base_char t) [ [] ↦ text_of t | c ∷ cs ↦ text_of (c ∷ cs) ]

unfoldable pub without_space : List Char → List Char
without_space [] = []
without_space (c ∷ cs) = let rest = without_space cs in if is_space c then rest else c ∷ rest

-- Where a match of \[\s*\d*\s*\] stands: behind the bracket, among the digits, behind them.
pub data Bracket : Type 0 where
  opened digits closing : Bracket

unfoldable pub closes : Bracket → List Char → Bool
closes at [] = false
closes opened (c ∷ cs) =
    let spaces = closes opened cs in
    let more = closes digits cs in
    if is_space c then spaces else if is_digit c then more else code c == 93
closes digits (c ∷ cs) =
    let more = closes digits cs in
    let spaces = closes closing cs in
    if is_digit c then more else if is_space c then spaces else code c == 93
closes closing (c ∷ cs) =
    let spaces = closes closing cs in if is_space c then spaces else code c == 93

-- re.search(r"\[\s*\d*\s*\]", t)
unfoldable pub has_brackets : List Char → Bool
unfolding closes
has_brackets [] = false
has_brackets (c ∷ cs) = (code c == 91 && closes opened cs) || has_brackets cs

abbrev is_nested : List Char → Bool
unfolding has_brackets base_of contains
is_nested t = has_brackets t || contains nested_output_bases (base_of t)

abbrev is_zoned : List Char → Bool
unfolding occurs base_of contains
is_zoned t = occurs (chars "TIME ZONE") t || contains ("TIMESTAMPTZ" ∷ "TIMETZ" ∷ []) (base_of t)

-- The reason of one column, of _unsupported_output_reasons.
unfoldable pub column_reason : PythonOps → ColumnSpec → Option String
unfolding has_brackets base_of contains occurs
column_reason py c =
    let t = chars (py.strip (py.upper c.type)) in
    let column = concat "output column '" (concat c.name "'") in
    if is_nested t
    then some (
        concat column (
          concat " has a nested/array type ("
            (concat c.type "); exact egress emits flat columns only")))
    else if is_zoned t
    then some (
        concat column (
          concat " type "
            (concat c.type " carries a time zone, which exact egress does not reproduce")))
    else if contains unsupported_output_bases (base_of t)
    then some
        (concat column (concat " type " (concat c.type " is outside the exact-egress vocabulary")))
    else none

unfoldable pub unsupported_output_reasons : PythonOps → List ColumnSpec → List String
unfolding column_reason
unsupported_output_reasons py [] = []
unsupported_output_reasons py (c ∷ cs) = elim (column_reason py c) [
  | none ↦ unsupported_output_reasons py cs
  | some reason ↦ reason ∷ unsupported_output_reasons py cs
]

-- "; ".join(problems)
abbrev pub join_problems : List String → String
join_problems [] = ""
join_problems (p ∷ []) = p
join_problems (p ∷ q ∷ ps) = concat p (concat "; " (join_problems (q ∷ ps)))

abbrev pub refuse : List String → Result (Unit {0})
refuse [] = ok tt
refuse (r ∷ rs) = err (unsupported (join_problems (r ∷ rs)))

-- normalize_sql, whose None make_binding turns into a ValueError
abbrev pub key_of : Option String → Result String
key_of none = err (other "template_sql is not parseable")
key_of (some key) = ok key

-- make_binding, with the arguments that register_manifest gives it
unfoldable pub make_binding :
    PythonOps → SqlOps → Catalog → EngineManifest → ℕ → QueryTemplate → Result EngineBinding
unfolding unsupported_output_reasons
make_binding py sql live m engine q = do
  normalized ← key_of (sql.normalize q.sql_template)
  output_schema ← live.describe_output q.sql_template q.placeholders
  _ ← refuse (unsupported_output_reasons py output_schema)
  fingerprint ← live.schema_fingerprint (live.tables_in q.sql_template)
  ok (record {
    template_id = concat m.engine_id (concat "::" q.query_id);
    normalized_sql = normalized;
    query_id = q.query_id;
    engine_id = m.engine_id;
    placeholders = q.placeholders;
    output_schema = output_schema;
    tables = live.tables_in q.sql_template;
    schema_fingerprint = fingerprint;
    scale_factor = m.scale_factor;
    storage_mode = m.storage_mode;
    engine = some engine;
    template_sql = some q.sql_template;
  })

-- _norm_type: upper case, without white space
unfoldable pub norm_type : PythonOps → String → List Char
norm_type py t = without_space (chars (py.upper t))

-- live == want, of check_compatibility
unfoldable pub same_columns : PythonOps → List (String × String) → List ColumnSpec → Bool
unfolding norm_type
same_columns py [] [] = true
same_columns py ((name, type) ∷ rows) (c ∷ cs) =
    str_eq (py.lower name) (py.lower c.name)
    && str_eq (text_of (norm_type py type)) (text_of (norm_type py c.type))
    && same_columns py rows cs
same_columns py _ _ = false

-- What check_compatibility says of one table.
unfoldable pub table_problem : PythonOps → Catalog → String × List ColumnSpec → Option String
table_problem py live (table, expected) = elim (live.columns (py.lower table)) [
  | err e ↦ some (concat table (concat ": schema introspection failed (" (concat (message e) ")")))
  | ok [] ↦ some (concat table ": missing from the database")
  | ok (row ∷ rows) ↦
      if same_columns py (row ∷ rows) expected
      then none
      else some (concat table ": schema differs from engine build")
]

unfoldable pub problems_of : PythonOps → Catalog → Dict (List ColumnSpec) → List String
unfolding table_problem
problems_of py live [] = []
problems_of py live (table ∷ tables) = elim (table_problem py live table) [
  | none ↦ problems_of py live tables
  | some problem ↦ problem ∷ problems_of py live tables
]

unfoldable pub check_compatibility : PythonOps → Catalog → EngineManifest → List String
unfolding problems_of
check_compatibility py live m = problems_of py live m.expected_tables

abbrev pub keep : EngineBinding → Result (List EngineBinding) → Result (List EngineBinding)
keep b (ok bs) = ok (b ∷ bs)
keep b (err e) = err e

-- The loop of register_manifest. What is registered before a query is refused stays.
unfoldable pub register_queries :
    PythonOps
    → SqlOps
    → Catalog
    → EngineManifest
    → ℕ
    → List QueryTemplate
    → TemplateRegistry
    → Result (List EngineBinding) × TemplateRegistry
register_queries py sql live m engine [] r = (ok [], r)
register_queries py sql live m engine (q ∷ qs) r = elim (make_binding py sql live m engine q) [
  | err e ↦ (err e, r)
  | ok b ↦
      let rest = register_queries py sql live m engine qs (register_engine py b r) in
      (keep b rest.0, rest.1)
]

-- register_manifest, with strict=True
unfoldable pub register_manifest :
    PythonOps
    → SqlOps
    → Catalog
    → EngineManifest
    → ℕ
    → TemplateRegistry
    → Result (List EngineBinding) × TemplateRegistry
unfolding check_compatibility
register_manifest py sql live m engine r = elim (check_compatibility py live m) [
  | [] ↦ register_queries py sql live m engine m.queries r
  | problem ∷ problems ↦ (
    err (synno (concat "engine incompatible with database: " (join_problems (problem ∷ problems)))),
    r,
  )
]
