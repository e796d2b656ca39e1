-- ===== src/Manifest.antt =====
-- router/manifest.py: the serialised form of an engine manifest. A dictionary read from JSON is a
-- record with one field for each key that the code asks for, `none` where the key is missing; none of
-- a function is a KeyError, TypeError or ValueError.
pub mod RoundTrip
use synno_db.Base.{
  ℕ, String, Bool, true, false, not, ◌&&◌, ◌||◌, Option, none, some, List, [], ◌∷◌, map, any,
  str_eq, get_or_else, if◌then◌else◌, ◌>>=◌,
}
use synno_db.Base.Dict.{Dict}
use synno_db.Base.Int.{ℤ, pos, negsuc, eq_ℤ}
use synno_db.Python.{Float, Kind, Cell, exact, PythonOps}
use synno_db.Registry.{ColumnSpec, PlaceholderSpec}

pub record QueryTemplate : Type 0 where
  pub query_id : String
  pub sql_template : String
  pub placeholders : List PlaceholderSpec

pub record EngineManifest : Type 0 where
  pub engine_id : String
  pub queries : List QueryTemplate
  pub storage_mode : String
  pub scale_factor : Option Float
  pub source_run_id : Option String
  pub expected_tables : Dict (List ColumnSpec)
  pub parquet_dir : Option String
  pub shm_capable : Bool
  pub source_db : Option String
  pub threads : Option ℤ

-- The row of a placeholder, with the arguments that PlaceholderSpec(*row) gets.
pub data SpecRow : Type 0 where
  two : String → String → SpecRow
  three : String → String → String → SpecRow
  four : String → String → String → String → SpecRow
  five : String → String → String → String → ℤ → SpecRow
  other_length : ℕ → SpecRow

pub record QueryDict : Type 0 where
  pub query_id : Option Cell
  pub sql_template : Option String
  pub placeholders : Option (List SpecRow)

-- A key that may hold None is an option of an option.
pub record ManifestDict : Type 0 where
  pub schema_version : Option ℤ
  pub engine_id : Option String
  pub storage_mode : Option String
  pub scale_factor : Option (Option Float)
  pub source_run_id : Option (Option String)
  pub parquet_dir : Option (Option String)
  pub shm_capable : Option Bool
  pub source_db : Option (Option String)
  pub threads : Option (Option ℤ)
  pub expected_tables : Option (Dict (List (String × String)))
  pub queries : Option (List QueryDict)

abbrev pub schema_version : ℤ
schema_version = pos 5

abbrev pub supported_versions : List ℤ
supported_versions = pos 1 ∷ pos 2 ∷ pos 3 ∷ pos 4 ∷ pos 5 ∷ []

-- p.prefix or p.suffix or p.group != -1
abbrev pub is_long : PlaceholderSpec → Bool
is_long p = not (str_eq p.prefix "") || not (str_eq p.suffix "") || not (eq_ℤ p.group (negsuc 0))

-- row, of QueryTemplate.to_dict
unfoldable pub spec_row : PlaceholderSpec → SpecRow
spec_row p = if is_long p then five p.name p.type p.prefix p.suffix p.group else two p.name p.type

abbrev spec : String → String → String → String → ℤ → Option PlaceholderSpec
spec name type prefix suffix group =
    some (record { name = name; type = type; prefix = prefix; suffix = suffix; group = group })

-- PlaceholderSpec(*row)
unfoldable pub row_spec : SpecRow → Option PlaceholderSpec
row_spec (two name type) = spec name type "" "" (negsuc 0)
row_spec (three name type prefix) = spec name type prefix "" (negsuc 0)
row_spec (four name type prefix suffix) = spec name type prefix suffix (negsuc 0)
row_spec (five name type prefix suffix group) = spec name type prefix suffix group
row_spec (other_length n) = none

-- tuple(f(x) for x in xs), where f may raise
unfoldable pub map_all {ℓ κ} : {A : Type ℓ} {B : Type κ} → (A → Option B) → List A → Option (List B)
map_all f [] = some []
map_all f (x ∷ xs) =
    let rest = map_all f xs in
    elim (f x) [ none ↦ none | some y ↦ elim rest [ none ↦ none | some ys ↦ some (y ∷ ys) ] ]

-- QueryTemplate.to_dict
unfoldable pub query_to_dict : QueryTemplate → QueryDict
unfolding spec_row
query_to_dict q = record {
  query_id = some (exact (record { kind = Kind.text; repr = q.query_id }));
  sql_template = some q.sql_template;
  placeholders = some (map spec_row q.placeholders);
}

-- QueryTemplate.from_dict
unfoldable pub query_from_dict : PythonOps → QueryDict → Option QueryTemplate
unfolding map_all row_spec
query_from_dict py d = do
  query_id ← d.query_id
  sql_template ← d.sql_template
  placeholders ← map_all row_spec (get_or_else d.placeholders [])
  some (record {
    query_id = py.show query_id;
    sql_template = sql_template;
    placeholders = placeholders;
  })

-- table: [[c.name, c.type] for c in cols], and back
abbrev pub table_row : String × List ColumnSpec → String × List (String × String)
table_row e = (e.0, map (λ (c : ColumnSpec). (c.name, c.type)) e.1)

abbrev pub column : String × String → ColumnSpec
column c = record { name = c.0; type = c.1 }

abbrev pub row_table : String × List (String × String) → String × List ColumnSpec
row_table e = (e.0, map column e.1)

-- EngineManifest.to_dict
unfoldable pub to_dict : EngineManifest → ManifestDict
unfolding query_to_dict
to_dict m = record {
  schema_version = some schema_version;
  engine_id = some m.engine_id;
  storage_mode = some m.storage_mode;
  scale_factor = some m.scale_factor;
  source_run_id = some m.source_run_id;
  parquet_dir = some m.parquet_dir;
  shm_capable = some m.shm_capable;
  source_db = some m.source_db;
  threads = some m.threads;
  expected_tables = some (map table_row m.expected_tables);
  queries = some (map query_to_dict m.queries);
}

abbrev pub is_supported : ManifestDict → Bool
is_supported d = any (eq_ℤ (get_or_else d.schema_version (pos 1))) supported_versions

-- EngineManifest.from_dict
unfoldable pub from_dict : PythonOps → ManifestDict → Option EngineManifest
unfolding query_from_dict
from_dict py d =
    if is_supported d
    then (do
      engine_id ← d.engine_id
      queries ← map_all (query_from_dict py) (get_or_else d.queries [])
      some (record {
        engine_id = engine_id;
        queries = queries;
        storage_mode = get_or_else d.storage_mode "flat";
        scale_factor = get_or_else d.scale_factor none;
        source_run_id = get_or_else d.source_run_id none;
        parquet_dir = get_or_else d.parquet_dir none;
        shm_capable = get_or_else d.shm_capable false;
        source_db = get_or_else d.source_db none;
        threads = get_or_else d.threads none;
        expected_tables = map row_table (get_or_else d.expected_tables []);
      }))
    else none
