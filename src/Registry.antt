-- ===== src/Registry.antt =====
-- router/registry.py: what the router may serve. Each method holds the lock from beginning to end,
-- so it is one step on the registry. Log lines are left out. A set of tables is a list of names.
pub mod Matching
pub mod Dirtiness
use synno_db.Base.{
  ℕ, String, Bool, true, false, not, ◌&&◌, Option, none, some, List, [], ◌∷◌, length, map, any,
  if◌then◌else◌, is_some,
}
use synno_db.Base.Dict.{Dict, StrSet, get, put, remove, contains, add, discard}
use synno_db.Base.Int.{ℤ}
use synno_db.Python.{Float, PythonOps}

pub record ColumnSpec : Type 0 where
  pub name : String
  pub type : String

pub record PlaceholderSpec : Type 0 where
  pub name : String
  pub type : String
  pub prefix : String
  pub suffix : String
  pub group : ℤ

-- `engine` is the handle of a live worker.
pub record EngineBinding : Type 0 where
  pub template_id : String
  pub normalized_sql : String
  pub query_id : String
  pub engine_id : String
  pub placeholders : List PlaceholderSpec
  pub output_schema : List ColumnSpec
  pub tables : StrSet
  pub schema_fingerprint : String
  pub scale_factor : Option Float
  pub storage_mode : String
  pub engine : Option ℕ
  pub template_sql : Option String

abbrev pub runnable : EngineBinding → Bool
runnable b = is_some b.engine

pub record TemplateRegistry : Type 0 where
  pub by_norm : Dict EngineBinding
  pub dirty_tables : StrSet
  pub quarantined : StrSet

abbrev pub empty_registry : TemplateRegistry
empty_registry = record { by_norm = []; dirty_tables = []; quarantined = [] }

unfoldable pub register : EngineBinding → TemplateRegistry → TemplateRegistry
register b r = record r { by_norm = put r.by_norm b.normalized_sql b }

unfoldable pub unregister : String → TemplateRegistry → TemplateRegistry
unregister normalized_sql r = record r { by_norm = remove r.by_norm normalized_sql }

-- len(registry)
unfoldable pub size : TemplateRegistry → ℕ
size r = length r.by_norm

unfoldable pub bindings : TemplateRegistry → List EngineBinding
bindings r = map (λ e. e.1) r.by_norm

-- `match` is the registry's method of that name
unfoldable pub match : TemplateRegistry → String → Option EngineBinding
match r normalized_sql = elim (get r.by_norm normalized_sql) [
  | none ↦ none
  | some b ↦ if contains r.quarantined b.template_id then none else some b
]

unfoldable pub quarantined_binding : TemplateRegistry → String → Option EngineBinding
quarantined_binding r normalized_sql = elim (get r.by_norm normalized_sql) [
  | none ↦ none
  | some b ↦ if contains r.quarantined b.template_id then some b else none
]

-- s.update(t.lower() for t in tables)
unfoldable pub add_lower : PythonOps → List String → StrSet → StrSet
add_lower py [] s = s
add_lower py (t ∷ ts) s = add_lower py ts (add s (py.lower t))

unfoldable pub discard_lower : PythonOps → List String → StrSet → StrSet
discard_lower py [] s = s
discard_lower py (t ∷ ts) s = discard_lower py ts (discard s (py.lower t))

unfoldable pub mark_tables_dirty : PythonOps → List String → TemplateRegistry → TemplateRegistry
mark_tables_dirty py tables r = record r { dirty_tables = add_lower py tables r.dirty_tables }

unfoldable pub clear_dirty : PythonOps → Option (List String) → TemplateRegistry → TemplateRegistry
clear_dirty py none r = record r { dirty_tables = [] }
clear_dirty py (some tables) r = record r { dirty_tables = discard_lower py tables r.dirty_tables }

unfoldable pub is_dirty : PythonOps → TemplateRegistry → EngineBinding → Bool
is_dirty py r b = any (λ t. contains r.dirty_tables (py.lower t)) b.tables

unfoldable pub quarantine : String → TemplateRegistry → TemplateRegistry
quarantine template_id r = record r { quarantined = add r.quarantined template_id }

unfoldable pub is_quarantined : TemplateRegistry → String → Bool
is_quarantined r template_id = contains r.quarantined template_id

unfoldable pub reset_quarantine : Option String → TemplateRegistry → TemplateRegistry
reset_quarantine none r = record r { quarantined = [] }
reset_quarantine (some template_id) r = record r { quarantined = discard r.quarantined template_id }

-- router/registration.py, `register_engine`, once the binding is made; `register_manifest` of
-- router/manifest.py does the same for each of its queries.
unfoldable pub register_engine : PythonOps → EngineBinding → TemplateRegistry → TemplateRegistry
unfolding register clear_dirty
register_engine py b r = clear_dirty py (some b.tables) (register b r)

unfoldable pub register_all : PythonOps → List EngineBinding → TemplateRegistry → TemplateRegistry
unfolding register_engine
register_all py [] r = r
register_all py (b ∷ bs) r = register_all py bs (register_engine py b r)
