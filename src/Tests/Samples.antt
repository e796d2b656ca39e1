-- ===== src/Tests/Samples.antt =====
-- A router with one template, and a world in which its engine answers as DuckDB does.
use synno_db.Base.{ℕ, String, true, false, Option, none, some, [], ◌∷◌, str_eq}
use synno_db.Base.Int.{pos, negsuc}
use synno_db.Python.{Kind, Cell, float, exact}
use synno_db.Policy.{RouterPolicy, default_policy}
use synno_db.Compare.Cells.{Table}
use synno_db.Registry.{PlaceholderSpec, EngineBinding, TemplateRegistry, empty_registry}
use synno_db.Bind.{SqlOps}
use synno_db.Router.Guards.{Params, sequence, Conn, World, returned, raised}
use synno_db.Router.State.{QueryRouter, new_router}
use synno_db.Router.Trace.{new_trace}
use synno_db.Router.Route.{RouteDecision, Answer, decided, failed}
use synno_db.Router.Sessions.{Call}

abbrev pub double : ℕ → Cell
double n = float (record { bits = n })

abbrev pub word : String → Cell
word s = exact (record { kind = Kind.text; repr = s })

abbrev pub plain_spec : PlaceholderSpec
plain_spec = record { name = "p"; type = "VARCHAR"; prefix = ""; suffix = ""; group = negsuc 0 }

abbrev pub orders : EngineBinding
orders = record {
  template_id = "t1";
  normalized_sql = "select total from orders where name = ?";
  query_id = "1";
  engine_id = "e1";
  placeholders = plain_spec ∷ [];
  output_schema = record { name = "total"; type = "DOUBLE" } ∷ [];
  tables = "orders" ∷ [];
  schema_fingerprint = "f";
  scale_factor = none;
  storage_mode = "memory";
  engine = some 0;
  template_sql = none;
}

abbrev pub one_template : TemplateRegistry
one_template = record empty_registry { by_norm = (orders.normalized_sql, orders) ∷ [] }

abbrev pub query : String
query = "select total from orders where name = ?"

abbrev pub some_params : Option Params
some_params = some (sequence (word "ann" ∷ []))

-- A parse that reads nothing of the text but the text itself.
abbrev pub sample_sql : SqlOps
sample_sql = record {
  normalize = λ q. some q;
  is_select = λ q. true;
  all_statements_are_select = λ q. true;
  same_statement = λ p q. str_eq p q;
  has_param_markers = λ q. false;
  extract_literals = λ q. word "ann" ∷ [];
  constant_in_arities = λ q. none;
  unify_and_bind = λ t q names. none;
  has_order_by = λ q. false;
  order_by_key_indices = λ q names. none;
}

abbrev pub table_of : ℕ → Table
table_of n = record { column_names = "total" ∷ []; columns = (double n ∷ []) ∷ []; num_rows = 1 }

abbrev pub duckdb_conn : Conn
duckdb_conn = record {
  schema_fingerprint = none;
  execute_timed = λ q p. returned (table_of 40, record { bits = 7 });
}

-- The engine returns the total n.
abbrev pub answering : ℕ → World
answering n = record {
  health = λ handle. none;
  run = λ handle id args. returned (table_of n, none);
  conn = some duckdb_conn;
  elapsed_ms = record { bits = 3 };
  draw = record { bits = 50 };
  describe = λ b report. "the results differ";
}

-- The engine raises.
abbrev pub failing : World
failing = record (answering 40) { run = λ handle id args. raised "worker died" }

abbrev pub checking : RouterPolicy
checking = record default_policy { cross_check_rate = record { bits = 10 }; verify_first_n = pos 3 }

abbrev pub router : QueryRouter
router = new_router checking one_template

abbrev pub call : World → Call
call w = record { world = w; query = query; params = some_params }

-- The decision of an answer; an error has an empty one.
abbrev pub decision_of : Answer → RouteDecision
decision_of (decided d) = d
decision_of (failed e) = record {
  routed = false;
  result = none;
  trace = new_trace "";
  stale_tables = [];
}
