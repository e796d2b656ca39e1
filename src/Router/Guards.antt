-- ===== src/Router/Guards.antt =====
-- router/guards.py: the guards, in the order of DEFAULT_GUARDS, and their evaluation up to the first
-- failure. What a guard asks of a worker or of the connection is in `World`: the answers that the
-- calls of this one statement get. A raised exception is `raised` with its text.
use Prim.Native.String.{◌++◌ as concat}
use synno_db.Base.{
  ℕ, zero, suc, String, Bool, true, false, Option, none, some, List, [], ◌∷◌, length, ◌==◌, str_eq,
  if◌then◌else◌,
}
use synno_db.Base.Dict.{StrSet}
use synno_db.Python.{Float, Cell, PyValue, PythonOps}
use synno_db.Compare.Cells.{Table}
use synno_db.Compare.Diff.Places.{Report}
use synno_db.Registry.{EngineBinding, TemplateRegistry, is_dirty}
use synno_db.Bind.{Args, SqlOps, binding_groups, decimal}
use synno_db.Router.Trace.{GuardResult}

pub data Outcome (A : Type 0) : Type 0 where
  returned : A → Outcome A
  raised : String → Outcome A

-- The values bound by the caller: a mapping, a list or tuple, or one bare value.
pub data Params : Type 0 where
  mapping : PyValue → Params
  sequence : List Cell → Params
  scalar : Cell → Params

-- A SynnoConnection, and DuckDB behind it.
pub record Conn : Type 0 where
  -- schema_fingerprint, if the connection has that method
  pub schema_fingerprint : Option (StrSet → Outcome String)
  -- DuckDBBackend(conn.duckdb).execute_arrow_timed
  pub execute_timed : String → Option Params → Outcome (Table × Float)

pub record World : Type 0 where
  -- the `health` method of a worker, if it has one
  pub health : ℕ → Option (Outcome Bool)
  -- engine.run(query_id, placeholders): the table, and the time measured by the engine
  pub run : ℕ → String → Args → Outcome (Table × Option Float)
  pub conn : Option Conn
  -- the elapsed time by perf_counter, and random.random()
  pub elapsed_ms : Float
  pub draw : Float
  -- str(EngineDivergedError(diffs, engine_id, query_id, total)) of errors.py
  pub describe : EngineBinding → Report → String

pub record GuardContext : Type 0 where
  pub sql : String
  pub binding : EngineBinding
  pub registry : TemplateRegistry
  pub parameters : Option Params

abbrev pub GuardOutcome : Type 0
GuardOutcome = Outcome (Bool × String)

abbrev pass : String → GuardOutcome
pass detail = returned (true, detail)

abbrev fail : String → GuardOutcome
fail detail = returned (false, detail)

abbrev healthy : Option (Outcome Bool) → GuardOutcome
healthy none = pass "engine ready"
healthy (some (returned true)) = pass "engine ready"
healthy (some (returned false)) = fail "engine unhealthy"
healthy (some (raised e)) = fail (concat "engine health check failed: " e)

unfoldable pub engine_ready_guard : World → GuardContext → GuardOutcome
engine_ready_guard w ctx = elim ctx.binding.engine [
  | none ↦ fail "no live engine worker bound"
  | some handle ↦ healthy (w.health handle)
]

unfoldable pub select_only_guard : SqlOps → GuardContext → GuardOutcome
select_only_guard sql ctx =
    if sql.is_select ctx.sql then pass "SELECT" else fail "not a plain SELECT"

unfoldable pub dirty_table_guard : PythonOps → GuardContext → GuardOutcome
dirty_table_guard py ctx =
    if is_dirty py ctx.registry ctx.binding
    then fail "a bound table was modified since ingest"
    else pass "tables clean"

abbrev same_fingerprint : EngineBinding → Outcome String → GuardOutcome
same_fingerprint b (raised e) = fail (concat "schema introspection failed: " e)
same_fingerprint b (returned current) =
    if str_eq current b.schema_fingerprint
    then pass "schema matches"
    else fail "schema or session context changed since engine build"

abbrev live_fingerprint : Option Conn → Option (StrSet → Outcome String)
live_fingerprint none = none
live_fingerprint (some c) = c.schema_fingerprint

unfoldable pub schema_match_guard : World → GuardContext → GuardOutcome
schema_match_guard w ctx = elim (live_fingerprint w.conn) [
  | none ↦ pass "schema check not enforced (no live fingerprint)"
  | some live ↦ same_fingerprint ctx.binding (live ctx.binding.tables)
]

abbrev pub text_ℕ : ℕ → String
text_ℕ n = decimal (suc n) n

abbrev arity_text : ℕ → ℕ → String
arity_text actual expected =
    concat "placeholder arity " (concat (text_ℕ actual) (concat " != expected " (text_ℕ expected)))

-- the part of placeholder_arity_guard behind the test of bound parameters
unfoldable pub inline_arity : SqlOps → GuardContext → ℕ → GuardOutcome
inline_arity sql ctx zero = elim ctx.binding.template_sql [
  | none ↦ fail "constant template with no template_sql to compare against"
  | some template ↦
      if sql.same_statement ctx.sql template
      then pass "constant template, exact statement match"
      else fail "constant template serves only its exact statement"
]
inline_arity sql ctx (suc n) =
    let actual = length (sql.extract_literals ctx.sql) in
    let by_literals : GuardOutcome =
      if actual == suc n
      then pass (concat (text_ℕ actual) " placeholders")
      else fail (arity_text actual (suc n)) in
    elim ctx.binding.template_sql [
      | none ↦ by_literals
      | some template ↦
          if sql.has_param_markers template then pass "structural bind" else by_literals
    ]

-- the test of bound parameters: `some` when it returns
unfoldable pub bound_arity : Option Params → ℕ → Option GuardOutcome
bound_arity none expected = none
bound_arity (some (mapping _)) expected =
    some (fail "named (dict) parameters bind by name, not position; not routable")
bound_arity (some (sequence vs)) expected =
    if length vs == expected
    then (if expected == 0 then none else some (pass (concat (text_ℕ (length vs)) " placeholders")))
    else some (fail (arity_text (length vs) expected))
bound_arity (some (scalar _)) expected =
    if 1 == expected then some (pass "1 placeholders") else some (fail (arity_text 1 expected))

unfoldable pub placeholder_arity_guard : SqlOps → GuardContext → GuardOutcome
placeholder_arity_guard sql ctx =
    let expected = length (binding_groups ctx.binding.placeholders) in
    elim (bound_arity ctx.parameters expected) [ some o ↦ o | none ↦ inline_arity sql ctx expected ]

-- guard.__name__ and the guard
abbrev pub Guard : Type 0
Guard = String × (GuardContext → GuardOutcome)

abbrev pub default_guards : PythonOps → SqlOps → World → List Guard
default_guards py sql w =
    ("engine_ready_guard", engine_ready_guard w)
    ∷ ("select_only_guard", select_only_guard sql)
    ∷ ("dirty_table_guard", dirty_table_guard py)
    ∷ ("schema_match_guard", schema_match_guard w)
    ∷ ("placeholder_arity_guard", placeholder_arity_guard sql)
    ∷ []

-- evaluate: whether all passed, and the results up to the first failure
unfoldable pub evaluate : GuardContext → List Guard → Bool × List GuardResult
evaluate ctx [] = (true, [])
evaluate ctx ((name, guard) ∷ guards) =
    let rest = evaluate ctx guards in
    elim (guard ctx) [
      | raised e ↦
          (false, record { name = name; ok = false; detail = concat "guard raised: " e } ∷ [])
      | returned (true, detail) ↦
          (rest.0, record { name = name; ok = true; detail = detail } ∷ rest.1)
      | returned (false, detail) ↦ (false, record { name = name; ok = false; detail = detail } ∷ [])
    ]
