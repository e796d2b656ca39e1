-- ===== src/Connection/Statements.antt =====
-- duckdb_compat/connection.py: execute and executemany, with the block of writes.
use Prim.Native.String.{◌++◌ as concat}
use synno_db.Base.{
  String, Bool, not, ◌&&◌, Option, none, some, ◌∷◌, get_or_else, str_eq, if◌then◌else◌,
}
use synno_db.Python.{PythonOps}
use synno_db.Python.Faults.{message, Result, ok, err}
use synno_db.Policy.{routing_active}
use synno_db.Bind.{SqlOps}
use synno_db.Statement.{is_read_only_query, leading_keyword}
use synno_db.Router.Trace.{RouteTrace}
use synno_db.Router.Guards.{Params}
use synno_db.Router.State.{QueryRouter, note_blocked_write, by_duckdb as served_by_duckdb}
use synno_db.Router.Route.{Answer, decided, failed, route}
use synno_db.Connection.Handles.{Timing, by_duckdb, by_engine, Handle, Site, Moment, maybe_discover}

-- A method returns the connection, or an exception leaves it.
pub data Reply : Type 0 where
  returned : Reply
  write_not_supported : String → Reply
  raised : String → Reply

abbrev pub After : Type 0
After = Reply × Handle × Site

-- (_leading_keyword(sql) or "").upper() or "this statement"
abbrev pub statement_name : PythonOps → String → String
statement_name py query =
    let word = py.upper (get_or_else (leading_keyword py query) "") in
    if str_eq word "" then "this statement" else word

-- write_not_supported_message of duckdb_compat/errors.py
abbrev pub write_not_supported_message : PythonOps → String → String
write_not_supported_message py query = concat "SynnoDB does not support writes yet (" (
    concat (statement_name py query)
      "). It currently accelerates read-only queries; writes and DDL are disabled. Run the statement on the underlying DuckDB connection via the escape hatch, e.g. con.duckdb.execute(sql), or re-enable passthrough with SYNNODB_BLOCK_WRITES=off (or RouterPolicy(block_writes=False)).")

abbrev pub is_blocked : PythonOps → SqlOps → QueryRouter → String → Bool
is_blocked py sql r query = r.policy.block_writes && not (is_read_only_query py sql query)

-- router.note_blocked_write(), and the raise
unfoldable pub refuse_write : PythonOps → String → QueryRouter → Handle → Site → After
refuse_write py query r h s = (
  write_not_supported (write_not_supported_message py query),
  h,
  record s { router = some (note_blocked_write r) },
)

-- how DuckDB ends the statement: an exception leaves the connection's current result alone
unfoldable pub after_duckdb : Moment → Option String → Handle → Site → After
after_duckdb m (some e) h s = (raised e, h, s)
after_duckdb m none h s =
    (returned, record h { current = none; last = some (by_duckdb (some m.elapsed_ms)) }, s)

-- _run_duckdb_timed
unfoldable pub run_duckdb : Moment → String → Handle → Site → After
unfolding after_duckdb
run_duckdb m query h s = after_duckdb m m.duckdb_error h (record s { handed = query ∷ s.handed })

-- _capture_routed
abbrev pub routed_timing : RouteTrace → Timing
routed_timing t =
    if served_by_duckdb t.served_by
    then by_duckdb t.duckdb_ms
    else by_engine t.bespoke_ms t.duckdb_ms t.template

-- what `execute` does with the router's answer
unfoldable pub follow : Moment → String → Answer → Handle → Site → After
unfolding run_duckdb
follow m query (failed e) h s = (raised e, h, s)
follow m query (decided d) h s = elim d.result [
  | none ↦ run_duckdb m query h s
  | some result ↦
      if d.routed
      then (returned, record h { current = some result; last = some (routed_timing d.trace) }, s)
      else run_duckdb m query h s
]

-- router.route(query, parameters, self), after the scan
unfoldable pub route_and_follow :
    PythonOps
    → SqlOps
    → Moment
    → String
    → Option Params
    → Result QueryRouter × Handle × Site
    → After
unfolding follow
route_and_follow py sql m query params (err e, h, s) = (raised (message e), h, s)
route_and_follow py sql m query params (ok r, h, s) =
    let (answer, r') = route py sql m.world query params r in
    follow m query answer h (record s { router = some r' })

-- execute, by the router that the connection has
unfoldable pub execute_with :
    PythonOps
    → SqlOps
    → Moment
    → String
    → Option Params
    → Option QueryRouter
    → Handle
    → Site
    → After
unfolding refuse_write run_duckdb route_and_follow maybe_discover
execute_with py sql m query params none h s = run_duckdb m query h s
execute_with py sql m query params (some r) h s =
    if is_blocked py sql r query
    then refuse_write py query r h s
    else if not (routing_active r.policy)
    then run_duckdb m query h s
    else route_and_follow py sql m query params (maybe_discover py sql m r h s)

-- execute
unfoldable pub execute :
    PythonOps → SqlOps → Moment → String → Option Params → Handle → Site → After
unfolding execute_with
execute py sql m query params h s = execute_with py sql m query params s.router h s

-- the end of executemany
unfoldable pub after_many : Option String → Handle → Site → After
after_many (some e) h s = (raised e, h, s)
after_many none h s = (returned, record h { current = none }, s)

unfoldable pub run_many : Moment → String → Handle → Site → After
unfolding after_many
run_many m query h s = after_many m.duckdb_error h (record s { handed = query ∷ s.handed })

-- executemany
unfoldable pub executemany_with :
    PythonOps → SqlOps → Moment → String → Option QueryRouter → Handle → Site → After
unfolding refuse_write run_many
executemany_with py sql m query none h s = run_many m query h s
executemany_with py sql m query (some r) h s =
    if is_blocked py sql r query then refuse_write py query r h s else run_many m query h s

unfoldable pub executemany : PythonOps → SqlOps → Moment → String → Handle → Site → After
unfolding executemany_with
executemany py sql m query h s = executemany_with py sql m query s.router h s
