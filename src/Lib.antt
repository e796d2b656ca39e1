-- ===== src/Lib.antt =====
-- SynnoDB: the connection and the router that serve SQL queries from generated engines and check them
-- against DuckDB, and the editor with which an agent writes those engines.
--
-- A statement comes to `QueryRouter.route`. The policy says whether routing is on; the statement is
-- normalised to a key; the registry matches the key with the binding of a template; guards are
-- evaluated; the values of the statement are bound to the template's placeholders; the engine runs;
-- and its result may be compared with DuckDB's own. Any doubt leads back to DuckDB. Around the router
-- stands a connection: it refuses writes, scans a directory for newly published engines, whose queries
-- are registered from a manifest, and hands to DuckDB what the router does not answer. Paths are given
-- from the repository's root; where no directory is named, the file is in src/synnodb/router/.
--
--   Policy      policy.py: RouterMode, RouterPolicy, with_, routing_active, from_env
--   Registry    registry.py: TemplateRegistry; register_engine of registration.py
--   Bind        normalize.py: binding_groups, split_literal, merge_split, bind_template. Split is
--               the regular expression of split_literal
--   Bind.Scan   normalize.py: scan_string_literals, _name_anonymous_placeholders
--   Statement   normalize.py: statement_kind, is_read_only_query
--   Manifest    manifest.py: QueryTemplate and EngineManifest, to_dict and from_dict
--   Compare     adapt.py. Cells: cells, rows, float columns. Matching: _match_float_vecs and its
--               subset form. Groups: _multiset_equal, _multiset_contained. Tables: results_equal.
--               Widen: candidate_superset. Diff: results_diff
--   Router      observe.py (Trace), guards.py (Guards) and router.py: State has the counters and
--               the breaker, Binding _bind_placeholders, Route the method route with one function
--               for each stage, Why the method why
--   Registration  registration.py: make_binding and the types that an engine may not emit;
--               manifest.py: check_compatibility, register_manifest
--   Discovery   src/synnodb/duckdb_compat/discovery.py. Planes: the choice and the construction of a
--               worker (_bind_engine). Scans: discover_engines and _promote_to_shm
--   Connection  src/synnodb/duckdb_compat/connection.py. Handles: the state and _maybe_discover.
--               Statements: execute, executemany. Lifecycle: cursor, close, _close_engines
--   Engine      process_engine.py and shm_transport.py. Process: a worker that answers batches of
--               queries with result files. HotLoad: a worker whose data lies in shared memory
--   Editor      src/synnodb/tools/workspace_editor.py. Diffs: how a diff is cleaned and repaired.
--               Reading: how a file is shown. Edits, Replacing, Operations: the edits. Logging:
--               tool_call_error_logger.py, the log of failed calls. Cache: the editor's state; Replay: the cache of edits, reads and rejected calls. Runs: calls one after the other
--   Base        tests, lists, dictionaries, integers; Python: values and the interpreter's operations
--   Tests       runs at concrete inputs, and each theorem applied to one
--
-- A method that changes the router takes the state and returns it (`Step` is an answer with the state
-- after it). `failed` is an exception that leaves `route`. Each method of the registry holds its lock
-- from beginning to end, so it is one step; sequences of statements are lists of calls (Sessions).
--
-- Parameters stand for what is not in the repository: `PythonOps` for the interpreter's operations
-- on values (==, float(), math.isclose, str(), lower()), with `PythonLaws` (== is symmetric and
-- transitive) where rows are grouped by it; `SqlOps` for what normalize.py computes from sqlglot's
-- parse trees; `World` and `Conn` for the answers of workers, of the connection, of the clock and of
-- random(); `Catalog` and `Package` for what the live connection and a published directory answer,
-- `Moment` for what one call on a connection meets; `Batch`, `Host` and `Staging` for what a
-- subprocess, the processes of the machine and one ingest answer; `Workspace` for the file system's paths, for
-- apply_diff of the agents package and for unicodedata, and `Snapshots` for git and the hashes of
-- cache keys. Where a replay restores commits, `AreFaithful` says that a commit and the restoring of
-- one in a clean workspace leave the workspace clean, and that clean workspaces of one commit hold the
-- same files, but for those that ignore patterns keep out of the commits. A double is its bit pattern,
-- and no law of arithmetic on doubles is used.
--
-- Two logs are not in the source: `handed` has the statements that execute and executemany themselves
-- hand to DuckDB, `asked` those that the router's cross-check runs there. The queries of the
-- catalog, by guards, registration and scans, are in neither, nor the views of a mounted snapshot.
--
-- Fuel: the search for an augmenting path (Compare.Matching.augment) descends at most once for each
-- row, since every call marks a column; the widening of candidate_superset doubles its limit up to a
-- factor of 1024, so eleven rounds are enough and twelve are given.
--
-- Not modelled: log lines, the text of results_diff's exception, statistics, the
-- bytes in shared memory, and what a connection hands on to duckdb or pyarrow as it is. The describe_output and
-- schema_fingerprint of registration.py and connection.py run SQL on DuckDB and are fields of Catalog;
-- git_snapshotter.py runs git and is a field of Snapshots. Of what builds engines only the workspace
-- editor is modelled: language models, prompts, compilers, workloads and dashboards are not.
pub mod Base
pub mod Python
pub mod Policy
pub mod Manifest
pub mod Compare
pub mod Registry
pub mod Registration
pub mod Discovery
pub mod Bind
pub mod Statement
pub mod Router
pub mod Connection
pub mod Editor
pub mod Engine
pub mod Tests
