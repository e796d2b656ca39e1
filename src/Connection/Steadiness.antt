-- ===== src/Connection/Steadiness.antt =====
-- duckdb_compat/connection.py: a statement leaves the count of the live handles.
use synno_db.Base.{String, ◌≡◌, refl, ◌∙◌, Option, none, some, arith}
use synno_db.Python.{PythonOps}
use synno_db.Python.Faults.{Result, ok, err}
use synno_db.Bind.{SqlOps}
use synno_db.Router.Guards.{Params}
use synno_db.Router.State.{QueryRouter}
use synno_db.Router.Route.{Answer, decided, failed, route}
use synno_db.Connection.Handles.{Handle, Site, Moment, maybe_discover, discover_now}
use synno_db.Connection.Statements.{
  After, refuse_write, after_duckdb, run_duckdb, follow, route_and_follow, execute_with, after_many,
  run_many, executemany_with,
}

-- A statement neither opens nor closes a handle.
abbrev pub Steady : Handle → Site → After → Type 0
Steady h s out = (out.1.is_open ≡ h.is_open) × (out.2.refcount ≡ s.refcount)

module _ (py : PythonOps) (sql : SqlOps) (m : Moment) (query : String) where
  run_duckdb-Steady : (h : Handle) (s : Site) → Steady h s (run_duckdb m query h s)
  unfolding run_duckdb after_duckdb
  run_duckdb-Steady h s = ground arith

  run_many-Steady : (h : Handle) (s : Site) → Steady h s (run_many m query h s)
  unfolding run_many after_many
  run_many-Steady h s = ground arith

  follow-Steady : (a : Answer) (h : Handle) (s : Site) → Steady h s (follow m query a h s)
  unfolding follow
  follow-Steady (failed e) h s = (refl, refl)
  follow-Steady (decided d) h s = ground (arith, run_duckdb-Steady h s)

  maybe_discover-Steady :
      (r : QueryRouter) (h : Handle) (s : Site)
      → ((maybe_discover py sql m r h s).1.is_open ≡ h.is_open)
        × ((maybe_discover py sql m r h s).2.refcount ≡ s.refcount)
  unfolding maybe_discover discover_now
  maybe_discover-Steady r h s = ground arith

  scanned-Steady :
      (params : Option Params) (h : Handle) (s : Site) (out : Result QueryRouter × Handle × Site)
      → out.1.is_open ≡ h.is_open
      → out.2.refcount ≡ s.refcount
      → Steady h s (route_and_follow py sql m query params out)
  unfolding route_and_follow
  scanned-Steady params h s (err f, h', s') e g = (e, g)
  scanned-Steady params h s (ok r, h', s') e g =
      let steady = follow-Steady (route py sql m.world query params r).0 h' _ in
      (steady.0 ∙ e, steady.1 ∙ g)

  pub execute_with-Steady :
      (params : Option Params) (o : Option QueryRouter) (h : Handle) (s : Site)
      → Steady h s (execute_with py sql m query params o h s)
  unfolding execute_with refuse_write
  execute_with-Steady params none h s = run_duckdb-Steady h s
  execute_with-Steady params (some r) h s = ground (
    arith,
    run_duckdb-Steady h s,
    scanned-Steady params h s (maybe_discover py sql m r h s) (maybe_discover-Steady r h s).0
        (maybe_discover-Steady r h s).1,
  )

  pub executemany_with-Steady :
      (o : Option QueryRouter) (h : Handle) (s : Site)
      → Steady h s (executemany_with py sql m query o h s)
  unfolding executemany_with refuse_write
  executemany_with-Steady none h s = run_many-Steady h s
  executemany_with-Steady (some r) h s = ground (arith, run_many-Steady h s)
