-- ===== src/Connection/Handles.antt =====
-- duckdb_compat/connection.py: the state of the connections that share one router, and the scan for
-- newly published engines before a statement.
use synno_db.Base.{
  suc, zero, String, Bool, true, false, not, Option, none, some, List, [], if◌then◌else◌,
}
use synno_db.Base.Dict.{StrSet}
use synno_db.Base.Int.{ℤ, pos, negsuc}
use synno_db.Python.{Float, PythonOps}
use synno_db.Python.Faults.{Result, ok, err}
use synno_db.Bind.{SqlOps}
use synno_db.Discovery.Planes.{Package, Worker}
use synno_db.Discovery.Scans.{Scan, discover_engines}
use synno_db.Router.Guards.{World}
use synno_db.Router.State.{QueryRouter}
use synno_db.Router.Route.{SynnoResult}

-- `_last`: who served the last statement, with the times for the footer
pub data Timing : Type 0 where
  by_duckdb : Option Float → Timing
  by_engine : Option Float → Option Float → Option String → Timing

-- One SynnoConnection, a parent or a cursor. `is_open` says that its owner has not closed it.
pub record Handle : Type 0 where
  pub owns_inner : Bool
  pub current : Option SynnoResult
  pub last : Option Timing
  pub has_engines_dir : Bool
  pub mount : Bool
  pub registered : StrSet
  pub last_discover : Option Float
  pub is_open : Bool

-- What connections share: the router, the workers of its engines, the count of the live handles,
-- and the statements that `execute` and `executemany` themselves handed to DuckDB, the last one first;
-- those of the cross-check stand in the router, and the views of a mounted snapshot in neither.
pub record Site : Type 0 where
  pub router : Option QueryRouter
  pub workers : List Worker
  pub refcount : ℤ
  pub handed : List String

-- The statements that the router's cross-checks ran on DuckDB, the last one first.
abbrev pub asked_of : Site → List String
asked_of s = elim s.router [ none ↦ [] | some r ↦ r.asked ]

-- What one call meets: the world of the router, the packages in the engines directory, the clock,
-- and how DuckDB ends the statement.
pub record Moment : Type 0 where
  pub world : World
  pub found : Option (List Package)
  pub now : Float
  -- now - last < _discover_interval
  pub is_recent : Float → Bool
  pub elapsed_ms : Float
  pub duckdb_error : Option String

abbrev pub increment : ℤ → ℤ
increment (pos n) = pos (suc n)
increment (negsuc zero) = pos 0
increment (negsuc (suc n)) = negsuc n

abbrev pub decrement : ℤ → ℤ
decrement (pos zero) = negsuc 0
decrement (pos (suc n)) = pos n
decrement (negsuc n) = negsuc (suc n)

abbrev pub is_positive : ℤ → Bool
is_positive (pos (suc n)) = true
is_positive _ = false

-- _discover_now
unfoldable pub discover_now :
    PythonOps → SqlOps → Moment → QueryRouter → Handle → Site → Result QueryRouter × Handle × Site
discover_now py sql m r h s =
    let before : Scan = record {
      registry = r.registry;
      registered = h.registered;
      workers = s.workers;
    } in
    let (done, after) = discover_engines py sql h.mount m.found before in
    let r' : QueryRouter = record r { registry = after.registry } in
    let s' : Site = record s { router = some r'; workers = after.workers } in
    elim done [
      | err e ↦ (err e, h, s')
      | ok u ↦ (ok r', record h { registered = after.registered }, s')
    ]

abbrev pub is_throttled : Moment → Handle → Bool
is_throttled m h = elim h.last_discover [ none ↦ false | some last ↦ m.is_recent last ]

-- _maybe_discover
unfoldable pub maybe_discover :
    PythonOps → SqlOps → Moment → QueryRouter → Handle → Site → Result QueryRouter × Handle × Site
unfolding discover_now
maybe_discover py sql m r h s =
    if not h.has_engines_dir
    then (ok r, h, s)
    else if is_throttled m h
    then (ok r, h, s)
    else discover_now py sql m r (record h { last_discover = some m.now }) s
