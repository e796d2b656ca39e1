-- ===== src/Connection/Lifecycle.antt =====
-- duckdb_compat/connection.py: cursors, close, and the release of the engines with the last handle. A
-- fleet is all connections that were ever opened on one router; a handle is its place in the list.
use synno_db.Base.{
  ℕ, String, true, false, Option, none, some, List, [], ◌∷◌, ◌++◌, get_elem?, set, if◌then◌else◌,
}
use synno_db.Python.{PythonOps}
use synno_db.Bind.{SqlOps}
use synno_db.Router.Guards.{Params}
use synno_db.Connection.Statements.{After, execute, executemany}
use synno_db.Registry.{EngineBinding, bindings}
use synno_db.Discovery.Planes.{Worker, close_worker}
use synno_db.Connection.Handles.{Handle, Site, Moment, increment, decrement, is_positive}

pub record Fleet : Type 0 where
  pub site : Site
  pub handles : List Handle

-- the loop of _close_engines; closing an engine a second time changes nothing, so the set of the
-- engines seen is left out
unfoldable pub close_bound : List EngineBinding → List Worker → List Worker
unfolding close_worker
close_bound [] ws = ws
close_bound (b ∷ bs) ws = elim b.engine [
  | none ↦ close_bound bs ws
  | some handle ↦ close_bound bs (close_worker handle ws)
]

-- _close_engines
unfoldable pub close_engines : Site → Site
unfolding close_bound bindings
close_engines s = elim s.router [
  | none ↦ s
  | some r ↦ record s { workers = close_bound (bindings r.registry) s.workers }
]

-- the shared part of `close`
unfoldable pub release : Site → Site
unfolding close_engines
release s =
    let s' : Site = record s { refcount = decrement s.refcount } in
    if is_positive s'.refcount then s' else close_engines s'

-- SynnoConnection(inner, router) of `connect`, with a new count
unfoldable pub connect : Handle → Site → Fleet
connect h s = record { site = record s { refcount = increment s.refcount }; handles = h ∷ [] }

abbrev pub new_cursor : Handle → Handle
new_cursor h = record {
  owns_inner = true;
  current = none;
  last = none;
  has_engines_dir = h.has_engines_dir;
  mount = h.mount;
  registered = [];
  last_discover = none;
  is_open = true;
}

-- cursor
unfoldable pub cursor : ℕ → Fleet → Fleet
cursor i f = elim (get_elem? f.handles i) [
  | none ↦ f
  | some h ↦ record {
    site = record (f.site) { refcount = increment f.site.refcount };
    handles = f.handles ++ new_cursor h ∷ [];
  }
]

-- close
unfoldable pub close : ℕ → Fleet → Fleet
unfolding release
close i f = elim (get_elem? f.handles i) [
  | none ↦ f
  | some h ↦ record {
    site = release f.site;
    handles = set f.handles i (record h { is_open = false });
  }
]

-- One call on a handle, with what it meets.
pub data Event : Type 0 where
  executes : ℕ → Moment → String → Option Params → Event
  executes_many : ℕ → Moment → String → Event
  opens_cursor : ℕ → Event
  closes : ℕ → Event

abbrev pub store : ℕ → Fleet → After → Fleet
store i f out = record { site = out.2; handles = set f.handles i out.1 }

unfoldable pub apply : PythonOps → SqlOps → Event → Fleet → Fleet
unfolding execute executemany cursor close
apply py sql (executes i m query params) f = elim (get_elem? f.handles i) [
  | none ↦ f
  | some h ↦ store i f (execute py sql m query params h f.site)
]
apply py sql (executes_many i m query) f = elim (get_elem? f.handles i) [
  | none ↦ f
  | some h ↦ store i f (executemany py sql m query h f.site)
]
apply py sql (opens_cursor i) f = cursor i f
apply py sql (closes i) f = close i f

unfoldable pub apply_all : PythonOps → SqlOps → List Event → Fleet → Fleet
unfolding apply
apply_all py sql [] f = f
apply_all py sql (e ∷ es) f = apply_all py sql es (apply py sql e f)
