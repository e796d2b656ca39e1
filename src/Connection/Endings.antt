-- ===== src/Connection/Endings.antt =====
-- duckdb_compat/connection.py: in what `execute` may end, and what the scan before a statement leaves.
use synno_db.Base.{
  String, ◌≡◌, refl, ◌⊎◌, inl, inr, true, false, not, Option, none, some, ◌∷◌, Some, Bool-cases,
}
use synno_db.Python.{PythonOps}
use synno_db.Python.Faults.{Fault, Result, ok, err, Result-cases}
use synno_db.Policy.{is_bespoke_only}
use synno_db.Bind.{SqlOps}
use synno_db.Statement.{is_read_only_query}
use synno_db.Discovery.Scans.{Scan, discover_engines}
use synno_db.Discovery.Scanning.{Escaped, listed_packages, discover_engines-Escaped}
use synno_db.Router.Guards.{Params}
use synno_db.Router.State.{QueryRouter, note_blocked_write}
use synno_db.Router.Route.{RouteDecision}
use synno_db.Router.Honesty.{FromEngine, FromDuckDb, DiffRaised}
use synno_db.Router.Asking.{AskedOnce}
use synno_db.Connection.Handles.{
  Handle, Site, Moment, asked_of, maybe_discover, discover_now, is_throttled,
}
use synno_db.Connection.Statements.{
  After, returned, write_not_supported, raised, write_not_supported_message,
}

raised_by : {E : Type 0} {r : Result (Unit {0})} {f : Fault} → (r ≡ ok tt) ⊎ E → r ≡ err f → E
raised_by (inl quiet) e = absurd (cc)
raised_by (inr x) e = x

module _ (py : PythonOps) (sql : SqlOps) (m : Moment) (query : String) (params : Option Params)
    (h : Handle) (s : Site) where
  -- The write was refused, and nothing but the router's counter changed.
  pub record Refused (out : After) : Type 0 where
    pub r : QueryRouter
    pub routing : s.router ≡ some r
    pub blocking : r.policy.block_writes ≡ true
    pub writes : is_read_only_query py sql query ≡ false
    pub reply : out.0 ≡ write_not_supported (write_not_supported_message py query)
    pub kept : out.1 ≡ h
    pub counted : out.2 ≡ record s { router = some (note_blocked_write r) }

  -- What the cross-check ran on DuckDB.
  abbrev pub Asks : Site → Type 0
  Asks s' = AskedOnce query (asked_of s) (asked_of s')

  -- The statement was handed to DuckDB. If DuckDB raised, the connection still has the result of
  -- the statement before.
  pub record Handed (out : After) : Type 0 where
    pub handed : out.2.handed ≡ query ∷ s.handed
    pub asked : Asks out.2
    pub answered :
        ((m.duckdb_error ≡ none) × (out.0 ≡ returned) × (out.1.current ≡ none))
        ⊎ ((e : String) × (m.duckdb_error ≡ some e)
            × (out.0 ≡ raised e)
            × (out.1.current ≡ h.current))

  -- The router after the scan: the connection's own, with its policy.
  abbrev pub AfterScan : QueryRouter → Type 0
  AfterScan r =
      (r0 : QueryRouter) × (s.router ≡ some r0)
      × (r.policy ≡ r0.policy)
      × ((maybe_discover py sql m r0 h s).0 ≡ ok r)

  -- The scan raised, and a package is the cause.
  abbrev pub ScanRaised : Type 0
  ScanRaised =
      (r0 : QueryRouter) × (s.router ≡ some r0)
      × (f : Fault) × ((maybe_discover py sql m r0 h s).0 ≡ err f)
      × Some (Escaped py) (listed_packages m.found)

  -- The router's result, in the state after the scan, is what the fetch methods read.
  pub record Served (out : After) : Type 0 where
    pub r : QueryRouter
    pub d : RouteDecision
    pub scanned : AfterScan r
    pub honest :
        FromEngine py sql m.world query params r d ⊎ FromDuckDb py sql m.world query params r d
    pub reply : out.0 ≡ returned
    pub current : out.1.current ≡ d.result
    pub handed : out.2.handed ≡ s.handed
    pub asked : Asks out.2

  -- An exception of the scan, or one that left `route`.
  pub record Failed (out : After) : Type 0 where
    pub e : String
    pub reply : out.0 ≡ raised e
    pub cause :
        ScanRaised
        ⊎ ((r : QueryRouter) × AfterScan r
            × ((is_bespoke_only r.policy.mode ≡ true) ⊎ DiffRaised py sql m.world query params r))
    pub handed : out.2.handed ≡ s.handed
    pub asked : Asks out.2
    pub current : out.1.current ≡ h.current

  abbrev pub Ended : After → Type 0
  Ended out = Refused out ⊎ Handed out ⊎ Served out ⊎ Failed out

  -- What the scan before a statement leaves.
  pub record Looked (r : QueryRouter) (out : Result QueryRouter × Handle × Site) : Type 0 where
    pub current : out.1.current ≡ h.current
    pub handed : out.2.handed ≡ s.handed
    pub asked : asked_of out.2 ≡ asked_of s
    pub router :
        (out.2.router ≡ s.router)
        ⊎ ((r' : QueryRouter) × (out.2.router ≡ some r')
            × (r'.policy ≡ r.policy)
            × (r'.asked ≡ r.asked))
    pub ends :
        ((r' : QueryRouter) × (out.0 ≡ ok r') × (r'.policy ≡ r.policy) × (r'.asked ≡ r.asked))
        ⊎ ((f : Fault) × (out.0 ≡ err f) × Some (Escaped py) (listed_packages m.found))

  abbrev unscanned : (r : QueryRouter) → Looked r (ok r, h, s)
  unscanned r = record {
    current = refl;
    handed = refl;
    asked = refl;
    router = inl refl;
    ends = inl (r, refl, refl, refl);
  }

  discover_now-Looked :
      (r : QueryRouter) (h' : Handle)
      → h'.current ≡ h.current
      → s.router ≡ some r
      → Looked r (discover_now py sql m r h' s)
  unfolding discover_now
  discover_now-Looked r h' same own =
      let before : Scan = record {
        registry = r.registry;
        registered = h'.registered;
        workers = s.workers;
      } in
      elim (Result-cases (discover_engines py sql h'.mount m.found before).0) [
        | inl (u, e) ↦
            rw (e, discover_now)
              (record {
                current = same;
                handed = refl;
                asked = rw own refl;
                router = inr (_, refl, refl, refl);
                ends = inl (_, refl, refl, refl);
              })
        | inr (f, e) ↦
            rw (e, discover_now)
              (record {
                current = same;
                handed = refl;
                asked = rw own refl;
                router = inr (_, refl, refl, refl);
                ends = inr (
                  f,
                  refl,
                  raised_by (discover_engines-Escaped py sql h'.mount m.found before) e,
                );
              })
      ]

  pub maybe_discover-Looked :
      (r : QueryRouter) → s.router ≡ some r → Looked r (maybe_discover py sql m r h s)
  unfolding maybe_discover
  maybe_discover-Looked r own = elim (Bool-cases (not h.has_engines_dir)) [
    | inl e ↦ rw (e, maybe_discover) (unscanned r)
    | inr e ↦ elim (Bool-cases (is_throttled m h)) [
      | inl f ↦ rw (e, f, maybe_discover) (unscanned r)
      | inr f ↦ rw (e, f, maybe_discover) (discover_now-Looked r _ refl own)
    ]
  ]
