-- ===== src/Connection/Blocking.antt =====
-- duckdb_compat/connection.py: while writes are blocked, what callers run on DuckDB passes the read-only test.
use synno_db.Base.{
  ℕ, String, ◌≡◌, refl, ap, ◌∙◌, inl, inr, true, false, not, Option, none, some, List, [], ◌∷◌, All,
  get_elem?, Bool-cases, Option-cases, arith,
}
use synno_db.Python.{PythonOps}
use synno_db.Python.Faults.{Result, ok, err, ok_injective}
use synno_db.Policy.{routing_active}
use synno_db.Bind.{SqlOps}
use synno_db.Statement.{is_read_only_query}
use synno_db.Router.Guards.{Params}
use synno_db.Router.State.{QueryRouter, note_blocked_write}
use synno_db.Router.Route.{Answer, decided, failed, route}
use synno_db.Router.Sessions.{session, session-Kept}
use synno_db.Router.Asking.{AskedOnce, route-AskedOnce}
use synno_db.Connection.Handles.{Handle, Site, Moment, maybe_discover, is_positive, decrement}
use synno_db.Connection.Statements.{
  is_blocked, refuse_write, after_duckdb, run_duckdb, follow, route_and_follow, execute_with,
  execute, after_many, run_many, executemany_with, executemany,
}
use synno_db.Connection.Lifecycle.{
  Fleet, Event, executes, executes_many, opens_cursor, closes, apply, apply_all, cursor, close,
  release, close_engines,
}
use synno_db.Connection.Endings.{Looked, maybe_discover-Looked}

route-policy :
    (py : PythonOps) (sql : SqlOps) (m : Moment) (query : String) (params : Option Params)
    (r : QueryRouter)
    → (route py sql m.world query params r).1.policy ≡ r.policy
unfolding session
route-policy py sql m query params r =
    (session-Kept py sql (record { world = m.world; query = query; params = params } ∷ []) r).policy

-- Writes are blocked, and the read-only test accepts every statement of a caller that was run on
-- DuckDB, by the connections or by a cross-check.
pub record IsGuarded (py : PythonOps) (sql : SqlOps) (s : Site) : Type 0 where
  pub r : QueryRouter
  pub routing : s.router ≡ some r
  pub blocking : r.policy.block_writes ≡ true
  pub clean : All (λ q. is_read_only_query py sql q ≡ true) s.handed
  pub checked : All (λ q. is_read_only_query py sql q ≡ true) r.asked

module _ (py : PythonOps) (sql : SqlOps) (m : Moment) (query : String)
    (reads : is_read_only_query py sql query ≡ true) where
  after_duckdb-IsGuarded :
      (o : Option String) (h : Handle) (s : Site)
      → IsGuarded py sql s
      → IsGuarded py sql (after_duckdb m o h s).2
  unfolding after_duckdb
  after_duckdb-IsGuarded none h s g = g
  after_duckdb-IsGuarded (some e) h s g = g

  after_many-IsGuarded :
      (o : Option String) (h : Handle) (s : Site)
      → IsGuarded py sql s
      → IsGuarded py sql (after_many o h s).2
  unfolding after_many
  after_many-IsGuarded none h s g = g
  after_many-IsGuarded (some e) h s g = g

  hand_over :
      {s : Site} → IsGuarded py sql s → IsGuarded py sql (record s { handed = query ∷ s.handed })
  hand_over g = record {
    r = g.r;
    routing = g.routing;
    blocking = g.blocking;
    clean = (reads, g.clean);
    checked = g.checked;
  }

  run_duckdb-IsGuarded :
      (h : Handle) (s : Site) → IsGuarded py sql s → IsGuarded py sql (run_duckdb m query h s).2
  unfolding run_duckdb
  run_duckdb-IsGuarded h s g = after_duckdb-IsGuarded m.duckdb_error h _ (hand_over g)

  run_many-IsGuarded :
      (h : Handle) (s : Site) → IsGuarded py sql s → IsGuarded py sql (run_many m query h s).2
  unfolding run_many
  run_many-IsGuarded h s g = after_many-IsGuarded m.duckdb_error h _ (hand_over g)

  follow-IsGuarded :
      (a : Answer) (h : Handle) (s : Site)
      → IsGuarded py sql s
      → IsGuarded py sql (follow m query a h s).2
  unfolding follow
  follow-IsGuarded (failed e) h s g = g
  follow-IsGuarded (decided d) h s g = elim (Option-cases d.result) [
    | inl e ↦ rw (e, follow) (run_duckdb-IsGuarded h s g)
    | inr (result, e) ↦ elim (Bool-cases d.routed) [
      | inl f ↦ rw (e, f, follow) g
      | inr f ↦ rw (e, f, follow) (run_duckdb-IsGuarded h s g)
    ]
  ]

module _ (py : PythonOps) (sql : SqlOps) (m : Moment) (query : String) where
  refuse_write-IsGuarded :
      (r : QueryRouter) (h : Handle) (s : Site)
      → r.policy.block_writes ≡ true
      → All (λ q. is_read_only_query py sql q ≡ true) r.asked
      → IsGuarded py sql s
      → IsGuarded py sql (refuse_write py query r h s).2
  unfolding refuse_write note_blocked_write
  refuse_write-IsGuarded r h s blocking checked g = record {
    r = _;
    routing = refl;
    blocking = blocking;
    clean = g.clean;
    checked = checked;
  }

  -- A statement that is not blocked is read-only, since writes are blocked.
  unblocked-reads :
      (r : QueryRouter)
      → r.policy.block_writes ≡ true
      → is_blocked py sql r query ≡ false
      → is_read_only_query py sql query ≡ true
  unblocked-reads r blocking free = ground (arith, free)

  same_router : {s : Site} {r : QueryRouter} (g : IsGuarded py sql s) → s.router ≡ some r → g.r ≡ r
  same_router g e = cc (g.routing)

  blocking_of :
      {s : Site} {r : QueryRouter}
      → IsGuarded py sql s
      → s.router ≡ some r
      → r.policy.block_writes ≡ true
  blocking_of g e = rw (← same_router g e) g.blocking

  checked_of :
      {s : Site} {r : QueryRouter}
      → IsGuarded py sql s
      → s.router ≡ some r
      → All (λ q. is_read_only_query py sql q ≡ true) r.asked
  checked_of g e = rw (← same_router g e) g.checked

  -- After `route`, one more statement at most, which is read-only.
  AskedOnce-checked :
      {before after : List String}
      → is_read_only_query py sql query ≡ true
      → AskedOnce query before after
      → All (λ q. is_read_only_query py sql q ≡ true) before
      → All (λ q. is_read_only_query py sql q ≡ true) after
  AskedOnce-checked reads (inl same) c = rw same c
  AskedOnce-checked reads (inr more) c = rw more (reads, c)

  scanned-IsGuarded :
      (params : Option Params) (h : Handle) (s : Site) (r : QueryRouter)
      (out : Result QueryRouter × Handle × Site)
      → is_read_only_query py sql query ≡ true
      → s.router ≡ some r
      → IsGuarded py sql s
      → Looked py sql m query params h s r out
      → IsGuarded py sql (route_and_follow py sql m query params out).2
  unfolding route_and_follow
  scanned-IsGuarded params h s r (err f, h', s') reads own g l = elim l.router [
    | inl same ↦ record {
      r = g.r;
      routing = same ∙ g.routing;
      blocking = g.blocking;
      clean = rw l.handed g.clean;
      checked = g.checked;
    }
    | inr (r', e, kept, still) ↦ record {
      r = r';
      routing = e;
      blocking = rw kept (blocking_of g own);
      clean = rw l.handed g.clean;
      checked = rw still (checked_of g own);
    }
  ]
  scanned-IsGuarded params h s r (ok r', h', s') reads own g l = elim l.ends [
    | inr (f, e, _) ↦ absurd (cc)
    | inl (r2, e, kept, still) ↦
        let policy : r'.policy ≡ r.policy =
          ap (λ (q : QueryRouter). q.policy) (ok_injective e) ∙ kept in
        let asked : r'.asked ≡ r.asked =
          ap (λ (q : QueryRouter). q.asked) (ok_injective e) ∙ still in
        follow-IsGuarded py sql m query reads (route py sql m.world query params r').0 h' _
          (record {
            r = (route py sql m.world query params r').1;
            routing = refl;
            blocking = rw (route-policy py sql m query params r', policy) (blocking_of g own);
            clean = rw l.handed g.clean;
            checked =
                AskedOnce-checked reads (route-AskedOnce py sql m.world query params r')
                  (rw asked (checked_of g own));
          })
  ]

  execute_with-IsGuarded :
      (params : Option Params) (o : Option QueryRouter) (h : Handle) (s : Site)
      → s.router ≡ o
      → IsGuarded py sql s
      → IsGuarded py sql (execute_with py sql m query params o h s).2
  unfolding execute_with
  execute_with-IsGuarded params none h s e g = absurd (cc (g.routing))
  execute_with-IsGuarded params (some r) h s e g =
      let blocking = blocking_of g e in
      elim (Bool-cases (is_blocked py sql r query)) [
        | inl blocked ↦
            rw (blocked, execute_with) (refuse_write-IsGuarded r h s blocking (checked_of g e) g)
        | inr free ↦
            let reads = unblocked-reads r blocking free in
            elim (Bool-cases (not (routing_active r.policy))) [
              | inl off ↦
                  rw (free, off, execute_with) (run_duckdb-IsGuarded py sql m query reads h s g)
              | inr on ↦
                  rw (free, on, execute_with)
                    (scanned-IsGuarded params h s r (maybe_discover py sql m r h s) reads e g
                      (maybe_discover-Looked py sql m query params h s r e))
            ]
      ]

  executemany_with-IsGuarded :
      (o : Option QueryRouter) (h : Handle) (s : Site)
      → s.router ≡ o
      → IsGuarded py sql s
      → IsGuarded py sql (executemany_with py sql m query o h s).2
  unfolding executemany_with
  executemany_with-IsGuarded none h s e g = absurd (cc (g.routing))
  executemany_with-IsGuarded (some r) h s e g =
      let blocking = blocking_of g e in
      elim (Bool-cases (is_blocked py sql r query)) [
        | inl blocked ↦
            rw (blocked, executemany_with)
              (refuse_write-IsGuarded r h s blocking (checked_of g e) g)
        | inr free ↦
            rw (free, executemany_with)
              (run_many-IsGuarded py sql m query (unblocked-reads r blocking free) h s g)
      ]

module _ (py : PythonOps) (sql : SqlOps) where
  -- A change of the workers or of the count.
  reshape :
      {s s' : Site}
      → s'.router ≡ s.router
      → s'.handed ≡ s.handed
      → IsGuarded py sql s
      → IsGuarded py sql s'
  reshape same quiet g = record {
    r = g.r;
    routing = same ∙ g.routing;
    blocking = g.blocking;
    clean = rw quiet g.clean;
    checked = g.checked;
  }

  cursor-IsGuarded :
      (i : ℕ) (f : Fleet) → IsGuarded py sql f.site → IsGuarded py sql (cursor i f).site
  unfolding cursor
  cursor-IsGuarded i f g = elim (Option-cases (get_elem? f.handles i)) [
    | inl e ↦ rw (e, cursor) g
    | inr (h, e) ↦ rw (e, cursor) (reshape refl refl g)
  ]

  close_engines-IsGuarded : (s : Site) → IsGuarded py sql s → IsGuarded py sql (close_engines s)
  unfolding close_engines
  close_engines-IsGuarded s g = reshape (ground arith) (ground arith) g

  close-IsGuarded :
      (i : ℕ) (f : Fleet) → IsGuarded py sql f.site → IsGuarded py sql (close i f).site
  unfolding close release
  close-IsGuarded i f g = elim (Option-cases (get_elem? f.handles i)) [
    | inl e ↦ rw (e, close) g
    | inr (h, e) ↦ elim (Bool-cases (is_positive (decrement f.site.refcount))) [
      | inl more ↦ rw (e, more, close, release) (reshape refl refl g)
      | inr last ↦ rw (e, last, close, release) (close_engines-IsGuarded _ (reshape refl refl g))
    ]
  ]

  apply-IsGuarded :
      (e : Event) (f : Fleet) → IsGuarded py sql f.site → IsGuarded py sql (apply py sql e f).site
  unfolding apply execute executemany
  apply-IsGuarded (executes i m query params) f g = elim (Option-cases (get_elem? f.handles i)) [
    | inl e ↦ rw (e, apply) g
    | inr (h, e) ↦
        rw (e, apply) (execute_with-IsGuarded py sql m query params f.site.router h f.site refl g)
  ]
  apply-IsGuarded (executes_many i m query) f g = elim (Option-cases (get_elem? f.handles i)) [
    | inl e ↦ rw (e, apply) g
    | inr (h, e) ↦
        rw (e, apply) (executemany_with-IsGuarded py sql m query f.site.router h f.site refl g)
  ]
  apply-IsGuarded (opens_cursor i) f g = cursor-IsGuarded i f g
  apply-IsGuarded (closes i) f g = close-IsGuarded i f g

  -- While the router of some connections blocks writes, is_read_only_query accepts every caller's
  -- statement that they run on DuckDB, those that the cross-check runs included, whatever sequence of
  -- execute, executemany, cursor and close is called on them and on their cursors: no such call
  -- lifts the block. The views of a mounted snapshot are no caller's statement and are left out.
  pub apply_all-IsGuarded :
      (es : List Event) (f : Fleet)
      → IsGuarded py sql f.site
      → IsGuarded py sql (apply_all py sql es f).site
  unfolding apply_all
  apply_all-IsGuarded [] f g = g
  apply_all-IsGuarded (e ∷ es) f g =
      apply_all-IsGuarded es (apply py sql e f) (apply-IsGuarded e f g)
