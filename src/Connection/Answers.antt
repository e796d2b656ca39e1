-- ===== src/Connection/Answers.antt =====
-- duckdb_compat/connection.py: the ways in which `execute` ends, over the answers of `route`.
use mathlib.Core.Path.{subst}
use synno_db.Base.{
  String, ◌≡◌, refl, sym, ◌∙◌, ap, inl, inr, not, Option, none, some, List, ◌∷◌, Bool-cases, arith,
}
use synno_db.Python.{PythonOps}
use synno_db.Python.Faults.{message, Result, ok, err, ok_injective}
use synno_db.Policy.{routing_active}
use synno_db.Bind.{SqlOps}
use synno_db.Router.Guards.{Params}
use synno_db.Router.State.{QueryRouter}
use synno_db.Router.Route.{Answer, decided, failed, route}
use synno_db.Router.Honesty.{Honest}
use synno_db.Router.Pipeline.{route-Honest}
use synno_db.Router.Asking.{AskedOnce, route-AskedOnce}
use synno_db.Connection.Handles.{Handle, Site, Moment, asked_of, maybe_discover}
use synno_db.Connection.Statements.{
  is_blocked, refuse_write, after_duckdb, run_duckdb, execute_with, follow, route_and_follow,
  execute,
}
use synno_db.Connection.Endings.{Asks, AfterScan, Ended, Looked, maybe_discover-Looked}

module _ (py : PythonOps) (sql : SqlOps) (m : Moment) (query : String) (params : Option Params)
    (h : Handle) (s : Site) where
  after_duckdb-Ended :
      (o : Option String) (h' : Handle) (s' : Site)
      → m.duckdb_error ≡ o
      → h'.current ≡ h.current
      → s'.handed ≡ query ∷ s.handed
      → Asks py sql m query params h s s'
      → Ended py sql m query params h s (after_duckdb m o h' s')
  unfolding after_duckdb
  after_duckdb-Ended none h' s' e same handed asked =
      inr (inl (record { handed = handed; asked = asked; answered = inl (e, refl, refl) }))
  after_duckdb-Ended (some f) h' s' e same handed asked =
      inr (inl (record { handed = handed; asked = asked; answered = inr (f, e, refl, same) }))

  run_duckdb-Ended :
      (h' : Handle) (s' : Site)
      → h'.current ≡ h.current
      → s'.handed ≡ s.handed
      → Asks py sql m query params h s s'
      → Ended py sql m query params h s (run_duckdb m query h' s')
  unfolding run_duckdb
  run_duckdb-Ended h' s' same quiet asked =
      after_duckdb-Ended m.duckdb_error h' _ refl same (ap (λ (l : List String). query ∷ l) quiet)
        asked

  answer-Ended :
      (r : QueryRouter) (a : Answer) (h' : Handle) (s' : Site)
      → AfterScan py sql m query params h s r
      → Honest py sql m.world query params r a
      → h'.current ≡ h.current
      → s'.handed ≡ s.handed
      → Asks py sql m query params h s s'
      → Ended py sql m query params h s (follow m query a h' s')
  unfolding follow
  answer-Ended r (failed e) h' s' scanned cause same quiet asked = inr (
      inr (
        inr (record {
          e = e;
          reply = refl;
          cause = inr (r, scanned, cause);
          handed = quiet;
          asked = asked;
          current = same;
        })))
  answer-Ended r (decided d) h' s' scanned (inl fell) same quiet asked =
      rw (fell.result, follow) (run_duckdb-Ended h' s' same quiet asked)
  answer-Ended r (decided d) h' s' scanned (inr (inl e)) same quiet asked =
      rw (e.result, e.routed, follow)
        (inr (
          inr (
            inl (record {
              r = r;
              d = d;
              scanned = scanned;
              honest = inl e;
              reply = refl;
              current = sym e.result;
              handed = quiet;
              asked = asked;
            }))))
  answer-Ended r (decided d) h' s' scanned (inr (inr e)) same quiet asked =
      rw (e.result, e.routed, follow)
        (inr (
          inr (
            inl (record {
              r = r;
              d = d;
              scanned = scanned;
              honest = inr e;
              reply = refl;
              current = sym e.result;
              handed = quiet;
              asked = asked;
            }))))

  scanned-Ended :
      (r : QueryRouter) (out : Result QueryRouter × Handle × Site)
      → s.router ≡ some r
      → (maybe_discover py sql m r h s).0 ≡ out.0
      → Looked py sql m query params h s r out
      → Ended py sql m query params h s (route_and_follow py sql m query params out)
  unfolding route_and_follow
  scanned-Ended r (err f, h', s') own found l = elim l.ends [
    | inl (r', e, _, _) ↦ absurd (cc)
    | inr (g, e, escaped) ↦ inr (
        inr (
          inr (record {
            e = message f;
            reply = refl;
            cause = inl (r, own, f, found, escaped);
            handed = l.handed;
            asked = inl l.asked;
            current = l.current;
          })))
  ]
  scanned-Ended r (ok r', h', s') own found l =
      let scanned : AfterScan py sql m query params h s r' = elim l.ends [
        | inl (r2, e, kept, _) ↦
            (r, own, ap (λ (q : QueryRouter). q.policy) (ok_injective e) ∙ kept, found)
        | inr (g, e, escaped) ↦ absurd (cc)
      ] in
      let still : r'.asked ≡ asked_of s = elim l.ends [
        | inl (r2, e, _, same) ↦ rw own (ap (λ (q : QueryRouter). q.asked) (ok_injective e) ∙ same)
        | inr (g, e, escaped) ↦ absurd (cc)
      ] in
      answer-Ended r' (route py sql m.world query params r').0 h' _ scanned
        (route-Honest py sql m.world query params r') l.current l.handed
        (subst
          (λ (log : List String).
            AskedOnce query log (route py sql m.world query params r').1.asked)
          still (route-AskedOnce py sql m.world query params r'))

  execute_with-Ended :
      (o : Option QueryRouter)
      → s.router ≡ o
      → Ended py sql m query params h s (execute_with py sql m query params o h s)
  unfolding execute_with refuse_write
  execute_with-Ended none e = run_duckdb-Ended h s refl refl (inl refl)
  execute_with-Ended (some r) e = elim (Bool-cases (is_blocked py sql r query)) [
    | inl blocked ↦
        rw (blocked, execute_with)
          (inl (record {
            r = r;
            routing = e;
            blocking = ground (arith, blocked);
            writes = ground (arith, blocked);
            reply = refl;
            kept = refl;
            counted = refl;
          }))
    | inr free ↦ elim (Bool-cases (not (routing_active r.policy))) [
      | inl off ↦ rw (free, off, execute_with) (run_duckdb-Ended h s refl refl (inl refl))
      | inr on ↦
          rw (free, on, execute_with)
            (scanned-Ended r (maybe_discover py sql m r h s) e refl
              (maybe_discover-Looked py sql m query params h s r e))
    ]
  ]

  pub execute-Ended : Ended py sql m query params h s (execute py sql m query params h s)
  unfolding execute
  execute-Ended = execute_with-Ended s.router refl
