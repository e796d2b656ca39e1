-- ===== src/Connection/Progress.antt =====
-- duckdb_compat/connection.py: when `execute` returns.
use synno_db.Base.{String, ◌≡◌, sym, ◌∙◌, ap, inl, inr, true, false, Option, none, some}
use synno_db.Python.{PythonOps}
use synno_db.Python.Faults.{ok, err, ok_injective}
use synno_db.Policy.{is_bespoke_only}
use synno_db.Bind.{SqlOps}
use synno_db.Statement.{is_read_only_query}
use synno_db.Router.Guards.{Params}
use synno_db.Router.State.{QueryRouter}
use synno_db.Router.Honesty.{DiffRaised}
use synno_db.Connection.Handles.{Handle, Site, Moment, maybe_discover}
use synno_db.Connection.Statements.{returned, execute}
use synno_db.Connection.Endings.{AfterScan}
use synno_db.Connection.Answers.{execute-Ended}

module _ (py : PythonOps) (sql : SqlOps) (m : Moment) (query : String) (params : Option Params)
    (h : Handle) (s : Site) (r r' : QueryRouter) (own : s.router ≡ some r)
    (scanned : (maybe_discover py sql m r h s).0 ≡ ok r') where
  -- The connection has one router, and the scan one outcome.
  same_scan :
      (r2 : QueryRouter)
      → AfterScan py sql m query params h s r2
      → (r2 ≡ r') × (r2.policy ≡ r.policy)
  same_scan r2 (r0, own0, policy, found) =
      let same : r0 ≡ r = cc (own0, own) in
      (
        ok_injective (sym found ∙ ap (λ q. (maybe_discover py sql m q h s).0) same ∙ scanned),
        policy ∙ ap (λ (q : QueryRouter). q.policy) same,
      )

  -- A read-only statement returns when DuckDB would answer it and the scan before it, if one is due,
  -- returned: whatever the guards, the binding, the engine, the cross-check and the breaker do, an
  -- engine or a cross-check that raises included. The connection's mode is not bespoke_only, and the
  -- description of a difference between the engine's result and DuckDB's, if one is due, does not
  -- raise.
  pub execute-returned :
      is_read_only_query py sql query ≡ true
      → m.duckdb_error ≡ none
      → is_bespoke_only r.policy.mode ≡ false
      → ¬ DiffRaised py sql m.world query params r'
      → (execute py sql m query params h s).0 ≡ returned
  execute-returned reads calm falls_back described =
      elim (execute-Ended py sql m query params h s) [
        | inl refused ↦ let clash : false ≡ true = sym refused.writes ∙ reads in absurd (cc)
        | inr (inl handed) ↦ elim handed.answered [
          | inl (e, back, c) ↦ back
          | inr (x, e, back, c) ↦ absurd (cc (calm, e))
        ]
        | inr (inr (inl served)) ↦ served.reply
        | inr (inr (inr failed)) ↦ elim failed.cause [
          | inl (r0, own0, f, raising, escaped) ↦
              let same : r0 ≡ r = cc (own0, own) in
              let clash : ok r' ≡ err f =
                sym scanned ∙ ap (λ q. (maybe_discover py sql m q h s).0) (sym same) ∙ raising in
              absurd (cc)
          | inr (r2, after, inl bespoke) ↦
              let clash : false ≡ true =
                sym falls_back
                ∙ ap (λ p. is_bespoke_only p.mode) (sym (same_scan r2 after).1)
                ∙ bespoke in
              absurd (cc)
          | inr (r2, after, inr raised) ↦ absurd (described (rw (← (same_scan r2 after).0) raised))
        ]
      ]
