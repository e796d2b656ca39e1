-- ===== src/Router/Accounting.antt =====
-- router/router.py: what `route` counts for the answer that it gives.
pub mod Stages
pub mod Changes
use synno_db.Base.{
  ℕ, ◌+◌, ◌≤◌, String, ◌≡◌, ◌⊎◌, ap, inl, inr, Bool, true, false, not, ◌&&◌, Option, none, some,
  arith, Bool-cases,
}
use synno_db.Policy.{is_bespoke_only}
use synno_db.Compare.Cells.{Table}
use synno_db.Registry.{EngineBinding, is_quarantined}
use synno_db.Router.Trace.{RouteTrace, Server, bespoke, engine, routed, fell_back}
use synno_db.Router.State.{QueryRouter, count_of, is_mismatch, tally, record_success}
use synno_db.Router.Route.{
  decided, failed, Step, RouteDecision, finish, fall_back, serve_reference, serve_engine,
}

abbrev pub bit : Bool → ℕ
bit false = 0
bit true = 1

abbrev pub is_engine : Option Server → Bool
is_engine (some engine) = true
is_engine _ = false

-- Nothing is counted yet between s and s' but errors and at most one execution of each template.
pub record Pending (s s' : QueryRouter) : Type 0 where
  pub routed : s'.counters.routed ≡ s.counters.routed
  pub fell_back : s'.counters.fell_back ≡ s.counters.fell_back
  pub cross_checked : s'.counters.cross_checked ≡ s.counters.cross_checked
  pub mismatches : s'.counters.cross_check_mismatch ≡ s.counters.cross_check_mismatch
  pub executions : (id : String) → count_of s'.exec_counts id ≤ count_of s.exec_counts id + 1

-- What is counted for a decision that leads from s to s'.
pub record Counted (s : QueryRouter) (d : RouteDecision) (s' : QueryRouter) : Type 0 where
  pub routed : s'.counters.routed ≡ s.counters.routed + bit (is_engine d.trace.served_by)
  pub fell_back : s'.counters.fell_back ≡ s.counters.fell_back + bit (not d.routed)
  pub cross_checked :
      s'.counters.cross_checked ≡ s.counters.cross_checked + bit d.trace.cross_checked
  pub mismatches :
      s'.counters.cross_check_mismatch
      ≡ s.counters.cross_check_mismatch + bit (is_mismatch d.trace.results_match)
  pub executions : (id : String) → count_of s'.exec_counts id ≤ count_of s.exec_counts id + 1
  pub caught :
      (is_mismatch d.trace.results_match ≡ false)
      ⊎ ((id : String) × (d.trace.template ≡ some id) × (is_quarantined s'.registry id ≡ true))

abbrev pub Accounted : QueryRouter → Step → Type 0
Accounted s (failed e, s') = Pending s s'
Accounted s (decided d, s') = Counted s d s'

-- The trace of a statement whose result is not compared yet.
pub record Fresh (t : RouteTrace) : Type 0 where
  unserved : t.served_by ≡ none
  unchecked : t.cross_checked ≡ false
  unmatched : t.results_match ≡ none

pub fall_back-Accounted :
    (s : QueryRouter) (m : Bool) (reason : String) (t : RouteTrace) (s' : QueryRouter)
    → Fresh t
    → Pending s s'
    → Accounted s (fall_back m reason t s')
unfolding fall_back finish tally
fall_back-Accounted s m reason t s' f p = elim (Bool-cases (m && is_bespoke_only s'.policy.mode)) [
  | inl e ↦ rw (e, fall_back) p
  | inr e ↦
      rw (e, fall_back)
        (record {
          routed = rw f.unserved (omega arith);
          fell_back = ap (λ n. n + 1) p.fell_back;
          cross_checked = rw f.unchecked (omega arith);
          mismatches = rw f.unmatched (omega arith);
          executions = p.executions;
          caught = inl (ground (arith, f.unmatched));
        })
]

pub serve_engine-Accounted :
    (s : QueryRouter) (t : RouteTrace) (table : Table) (b : EngineBinding) (s' : QueryRouter)
    → t.decision ≡ bespoke
    → is_mismatch t.results_match ≡ false
    → Pending s s'
    → Accounted s (serve_engine t table b s')
unfolding serve_engine finish tally record_success
serve_engine-Accounted s t table b s' kind same p = elim (Bool-cases t.cross_checked) [
  | inl e ↦
      rw (kind, e, same)
        (record {
          routed = ap (λ n. n + 1) p.routed;
          fell_back = rw p.fell_back (omega arith);
          cross_checked = ap (λ n. n + 1) p.cross_checked;
          mismatches = rw (same, p.mismatches) (omega arith);
          executions = p.executions;
          caught = inl same;
        })
  | inr e ↦
      rw (kind, e)
        (record {
          routed = ap (λ n. n + 1) p.routed;
          fell_back = rw p.fell_back (omega arith);
          cross_checked = rw p.cross_checked (omega arith);
          mismatches = rw (same, p.mismatches) (omega arith);
          executions = p.executions;
          caught = inl same;
        })
]

-- A result of DuckDB behind a check is counted as a check, and as a mismatch with one.
pub serve_reference-Accounted :
    (s : QueryRouter) (t : RouteTrace) (reference : Table) (b : EngineBinding) (s' : QueryRouter)
    → t.decision ≡ bespoke
    → t.cross_checked ≡ true
    → t.template ≡ some b.template_id
    → (is_mismatch t.results_match ≡ true → is_quarantined s'.registry b.template_id ≡ true)
    → Pending s s'
    → Accounted s (serve_reference t reference b s')
unfolding serve_reference finish tally
serve_reference-Accounted s t reference b s' kind due named caught p =
    elim (Bool-cases (is_mismatch t.results_match)) [
      | inl e ↦
          rw (kind, due, e)
            (record {
              routed = rw p.routed (omega arith);
              fell_back = rw p.fell_back (omega arith);
              cross_checked = ap (λ n. n + 1) p.cross_checked;
              mismatches = rw e (ap (λ n. n + 1) p.mismatches);
              executions = p.executions;
              caught = inr (b.template_id, named, caught e);
            })
      | inr e ↦
          rw (kind, due, e)
            (record {
              routed = rw p.routed (omega arith);
              fell_back = rw p.fell_back (omega arith);
              cross_checked = ap (λ n. n + 1) p.cross_checked;
              mismatches = rw (e, p.mismatches) (omega arith);
              executions = p.executions;
              caught = inl e;
            })
    ]
