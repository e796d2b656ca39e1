-- ===== src/Router/Counting.antt =====
-- router/router.py: the counters keep in step with each other.
use synno_db.Base.{
  ℕ, ◌+◌, ◌≤◌, String, ◌≡◌, refl, sym, ap, ◌∙◌, inl, inr, ◌&&◌, Option, [], ◌∷◌, arith, Bool-cases,
  get_or_else,
}
use synno_db.Base.Dict.{Dict, get, put}
use synno_db.Python.{Float, PythonOps, is_truthy}
use synno_db.Registry.{EngineBinding}
use synno_db.Bind.{SqlOps}
use synno_db.Router.Trace.{RouteTrace, Decision, bespoke, fallback, pending, write_passthrough}
use synno_db.Router.Guards.{Params, World}
use synno_db.Router.State.{
  QueryRouter, Counters, count_bespoke, count_check, is_mismatch, by_duckdb, tally, bump,
  record_failure, note_check_error, record_success, count_execution,
}
use synno_db.Router.Route.{note_timing, route}
use synno_db.Router.Frames.{record_failure-counters, record_failure-fallback_reasons}
use synno_db.Router.Invariants.{Stable, route-Stable}

-- The sum of a dictionary of counts.
unfoldable pub total : Dict ℕ → ℕ
total [] = 0
total ((k, n) ∷ d) = n + total d

total-put :
    (d : Dict ℕ) (k : String) (n : ℕ) → total (put d k n) + get_or_else (get d k) 0 ≡ total d + n
unfolding total put get
total-put [] k n = ground arith
total-put ((j, m) ∷ d) k n = ground (arith, total-put d k n)

total-bump : (d : Dict ℕ) (k : String) → total (bump d k) ≡ total d + 1
total-bump d k = ground (arith, total-put d k (get_or_else (get d k) 0 + 1))

pub record Balanced (s : QueryRouter) : Type 0 where
  pub mismatches : s.counters.cross_check_mismatch ≤ s.counters.cross_checked
  pub reasons : total s.fallback_reasons ≡ s.counters.fell_back

count_check-mismatches :
    (t : RouteTrace) (c : Counters)
    → c.cross_check_mismatch ≤ c.cross_checked
    → (count_check t c).cross_check_mismatch ≤ (count_check t c).cross_checked
count_check-mismatches t c h = elim (Bool-cases (is_mismatch t.results_match)) [
  | inl e ↦ rw e (omega arith)
  | inr e ↦ rw e (omega arith)
]

count_bespoke-mismatches :
    (t : RouteTrace) (c : Counters)
    → c.cross_check_mismatch ≤ c.cross_checked
    → (count_bespoke t c).cross_check_mismatch ≤ (count_bespoke t c).cross_checked
count_bespoke-mismatches t c h = elim (Bool-cases (by_duckdb t.served_by)) [
  | inl e ↦ rw e (count_check-mismatches t c h)
  | inr e ↦ elim (Bool-cases t.cross_checked) [
    | inl f ↦ rw (e, f) (count_check-mismatches t (record c { routed = c.routed + 1 }) h)
    | inr f ↦ rw (e, f) h
  ]
]

count_check-fell_back : (t : RouteTrace) (c : Counters) → (count_check t c).fell_back ≡ c.fell_back
count_check-fell_back t c = elim (Bool-cases (is_mismatch t.results_match)) [
  | inl e ↦ rw e refl
  | inr e ↦ rw e refl
]

count_bespoke-fell_back :
    (t : RouteTrace) (c : Counters) → (count_bespoke t c).fell_back ≡ c.fell_back
count_bespoke-fell_back t c = elim (Bool-cases (by_duckdb t.served_by)) [
  | inl e ↦ rw e (count_check-fell_back t c)
  | inr e ↦ elim (Bool-cases t.cross_checked) [
    | inl f ↦ rw (e, f) (count_check-fell_back t (record c { routed = c.routed + 1 }))
    | inr f ↦ rw (e, f) refl
  ]
]

tally-Balanced : (t : RouteTrace) (s : QueryRouter) → Balanced s → Balanced (tally t s)
unfolding tally
tally-Balanced t s h = counted t.decision refl
  where
    counted : (d : Decision) → t.decision ≡ d → Balanced (tally t s)
    counted pending e = rw (e, tally) h
    counted write_passthrough e = rw (e, tally) h
    counted bespoke e =
        rw (e, tally)
          (record {
            mismatches = count_bespoke-mismatches t s.counters h.mismatches;
            reasons = h.reasons ∙ sym (count_bespoke-fell_back t s.counters);
          })
    counted fallback e =
        rw (e, tally)
          (record {
            mismatches = h.mismatches;
            reasons = total-bump s.fallback_reasons t.reason ∙ ap (λ n. n + 1) h.reasons;
          })

record_failure-Balanced :
    (b : EngineBinding) (s : QueryRouter) → Balanced s → Balanced (record_failure b s)
record_failure-Balanced b s h = record {
  mismatches = rw (record_failure-counters b s) h.mismatches;
  reasons = rw (record_failure-counters b s, record_failure-fallback_reasons b s) h.reasons;
}

note_timing-Balanced :
    (py : PythonOps) (b : EngineBinding) (x y : Float) (s : QueryRouter)
    → Balanced s
    → Balanced (note_timing py b x y s)
unfolding note_timing
note_timing-Balanced py b x y s h = elim (Bool-cases (is_truthy py x && is_truthy py y)) [
  | inl e ↦ rw (e, note_timing) (record { mismatches = h.mismatches; reasons = h.reasons })
  | inr e ↦ rw (e, note_timing) h
]

pub Balanced-Stable : (py : PythonOps) → Stable py Balanced
unfolding note_check_error record_success count_execution
Balanced-Stable py = record {
  asks = λ query s h. record { mismatches = h.mismatches; reasons = h.reasons };
  changes = record {
    tallies = tally-Balanced;
    notes_error = λ s h. record { mismatches = h.mismatches; reasons = h.reasons };
    fails = record_failure-Balanced;
    succeeds = λ b s h. record { mismatches = h.mismatches; reasons = h.reasons };
    executes = λ id s h. record { mismatches = h.mismatches; reasons = h.reasons };
    times = note_timing-Balanced py;
    sidelines = λ b s h. record { mismatches = h.mismatches; reasons = h.reasons };
  };
}

-- `route` keeps the counters in step: no more mismatches than cross-checks are counted, and the
-- counts of the fallback reasons add up to the fallbacks.
pub route-Balanced :
    (py : PythonOps) (sql : SqlOps) (w : World) (query : String) (params : Option Params)
    (s : QueryRouter)
    → Balanced s
    → Balanced (route py sql w query params s).1
route-Balanced py sql w query params s =
    route-Stable py sql w query params Balanced (Balanced-Stable py) s
