-- ===== src/Router/Frames.antt =====
-- router/router.py: what the single changes of the router's state leave alone.
use synno_db.Base.{◌+◌, ◌≡◌, refl, inl, inr, Bool, not, ◌&&◌, Bool-cases}
use synno_db.Base.Dict.{put}
use synno_db.Base.Int.{at_least}
use synno_db.Python.{Float, PythonOps, is_truthy}
use synno_db.Registry.{EngineBinding, is_quarantined, quarantine}
use synno_db.Router.Trace.{RouteTrace, Decision, bespoke, fallback, pending, write_passthrough}
use synno_db.Router.State.{QueryRouter, count_of, tally, record_failure}
use synno_db.Router.Route.{note_timing}

-- whether the breaker acts at this failure
abbrev pub acts : EngineBinding → QueryRouter → Bool
acts b s =
    at_least (count_of s.failures b.template_id + 1) s.policy.breaker_threshold
    && not (is_quarantined s.registry b.template_id)

pub record Framed (s s' : QueryRouter) : Type 0 where
  pub failures : s'.failures ≡ s.failures
  pub registry : s'.registry ≡ s.registry
  pub policy : s'.policy ≡ s.policy
  pub exec_counts : s'.exec_counts ≡ s.exec_counts
  pub asked : s'.asked ≡ s.asked

pub tally-Framed : (t : RouteTrace) (s : QueryRouter) → Framed s (tally t s)
unfolding tally
tally-Framed t s = counted t.decision refl
  where
    counted : (d : Decision) → t.decision ≡ d → Framed s (tally t s)
    counted pending e =
        rw (e, tally)
          (record {
            failures = refl;
            registry = refl;
            policy = refl;
            exec_counts = refl;
            asked = refl;
          })
    counted write_passthrough e =
        rw (e, tally)
          (record {
            failures = refl;
            registry = refl;
            policy = refl;
            exec_counts = refl;
            asked = refl;
          })
    counted bespoke e =
        rw (e, tally)
          (record {
            failures = refl;
            registry = refl;
            policy = refl;
            exec_counts = refl;
            asked = refl;
          })
    counted fallback e =
        rw (e, tally)
          (record {
            failures = refl;
            registry = refl;
            policy = refl;
            exec_counts = refl;
            asked = refl;
          })

pub note_timing-Framed :
    (py : PythonOps) (b : EngineBinding) (x y : Float) (s : QueryRouter)
    → Framed s (note_timing py b x y s)
unfolding note_timing
note_timing-Framed py b x y s = elim (Bool-cases (is_truthy py x && is_truthy py y)) [
  | inl e ↦
      rw (e, note_timing)
        (record {
          failures = refl;
          registry = refl;
          policy = refl;
          exec_counts = refl;
          asked = refl;
        })
  | inr e ↦
      rw (e, note_timing)
        (record {
          failures = refl;
          registry = refl;
          policy = refl;
          exec_counts = refl;
          asked = refl;
        })
]

pub record_failure-asked :
    (b : EngineBinding) (s : QueryRouter) → (record_failure b s).asked ≡ s.asked
unfolding record_failure
record_failure-asked b s = elim (Bool-cases (acts b s)) [
  | inl e ↦ rw (e, record_failure) refl
  | inr e ↦ rw (e, record_failure) refl
]

pub record_failure-policy :
    (b : EngineBinding) (s : QueryRouter) → (record_failure b s).policy ≡ s.policy
unfolding record_failure
record_failure-policy b s = elim (Bool-cases (acts b s)) [
  | inl e ↦ rw (e, record_failure) refl
  | inr e ↦ rw (e, record_failure) refl
]

pub record_failure-counters :
    (b : EngineBinding) (s : QueryRouter) → (record_failure b s).counters ≡ s.counters
unfolding record_failure
record_failure-counters b s = elim (Bool-cases (acts b s)) [
  | inl e ↦ rw (e, record_failure) refl
  | inr e ↦ rw (e, record_failure) refl
]

pub record_failure-fallback_reasons :
    (b : EngineBinding) (s : QueryRouter)
    → (record_failure b s).fallback_reasons ≡ s.fallback_reasons
unfolding record_failure
record_failure-fallback_reasons b s = elim (Bool-cases (acts b s)) [
  | inl e ↦ rw (e, record_failure) refl
  | inr e ↦ rw (e, record_failure) refl
]

pub record_failure-failures :
    (b : EngineBinding) (s : QueryRouter)
    → (record_failure b s).failures
      ≡ put s.failures b.template_id (count_of s.failures b.template_id + 1)
unfolding record_failure
record_failure-failures b s = elim (Bool-cases (acts b s)) [
  | inl e ↦ rw (e, record_failure) refl
  | inr e ↦ rw (e, record_failure) refl
]

pub record_failure-exec_counts :
    (b : EngineBinding) (s : QueryRouter) → (record_failure b s).exec_counts ≡ s.exec_counts
unfolding record_failure
record_failure-exec_counts b s = elim (Bool-cases (acts b s)) [
  | inl e ↦ rw (e, record_failure) refl
  | inr e ↦ rw (e, record_failure) refl
]

pub record_failure-by_norm :
    (b : EngineBinding) (s : QueryRouter)
    → (record_failure b s).registry.by_norm ≡ s.registry.by_norm
unfolding record_failure quarantine
record_failure-by_norm b s = elim (Bool-cases (acts b s)) [
  | inl e ↦ rw (e, record_failure) refl
  | inr e ↦ rw (e, record_failure) refl
]

pub record_failure-dirty_tables :
    (b : EngineBinding) (s : QueryRouter)
    → (record_failure b s).registry.dirty_tables ≡ s.registry.dirty_tables
unfolding record_failure quarantine
record_failure-dirty_tables b s = elim (Bool-cases (acts b s)) [
  | inl e ↦ rw (e, record_failure) refl
  | inr e ↦ rw (e, record_failure) refl
]
