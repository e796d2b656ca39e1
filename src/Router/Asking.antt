-- ===== src/Router/Asking.antt =====
-- router/router.py: how often the cross-check of `route` runs the statement on DuckDB.
use synno_db.Base.{String, ◌≡◌, refl, ◌⊎◌, inl, inr, Option, List, ◌∷◌, ap}
use synno_db.Python.{PythonOps}
use synno_db.Bind.{SqlOps}
use synno_db.Router.Guards.{Params, World}
use synno_db.Router.State.{QueryRouter, note_check_error, record_success, count_execution}
use synno_db.Router.Route.{route}
use synno_db.Router.Frames.{tally-Framed, note_timing-Framed, record_failure-asked}
use synno_db.Router.Invariants.{Changes, route-After}

-- The statements that cross-checks ran are those of before, or the query came on top, once.
abbrev pub AskedOnce : String → List String → List String → Type 0
AskedOnce query before after = (after ≡ before) ⊎ (after ≡ query ∷ before)

-- Every other change of the state leaves that log alone.
asked-Changes : (py : PythonOps) (R : List String → Type 0) → Changes py (λ s. R s.asked)
unfolding note_check_error record_success count_execution
asked-Changes py R = record {
  tallies = λ t s r. rw ((tally-Framed t s).asked) r;
  notes_error = λ s r. r;
  fails = λ b s r. rw (record_failure-asked b s) r;
  succeeds = λ b s r. r;
  executes = λ id s r. r;
  times = λ b x y s r. rw ((note_timing-Framed py b x y s).asked) r;
  sidelines = λ b s r. r;
}

pub route-AskedOnce :
    (py : PythonOps) (sql : SqlOps) (w : World) (query : String) (params : Option Params)
    (s : QueryRouter)
    → AskedOnce query s.asked (route py sql w query params s).1.asked
route-AskedOnce py sql w query params s =
    route-After py sql w query params (λ s'. s'.asked ≡ s.asked)
      (λ s'. AskedOnce query s.asked s'.asked) (asked-Changes py (λ l. l ≡ s.asked))
      (asked-Changes py (AskedOnce query s.asked)) (λ s' same. inl same)
      (λ s' same. inr (ap (λ (l : List String). query ∷ l) same)) s refl
