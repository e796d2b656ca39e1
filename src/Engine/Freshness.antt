-- ===== src/Engine/Freshness.antt =====
-- router/process_engine.py: a table that `run` returns was written during that run.
use synno_db.Base.{
  String, ◌≡◌, refl, sym, ◌∙◌, ap, inl, inr, Bool, true, false, Option, none, some, List, [], ◌∷◌,
  All, Option-cases, arith, str_eq, eq_iff, if◌then◌else◌,
}
use synno_db.Base.Dict.{Dict, get, put, remove, get-put, get-remove}
use synno_db.Python.{Float, PythonOps}
use synno_db.Python.Faults.{Fault, Result, ok, err, Result-cases, ok_injective, >>=-eq-ok}
use synno_db.Compare.Cells.{Table}
use synno_db.Engine.Process.{
  Content, arrow, corrupt, QueryResult, Batch, ProcessEngine, start, put_all, run_batch, has_error,
  server_time, read_result, take_result, then_do, run,
}

-- What the engine writes does not depend on what was there, for a file that it writes or that agrees.
pub get-put_all :
    (written f g : Dict Content) (k : String)
    → get f k ≡ get g k
    → get (put_all written f) k ≡ get (put_all written g) k
get-put_all [] f g k same = same
get-put_all ((j, c) ∷ written) f g k same =
    get-put_all written (put f j c) (put g j c) k
      (rw (get-put f j k c, get-put g j k c) (ap (λ o. if str_eq j k then some c else o) same))

if-eq-ok {ℓ} :
    {A : Type ℓ} (b : Bool) (f : Fault) (r : Result A) {a : A}
    → (if b then err f else r) ≡ ok a
    → (b ≡ false) × (r ≡ ok a)
if-eq-ok true f r h = absurd (cc)
if-eq-ok false f r h = (refl, h)

server_time-no_errors :
    (py : PythonOps) (req_id : String) (rs : List QueryResult) (acc : Option Float)
    {ms : Option Float}
    → server_time py req_id rs acc ≡ ok ms
    → All (λ r. has_error r ≡ false) rs
unfolding server_time
server_time-no_errors py req_id [] acc h = tt
server_time-no_errors py req_id (r ∷ rs) acc h =
    let (quiet, rest) = if-eq-ok (has_error r) _ _ h in
    (quiet, server_time-no_errors py req_id rs _ rest)

pub then_do-eq-ok {ℓ} :
    {A : Type ℓ} (out : Result (Unit {0}) × ProcessEngine)
    (f : ProcessEngine → Result A × ProcessEngine) {a : A}
    → (then_do out f).0 ≡ ok a
    → (out.0 ≡ ok tt) × (then_do out f ≡ f out.1)
then_do-eq-ok (ok u, e) f h = (refl, refl)
then_do-eq-ok (err x, e) f h = absurd (cc)

-- What a run that returned a table met and left.
pub record Fresh (req_id : String) (b : Batch) (table : Table) (e1 : ProcessEngine) : Type 0 where
  pub ran : b.raised ≡ none
  pub quiet : All (λ r. has_error r ≡ false) b.query_results
  pub written : get (put_all b.written []) req_id ≡ some (arrow table)
  pub deleted : get e1.files req_id ≡ none

read_result-Read :
    (req_id : String) (e : ProcessEngine) (table : Table)
    → (read_result req_id e).0 ≡ ok table
    → (get e.files req_id ≡ some (arrow table)) × (get (read_result req_id e).1.files req_id ≡ none)
unfolding read_result
read_result-Read req_id e table h = elim (Option-cases (get e.files req_id)) [
  | inl absent ↦ let clash : err _ ≡ ok table = rw (absent, read_result) at h in absurd (cc)
  | inr (corrupt, found) ↦
      let clash : err _ ≡ ok table = rw (found, read_result) at h in absurd (cc)
  | inr (arrow t, found) ↦
      let same : ok t ≡ ok table = rw (found, read_result) at h in
      let gone : get (remove e.files req_id) req_id ≡ none =
        rw (get-remove e.files req_id req_id) (ground (arith, eq_iff req_id req_id)) in
      (found ∙ ap (λ c. some (arrow c)) (ok_injective same), rw (found, read_result) gone)
]

run_batch-eq-ok :
    (b : Batch) (e : ProcessEngine)
    → (run_batch b e).0 ≡ ok tt
    → (b.raised ≡ none) × ((run_batch b e).1.files ≡ put_all b.written e.files)
unfolding run_batch
run_batch-eq-ok b e h = elim (Option-cases b.raised) [
  | inl calm ↦ (calm, rw (calm, run_batch) refl)
  | inr (f, raised) ↦ let clash : err f ≡ ok tt = rw (raised, run_batch) at h in absurd (cc)
]

take_result-Read :
    (py : PythonOps) (req_id : String) (b : Batch) (e : ProcessEngine) (table : Table)
    (ms : Option Float)
    → (take_result py req_id b e).0 ≡ ok (table, ms)
    → All (λ r. has_error r ≡ false) b.query_results
      × (get e.files req_id ≡ some (arrow table))
      × (get (take_result py req_id b e).1.files req_id ≡ none)
unfolding take_result
take_result-Read py req_id b e table ms h =
    elim (Result-cases (server_time py req_id b.query_results none)) [
      | inr (f, failing) ↦
          let clash : err f ≡ ok (table, ms) = rw (failing, take_result) at h in absurd (cc)
      | inl (time, timed) ↦
          let (t, got, pair) =
            >>=-eq-ok (read_result req_id e).0 (λ t. ok (t, time)) (rw (timed, take_result) at h) in
          let same : t ≡ table = ap (λ (p : Table × Option Float). p.0) (ok_injective pair) in
          let (found, gone) = read_result-Read req_id e table (got ∙ ap ok same) in
          (
            server_time-no_errors py req_id b.query_results none timed,
            found,
            rw (timed, take_result) gone,
          )
    ]

-- Whatever result files earlier runs left, crashed ones included, a table that `run` returns is the one
-- that the engine wrote under this req_id during this run; the engine reported no error for any query
-- of the batch, and the file is deleted.
pub run-Fresh :
    (py : PythonOps) (req_id : String) (b : Batch) (e : ProcessEngine) (table : Table)
    (ms : Option Float)
    → (run py req_id b e).0 ≡ ok (table, ms)
    → Fresh req_id b table (run py req_id b e).1
unfolding run get
run-Fresh py req_id b e table ms h =
    let started : ProcessEngine = (start b e).1 in
    let clean : ProcessEngine = record started { files = remove started.files req_id } in
    let (ok_start, after_start) = then_do-eq-ok (start b e) _ h in
    let h1 = sym (ap (λ o. o.0) after_start) ∙ h in
    let (ok_batch, after_batch) = then_do-eq-ok (run_batch b clean) (take_result py req_id b) h1 in
    let h2 = sym (ap (λ o. o.0) after_batch) ∙ h1 in
    let whole = after_start ∙ after_batch in
    let (ran, files) = run_batch-eq-ok b clean ok_batch in
    let (quiet, found, gone) = take_result-Read py req_id b (run_batch b clean).1 table ms h2 in
    let free : get clean.files req_id ≡ get [] req_id =
      rw (get-remove started.files req_id req_id) (ground (arith, eq_iff req_id req_id)) in
    record {
      ran = ran;
      quiet = quiet;
      written =
          sym (get-put_all b.written clean.files [] req_id free)
          ∙ ap (λ (fs : Dict Content). get fs req_id) (sym files)
          ∙ found;
      deleted = ap (λ o. get o.1.files req_id) whole ∙ gone;
    }
