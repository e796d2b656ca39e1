-- ===== src/Compare/Widen.antt =====
-- router/adapt.py: `candidate_superset`, every row that a truncated window could have held.
-- `fetch_widened` runs the query on DuckDB, so it is an argument; an IndexError is `failed`.
use synno_db.Base.{
  ℕ, zero, suc, ◌+◌, ◌*◌, true, false, not, ◌||◌, Option, none, some, List, [], ◌∷◌, length, ◌==◌,
  ltb, leb, if◌then◌else◌,
}
use synno_db.Python.{Float, PythonOps}
use synno_db.Compare.Cells.{Row, Table, rows, row_equal, pick?}

-- _MAX_WIDEN_FACTOR
abbrev pub max_widen_factor : ℕ
max_widen_factor = 1024

pub data Superset : Type 0 where
  failed : Superset
  strict : Superset
  pool : List Row → Superset

abbrev pub last_row : Row → List Row → Row
last_row r [] = r
last_row r (s ∷ rs) = last_row s rs

-- one round's verdict on the widened rows; `again` is the next round
unfoldable pub judge : PythonOps → Float → List ℕ → Row → ℕ → List Row → Superset → Superset
judge py tol order_keys last_key limit [] again = strict
judge py tol order_keys last_key limit (w ∷ ws) again =
    if ltb (length (w ∷ ws)) limit then pool (w ∷ ws) else elim (pick? order_keys (last_row w ws)) [
      | none ↦ failed
      | some key ↦ if row_equal py tol key last_key then again else pool (w ∷ ws)
    ]

-- while limit <= window * _MAX_WIDEN_FACTOR; each round doubles the limit
unfoldable pub widen : PythonOps → Float → (ℕ → Option Table) → List ℕ → Row → ℕ → ℕ → ℕ → Superset
unfolding judge
widen py tol fetch order_keys last_key window zero limit = strict
widen py tol fetch order_keys last_key window (suc fuel) limit =
    elim (leb limit (window * max_widen_factor)) [
      | false ↦ strict
      | true ↦
          let again = widen py tol fetch order_keys last_key window fuel (limit * 2) in
          elim (fetch (limit * 2)) [
            | none ↦ strict
            | some widened ↦ judge py tol order_keys last_key (limit * 2) (rows widened) again
          ]
    ]

-- Eleven doublings lead past window * 1024, so twelve rounds of fuel are never used up.
abbrev pub widen_fuel : ℕ
widen_fuel = 12

unfoldable pub superset_of :
    PythonOps → Float → (ℕ → Option Table) → List ℕ → ℕ → ℕ → List Row → Superset
superset_of py tol fetch order_keys row_limit row_offset [] = strict
superset_of py tol fetch order_keys row_limit row_offset (r ∷ rs) =
    if length order_keys == 0 || not (length (r ∷ rs) == row_limit)
    then strict
    else elim (pick? order_keys (last_row r rs)) [
      | none ↦ failed
      | some last_key ↦
          let window = row_offset + row_limit in
          widen py tol fetch order_keys last_key window widen_fuel window
    ]

-- candidate_superset; `strict` is None
unfoldable pub candidate_superset :
    PythonOps → Float → (ℕ → Option Table) → Table → List ℕ → Option ℕ → ℕ → Superset
unfolding superset_of
candidate_superset py tol fetch reference order_keys none row_offset = strict
candidate_superset py tol fetch reference order_keys (some row_limit) row_offset =
    superset_of py tol fetch order_keys row_limit row_offset (rows reference)
