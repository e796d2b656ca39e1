-- ===== src/Compare/Tables.antt =====
-- router/adapt.py: `results_equal`, the verdict of the cross-check. `none` stands for an IndexError.
use synno_db.Base.{
  ℕ, Bool, true, false, not, Option, none, some, List, [], ◌∷◌, length, ◌==◌, if◌then◌else◌,
}
use synno_db.Python.{Float, PythonOps}
use synno_db.Compare.Cells.{Row, Table, num_columns, rows, row_equal, all2, pick?}
use synno_db.Compare.Groups.{multiset_equal, multiset_contained}

-- the loop over zip(rows_a, rows_b) that compares the ORDER BY keys place by place
unfoldable pub keys_agree : PythonOps → Float → List ℕ → List Row → List Row → Option Bool
keys_agree py tol order_keys [] bs = some true
keys_agree py tol order_keys (a ∷ as') [] = some true
keys_agree py tol order_keys (a ∷ as') (b ∷ bs) =
    let rest = keys_agree py tol order_keys as' bs in
    elim (pick? order_keys a) [
      | none ↦ none
      | some ka ↦ elim (pick? order_keys b) [
        | none ↦ none
        | some kb ↦ if row_equal py tol ka kb then rest else some false
      ]
    ]

-- the candidates when the result was truncated, none otherwise
abbrev pub truncated : Option ℕ → Option (List Row) → ℕ → Option (List Row)
truncated none candidates n = none
truncated (some limit) none n = none
truncated (some limit) (some pool) n = if n == limit then some pool else none

unfoldable pub compare_keyed :
    PythonOps → Float → List ℕ → Option ℕ → Option (List Row) → List Row → List Row → Option Bool
compare_keyed py tol order_keys row_limit candidates rows_a rows_b =
    elim (keys_agree py tol order_keys rows_a rows_b) [
      | none ↦ none
      | some false ↦ some false
      | some true ↦ elim (truncated row_limit candidates (length rows_b)) [
        | some pool ↦ some (multiset_contained py tol rows_a pool)
        | none ↦ some (multiset_equal py tol rows_a rows_b)
      ]
    ]

unfoldable pub compare_rows :
    PythonOps
    → Float
    → Bool
    → Option (List ℕ)
    → Option ℕ
    → Option (List Row)
    → List Row
    → List Row
    → Option Bool
compare_rows py tol false order_keys row_limit candidates rows_a rows_b =
    some (multiset_equal py tol rows_a rows_b)
compare_rows py tol true (some (k ∷ ks)) row_limit candidates rows_a rows_b =
    compare_keyed py tol (k ∷ ks) row_limit candidates rows_a rows_b
compare_rows py tol true _ row_limit candidates rows_a rows_b =
    some (all2 (row_equal py tol) rows_a rows_b)

-- results_equal
unfoldable pub results_equal :
    PythonOps
    → Float
    → Table
    → Table
    → Bool
    → Option (List ℕ)
    → Option ℕ
    → Option (List Row)
    → Option Bool
results_equal py tol bespoke reference ordered order_keys row_limit candidates =
    if not (num_columns bespoke == num_columns reference)
    then some false
    else if not (bespoke.num_rows == reference.num_rows)
    then some false
    else compare_rows py tol ordered order_keys row_limit candidates (rows bespoke) (rows reference)
