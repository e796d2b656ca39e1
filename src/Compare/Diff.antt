-- ===== src/Compare/Diff.antt =====
-- router/adapt.py: `results_diff`, which cells or rows of two unequal results disagree. `none` is an
-- exception: an IndexError, or the OverflowError of rounding an infinity to the tolerance grid.
pub mod Places
pub mod Multiset
use synno_db.Base.{
  ℕ, zero, suc, ◌+◌, ◌-◌, String, Bool, true, false, not, ◌&&◌, ◌||◌, Option, none, some, List, [],
  ◌∷◌, ◌++◌, length, get_elem?, map, get_or_else, ◌==◌, ltb, leb, str_eq, if◌then◌else◌,
}
use synno_db.Base.Int.{ℤ, pos, negsuc, eq_ℤ}
use synno_db.Python.{Float, Cell, null, float, exact, PythonOps}
use synno_db.Compare.Cells.{Row, Table, rows, cell_equal, row_equal}
use synno_db.Compare.Tables.{truncated}
use Places.{
  Diff, DiffValue, Report, no_diffs, key_diffs, placed_diffs, same_names, row, absent, name_list,
  rows_of,
}
use Multiset.{multiset_diff}

-- the candidates without the first that equals r; `none` when there is no such row
unfoldable pub consume : PythonOps → Float → Row → List Row → Option (List Row)
consume py tol r [] = none
consume py tol r (c ∷ cs) =
    let rest = consume py tol r cs in
    if row_equal py tol r c
    then some cs
    else elim rest [ none ↦ none | some left ↦ some (c ∷ left) ]

unfoldable pub strays : PythonOps → Float → List Row → List Row → List Row
unfolding consume
strays py tol [] pool = []
strays py tol (r ∷ rs) pool = elim (consume py tol r pool) [
  | none ↦ r ∷ strays py tol rs pool
  | some left ↦ strays py tol rs left
]

abbrev stray_diff : Row → Diff
stray_diff r = record {
  place = none;
  column = "<row not in the ranking>";
  bespoke = row r;
  duckdb = absent;
}

abbrev pub first {ℓ} : {A : Type ℓ} → ℕ → List A → List A
first zero xs = []
first (suc n) [] = []
first (suc n) (x ∷ xs) = x ∷ first n xs

unfoldable pub data_diff :
    PythonOps → Float → ℕ → Option (List Row) → List Row → List Row → Option Report
unfolding strays multiset_diff
data_diff py tol limit none rows_b rows_r = multiset_diff py tol limit rows_b rows_r
data_diff py tol limit (some pool) rows_b rows_r =
    let found = strays py tol rows_b pool in
    some (record { diffs = map stray_diff (first limit found); total = length found })

unfoldable pub keyed_diff :
    PythonOps
    → Float
    → ℕ
    → List String
    → List ℕ
    → Option (List Row)
    → List Row
    → List Row
    → Option Report
unfolding key_diffs data_diff
keyed_diff py tol limit names keys pool rows_b rows_r =
    elim (key_diffs py tol limit names keys 0 rows_b rows_r no_diffs) [
      | none ↦ none
      | some r ↦ if r.total == 0 then data_diff py tol limit pool rows_b rows_r else some r
    ]

unfoldable pub rows_diff :
    PythonOps
    → Float
    → ℕ
    → List String
    → Bool
    → Option (List ℕ)
    → Option ℕ
    → Option (List Row)
    → List Row
    → List Row
    → Option Report
unfolding keyed_diff placed_diffs multiset_diff
rows_diff py tol limit names false order_keys row_limit candidates rows_b rows_r =
    multiset_diff py tol limit rows_b rows_r
rows_diff py tol limit names true (some (k ∷ ks)) row_limit candidates rows_b rows_r =
    keyed_diff py tol limit names (k ∷ ks) (truncated row_limit candidates (length rows_r)) rows_b
      rows_r
rows_diff py tol limit names true _ row_limit candidates rows_b rows_r =
    some (placed_diffs py tol limit names 0 rows_b rows_r no_diffs)

abbrev structural : String → DiffValue → DiffValue → Report
structural column x y = record {
  diffs = record { place = none; column = column; bespoke = x; duckdb = y } ∷ [];
  total = 1;
}

-- results_diff
unfoldable pub results_diff :
    PythonOps
    → Float
    → ℕ
    → Table
    → Table
    → Bool
    → Option (List ℕ)
    → Option ℕ
    → Option (List Row)
    → Option Report
unfolding rows_diff
results_diff py tol limit bespoke reference ordered order_keys row_limit candidates =
    if not (same_names bespoke.column_names reference.column_names)
    then some
        (structural "<columns>" (name_list bespoke.column_names) (name_list reference.column_names))
    else if not (bespoke.num_rows == reference.num_rows)
    then some (structural "<row count>" (rows_of bespoke.num_rows) (rows_of reference.num_rows))
    else rows_diff py tol limit bespoke.column_names ordered order_keys row_limit candidates
        (rows bespoke) (rows reference)
