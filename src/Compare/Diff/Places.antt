-- ===== src/Compare/Diff/Places.antt =====
-- router/adapt.py, `results_diff`: the cells that differ, place by place. `none` is an IndexError.
use synno_db.Base.{
  ℕ, ◌+◌, String, Bool, true, false, ◌&&◌, Option, none, some, List, [], ◌∷◌, ◌++◌, length,
  get_elem?, ltb, str_eq, if◌then◌else◌,
}
use synno_db.Python.{Float, Cell, PythonOps}
use synno_db.Compare.Cells.{Row, cell_equal}

pub data DiffValue : Type 0 where
  cell : Cell → DiffValue
  row : Row → DiffValue
  name_list : List String → DiffValue
  rows_of : ℕ → DiffValue
  absent : DiffValue

-- (row, column, bespoke, duckdb); row -1 is `none`
pub record Diff : Type 0 where
  pub place : Option ℕ
  pub column : String
  pub bespoke : DiffValue
  pub duckdb : DiffValue

-- the diffs that are reported, and how many there are
pub record Report : Type 0 where
  pub diffs : List Diff
  pub total : ℕ

abbrev pub no_diffs : Report
no_diffs = record { diffs = []; total = 0 }

-- total += 1, and an append below the limit
unfoldable pub note_diff : ℕ → Diff → Report → Report
note_diff limit d r = record {
  diffs = if ltb (length r.diffs) limit then r.diffs ++ d ∷ [] else r.diffs;
  total = r.total + 1;
}

abbrev pub same_names : List String → List String → Bool
same_names [] [] = true
same_names (a ∷ as') (b ∷ bs) = str_eq a b && same_names as' bs
same_names _ _ = false

abbrev pub cell_diff : ℕ → String → Cell → Cell → Diff
cell_diff i column x y = record {
  place = some i;
  column = column;
  bespoke = cell x;
  duckdb = cell y;
}

-- one key cell of row i; bnames[ci] is read when the cells differ
unfoldable pub key_cell :
    PythonOps → Float → ℕ → List String → ℕ → ℕ → Row → Row → Report → Option Report
unfolding note_diff
key_cell py tol limit names ci i rb rr acc = elim (get_elem? rb ci) [
  | none ↦ none
  | some x ↦ elim (get_elem? rr ci) [
    | none ↦ none
    | some y ↦ if cell_equal py tol x y then some acc else elim (get_elem? names ci) [
      | none ↦ none
      | some column ↦ some (note_diff limit (cell_diff i column x y) acc)
    ]
  ]
]

unfoldable pub key_cell_diffs :
    PythonOps → Float → ℕ → List String → List ℕ → ℕ → Row → Row → Report → Option Report
unfolding key_cell
key_cell_diffs py tol limit names [] i rb rr acc = some acc
key_cell_diffs py tol limit names (ci ∷ keys) i rb rr acc =
    elim (key_cell py tol limit names ci i rb rr acc) [
      | none ↦ none
      | some acc' ↦ key_cell_diffs py tol limit names keys i rb rr acc'
    ]

unfoldable pub key_diffs :
    PythonOps → Float → ℕ → List String → List ℕ → ℕ → List Row → List Row → Report → Option Report
unfolding key_cell_diffs
key_diffs py tol limit names keys i [] rs acc = some acc
key_diffs py tol limit names keys i (b ∷ bs) [] acc = some acc
key_diffs py tol limit names keys i (b ∷ bs) (r ∷ rs) acc =
    elim (key_cell_diffs py tol limit names keys i b r acc) [
      | none ↦ none
      | some acc' ↦ key_diffs py tol limit names keys (i + 1) bs rs acc'
    ]

-- zip(bnames, rb, rr)
unfoldable pub row_diffs : PythonOps → Float → ℕ → ℕ → List String → Row → Row → Report → Report
unfolding note_diff
row_diffs py tol limit i (c ∷ names) (x ∷ rb) (y ∷ rr) acc =
    row_diffs py tol limit i names rb rr
      (if cell_equal py tol x y then acc else note_diff limit (cell_diff i c x y) acc)
row_diffs py tol limit i _ _ _ acc = acc

unfoldable pub placed_diffs :
    PythonOps → Float → ℕ → List String → ℕ → List Row → List Row → Report → Report
unfolding row_diffs
placed_diffs py tol limit names i [] rs acc = acc
placed_diffs py tol limit names i (b ∷ bs) [] acc = acc
placed_diffs py tol limit names i (b ∷ bs) (r ∷ rs) acc =
    placed_diffs py tol limit names (i + 1) bs rs (row_diffs py tol limit i names b r acc)
