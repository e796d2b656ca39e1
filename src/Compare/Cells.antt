-- ===== src/Compare/Cells.antt =====
-- router/adapt.py: tables, rows, and the comparison of cells and rows.
-- A pyarrow table is its column names, its columns and its row count.
use synno_db.Base.{
  ℕ, String, Bool, true, false, ◌&&◌, ◌||◌, Option, none, some, List, [], ◌∷◌, map, length, get_or,
  get_elem?, ◌==◌, if◌then◌else◌, ◌+◌,
}
use synno_db.Python.{Float, Cell, null, PythonOps, is_null, is_float}

abbrev pub Row : Type 0
Row = List Cell

pub record Table : Type 0 where
  pub column_names : List String
  pub columns : List (List Cell)
  pub num_rows : ℕ

abbrev pub num_columns : Table → ℕ
num_columns t = length t.columns

-- zip with one more column in front, which stops at the shorter one
unfoldable pub zip_column : List Cell → List Row → List Row
zip_column [] rs = []
zip_column (c ∷ cs) [] = []
zip_column (c ∷ cs) (r ∷ rs) = (c ∷ r) ∷ zip_column cs rs

-- list(zip(*columns)), which is empty when there is no column
unfoldable pub zip_columns : List (List Cell) → List Row
zip_columns [] = []
zip_columns (c ∷ []) = map (λ x. x ∷ []) c
zip_columns (c ∷ d ∷ cs) = zip_column c (zip_columns (d ∷ cs))

-- _rows
unfoldable pub rows : Table → List Row
unfolding zip_columns zip_column
rows t = zip_columns t.columns

-- all(f(x, y) for x, y in zip(xs, ys))
abbrev pub all2 {ℓ κ} : {A : Type ℓ} {B : Type κ} → (A → B → Bool) → List A → List B → Bool
all2 f [] ys = true
all2 f (x ∷ xs) [] = true
all2 f (x ∷ xs) (y ∷ ys) = f x y && all2 f xs ys

-- math.isclose(float(x), float(y)), or x == y when float() raises
abbrev pub close_or_eq : PythonOps → Float → Cell → Cell → Bool
close_or_eq py tol x y = elim (py.to_float x) [
  | none ↦ py.eq x y
  | some a ↦ elim (py.to_float y) [ none ↦ py.eq x y | some b ↦ py.isclose tol a b ]
]

-- _cell_equal
unfoldable pub cell_equal : PythonOps → Float → Cell → Cell → Bool
cell_equal py tol x y =
    if is_null x || is_null y
    then is_null x && is_null y
    else if is_float x || is_float y
    then close_or_eq py tol x y
    else py.eq x y

-- _row_equal
unfoldable pub row_equal : PythonOps → Float → Row → Row → Bool
row_equal py tol r s = length r == length s && all2 (cell_equal py tol) r s

-- _float_close
unfoldable pub float_close : PythonOps → Float → Cell → Cell → Bool
float_close py tol x y =
    if is_null x || is_null y then is_null x && is_null y else close_or_eq py tol x y

-- the inner `all` over one pair of float tuples
unfoldable pub vec_close : PythonOps → Float → Row → Row → Bool
vec_close py tol va vb = all2 (float_close py tol) va vb

-- A set of column indices. Python fixes no order of iteration for it; the program iterates over one
-- set only, for both tables, so the order is not observable.
abbrev pub has_index : List ℕ → ℕ → Bool
has_index [] i = false
has_index (j ∷ s) i = i == j || has_index s i

abbrev pub add_index : List ℕ → ℕ → List ℕ
add_index [] i = i ∷ []
add_index (j ∷ s) i = if i == j then j ∷ s else j ∷ add_index s i

-- one row of _float_columns, from column i on
unfoldable pub mark_floats : Row → ℕ → List ℕ → List ℕ
mark_floats [] i found = found
mark_floats (v ∷ r) i found =
    mark_floats r (i + 1) (if is_float v then add_index found i else found)

-- _float_columns
unfoldable pub float_columns : List Row → List ℕ → List ℕ
unfolding mark_floats
float_columns [] found = found
float_columns (r ∷ rs) found = float_columns rs (mark_floats r 0 found)

-- r[i]. The rows of a table are rectangular and i is a column of it.
abbrev pub cell_at : Row → ℕ → Cell
cell_at r i = get_or r i null

abbrev pub pick : List ℕ → Row → Row
pick idx r = map (cell_at r) idx

-- tuple(r[i] for i in idx), with the IndexError of an index out of range
unfoldable pub pick? : List ℕ → Row → Option Row
pick? [] r = some []
pick? (i ∷ idx) r = elim (get_elem? r i) [
  | none ↦ none
  | some c ↦ elim (pick? idx r) [ none ↦ none | some cs ↦ some (c ∷ cs) ]
]
