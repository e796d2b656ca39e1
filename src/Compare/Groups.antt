-- ===== src/Compare/Groups.antt =====
-- router/adapt.py: rows grouped by their exact columns, and the comparison of two multisets of rows.
use synno_db.Base.{
  ℕ, Bool, true, false, not, ◌&&◌, ◌||◌, Option, none, some, List, [], ◌∷◌, ◌++◌, length,
  range_from, ◌==◌, ltb, is_some, if◌then◌else◌,
}
use synno_db.Python.{Float, PythonOps}
use synno_db.Compare.Cells.{Row, all2, float_columns, has_index, pick}
use synno_db.Compare.Matching.{width, match_float_vecs, match_float_vecs_subset}

-- a dictionary from keys to lists of float tuples, in insertion order
abbrev pub Groups : Type 0
Groups = List (Row × List Row)

-- == on tuples
abbrev pub key_eq : PythonOps → Row → Row → Bool
key_eq py k l = length k == length l && all2 py.eq k l

unfoldable pub group_of : PythonOps → Row → Groups → Option (List Row)
group_of py k [] = none
group_of py k ((l, vs) ∷ g) = if key_eq py k l then some vs else group_of py k g

-- groups[k].append(v) on a defaultdict(list)
unfoldable pub add_to_group : PythonOps → Row → Row → Groups → Groups
add_to_group py k v [] = (k, v ∷ []) ∷ []
add_to_group py k v ((l, vs) ∷ g) =
    let rest = add_to_group py k v g in
    if key_eq py k l then (l, vs ++ v ∷ []) ∷ g else (l, vs) ∷ rest

-- [i for i in range(ncols) if i not in float_idx]
unfoldable pub exact_columns : List ℕ → List ℕ → List ℕ
exact_columns float_idx [] = []
exact_columns float_idx (i ∷ is) =
    let rest = exact_columns float_idx is in if has_index float_idx i then rest else i ∷ rest

-- the loop `for r in rows: groups[key(r)].append(fvec(r))`
unfoldable pub group_rows : PythonOps → List ℕ → List ℕ → List Row → Groups → Groups
unfolding add_to_group
group_rows py exact_idx float_idx [] g = g
group_rows py exact_idx float_idx (r ∷ rs) g =
    group_rows py exact_idx float_idx rs (add_to_group py (pick exact_idx r) (pick float_idx r) g)

-- every key of g is a key of h
unfoldable pub keys_within : PythonOps → Groups → Groups → Bool
keys_within py [] h = true
keys_within py ((k, _) ∷ g) h = is_some (group_of py k h) && keys_within py g h

-- the last loop of _multiset_equal
unfoldable pub groups_match : PythonOps → Float → List ℕ → Groups → Groups → Bool
groups_match py tol float_idx [] h = true
groups_match py tol float_idx ((k, va) ∷ g) h = elim (group_of py k h) [
  | none ↦ false
  | some vb ↦
      length va == length vb
      && (length float_idx == 0 || match_float_vecs py tol va vb)
      && groups_match py tol float_idx g h
]

-- `_float_columns(rows_a) | _float_columns(rows_b)`, in the order in which the columns are found, where
-- the source has the order of a set in CPython
unfoldable pub float_indices : List Row → List Row → List ℕ
unfolding float_columns
float_indices rows_a rows_b = float_columns rows_b (float_columns rows_a [])

unfoldable pub exact_indices : List Row → List Row → List ℕ
unfolding exact_columns float_indices
exact_indices rows_a rows_b =
    exact_columns (float_indices rows_a rows_b) (range_from 0 (width rows_a))

unfoldable pub groups : PythonOps → List Row → List Row → List Row → Groups
unfolding group_rows
groups py rows_a rows_b rs =
    group_rows py (exact_indices rows_a rows_b) (float_indices rows_a rows_b) rs []

-- _multiset_equal
unfoldable pub multiset_equal : PythonOps → Float → List Row → List Row → Bool
multiset_equal py tol [] rows_b = length rows_b == 0
multiset_equal py tol (r ∷ rs) rows_b =
    let rows_a = r ∷ rs in
    let groups_a = groups py rows_a rows_b rows_a in
    let groups_b = groups py rows_a rows_b rows_b in
    keys_within py groups_a groups_b
    && keys_within py groups_b groups_a
    && groups_match py tol (float_indices rows_a rows_b) groups_a groups_b

-- the last loop of _multiset_contained
unfoldable pub groups_within : PythonOps → Float → List ℕ → Groups → Groups → Bool
groups_within py tol float_idx [] h = true
groups_within py tol float_idx ((k, va) ∷ g) h = elim (group_of py k h) [
  | none ↦ false
  | some vb ↦
      not (ltb (length vb) (length va))
      && (length float_idx == 0 || match_float_vecs_subset py tol va vb)
      && groups_within py tol float_idx g h
]

-- _multiset_contained
unfoldable pub multiset_contained : PythonOps → Float → List Row → List Row → Bool
multiset_contained py tol [] rows_b = true
multiset_contained py tol (r ∷ rs) rows_b =
    let rows_a = r ∷ rs in
    groups_within py tol (float_indices rows_a rows_b) (groups py rows_a rows_b rows_a)
      (groups py rows_a rows_b rows_b)
