-- ===== src/Compare/Matching.antt =====
-- router/adapt.py: one-to-one matching of tuples of floats within tolerance. Up to 64 rows with
-- several columns it is Kuhn's augmenting search; else both sides are sorted and paired.
use synno_db.Base.{
  ℕ, zero, suc, ◌+◌, Bool, true, false, not, ◌&&◌, ◌||◌, Option, none, some, List, [], ◌∷◌, map,
  length, get_or, set, replicate, range_from, ◌==◌, ltb, leb, if◌then◌else◌,
}
use synno_db.Python.{Float, Cell, null, float, exact, Kind, PythonOps, is_null, is_float}
use synno_db.Compare.Cells.{Row, vec_close, all2}

-- _EXACT_MATCH_CAP
abbrev pub exact_match_cap : ℕ
exact_match_cap = 64

-- (x is None, x is NaN, x or 0.0)
pub record SortKey : Type 0 where
  pub missing : Bool
  pub nan : Bool
  pub value : Cell

-- isinstance(x, (int, float))
abbrev is_integer : Kind → Bool
is_integer Kind.integer = true
is_integer _ = false

abbrev is_number : Cell → Bool
is_number null = false
is_number (float _) = true
is_number (exact v) = is_integer v.kind

abbrev pub sort_key : PythonOps → Cell → SortKey
sort_key py x = record {
  missing = is_null x;
  nan = is_float x && not (py.eq x x);
  value = if is_number x && py.eq x x then x else float py.zero;
}

-- _vec_sort_key
unfoldable pub vec_sort_key : PythonOps → Row → List SortKey
vec_sort_key py v = map (sort_key py) v

abbrev same_bool : Bool → Bool → Bool
same_bool true b = b
same_bool false b = not b

-- `<` on tuples: at the first place where they differ
unfoldable pub key_lt : PythonOps → List SortKey → List SortKey → Bool
key_lt py [] [] = false
key_lt py [] (l ∷ ls) = true
key_lt py (k ∷ ks) [] = false
key_lt py (k ∷ ks) (l ∷ ls) =
    if not (same_bool k.missing l.missing)
    then l.missing
    else if not (same_bool k.nan l.nan)
    then l.nan
    else if not (py.eq k.value l.value)
    then py.number_lt k.value l.value
    else key_lt py ks ls

-- sorted(xs, key=_vec_sort_key), which is stable: x goes behind what is not greater
unfoldable pub insert_sorted : PythonOps → Row → List Row → List Row
unfolding vec_sort_key key_lt
insert_sorted py x [] = x ∷ []
insert_sorted py x (y ∷ ys) =
    let rest = insert_sorted py x ys in
    if key_lt py (vec_sort_key py x) (vec_sort_key py y) then x ∷ y ∷ ys else y ∷ rest

unfoldable pub sort_from : PythonOps → List Row → List Row → List Row
unfolding insert_sorted
sort_from py done [] = done
sort_from py done (x ∷ xs) = sort_from py (insert_sorted py x done) xs

unfoldable pub sort_vecs : PythonOps → List Row → List Row
unfolding sort_from
sort_vecs py xs = sort_from py [] xs

-- compat[i][j]
abbrev pub Compat : Type 0
Compat = List (List Bool)

abbrev pub compatible : Compat → ℕ → ℕ → Bool
compatible compat i j = get_or (get_or compat i []) j false

unfoldable pub compat_table : PythonOps → Float → List Row → List Row → Compat
compat_table py tol a b = map (λ va. map (vec_close py tol va) b) a

-- match[j], with none for -1
abbrev pub Match : Type 0
Match = List (Option ℕ)

-- what `augment` returns, with `seen` and `match` as it leaves them
pub record Tried : Type 0 where
  pub found : Bool
  pub seen : List Bool
  pub matched : Match

-- `for j in range(n)` of `augment`; `again` is the recursive call of `augment`
unfoldable pub try_columns :
    (ℕ → List Bool → Match → Tried) → Compat → ℕ → List ℕ → List Bool → Match → Tried
try_columns again compat i [] seen m = record { found = false; seen = seen; matched = m }
try_columns again compat i (j ∷ js) seen m =
    elim (compatible compat i j && not (get_or seen j true)) [
      | false ↦ try_columns again compat i js seen m
      | true ↦
          let seen' = set seen j true in
          elim (get_or m j none) [
            | none ↦ record { found = true; seen = seen'; matched = set m j (some i) }
            | some k ↦
                let t = again k seen' m in
                elim t.found [
                  | true ↦ record {
                    found = true;
                    seen = t.seen;
                    matched = set t.matched j (some i);
                  }
                  | false ↦ try_columns again compat i js t.seen t.matched
                ]
          ]
    ]

-- augment(i, seen). Every recursive call marks one more column, so fuel above their number is enough.
unfoldable pub augment : Compat → ℕ → ℕ → ℕ → List Bool → Match → Tried
augment compat n zero i seen m = record { found = false; seen = seen; matched = m }
augment compat n (suc fuel) i seen m =
    try_columns (augment compat n fuel) compat i (range_from 0 n) seen m

-- all(augment(i, [False] * n) for i in is), and the matching that it leaves
unfoldable pub augment_all : Compat → ℕ → List ℕ → Match → Bool × Match
augment_all compat n [] m = (true, m)
augment_all compat n (i ∷ is) m =
    let t = augment compat n (n + 1) i (replicate n false) m in
    elim t.found [ true ↦ augment_all compat n is t.matched | false ↦ (false, t.matched) ]

-- the exact branch, over the rows of a and the rows of b as columns
unfoldable pub match_exact : PythonOps → Float → List Row → List Row → Bool
match_exact py tol a b =
    (augment_all (compat_table py tol a b) (length b) (range_from 0 (length a))
      (replicate (length b) none)).0

abbrev pub width : List Row → ℕ
width [] = 0
width (r ∷ _) = length r

-- _match_float_vecs
unfoldable pub match_float_vecs : PythonOps → Float → List Row → List Row → Bool
match_float_vecs py tol a b =
    if length a == 0
    then true
    else if leb (width a) 1 || ltb exact_match_cap (length a)
    then all2 (vec_close py tol) (sort_vecs py a) (sort_vecs py b)
    else match_exact py tol a b

-- the `while` loop of the sorted branch: what stands behind the first tuple that fits
unfoldable pub skip_to : PythonOps → Float → Row → List Row → Option (List Row)
skip_to py tol va [] = none
skip_to py tol va (vb ∷ sb) =
    let rest = skip_to py tol va sb in if vec_close py tol va vb then some sb else rest

unfoldable pub greedy : PythonOps → Float → List Row → List Row → Bool
greedy py tol [] sb = true
greedy py tol (va ∷ sa) sb = elim (skip_to py tol va sb) [
  | none ↦ false
  | some rest ↦ greedy py tol sa rest
]

-- _match_float_vecs_subset
unfoldable pub match_float_vecs_subset : PythonOps → Float → List Row → List Row → Bool
match_float_vecs_subset py tol a b =
    if length a == 0
    then true
    else if ltb (length b) (length a)
    then false
    else if leb (width a) 1 || ltb exact_match_cap (length b)
    then greedy py tol (sort_vecs py a) (sort_vecs py b)
    else match_exact py tol a b
