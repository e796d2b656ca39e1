-- ===== src/Compare/Diff/Multiset.antt =====
-- router/adapt.py, `results_diff`: the rows that only one side has, by buckets of rounded floats.
-- `none` is the OverflowError of rounding an infinity.
use synno_db.Base.{
  ℕ, ◌+◌, ◌-◌, Bool, true, false, ◌&&◌, Option, none, some, List, [], ◌∷◌, ◌++◌, length, ◌==◌, leb,
  if◌then◌else◌,
}
use synno_db.Base.Int.{ℤ, eq_ℤ}
use synno_db.Python.{Float, Cell, null, float, exact, PythonOps}
use synno_db.Compare.Cells.{Row}
use synno_db.Compare.Diff.Places.{Diff, Report, row, absent}

-- one cell of a bucket: ("f", None), ("f", n) or ("v", x)
pub data BucketCell : Type 0 where
  nan : BucketCell
  grid : ℤ → BucketCell
  value : Cell → BucketCell

abbrev pub Bucket : Type 0
Bucket = List BucketCell

abbrev bucket_cell : PythonOps → Float → Cell → Option BucketCell
bucket_cell py tol (float v) =
    if py.eq (float v) (float v)
    then (elim (py.snap v tol) [ none ↦ none | some n ↦ some (grid n) ])
    else some nan
bucket_cell py tol null = some (value null)
bucket_cell py tol (exact v) = some (value (exact v))

unfoldable pub bucket : PythonOps → Float → Row → Option Bucket
bucket py tol [] = some []
bucket py tol (c ∷ r) = elim (bucket_cell py tol c) [
  | none ↦ none
  | some k ↦ elim (bucket py tol r) [ none ↦ none | some ks ↦ some (k ∷ ks) ]
]

abbrev same_bucket_cell : PythonOps → BucketCell → BucketCell → Bool
same_bucket_cell py nan nan = true
same_bucket_cell py (grid n) (grid m) = eq_ℤ n m
same_bucket_cell py (value x) (value y) = py.eq x y
same_bucket_cell py _ _ = false

abbrev same_bucket : PythonOps → Bucket → Bucket → Bool
same_bucket py [] [] = true
same_bucket py (k ∷ ks) (l ∷ ls) = same_bucket_cell py k l && same_bucket py ks ls
same_bucket py _ _ = false

-- an entry of a Counter, with the last row of its bucket (rep_b and rep_r)
pub record Counted : Type 0 where
  pub key : Bucket
  pub count : ℕ
  pub sample : Row

unfoldable pub count_row : PythonOps → Bucket → Row → List Counted → List Counted
count_row py k r [] = record { key = k; count = 1; sample = r } ∷ []
count_row py k r (e ∷ es) =
    let rest = count_row py k r es in
    if same_bucket py k e.key
    then record { key = e.key; count = e.count + 1; sample = r } ∷ es
    else e ∷ rest

unfoldable pub count_rows : PythonOps → Float → List Row → List Counted → Option (List Counted)
unfolding bucket count_row
count_rows py tol [] acc = some acc
count_rows py tol (r ∷ rs) acc = elim (bucket py tol r) [
  | none ↦ none
  | some k ↦ count_rows py tol rs (count_row py k r acc)
]

unfoldable pub count_in : PythonOps → Bucket → List Counted → ℕ
count_in py k [] = 0
count_in py k (e ∷ es) =
    let rest = count_in py k es in if same_bucket py k e.key then e.count else rest

-- the difference of two Counters: what is left positive
unfoldable pub minus : PythonOps → List Counted → List Counted → List Counted
unfolding count_in
minus py [] d = []
minus py (e ∷ es) d =
    let left = e.count - count_in py e.key d in
    let rest = minus py es d in if left == 0 then rest else record e { count = left } ∷ rest

abbrev pub total_count : List Counted → ℕ
total_count [] = 0
total_count (e ∷ es) = e.count + total_count es

-- `for key in only: if len(diffs) >= limit: break; diffs.append(…)`
unfoldable pub sampled : ℕ → (Row → Diff) → List Counted → List Diff → List Diff
sampled limit show [] diffs = diffs
sampled limit show (e ∷ es) diffs =
    let rest = sampled limit show es (diffs ++ show e.sample ∷ []) in
    if leb limit (length diffs) then diffs else rest

abbrev engine_only : Row → Diff
engine_only r = record {
  place = none;
  column = "<engine-only row>";
  bespoke = row r;
  duckdb = absent;
}

abbrev duckdb_only : Row → Diff
duckdb_only r = record {
  place = none;
  column = "<duckdb-only row>";
  bespoke = absent;
  duckdb = row r;
}

unfoldable pub multiset_diff : PythonOps → Float → ℕ → List Row → List Row → Option Report
unfolding count_rows minus sampled
multiset_diff py tol limit rows_b rows_r = elim (count_rows py tol rows_b []) [
  | none ↦ none
  | some cb ↦ elim (count_rows py tol rows_r []) [
    | none ↦ none
    | some cr ↦
        let only_b = minus py cb cr in
        let only_r = minus py cr cb in
        some (record {
          diffs = sampled limit duckdb_only only_r (sampled limit engine_only only_b []);
          total = total_count only_b + total_count only_r;
        })
  ]
]
