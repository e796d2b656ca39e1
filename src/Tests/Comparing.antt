-- ===== src/Tests/Comparing.antt =====
-- The theorems on the comparison of results, applied to small tables.
use synno_db.Base.{
  ℕ, ◌+◌, Option, false, arith, replicate, ◌≡◌, refl, true, none, some, List, [], ◌∷◌,
}
use synno_db.Python.{Float}
use synno_db.Python.Samples.{sample_ops, sample_laws}
use synno_db.Compare.Cells.{
  Row, Table, num_columns, rows, vec_close, row_equal, cell_equal, float_close,
}
use synno_db.Compare.Groups.{
  multiset_equal, multiset_contained, groups, group_of, keys_within, exact_indices, groups_match,
  groups_within,
}
use synno_db.Compare.Matching.{Compat, match_float_vecs, match_float_vecs_subset, sort_vecs}
use synno_db.Compare.Pairing.{OneToOne}
use synno_db.Compare.Matchers.{match_float_vecs-OneToOne, match_float_vecs_subset-OneToOne}
use synno_db.Compare.Soundness.{
  SameRows, WithinRows, multiset_equal-SameRows, multiset_contained-WithinRows,
}
use synno_db.Compare.Tables.{results_equal, compare_rows, compare_keyed, keys_agree}
use synno_db.Compare.Verdict.{RowsAgree, results_equal-RowsAgree}
use synno_db.Compare.Widen.{widen, widen_fuel}
use synno_db.Compare.Widening.{widen_fuel_lem}
use synno_db.Compare.Depth.{augment_lem}
use synno_db.Tests.Samples.{double, word}
use synno_db.Compare.Matching.{
  augment, augment_all, compat_table, greedy, match_exact, skip_to, try_columns,
}
use synno_db.Compare.Cells.{pick?}

abbrev tol : Float
tol = record { bits = 1 }

-- Pairs of floats, for which the exact matching is used.
abbrev pairs : List Row
pairs = (double 10 ∷ double 20 ∷ []) ∷ (double 11 ∷ double 30 ∷ []) ∷ []

abbrev near_pairs : List Row
near_pairs = (double 11 ∷ double 31 ∷ []) ∷ (double 11 ∷ double 21 ∷ []) ∷ []

abbrev more_pairs : List Row
more_pairs = (double 90 ∷ double 90 ∷ []) ∷ near_pairs

abbrev named : List Row
named = (word "ann" ∷ double 10 ∷ []) ∷ (word "bob" ∷ double 20 ∷ []) ∷ []

abbrev near_named : List Row
near_named = (word "bob" ∷ double 21 ∷ []) ∷ (word "ann" ∷ double 10 ∷ []) ∷ []

abbrev more_named : List Row
more_named = (word "bob" ∷ double 50 ∷ []) ∷ near_named

abbrev table : Table
table = record {
  column_names = "name" ∷ "total" ∷ [];
  columns = (word "ann" ∷ word "bob" ∷ []) ∷ (double 10 ∷ double 20 ∷ []) ∷ [];
  num_rows = 2;
}

abbrev near_table : Table
near_table = record table {
  columns = (word "ann" ∷ word "bob" ∷ []) ∷ (double 11 ∷ double 20 ∷ []) ∷ [];
}

pairs_match : match_float_vecs sample_ops tol pairs near_pairs ≡ true
unfolding match_float_vecs match_exact augment_all augment try_columns compat_table vec_close
    float_close
pairs_match = refl

match_float_vecs-OneToOne_example : OneToOne (vec_close sample_ops tol) pairs near_pairs
match_float_vecs-OneToOne_example =
    match_float_vecs-OneToOne sample_ops tol pairs near_pairs refl pairs_match

pairs_match_subset : match_float_vecs_subset sample_ops tol pairs more_pairs ≡ true
unfolding match_float_vecs_subset match_exact augment_all augment try_columns compat_table vec_close
    float_close
pairs_match_subset = refl

match_float_vecs_subset-OneToOne_example : OneToOne (vec_close sample_ops tol) pairs more_pairs
match_float_vecs_subset-OneToOne_example =
    match_float_vecs_subset-OneToOne sample_ops tol pairs more_pairs pairs_match_subset

same_named : multiset_equal sample_ops tol named near_named ≡ true
unfolding multiset_equal keys_within groups exact_indices group_of groups_match match_float_vecs
    sort_vecs vec_close float_close
same_named = refl

multiset_equal-SameRows_example : SameRows sample_ops tol named near_named
multiset_equal-SameRows_example =
    multiset_equal-SameRows sample_ops tol sample_laws named near_named same_named

within_named : multiset_contained sample_ops tol named more_named ≡ true
unfolding multiset_contained groups_within groups exact_indices group_of match_float_vecs_subset
    greedy sort_vecs skip_to vec_close float_close
within_named = refl

multiset_contained-WithinRows_example : WithinRows sample_ops tol named more_named
multiset_contained-WithinRows_example =
    multiset_contained-WithinRows sample_ops tol sample_laws named more_named within_named

equal_tables :
    results_equal sample_ops tol table near_table true (some (0 ∷ [])) none none ≡ some true
unfolding results_equal compare_rows compare_keyed keys_agree rows pick? row_equal cell_equal
    multiset_equal keys_within groups exact_indices group_of groups_match match_float_vecs sort_vecs
    vec_close float_close
equal_tables = refl

results_equal-RowsAgree_example :
    (num_columns table ≡ num_columns near_table)
    × (table.num_rows ≡ near_table.num_rows)
    × RowsAgree sample_ops tol true (some (0 ∷ [])) none none (rows table) (rows near_table)
results_equal-RowsAgree_example =
    results_equal-RowsAgree sample_ops tol sample_laws table near_table true (some (0 ∷ [])) none
      none equal_tables

-- The query, run over the first rows of its ranking, has one row and then two.
abbrev fetch : ℕ → Option Table
fetch n = some near_table

widen_fuel_lem_example :
    widen sample_ops tol fetch (0 ∷ []) (word "ann" ∷ []) 1 (widen_fuel + 5) 1
    ≡ widen sample_ops tol fetch (0 ∷ []) (word "ann" ∷ []) 1 widen_fuel 1
widen_fuel_lem_example =
    widen_fuel_lem sample_ops tol fetch (0 ∷ []) (word "ann" ∷ []) 1 5 (omega arith)

abbrev two_by_two : Compat
two_by_two = (true ∷ true ∷ []) ∷ (true ∷ false ∷ []) ∷ []

augment_lem_example :
    augment two_by_two 2 (2 + 1 + 4) 1 (replicate 2 false) (some 0 ∷ none ∷ [])
    ≡ augment two_by_two 2 (2 + 1) 1 (replicate 2 false) (some 0 ∷ none ∷ [])
augment_lem_example = augment_lem two_by_two 2 4 1 (some 0 ∷ none ∷ []) refl
