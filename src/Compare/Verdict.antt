-- ===== src/Compare/Verdict.antt =====
-- router/adapt.py: what a yes of `results_equal` means, for each way of comparing.
use mathlib.Core.Option.{some-injective}
use synno_db.Base.{
  ℕ, zero, suc, ◌≡◌, Bool, true, false, Option, none, some, List, [], ◌∷◌, arith, length, get_elem?,
  inl, inr, Option-cases,
}
use synno_db.Python.{Float, PythonOps, PythonLaws}
use synno_db.Compare.Cells.{Row, Table, num_columns, rows, row_equal, all2, pick?}
use synno_db.Compare.Groups.{multiset_equal, multiset_contained}
use synno_db.Compare.Tables.{keys_agree, truncated, compare_keyed, compare_rows, results_equal}
use synno_db.Compare.Soundness.{
  SameRows, WithinRows, multiset_equal-SameRows, multiset_contained-WithinRows,
}

-- Place by place, the rows are equal.
abbrev pub SamePlaces : PythonOps → Float → List Row → List Row → Type 0
SamePlaces py tol rows_a rows_b =
    (i : ℕ) (a b : Row)
    → get_elem? rows_a i ≡ some a
    → get_elem? rows_b i ≡ some b
    → row_equal py tol a b ≡ true

-- Place by place, the ORDER BY keys of the rows are equal.
abbrev pub SameKeys : PythonOps → Float → List ℕ → List Row → List Row → Type 0
SameKeys py tol order_keys rows_a rows_b =
    (i : ℕ) (a b : Row)
    → get_elem? rows_a i ≡ some a
    → get_elem? rows_b i ≡ some b
    → (ka : Row) × (kb : Row) × (pick? order_keys a ≡ some ka)
      × (pick? order_keys b ≡ some kb)
      × (row_equal py tol ka kb ≡ true)

-- A truncated result is held against the candidates, any other against the reference.
abbrev pub SameData : PythonOps → Float → Option (List Row) → List Row → List Row → Type 0
SameData py tol none rows_a rows_b = SameRows py tol rows_a rows_b
SameData py tol (some pool) rows_a rows_b = WithinRows py tol rows_a pool

abbrev pub RowsAgree :
    PythonOps
    → Float
    → Bool
    → Option (List ℕ)
    → Option ℕ
    → Option (List Row)
    → List Row
    → List Row
    → Type 0
RowsAgree py tol false order_keys row_limit candidates rows_a rows_b = SameRows py tol rows_a rows_b
RowsAgree py tol true none row_limit candidates rows_a rows_b = SamePlaces py tol rows_a rows_b
RowsAgree py tol true (some []) row_limit candidates rows_a rows_b = SamePlaces py tol rows_a rows_b
RowsAgree py tol true (some (k ∷ ks)) row_limit candidates rows_a rows_b =
    SameKeys py tol (k ∷ ks) rows_a rows_b
    × SameData py tol (truncated row_limit candidates (length rows_b)) rows_a rows_b

all2-SamePlaces :
    (py : PythonOps) (tol : Float) (rows_a rows_b : List Row)
    → all2 (row_equal py tol) rows_a rows_b ≡ true
    → SamePlaces py tol rows_a rows_b
all2-SamePlaces py tol [] rows_b h i a b at_a at_b = absurd (cc)
all2-SamePlaces py tol (x ∷ rows_a) [] h i a b at_a at_b = absurd (cc)
all2-SamePlaces py tol (x ∷ rows_a) (y ∷ rows_b) h zero a b at_a at_b =
    rw (← some-injective _ _ at_a, ← some-injective _ _ at_b) (ground arith)
all2-SamePlaces py tol (x ∷ rows_a) (y ∷ rows_b) h (suc i) a b at_a at_b =
    all2-SamePlaces py tol rows_a rows_b (ground arith) i a b at_a at_b

keys_agree-head :
    (py : PythonOps) (tol : Float) (order_keys : List ℕ) (x y : Row) (rows_a rows_b : List Row)
    → keys_agree py tol order_keys (x ∷ rows_a) (y ∷ rows_b) ≡ some true
    → ((ka : Row) × (kb : Row) × (pick? order_keys x ≡ some ka)
        × (pick? order_keys y ≡ some kb)
        × (row_equal py tol ka kb ≡ true))
      × (keys_agree py tol order_keys rows_a rows_b ≡ some true)
unfolding keys_agree
keys_agree-head py tol order_keys x y rows_a rows_b h = elim (Option-cases (pick? order_keys x)) [
  | inl e ↦ absurd (ground arith)
  | inr (ka, ea) ↦ elim (Option-cases (pick? order_keys y)) [
    | inl e ↦ absurd (ground arith)
    | inr (kb, eb) ↦ ((ka, kb, ea, eb, ground arith), ground arith)
  ]
]

keys_agree-SameKeys :
    (py : PythonOps) (tol : Float) (order_keys : List ℕ) (rows_a rows_b : List Row)
    → keys_agree py tol order_keys rows_a rows_b ≡ some true
    → SameKeys py tol order_keys rows_a rows_b
keys_agree-SameKeys py tol order_keys [] rows_b h i a b at_a at_b = absurd (cc)
keys_agree-SameKeys py tol order_keys (x ∷ rows_a) [] h i a b at_a at_b = absurd (cc)
keys_agree-SameKeys py tol order_keys (x ∷ rows_a) (y ∷ rows_b) h zero a b at_a at_b =
    rw (← some-injective _ _ at_a, ← some-injective _ _ at_b)
      (keys_agree-head py tol order_keys x y rows_a rows_b h).0
keys_agree-SameKeys py tol order_keys (x ∷ rows_a) (y ∷ rows_b) h (suc i) a b at_a at_b =
    keys_agree-SameKeys py tol order_keys rows_a rows_b
      (keys_agree-head py tol order_keys x y rows_a rows_b h).1 i a b at_a at_b

module _ (py : PythonOps) (tol : Float) (laws : PythonLaws py) where
  compare_keyed_sound :
      (order_keys : List ℕ) (row_limit : Option ℕ) (candidates : Option (List Row))
      (rows_a rows_b : List Row)
      → compare_keyed py tol order_keys row_limit candidates rows_a rows_b ≡ some true
      → SameKeys py tol order_keys rows_a rows_b
        × SameData py tol (truncated row_limit candidates (length rows_b)) rows_a rows_b
  unfolding compare_keyed
  compare_keyed_sound order_keys row_limit candidates rows_a rows_b h =
      elim (Option-cases (keys_agree py tol order_keys rows_a rows_b)) [
        | inl e ↦ absurd (cc (rw (e, compare_keyed) at h))
        | inr (false, e) ↦ absurd (cc (rw (e, compare_keyed) at h))
        | inr (true, e) ↦ (
          keys_agree-SameKeys py tol order_keys rows_a rows_b e,
          data_sound (truncated row_limit candidates (length rows_b)) (rw (e, compare_keyed) at h),
        )
      ]
    where
      data_sound :
          (t : Option (List Row))
          → elim t as (λ x. Option Bool) [
            | some pool ↦ some (multiset_contained py tol rows_a pool)
            | none ↦ some (multiset_equal py tol rows_a rows_b)
          ]
            ≡ some true
          → SameData py tol t rows_a rows_b
      data_sound none d = multiset_equal-SameRows py tol laws rows_a rows_b (some-injective _ _ d)
      data_sound (some pool) d =
          multiset_contained-WithinRows py tol laws rows_a pool (some-injective _ _ d)

  compare_rows-RowsAgree :
      (ordered : Bool) (order_keys : Option (List ℕ)) (row_limit : Option ℕ)
      (candidates : Option (List Row)) (rows_a rows_b : List Row)
      → compare_rows py tol ordered order_keys row_limit candidates rows_a rows_b ≡ some true
      → RowsAgree py tol ordered order_keys row_limit candidates rows_a rows_b
  unfolding compare_rows
  compare_rows-RowsAgree false order_keys row_limit candidates rows_a rows_b h =
      multiset_equal-SameRows py tol laws rows_a rows_b (some-injective _ _ h)
  compare_rows-RowsAgree true none row_limit candidates rows_a rows_b h =
      all2-SamePlaces py tol rows_a rows_b (some-injective _ _ h)
  compare_rows-RowsAgree true (some []) row_limit candidates rows_a rows_b h =
      all2-SamePlaces py tol rows_a rows_b (some-injective _ _ h)
  compare_rows-RowsAgree true (some (k ∷ ks)) row_limit candidates rows_a rows_b h =
      compare_keyed_sound (k ∷ ks) row_limit candidates rows_a rows_b h

  -- If `results_equal` says yes, both tables have as many columns and rows, and: with no ORDER BY
  -- each exact key occurs as often on both sides and its rows are paired one to one within
  -- tolerance; with ORDER BY keys the keys are equal place by place, and the rows are paired so with
  -- the reference, or one to one into the candidates of a truncated result; with an ORDER BY whose
  -- keys are not known, the rows are equal place by place.
  pub results_equal-RowsAgree :
      (bespoke reference : Table) (ordered : Bool) (order_keys : Option (List ℕ))
      (row_limit : Option ℕ) (candidates : Option (List Row))
      → results_equal py tol bespoke reference ordered order_keys row_limit candidates ≡ some true
      → (num_columns bespoke ≡ num_columns reference)
        × (bespoke.num_rows ≡ reference.num_rows)
        × RowsAgree py tol ordered order_keys row_limit candidates (rows bespoke) (rows reference)
  unfolding results_equal
  results_equal-RowsAgree bespoke reference ordered order_keys row_limit candidates h = (
    ground arith,
    ground arith,
    compare_rows-RowsAgree ordered order_keys row_limit candidates (rows bespoke) (rows reference)
        (ground arith),
  )
