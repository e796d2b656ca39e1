-- ===== src/Compare/Soundness.antt =====
-- router/adapt.py: what the verdict of `_multiset_equal` and `_multiset_contained` means. A yes is
-- never given to rows that differ.
use mathlib.Core.Option.{some-injective}
use synno_db.Base.{
  ◌⊎◌, ◌≡◌, ◌≤◌, refl, sym, ◌∙◌, ap, true, ◌||◌, none, some, List, [], ◌∷◌, arith, length, inl, inr,
  Bool-cases, is_some, ◌==◌,
}
use synno_db.Python.{Float, PythonOps, PythonLaws}
use synno_db.Compare.Cells.{Row, vec_close}
use synno_db.Compare.Matching.{match_float_vecs, match_float_vecs_subset}
use synno_db.Compare.Groups.{
  group_of, groups, keys_within, multiset_equal, multiset_contained, float_indices, exact_indices,
}
use synno_db.Compare.Pairing.{OneToOne, OneToOne-nil}
use synno_db.Compare.Matchers.{match_float_vecs-OneToOne, match_float_vecs_subset-OneToOne}
use synno_db.Compare.Grouping.{vecs_with, join, group_of-group_rows, keys_within_sound}
use synno_db.Compare.Accepted.{no_floats-OneToOne, groups_match_sound, groups_within_sound}

-- The float tuples of the rows whose exact columns are k, when rows_a and rows_b are compared.
abbrev pub with_key : PythonOps → List Row → List Row → Row → List Row → List Row
with_key py rows_a rows_b k rs =
    vecs_with py (exact_indices rows_a rows_b) (float_indices rows_a rows_b) k rs

-- Every exact key occurs as often on both sides, and the rows with that key are paired one to one,
-- their float columns within tolerance.
abbrev pub SameRows : PythonOps → Float → List Row → List Row → Type 0
SameRows py tol rows_a rows_b =
    (k : Row)
    → (length (with_key py rows_a rows_b k rows_a) ≡ length (with_key py rows_a rows_b k rows_b))
      × OneToOne (vec_close py tol) (with_key py rows_a rows_b k rows_a)
          (with_key py rows_a rows_b k rows_b)

-- The rows of a are paired with rows of b of their own, with the same exact columns and their float
-- columns within tolerance.
abbrev pub WithinRows : PythonOps → Float → List Row → List Row → Type 0
WithinRows py tol rows_a rows_b =
    (k : Row)
    → OneToOne (vec_close py tol) (with_key py rows_a rows_b k rows_a)
        (with_key py rows_a rows_b k rows_b)

join-eq_some : (xs : List Row) {ys : List Row} → join none xs ≡ some ys → xs ≡ ys
join-eq_some [] h = absurd (cc)
join-eq_some (x ∷ xs) h = some-injective _ _ h

List-cases : (xs : List Row) → (xs ≡ []) ⊎ (join none xs ≡ some xs)
List-cases [] = inl refl
List-cases (x ∷ xs) = inr refl

module _ (py : PythonOps) (tol : Float) (laws : PythonLaws py) where
  group_of-groups :
      (rows_a rows_b rs : List Row) (k : Row)
      → group_of py k (groups py rows_a rows_b rs) ≡ join none (with_key py rows_a rows_b k rs)
  unfolding groups group_of
  group_of-groups rows_a rows_b rs k =
      group_of-group_rows py laws (exact_indices rows_a rows_b) (float_indices rows_a rows_b) k rs
        []

  module _ (rows_a rows_b : List Row) (k : Row) where
    mine : List Row
    mine = with_key py rows_a rows_b k rows_a

    theirs : List Row
    theirs = with_key py rows_a rows_b k rows_b

    -- a key that no row of a has, if every key of b is one of a
    absent-nil :
        keys_within py (groups py rows_a rows_b rows_b) (groups py rows_a rows_b rows_a) ≡ true
        → mine ≡ []
        → theirs ≡ []
    unfolding mine theirs
    absent-nil within e = elim (List-cases theirs) [
      | inl f ↦ f
      | inr f ↦
          let there : is_some (group_of py k (groups py rows_a rows_b rows_b)) ≡ true =
            rw (group_of-groups rows_a rows_b rows_b k, f) refl in
          let here : is_some (join none mine) ≡ true =
            rw (← group_of-groups rows_a rows_b rows_a k) (
              keys_within_sound py laws k (groups py rows_a rows_b rows_b)
                (groups py rows_a rows_b rows_a) within there) in
          absurd (cc (rw e at here))
    ]

    found : {vb : List Row} → group_of py k (groups py rows_a rows_b rows_b) ≡ some vb → theirs ≡ vb
    unfolding theirs
    found h = join-eq_some theirs (sym (group_of-groups rows_a rows_b rows_b k) ∙ h)

    paired_equal :
        (vb : List Row)
        → length mine ≡ length vb
        → (length (float_indices rows_a rows_b) == 0 || match_float_vecs py tol mine vb) ≡ true
        → OneToOne (vec_close py tol) mine vb
    unfolding mine
    paired_equal vb l ok = elim (Bool-cases (length (float_indices rows_a rows_b) == 0)) [
      | inl e ↦
          no_floats-OneToOne py tol (float_indices rows_a rows_b) (exact_indices rows_a rows_b) k
            rows_a vb e (omega arith)
      | inr e ↦ match_float_vecs-OneToOne py tol mine vb l (rw e at ok)
    ]

    paired_within :
        (vb : List Row)
        → length mine ≤ length vb
        → (length (float_indices rows_a rows_b) == 0 || match_float_vecs_subset py tol mine vb)
          ≡ true
        → OneToOne (vec_close py tol) mine vb
    unfolding mine
    paired_within vb l ok = elim (Bool-cases (length (float_indices rows_a rows_b) == 0)) [
      | inl e ↦
          no_floats-OneToOne py tol (float_indices rows_a rows_b) (exact_indices rows_a rows_b) k
            rows_a vb e l
      | inr e ↦ match_float_vecs_subset-OneToOne py tol mine vb (rw e at ok)
    ]

  -- If `_multiset_equal` accepts, every exact key occurs as often in one result as in the other, and
  -- the rows with that key are paired one to one with their float columns within tolerance.
  pub multiset_equal-SameRows :
      (rows_a rows_b : List Row)
      → multiset_equal py tol rows_a rows_b ≡ true
      → SameRows py tol rows_a rows_b
  unfolding multiset_equal mine theirs vecs_with
  multiset_equal-SameRows [] [] h k = (refl, OneToOne-nil (vec_close py tol) [])
  multiset_equal-SameRows [] (s ∷ ss) h k = absurd (ground arith)
  multiset_equal-SameRows (r ∷ rs) rows_b h k =
      let rows_a = r ∷ rs in
      elim (List-cases (mine rows_a rows_b k)) [
        | inl e ↦
            let f : theirs rows_a rows_b k ≡ [] = absent-nil rows_a rows_b k (ground arith) e in
            (ap length (e ∙ sym f), rw e (OneToOne-nil (vec_close py tol) (theirs rows_a rows_b k)))
        | inr e ↦
            let (vb, there, l, ok) =
              groups_match_sound py tol laws (float_indices rows_a rows_b) k
                (groups py rows_a rows_b rows_a) (groups py rows_a rows_b rows_b)
                {va = mine rows_a rows_b k} (ground arith)
                (group_of-groups rows_a rows_b rows_a k ∙ e) in
            let same : theirs rows_a rows_b k ≡ vb = found rows_a rows_b k there in
            (rw same l, rw same (paired_equal rows_a rows_b k vb l ok))
      ]

  -- If `_multiset_contained` accepts, the rows of a are paired with rows of b of their own that
  -- have the same exact columns, and float columns within tolerance.
  pub multiset_contained-WithinRows :
      (rows_a rows_b : List Row)
      → multiset_contained py tol rows_a rows_b ≡ true
      → WithinRows py tol rows_a rows_b
  unfolding multiset_contained mine theirs vecs_with
  multiset_contained-WithinRows [] rows_b h k =
      OneToOne-nil (vec_close py tol) (with_key py [] rows_b k rows_b)
  multiset_contained-WithinRows (r ∷ rs) rows_b h k =
      let rows_a = r ∷ rs in
      elim (List-cases (mine rows_a rows_b k)) [
        | inl e ↦ rw e (OneToOne-nil (vec_close py tol) (theirs rows_a rows_b k))
        | inr e ↦
            let (vb, there, l, ok) =
              groups_within_sound py tol laws (float_indices rows_a rows_b) k
                (groups py rows_a rows_b rows_a) (groups py rows_a rows_b rows_b)
                {va = mine rows_a rows_b k} (ground arith)
                (group_of-groups rows_a rows_b rows_a k ∙ e) in
            let same : theirs rows_a rows_b k ≡ vb = found rows_a rows_b k there in
            rw same (paired_within rows_a rows_b k vb l ok)
      ]
