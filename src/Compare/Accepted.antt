-- ===== src/Compare/Accepted.antt =====
-- router/adapt.py: what the loops over the groups have checked, key by key.
use mathlib.Core.List.{Permᴰ}
use mathlib.Core.List.Permᴰ
use mathlib.Core.Option.{some-injective}
use synno_db.Base.{
  ℕ, ◌≡◌, ◌≤◌, refl, ◌∙◌, true, ◌||◌, some, List, [], ◌∷◌, arith, length, inl, inr, Bool-cases,
  Option-cases, All, ◌==◌,
}
use synno_db.Python.{Float, PythonOps, PythonLaws}
use synno_db.Compare.Cells.{Row, pick, vec_close}
use synno_db.Compare.Matching.{match_float_vecs, match_float_vecs_subset}
use synno_db.Compare.Groups.{Groups, key_eq, group_of, groups_match, groups_within}
use synno_db.Compare.Pairing.{OneToOne, OneToOne-nil, OneToOne-cons}
use synno_db.Compare.Grouping.{vecs_with, group_of-cong}

IsEmpty : Row → Type 0
IsEmpty v = v ≡ []

vecs_with-IsEmpty :
    (py : PythonOps) (exact_idx : List ℕ) (k : Row) (a : List Row)
    → All IsEmpty (vecs_with py exact_idx [] k a)
unfolding vecs_with IsEmpty
vecs_with-IsEmpty py exact_idx k [] = tt
vecs_with-IsEmpty py exact_idx k (r ∷ rs) = elim (Bool-cases (key_eq py k (pick exact_idx r))) [
  | inl e ↦ rw e (refl, vecs_with-IsEmpty py exact_idx k rs)
  | inr e ↦ rw e (vecs_with-IsEmpty py exact_idx k rs)
]

-- Empty tuples are close to anything, so only their count matters.
empties-OneToOne :
    (py : PythonOps) (tol : Float) (a b : List Row)
    → All IsEmpty a
    → length a ≤ length b
    → OneToOne (vec_close py tol) a b
unfolding vec_close IsEmpty
empties-OneToOne py tol [] b h le = OneToOne-nil (vec_close py tol) b
empties-OneToOne py tol (x ∷ a) [] h le = absurd (omega arith)
empties-OneToOne py tol (x ∷ a) (y ∷ b) h le =
    OneToOne-cons (vec_close py tol) x y [] (rw h.0 refl)
      (empties-OneToOne py tol a b h.1 (omega arith)) (Permᴰ.cons refl (Permᴰ.append-nil b))

pub no_floats-OneToOne :
    (py : PythonOps) (tol : Float) (float_idx exact_idx : List ℕ) (k : Row) (a : List Row)
    (vb : List Row)
    → (length float_idx == 0) ≡ true
    → length (vecs_with py exact_idx float_idx k a) ≤ length vb
    → OneToOne (vec_close py tol) (vecs_with py exact_idx float_idx k a) vb
no_floats-OneToOne py tol (i ∷ float_idx) exact_idx k a vb h le = absurd (ground arith)
no_floats-OneToOne py tol [] exact_idx k a vb h le =
    empties-OneToOne py tol (vecs_with py exact_idx [] k a) vb (vecs_with-IsEmpty py exact_idx k a)
      le

module _ (py : PythonOps) (tol : Float) (laws : PythonLaws py) (float_idx : List ℕ) where
  -- The loop of `_multiset_equal` has compared the group of every key.
  pub groups_match_sound :
      (k : Row) (g h : Groups) {va : List Row}
      → groups_match py tol float_idx g h ≡ true
      → group_of py k g ≡ some va
      → (vb : List Row) × (group_of py k h ≡ some vb)
        × (length va ≡ length vb)
        × ((length float_idx == 0 || match_float_vecs py tol va vb) ≡ true)
  unfolding groups_match group_of
  groups_match_sound k [] h ok found = absurd (cc)
  groups_match_sound k ((l, vs) ∷ g) h {va} ok found = elim (Bool-cases (key_eq py k l)) [
    | inr e ↦ groups_match_sound k g h {va = va} (ground arith) (rw e at found)
    | inl e ↦ elim (Option-cases (group_of py l h)) [
      | inl missing ↦ absurd (ground arith)
      | inr (vb, there) ↦
          let same : vs ≡ va = some-injective _ _ (rw e at found) in
          (vb, group_of-cong py laws k l h e ∙ there, ground arith, ground arith)
    ]
  ]

  pub groups_within_sound :
      (k : Row) (g h : Groups) {va : List Row}
      → groups_within py tol float_idx g h ≡ true
      → group_of py k g ≡ some va
      → (vb : List Row) × (group_of py k h ≡ some vb)
        × (length va ≤ length vb)
        × ((length float_idx == 0 || match_float_vecs_subset py tol va vb) ≡ true)
  unfolding groups_within group_of
  groups_within_sound k [] h ok found = absurd (cc)
  groups_within_sound k ((l, vs) ∷ g) h {va} ok found = elim (Bool-cases (key_eq py k l)) [
    | inr e ↦ groups_within_sound k g h {va = va} (ground arith) (rw e at found)
    | inl e ↦ elim (Option-cases (group_of py l h)) [
      | inl missing ↦ absurd (ground arith)
      | inr (vb, there) ↦
          let same : vs ≡ va = some-injective _ _ (rw e at found) in
          (vb, group_of-cong py laws k l h e ∙ there, ground arith, ground arith)
    ]
  ]
