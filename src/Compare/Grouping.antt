-- ===== src/Compare/Grouping.antt =====
-- router/adapt.py: the dictionary of groups holds, under each key, the float tuples of exactly the
-- rows with that key, in order.
use synno_db.Base.{
  ℕ, ◌≡◌, refl, sym, ◌∙◌, true, false, Option, none, some, List, [], ◌∷◌, ◌++◌, arith, length, inl,
  inr, Bool-cases, is_some, if◌then◌else◌,
}
use mathlib.Core.List.{append_assoc, append-nil}
use synno_db.Python.{PythonOps, PythonLaws}
use synno_db.Compare.Cells.{Row, all2, pick}
use synno_db.Compare.Groups.{Groups, key_eq, group_of, add_to_group, group_rows, keys_within}

-- [fvec(r) for r in rows if key(r) == k]
unfoldable pub vecs_with : PythonOps → List ℕ → List ℕ → Row → List Row → List Row
vecs_with py exact_idx float_idx k [] = []
vecs_with py exact_idx float_idx k (r ∷ rs) =
    let rest = vecs_with py exact_idx float_idx k rs in
    if key_eq py k (pick exact_idx r) then pick float_idx r ∷ rest else rest

-- what `get` of a key gives for the tuples under it
abbrev pub join : Option (List Row) → List Row → Option (List Row)
join none [] = none
join none (v ∷ vs) = some (v ∷ vs)
join (some us) vs = some (us ++ vs)

join-nil : (o : Option (List Row)) → join o [] ≡ o
join-nil none = refl
join-nil (some us) = rw append-nil refl

join-cons :
    (o : Option (List Row)) (v : Row) (vs : List Row) → join (join o (v ∷ [])) vs ≡ join o (v ∷ vs)
join-cons none v vs = refl
join-cons (some us) v vs = rw append_assoc refl

module _ (py : PythonOps) (laws : PythonLaws py) where
  all2-eq_sym : (k l : Row) → length k ≡ length l → all2 py.eq k l ≡ true → all2 py.eq l k ≡ true
  all2-eq_sym [] [] n h = refl
  all2-eq_sym [] (y ∷ l) n h = absurd (omega arith)
  all2-eq_sym (x ∷ k) [] n h = absurd (omega arith)
  all2-eq_sym (x ∷ k) (y ∷ l) n h = ground (arith, laws.eq_sym x y, all2-eq_sym k l)

  all2-eq_trans :
      (k l m : Row)
      → length k ≡ length l
      → length l ≡ length m
      → all2 py.eq k l ≡ true
      → all2 py.eq l m ≡ true
      → all2 py.eq k m ≡ true
  all2-eq_trans [] l m n o h i = refl
  all2-eq_trans (x ∷ k) [] m n o h i = absurd (omega arith)
  all2-eq_trans (x ∷ k) (y ∷ l) [] n o h i = absurd (omega arith)
  all2-eq_trans (x ∷ k) (y ∷ l) (z ∷ m) n o h i =
      ground (arith, laws.eq_trans x y z, all2-eq_trans k l m)

  key_eq_sym : (k l : Row) → key_eq py k l ≡ true → key_eq py l k ≡ true
  key_eq_sym k l h = ground (arith, all2-eq_sym k l)

  key_eq_trans : (k l m : Row) → key_eq py k l ≡ true → key_eq py l m ≡ true → key_eq py k m ≡ true
  key_eq_trans k l m h i = ground (arith, all2-eq_trans k l m)

  -- Equal keys are equal to the same keys.
  key_eq_cong : (k l m : Row) → key_eq py k l ≡ true → key_eq py k m ≡ key_eq py l m
  key_eq_cong k l m h = elim (Bool-cases (key_eq py k m)) [
    | inl e ↦ e ∙ sym (key_eq_trans l k m (key_eq_sym k l h) e)
    | inr e ↦ elim (Bool-cases (key_eq py l m)) [
      | inl e' ↦ absurd (cc (key_eq_trans k l m h e'))
      | inr e' ↦ e ∙ sym e'
    ]
  ]

  key_eq_comm : (k l : Row) → key_eq py k l ≡ key_eq py l k
  key_eq_comm k l = elim (Bool-cases (key_eq py k l)) [
    | inl e ↦ e ∙ sym (key_eq_sym k l e)
    | inr e ↦ elim (Bool-cases (key_eq py l k)) [
      | inl e' ↦ absurd (cc (key_eq_sym l k e'))
      | inr e' ↦ e ∙ sym e'
    ]
  ]

  pub group_of-cong :
      (k l : Row) (g : Groups) → key_eq py k l ≡ true → group_of py k g ≡ group_of py l g
  unfolding group_of
  group_of-cong k l [] h = refl
  group_of-cong k l ((m, vs) ∷ g) h = rw (key_eq_cong k l m h, group_of-cong k l g h) refl

  apart_of : (k k' l : Row) → key_eq py k l ≡ true → key_eq py k' l ≡ false → key_eq py k' k ≡ false
  apart_of k k' l f e = elim (Bool-cases (key_eq py k' k)) [
    | inl d ↦ absurd (cc (key_eq_trans k' k l d f))
    | inr d ↦ d
  ]

  group_of-add_to_group :
      (k k' v : Row) (g : Groups)
      → group_of py k (add_to_group py k' v g)
        ≡ (if key_eq py k k' then join (group_of py k g) (v ∷ []) else group_of py k g)
  unfolding group_of add_to_group
  group_of-add_to_group k k' v [] = refl
  group_of-add_to_group k k' v ((l, vs) ∷ g) = elim (Bool-cases (key_eq py k' l)) [
    | inl e ↦
        let e' : key_eq py k k' ≡ key_eq py k l =
          key_eq_comm k k' ∙ key_eq_cong k' l k e ∙ key_eq_comm l k in
        rw (e, e') (ground arith)
    | inr e ↦ elim (Bool-cases (key_eq py k l)) [
      | inl f ↦
          let apart : key_eq py k k' ≡ false = key_eq_comm k k' ∙ apart_of k k' l f e in
          rw (e, f, apart) refl
      | inr f ↦ rw (e, f) (group_of-add_to_group k k' v g)
    ]
  ]

  -- The group under k holds the tuples of the rows whose key is k.
  pub group_of-group_rows :
      (exact_idx float_idx : List ℕ) (k : Row) (rs : List Row) (g : Groups)
      → group_of py k (group_rows py exact_idx float_idx rs g)
        ≡ join (group_of py k g) (vecs_with py exact_idx float_idx k rs)
  unfolding group_rows vecs_with
  group_of-group_rows exact_idx float_idx k [] g = sym (join-nil (group_of py k g))
  group_of-group_rows exact_idx float_idx k (r ∷ rs) g =
      let key = pick exact_idx r in
      let vec = pick float_idx r in
      group_of-group_rows exact_idx float_idx k rs (add_to_group py key vec g)
      ∙ (rw (group_of-add_to_group k key vec g) (elim (Bool-cases (key_eq py k key)) [
        | inl e ↦ rw e (join-cons (group_of py k g) vec (vecs_with py exact_idx float_idx k rs))
        | inr e ↦ rw e refl
      ]))

  -- A key that is found among equal keys on one side is found on the other.
  pub keys_within_sound :
      (k : Row) (g h : Groups)
      → keys_within py g h ≡ true
      → is_some (group_of py k g) ≡ true
      → is_some (group_of py k h) ≡ true
  unfolding keys_within group_of
  keys_within_sound k [] h within found = absurd (cc)
  keys_within_sound k ((l, vs) ∷ g) h within found = elim (Bool-cases (key_eq py k l)) [
    | inl e ↦ rw (group_of-cong k l h e) (ground arith)
    | inr e ↦ keys_within_sound k g h (ground arith) (rw e at found)
  ]
