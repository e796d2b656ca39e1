-- ===== src/Compare/Matchers.antt =====
-- router/adapt.py: when `_match_float_vecs` or `_match_float_vecs_subset` says yes, there is a
-- one-to-one pairing of the tuples within tolerance.
use mathlib.Core.List.{Permᴰ, append-nil}
use mathlib.Core.List.Permᴰ
use mathlib.Core.Option.{some-injective}
use synno_db.Base.{
  ℕ, zero, suc, ◌+◌, ◌<◌, ◌≤◌, ◌≡◌, refl, sym, ◌∙◌, ap, Bool, true, false, ◌||◌, Option, none, some,
  List, [], ◌∷◌, ◌++◌, map, arith, length, get_or, get_elem?, range_from, replicate, ◌==◌, ltb, leb,
  inl, inr, Bool-cases, Option-cases, length-replicate, get_or-replicate,
}
use synno_db.Python.{Float, PythonOps}
use synno_db.Compare.Cells.{Row, has_index, vec_close, all2}
use synno_db.Compare.Matching.{
  Match, compatible, compat_table, augment_all, match_exact, match_float_vecs,
  match_float_vecs_subset, sort_vecs, skip_to, greedy, width, exact_match_cap,
}
use synno_db.Compare.Assignment.{at}
use synno_db.Compare.Assignment.Search.{augment_all-Reached}
use synno_db.Compare.Pairing.{
  OneToOne, OneToOne-nil, OneToOne-cons, OneToOne-perm, OneToOne-all2, OneToOne-match,
}
use synno_db.Compare.Sorting.{sort_vecs-Permᴰ, Permᴰ-length}

has_index-range : (n s i : ℕ) → s ≤ i → i < s + n → has_index (range_from s n) i ≡ true
has_index-range zero s i lo hi = absurd (omega arith)
has_index-range (suc n) s i lo hi = ground (arith, has_index-range n (s + 1) i)

at_cell : (m : Match) (j i : ℕ) → at m j ≡ some i → get_elem? m j ≡ some (some i)
at_cell [] j i h = absurd (cc)
at_cell (o ∷ m) zero i h = ap some h
at_cell (o ∷ m) (suc j) i h = at_cell m j i h

row_near :
    (py : PythonOps) (tol : Float) (x : Row) (b : List Row) (j : ℕ)
    → get_or (map (vec_close py tol x) b) j false ≡ true
    → (y : Row) × (get_elem? b j ≡ some y) × (vec_close py tol x y ≡ true)
row_near py tol x [] j h = absurd (cc)
row_near py tol x (y ∷ b) zero h = (y, refl, h)
row_near py tol x (y ∷ b) (suc j) h = row_near py tol x b j h

-- compat[i][j] is about row i of a and row j of b.
compatible-rows :
    (py : PythonOps) (tol : Float) (a b : List Row) (i j : ℕ) (x : Row)
    → get_elem? a i ≡ some x
    → compatible (compat_table py tol a b) i j ≡ true
    → (y : Row) × (get_elem? b j ≡ some y) × (vec_close py tol x y ≡ true)
unfolding compat_table
compatible-rows py tol [] b i j x at_i h = absurd (cc)
compatible-rows py tol (z ∷ a) b zero j x at_i h =
    rw (← some-injective _ _ at_i) (row_near py tol z b j h)
compatible-rows py tol (z ∷ a) b (suc i) j x at_i h = compatible-rows py tol a b i j x at_i h

get_elem?_inside {ℓ} :
    {A : Type ℓ} (xs : List A) (i : ℕ) {x : A} → get_elem? xs i ≡ some x → i < length xs
get_elem?_inside [] i h = absurd (cc)
get_elem?_inside (x ∷ xs) zero h = omega arith
get_elem?_inside (x ∷ xs) (suc i) h = omega (arith, get_elem?_inside xs i h)

pub match_exact-OneToOne :
    (py : PythonOps) (tol : Float) (a b : List Row)
    → match_exact py tol a b ≡ true
    → OneToOne (vec_close py tol) a b
unfolding match_exact
match_exact-OneToOne py tol a b ok =
    let compat = compat_table py tol a b in
    let start : Match = replicate (length b) none in
    let r =
      augment_all-Reached compat (length b) (range_from 0 (length a)) start
        (length-replicate (length b) none)
        (λ i j h. absurd (cc (get_or-replicate {A = Option ℕ} (length b) j none))) ok in
    OneToOne-match (vec_close py tol) a 0
      (augment_all compat (length b) (range_from 0 (length a)) start).1 b
      (λ k x at_k.
        let (j, at_j) = r.places k (
          has_index-range (length a) 0 k (omega arith)
            (omega (arith, get_elem?_inside a k at_k))) in
        let (y, row_j, near) = compatible-rows py tol a b k j x at_k (r.fits k j at_j) in
        let e : 0 + k ≡ k = omega arith in rw e (j, y, at_cell _ j k at_j, row_j, near))

-- What the `while` loop has walked over goes to the end.
skip_to-perm :
    (py : PythonOps) (tol : Float) (va : Row) (sb : List Row) {r : List Row}
    → skip_to py tol va sb ≡ some r
    → (vb : Row) × (front : List Row) × (vec_close py tol va vb ≡ true)
      × Permᴰ (vb ∷ (r ++ front)) sb
unfolding skip_to
skip_to-perm py tol va [] h = absurd (cc)
skip_to-perm py tol va (w ∷ sb) {r} h = elim (Bool-cases (vec_close py tol va w)) [
  | inl near ↦ (
    w,
    [],
    near,
    Permᴰ.cons refl (rw (append-nil, some-injective _ _ (rw (near, skip_to) at h)) (Permᴰ.refl r)),
  )
  | inr far ↦
      let (vb, front, near, perm) = skip_to-perm py tol va sb {r = r} (rw (far, skip_to) at h) in
      (
        vb,
        w ∷ front,
        near,
        Permᴰ.trans (Permᴰ.cons refl (Permᴰ.middle w r front))
            (Permᴰ.trans (Permᴰ.swap refl refl) (Permᴰ.cons refl perm)),
      )
]

greedy-OneToOne :
    (py : PythonOps) (tol : Float) (sa sb : List Row)
    → greedy py tol sa sb ≡ true
    → OneToOne (vec_close py tol) sa sb
unfolding greedy
greedy-OneToOne py tol [] sb h = OneToOne-nil (vec_close py tol) sb
greedy-OneToOne py tol (va ∷ sa) sb h = elim (Option-cases (skip_to py tol va sb)) [
  | inl e ↦ absurd (cc (rw (e, greedy) at h))
  | inr (r, e) ↦
      let (vb, front, near, perm) = skip_to-perm py tol va sb e in
      OneToOne-cons (vec_close py tol) va vb front near
        (greedy-OneToOne py tol sa r (rw (e, greedy) at h)) perm
]

-- the sorted branch, when both sides have one length
sorted-OneToOne :
    (py : PythonOps) (tol : Float) (a b : List Row)
    → length a ≡ length b
    → all2 (vec_close py tol) (sort_vecs py a) (sort_vecs py b) ≡ true
    → OneToOne (vec_close py tol) a b
sorted-OneToOne py tol a b l h =
    OneToOne-perm (vec_close py tol) (Permᴰ.symm (sort_vecs-Permᴰ py a))
      (Permᴰ.symm (sort_vecs-Permᴰ py b))
      (OneToOne-all2 (vec_close py tol) (sort_vecs py a) (sort_vecs py b)
        (sym (Permᴰ-length (sort_vecs-Permᴰ py a)) ∙ l ∙ Permᴰ-length (sort_vecs-Permᴰ py b)) h)

empty_pairing : (f : Row → Row → Bool) (a b : List Row) → (length a == 0) ≡ true → OneToOne f a b
empty_pairing f [] b h = OneToOne-nil f b
empty_pairing f (x ∷ a) b h = absurd (ground arith)

-- If `_match_float_vecs` accepts two groups of one size, their float tuples are paired one to one,
-- each pair within tolerance: in the sorted branch, in the exact branch, and for an empty group.
pub match_float_vecs-OneToOne :
    (py : PythonOps) (tol : Float) (a b : List Row)
    → length a ≡ length b
    → match_float_vecs py tol a b ≡ true
    → OneToOne (vec_close py tol) a b
unfolding match_float_vecs
match_float_vecs-OneToOne py tol a b l h = elim (Bool-cases (length a == 0)) [
  | inl e ↦ empty_pairing (vec_close py tol) a b e
  | inr e ↦ elim (Bool-cases (leb (width a) 1 || ltb exact_match_cap (length a))) [
    | inl by_sort ↦ sorted-OneToOne py tol a b l (rw (e, by_sort) at h)
    | inr small ↦ match_exact-OneToOne py tol a b (rw (e, small) at h)
  ]
]

-- If `_match_float_vecs_subset` accepts, every float tuple of a is paired with a tuple of b of its
-- own within tolerance.
pub match_float_vecs_subset-OneToOne :
    (py : PythonOps) (tol : Float) (a b : List Row)
    → match_float_vecs_subset py tol a b ≡ true
    → OneToOne (vec_close py tol) a b
unfolding match_float_vecs_subset
match_float_vecs_subset-OneToOne py tol a b h = elim (Bool-cases (length a == 0)) [
  | inl e ↦ empty_pairing (vec_close py tol) a b e
  | inr e ↦ elim (Bool-cases (ltb (length b) (length a))) [
    | inl short ↦ absurd (cc (rw (e, short) at h))
    | inr long ↦ elim (Bool-cases (leb (width a) 1 || ltb exact_match_cap (length b))) [
      | inl by_sort ↦
          OneToOne-perm (vec_close py tol) (Permᴰ.symm (sort_vecs-Permᴰ py a))
            (Permᴰ.symm (sort_vecs-Permᴰ py b))
            (greedy-OneToOne py tol (sort_vecs py a) (sort_vecs py b) (rw (e, long, by_sort) at h))
      | inr small ↦ match_exact-OneToOne py tol a b (rw (e, long, small) at h)
    ]
  ]
]
