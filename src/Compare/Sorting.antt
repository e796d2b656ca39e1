-- ===== src/Compare/Sorting.antt =====
-- router/adapt.py: `sorted(..., key=_vec_sort_key)` rearranges rows and loses none.
use mathlib.Core.List.{Permᴰ}
use mathlib.Core.List.Permᴰ
use synno_db.Base.{◌≡◌, refl, ap, ◌++◌, List, [], ◌∷◌, inl, inr, Bool-cases, length, suc, ◌∙◌}
use synno_db.Python.{PythonOps}
use synno_db.Compare.Cells.{Row}
use synno_db.Compare.Matching.{insert_sorted, sort_from, sort_vecs, key_lt, vec_sort_key}

insert_sorted-Permᴰ :
    (py : PythonOps) (x : Row) (ys : List Row) → Permᴰ (x ∷ ys) (insert_sorted py x ys)
unfolding insert_sorted
insert_sorted-Permᴰ py x [] = Permᴰ.refl (x ∷ [])
insert_sorted-Permᴰ py x (y ∷ ys) =
    elim (Bool-cases (key_lt py (vec_sort_key py x) (vec_sort_key py y))) [
      | inl e ↦ rw e (Permᴰ.refl (x ∷ y ∷ ys))
      | inr e ↦
          rw e (Permᴰ.trans (Permᴰ.swap refl refl) (Permᴰ.cons refl (insert_sorted-Permᴰ py x ys)))
    ]

sort_from-Permᴰ : (py : PythonOps) (done xs : List Row) → Permᴰ (done ++ xs) (sort_from py done xs)
unfolding sort_from
sort_from-Permᴰ py done [] = Permᴰ.append-nil done
sort_from-Permᴰ py done (x ∷ xs) = Permᴰ.trans (Permᴰ.middle x done xs) (
    Permᴰ.trans (Permᴰ.append_right xs (insert_sorted-Permᴰ py x done))
      (sort_from-Permᴰ py (insert_sorted py x done) xs))

pub sort_vecs-Permᴰ : (py : PythonOps) (xs : List Row) → Permᴰ xs (sort_vecs py xs)
unfolding sort_vecs
sort_vecs-Permᴰ py xs = sort_from-Permᴰ py [] xs

pub Permᴰ-length : {a b : List Row} → Permᴰ a b → length a ≡ length b
Permᴰ-length Permᴰ.nil = refl
Permᴰ-length (Permᴰ.cons e d) = ap suc (Permᴰ-length d)
Permᴰ-length (Permᴰ.swap e d) = refl
Permᴰ-length (Permᴰ.trans d e) = Permᴰ-length d ∙ Permᴰ-length e
