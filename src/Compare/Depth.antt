-- ===== src/Compare/Depth.antt =====
-- router/adapt.py: the search for an augmenting path ends. Each nested call marks one more column, so
-- it is never deeper than there are columns.
use synno_db.Base.{
  ℕ, zero, suc, ◌+◌, ◌≤◌, ◌<◌, ◌≡◌, refl, sym, ap, ◌∙◌, inl, inr, Bool, true, false, not, ◌&&◌,
  none, some, List, [], ◌∷◌, arith, length, get_or, set, replicate, range_from, Bool-cases,
  Option-cases, length-set, length-replicate,
}
use synno_db.Compare.Matching.{Compat, Match, Tried, compatible, try_columns, augment}
use synno_db.Compare.Assignment.{seen_at, Spec}
use synno_db.Compare.Assignment.Search.{augment-Spec, and_not}

-- The number of columns that are not marked.
unfoldable pub unseen : List Bool → ℕ
unseen [] = 0
unseen (true ∷ seen) = unseen seen
unseen (false ∷ seen) = unseen seen + 1

unseen-set :
    (seen : List Bool) (j : ℕ) → seen_at seen j ≡ false → unseen (set seen j true) + 1 ≡ unseen seen
unfolding unseen
unseen-set [] j h = absurd (ground (arith, h))
unseen-set (true ∷ seen) zero h = absurd (ground (arith, h))
unseen-set (false ∷ seen) zero h = refl
unseen-set (true ∷ seen) (suc j) h = unseen-set seen j h
unseen-set (false ∷ seen) (suc j) h = ap (λ n. n + 1) (unseen-set seen j h)

unseen-grows :
    (seen seen' : List Bool)
    → length seen' ≡ length seen
    → ((j : ℕ) → seen_at seen j ≡ true → seen_at seen' j ≡ true)
    → unseen seen' ≤ unseen seen
unfolding unseen
unseen-grows [] [] l h = omega arith
unseen-grows [] (y ∷ seen') l h = absurd (ground (arith, l))
unseen-grows (x ∷ seen) [] l h = absurd (ground (arith, l))
unseen-grows (x ∷ seen) (y ∷ seen') l h =
    let later : unseen seen' ≤ unseen seen =
      unseen-grows seen seen' (omega arith) (λ j e. h (suc j) e) in
    head x y (h zero) later
  where
    head :
        (x y : Bool)
        → (x ≡ true → y ≡ true)
        → unseen seen' ≤ unseen seen
        → unseen (y ∷ seen') ≤ unseen (x ∷ seen)
    head true true k later = later
    head true false k later = absurd (cc (k refl))
    head false true k later = omega arith
    head false false k later = omega arith

unseen-replicate : (n : ℕ) → unseen (replicate n false) ≡ n
unfolding unseen
unseen-replicate zero = refl
unseen-replicate (suc n) = rw (unseen-replicate n) (omega arith)

-- Two recursive calls that agree where fewer than u columns are unmarked.
Agree : ℕ → (ℕ → List Bool → Match → Tried) → (ℕ → List Bool → Match → Tried) → Type 0
Agree u f g =
    (k : ℕ) (seen : List Bool) (m : Match)
    → length seen ≡ length m
    → unseen seen < u
    → f k seen m ≡ g k seen m

module _ (compat : Compat) (f g : ℕ → List Bool → Match → Tried) (u : ℕ) (agree : Agree u f g)
    (f-Spec : (k : ℕ) (seen : List Bool) (m : Match)
      → length seen ≡ length m
      → Spec compat k seen m (f k seen m)) where
  try_columns-agree :
      (i : ℕ) (js : List ℕ) (seen : List Bool) (m : Match)
      → length seen ≡ length m
      → unseen seen ≤ u
      → try_columns f compat i js seen m ≡ try_columns g compat i js seen m
  unfolding try_columns Agree
  try_columns-agree i [] seen m same few = refl
  try_columns-agree i (j ∷ js) seen m same few =
      elim (Bool-cases (compatible compat i j && not (get_or seen j true))) [
        | inr closed ↦ rw (closed, try_columns) (try_columns-agree i js seen m same few)
        | inl open_column ↦ elim (Option-cases (get_or m j none)) [
          | inl free ↦ rw (open_column, free, try_columns) refl
          | inr (k, held) ↦
              let seen' = set seen j true in
              let clear : seen_at seen j ≡ false =
                and_not (compatible compat i j) (seen_at seen j) open_column in
              let fewer : unseen seen' < u = (let one = unseen-set seen j clear in omega arith) in
              let same' : length seen' ≡ length m = length-set seen j true ∙ same in
              let after : (ℕ → List Bool → Match → Tried) → Tried → Tried = λ call t. elim t.found [
                | true ↦ record { found = true; seen = t.seen; matched = set t.matched j (some i) }
                | false ↦ try_columns call compat i js t.seen t.matched
              ] in
              let calls : f k seen' m ≡ g k seen' m = agree k seen' m same' fewer in
              let spec = f-Spec k seen' m same' in
              let t = f k seen' m in
              let still : unseen t.seen ≤ u =
                (let grown = unseen-grows seen' t.seen spec.seen_length spec.grows in
                  omega arith) in
              let onward : after f t ≡ after g t = (elim (Bool-cases t.found) [
                | inl e ↦ rw e refl
                | inr e ↦ rw e (
                    try_columns-agree i js t.seen t.matched
                      (spec.seen_length ∙ same' ∙ sym spec.match_length) still)
              ]) in
              rw (open_column, held, try_columns) (onward ∙ ap (after g) calls)
        ]
      ]

augment-add :
    (compat : Compat) (n fuel more i : ℕ) (seen : List Bool) (m : Match)
    → length seen ≡ length m
    → unseen seen < fuel
    → augment compat n (fuel + more) i seen m ≡ augment compat n fuel i seen m
unfolding augment Agree
augment-add compat n zero more i seen m same few = absurd (omega arith)
augment-add compat n (suc fuel) more i seen m same few =
    let step : suc fuel + more ≡ suc (fuel + more) = omega arith in
    ap (λ calls. augment compat n calls i seen m) step
    ∙ try_columns-agree compat (augment compat n (fuel + more)) (augment compat n fuel)
        (unseen seen)
        (λ k seen' m' same' fewer. augment-add compat n fuel more k seen' m' same' (omega arith))
        (augment-Spec compat n (fuel + more)) i (range_from 0 n) seen m same (omega arith)

-- The nested calls that the search is allowed are enough: with any more of them it returns the same
-- matching from the start, where no column is marked.
pub augment_lem :
    (compat : Compat) (n more i : ℕ) (m : Match)
    → length m ≡ n
    → augment compat n (n + 1 + more) i (replicate n false) m
      ≡ augment compat n (n + 1) i (replicate n false) m
augment_lem compat n more i m same =
    augment-add compat n (n + 1) more i (replicate n false) m (length-replicate n false ∙ sym same)
      (rw (unseen-replicate n) (omega arith))
