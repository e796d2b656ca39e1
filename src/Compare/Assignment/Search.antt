-- ===== src/Compare/Assignment/Search.antt =====
-- router/adapt.py: the search of `augment` keeps what was placed, and so the loop over all rows.
use synno_db.Base.{
  ℕ, zero, suc, ◌+◌, ◌≡◌, refl, sym, ◌∙◌, inl, inr, Bool, true, false, not, ◌&&◌, none, some, List,
  [], ◌∷◌, arith, length, get_or, set, replicate, range_from, Bool-cases, Option-cases, length-set,
  length-replicate,
}
use native.Mathlib.Decide.{ℕ_discrete}
use synno_db.Compare.Cells.{has_index}
use synno_db.Compare.Matching.{Compat, Match, Tried, compatible, try_columns, augment, augment_all}
use synno_db.Compare.Assignment.{
  at, seen_at, Fits, Success, Spec, marked, set_free, set_moved, Spec-weaken,
}

and_left : (a b : Bool) → (a && b) ≡ true → a ≡ true
and_left a b h = ground arith

pub and_not : (a b : Bool) → (a && not b) ≡ true → b ≡ false
and_not a b h = ground arith

module _ (compat : Compat) (again : ℕ → List Bool → Match → Tried)
    (again-Spec : (k : ℕ) (seen : List Bool) (m : Match)
      → length seen ≡ length m
      → Spec compat k seen m (again k seen m)) where
  -- the branch of column j, when it is compatible and unseen; `rest` goes on behind it
  module _ (i j : ℕ) (seen : List Bool) (m : Match) (same : length seen ≡ length m)
      (open_column : (compatible compat i j && not (get_or seen j true)) ≡ true)
      (rest : List Bool → Match → Tried)
      (rest-Spec : (seen' : List Bool) (m' : Match)
        → length seen' ≡ length m'
        → Spec compat i seen' m' (rest seen' m')) where
    fit : compatible compat i j ≡ true
    fit = and_left (compatible compat i j) (not (seen_at seen j)) open_column

    unseen : seen_at seen j ≡ false
    unseen = and_not (compatible compat i j) (seen_at seen j) open_column

    free-Spec :
        at m j ≡ none
        → Spec compat i seen m
            (record { found = true; seen = set seen j true; matched = set m j (some i) })
    free-Spec free = record {
      grows = marked compat i j seen m fit unseen same;
      seen_length = length-set seen j true;
      match_length = length-set m j (some i);
      result = inl (refl, set_free compat i j seen m fit unseen same free);
    }

    held-Spec :
        (k : ℕ) (t : Tried)
        → at m j ≡ some k
        → Spec compat k (set seen j true) m t
        → Spec compat i seen m (elim t.found [
          | true ↦ record { found = true; seen = t.seen; matched = set t.matched j (some i) }
          | false ↦ rest t.seen t.matched
        ])
    held-Spec k t held s = elim s.result [
      | inl (e, w) ↦ rw e (record {
        grows = λ p h. s.grows p (marked compat i j seen m fit unseen same p h);
        seen_length = s.seen_length ∙ length-set seen j true;
        match_length = length-set t.matched j (some i) ∙ s.match_length;
        result = inl (refl, set_moved compat i j seen m fit unseen same k t held s.match_length w);
      })
      | inr (e, unchanged) ↦
          rw (e, unchanged)
            (Spec-weaken compat i j seen t.seen m (rest t.seen m)
              (λ p h. s.grows p (marked compat i j seen m fit unseen same p h))
              (s.seen_length ∙ length-set seen j true)
              (rest-Spec t.seen m (s.seen_length ∙ length-set seen j true ∙ same)))
    ]

  try_columns-Spec :
      (i : ℕ) (js : List ℕ) (seen : List Bool) (m : Match)
      → length seen ≡ length m
      → Spec compat i seen m (try_columns again compat i js seen m)
  unfolding try_columns
  try_columns-Spec i [] seen m same = record {
    grows = λ p h. h;
    seen_length = refl;
    match_length = refl;
    result = inr (refl, refl);
  }
  try_columns-Spec i (j ∷ js) seen m same =
      elim (Bool-cases (compatible compat i j && not (get_or seen j true))) [
        | inr closed ↦ rw (closed, try_columns) (try_columns-Spec i js seen m same)
        | inl open_column ↦ elim (Option-cases (at m j)) [
          | inl free ↦
              rw (open_column, free, try_columns)
                (free-Spec i j seen m same open_column (try_columns again compat i js)
                  (try_columns-Spec i js) free)
          | inr (k, held) ↦
              rw (open_column, held, try_columns)
                (held-Spec i j seen m same open_column (try_columns again compat i js)
                  (try_columns-Spec i js) k (again k (set seen j true) m) held
                  (again-Spec k (set seen j true) m (length-set seen j true ∙ same)))
        ]
      ]

pub augment-Spec :
    (compat : Compat) (n fuel i : ℕ) (seen : List Bool) (m : Match)
    → length seen ≡ length m
    → Spec compat i seen m (augment compat n fuel i seen m)
unfolding augment
augment-Spec compat n zero i seen m same = record {
  grows = λ p h. h;
  seen_length = refl;
  match_length = refl;
  result = inr (refl, refl);
}
augment-Spec compat n (suc fuel) i seen m same =
    try_columns-Spec compat (augment compat n fuel) (augment-Spec compat n fuel) i (range_from 0 n)
      seen m same

-- What the rounds from `m` on have reached: every listed row of a has a column of b that it is
-- compatible with. A column holds one row, so no two rows share one.
pub record Reached (compat : Compat) (is : List ℕ) (m : Match) (r : Bool × Match) : Type 0 where
  pub places : (i : ℕ) → has_index is i ≡ true → (j : ℕ) × (at r.1 j ≡ some i)
  pub keeps : (k j : ℕ) → at m j ≡ some k → (j' : ℕ) × (at r.1 j' ≡ some k)
  pub fits : Fits compat r.1
  pub match_length : length r.1 ≡ length m

Reached-round :
    (compat : Compat) (i : ℕ) (is : List ℕ) (seen : List Bool) (m : Match) (t : Tried)
    (r : Bool × Match)
    → Success compat i seen m t
    → length t.matched ≡ length m
    → Reached compat is t.matched r
    → Reached compat (i ∷ is) m r
Reached-round compat i is seen m t r w long reached = record {
  places = λ k h. elim (ℕ_discrete k i) [
    | yes e ↦ let (j, at_j, _) = w.placed in rw e (reached.keeps i j at_j)
    | no ne ↦ reached.places k (ground arith)
  ];
  keeps = λ k j h. let (j', at_j) = w.keeps k j h in reached.keeps k j' at_j;
  fits = reached.fits;
  match_length = reached.match_length ∙ long;
}

pub augment_all-Reached :
    (compat : Compat) (n : ℕ) (is : List ℕ) (m : Match)
    → length m ≡ n
    → Fits compat m
    → (augment_all compat n is m).0 ≡ true
    → Reached compat is m (augment_all compat n is m)
unfolding augment_all
augment_all-Reached compat n [] m long f ok = record {
  places = λ i h. absurd (cc);
  keeps = λ k j h. (j, h);
  fits = f;
  match_length = refl;
}
augment_all-Reached compat n (i ∷ is) m long f ok =
    let start = replicate n false in
    let t = augment compat n (n + 1) i start m in
    let s = augment-Spec compat n (n + 1) i start m (length-replicate n false ∙ sym long) in
    elim s.result [
      | inl (e, w) ↦
          rw (e, augment_all)
            (Reached-round compat i is start m t (augment_all compat n is t.matched) w
              s.match_length
              (augment_all-Reached compat n is t.matched (s.match_length ∙ long) (w.fits f)
                (rw (e, augment_all) at ok)))
      | inr (e, _) ↦ absurd (cc (rw (e, augment_all) at ok))
    ]
