-- ===== src/Compare/Assignment.antt =====
-- router/adapt.py: what the augmenting search of `_match_float_vecs` finds is a one-to-one
-- assignment of the rows of a to compatible rows of b.
pub mod Search
use synno_db.Base.{
  ℕ, ◌<◌, ◌≡◌, sym, ◌∙◌, ◌≢◌, ◌⊎◌, inl, inr, Bool, true, false, Option, none, some, List, length,
  get_or, set, Bool-cases, get_or-set_self, get_or-set_ne, get_or_inside,
}
use mathlib.Core.Option.{some-injective}
use native.Mathlib.Decide.{ℕ_discrete}
use synno_db.Compare.Matching.{Compat, Match, Tried, compatible, augment}

-- the row of a that column j of b is matched with
abbrev pub at : Match → ℕ → Option ℕ
at m j = get_or m j none

abbrev pub seen_at : List Bool → ℕ → Bool
seen_at seen j = get_or seen j true

-- Each matched pair is compatible.
abbrev pub Fits : Compat → Match → Type 0
Fits compat m = (i j : ℕ) → at m j ≡ some i → compatible compat i j ≡ true

-- A successful search for row i places it at an unseen column, keeps every row that was placed,
-- and leaves the seen columns alone.
pub record Success (compat : Compat) (i : ℕ) (seen : List Bool) (m : Match) (t : Tried)
    : Type 0 where
  pub placed : (j : ℕ) × (at t.matched j ≡ some i) × (seen_at seen j ≡ false)
  pub keeps : (k j : ℕ) → at m j ≡ some k → (j' : ℕ) × (at t.matched j' ≡ some k)
  pub frozen : (j : ℕ) → seen_at seen j ≡ true → at t.matched j ≡ at m j
  pub fits : Fits compat m → Fits compat t.matched

pub record Spec (compat : Compat) (i : ℕ) (seen : List Bool) (m : Match) (t : Tried) : Type 0 where
  pub grows : (j : ℕ) → seen_at seen j ≡ true → seen_at t.seen j ≡ true
  pub seen_length : length t.seen ≡ length seen
  pub match_length : length t.matched ≡ length m
  pub result :
      ((t.found ≡ true) × Success compat i seen m t) ⊎ ((t.found ≡ false) × (t.matched ≡ m))

-- Writing a compatible row at column j keeps the matching compatible.
set-Fits :
    (compat : Compat) (i j : ℕ) (m : Match)
    → compatible compat i j ≡ true
    → j < length m
    → Fits compat m
    → Fits compat (set m j (some i))
set-Fits compat i j m fit inside f k p h = elim (ℕ_discrete j p) [
  | yes e ↦
      let e' : k ≡ i =
        some-injective _ _ (sym h ∙ (rw (← e) (get_or-set_self m j (some i) none inside))) in
      rw (e', ← e) fit
  | no ne ↦ f k p (sym (get_or-set_ne m j p (some i) none ne) ∙ h)
]

module _ (compat : Compat) (i j : ℕ) (seen : List Bool) (m : Match)
    (fit : compatible compat i j ≡ true) (unseen : seen_at seen j ≡ false)
    (same : length seen ≡ length m) where
  column_inside : j < length m
  column_inside = rw (← same) (get_or_inside seen j true (λ e. cc))

  pub marked : (p : ℕ) → seen_at seen p ≡ true → seen_at (set seen j true) p ≡ true
  marked p h = rw (get_or-set_ne seen j p true true (λ e. cc)) h

  ne_column : (p : ℕ) → seen_at seen p ≡ true → j ≢ p
  ne_column p h e = cc

  -- `match[j] == -1`
  pub set_free :
      at m j ≡ none
      → Success compat i seen m
          (record { found = true; seen = set seen j true; matched = set m j (some i) })
  set_free free = record {
    placed = (j, get_or-set_self m j (some i) none column_inside, unseen);
    keeps = λ k p h. (p, rw (get_or-set_ne m j p (some i) none (λ e. cc)) h);
    frozen = λ p h. get_or-set_ne m j p (some i) none (ne_column p h);
    fits = set-Fits compat i j m fit column_inside;
  }

  -- `augment(match[j], seen)` has found another column for the row k that was at j
  module _ (k : ℕ) (t : Tried) (held : at m j ≡ some k) (long : length t.matched ≡ length m)
      (moved : Success compat k (set seen j true) m t) where
    seen_here : seen_at (set seen j true) j ≡ true
    seen_here = get_or-set_self seen j true true (rw same column_inside)

    keeps_moved :
        (l p : ℕ) → at m p ≡ some l → (p' : ℕ) × (at (set t.matched j (some i)) p' ≡ some l)
    keeps_moved l p h = elim (ℕ_discrete l k) [
      | yes e ↦
          let (q, at_q, q_unseen) = moved.placed in
          (q, rw (get_or-set_ne t.matched j q (some i) none (λ d. cc seen_here), e) at_q)
      | no ne ↦
          let (q, at_q) = moved.keeps l p h in
          (
            q,
            rw
                (get_or-set_ne t.matched j q (some i) none
                  (λ d. ne (some-injective _ _ (cc (moved.frozen j seen_here)))))
                at_q,
          )
    ]

    pub set_moved :
        Success compat i seen m
          (record { found = true; seen = t.seen; matched = set t.matched j (some i) })
    set_moved = record {
      placed = (j, get_or-set_self t.matched j (some i) none (rw long column_inside), unseen);
      keeps = keeps_moved;
      frozen = λ p h.
          get_or-set_ne t.matched j p (some i) none (ne_column p h) ∙ moved.frozen p (marked p h);
      fits = λ f. set-Fits compat i j t.matched fit (rw long column_inside) (moved.fits f);
    }

module _ (compat : Compat) (i j : ℕ) (seen seen' : List Bool) (m : Match) (t : Tried)
    (more : (p : ℕ) → seen_at seen p ≡ true → seen_at seen' p ≡ true)
    (same_length : length seen' ≡ length seen) where
  unseen_before : (p : ℕ) → seen_at seen' p ≡ false → seen_at seen p ≡ false
  unseen_before p h = elim (Bool-cases (seen_at seen p)) [
    | inl e ↦ absurd (cc (more p e))
    | inr e ↦ e
  ]

  Success-weaken : Success compat i seen' m t → Success compat i seen m t
  Success-weaken s = record {
    placed = let (p, at_p, h) = s.placed in (p, at_p, unseen_before p h);
    keeps = s.keeps;
    frozen = λ p h. s.frozen p (more p h);
    fits = s.fits;
  }

  -- A search that began with more columns seen serves for one that began with fewer.
  pub Spec-weaken : Spec compat i seen' m t → Spec compat i seen m t
  Spec-weaken s = record {
    grows = λ p h. s.grows p (more p h);
    seen_length = s.seen_length ∙ same_length;
    match_length = s.match_length;
    result = elim s.result [ inl (e, w) ↦ inl (e, Success-weaken w) | inr w ↦ inr w ];
  }
