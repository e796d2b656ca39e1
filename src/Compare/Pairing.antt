-- ===== src/Compare/Pairing.antt =====
-- router/adapt.py: one-to-one pairings of rows, and the lemmas by which each branch of the matching
-- code yields one.
use mathlib.Core.List.{append_assoc, append-nil, Permᴰ}
use mathlib.Core.List.Permᴰ
use mathlib.Core.Option.{some-injective}
use synno_db.Base.{
  ℕ, zero, suc, ◌+◌, ◌-◌, ◌≡◌, refl, sym, ◌∙◌, ap, ◌≢◌, Bool, true, Option, some, List, [], ◌∷◌,
  ◌++◌, arith, length, get_elem?, ltb, if◌then◌else◌,
}
use synno_db.Compare.Cells.{Row, all2}

-- Two lists of one length, close place by place.
abbrev pub Close2 : (Row → Row → Bool) → List Row → List Row → Type 0
Close2 f [] [] = Unit
Close2 f [] (y ∷ b) = ⊥
Close2 f (x ∷ a) [] = ⊥
Close2 f (x ∷ a) (y ∷ b) = (f x y ≡ true) × Close2 f a b

-- The rows of a are close to as many distinct rows of b; `rest` is what is left of b.
pub record OneToOne (f : Row → Row → Bool) (a b : List Row) : Type 0 where
  pub partners : List Row
  pub rest : List Row
  pub near : Close2 f a partners
  pub distinct : Permᴰ (partners ++ rest) b

pub Close2-all2 :
    (f : Row → Row → Bool) (a b : List Row) → length a ≡ length b → all2 f a b ≡ true → Close2 f a b
Close2-all2 f [] [] l h = tt
Close2-all2 f [] (y ∷ b) l h = omega arith
Close2-all2 f (x ∷ a) [] l h = omega arith
Close2-all2 f (x ∷ a) (y ∷ b) l h = (ground arith, Close2-all2 f a b (omega arith) (ground arith))

-- A permutation of the left side is followed on the right.
pub Close2-perm :
    (f : Row → Row → Bool) {a a' : List Row} (p : List Row)
    → Permᴰ a a'
    → Close2 f a p
    → (p' : List Row) × Permᴰ p p' × Close2 f a' p'
Close2-perm f p Permᴰ.nil h = (p, Permᴰ.refl p, h)
Close2-perm f [] (Permᴰ.cons e d) h = absurd h
Close2-perm f (y ∷ p) (Permᴰ.cons e d) h =
    let (p', perm, near) = Close2-perm f p d h.1 in
    (y ∷ p', Permᴰ.cons refl perm, (rw (← e) h.0, near))
Close2-perm f [] (Permᴰ.swap e d) h = absurd h
Close2-perm f (y ∷ []) (Permᴰ.swap e d) h = absurd h.1
Close2-perm f (y ∷ z ∷ p) (Permᴰ.swap e d) h =
    (z ∷ y ∷ p, Permᴰ.swap refl refl, (rw (← d) h.1.0, (rw (← e) h.0, h.1.1)))
Close2-perm f p (Permᴰ.trans d e) h =
    let (q, perm, near) = Close2-perm f p d h in
    let (r, perm', near') = Close2-perm f q e near in (r, Permᴰ.trans perm perm', near')

-- Sides that were rearranged before they were paired.
pub OneToOne-perm :
    (f : Row → Row → Bool) {a a' b b' : List Row}
    → Permᴰ a a'
    → Permᴰ b b'
    → OneToOne f a b
    → OneToOne f a' b'
OneToOne-perm f da db o =
    let (p, perm, near) = Close2-perm f o.partners da o.near in
    record {
      partners = p;
      rest = o.rest;
      near = near;
      distinct =
          Permᴰ.trans (Permᴰ.append_right o.rest (Permᴰ.symm perm)) (Permᴰ.trans o.distinct db);
    }

pub OneToOne-all2 :
    (f : Row → Row → Bool) (a b : List Row)
    → length a ≡ length b
    → all2 f a b ≡ true
    → OneToOne f a b
OneToOne-all2 f a b l h = record {
  partners = b;
  rest = [];
  near = Close2-all2 f a b l h;
  distinct = Permᴰ.append-nil b;
}

pub OneToOne-nil : (f : Row → Row → Bool) (b : List Row) → OneToOne f [] b
OneToOne-nil f b = record { partners = []; rest = b; near = tt; distinct = Permᴰ.refl b }

-- x is paired with y, and the others with what is left of b.
pub OneToOne-cons :
    (f : Row → Row → Bool) (x y : Row) {a b c : List Row} (front : List Row)
    → f x y ≡ true
    → OneToOne f a b
    → Permᴰ (y ∷ (b ++ front)) c
    → OneToOne f (x ∷ a) c
OneToOne-cons f x y front h o perm = record {
  partners = y ∷ o.partners;
  rest = o.rest ++ front;
  near = (h, o.near);
  distinct =
      Permᴰ.trans (Permᴰ.cons refl (rw (← append_assoc) (Permᴰ.append_right front o.distinct)))
        perm;
}

abbrev remove_at {ℓ} : {A : Type ℓ} → List A → ℕ → List A
remove_at [] j = []
remove_at (x ∷ xs) zero = xs
remove_at (x ∷ xs) (suc j) = x ∷ remove_at xs j

remove_at-Permᴰ :
    (b : List Row) (j : ℕ) {y : Row} → get_elem? b j ≡ some y → Permᴰ (y ∷ remove_at b j) b
remove_at-Permᴰ [] j h = absurd (cc)
remove_at-Permᴰ (x ∷ b) zero h = Permᴰ.cons (sym (some-injective _ _ h)) (Permᴰ.refl b)
remove_at-Permᴰ (x ∷ b) (suc j) h =
    Permᴰ.trans (Permᴰ.swap refl refl) (Permᴰ.cons refl (remove_at-Permᴰ b j h))

-- where place j goes when place j0 is taken out
abbrev shift : ℕ → ℕ → ℕ
shift j0 j = if ltb j j0 then j else j - 1

shift-suc : (j0 j : ℕ) → j0 ≢ j → shift (suc j0) (suc j) ≡ suc (shift j0 j)
shift-suc j0 j ne = ground arith

shift-suc_zero : (j0 : ℕ) → shift (suc j0) 0 ≡ 0
shift-suc_zero j0 = ground arith

shift_zero : (j : ℕ) → shift 0 (suc j) ≡ j
shift_zero j = ground arith

get_elem?-remove_at {ℓ} :
    {A : Type ℓ} (xs : List A) (j0 j : ℕ)
    → j0 ≢ j
    → get_elem? (remove_at xs j0) (shift j0 j) ≡ get_elem? xs j
get_elem?-remove_at [] j0 j ne = refl
get_elem?-remove_at (x ∷ xs) zero zero ne = absurd (ne refl)
get_elem?-remove_at (x ∷ xs) zero (suc j) ne = rw (shift_zero j) refl
get_elem?-remove_at (x ∷ xs) (suc j0) zero ne = rw (shift-suc_zero j0) refl
get_elem?-remove_at (x ∷ xs) (suc j0) (suc j) ne =
    let ne' : j0 ≢ j = (λ e. ne (ap suc e)) in
    rw (shift-suc j0 j ne') (get_elem?-remove_at xs j0 j ne')

-- Row i + k of a, for each k, has a column of b that the matching gives to it.
abbrev HasColumn : (Row → Row → Bool) → Row → ℕ → List (Option ℕ) → List Row → Type 0
HasColumn f x i m b =
    (j : ℕ) × (y : Row) × (get_elem? m j ≡ some (some i))
    × (get_elem? b j ≡ some y)
    × (f x y ≡ true)

HasColumn-remove_at :
    (f : Row → Row → Bool) (x : Row) (i i0 j0 : ℕ) (m : List (Option ℕ)) (b : List Row)
    → i0 ≢ i
    → get_elem? m j0 ≡ some (some i0)
    → HasColumn f x i m b
    → HasColumn f x i (remove_at m j0) (remove_at b j0)
HasColumn-remove_at f x i i0 j0 m b ne at_j0 (j, y, at_j, row_j, h) =
    let ne' : j0 ≢ j = (λ e. ne (some-injective _ _ (some-injective _ _ (cc)))) in
    (
      shift j0 j,
      y,
      get_elem?-remove_at m j0 j ne' ∙ at_j,
      get_elem?-remove_at b j0 j ne' ∙ row_j,
      h,
    )

-- A matching that holds every row of a at a column of b close to it is a pairing.
pub OneToOne-match :
    (f : Row → Row → Bool) (a : List Row) (i : ℕ) (m : List (Option ℕ)) (b : List Row)
    → ((k : ℕ) (x : Row) → get_elem? a k ≡ some x → HasColumn f x (i + k) m b)
    → OneToOne f a b
OneToOne-match f [] i m b h = OneToOne-nil f b
OneToOne-match f (x ∷ a) i m b h =
    let (j, y, at_j, row_j, near) = h 0 x refl in
    OneToOne-cons f x y {b = remove_at b j} [] near
      (OneToOne-match f a (suc i) (remove_at m j) (remove_at b j) (λ k z at_k.
        let next : HasColumn f z (i + suc k) m b = h (suc k) z at_k in
        let e : suc i + k ≡ i + suc k = omega arith in
        rw e (HasColumn-remove_at f z (i + suc k) (i + 0) j m b (omega arith) at_j next)))
      (rw append-nil (remove_at-Permᴰ b j row_j))
