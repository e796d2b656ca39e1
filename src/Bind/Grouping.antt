-- ===== src/Bind/Grouping.antt =====
-- router/normalize.py: `binding_groups` cuts the list of placeholders into runs.
use synno_db.Base.{
  ◌≡◌, refl, sym, ap, ◌∙◌, inl, inr, Bool, true, false, ◌&&◌, List, [], ◌∷◌, ◌++◌, arith,
  Bool-cases, all,
}
use mathlib.Core.Path.{subst}
use synno_db.Registry.{PlaceholderSpec}
use synno_db.Bind.Groups.{same_group, joins, add_spec, groups_from, binding_groups}

pub concat_groups : List (List PlaceholderSpec) → List PlaceholderSpec
concat_groups [] = []
concat_groups (g ∷ gs) = g ++ concat_groups gs

-- All members of a group share the group number of its first; a group is never empty.
abbrev pub is_group : List PlaceholderSpec → Bool
is_group [] = false
is_group (first ∷ rest) = all (same_group first) rest

append_assoc : (xs ys zs : List PlaceholderSpec) → (xs ++ ys) ++ zs ≡ xs ++ (ys ++ zs)
append_assoc [] ys zs = refl
append_assoc (x ∷ xs) ys zs = ap (λ r. x ∷ r) (append_assoc xs ys zs)

append_nil : (xs : List PlaceholderSpec) → xs ++ [] ≡ xs
append_nil [] = refl
append_nil (x ∷ xs) = ap (λ r. x ∷ r) (append_nil xs)

all-append :
    (p : PlaceholderSpec → Bool) (xs ys : List PlaceholderSpec)
    → all p (xs ++ ys) ≡ (all p xs && all p ys)
all-append p [] ys = refl
all-append p (x ∷ xs) ys = ground (arith, all-append p xs ys)

concat-add_spec :
    (gs : List (List PlaceholderSpec)) (s : PlaceholderSpec)
    → concat_groups (add_spec gs s) ≡ concat_groups gs ++ s ∷ []
unfolding add_spec concat_groups
concat-add_spec [] s = refl
concat-add_spec (g ∷ []) s = elim (Bool-cases (joins g s)) [
  | inl e ↦ rw (e, add_spec, append_nil g, append_nil (g ++ s ∷ [])) refl
  | inr e ↦ rw (e, add_spec, append_nil g) refl
]
concat-add_spec (g ∷ h ∷ gs) s =
    ap (λ r. g ++ r) (concat-add_spec (h ∷ gs) s)
    ∙ sym (append_assoc g (concat_groups (h ∷ gs)) (s ∷ []))

is_group-append :
    (g : List PlaceholderSpec) (s : PlaceholderSpec)
    → joins g s ≡ true
    → is_group g ≡ true
    → is_group (g ++ s ∷ []) ≡ true
is_group-append [] s j h = absurd (ground (arith, h))
is_group-append (first ∷ rest) s j h = rw (all-append (same_group first) rest (s ∷ []), h, j) refl

groups-add_spec :
    (gs : List (List PlaceholderSpec)) (s : PlaceholderSpec)
    → all is_group gs ≡ true
    → all is_group (add_spec gs s) ≡ true
unfolding add_spec concat_groups
groups-add_spec [] s h = refl
groups-add_spec (g ∷ []) s h = elim (Bool-cases (joins g s)) [
  | inl e ↦
      let before : is_group g ≡ true = ground (arith, h) in
      rw (e, add_spec, is_group-append g s e before) refl
  | inr e ↦ let before : is_group g ≡ true = ground (arith, h) in rw (e, add_spec, before) refl
]
groups-add_spec (g ∷ h ∷ gs) s p =
    let before : is_group g ≡ true = ground (arith, p) in
    let later : all is_group (h ∷ gs) ≡ true = ground (arith, p) in
    rw (before, groups-add_spec (h ∷ gs) s later) refl

pub record Grouped (gs : List (List PlaceholderSpec)) (specs : List PlaceholderSpec) : Type 0 where
  pub flat : concat_groups gs ≡ specs
  pub groups : all is_group gs ≡ true

groups_from-Grouped :
    (gs : List (List PlaceholderSpec)) (seen specs : List PlaceholderSpec)
    → Grouped gs seen
    → Grouped (groups_from gs specs) (seen ++ specs)
unfolding groups_from
groups_from-Grouped gs seen [] h = record {
  flat = h.flat ∙ sym (append_nil seen);
  groups = h.groups;
}
groups_from-Grouped gs seen (s ∷ specs) h =
    subst (Grouped (groups_from (add_spec gs s) specs)) (append_assoc seen (s ∷ []) specs) (
      groups_from-Grouped (add_spec gs s) (seen ++ s ∷ []) specs (record {
        flat = concat-add_spec gs s ∙ ap (λ r. r ++ s ∷ []) h.flat;
        groups = groups-add_spec gs s h.groups;
      }))

-- The binding groups put together in order are the placeholders, none is lost or moved; no group is
-- empty, and its members share the group number of its first.
pub binding_groups-Grouped : (specs : List PlaceholderSpec) → Grouped (binding_groups specs) specs
unfolding binding_groups concat_groups
binding_groups-Grouped specs =
    groups_from-Grouped [] [] specs (record { flat = refl; groups = refl })
