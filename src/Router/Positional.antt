-- ===== src/Router/Positional.antt =====
-- router/router.py and router/normalize.py: values that the caller binds go to the placeholders in
-- order.
use synno_db.Base.{
  suc, String, ◌≡◌, refl, ap, ◌∙◌, Bool, true, false, not, ◌&&◌, none, some, List, [], ◌∷◌, ◌++◌,
  map, length, all, ◌==◌, arith, str_eq,
}
use synno_db.Base.Dict.{StrSet, contains, get, put, get-put}
use synno_db.Python.{Cell, PythonOps}
use synno_db.Registry.{EngineBinding, PlaceholderSpec}
use synno_db.Bind.{
  Args, SqlOps, same_group, add_spec, groups_from, binding_groups, split_literal, merge, merge_from,
  merge_split,
}
use synno_db.Router.Guards.{sequence}
use synno_db.Router.Binding.{zip_literals, bind_placeholders, is_embedded}

abbrev single : PlaceholderSpec → List PlaceholderSpec
single s = s ∷ []

-- The placeholder is a literal of its own.
abbrev pub is_plain_spec : PlaceholderSpec → Bool
is_plain_spec s = not (is_embedded s)

unfoldable pub distinct_names : StrSet → List PlaceholderSpec → Bool
distinct_names seen [] = true
distinct_names seen (s ∷ specs) = not (contains seen s.name) && distinct_names (s.name ∷ seen) specs

same_group-plain : (first s : PlaceholderSpec) → is_plain_spec s ≡ true → same_group first s ≡ false
same_group-plain first s h = ground (arith, h)

append_assoc : (xs ys zs : List (List PlaceholderSpec)) → (xs ++ ys) ++ zs ≡ xs ++ (ys ++ zs)
append_assoc [] ys zs = refl
append_assoc (x ∷ xs) ys zs = ap (λ r. x ∷ r) (append_assoc xs ys zs)

append_nil : (xs : List (List PlaceholderSpec)) → xs ≡ xs ++ []
append_nil [] = refl
append_nil (x ∷ xs) = ap (λ r. x ∷ r) (append_nil xs)

length-map-single : (specs : List PlaceholderSpec) → length (map single specs) ≡ length specs
length-map-single [] = refl
length-map-single (s ∷ specs) = ap suc (length-map-single specs)

add_spec-plain :
    (gs : List (List PlaceholderSpec)) (s : PlaceholderSpec)
    → is_plain_spec s ≡ true
    → add_spec gs s ≡ gs ++ single s ∷ []
unfolding add_spec
add_spec-plain [] s h = refl
add_spec-plain ([] ∷ []) s h = refl
add_spec-plain ((f ∷ g) ∷ []) s h = rw (same_group-plain f s h, add_spec) refl
add_spec-plain (g ∷ g' ∷ gs) s h = ap (λ r. g ∷ r) (add_spec-plain (g' ∷ gs) s h)

groups_from-plain :
    (gs : List (List PlaceholderSpec)) (specs : List PlaceholderSpec)
    → all is_plain_spec specs ≡ true
    → groups_from gs specs ≡ gs ++ map single specs
unfolding groups_from
groups_from-plain gs [] h = append_nil gs
groups_from-plain gs (s ∷ specs) h =
    let here : is_plain_spec s ≡ true = ground (arith, h) in
    let later : all is_plain_spec specs ≡ true = ground (arith, h) in
    ap (λ r. groups_from r specs) (add_spec-plain gs s here)
    ∙ groups_from-plain (gs ++ single s ∷ []) specs later
    ∙ append_assoc gs (single s ∷ []) (map single specs)

-- No name outside `seen` is bound yet.
Unbound : StrSet → Args → Type 0
Unbound seen out = (k : String) → contains seen k ≡ false → get out k ≡ none

Unbound-put :
    (seen : StrSet) (out : Args) (name : String) (v : Cell)
    → Unbound seen out
    → Unbound (name ∷ seen) (put out name v)
unfolding Unbound contains
Unbound-put seen out name v h k e =
    let other : str_eq name k ≡ false = ground (arith, e) in
    let unseen : contains seen k ≡ false = ground (arith, e) in
    get-put out name k v ∙ rw other (h k unseen)

merge_from-plain :
    (py : PythonOps) (seen : StrSet) (out : Args) (specs : List PlaceholderSpec)
    (values : List Cell)
    → all is_plain_spec specs ≡ true
    → distinct_names seen specs ≡ true
    → length values ≡ length specs
    → Unbound seen out
    → merge_from py out (map single specs) values ≡ some (zip_literals out specs values)
unfolding merge_from zip_literals split_literal merge distinct_names Unbound
merge_from-plain py seen out [] values p d l u = refl
merge_from-plain py seen out (s ∷ specs) [] p d l u = absurd (ground (arith, l))
merge_from-plain py seen out (s ∷ specs) (v ∷ values) p d l u =
    let whole : (str_eq s.prefix "" && str_eq s.suffix "") ≡ true = ground (arith, p) in
    let free : get out s.name ≡ none = u s.name (ground (arith, d)) in
    let later : all is_plain_spec specs ≡ true = ground (arith, p) in
    let others : distinct_names (s.name ∷ seen) specs ≡ true = ground (arith, d) in
    rw (whole, free, merge_from, split_literal, merge)
      (merge_from-plain py (s.name ∷ seen) (put out s.name v) specs values later others
        (omega arith) (Unbound-put seen out s.name v u))

-- When every placeholder of the binding is a literal of its own and their names are distinct, as many
-- values as placeholders that the caller gives in a sequence are bound in order: each name gets the
-- value at its place, as in the pairing of inline literals.
pub bind_placeholders-sequence :
    (py : PythonOps) (sql : SqlOps) (b : EngineBinding) (query : String) (values : List Cell)
    → all is_plain_spec b.placeholders ≡ true
    → distinct_names [] b.placeholders ≡ true
    → length values ≡ length b.placeholders
    → bind_placeholders py sql b query (some (sequence values))
      ≡ some (zip_literals [] b.placeholders values)
unfolding bind_placeholders binding_groups merge_split Unbound get
bind_placeholders-sequence py sql b query values plain distinct few =
    let groups : binding_groups b.placeholders ≡ map single b.placeholders =
      groups_from-plain [] b.placeholders plain in
    let fit : (length values == length (map single b.placeholders)) ≡ true =
      ground (arith, few, length-map-single b.placeholders) in
    rw (groups, fit, bind_placeholders)
      (merge_from-plain py [] [] b.placeholders values plain distinct few (λ k e. refl))
