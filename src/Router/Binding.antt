-- ===== src/Router/Binding.antt =====
-- router/router.py: `_bind_placeholders`, the values that the engine is called with.
use synno_db.Base.{
  ℕ, String, Bool, true, false, not, ◌&&◌, ◌||◌, Option, none, some, List, [], ◌∷◌, length, any,
  ◌==◌, str_eq, if◌then◌else◌,
}
use synno_db.Base.Dict.{put}
use synno_db.Base.Int.{pos, negsuc}
use synno_db.Python.{Cell, exact, null, PythonOps}
use synno_db.Registry.{EngineBinding, PlaceholderSpec}
use synno_db.Bind.{Args, SqlOps, binding_groups, merge_split, bind_template}
use synno_db.Router.Guards.{Params, mapping, sequence, scalar}

abbrev pub param_values : Params → List Cell
param_values (mapping m) = exact m ∷ []
param_values (sequence vs) = vs
param_values (scalar v) = v ∷ []

-- s.prefix or s.suffix or s.group >= 0
abbrev pub is_embedded : PlaceholderSpec → Bool
is_embedded s =
    not (str_eq s.prefix "")
    || not (str_eq s.suffix "")
    || elim s.group [ pos _ ↦ true | negsuc _ ↦ false ]

-- {name: (values[i] if i < len(values) else None) for i, name in enumerate(names)}
unfoldable pub zip_literals : Args → List PlaceholderSpec → List Cell → Args
zip_literals out [] values = out
zip_literals out (s ∷ specs) [] = zip_literals (put out s.name null) specs []
zip_literals out (s ∷ specs) (v ∷ values) = zip_literals (put out s.name v) specs values

abbrev same_arities : List ℕ → List ℕ → Bool
same_arities [] [] = true
same_arities (a ∷ as') (b ∷ bs) = a == b && same_arities as' bs
same_arities _ _ = false

-- `if arities: …`: whether the example template agrees on every IN arity
abbrev pub arities_agree : SqlOps → Option (List ℕ) → Option String → Bool
arities_agree sql none template = true
arities_agree sql (some []) template = true
arities_agree sql (some (a ∷ as')) none = false
arities_agree sql (some (a ∷ as')) (some template) = elim (sql.constant_in_arities template) [
  | none ↦ false
  | some bs ↦ same_arities bs (a ∷ as')
]

-- the positional path: one literal for each spec
unfoldable pub bind_positional : SqlOps → EngineBinding → String → Option Args
unfolding zip_literals
bind_positional sql b query =
    if any is_embedded b.placeholders
    then none
    else if arities_agree sql (sql.constant_in_arities query) b.template_sql
    then some (zip_literals [] b.placeholders (sql.extract_literals query))
    else none

unfoldable pub bind_inline : PythonOps → SqlOps → EngineBinding → String → Option Args
bind_inline py sql b query = elim b.template_sql [
  | none ↦ bind_positional sql b query
  | some template ↦
      if sql.has_param_markers template
      then bind_template py sql template query b.placeholders
      else bind_positional sql b query
]

-- _bind_placeholders
unfoldable pub bind_placeholders :
    PythonOps → SqlOps → EngineBinding → String → Option Params → Option Args
bind_placeholders py sql b query none = bind_inline py sql b query
bind_placeholders py sql b query (some params) =
    let values = param_values params in
    let groups = binding_groups b.placeholders in
    if length values == length groups then merge_split py groups values else none
