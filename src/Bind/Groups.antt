-- ===== src/Bind/Groups.antt =====
-- router/normalize.py: binding groups, and the values of a query split into the parameters that the
-- engine expects.
use Prim.Native.Nat.{◌/◌, ◌%◌}
use Prim.Native.Char.{Char}
use Prim.Native.String.{◌++◌ as concat}
use synno_db.Base.{
  ℕ, zero, suc, ◌+◌, String, Bool, true, false, ◌&&◌, ◌||◌, Option, none, some, List, [], ◌∷◌, ◌++◌,
  get_or, map, ◌==◌, ltb, str_eq, if◌then◌else◌, get_or_else,
}
use synno_db.Base.Dict.{Dict, get, put}
use synno_db.Base.Int.{pos, negsuc}
use synno_db.Python.{Cell, Kind, exact, null, PythonOps}
use synno_db.Registry.{PlaceholderSpec}
use synno_db.Bind.Split.{chars, text_of, match_consts, consts_of}

-- the named values that an engine is called with
abbrev pub Args : Type 0
Args = Dict Cell

-- What router/normalize.py computes from sqlglot's parse of a statement.
pub record SqlOps : Type 0 where
  -- normalize_sql
  pub normalize : String → Option String
  -- is_select
  pub is_select : String → Bool
  -- _all_statements_are_select
  pub all_statements_are_select : String → Bool
  -- same_statement
  pub same_statement : String → String → Bool
  -- has_param_markers
  pub has_param_markers : String → Bool
  -- extract_literals
  pub extract_literals : String → List Cell
  -- constant_in_arities
  pub constant_in_arities : String → Option (List ℕ)
  -- unify_and_bind
  pub unify_and_bind : String → String → List String → Option Args
  -- has_order_by
  pub has_order_by : String → Bool
  -- order_by_key_indices
  pub order_by_key_indices : String → List String → Option (List ℕ)

-- _loose_eq
unfoldable pub loose_eq : PythonOps → Cell → Cell → Bool
loose_eq py a b = py.eq a b || str_eq (py.show a) (py.show b)

-- `s` belongs to the group that begins with `first`
abbrev pub same_group : PlaceholderSpec → PlaceholderSpec → Bool
same_group first s = elim s.group [
  | negsuc _ ↦ false
  | pos n ↦ elim first.group [ negsuc _ ↦ false | pos m ↦ m == n ]
]

abbrev pub joins : List PlaceholderSpec → PlaceholderSpec → Bool
joins [] s = false
joins (first ∷ _) s = same_group first s

-- one round of the loop of binding_groups
unfoldable pub add_spec :
    List (List PlaceholderSpec) → PlaceholderSpec → List (List PlaceholderSpec)
add_spec [] s = (s ∷ []) ∷ []
add_spec (g ∷ []) s = if joins g s then (g ++ s ∷ []) ∷ [] else g ∷ (s ∷ []) ∷ []
add_spec (g ∷ h ∷ gs) s = g ∷ add_spec (h ∷ gs) s

unfoldable pub groups_from :
    List (List PlaceholderSpec) → List PlaceholderSpec → List (List PlaceholderSpec)
unfolding add_spec
groups_from gs [] = gs
groups_from gs (s ∷ specs) = groups_from (add_spec gs s) specs

unfoldable pub binding_groups : List PlaceholderSpec → List (List PlaceholderSpec)
unfolding groups_from
binding_groups specs = groups_from [] specs

abbrev pub text_cell : List Char → Cell
text_cell cs = exact (record { kind = Kind.text; repr = text_of cs })

-- the loop over zip(group, cores), which refuses one name with two values
unfoldable pub collect :
    List PlaceholderSpec → List (List Char) → Dict String → Option (Dict String)
collect [] cores out = some out
collect (s ∷ group) [] out = some out
collect (s ∷ group) (core ∷ cores) out =
    let rest = collect group cores (put out s.name (text_of core)) in
    elim (get out s.name) [
      | none ↦ rest
      | some old ↦ if str_eq old (text_of core) then rest else none
    ]

abbrev pub as_args : Dict String → Args
as_args d = map (λ e. (e.0, exact (record { kind = Kind.text; repr = e.1 }))) d

unfoldable pub split_text : List PlaceholderSpec → String → Option Args
unfolding collect
split_text group s = elim (match_consts (consts_of group) (chars s)) [
  | none ↦ none
  | some cores ↦ elim (collect group cores []) [ none ↦ none | some d ↦ some (as_args d) ]
]

abbrev pub is_whole : List PlaceholderSpec → Bool
is_whole (s ∷ []) = str_eq s.prefix "" && str_eq s.suffix ""
is_whole _ = false

abbrev is_text : Kind → Bool
is_text Kind.text = true
is_text _ = false

-- isinstance(value, str), with its characters
abbrev pub as_text : Cell → Option String
as_text (exact v) = if is_text v.kind then some v.repr else none
as_text _ = none

abbrev pub head_name : List PlaceholderSpec → String
head_name [] = ""
head_name (s ∷ _) = s.name

-- A group is never empty.
unfoldable pub split_literal : Cell → List PlaceholderSpec → Option Args
unfolding split_text
split_literal value group =
    if is_whole group
    then some ((head_name group, value) ∷ [])
    else elim (as_text value) [ none ↦ none | some s ↦ split_text group s ]

-- the inner loop of merge_split
unfoldable pub merge : PythonOps → Args → Args → Option Args
unfolding loose_eq
merge py out [] = some out
merge py out ((name, val) ∷ parts) =
    let rest = merge py (put out name val) parts in
    elim (get out name) [ none ↦ rest | some old ↦ if loose_eq py old val then rest else none ]

unfoldable pub merge_from : PythonOps → Args → List (List PlaceholderSpec) → List Cell → Option Args
unfolding merge
merge_from py out [] values = some out
merge_from py out (g ∷ gs) [] = some out
merge_from py out (g ∷ gs) (v ∷ values) = elim (split_literal v g) [
  | none ↦ none
  | some parts ↦ elim (merge py out parts) [
    | none ↦ none
    | some out' ↦ merge_from py out' gs values
  ]
]

unfoldable pub merge_split : PythonOps → List (List PlaceholderSpec) → List Cell → Option Args
unfolding merge_from split_literal
merge_split py groups values = merge_from py [] groups values

abbrev digits : List String
digits = "0" ∷ "1" ∷ "2" ∷ "3" ∷ "4" ∷ "5" ∷ "6" ∷ "7" ∷ "8" ∷ "9" ∷ []

-- str(i), with fuel above the number of digits
unfoldable pub decimal : ℕ → ℕ → String
decimal zero i = ""
decimal (suc fuel) i =
    let digit = get_or digits (i % 10) "" in
    let front = decimal fuel (i / 10) in if ltb i 10 then digit else concat front digit

-- [f"__grp{i}" for i in range(...)], from i on
unfoldable pub group_names : ℕ → List (List PlaceholderSpec) → List String
unfolding decimal
group_names i [] = []
group_names i (g ∷ gs) = concat "__grp" (decimal (i + 1) i) ∷ group_names (i + 1) gs

unfoldable pub bind_template :
    PythonOps → SqlOps → String → String → List PlaceholderSpec → Option Args
unfolding binding_groups group_names merge_split
bind_template py sql template_sql incoming_sql specs =
    let groups = binding_groups specs in
    let names = group_names 0 groups in
    elim (sql.unify_and_bind template_sql incoming_sql names) [
      | none ↦ none
      | some raw ↦ merge_split py groups (map (λ n. get_or_else (get raw n) null) names)
    ]
