-- ===== src/Bind/Split.antt =====
-- router/normalize.py: the one regular expression of `split_literal`, constants joined by
-- `([^%_]*)`, matched in full. A group is greedy and gives back characters from its end.
use Prim.Native.Char.{Char, code}
use synno_db.Base.{String, Bool, ◌||◌, Option, none, some, List, [], ◌∷◌, map, ◌==◌, if◌then◌else◌}
use synno_db.Registry.{PlaceholderSpec}

abbrev pub chars : String → List Char
chars String.[] = []
chars (String.◌∷◌ c s) = c ∷ chars s

abbrev pub text_of : List Char → String
text_of [] = String.[]
text_of (c ∷ cs) = String.◌∷◌ c (text_of cs)

-- a character of the class [%_]
abbrev pub is_wildcard : Char → Bool
is_wildcard c = code c == b'%' || code c == b'_'

unfoldable pub strip_prefix : List Char → List Char → Option (List Char)
strip_prefix [] v = some v
strip_prefix (c ∷ cs) [] = none
strip_prefix (c ∷ cs) (d ∷ v) =
    let rest = strip_prefix cs v in if code c == code d then rest else none

abbrev pub with_char : Char → List (List Char) → List (List Char)
with_char c [] = []
with_char c (core ∷ cores) = (c ∷ core) ∷ cores

abbrev pub stop : Option (List (List Char)) → Option (List (List Char))
stop none = none
stop (some cores) = some ([] ∷ cores)

-- One group and what follows it: the longest group behind which `follow` matches.
unfoldable pub try_core :
    (List Char → Option (List (List Char))) → List Char → Option (List (List Char))
try_core follow [] = stop (follow [])
try_core follow (c ∷ v) =
    let longer = try_core follow v in
    if is_wildcard c
    then stop (follow (c ∷ v))
    else elim longer [ none ↦ stop (follow (c ∷ v)) | some cores ↦ some (with_char c cores) ]

-- re.fullmatch("([^%_]*)".join(consts), v).groups()
unfoldable pub match_consts : List (List Char) → List Char → Option (List (List Char))
unfolding strip_prefix try_core
match_consts [] v = none
match_consts (c ∷ []) v = elim (strip_prefix c v) [
  | none ↦ none
  | some [] ↦ some []
  | some (_ ∷ _) ↦ none
]
match_consts (c ∷ d ∷ cs) v = elim (strip_prefix c v) [
  | none ↦ none
  | some r ↦ try_core (match_consts (d ∷ cs)) r
]

-- [group[0].prefix] + [s.suffix for s in group]
abbrev pub consts_of : List PlaceholderSpec → List (List Char)
consts_of [] = []
consts_of (s ∷ group) = chars s.prefix ∷ map (λ (t : PlaceholderSpec). chars t.suffix) (s ∷ group)
