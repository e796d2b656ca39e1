-- ===== src/Python/Texts.antt =====
-- Operations of `str` on the characters of a text.
use mathlib.Core.List.{reverse}
use Prim.Native.Char.{Char, code}
use synno_db.Base.{
  ℕ, zero, suc, ◌-◌, String, Bool, true, false, ◌&&◌, ◌||◌, Option, none, some, List, [], ◌∷◌, ◌++◌,
  length, ◌==◌, leb, is_some, if◌then◌else◌,
}

abbrev pub chars : String → List Char
chars String.[] = []
chars (String.◌∷◌ c s) = c ∷ chars s

abbrev pub text_of : List Char → String
text_of [] = String.[]
text_of (c ∷ cs) = String.◌∷◌ c (text_of cs)

-- What follows the prefix, if the text begins with it.
unfoldable pub after_prefix : List Char → List Char → Option (List Char)
after_prefix [] cs = some cs
after_prefix (p ∷ ps) [] = none
after_prefix (p ∷ ps) (c ∷ cs) =
    let rest = after_prefix ps cs in if code p == code c then rest else none

-- s.startswith(x)
unfoldable pub starts_with : List Char → List Char → Bool
unfolding after_prefix
starts_with x cs = is_some (after_prefix x cs)

-- x in s
unfoldable pub occurs : List Char → List Char → Bool
unfolding starts_with
occurs x [] = starts_with x []
occurs x (c ∷ cs) = starts_with x (c ∷ cs) || occurs x cs

abbrev pub Text : Type 0
Text = List Char

abbrev pub same_text : Text → Text → Bool
same_text [] [] = true
same_text (c ∷ cs) (d ∷ ds) = code c == code d && same_text cs ds
same_text _ _ = false

abbrev pub drop_text : ℕ → Text → Text
drop_text zero cs = cs
drop_text (suc n) [] = []
drop_text (suc n) (c ∷ cs) = drop_text n cs

abbrev pub take_text : ℕ → Text → Text
take_text zero cs = []
take_text (suc n) [] = []
take_text (suc n) (c ∷ cs) = c ∷ take_text n cs

-- s.endswith(x)
unfoldable pub ends_with : Text → Text → Bool
unfolding starts_with
ends_with x cs = starts_with (reverse x) (reverse cs)

-- s.find(x), none for -1
unfoldable pub find : Text → Text → Option ℕ
unfolding starts_with
find x [] = if starts_with x [] then some 0 else none
find x (c ∷ cs) =
    let later = find x cs in
    if starts_with x (c ∷ cs) then some 0 else elim later [ none ↦ none | some n ↦ some (suc n) ]

-- s.count(x) for an x that is not empty; `skip` characters belong to the occurrence before
unfoldable pub count_from : Text → ℕ → Text → ℕ
unfolding starts_with
count_from x skip [] = 0
count_from x (suc skip) (c ∷ cs) = count_from x skip cs
count_from x zero (c ∷ cs) =
    let hit = count_from x (length x - 1) cs in
    let miss = count_from x 0 cs in if starts_with x (c ∷ cs) then suc hit else miss

unfoldable pub count : Text → Text → ℕ
unfolding count_from
count x cs = count_from x 0 cs

-- s.replace(x, y) for an x that is not empty
unfoldable pub replace_from : Text → Text → ℕ → Text → Text
unfolding starts_with
replace_from x y skip [] = []
replace_from x y (suc skip) (c ∷ cs) = replace_from x y skip cs
replace_from x y zero (c ∷ cs) =
    let hit = replace_from x y (length x - 1) cs in
    let miss = replace_from x y 0 cs in if starts_with x (c ∷ cs) then y ++ hit else c ∷ miss

unfoldable pub replace : Text → Text → Text → Text
unfolding replace_from
replace x y cs = replace_from x y 0 cs

-- s.replace(x, y, 1)
unfoldable pub replace_once : Text → Text → Text → Text
unfolding after_prefix
replace_once x y [] = []
replace_once x y (c ∷ cs) =
    let miss = replace_once x y cs in
    elim (after_prefix x (c ∷ cs)) [ some rest ↦ y ++ rest | none ↦ c ∷ miss ]

-- "\n".join(lines)
abbrev pub join_lines : List Text → Text
join_lines [] = []
join_lines (l ∷ []) = l
join_lines (l ∷ k ∷ ls) = l ++ (chars "\n" ++ join_lines (k ∷ ls))

-- the line boundaries of str.splitlines
abbrev pub is_break : Char → Bool
is_break c =
    leb 10 (code c) && leb (code c) 13
    || leb 28 (code c) && leb (code c) 30
    || code c == 133
    || code c == 8232
    || code c == 8233

-- The loop of s.splitlines(): the line so far, and whether a carriage return stands before.
unfoldable pub split_from : Bool → Text → Text → List Text
split_from after_cr line [] = elim line [ [] ↦ [] | c ∷ cs ↦ (c ∷ cs) ∷ [] ]
split_from after_cr line (c ∷ cs) = elim (after_cr && code c == 10) [
  | true ↦ split_from false line cs
  | false ↦ elim (is_break c) [
    | true ↦ line ∷ split_from (code c == 13) [] cs
    | false ↦ split_from false (line ++ c ∷ []) cs
  ]
]

unfoldable pub splitlines : Text → List Text
unfolding split_from
splitlines cs = split_from false [] cs
