-- ===== src/Editor/Diffs.antt =====
-- tools/workspace_editor.py: a diff as a model writes it, cleaned of its wrappers, with mistyped
-- context lines repaired from the file.
use Prim.Native.Char.{Char, code}
use synno_db.Base.{
  ℕ, suc, Bool, true, false, not, ◌&&◌, ◌||◌, Option, none, some, List, [], ◌∷◌, any, all, ◌==◌,
  if◌then◌else◌,
}
use mathlib.Core.List.{reverse}
use synno_db.Statement.{is_space}
use synno_db.Python.Texts.{
  Text, chars, same_text, starts_with, after_prefix, replace, splitlines, join_lines,
}

abbrev pub contains_text : List Text → Text → Bool
contains_text [] t = false
contains_text (s ∷ ss) t = same_text s t || contains_text ss t

abbrev pub drop_spaces : Text → Text
drop_spaces [] = []
drop_spaces (c ∷ cs) = let rest = drop_spaces cs in if is_space c then rest else c ∷ cs

-- line.strip()
abbrev pub strip_text : Text → Text
strip_text cs = reverse (drop_spaces (reverse (drop_spaces cs)))

abbrev pub is_blank : Text → Bool
is_blank cs = all is_space cs

-- _CANON_REPLACEMENTS
abbrev pub canon_replacements : List (Text × Text)
canon_replacements =
    (chars "—", chars "-")
    ∷ (chars "–", chars "-")
    ∷ (chars "‒", chars "-")
    ∷ (chars "‑", chars "-")
    ∷ (chars "−", chars "-")
    ∷ (chars "‘", chars "'")
    ∷ (chars "’", chars "'")
    ∷ (chars "“", chars "\"")
    ∷ (chars "”", chars "\"")
    ∷ (chars "…", chars "...")
    ∷ (chars "→", chars "->")
    ∷ (chars "⇒", chars "=>")
    ∷ (chars "≈", chars "~")
    ∷ (chars "×", chars "x")
    ∷ (chars "≤", chars "<=")
    ∷ (chars "≥", chars ">=")
    ∷ []

unfoldable pub replace_all : List (Text × Text) → Text → Text
unfolding replace
replace_all [] cs = cs
replace_all ((x, y) ∷ rest) cs = replace_all rest (replace x y cs)

-- Python's unicodedata: normalize("NFKC", line), and the characters that \d matches.
pub record Unicode : Type 0 where
  pub nfkc : Text → Text
  pub is_decimal : Char → Bool

-- re.sub(r"\s", " ", line)
abbrev pub plain_spaces : Text → Text
plain_spaces [] = []
plain_spaces (c ∷ cs) = (if is_space c then " " else c) ∷ plain_spaces cs

abbrev pub three_digits : Unicode → Text → Bool
three_digits u (a ∷ b ∷ c ∷ cs) = u.is_decimal a && u.is_decimal b && u.is_decimal c
three_digits u _ = false

abbrev pub is_separator : Char → Bool
is_separator c = code c == 44 || code c == 32

-- re.sub(r"(?<=\d)[, ](?=\d{3})", "", line); the flag says that a digit stands before
unfoldable pub join_digits : Unicode → Bool → Text → Text
join_digits u after_digit [] = []
join_digits u after_digit (c ∷ cs) =
    let rest = join_digits u (u.is_decimal c) cs in
    if after_digit && is_separator c && three_digits u cs then rest else c ∷ rest

-- re.sub(r" +", " ", line); the flag says that a space stands before
unfoldable pub squeeze : Bool → Text → Text
squeeze after_space [] = []
squeeze after_space (c ∷ cs) =
    let rest = squeeze (code c == 32) cs in if after_space && code c == 32 then rest else c ∷ rest

-- _canonicalize_line
unfoldable pub canonicalize_line : Unicode → Text → Text
unfolding replace_all join_digits squeeze
canonicalize_line u line =
    let spaced = plain_spaces (replace_all canon_replacements (u.nfkc line)) in
    strip_text (squeeze false (join_digits u false spaced))

-- canon_to_bodies.get(...): the different lines of the file with this canonical form
unfoldable pub candidates : Unicode → List Text → Text → List Text
candidates u [] canon = []
candidates u (l ∷ ls) canon =
    let rest = candidates u ls canon in
    if same_text (canonicalize_line u l) canon && not (contains_text rest l) then l ∷ rest else rest

-- A line of the diff that is context or a deletion: its body may be repaired.
abbrev pub is_quoted : Text → Bool
unfolding starts_with
is_quoted line =
    (starts_with (chars " ") line || starts_with (chars "-") line)
    && not (starts_with (chars "---") line)

abbrev pub is_nonempty : Text → Bool
is_nonempty [] = false
is_nonempty (c ∷ cs) = true

-- The body's one candidate, if it is mistyped and there is just one.
unfoldable pub true_body : Unicode → List Text → Text → Option Text
unfolding candidates
true_body u file body =
    if is_nonempty body && not (contains_text file body)
    then elim (candidates u file (canonicalize_line u body)) [
      | [] ↦ none
      | l ∷ [] ↦ some l
      | l ∷ k ∷ ls ↦ none
    ]
    else none

-- The body of the loop of repair_diff_context: the line, and whether it changed.
unfoldable pub repair_line : Unicode → List Text → Text → Text × Bool
unfolding true_body starts_with
repair_line u file [] = ([], false)
repair_line u file (mark ∷ body) =
    if is_quoted (mark ∷ body)
    then elim (true_body u file body) [
      | none ↦ (mark ∷ body, false)
      | some l ↦ if same_text l body then (mark ∷ body, false) else (mark ∷ l, true)
    ]
    else (mark ∷ body, false)

unfoldable pub repair_lines : Unicode → List Text → List Text → List Text × Bool
unfolding repair_line
repair_lines u file [] = ([], false)
repair_lines u file (l ∷ ls) =
    let rest = repair_lines u file ls in
    let (l', changed) = repair_line u file l in (l' ∷ rest.0, changed || rest.1)

unfoldable pub repair_diff_context : Unicode → Text → Text → Text
unfolding repair_lines splitlines
repair_diff_context u original diff =
    let (repaired, changed) = repair_lines u (splitlines original) (splitlines diff) in
    if changed then join_lines repaired else diff

abbrev pub drop_blank : List Text → List Text
drop_blank [] = []
drop_blank (l ∷ ls) = let rest = drop_blank ls in if is_blank l then rest else l ∷ ls

-- _FENCE_OPEN and _FENCE_CLOSE
abbrev pub opens_fence : Text → Bool
unfolding starts_with
opens_fence line = starts_with (chars "```") line

abbrev pub closes_fence : Text → Bool
closes_fence line = elim (after_prefix (chars "```") line) [
  | none ↦ false
  | some rest ↦ is_blank rest
]

-- _strip_code_fences
unfoldable pub strip_code_fences : Text → Text
unfolding splitlines starts_with after_prefix
strip_code_fences diff = elim (drop_blank (splitlines diff)) [
  | [] ↦ diff
  | first ∷ rest ↦ elim (drop_blank (reverse rest)) [
    | [] ↦ diff
    | last ∷ inner ↦
        if opens_fence first && closes_fence last then join_lines (reverse inner) else diff
  ]
]

-- _PATCH_ENVELOPE_PREFIXES
abbrev pub patch_envelope_prefixes : List Text
patch_envelope_prefixes =
    chars "*** Begin Patch"
    ∷ chars "*** End Patch"
    ∷ chars "*** Update File:"
    ∷ chars "*** Add File:"
    ∷ chars "*** Delete File:"
    ∷ []

abbrev pub is_envelope : Text → Bool
unfolding starts_with
is_envelope line = any (λ p. starts_with p line) patch_envelope_prefixes

unfoldable pub keep_body : List Text → List Text
unfolding starts_with
keep_body [] = []
keep_body (l ∷ ls) = let rest = keep_body ls in if is_envelope l then rest else l ∷ rest

-- _strip_patch_envelope
unfoldable pub strip_patch_envelope : Text → Text
unfolding keep_body splitlines starts_with
strip_patch_envelope diff =
    if any is_envelope (splitlines diff) then join_lines (keep_body (splitlines diff)) else diff

unfoldable pub normalize_diff_payload : Text → Text
unfolding strip_patch_envelope strip_code_fences
normalize_diff_payload diff = strip_patch_envelope (strip_code_fences diff)

unfoldable pub count_lines : Text → Text → List Text → ℕ
unfolding starts_with
count_lines mark header [] = 0
count_lines mark header (l ∷ ls) =
    let rest = count_lines mark header ls in
    if starts_with mark l && not (starts_with header l) then suc rest else rest

-- count_diff_operations
unfoldable pub count_diff_operations : Text → ℕ × ℕ
unfolding count_lines splitlines
count_diff_operations diff = (
  count_lines (chars "+") (chars "+++") (splitlines diff),
  count_lines (chars "-") (chars "---") (splitlines diff),
)
