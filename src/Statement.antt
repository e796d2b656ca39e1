-- ===== src/Statement.antt =====
-- router/normalize.py: the kind of a statement by its leading keyword, and which statements are
-- allowed while writes are blocked.
pub mod Leading
use Prim.Native.Char.{Char, code}
use synno_db.Base.{
  ℕ, String, Bool, true, false, not, ◌&&◌, ◌||◌, Option, none, some, List, [], ◌∷◌, any, ◌==◌, leb,
  str_eq, if◌then◌else◌,
}
use synno_db.Base.Dict.{StrSet, contains}
use synno_db.Python.{PythonOps}
use synno_db.Bind.{SqlOps, chars, text_of}

abbrev pub read_keywords : StrSet
read_keywords =
    "select" ∷ "with" ∷ "explain" ∷ "describe" ∷ "desc" ∷ "show" ∷ "summarize" ∷ "values" ∷ "pragma"
    ∷ "table" ∷ "from" ∷ []

abbrev pub write_keywords : StrSet
write_keywords =
    "insert" ∷ "update" ∷ "delete" ∷ "merge" ∷ "create" ∷ "drop" ∷ "alter" ∷ "truncate" ∷ "replace"
    ∷ "attach" ∷ "detach" ∷ "copy" ∷ "import" ∷ "export" ∷ "set" ∷ "begin" ∷ "commit" ∷ "rollback"
    ∷ "checkpoint" ∷ "vacuum" ∷ "call" ∷ "use" ∷ "load" ∷ "install" ∷ []

abbrev between : ℕ → ℕ → ℕ → Bool
between low high n = leb low n && leb n high

-- [A-Za-z_]
abbrev pub is_letter : Char → Bool
is_letter c = between 65 90 (code c) || between 97 122 (code c) || code c == 95

-- \s on a str
abbrev pub is_space : Char → Bool
is_space c =
    between 9 13 (code c)
    || between 28 32 (code c)
    || code c == 133
    || code c == 160
    || code c == 5760
    || between 8192 8202 (code c)
    || code c == 8232
    || code c == 8233
    || code c == 8239
    || code c == 8287
    || code c == 12288

abbrev pub is_char : ℕ → Char → Bool
is_char n c = code c == n

abbrev pub newline : ℕ
newline = 10

abbrev pub star : ℕ
star = 42

abbrev pub dash : ℕ
dash = 45

abbrev pub slash : ℕ
slash = 47

unfoldable pub letters : List Char → List Char
letters [] = []
letters (c ∷ cs) = let rest = letters cs in if is_letter c then c ∷ rest else []

-- Where the match stands: between two items of the group, in a line comment, or in a block comment.
pub data Skipping : Type 0 where
  blank line block : Skipping

-- The match of _LEADING_WORD, a block comment being longer when what follows its end does not match.
unfoldable pub lead : Skipping → List Char → Option (List Char)
unfolding letters
lead blank [] = none
lead blank (c ∷ []) = if is_letter c then some (c ∷ []) else none
lead blank (c ∷ d ∷ cs) = if is_letter c then some (letters (c ∷ d ∷ cs)) else elim (is_space c) [
  | true ↦ lead blank (d ∷ cs)
  | false ↦ elim (is_char dash c && is_char dash d) [
    | true ↦ lead line cs
    | false ↦ elim (is_char slash c && is_char star d) [ true ↦ lead block cs | false ↦ none ]
  ]
]
lead line [] = none
lead line (c ∷ cs) = elim (is_char newline c) [ true ↦ lead blank cs | false ↦ lead line cs ]
lead block [] = none
lead block (c ∷ []) = none
lead block (c ∷ d ∷ cs) = elim (is_char star c && is_char slash d) [
  | false ↦ lead block (d ∷ cs)
  | true ↦
      let longer = lead block (d ∷ cs) in
      elim (lead blank cs) [ none ↦ longer | some word ↦ some word ]
]

-- _leading_keyword
unfoldable pub leading_keyword : PythonOps → String → Option String
unfolding lead
leading_keyword py sql = elim (lead blank (chars sql)) [
  | none ↦ none
  | some word ↦ some (py.lower (text_of word))
]

pub data StatementKind : Type 0 where
  read write unknown : StatementKind

unfoldable pub statement_kind : PythonOps → String → StatementKind
unfolding leading_keyword
statement_kind py sql = elim (leading_keyword py sql) [
  | none ↦ unknown
  | some kw ↦
      if contains write_keywords kw
      then write
      else if contains read_keywords kw
      then read
      else unknown
]

abbrev pub semicolon : ℕ
semicolon = 59

-- s[:-1] if s ends with a semicolon
abbrev pub drop_semicolon : List Char → List Char
drop_semicolon [] = []
drop_semicolon (c ∷ []) = if is_char semicolon c then [] else c ∷ []
drop_semicolon (c ∷ d ∷ cs) = c ∷ drop_semicolon (d ∷ cs)

-- _has_multiple_statements
unfoldable pub has_multiple_statements : PythonOps → String → Bool
has_multiple_statements py sql = any (is_char semicolon) (drop_semicolon (chars (py.strip sql)))

abbrev is_with : Option String → Bool
is_with none = false
is_with (some kw) = str_eq kw "with"

unfoldable pub is_read_only_query : PythonOps → SqlOps → String → Bool
unfolding statement_kind has_multiple_statements leading_keyword
is_read_only_query py sql query = elim (statement_kind py query) [
  | write ↦ false
  | read ↦
      if is_with (leading_keyword py query) || has_multiple_statements py query
      then sql.all_statements_are_select query
      else true
  | unknown ↦ sql.is_select query
]
