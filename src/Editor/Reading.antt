-- ===== src/Editor/Reading.antt =====
-- tools/workspace_editor.py: the text of a file as the tools show it.
use synno_db.Base.{
  ℕ, zero, suc, ◌+◌, ◌-◌, Option, none, some, List, [], ◌∷◌, ◌++◌, length, ltb, leb, if◌then◌else◌,
}
use synno_db.Base.Int.{ℤ, pos, negsuc}
use synno_db.Bind.{decimal}
use synno_db.Python.Texts.{Text, chars, splitlines, join_lines}

abbrev pub default_read_max_lines : ℕ
default_read_max_lines = 2000

abbrev pub show_number : ℕ → Text
unfolding decimal
show_number n = chars (decimal (suc n) n)

abbrev pub spaces : ℕ → Text
spaces zero = []
spaces (suc n) = " " ∷ spaces n

-- f"{n:6d}"
abbrev pub pad_number : ℕ → Text
pad_number n = spaces (6 - length (show_number n)) ++ show_number n

-- max(offset, 1) if offset is not None else 1
abbrev pub start_line : Option ℤ → ℕ
start_line none = 1
start_line (some (negsuc n)) = 1
start_line (some (pos n)) = if leb n 1 then 1 else n

-- max(count, 0), of the limit or the default
abbrev pub line_count : Option ℤ → ℕ
line_count none = default_read_max_lines
line_count (some (negsuc n)) = 0
line_count (some (pos n)) = n

abbrev pub at_most_lines : ℕ → ℕ → ℕ
at_most_lines a b = if leb a b then a else b

abbrev pub window : ℕ → ℕ → List Text → List Text
window skip n [] = []
window (suc skip) n (l ∷ ls) = window skip n ls
window zero zero (l ∷ ls) = []
window zero (suc n) (l ∷ ls) = l ∷ window zero n ls

abbrev pub number_from : ℕ → List Text → List Text
number_from i [] = []
number_from i (l ∷ ls) = (pad_number i ++ (chars "\t" ++ l)) ∷ number_from (i + 1) ls

-- _render_numbered_lines
unfoldable pub render_numbered_lines : Text → Option ℤ → Option ℤ → Text
unfolding splitlines decimal
render_numbered_lines content offset limit =
    let lines = splitlines content in
    let total = length lines in
    let start = start_line offset in
    let end_idx = at_most_lines (start - 1 + line_count limit) total in
    let shown = join_lines (number_from start (window (start - 1) (end_idx - (start - 1)) lines)) in
    if leb total (start - 1)
    then chars "(file has "
      ++ (show_number total
          ++ (chars " lines; offset "
              ++ (show_number start ++ chars " is past the end of the file)")))
    else if ltb end_idx total
    then shown
      ++ (chars "\n... (truncated, showing lines "
          ++ (show_number start
              ++ (chars "-"
                  ++ (show_number end_idx
                      ++ (chars " of "
                          ++ (show_number total
                              ++ chars " total — pass offset/limit to read more)"))))))
    else shown

-- _current_content_block
unfoldable pub current_content_block : Text → Text → Text
unfolding splitlines decimal
current_content_block relative original =
    let lines = splitlines original in
    let current =
      if leb (length lines) default_read_max_lines
      then original
      else join_lines (window 0 default_read_max_lines lines)
        ++ (chars "\n... (truncated, "
            ++ (show_number (length lines)
                ++ chars " lines total — cat the file for the full content)")) in
    chars "=== CURRENT CONTENT OF "
    ++ (relative ++ (chars " ===\n" ++ (current ++ chars "\n=== END ===")))
