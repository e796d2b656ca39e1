-- ===== src/Editor/Replacing.antt =====
-- tools/workspace_editor.py: search and replace in a file.
use Prim.Native.Char.{Char, code}
use Prim.Native.String.{◌++◌ as concat}
use synno_db.Base.{
  ℕ, String, Bool, true, false, not, ◌&&◌, ◌||◌, Option, none, some, [], ◌∷◌, ◌++◌, length, ◌==◌,
  ltb, is_some, if◌then◌else◌,
}
use synno_db.Python.{PythonOps}
use synno_db.Python.Faults.{ok, err}
use synno_db.Python.Paths.{Parts}
use synno_db.Python.Texts.{
  Text, chars, text_of, same_text, take_text, drop_text, ends_with, find, count, replace,
  replace_once,
}
use synno_db.Editor.Diffs.{is_nonempty}
use synno_db.Editor.Reading.{show_number, current_content_block}
use synno_db.Editor.Edits.{
  Disk, read_text, write_text, Ran, Workspace, failed, relative_path, fail, complete, guard_target,
  written,
}
use synno_db.Editor.Logging.{after_log}

-- <tool> called: <path>, and the summary of a failure
abbrev pub call_summary : String → String → Text
call_summary tool path = chars tool ++ (chars " called: " ++ chars path)

abbrev pub failure_summary : String → String → String → Text
failure_summary tool path summary =
    call_summary tool path ++ (chars " (FAILED - " ++ (chars summary ++ chars ")"))

-- _write_failed, and _replace_failed without log_error
abbrev pub call_failed : String → String → Text → String → Disk → Ran
call_failed tool path output summary d = fail output (some (failure_summary tool path summary)) d

-- _replace_failed with log_error=True
unfoldable pub replace_failed : Workspace → String → Text → String → Disk → Ran
unfolding after_log
replace_failed w path output summary d =
    after_log w "ReplaceInFileFailed" summary
      (
        record { status = failed; output = output },
        some (failure_summary "replace_in_file" path summary),
      )
      d

-- _normalize_quotes
abbrev pub straight_quote : Char → Char
straight_quote c =
    if code c == 8216 || code c == 8217
    then "'"
    else if code c == 8220 || code c == 8221
    then "\""
    else c

abbrev pub normalize_quotes : Text → Text
normalize_quotes [] = []
normalize_quotes (c ∷ cs) = straight_quote c ∷ normalize_quotes cs

-- _find_actual_string
unfoldable pub find_actual_string : Text → Text → Option Text
unfolding find
find_actual_string content search =
    if is_some (find search content)
    then some search
    else elim (find (normalize_quotes search) (normalize_quotes content)) [
      | none ↦ none
      | some i ↦ some (take_text (length search) (drop_text i content))
    ]

abbrev pub lower_text : PythonOps → Text → Text
lower_text py t = chars (py.lower (text_of t))

-- _is_markdown
abbrev pub is_markdown : PythonOps → Text → Bool
unfolding ends_with
is_markdown py relative =
    ends_with (chars ".md") (lower_text py relative)
    || ends_with (chars ".mdx") (lower_text py relative)

abbrev pub is_blank_char : Char → Bool
is_blank_char c = code c == 32 || code c == 9

-- the end of a line: $ with re.MULTILINE
abbrev pub at_line_end : Text → Bool
at_line_end [] = true
at_line_end (c ∷ cs) = code c == 10

-- _strip_trailing_whitespace
unfoldable pub strip_trailing_whitespace : Text → Text
strip_trailing_whitespace [] = []
strip_trailing_whitespace (c ∷ cs) =
    let rest = strip_trailing_whitespace cs in
    if is_blank_char c && at_line_end rest then rest else c ∷ rest

-- the write of _replace_in_file_impl, once the string is found
unfoldable pub replace_found : Workspace → String → Text → Text → Bool → Text → Disk → Parts → Ran
unfolding replace replace_once count strip_trailing_whitespace ends_with write_text
replace_found w path actual_old new_string replace_all original d t =
    let relative = relative_path w t in
    let new_final =
      if is_markdown w.py relative then new_string else strip_trailing_whitespace new_string in
    let n_repl : ℕ = if replace_all then count actual_old original else 1 in
    let patched =
      if replace_all
      then replace actual_old new_final original
      else replace_once actual_old new_final original in
    let out = write_text t patched d in
    if same_text patched original
    then call_failed "replace_in_file" path
        (chars "Error: replace produced no change in " ++ (relative ++ chars ".")) "no change" d
    else written out (
        complete
          (chars "Replaced "
            ++ (show_number n_repl
                ++ (chars " occurrence"
                    ++ ((if n_repl == 1 then [] else chars "s") ++ (chars " in " ++ relative)))))
          (call_summary "replace_in_file" path) out.1)

abbrev pub not_found_output : Text → Text → Text
not_found_output relative original =
    chars "String to replace was not found in "
    ++ (relative
        ++ (chars
              ". The file may have changed since you last read it. Re-anchor old_string on the CURRENT content shown below; it must match exactly.\n\n"
            ++ current_content_block relative original))

abbrev pub ambiguous_output : ℕ → Text → Text
ambiguous_output matches relative =
    chars "Found "
    ++ (show_number matches
        ++ (chars " occurrences of old_string in "
            ++ (relative
                ++ chars
                    ", but replace_all is false. Add surrounding lines so old_string uniquely identifies ONE location, or set replace_all=true to change all of them.")))

-- the search of _replace_in_file_impl in the file's text
unfoldable pub replace_in : Workspace → String → Text → Text → Bool → Text → Disk → Parts → Ran
unfolding replace_found find_actual_string count replace_failed
replace_in w path old_string new_string replace_all original d t =
    elim (find_actual_string original old_string) [
      | none ↦
          replace_failed w path (not_found_output (relative_path w t) original) "string not found" d
      | some actual_old ↦
          let matches = count actual_old original in
          if ltb 1 matches && not replace_all
          then replace_failed w path (ambiguous_output matches (relative_path w t))
              (concat (text_of (show_number matches)) " matches, replace_all=false") d
          else replace_found w path actual_old new_string replace_all original d t
    ]

unfoldable pub replace_at : Workspace → String → Text → Text → Bool → Disk → Parts → Ran
unfolding replace_in read_text
replace_at w path old_string new_string replace_all d t =
    if not (is_nonempty old_string)
    then call_failed "replace_in_file" path
        (chars
          "Error: old_string must not be empty. Use apply_patch create_file to create a new file.")
        "empty old_string" d
    else if same_text old_string new_string
    then call_failed "replace_in_file" path
        (chars "Error: old_string and new_string are identical; nothing to change.") "no-op" d
    else if not (is_some (d t))
    then call_failed "replace_in_file" path
        (chars "Error: file "
          ++ (relative_path w t
              ++ chars " does not exist. Use apply_patch create_file to create it."))
        "missing file" d
    else elim (read_text d t) [
      | err f ↦ (err f, d)
      | ok original ↦ replace_in w path old_string new_string replace_all original d t
    ]

abbrev pub replace_refusal : String → Text → Text × Option Text
replace_refusal path relative = (
  chars "Error: Attempting to modify read-only file: " ++ relative,
  some (failure_summary "replace_in_file" path "read-only"),
)

-- _replace_in_file_impl
unfoldable pub replace_in_file : Workspace → String → Text → Text → Bool → Disk → Ran
unfolding guard_target replace_at
replace_in_file w path old_string new_string replace_all d =
    guard_target w false path (replace_refusal path)
      (replace_at w path old_string new_string replace_all) d
