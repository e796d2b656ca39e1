-- ===== src/Bind/Scan.antt =====
-- router/normalize.py: the scan for quoted text, and the naming of anonymous placeholders. A text is
-- its list of characters.
use Prim.Native.Char.{Char, code}
use Prim.Native.String.{◌++◌ as concat}
use synno_db.Base.{
  ℕ, zero, suc, ◌+◌, ◌-◌, String, Bool, true, false, ◌||◌, Option, none, some, List, [], ◌∷◌, ◌++◌,
  length, get_or, ◌==◌, ltb, if◌then◌else◌,
}
use synno_db.Base.Dict.{Dict, put}
use synno_db.Bind.Split.{chars}
use synno_db.Bind.Groups.{decimal}

-- (open_index, close_index, inner_text)
pub record Span : Type 0 where
  pub open_index : ℕ
  pub close_index : ℕ
  pub inner_text : List Char

abbrev pub same_char : Char → Char → Bool
same_char c d = code c == code d

-- ' and "
abbrev pub is_quote : Char → Bool
is_quote c = code c == 39 || code c == 34

-- Where the scan stands: between literals, or in one with its quote, its start and its text so far.
pub data Place : Type 0 where
  outside : Place
  inside : Char → ℕ → List Char → Place

-- The two loops of scan_string_literals, at index i.
unfoldable pub scan : Place → ℕ → List Char → List Span
scan outside i [] = []
scan outside i (c ∷ cs) = elim (is_quote c) [
  | true ↦ scan (inside c i []) (i + 1) cs
  | false ↦ scan outside (i + 1) cs
]
scan (inside q o buf) j [] = record { open_index = o; close_index = j; inner_text = buf } ∷ []
scan (inside q o buf) j (c ∷ []) = elim (same_char c q) [
  | true ↦ record { open_index = o; close_index = j; inner_text = buf } ∷ []
  | false ↦ record { open_index = o; close_index = j + 1; inner_text = buf ++ c ∷ [] } ∷ []
]
scan (inside q o buf) j (c ∷ d ∷ cs) = elim (same_char c q) [
  | false ↦ scan (inside q o (buf ++ c ∷ [])) (j + 1) (d ∷ cs)
  | true ↦ elim (same_char d q) [
    | true ↦ scan (inside q o (buf ++ q ∷ [])) (j + 2) cs
    | false ↦
        record { open_index = o; close_index = j; inner_text = buf } ∷ scan outside (j + 1) (d ∷ cs)
  ]
]

unfoldable pub scan_string_literals : List Char → List Span
unfolding scan
scan_string_literals cs = scan outside 0 cs

abbrev pub drop_chars : ℕ → List Char → List Char
drop_chars zero cs = cs
drop_chars (suc n) [] = []
drop_chars (suc n) (c ∷ cs) = drop_chars n cs

abbrev pub take_chars : ℕ → List Char → List Char
take_chars zero cs = []
take_chars (suc n) [] = []
take_chars (suc n) (c ∷ cs) = c ∷ take_chars n cs

-- cs[a:b]
abbrev pub slice : ℕ → ℕ → List Char → List Char
slice a b cs = take_chars (b - a) (drop_chars a cs)

pub record Renamed : Type 0 where
  pub out : List Char
  pub mapping : Dict String
  pub pi : ℕ

-- f"synp{pi}"
abbrev pub marker_name : ℕ → String
marker_name n = concat "synp" (decimal (n + 1) n)

-- rewrite_outside, which goes from one ? to the next
unfoldable pub rewrite_outside : List String → List Char → Renamed → Renamed
rewrite_outside names [] r = r
rewrite_outside names (c ∷ cs) r = rewrite_outside names cs (
    if code c == 63
    then record {
      out = r.out ++ chars (concat ":" (marker_name r.pi));
      mapping =
          if ltb r.pi (length names)
          then put r.mapping (marker_name r.pi) (get_or names r.pi "")
          else r.mapping;
      pi = r.pi + 1;
    }
    else record r { out = r.out ++ c ∷ [] })

unfoldable pub rename_from : List String → List Char → ℕ → List Span → Renamed → Renamed
unfolding rewrite_outside
rename_from names sql last [] r = rewrite_outside names (drop_chars last sql) r
rename_from names sql last (s ∷ spans) r =
    let before = rewrite_outside names (slice last s.open_index sql) r in
    rename_from names sql (s.close_index + 1) spans
      (record before { out = before.out ++ slice s.open_index (s.close_index + 1) sql })

-- _name_anonymous_placeholders; (None, {}) is none
unfoldable pub name_anonymous_placeholders :
    List Char → List String → Option (List Char × Dict String)
unfolding rename_from scan_string_literals
name_anonymous_placeholders sql names =
    let r =
      rename_from names sql 0 (scan_string_literals sql)
        (record { out = []; mapping = []; pi = 0 }) in
    if r.pi == length names then some (r.out, r.mapping) else none
