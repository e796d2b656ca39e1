-- ===== src/Bind/Spans.antt =====
-- router/normalize.py: the literals that scan_string_literals finds stand apart and in the text.
use Prim.Native.Char.{Char}
use synno_db.Base.{ℕ, ◌+◌, ◌≤◌, ◌<◌, ◌≡◌, inl, inr, List, [], ◌∷◌, ◌++◌, length, arith, Bool-cases}
use synno_db.Bind.Scan.{
  Span, is_quote, same_char, Place, outside, inside, scan, scan_string_literals,
}

-- The spans begin at i or later and follow each other without overlap. A span holds at least its
-- opening quote, and closes within the n characters of the text, or at n when it is unterminated.
unfoldable pub Ordered : ℕ → ℕ → List Span → Type 0
Ordered i n [] = i ≤ n + 1
Ordered i n (s ∷ spans) =
    (i ≤ s.open_index)
    × (s.open_index < s.close_index)
    × (s.close_index ≤ n)
    × Ordered (s.close_index + 1) n spans

-- The scan at i looks for a literal at or behind `first`, or is in one that began there.
Started : Place → ℕ → ℕ → Type 0
Started outside i first = first ≤ i
Started (inside q o buf) i first = (first ≤ o) × (o < i)

scan-Ordered :
    (place : Place) (i first n : ℕ) (cs : List Char)
    → Started place i first
    → i + length cs ≡ n
    → Ordered first n (scan place i cs)
unfolding scan Ordered Started
scan-Ordered outside i first n [] h l = omega arith
scan-Ordered outside i first n (c ∷ cs) h l = elim (Bool-cases (is_quote c)) [
  | inl e ↦
      rw (e, scan) (scan-Ordered (inside c i []) (i + 1) first n cs (h, omega arith) (omega arith))
  | inr e ↦ rw (e, scan) (scan-Ordered outside (i + 1) first n cs (omega arith) (omega arith))
]
scan-Ordered (inside q o buf) j first n [] h l = (h.0, h.1, omega arith, omega arith)
scan-Ordered (inside q o buf) j first n (c ∷ []) (a, b) l = elim (Bool-cases (same_char c q)) [
  | inl e ↦ rw (e, scan) (a, b, omega arith, omega arith)
  | inr e ↦ rw (e, scan) (a, omega arith, omega arith, omega arith)
]
scan-Ordered (inside q o buf) j first n (c ∷ d ∷ cs) (a, b) l = elim (Bool-cases (same_char c q)) [
  | inr e ↦
      rw (e, scan)
        (scan-Ordered (inside q o (buf ++ c ∷ [])) (j + 1) first n (d ∷ cs) (a, omega arith)
          (omega arith))
  | inl e ↦ elim (Bool-cases (same_char d q)) [
    | inl f ↦
        rw (e, f, scan)
          (scan-Ordered (inside q o (buf ++ q ∷ [])) (j + 2) first n cs (a, omega arith)
            (omega arith))
    | inr f ↦
        rw (e, f, scan)
          (
            a,
            b,
            omega arith,
            scan-Ordered outside (j + 1) (j + 1) n (d ∷ cs) (omega arith) (omega arith),
          )
  ]
]

-- The literals that are found in a text follow each other without overlap, none is empty of its
-- quote, and each closes within the text or, when it is unterminated, at its end.
pub scan_string_literals-Ordered :
    (cs : List Char) → Ordered 0 (length cs) (scan_string_literals cs)
unfolding scan_string_literals Started
scan_string_literals-Ordered cs =
    scan-Ordered outside 0 0 (length cs) cs (omega arith) (omega arith)
