-- ===== src/Statement/Leading.antt =====
-- router/normalize.py: what stands before the leading keyword does not change it.
use Prim.Native.Char.{Char}
use synno_db.Base.{
  ◌≡◌, refl, ap, ◌∙◌, inl, inr, Bool, true, false, not, ◌&&◌, some, List, [], ◌∷◌, ◌++◌, any, arith,
  Bool-cases,
}
use synno_db.Statement.{
  is_letter, is_space, is_char, newline, star, dash, slash, lead, blank, line, block,
}

-- No */ stands in the text.
unfoldable pub unclosed : List Char → Bool
unclosed [] = true
unclosed (c ∷ []) = true
unclosed (c ∷ d ∷ cs) = not (is_char star c && is_char slash d) && unclosed (d ∷ cs)

lead-line :
    (body : List Char) (c : Char) (rest : List Char)
    → any (is_char newline) body ≡ false
    → is_char newline c ≡ true
    → lead line (body ++ c ∷ rest) ≡ lead blank rest
unfolding lead
lead-line [] c rest h e = rw (e, lead) refl
lead-line (b ∷ body) c rest h e =
    let other : is_char newline b ≡ false = ground (arith, h) in
    let later : any (is_char newline) body ≡ false = ground (arith, h) in
    rw (other, lead) (lead-line body c rest later e)

slash_not_star : (c : Char) → is_char slash c ≡ true → is_char star c ≡ false
slash_not_star c h = ground (arith, h)

star_not_slash : (c : Char) → is_char star c ≡ true → is_char slash c ≡ false
star_not_slash c h = ground (arith, h)

lead-block :
    (body : List Char) (c d : Char) (rest word : List Char)
    → unclosed body ≡ true
    → is_char star c ≡ true
    → is_char slash d ≡ true
    → lead blank rest ≡ some word
    → lead block (body ++ c ∷ d ∷ rest) ≡ some word
unfolding lead unclosed
lead-block [] c d rest word u e f h = rw (e, f, h, lead) refl
lead-block (b ∷ []) c d rest word u e f h = elim (Bool-cases (is_char star b)) [
  | inl g ↦ rw (g, star_not_slash c e, lead) (lead-block [] c d rest word refl e f h)
  | inr g ↦ rw (g, lead) (lead-block [] c d rest word refl e f h)
]
lead-block (b ∷ b' ∷ body) c d rest word u e f h =
    let apart : (is_char star b && is_char slash b') ≡ false = ground (arith, u) in
    let later : unclosed (b' ∷ body) ≡ true = ground (arith, u) in
    rw (apart, lead) (lead-block (b' ∷ body) c d rest word later e f h)

space_not_letter : (c : Char) → is_space c ≡ true → is_letter c ≡ false
space_not_letter c h = ground (arith, h)

space_not_dash : (c : Char) → is_space c ≡ true → is_char dash c ≡ false
space_not_dash c h = ground (arith, h)

dash_not_letter : (c : Char) → is_char dash c ≡ true → (is_letter c ≡ false) × (is_space c ≡ false)
dash_not_letter c h = (ground (arith, h), ground (arith, h))

slash_not_letter :
    (c : Char)
    → is_char slash c ≡ true
    → (is_letter c ≡ false) × (is_space c ≡ false) × (is_char dash c ≡ false)
slash_not_letter c h = (ground (arith, h), ground (arith, h), ground (arith, h))

-- White space, comments to the end of a line, and block comments.
pub data Padding : List Char → Type 0 where
  nothing : Padding []
  space : (c : Char) (pre : List Char) → is_space c ≡ true → Padding pre → Padding (c ∷ pre)
  line_comment :
      (c d e : Char) (body pre : List Char)
      → is_char dash c ≡ true
      → is_char dash d ≡ true
      → any (is_char newline) body ≡ false
      → is_char newline e ≡ true
      → Padding pre
      → Padding (c ∷ d ∷ (body ++ e ∷ pre))
  block_comment :
      (c d e f : Char) (body pre : List Char)
      → is_char slash c ≡ true
      → is_char star d ≡ true
      → unclosed body ≡ true
      → is_char star e ≡ true
      → is_char slash f ≡ true
      → Padding pre
      → Padding (c ∷ d ∷ (body ++ e ∷ f ∷ pre))

append_assoc : (xs ys zs : List Char) → (xs ++ ys) ++ zs ≡ xs ++ (ys ++ zs)
append_assoc [] ys zs = refl
append_assoc (x ∷ xs) ys zs = ap (λ r. x ∷ r) (append_assoc xs ys zs)

lead-space :
    (c : Char) (rest word : List Char)
    → is_space c ≡ true
    → lead blank rest ≡ some word
    → lead blank (c ∷ rest) ≡ some word
unfolding lead
lead-space c [] word e h = absurd (ground (arith, h))
lead-space c (d ∷ rest) word e h = rw (space_not_letter c e, e, lead) h

-- White space and comments before a statement do not change its leading keyword.
pub lead-Padding :
    {pre : List Char} (rest word : List Char)
    → Padding pre
    → lead blank rest ≡ some word
    → lead blank (pre ++ rest) ≡ some word
unfolding lead
lead-Padding rest word nothing h = h
lead-Padding rest word (space c pre e p) h =
    lead-space c (pre ++ rest) word e (lead-Padding rest word p h)
lead-Padding rest word (line_comment c d e body pre ec ed eb ee p) h =
    rw
      (
        (dash_not_letter c ec).0,
        (dash_not_letter c ec).1,
        ec,
        ed,
        append_assoc body (e ∷ pre) rest,
        lead,
      )
      (lead-line body e (pre ++ rest) eb ee ∙ lead-Padding rest word p h)
lead-Padding rest word (block_comment c d e f body pre ec ed eb ee ef p) h =
    let (letter, white, mark) = slash_not_letter c ec in
    rw (letter, white, mark, ec, ed, append_assoc body (e ∷ f ∷ pre) rest, lead)
      (lead-block body e f (pre ++ rest) word eb ee ef (lead-Padding rest word p h))
