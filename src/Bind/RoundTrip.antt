-- ===== src/Bind/RoundTrip.antt =====
-- router/normalize.py: rendering values between constants and splitting the text again.
use Prim.Native.Char.{Char}
use synno_db.Base.{
  ◌≡◌, refl, Bool, true, false, ◌&&◌, Option, some, List, [], ◌∷◌, ◌++◌, length, arith,
}
use synno_db.Bind.Split.{is_wildcard, try_core, match_consts}
use synno_db.Bind.Reassembly.{weave, is_plain, all_plain, append-strip_prefix}

-- Each constant begins with a wildcard character, but the last may be empty.
unfoldable pub fenced : List (List Char) → Bool
fenced [] = true
fenced ([] ∷ []) = true
fenced ([] ∷ _ ∷ _) = false
fenced ((x ∷ c) ∷ cs) = is_wildcard x && fenced cs

abbrev stops : List Char → Bool
stops [] = true
stops (x ∷ v) = is_wildcard x

weave-stops :
    (d : List Char) (cs cores : List (List Char))
    → fenced (d ∷ cs) ≡ true
    → length cs ≡ length cores
    → stops (weave (d ∷ cs) cores) ≡ true
unfolding weave fenced
weave-stops [] [] [] f n = refl
weave-stops [] [] (core ∷ cores) f n = absurd (ground (arith, n))
weave-stops [] (c ∷ cs) cores f n = absurd (ground (arith, f))
weave-stops (x ∷ d) cs [] f n = ground (arith, f)
weave-stops (x ∷ d) cs (core ∷ cores) f n = ground (arith, f)

fenced-later :
    (d : List Char) (consts : List (List Char)) → fenced (d ∷ consts) ≡ true → fenced consts ≡ true
unfolding fenced
fenced-later [] [] f = refl
fenced-later [] (c ∷ consts) f = absurd (ground (arith, f))
fenced-later (x ∷ d) consts f = ground (arith, f)

try_core-append :
    (follow : List Char → Option (List (List Char))) (core rest : List Char)
    (cores : List (List Char))
    → is_plain core ≡ true
    → stops rest ≡ true
    → follow rest ≡ some cores
    → try_core follow (core ++ rest) ≡ some (core ∷ cores)
unfolding try_core
try_core-append follow [] [] cores p s h = rw h refl
try_core-append follow [] (x ∷ rest) cores p s h = rw (s, h, try_core) refl
try_core-append follow (x ∷ core) rest cores p s h =
    let tame : is_wildcard x ≡ false = ground (arith, p) in
    let plain : is_plain core ≡ true = ground (arith, p, tame) in
    rw (tame, try_core-append follow core rest cores plain s h, try_core) refl

-- When each constant behind the first begins with a wildcard character, but for a last one that is
-- empty, the texts that stand between the constants are what the pattern captures, if they hold no
-- wildcard and there is one for each gap.
pub match_consts-weave :
    (c : List Char) (consts cores : List (List Char))
    → fenced consts ≡ true
    → length consts ≡ length cores
    → all_plain cores ≡ true
    → match_consts (c ∷ consts) (weave (c ∷ consts) cores) ≡ some cores
unfolding match_consts weave fenced all_plain
match_consts-weave c [] [] f n p = rw (append-strip_prefix c [], match_consts) refl
match_consts-weave c [] (core ∷ cores) f n p = absurd (ground (arith, n))
match_consts-weave c (d ∷ consts) [] f n p = absurd (ground (arith, n))
match_consts-weave c (d ∷ consts) (core ∷ cores) f n p =
    let v = weave (d ∷ consts) cores in
    let few : length consts ≡ length cores = ground (arith, n) in
    let later : fenced consts ≡ true = fenced-later d consts f in
    let plain : is_plain core ≡ true = ground (arith, p) in
    let others : all_plain cores ≡ true = ground (arith, p) in
    rw (append-strip_prefix c (core ++ v), match_consts)
      (try_core-append (match_consts (d ∷ consts)) core v cores plain
        (weave-stops d consts cores f few) (match_consts-weave d consts cores later few others))
