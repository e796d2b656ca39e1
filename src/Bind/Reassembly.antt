-- ===== src/Bind/Reassembly.antt =====
-- router/normalize.py: what `split_literal` recovers from a value renders back to that value.
use Prim.Native.Char.{Char}
use synno_db.Base.{
  ◌+◌, ◌≡◌, refl, sym, ap, ◌∙◌, inl, inr, Bool, true, false, not, ◌&&◌, Option, some, List, [], ◌∷◌,
  ◌++◌, length, arith, Bool-cases, Option-cases, any,
}
use mathlib.Core.Path.{subst}
use text.Mathlib.TextEquality.{Char-path}
use synno_db.Bind.Split.{is_wildcard, strip_prefix, with_char, try_core, match_consts, stop}

-- The constants with the cores between them.
unfoldable pub weave : List (List Char) → List (List Char) → List Char
weave [] cores = []
weave (c ∷ cs) [] = c ++ weave cs []
weave (c ∷ cs) (core ∷ cores) = c ++ (core ++ weave cs cores)

abbrev pub is_plain : List Char → Bool
is_plain core = not (any is_wildcard core)

unfoldable pub all_plain : List (List Char) → Bool
all_plain [] = true
all_plain (core ∷ cores) = is_plain core && all_plain cores

strip_prefix-append : (c v r : List Char) → strip_prefix c v ≡ some r → c ++ r ≡ v
unfolding strip_prefix
strip_prefix-append [] v r h = ground (arith, h)
strip_prefix-append (c ∷ cs) [] r h = absurd (ground (arith, h))
strip_prefix-append (c ∷ cs) (d ∷ v) r h =
    let same : c ≡ d = Char-path c d (ground (arith, h)) in
    let rest = strip_prefix-append cs v r (ground (arith, h)) in rw (same, rest) refl

pub append-strip_prefix : (c r : List Char) → strip_prefix c (c ++ r) ≡ some r
unfolding strip_prefix
append-strip_prefix [] r = refl
append-strip_prefix (c ∷ cs) r = ground (arith, append-strip_prefix cs r)

record Cut (follow : List Char → Option (List (List Char))) (v : List Char)
    (cores : List (List Char)) : Type 0 where
  core : List Char
  rest : List Char
  others : List (List Char)
  joined : core ++ rest ≡ v
  followed : follow rest ≡ some others
  shape : cores ≡ core ∷ others
  plain : is_plain core ≡ true

stop-Cut :
    (follow : List Char → Option (List (List Char))) (v : List Char) (cores : List (List Char))
    → stop (follow v) ≡ some cores
    → Cut follow v cores
stop-Cut follow v cores h = elim (Option-cases (follow v)) [
  | inl e ↦ absurd (ground (arith, h, e))
  | inr (others, e) ↦ record {
    core = [];
    rest = v;
    others = others;
    joined = refl;
    followed = e;
    shape = ground (arith, h, e);
    plain = refl;
  }
]

longer-Cut :
    (follow : List Char → Option (List (List Char))) (c : Char) (v : List Char)
    (cores : List (List Char))
    → is_wildcard c ≡ false
    → Cut follow v cores
    → Cut follow (c ∷ v) (with_char c cores)
longer-Cut follow c v cores tame cut = record {
  core = c ∷ cut.core;
  rest = cut.rest;
  others = cut.others;
  joined = ap (λ r. c ∷ r) cut.joined;
  followed = cut.followed;
  shape = rw cut.shape refl;
  plain = let p = cut.plain in ground (arith, tame, p);
}

try_core-Cut :
    (follow : List Char → Option (List (List Char))) (v : List Char) (cores : List (List Char))
    → try_core follow v ≡ some cores
    → Cut follow v cores
unfolding try_core
try_core-Cut follow [] cores h = stop-Cut follow [] cores h
try_core-Cut follow (c ∷ v) cores h = elim (Bool-cases (is_wildcard c)) [
  | inl wild ↦
      let here : try_core follow (c ∷ v) ≡ stop (follow (c ∷ v)) = rw (wild, try_core) refl in
      stop-Cut follow (c ∷ v) cores (sym here ∙ h)
  | inr tame ↦ elim (Option-cases (try_core follow v)) [
    | inl e ↦
        let here : try_core follow (c ∷ v) ≡ stop (follow (c ∷ v)) = rw (tame, e, try_core) refl in
        stop-Cut follow (c ∷ v) cores (sym here ∙ h)
    | inr (cores', e) ↦
        let here : try_core follow (c ∷ v) ≡ some (with_char c cores') =
          rw (tame, e, try_core) refl in
        let same : with_char c cores' ≡ cores = ground (arith, here, h) in
        subst (Cut follow (c ∷ v)) same
          (longer-Cut follow c v cores' tame (try_core-Cut follow v cores' e))
  ]
]

-- The cores are what stands between the constants of v, and none of them holds a wildcard.
pub record Reassembled (consts : List (List Char)) (v : List Char) (cores : List (List Char))
    : Type 0 where
  pub woven : weave consts cores ≡ v
  pub plain : all_plain cores ≡ true
  pub count : length consts ≡ length cores + 1

gap-Reassembled :
    (c d : List Char) (consts : List (List Char)) (v r core rest : List Char)
    (cores : List (List Char))
    → c ++ r ≡ v
    → core ++ rest ≡ r
    → is_plain core ≡ true
    → Reassembled (d ∷ consts) rest cores
    → Reassembled (c ∷ d ∷ consts) v (core ∷ cores)
unfolding weave all_plain
gap-Reassembled c d consts v r core rest cores front joined plain h = record {
  woven = ap (λ x. c ++ (core ++ x)) h.woven ∙ ap (λ x. c ++ x) joined ∙ front;
  plain = rw (plain, h.plain) refl;
  count = let n = h.count in omega arith;
}

-- What the pattern of the constants captures from v gives v back between the constants; there is
-- one captured text for each gap, and none holds a wildcard character.
pub match_consts-Reassembled :
    (c : List Char) (consts : List (List Char)) (v : List Char) (cores : List (List Char))
    → match_consts (c ∷ consts) v ≡ some cores
    → Reassembled (c ∷ consts) v cores
unfolding match_consts weave all_plain
match_consts-Reassembled c [] v cores h = elim (Option-cases (strip_prefix c v)) [
  | inl e ↦ absurd (ground (arith, h, e))
  | inr ([], e) ↦
      let empty : [] ≡ cores = ground (arith, h, e) in
      rw (← empty) (record { woven = strip_prefix-append c v [] e; plain = refl; count = refl })
  | inr (d ∷ r, e) ↦ absurd (ground (arith, h, e))
]
match_consts-Reassembled c (d ∷ consts) v cores h = elim (Option-cases (strip_prefix c v)) [
  | inl e ↦ absurd (ground (arith, h, e))
  | inr (r, e) ↦
      let here : match_consts (c ∷ d ∷ consts) v ≡ try_core (match_consts (d ∷ consts)) r =
        rw (e, match_consts) refl in
      let cut = try_core-Cut (match_consts (d ∷ consts)) r cores (sym here ∙ h) in
      let rest = match_consts-Reassembled d consts cut.rest cut.others cut.followed in
      rw cut.shape (
        gap-Reassembled c d consts v r cut.core cut.rest cut.others (strip_prefix-append c v r e)
          cut.joined cut.plain rest)
]
