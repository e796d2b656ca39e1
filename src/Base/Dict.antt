-- ===== src/Base/Dict.antt =====
-- Python's `dict` and `set` with string keys, in insertion order. A write of a key that is there
-- keeps its place. The laws are in `if` form, with no side condition.
use Prim.Native.String.{String}
use mathlib.Core.Path.{◌≡◌, refl}
use mathlib.Core.Bool.{Bool, false, ◌||◌}
use mathlib.Core.Option.{Option, none, some}
use mathlib.Core.List.{List, [], ◌∷◌, ◌++◌}
use native.Mathlib.Omega.{arith}
use text.Mathlib.Text.{◌==◌ as str_eq}
use text.Mathlib.TextEquality.{eq_iff}
use synno_db.Base.Tests.{if◌then◌else◌}

abbrev pub Dict {ℓ} : Type ℓ → Type ℓ
Dict V = List (String × V)

module _ {ℓ} {V : Type ℓ} where
  -- d.get(k)
  unfoldable pub get : Dict V → String → Option V
  get [] k = none
  get ((j, v) ∷ d) k = if str_eq j k then some v else get d k

  -- d[k] = v
  unfoldable pub put : Dict V → String → V → Dict V
  put [] k v = (k, v) ∷ []
  put ((j, w) ∷ d) k v = let rest = put d k v in if str_eq j k then (j, v) ∷ d else (j, w) ∷ rest

  -- d.pop(k, None)
  unfoldable pub remove : Dict V → String → Dict V
  remove [] k = []
  remove ((j, v) ∷ d) k = let rest = remove d k in if str_eq j k then rest else (j, v) ∷ rest

  pub get-put :
      (d : Dict V) (k j : String) (v : V)
      → get (put d k v) j ≡ (if str_eq k j then some v else get d j)
  unfolding get put
  get-put [] k j v = refl
  get-put ((i, w) ∷ d) k j v = ground (arith, get-put d k j v, eq_iff i k, eq_iff i j, eq_iff k j)

  pub get-remove :
      (d : Dict V) (k j : String) → get (remove d k) j ≡ (if str_eq k j then none else get d j)
  unfolding get remove
  get-remove [] k j = ground arith
  get-remove ((i, v) ∷ d) k j = ground (arith, get-remove d k j, eq_iff i k, eq_iff i j, eq_iff k j)

abbrev pub StrSet : Type 0
StrSet = List String

-- k in s
unfoldable pub contains : StrSet → String → Bool
contains [] k = false
contains (j ∷ s) k = str_eq j k || contains s k

-- s.add(k)
unfoldable pub add : StrSet → String → StrSet
add s k = if contains s k then s else s ++ k ∷ []

-- s.discard(k)
unfoldable pub discard : StrSet → String → StrSet
discard [] k = []
discard (j ∷ s) k = let rest = discard s k in if str_eq j k then rest else j ∷ rest

contains-append : (s t : StrSet) (j : String) → contains (s ++ t) j ≡ (contains s j || contains t j)
unfolding contains
contains-append [] t j = refl
contains-append (i ∷ s) t j = ground (arith, contains-append s t j)

pub contains-add : (s : StrSet) (k j : String) → contains (add s k) j ≡ (str_eq k j || contains s j)
unfolding add contains
contains-add s k j = ground (arith, contains-append s (k ∷ []) j, eq_iff k j)

pub contains-discard :
    (s : StrSet) (k j : String)
    → contains (discard s k) j ≡ (if str_eq k j then false else contains s j)
unfolding discard contains
contains-discard [] k j = ground arith
contains-discard (i ∷ s) k j =
    ground (arith, contains-discard s k j, eq_iff i k, eq_iff i j, eq_iff k j)

pub ruleset dict_laws = (get-put, get-remove, contains-add, contains-discard)
