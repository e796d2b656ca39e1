-- ===== src/Python/Paths.antt =====
-- pathlib: a resolved path is the list of its names from the root of the file system. Which path a
-- text resolves to, symbolic links included, is the file system's answer.
use synno_db.Base.{
  String, Bool, ◌≡◌, List, [], ◌∷◌, ◌++◌, Option, none, some, is_some, str_eq, eq_iff, arith,
  if◌then◌else◌,
}

abbrev pub Parts : Type 0
Parts = List String

-- path.relative_to(root), or none for its ValueError
unfoldable pub relative_to : Parts → Parts → Option Parts
relative_to path [] = some path
relative_to [] (r ∷ rs) = none
relative_to (p ∷ ps) (r ∷ rs) = let rest = relative_to ps rs in if str_eq p r then rest else none

unfoldable pub is_relative_to : Parts → Parts → Bool
unfolding relative_to
is_relative_to path root = is_some (relative_to path root)

pub relative_to-eq-some :
    (path root rest : Parts) → relative_to path root ≡ some rest → path ≡ root ++ rest
unfolding relative_to
relative_to-eq-some path [] rest h = cc
relative_to-eq-some [] (r ∷ rs) rest h = absurd (cc)
relative_to-eq-some (p ∷ ps) (r ∷ rs) rest h =
    ground (arith, eq_iff p r, relative_to-eq-some ps rs rest)
