-- ===== src/Tests/Binding.antt =====
-- The theorems on the splitting of literals and the grouping of placeholders, applied.
use synno_db.Base.{◌≡◌, refl, true, some, List, [], ◌∷◌}
use synno_db.Base.Int.{pos, negsuc}
use Prim.Native.Char.{Char}
use synno_db.Registry.{PlaceholderSpec, EngineBinding}
use synno_db.Bind.{chars, match_consts, strip_prefix, try_core, binding_groups}
use synno_db.Base.Dict.{contains}
use synno_db.Python.Samples.{sample_ops}
use synno_db.Router.Guards.{sequence}
use synno_db.Router.Binding.{bind_placeholders, zip_literals}
use synno_db.Router.Positional.{distinct_names, bind_placeholders-sequence}
use synno_db.Tests.Samples.{word, query, sample_sql, plain_spec, orders}
use synno_db.Bind.Reassembly.{weave, all_plain, Reassembled, match_consts-Reassembled}
use synno_db.Bind.RoundTrip.{fenced, match_consts-weave}
use synno_db.Bind.Grouping.{Grouped, binding_groups-Grouped}

-- LIKE '%[A]%[B]%'
abbrev first : PlaceholderSpec
first = record { name = "a"; type = "VARCHAR"; prefix = "%"; suffix = "%"; group = pos 0 }

abbrev second : PlaceholderSpec
second = record { name = "b"; type = "VARCHAR"; prefix = ""; suffix = "%"; group = pos 0 }

abbrev alone : PlaceholderSpec
alone = record { name = "c"; type = "INTEGER"; prefix = ""; suffix = ""; group = negsuc 0 }

abbrev later_consts : List (List Char)
later_consts = chars "%" ∷ chars "%" ∷ []

abbrev cores : List (List Char)
cores = chars "special" ∷ chars "requests" ∷ []

split_like : match_consts (chars "%" ∷ later_consts) (chars "%special%requests%") ≡ some cores
unfolding match_consts try_core strip_prefix
split_like = refl

match_consts-Reassembled_example :
    Reassembled (chars "%" ∷ later_consts) (chars "%special%requests%") cores
match_consts-Reassembled_example =
    match_consts-Reassembled (chars "%") later_consts (chars "%special%requests%") cores split_like

fenced_like : fenced later_consts ≡ true
unfolding fenced
fenced_like = refl

plain_cores : all_plain cores ≡ true
unfolding all_plain
plain_cores = refl

match_consts-weave_example :
    match_consts (chars "%" ∷ later_consts) (weave (chars "%" ∷ later_consts) cores) ≡ some cores
match_consts-weave_example =
    match_consts-weave (chars "%") later_consts cores fenced_like refl plain_cores

binding_groups-Grouped_example :
    Grouped (binding_groups (first ∷ second ∷ alone ∷ [])) (first ∷ second ∷ alone ∷ [])
binding_groups-Grouped_example = binding_groups-Grouped (first ∷ second ∷ alone ∷ [])

-- Two placeholders of their own, with two values.
abbrev two_plain : EngineBinding
two_plain = record orders { placeholders = plain_spec ∷ record plain_spec { name = "q" } ∷ [] }

two_distinct : distinct_names [] two_plain.placeholders ≡ true
unfolding distinct_names contains
two_distinct = refl

bind_placeholders-sequence_example :
    bind_placeholders sample_ops sample_sql two_plain query
      (some (sequence (word "x" ∷ word "y" ∷ [])))
    ≡ some (zip_literals [] two_plain.placeholders (word "x" ∷ word "y" ∷ []))
bind_placeholders-sequence_example =
    bind_placeholders-sequence sample_ops sample_sql two_plain query (word "x" ∷ word "y" ∷ []) refl
      two_distinct refl
