-- ===== src/Tests/Reading.antt =====
-- The theorems on manifests and on the text of statements, applied.
use Prim.Native.Char.{Char}
use synno_db.Base.{◌≡◌, refl, true, none, some, List, [], ◌∷◌, ◌++◌, length}
use synno_db.Base.Int.{pos}
use synno_db.Python.Samples.{sample_ops}
use synno_db.Bind.{chars}
use synno_db.Bind.Scan.{scan_string_literals, name_anonymous_placeholders}
use synno_db.Bind.Spans.{Ordered, scan_string_literals-Ordered}
use synno_db.Statement.{StatementKind, statement_kind, lead, blank, letters}
use synno_db.Statement.Leading.{Padding, nothing, space, line_comment, lead-Padding}
use synno_db.Manifest.{EngineManifest, to_dict, from_dict}
use synno_db.Manifest.RoundTrip.{from_dict-to_dict}
use synno_db.Tests.Samples.{plain_spec}
use synno_db.Base.Dict.{contains, put}
use synno_db.Bind.{decimal}

abbrev manifest : EngineManifest
manifest = record {
  engine_id = "eng-1";
  queries =
      record {
        query_id = "13";
        sql_template = "select 1 from orders where c like ?";
        placeholders =
            plain_spec
            ∷ record { name = "w"; type = "VARCHAR"; prefix = "%"; suffix = "%"; group = pos 0 }
            ∷ [];
      }
      ∷ [];
  storage_mode = "flat";
  scale_factor = none;
  source_run_id = some "run";
  expected_tables = ("orders", record { name = "total"; type = "DOUBLE" } ∷ []) ∷ [];
  parquet_dir = none;
  shm_capable = true;
  source_db = none;
  threads = some (pos 4);
}

from_dict-to_dict_example : from_dict sample_ops (to_dict manifest) ≡ some manifest
from_dict-to_dict_example = from_dict-to_dict sample_ops manifest (λ s. refl)

abbrev two_literals : List Char
two_literals = chars "select 'it''s' || ? || 'open"

scan_string_literals-Ordered_example :
    Ordered 0 (length two_literals) (scan_string_literals two_literals)
scan_string_literals-Ordered_example = scan_string_literals-Ordered two_literals

-- A ? inside a literal is left alone.
names_one :
    name_anonymous_placeholders (chars "a = '?' and b = ?") ("x" ∷ [])
    ≡ some (chars "a = '?' and b = :synp0", ("synp0", "x") ∷ [])
unfolding name_anonymous_placeholders decimal put
names_one = refl

-- EXPLAIN ANALYZE counts as a read.
explains : statement_kind sample_ops "/* a */ explain analyze delete from t" ≡ StatementKind.read
unfolding statement_kind contains
explains = refl

comment-Padding : Padding (chars " --x\n")
comment-Padding =
    space " " (chars "--x\n") refl
      (line_comment "-" "-" "\n" (chars "x") [] refl refl refl refl nothing)

reads_select : lead blank (chars "select 1") ≡ some (chars "select")
unfolding lead letters
reads_select = refl

lead-Padding_example : lead blank (chars " --x\n" ++ chars "select 1") ≡ some (chars "select")
lead-Padding_example = lead-Padding (chars "select 1") (chars "select") comment-Padding reads_select
