-- ===== src/Python/Samples.antt =====
-- A concrete choice of the interpreter's operations, over doubles read as small numbers: `==`
-- compares structure, `isclose` allows a distance of one, 255 is NaN
-- and 254 infinity.
use synno_db.Base.{
  ℕ, ◌≡◌, Bool, true, false, not, ◌&&◌, Option, none, some, arith, ◌+◌, ltb, leb, ◌==◌, str_eq,
  eq_iff, if◌then◌else◌,
}
use synno_db.Base.Int.{pos}
use synno_db.Python.{Float, Kind, Cell, null, float, exact, PythonOps, PythonLaws}
use synno_db.Python.Kind.{integer, decimal, text, other}

abbrev kind_eq : Kind → Kind → Bool
kind_eq integer integer = true
kind_eq decimal decimal = true
kind_eq text text = true
kind_eq other other = true
kind_eq _ _ = false

abbrev cell_eq : Cell → Cell → Bool
cell_eq null null = true
cell_eq (float x) (float y) = x.bits == y.bits && not (x.bits == 255)
cell_eq (exact x) (exact y) = kind_eq x.kind y.kind && str_eq x.repr y.repr
cell_eq _ _ = false

abbrev as_float : Cell → Option Float
as_float (float x) = some x
as_float _ = none

abbrev as_bits : Cell → ℕ
as_bits (float x) = x.bits
as_bits _ = 0

abbrev pub sample_ops : PythonOps
sample_ops = record {
  eq = cell_eq;
  to_float = as_float;
  isclose = λ tol x y. leb x.bits (y.bits + 1) && leb y.bits (x.bits + 1) && not (x.bits == 255);
  number_lt = λ x y. ltb (as_bits x) (as_bits y);
  float_lt = λ x y. ltb x.bits y.bits;
  float_le = λ x y. leb x.bits y.bits;
  snap = λ x tol. if x.bits == 254 then none else some (pos x.bits);
  zero = record { bits = 0 };
  one = record { bits = 100 };
  show = λ c. elim c [ null ↦ "None" | float x ↦ "float" | exact v ↦ v.repr ];
  lower = λ s. s;
  upper = λ s. s;
  strip = λ s. s;
  parse_float = λ s. none;
  parse_int = λ s. none;
}

cell_eq_sym : (x y : Cell) → cell_eq x y ≡ true → cell_eq y x ≡ true
cell_eq_sym null y h = ground arith
cell_eq_sym (float x) y h = ground arith
cell_eq_sym (exact x) (exact y) h = ground (arith, eq_iff x.repr y.repr, eq_iff y.repr x.repr)
cell_eq_sym (exact x) y h = ground arith

cell_eq_trans : (x y z : Cell) → cell_eq x y ≡ true → cell_eq y z ≡ true → cell_eq x z ≡ true
cell_eq_trans null y z h k = ground arith
cell_eq_trans (float x) y z h k = ground arith
cell_eq_trans (exact x) (exact y) (exact z) h k =
    ground (arith, eq_iff x.repr y.repr, eq_iff y.repr z.repr, eq_iff x.repr z.repr)
cell_eq_trans (exact x) y z h k = ground arith

pub sample_laws : PythonLaws sample_ops
sample_laws = record { eq_sym = cell_eq_sym; eq_trans = cell_eq_trans }
