-- ===== src/Python.antt =====
-- Python values as the router sees them: the cells of a result and the parameters of a query.
-- The operations of Python's objects that the program calls (`==`, `float()`, `math.isclose`,
-- `str()`, `str.lower`, ...) are the fields of `PythonOps`: they stand in the interpreter, not in
-- this repository. `PythonLaws` states of `==` what the code relies on when it groups rows in a
-- dictionary; `Python.Samples` fills both.
pub mod Samples
pub mod Faults
pub mod Texts
pub mod Paths
use synno_db.Base.{ℕ, String, ◌≡◌, Bool, true, false, not, Option}
use synno_db.Base.Int.{ℤ}

-- An IEEE double by its bit pattern.
pub record Float : Type 0 where
  pub bits : ℕ

-- An exact value (int, bool, Decimal, date, str, ...): its kind, and its text.
pub data Kind : Type 0 where
  integer decimal text other : Kind

pub record PyValue : Type 0 where
  pub kind : Kind
  pub repr : String

pub data Cell : Type 0 where
  null : Cell
  float : Float → Cell
  exact : PyValue → Cell

abbrev pub is_null : Cell → Bool
is_null null = true
is_null _ = false

-- isinstance(x, float)
abbrev pub is_float : Cell → Bool
is_float (float _) = true
is_float _ = false

pub record PythonOps : Type 0 where
  -- x == y
  pub eq : Cell → Cell → Bool
  -- float(x), or none when it raises TypeError or ValueError
  pub to_float : Cell → Option Float
  -- math.isclose(x, y, rel_tol=tol, abs_tol=tol)
  pub isclose : Float → Float → Float → Bool
  -- x < y on ints and floats
  pub number_lt : Cell → Cell → Bool
  pub float_lt : Float → Float → Bool
  pub float_le : Float → Float → Bool
  -- round(v / tol), or none when it raises OverflowError (an infinity)
  pub snap : Float → Float → Option ℤ
  pub zero : Float
  pub one : Float
  -- str(x)
  pub show : Cell → String
  pub lower : String → String
  pub upper : String → String
  pub strip : String → String
  -- float(s) and int(s), or none when they raise ValueError
  pub parse_float : String → Option Float
  pub parse_int : String → Option ℤ

-- `if x` on a float
abbrev pub is_truthy : PythonOps → Float → Bool
is_truthy py x = not (py.eq (float x) (float py.zero))

-- `==` on the values of a result is symmetric and transitive. It is not reflexive: NaN.
pub record PythonLaws (py : PythonOps) : Type 0 where
  pub eq_sym : (x y : Cell) → py.eq x y ≡ true → py.eq y x ≡ true
  pub eq_trans : (x y z : Cell) → py.eq x y ≡ true → py.eq y z ≡ true → py.eq x z ≡ true
