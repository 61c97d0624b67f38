-- ===== src/Storage/Compare.antt =====
-- src/storage/value.cpp: the comparison of values, and their printing.
--
-- The floating-point operations of the processor and the library are a parameter.
pub mod Keys
pub mod Order
pub mod Tests
use tiny_sql.Prelude.{
  ℕ, ◌-◌, ◌^◌, Bool, true, false, not, ◌||◌, Option, [], ◌∷◌, ltb, leb, ◌==◌, if◌then◌else◌, Bytes,
  codes, str_eq, ◌++◌,
}
use tiny_sql.Ast.{to_string}
use tiny_sql.Storage.Value.{
  Value, null_value, int_value, bigint_value, float_value, double_value, string_value, bool_value,
}

-- What the code asks of `float` and `double`, which are kept as their bits: `<` and `==`,
-- `std::fixed` output with two and with four digits, `std::fabs(x) > 1e-9`, and the readers `stof`
-- and `stod`, which may throw.
pub record Floats : Type 0 where
  pub float_lt : ℕ → ℕ → Bool
  pub float_eq : ℕ → ℕ → Bool
  pub float_text : ℕ → Bytes
  pub float_nonzero : ℕ → Bool
  pub stof : Bytes → Option ℕ
  pub double_lt : ℕ → ℕ → Bool
  pub double_eq : ℕ → ℕ → Bool
  pub double_text : ℕ → Bytes
  pub double_nonzero : ℕ → Bool
  pub stod : Bytes → Option ℕ

-- `data_.index()`
pub get_index : Value → ℕ
get_index null_value = 0
get_index (int_value x) = 1
get_index (bigint_value x) = 2
get_index (float_value x) = 3
get_index (double_value x) = 4
get_index (string_value s) = 5
get_index (bool_value b) = 6

-- The order of two's complement numbers of `w` bits.
pub signed_lt : ℕ → ℕ → ℕ → Bool
signed_lt w x y =
    if leb (2 ^ (w - 1)) x
    then (if leb (2 ^ (w - 1)) y then ltb x y else true)
    else if leb (2 ^ (w - 1)) y
    then false
    else ltb x y

-- `std::string` compares bytes, and a prefix is less.
pub string_lt : Bytes → Bytes → Bool
string_lt s [] = false
string_lt [] (d ∷ t) = true
string_lt (c ∷ s) (d ∷ t) =
    let rest = string_lt s t in if ltb c d then true else if ltb d c then false else rest

bool_lt : Bool → Bool → Bool
bool_lt false true = true
bool_lt _ _ = false

pub bool_eq : Bool → Bool → Bool
bool_eq true b = b
bool_eq false b = not b

-- `std::to_string` of a two's complement number of `w` bits.
pub signed_text : ℕ → ℕ → Bytes
signed_text w x = if leb (2 ^ (w - 1)) x then codes "-" ++ to_string (2 ^ w - x) else to_string x

module _ (F : Floats) where
  -- The comparison of two values of one alternative.
  less_same : Value → Value → Bool
  less_same (int_value x) (int_value y) = signed_lt 32 x y
  less_same (bigint_value x) (bigint_value y) = signed_lt 64 x y
  less_same (float_value x) (float_value y) = F.float_lt x y
  less_same (double_value x) (double_value y) = F.double_lt x y
  less_same (string_value s) (string_value t) = string_lt s t
  less_same (bool_value b) (bool_value c) = bool_lt b c
  less_same _ _ = false

  equal_same : Value → Value → Bool
  equal_same null_value null_value = true
  equal_same (int_value x) (int_value y) = x == y
  equal_same (bigint_value x) (bigint_value y) = x == y
  equal_same (float_value x) (float_value y) = F.float_eq x y
  equal_same (double_value x) (double_value y) = F.double_eq x y
  equal_same (string_value s) (string_value t) = str_eq s t
  equal_same (bool_value b) (bool_value c) = bool_eq b c
  equal_same _ _ = false

  pub equals : Value → Value → Bool
  equals a b = if get_index a == get_index b then equal_same a b else false

  pub less_than : Value → Value → Bool
  less_than a b =
      if get_index a == get_index b then less_same a b else ltb (get_index a) (get_index b)

  pub not_equals : Value → Value → Bool
  not_equals a b = not (equals a b)

  pub less_equal : Value → Value → Bool
  less_equal a b = less_than a b || equals a b

  pub greater_than : Value → Value → Bool
  greater_than a b = not (less_equal a b)

  pub greater_equal : Value → Value → Bool
  greater_equal a b = not (less_than a b)

  -- `toString`
  unfoldable pub value_to_string : Value → Bytes
  value_to_string null_value = codes "NULL"
  value_to_string (int_value x) = signed_text 32 x
  value_to_string (bigint_value x) = signed_text 64 x
  value_to_string (float_value x) = F.float_text x
  value_to_string (double_value x) = F.double_text x
  value_to_string (string_value s) = s
  value_to_string (bool_value true) = codes "TRUE"
  value_to_string (bool_value false) = codes "FALSE"
