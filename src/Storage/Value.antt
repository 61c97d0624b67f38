-- ===== src/Storage/Value.antt =====
-- include/tiny_sql/storage/value.h: SQL values and column definitions.
use tiny_sql.Prelude.{ℕ, Bool, true, false, Bytes}

-- `DataType`
pub data DataType : Type 0 where
  int bigint float double varchar text boolean null_type : DataType

-- `Value`. Integers are kept as their 32 or 64 bits, and so are the floating-point numbers.
pub data Value : Type 0 where
  null_value : Value
  int_value bigint_value float_value double_value : ℕ → Value
  string_value : Bytes → Value
  bool_value : Bool → Value

pub get_type : Value → DataType
get_type null_value = DataType.null_type
get_type (int_value n) = DataType.int
get_type (bigint_value n) = DataType.bigint
get_type (float_value x) = DataType.float
get_type (double_value x) = DataType.double
get_type (string_value s) = DataType.varchar
get_type (bool_value b) = DataType.boolean

unfoldable pub is_null : Value → Bool
is_null null_value = true
is_null _ = false

pub record ColumnDef : Type 0 where
  pub name : Bytes
  pub type : DataType
  pub primary_key : Bool
  pub not_null : Bool
  pub auto_increment : Bool
  pub default_value : Value
