-- ===== src/Evaluator.antt =====
-- src/storage/expression_evaluator.cpp: the value of a WHERE clause on a row.
--
-- An expression is one of the four nodes of the syntax tree, so the exceptions for other nodes and
-- the tests for a `nullptr` operand have no place here. An exception is a result.
pub mod Meaning
mod Tests
use tiny_sql.Prelude.{
  ℕ, zero, suc, ◌^◌, Bool, true, false, not, ◌&&◌, ◌||◌, Option, none, some, List, [], ◌∷◌, ◌++◌,
  ltb, ◌==◌, if◌then◌else◌, get_elem?, Bytes, codes, str_eq,
}
use tiny_sql.Ast.{Expression, identifier, number_literal, string_literal, binary}
use tiny_sql.Parser.{leading_digits}
use tiny_sql.Storage.Value.{
  Value, null_value, int_value, bigint_value, float_value, double_value, string_value, bool_value,
  is_null, ColumnDef,
}
use tiny_sql.Storage.Table.{Row}
use tiny_sql.Storage.Compare.{
  Floats, equals, not_equals, less_than, less_equal, greater_than, greater_equal,
}

-- The `std::runtime_error` that is thrown, with the text that its message ends in.
pub data EvalError : Type 0 where
  insufficient_columns unknown_column unsupported_operator : Bytes → EvalError
  invalid_float invalid_integer unknown_comparison : Bytes → EvalError

-- `what()`
pub what : EvalError → Bytes
what (insufficient_columns name) = codes "Row has insufficient columns for identifier: " ++ name
what (unknown_column name) = codes "Unknown column in expression: " ++ name
what (unsupported_operator op) = codes "Unsupported operator in expression: " ++ op
what (invalid_float s) = codes "Invalid floating point literal: " ++ s
what (invalid_integer s) = codes "Invalid integer literal: " ++ s
what (unknown_comparison op) = codes "Unknown comparison operator: " ++ op

pub data Result (A : Type 0) : Type 0 where
  returned : A → Result A
  raised : EvalError → Result A

module _ {A B : Type 0} where
  infixl 5 ◌>>=◌
  abbrev pub ◌>>=◌ : Result A → (A → Result B) → Result B
  returned a >>= f = f a
  raised e >>= f = raised e

-- The test for the six comparison operators.
pub is_comparison : Bytes → Bool
is_comparison op =
    str_eq op (codes "=")
    || str_eq op (codes "!=")
    || str_eq op (codes "<")
    || str_eq op (codes ">")
    || str_eq op (codes "<=")
    || str_eq op (codes ">=")

has_byte : ℕ → Bytes → Bool
has_byte b [] = false
has_byte b (c ∷ s) = c == b || has_byte b s

-- The value in column `i` for the first column with the name.
column_value : ℕ → Bytes → Row → List ColumnDef → Result Value
column_value i col_name row [] = raised (unknown_column col_name)
column_value i col_name row (c ∷ cs) =
    let rest = column_value (suc i) col_name row cs in
    if str_eq c.name col_name
    then (elim (get_elem? row i) [
      | none ↦ raised (insufficient_columns col_name)
      | some v ↦ returned v
    ])
    else rest

pub evaluate_identifier : Bytes → Row → List ColumnDef → Result Value
evaluate_identifier col_name row columns = column_value 0 col_name row columns

module _ (F : Floats) where
  -- A number is read by `stod` or by `stoll`; the text of a NUMBER token begins with a digit, so
  -- `stoll` reads digits and throws only where they exceed 64 bits.
  pub evaluate_number : Bytes → Result Value
  evaluate_number value_str =
      if has_byte b'.' value_str || has_byte b'e' value_str || has_byte b'E' value_str
      then (elim (F.stod value_str) [
        | none ↦ raised (invalid_float value_str)
        | some val ↦ returned (double_value val)
      ])
      else let val = leading_digits 0 value_str in
        if ltb val (2 ^ 31)
        then returned (int_value val)
        else if ltb val (2 ^ 63)
        then returned (bigint_value val)
        else raised (invalid_integer value_str)

  pub compare_values : Value → Bytes → Value → Result Bool
  compare_values left op right =
      if is_null left || is_null right
      then returned false
      else if str_eq op (codes "=")
      then returned (equals F left right)
      else if str_eq op (codes "!=")
      then returned (not_equals F left right)
      else if str_eq op (codes "<")
      then returned (less_than F left right)
      else if str_eq op (codes ">")
      then returned (greater_than F left right)
      else if str_eq op (codes "<=")
      then returned (less_equal F left right)
      else if str_eq op (codes ">=")
      then returned (greater_equal F left right)
      else raised (unknown_comparison op)

  -- What `evaluate` makes of a value that is no binary expression's.
  pub truth : Value → Bool
  truth null_value = false
  truth (int_value n) = not (n == 0)
  truth (bigint_value n) = not (n == 0)
  truth (float_value x) = F.float_nonzero x
  truth (double_value x) = F.double_nonzero x
  truth (string_value []) = false
  truth (string_value (c ∷ s)) = true
  truth (bool_value b) = b

  -- `evaluateBinaryExpression`. The operands' evaluations are arguments: as conditions, by
  -- `evaluate`, and as values, by `evaluateValue`. One that the code does not reach is not used.
  pub evaluate_binary :
      Bytes → Result Bool → Result Bool → Result Value → Result Value → Result Bool
  evaluate_binary op left_result right_result left_value right_value =
      if str_eq op (codes "AND")
      then (left_result >>= λ b. if not b then returned false else right_result)
      else if str_eq op (codes "OR")
      then (left_result >>= λ b. if b then returned true else right_result)
      else left_value >>= λ l. right_value >>= λ r. compare_values l op r

  -- The end of `evaluateValue` on a binary expression.
  binary_value : Bytes → Result Bool → Result Value
  binary_value op result =
      if str_eq op (codes "AND") || str_eq op (codes "OR") || is_comparison op
      then (result >>= λ b. returned (bool_value b))
      else raised (unsupported_operator op)

  mutual
    -- `evaluate` on an expression that is there.
    pub evaluate_expression : Row → List ColumnDef → Expression → Result Bool
    evaluate_expression row columns (identifier name) =
        evaluate_identifier name row columns >>= λ v. returned (truth v)
    evaluate_expression row columns (number_literal s) =
        evaluate_number s >>= λ v. returned (truth v)
    evaluate_expression row columns (string_literal s) = returned (truth (string_value s))
    evaluate_expression row columns (binary left op right) =
        evaluate_binary op (evaluate_expression row columns left)
          (evaluate_expression row columns right) (evaluate_value row columns left)
          (evaluate_value row columns right)

    pub evaluate_value : Row → List ColumnDef → Expression → Result Value
    evaluate_value row columns (identifier name) = evaluate_identifier name row columns
    evaluate_value row columns (number_literal s) = evaluate_number s
    evaluate_value row columns (string_literal s) = returned (string_value s)
    evaluate_value row columns (binary left op right) = binary_value op (
        evaluate_binary op (evaluate_expression row columns left)
          (evaluate_expression row columns right) (evaluate_value row columns left)
          (evaluate_value row columns right))

  -- `evaluate`, where no WHERE clause matches every row.
  pub evaluate : Option Expression → Row → List ColumnDef → Result Bool
  evaluate none row columns = returned true
  evaluate (some expr) row columns = evaluate_expression row columns expr
