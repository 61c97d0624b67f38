-- ===== src/Commands/Insert.antt =====
-- src/command/command_handler.cpp: INSERT.
pub mod Effect
use tiny_sql.Prelude.{
  ℕ, ◌%◌, ◌^◌, Bool, Option, none, some, List, [], ◌∷◌, ltb, ◌==◌, if◌then◌else◌, length, Bytes,
  codes, str_eq, ◌>>◌,
}
use tiny_sql.Ast.{Expression, identifier, number_literal, string_literal, binary, InsertStatement}
use tiny_sql.Parser.{leading_digits, stoi}
use tiny_sql.Storage.Value.{
  DataType, Value, null_value, int_value, bigint_value, float_value, double_value, string_value,
  ColumnDef,
}
use tiny_sql.Storage.Table.{Table, Row, insert_row, get_next_auto_increment_value}
use tiny_sql.Storage.Compare.{Floats}
use tiny_sql.Commands.{
  Tables, CommandM, reply_ok, reply_err, with_database_name, with_database, with_table,
  unknown_database, put_table,
}

module _ (F : Floats) where
  -- A literal whose text is read, or kept as it is where the read throws.
  abbrev read_or_text : (ℕ → Value) → Bytes → Option ℕ → Value
  read_or_text make val_str none = string_value val_str
  read_or_text make val_str (some n) = make n

  -- The text of a NUMBER token begins with a digit, so `stoi` and `stoll` read digits.
  pub number_to_value : Bytes → DataType → Value
  number_to_value val_str DataType.int = read_or_text int_value val_str (stoi val_str)
  number_to_value val_str DataType.bigint =
      let n = leading_digits 0 val_str in
      read_or_text bigint_value val_str (if ltb n (2 ^ 63) then some n else none)
  number_to_value val_str DataType.float = read_or_text float_value val_str (F.stof val_str)
  number_to_value val_str DataType.double = read_or_text double_value val_str (F.stod val_str)
  number_to_value val_str _ = string_value val_str

  unfoldable pub expression_to_value : Expression → DataType → Value
  expression_to_value (identifier name) type = null_value
  expression_to_value (number_literal val_str) type = number_to_value val_str type
  expression_to_value (string_literal s) type = string_value s
  expression_to_value (binary left op right) type = null_value

  -- `std::find` among the column names, and the expression at that index.
  unfoldable pub expression_of : Bytes → List Bytes → List Expression → Option Expression
  expression_of name [] es = none
  expression_of name (n ∷ ns) [] = none
  expression_of name (n ∷ ns) (e ∷ es) =
      let rest = expression_of name ns es in if str_eq n name then some e else rest

  -- The value of a column that the statement does not name. The counter is cast to 32 bits.
  unfoldable pub value_unnamed : ColumnDef → Table → Value × Table
  value_unnamed c t =
      let next = get_next_auto_increment_value t in
      if c.auto_increment then (int_value (next.0 % 2 ^ 32), next.1) else (c.default_value, t)

  unfoldable pub value_named : List Bytes → List Expression → ColumnDef → Table → Value × Table
  value_named names exprs c t = elim (expression_of c.name names exprs) [
    | none ↦ value_unnamed c t
    | some e ↦ (expression_to_value e c.type, t)
  ]

  -- The loop over the columns of the table.
  unfoldable pub row_named : List Bytes → List Expression → List ColumnDef → Table → Row × Table
  row_named names exprs [] t = ([], t)
  row_named names exprs (c ∷ cs) t =
      let (v, u) = value_named names exprs c t in
      let (vs, r) = row_named names exprs cs u in (v ∷ vs, r)

  unfoldable pub row_in_order : List ColumnDef → List Expression → Row
  row_in_order [] es = []
  row_in_order (c ∷ cs) [] = []
  row_in_order (c ∷ cs) (e ∷ es) = expression_to_value e c.type ∷ row_in_order cs es

  -- `none` where the numbers of columns and of values differ.
  unfoldable pub prepare_row : InsertStatement → Table → Option (Row × Table)
  prepare_row stmt t = elim stmt.columns [
    | [] ↦
        if length stmt.insert_values == length t.columns
        then some (row_in_order t.columns stmt.insert_values, t)
        else none
    | n ∷ ns ↦
        if length (n ∷ ns) == length stmt.insert_values
        then some (row_named (n ∷ ns) stmt.insert_values t.columns t)
        else none
  ]

  -- The row goes into the table, which keeps a counter that was taken even where it does not.
  unfoldable pub insert_prepared : Bytes → Tables → Bytes → Option (Row × Table) → CommandM Bool
  insert_prepared db_name db table_name none =
      reply_err 1136 (codes "21S01") (codes "Column count doesn't match value count")
  insert_prepared db_name db table_name (some (row, t)) =
      let inserted = insert_row row t in
      put_table db_name db table_name inserted.1
      >> (if inserted.0
          then reply_ok 0 1 []
          else reply_err 1062 (codes "23000") (codes "Failed to insert row"))

  unfoldable pub insert_into : InsertStatement → Bytes → CommandM Bool
  insert_into stmt db_name = with_database db_name (unknown_database db_name) λ db.
      with_table db_name db stmt.table_name
        λ t. insert_prepared db_name db stmt.table_name (prepare_row stmt t)

  unfoldable pub execute_insert : InsertStatement → CommandM Bool
  execute_insert stmt = with_database_name (insert_into stmt)
