-- ===== src/ResultSet/Tests.antt =====
-- The theorems on result sets at concrete inputs.
use tiny_sql.Prelude.{true, false, some, [], ◌∷◌, ◌≡◌, map, arith, codes, length}
use tiny_sql.Buffer.{empty, append, readable_bytes}
use tiny_sql.Buffer.RoundTrip.{Returns}
use tiny_sql.Buffer.Writes.{empty-IsValid, unread-empty}
use tiny_sql.Storage.Value.{DataType, null_value, string_value, bool_value, ColumnDef}
use tiny_sql.Storage.Table.{Row}
use tiny_sql.Storage.Compare.{value_to_string}
use tiny_sql.Storage.Compare.Tests.{whole_floats}
use tiny_sql.ResultSet.{
  ColumnDefinitionPacket, from_column_def, column_payload, column_get_payload_length, row_payload,
  row_encode, row_get_payload_length,
}
use tiny_sql.ResultSet.Encoding.{NamesFit}
use tiny_sql.ResultSet.Rows.{
  read_row, cell, TextsFit, row_encode-read, result_set_get_payload_length-encode,
}

abbrev some_row : Row
some_row = string_value (codes "ann") ∷ null_value ∷ bool_value true ∷ []

some_row-TextsFit : TextsFit whole_floats some_row
unfolding value_to_string
some_row-TextsFit = omega arith

abbrev definition : ColumnDefinitionPacket
definition =
    from_column_def
      (record {
        name = codes "id";
        type = DataType.int;
        primary_key = true;
        not_null = true;
        auto_increment = false;
        default_value = null_value;
      })
      (codes "people") (codes "test")

definition-NamesFit : NamesFit definition
unfolding from_column_def
definition-NamesFit = omega arith

row_encode-read_example :
    Returns
      (read_row (length some_row))
      (append (codes "z") (row_encode whole_floats some_row 3 empty))
      (some (map (cell whole_floats) some_row))
      (codes "z")
unfolding value_to_string tiny_sql.Storage.Value.is_null
row_encode-read_example =
    row_encode-read whole_floats some_row (codes "z") 3 empty some_row-TextsFit (omega arith)
      (omega arith) empty-IsValid unread-empty

result_set_get_payload_length-encode_example :
    (readable_bytes (row_payload whole_floats some_row empty)
      ≡ row_get_payload_length whole_floats some_row)
    × (readable_bytes (column_payload definition empty) ≡ column_get_payload_length definition)
result_set_get_payload_length-encode_example =
    result_set_get_payload_length-encode whole_floats some_row definition definition-NamesFit
