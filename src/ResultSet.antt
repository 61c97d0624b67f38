-- ===== src/ResultSet.antt =====
-- src/protocol/response.cpp: the packets of a result set, which are the column definitions and the
-- rows as text.
--
-- Each packet object is a record. `decode` of both returns false and reads nothing.
pub mod Encoding
pub mod Rows
mod Tests
use tiny_sql.Prelude.{
  ℕ, ◌+◌, Bool, true, false, List, [], ◌∷◌, ◌++◌, ltb, if◌then◌else◌, length, Bytes, codes,
}
use tiny_sql.Buffer.{Buffer, empty, write_uint8, write_uint16, write_uint32, write_lenenc_string}
use tiny_sql.Packet.{frame}
use tiny_sql.Storage.Value.{DataType, Value, null_value, is_null, ColumnDef}
use tiny_sql.Storage.Table.{Row}
use tiny_sql.Storage.Compare.{Floats, value_to_string}

-- `dataTypeToMySQLType`
pub data_type_to_mysql_type : DataType → ℕ
data_type_to_mysql_type DataType.int = 0x03
data_type_to_mysql_type DataType.bigint = 0x08
data_type_to_mysql_type DataType.float = 0x04
data_type_to_mysql_type DataType.double = 0x05
data_type_to_mysql_type DataType.varchar = 0xFE
data_type_to_mysql_type DataType.text = 0xFE
data_type_to_mysql_type DataType.boolean = 0x01
data_type_to_mysql_type DataType.null_type = 0xFE

pub get_column_length : DataType → ℕ
get_column_length DataType.int = 11
get_column_length DataType.bigint = 20
get_column_length DataType.float = 12
get_column_length DataType.double = 22
get_column_length DataType.boolean = 1
get_column_length DataType.varchar = 255
get_column_length DataType.text = 65535
get_column_length DataType.null_type = 0

pub record ColumnDefinitionPacket : Type 0 where
  pub catalog : Bytes
  pub schema : Bytes
  pub table : Bytes
  pub org_table : Bytes
  pub name : Bytes
  pub org_name : Bytes
  pub charset : ℕ
  pub column_length : ℕ
  pub column_type : ℕ
  pub flags : ℕ
  pub decimals : ℕ

-- The bit of a flag that is set.
abbrev flag_if : Bool → ℕ → ℕ
flag_if set flag = if set then flag else 0

pub from_column_def : ColumnDef → Bytes → Bytes → ColumnDefinitionPacket
from_column_def col table_name db_name = record {
  catalog = codes "def";
  schema = db_name;
  table = table_name;
  org_table = table_name;
  name = col.name;
  org_name = col.name;
  charset = 33;
  column_length = get_column_length col.type;
  column_type = data_type_to_mysql_type col.type;
  flags =
      flag_if col.not_null 0x0001
      + flag_if col.primary_key 0x0002
      + flag_if col.auto_increment 0x0200;
  decimals = 0;
}

-- The six strings and the fields of fixed size.
names_payload : ColumnDefinitionPacket → Buffer → Buffer
names_payload p b = write_lenenc_string p.org_name (
    write_lenenc_string p.name (
      write_lenenc_string p.org_table (
        write_lenenc_string p.table
          (write_lenenc_string p.schema (write_lenenc_string p.catalog b)))))

fixed_payload : ColumnDefinitionPacket → Buffer → Buffer
fixed_payload p b = write_uint16 0x0000 (
    write_uint8 p.decimals (
      write_uint16 p.flags (
        write_uint8 p.column_type
          (write_uint32 p.column_length (write_uint16 p.charset (write_uint8 0x0c b))))))

pub column_payload : ColumnDefinitionPacket → Buffer → Buffer
column_payload p b = fixed_payload p (names_payload p b)

unfoldable pub column_encode : ColumnDefinitionPacket → ℕ → Buffer → Buffer
column_encode p sequence_id = frame (column_payload p empty) sequence_id

pub column_get_payload_length : ColumnDefinitionPacket → ℕ
column_get_payload_length p =
    (1 + length p.catalog)
    + (1 + length p.schema)
    + (1 + length p.table)
    + (1 + length p.org_table)
    + (1 + length p.name)
    + (1 + length p.org_name)
    + 1
    + 2
    + 4
    + 1
    + 2
    + 1
    + 2

-- The text of a value, with the ladder that `getPayloadLength` writes out for its size.
text_size : Bytes → ℕ
text_size str =
    if ltb (length str) 251
    then 1 + length str
    else if ltb (length str) 65536
    then 3 + length str
    else if ltb (length str) 16777216
    then 4 + length str
    else 9 + length str

module _ (F : Floats) where
  -- One value of a row: NULL is a single byte.
  write_value : Value → Buffer → Buffer
  write_value value =
      if is_null value
      then write_uint8 0xFB
      else (λ b. write_lenenc_string (value_to_string F value) b)

  pub row_payload : Row → Buffer → Buffer
  row_payload [] b = b
  row_payload (v ∷ values) b = row_payload values (write_value v b)

  unfoldable pub row_encode : Row → ℕ → Buffer → Buffer
  row_encode values sequence_id = frame (row_payload values empty) sequence_id

  pub row_get_payload_length : Row → ℕ
  row_get_payload_length [] = 0
  row_get_payload_length (v ∷ values) =
      (if is_null v then 1 else text_size (value_to_string F v)) + row_get_payload_length values
