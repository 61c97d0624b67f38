-- ===== src/Commands/Schema.antt =====
-- src/command/command_handler.cpp: CREATE TABLE, DROP TABLE, SHOW TABLES, SHOW DATABASES and USE.
pub mod Effect
use tiny_sql.Prelude.{
  Bool, true, false, ◌||◌, Option, List, [], ◌∷◌, ◌++◌, ◌==◌, if◌then◌else◌, map, Bytes, codes,
  str_eq, done, ◌>>=◌, ◌>>◌,
}
use tiny_sql.Token.{to_upper}
use tiny_sql.Ast.{ColumnDefinition, CreateTableStatement, comma_separated}
use tiny_sql.Session.{set_current_database}
use tiny_sql.Storage.Value.{DataType, Value, null_value, string_value, ColumnDef}
use tiny_sql.Storage.Table.{Table, new_table, add_column}
use tiny_sql.Storage.Catalogue.{
  get_or_create_database, has_table, create_table, drop_table, get_table_names, get_database_names,
}
use tiny_sql.Commands.{
  Tables, CommandM, new_database, reply_ok, reply_err, on_session, with_database_name,
  with_database, unknown_database, or_else, put_database,
}

-- `type_upper.find(prefix) == 0`
begins_with : Bytes → Bytes → Bool
begins_with [] s = true
begins_with (p ∷ ps) [] = false
begins_with (p ∷ ps) (c ∷ s) = let rest = begins_with ps s in if p == c then rest else false

pub parse_data_type : Bytes → DataType
parse_data_type type_str =
    let type_upper = map to_upper type_str in
    if str_eq type_upper (codes "INT") || str_eq type_upper (codes "INTEGER")
    then DataType.int
    else if str_eq type_upper (codes "BIGINT")
    then DataType.bigint
    else if str_eq type_upper (codes "FLOAT")
    then DataType.float
    else if str_eq type_upper (codes "DOUBLE")
    then DataType.double
    else if begins_with (codes "VARCHAR") type_upper
    then DataType.varchar
    else if str_eq type_upper (codes "TEXT")
    then DataType.text
    else if str_eq type_upper (codes "BOOLEAN") || str_eq type_upper (codes "BOOL")
    then DataType.boolean
    else DataType.varchar

-- An empty text stands for no default.
pub default_of : Bytes → Value
default_of [] = null_value
default_of (c ∷ s) = string_value (c ∷ s)

unfoldable pub column_of : ColumnDefinition → ColumnDef
column_of c = record {
  name = c.name;
  type = parse_data_type c.type;
  primary_key = c.primary_key;
  not_null = c.not_null;
  auto_increment = c.auto_increment;
  default_value = default_of c.default_value;
}

unfoldable pub add_columns : List ColumnDefinition → Table → Table
add_columns [] t = t
add_columns (c ∷ cs) t = add_columns cs (add_column (column_of c) t)

-- The table in a database that is there.
unfoldable pub create_in : Bytes → CreateTableStatement → Tables → CommandM Bool
create_in db_name stmt db =
    let made =
      create_table (λ t. t.name) (add_columns stmt.columns (new_table stmt.table_name)) db in
    if has_table stmt.table_name db
    then reply_err 1050 (codes "42S01")
        (codes "Table '" ++ (stmt.table_name ++ codes "' already exists"))
    else if made.0
    then (put_database db_name made.1 >> reply_ok 0 0 [])
    else reply_err 1050 (codes "42S01")
        (codes "Failed to create table '" ++ (stmt.table_name ++ codes "'"))

-- `storage.getOrCreateDatabase(db_name)`
unfoldable pub open_database : Bytes → CommandM (Option Tables)
open_database db_name w =
    let opened = get_or_create_database new_database db_name w.storage in
    done opened.0 (record w { storage = opened.1 })

unfoldable pub execute_create_table : CreateTableStatement → CommandM Bool
execute_create_table stmt =
    with_database_name λ db_name.
      open_database db_name >>= or_else (unknown_database db_name) (create_in db_name stmt)

unfoldable pub drop_from : Bytes → Bytes → CommandM Bool
drop_from table_name db_name = with_database db_name (unknown_database db_name) λ db.
    let dropped = drop_table table_name db in
    if dropped.0
    then (put_database db_name dropped.1 >> reply_ok 0 0 [])
    else reply_err 1051 (codes "42S02") (codes "Unknown table '" ++ (table_name ++ codes "'"))

unfoldable pub execute_drop_table : Bytes → CommandM Bool
execute_drop_table table_name = with_database_name (drop_from table_name)

-- `(none)` where there is no name.
pub names_or_none : List Bytes → Bytes
names_or_none [] = codes "(none)"
names_or_none (n ∷ ns) = comma_separated (n ∷ ns)

unfoldable pub execute_show_tables : CommandM Bool
execute_show_tables = with_database_name λ db_name.
    with_database db_name (reply_ok 0 0 (codes "No tables in database")) λ db.
      reply_ok 0 0
        (codes "Tables in " ++ (db_name ++ (codes ": " ++ names_or_none (get_table_names db))))

unfoldable pub execute_show_databases : CommandM Bool
execute_show_databases w =
    reply_ok 0 0 (codes "Databases: " ++ comma_separated (get_database_names w.storage)) w

unfoldable pub execute_use_database : Bytes → CommandM Bool
execute_use_database database_name =
    on_session (set_current_database database_name)
    >> reply_ok 0 0 (codes "Database changed to: " ++ database_name)
