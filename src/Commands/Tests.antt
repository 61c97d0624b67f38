-- ===== src/Commands/Tests.antt =====
-- The theorems on commands at concrete inputs.
use tiny_sql.Prelude.{
  List, some, none, false, refl, after, true, [], ◌∷◌, ◌++◌, ◌≡◌, ap, ◌∙◌, arith, length, Bytes,
  codes, done,
}
use tiny_sql.Buffer.{empty, append, advance}
use tiny_sql.Buffer.Writes.{append-Writes, empty-IsValid, unread-empty}
use tiny_sql.Packet.Framing.{packet_bytes}
use tiny_sql.Response.Encoding.{ok_bytes}
use tiny_sql.Session.{new_session}
use tiny_sql.Storage.Compare.Tests.{whole_floats}
use tiny_sql.Commands.{Server, ok_packet}
use tiny_sql.Ast.{ColumnDefinition, CreateTableStatement}
use tiny_sql.Commands.Schema.{execute_create_table, execute_drop_table}
use tiny_sql.Commands.Schema.Effect.{
  Changes, declared, or_new, dropped, execute_create_table-Changes,
}
use tiny_sql.Commands.Schema.Effect.{table_in, in_database}
use tiny_sql.Commands.Rows.{WellStored, Change, apply_all, apply_all-AllFit}
use tiny_sql.Storage.Table.{Table}
use tiny_sql.Storage.Table.Rows.{AllFit}
use tiny_sql.Ast.{InsertStatement, string_literal}
use tiny_sql.Commands.Dispatch.{dispatch}
use tiny_sql.Storage.Catalogue.{
  get_database, get_or_create_database, create_database, has_table, create_table, get_table,
}
use tiny_sql.Maps.{find, assign}
use tiny_sql.Commands.Rows.{apply}
use tiny_sql.Commands.Insert.{
  execute_insert, insert_into, prepare_row, insert_prepared, row_in_order, expression_to_value,
}
use tiny_sql.Commands.Schema.{open_database, create_in, add_columns, column_of}
use tiny_sql.Prelude.{str_eq}
use tiny_sql.Commands.{reply_ok, reply, call_back}
use tiny_sql.Session.{next_sequence_id}
use tiny_sql.Storage.Table.{add_column, new_table, insert_row, not_null_holds}
use tiny_sql.Storage.Value.{is_null}
use tiny_sql.Commands.Runs.{dispatch-init_db}

-- `COM_INIT_DB` with the name of a database, and the start of the next packet behind it.
abbrev asked : Bytes
asked = packet_bytes (0x02 ∷ codes "shop") 0 ++ codes "ab"

abbrev server : Server
server = record {
  buffer = append asked empty;
  session = new_session 1;
  storage = record { databases = [] };
  sent = [];
}

dispatch-init_db_example :
    dispatch whole_floats server
    ≡ done true (record server {
      buffer = advance (length asked) server.buffer;
      session = record server.session { sequence_id = 1; current_database = codes "shopab" };
      sent = packet_bytes (ok_bytes (ok_packet 0 0 [])) 0;
    })
dispatch-init_db_example =
    dispatch-init_db whole_floats (codes "shop") (codes "ab") 0 server (omega arith) (omega arith)
      ((append-Writes asked).valid empty empty-IsValid)
      ((append-Writes asked).appends empty empty-IsValid
        ∙ ap (λ (l : Bytes). l ++ asked) unread-empty)

-- A server on which a database is chosen that does not exist.
abbrev chosen_server : Server
chosen_server = record server {
  session = record server.session { current_database = codes "shop" };
}

abbrev id_column : ColumnDefinition
id_column = record {
  name = codes "id";
  type = codes "INT";
  primary_key = true;
  not_null = true;
  auto_increment = false;
  default_value = [];
}

abbrev create_items : CreateTableStatement
create_items = record { table_name = codes "items"; columns = id_column ∷ [] }

execute_create_table-Changes_example :
    Changes
      (codes "shop")
      (codes "items")
      (or_new (declared create_items))
      chosen_server.storage
      (after (execute_create_table create_items chosen_server)).storage
    × Changes
        (codes "shop")
        (codes "items")
        dropped
        chosen_server.storage
        (after (execute_drop_table (codes "items") chosen_server)).storage
execute_create_table-Changes_example =
    execute_create_table-Changes create_items (codes "items") _ _ chosen_server refl

abbrev insert_item : InsertStatement
insert_item = record {
  table_name = codes "items";
  columns = [];
  insert_values = string_literal (codes "pen") ∷ [];
}

abbrev statements : List Change
statements = Change.creates create_items ∷ Change.fills insert_item ∷ []

server-WellStored : WellStored chosen_server.storage
unfolding table_in in_database get_database find
server-WellStored = record { stored = λ d n t h. let z : none ≡ some t = h in absurd cc }

items_found :
    (t : Table) × (table_in
        (codes "shop")
        (codes "items")
        (apply_all whole_floats statements chosen_server).storage
      ≡ some t)
unfolding table_in in_database apply_all get_database find apply execute_insert execute_create_table
    open_database get_or_create_database create_database assign str_eq create_in has_table
    create_table reply_ok reply call_back next_sequence_id insert_into prepare_row insert_prepared
    get_table add_columns add_column new_table insert_row not_null_holds row_in_order
    expression_to_value column_of is_null
items_found = (_, refl)

apply_all-AllFit_example : AllFit items_found.0.columns items_found.0.rows
apply_all-AllFit_example =
    apply_all-AllFit whole_floats statements chosen_server (codes "shop") (codes "items")
      items_found.0 server-WellStored items_found.1
