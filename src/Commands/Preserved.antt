-- ===== src/Commands/Preserved.antt =====
-- src/command/command_handler.cpp: every command is made of the steps of a frame.
use tiny_sql.Prelude.{ℕ, Bool, Option, none, some, List, [], ◌∷◌, Bytes, ◌>>=◌}
use tiny_sql.Buffer.{Buffer}
use tiny_sql.Lexer.{Lexer}
use tiny_sql.Ast.{
  Statement, CreateTableStatement, InsertStatement, SelectStatement, select_statement,
  insert_statement, create_table_statement, drop_table_statement, show_tables_statement,
  show_databases_statement, use_database_statement,
}
use tiny_sql.Evaluator.{Result, returned, raised}
use tiny_sql.Parser
use tiny_sql.Parser.{Parsed, found, failed, out_of_fuel}
use tiny_sql.Storage.Value.{ColumnDef}
use tiny_sql.Storage.Table.{Table, Row}
use tiny_sql.Storage.Compare.{Floats}
use tiny_sql.Commands.{
  Tables, Server, CommandM, missing_value, stoi_error, no_answer, call_back, handle_ping,
  handle_quit, read_all, handle_init_db, unknown_database, named, or_else,
}
use tiny_sql.Commands.Schema.{
  create_in, open_database, execute_create_table, drop_from, execute_drop_table,
  execute_show_tables, execute_show_databases, execute_use_database,
}
use tiny_sql.Commands.Insert.{insert_prepared, insert_into, execute_insert}
use tiny_sql.Commands.Select.{
  Choice, chosen, refused, write_columns, write_row, write_rows, send_result, send_filtered,
  send_chosen, execute_select, project,
}
use tiny_sql.Commands.Dispatch.{
  unless_errors, execute, execute_parsed, handle_query, run_command, dispatch_payload, dispatch,
}
use tiny_sql.Commands.Stays.{
  Frame, Stays, Stays-bind, Stays-pure, Stays-throw, Stays-at, Stays-reply_ok, Stays-write_packet,
  stays_rules,
}

module _ (R : Server → Server → Type 0) (f : Frame R) where
  create_in-Stays :
      (d : Bytes) (stmt : CreateTableStatement) (db : Tables) → Stays R f (create_in d stmt db)
  unfolding create_in
  create_in-Stays d stmt db = search stays_rules

  open_database-Stays : (d : Bytes) → Stays R f (open_database d)
  unfolding open_database
  open_database-Stays d = record { stays = λ w. f.storage w _ }

  execute_create_table-Stays : (stmt : CreateTableStatement) → Stays R f (execute_create_table stmt)
  unfolding execute_create_table
  execute_create_table-Stays stmt =
      Stays-at R f
        (λ w.
          named (λ d. open_database d >>= or_else (unknown_database d) (create_in d stmt))
            w.session.current_database)
        λ w. search (stays_rules, open_database-Stays, create_in-Stays)

  execute_drop_table-Stays : (name : Bytes) → Stays R f (execute_drop_table name)
  unfolding execute_drop_table drop_from
  execute_drop_table-Stays name = search stays_rules

  execute_show_tables-Stays : Stays R f execute_show_tables
  unfolding execute_show_tables
  execute_show_tables-Stays = search stays_rules

  execute_show_databases-Stays : Stays R f execute_show_databases
  unfolding execute_show_databases
  execute_show_databases-Stays = Stays-at R f _ λ w. Stays-reply_ok R f _ _ _

  execute_use_database-Stays : (name : Bytes) → Stays R f (execute_use_database name)
  unfolding execute_use_database
  execute_use_database-Stays name = search stays_rules

  insert_prepared-Stays :
      (F : Floats) (d : Bytes) (db : Tables) (name : Bytes) (o : Option (Row × Table))
      → Stays R f (insert_prepared F d db name o)
  unfolding insert_prepared
  insert_prepared-Stays F d db name none = search stays_rules
  insert_prepared-Stays F d db name (some (row, t)) = search stays_rules

  execute_insert-Stays : (F : Floats) (stmt : InsertStatement) → Stays R f (execute_insert F stmt)
  unfolding execute_insert insert_into
  execute_insert-Stays F stmt = search (stays_rules, insert_prepared-Stays)

  write_columns-Stays :
      (t d : Bytes) (cs : List ColumnDef) (b : Buffer) → Stays R f (write_columns t d cs b)
  unfolding write_columns
  write_columns-Stays t d [] b = Stays-pure R f b
  write_columns-Stays t d (c ∷ cs) b =
      Stays-bind R f _ _ (Stays-write_packet R f _ b) λ r. write_columns-Stays t d cs r

  write_row-Stays :
      (F : Floats) (rest : Buffer → CommandM Buffer) (b : Buffer) (o : Option Row)
      → ((r : Buffer) → Stays R f (rest r))
      → Stays R f (write_row F rest b o)
  write_row-Stays F rest b none h = Stays-throw R f missing_value
  write_row-Stays F rest b (some vs) h = Stays-bind R f _ rest (Stays-write_packet R f _ b) h

  write_rows-Stays :
      (F : Floats) (indices : List ℕ) (rows : List Row) (b : Buffer)
      → Stays R f (write_rows F indices rows b)
  unfolding write_rows
  write_rows-Stays F indices [] b = Stays-pure R f b
  write_rows-Stays F indices (row ∷ rows) b =
      write_row-Stays F (write_rows F indices rows) b (project indices row)
        (write_rows-Stays F indices rows)

  send_result-Stays :
      (F : Floats) (d t : Bytes) (cs : List ColumnDef) (indices : List ℕ) (rows : List Row)
      → Stays R f (send_result F d t cs indices rows)
  unfolding send_result call_back
  send_result-Stays F d t cs indices rows = Stays-bind R f _ _ (Stays-write_packet R f _ _) λ r1.
      Stays-bind R f _ _ (write_columns-Stays t d cs r1) λ r2.
        Stays-bind R f _ _ (Stays-write_packet R f _ _) λ r3.
          Stays-bind R f _ _ (write_rows-Stays F indices rows r3) λ r4.
            Stays-bind R f _ _ (Stays-write_packet R f _ _) λ r5. record { stays = λ w. f.sent w _ }

  send_filtered-Stays :
      (F : Floats) (d : Bytes) (stmt : SelectStatement) (cs : List ColumnDef) (indices : List ℕ)
      (rows : Result (List Row))
      → Stays R f (send_filtered F d stmt cs indices rows)
  unfolding send_filtered
  send_filtered-Stays F d stmt cs indices (returned rows) = send_result-Stays F d _ cs indices _
  send_filtered-Stays F d stmt cs indices (raised e) = search stays_rules

  send_chosen-Stays :
      (F : Floats) (d : Bytes) (stmt : SelectStatement) (t : Table) (c : Choice)
      → Stays R f (send_chosen F d stmt t c)
  unfolding send_chosen
  send_chosen-Stays F d stmt t (chosen cs indices) = send_filtered-Stays F d stmt cs indices _
  send_chosen-Stays F d stmt t (refused code state message) = search stays_rules

  execute_select-Stays : (F : Floats) (stmt : SelectStatement) → Stays R f (execute_select F stmt)
  unfolding execute_select
  execute_select-Stays F stmt = search (stays_rules, send_chosen-Stays)

  execute-Stays : (F : Floats) (stmt : Statement) → Stays R f (execute F stmt)
  unfolding execute
  execute-Stays F (select_statement stmt) = execute_select-Stays F stmt
  execute-Stays F (insert_statement stmt) = execute_insert-Stays F stmt
  execute-Stays F (create_table_statement stmt) = execute_create_table-Stays stmt
  execute-Stays F (drop_table_statement name) = execute_drop_table-Stays name
  execute-Stays F show_tables_statement = execute_show_tables-Stays
  execute-Stays F show_databases_statement = execute_show_databases-Stays
  execute-Stays F (use_database_statement name) = execute_use_database-Stays name

  unless_errors-Stays :
      (es : List Bytes) (m : CommandM Bool) → Stays R f m → Stays R f (unless_errors es m)
  unfolding unless_errors
  unless_errors-Stays [] m h = h
  unless_errors-Stays (e ∷ es) m h = search stays_rules

  execute_parsed-Stays : (F : Floats) (o : Parsed Lexer Statement) → Stays R f (execute_parsed F o)
  unfolding execute_parsed
  execute_parsed-Stays F (found stmt p) = unless_errors-Stays p.errors _ (execute-Stays F stmt)
  execute_parsed-Stays F (failed p) = unless_errors-Stays p.errors _ (Stays-reply_ok R f _ _ _)
  execute_parsed-Stays F (Parser.raised p) = Stays-throw R f stoi_error
  execute_parsed-Stays F out_of_fuel = Stays-throw R f no_answer

  read_all-Stays : Stays R f read_all
  unfolding read_all
  read_all-Stays = search stays_rules

  handle_ping-Stays : Stays R f handle_ping
  unfolding handle_ping
  handle_ping-Stays = search stays_rules

  handle_quit-Stays : Stays R f handle_quit
  unfolding handle_quit
  handle_quit-Stays = search stays_rules

  handle_query-Stays : (F : Floats) → Stays R f (handle_query F)
  unfolding handle_query
  handle_query-Stays F = search (stays_rules, read_all-Stays, execute_parsed-Stays)

  handle_init_db-Stays : Stays R f handle_init_db
  unfolding handle_init_db
  handle_init_db-Stays = search (stays_rules, read_all-Stays)

  run_command-Stays : (F : Floats) (c : ℕ) → Stays R f (run_command F c)
  unfolding run_command
  run_command-Stays F c =
      search
        (
          stays_rules, handle_ping-Stays, handle_quit-Stays, handle_query-Stays,
          handle_init_db-Stays,
        )
        depth 10

  dispatch_payload-Stays : (F : Floats) (n : ℕ) → Stays R f (dispatch_payload F n)
  unfolding dispatch_payload
  dispatch_payload-Stays F n = search (stays_rules, run_command-Stays) depth 8

  pub dispatch-Stays : (F : Floats) → Stays R f (dispatch F)
  unfolding dispatch
  dispatch-Stays F = search (stays_rules, dispatch_payload-Stays) depth 10
