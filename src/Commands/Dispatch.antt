-- ===== src/Commands/Dispatch.antt =====
-- src/command/command_handler.cpp: QUERY, and the dispatch of a command packet.
use tiny_sql.Prelude.{
  ℕ, Bool, false, ◌||◌, List, [], ◌∷◌, ◌++◌, ltb, ◌==◌, if◌then◌else◌, Bytes, codes, pure, throw,
  ◌>>=◌, ◌>>◌,
}
use tiny_sql.Buffer.{read_uint8}
use tiny_sql.Lexer.{Lexer}
use tiny_sql.Ast.{
  Statement, select_statement, insert_statement, create_table_statement, drop_table_statement,
  show_tables_statement, show_databases_statement, use_database_statement,
}
use tiny_sql.Parser.{Parsed, found, failed, raised, out_of_fuel}
use tiny_sql.Parser.Query.{parse_query}
use tiny_sql.Packet.{read_uint24}
use tiny_sql.Session.{Session}
use tiny_sql.Storage.Compare.{Floats}
use tiny_sql.Commands.{
  CommandM, stoi_error, no_answer, on_buffer, on_session, reply_ok, reply_err, readable, read_all,
  handle_ping, handle_quit, handle_init_db,
}
use tiny_sql.Commands.Schema.{
  execute_create_table, execute_drop_table, execute_show_tables, execute_show_databases,
  execute_use_database,
}
use tiny_sql.Commands.Insert.{execute_insert}
use tiny_sql.Commands.Select.{execute_select}

-- `" \t\n\r"`
is_blank : ℕ → Bool
is_blank c = c == b' ' || c == 9 || c == 10 || c == 13

pub trim_front : Bytes → Bytes
trim_front [] = []
trim_front (c ∷ s) = let rest = trim_front s in if is_blank c then rest else c ∷ s

-- A blank with nothing kept behind it is dropped.
pub trim_back : Bytes → Bytes
trim_back [] = []
trim_back (c ∷ s) = elim (trim_back s) [
  | [] ↦ if is_blank c then [] else c ∷ []
  | d ∷ t ↦ c ∷ d ∷ t
]

-- `setSequenceId`
unfoldable pub set_sequence_id : ℕ → Session → Session
set_sequence_id sequence_id s = record s { sequence_id = sequence_id }

-- The first error is sent, where there is one.
unfoldable pub unless_errors : List Bytes → CommandM Bool → CommandM Bool
unless_errors [] m = m
unless_errors (e ∷ es) m = reply_err 1064 (codes "42000") (codes "SQL syntax error: " ++ e)

module _ (F : Floats) where
  unfoldable pub execute : Statement → CommandM Bool
  execute (select_statement stmt) = execute_select F stmt
  execute (insert_statement stmt) = execute_insert F stmt
  execute (create_table_statement stmt) = execute_create_table stmt
  execute (drop_table_statement table_name) = execute_drop_table table_name
  execute show_tables_statement = execute_show_tables
  execute show_databases_statement = execute_show_databases
  execute (use_database_statement database_name) = execute_use_database database_name

  -- A parser with errors first; then `nullptr`, a statement, or the exception of `std::stoi`.
  unfoldable pub execute_parsed : Parsed Lexer Statement → CommandM Bool
  execute_parsed (found stmt p) = unless_errors p.errors (execute stmt)
  execute_parsed (failed p) = unless_errors p.errors (reply_ok 0 0 [])
  execute_parsed (raised p) = throw stoi_error
  execute_parsed out_of_fuel = throw no_answer

  unfoldable pub handle_query : CommandM Bool
  handle_query = do query ← read_all; execute_parsed (parse_query (trim_back (trim_front query)))

  -- The switch on the command byte.
  unfoldable pub run_command : ℕ → CommandM Bool
  run_command cmd_byte =
      if cmd_byte == 0x0e
      then handle_ping
      else if cmd_byte == 0x01
      then handle_quit
      else if cmd_byte == 0x03
      then handle_query
      else if cmd_byte == 0x02
      then handle_init_db
      else (reply_err 1047 (codes "08S01") (codes "Unknown command") >> pure false)

  -- The payload behind the header.
  unfoldable pub dispatch_payload : ℕ → CommandM Bool
  dispatch_payload payload_length = do
    n ← readable
    if ltb n payload_length
        then pure false
        else if ltb payload_length 1
        then pure false
        else (do cmd_byte ← on_buffer read_uint8; run_command cmd_byte)

  unfoldable pub dispatch : CommandM Bool
  dispatch = do
    n ← readable
    if ltb n 4 then pure false else (do
      payload_length ← on_buffer read_uint24
      sequence_id ← on_buffer read_uint8
      on_session (set_sequence_id sequence_id)
      dispatch_payload payload_length)
