-- ===== src/Commands.antt =====
-- src/command/command_handler.cpp: what a command handler works on, and the handlers of PING, QUIT
-- and INIT_DB.
--
-- A handler changes the client's input buffer, the session, the storage engine and what has been
-- sent, which together are its state. The response callback appends to what has been sent. Databases
-- and tables are held by one map each and looked up anew by every command, so a database is a value
-- in the engine's map and a table a value in the database's. `handleCommand` runs to its end before
-- the next one starts. Log lines are left out.
pub mod Schema
pub mod Insert
pub mod Select
pub mod Dispatch
pub mod Stays
pub mod Preserved
pub mod Runs
pub mod Rows
mod Tests
use tiny_sql.Prelude.{
  ℕ, ◌%◌, ◌^◌, Bool, true, false, Option, none, some, List, [], ◌∷◌, ◌++◌, take, Bytes, codes,
  Outcome, done, thrown, pure, throw, ◌>>=◌, ◌>>◌,
}
use tiny_sql.Buffer.{Buffer, BufferError, BufferM, empty, unread, readable_bytes, read_string}
use tiny_sql.Response.{OkPacket, new_err_packet, ok_encode, err_encode}
use tiny_sql.Session.{SessionState, Session, next_sequence_id, set_state, set_current_database}
use tiny_sql.Storage.Table.{Table}
use tiny_sql.Storage.Catalogue.{Database, StorageEngine, get_database, get_table}
use tiny_sql.Maps.{assign}

abbrev pub Tables : Type 0
Tables = Database Table

abbrev pub Storage : Type 0
Storage = StorageEngine Tables

-- `std::make_shared<Database>(name)`
abbrev pub new_database : Bytes → Tables
new_database name = record { name = name; tables = [] }

pub record Server : Type 0 where
  pub buffer : Buffer
  pub session : Session
  pub storage : Storage
  pub sent : Bytes

-- The exceptions that can leave a handler: of a read, of `std::stoi` in the parser, and of `at` on a
-- row. The fourth stands for a parser that does not return.
pub data CommandError : Type 0 where
  buffer_error : BufferError → CommandError
  stoi_error missing_value no_answer : CommandError

abbrev pub CommandM : Type 0 → Type 0
CommandM A = Server → Outcome CommandError Server A

-- The buffer as a method leaves it.
abbrev pub with_buffer :
    {A : Type 0} → Server → Outcome BufferError Buffer A → Outcome CommandError Server A
with_buffer w (done a b) = done a (record w { buffer = b })
with_buffer w (thrown e b) = thrown (buffer_error e) (record w { buffer = b })

-- A method of the input buffer.
unfoldable pub on_buffer : {A : Type 0} → BufferM A → CommandM A
on_buffer m w = with_buffer w (m w.buffer)

-- `response_callback(response)`
unfoldable pub call_back : Buffer → Server → Server
call_back response w = record w {
  sent = w.sent ++ take (readable_bytes response) (unread response);
}

-- A packet is encoded with the next sequence number and sent, and the handler returns `true`.
unfoldable pub reply : (ℕ → Buffer → Buffer) → CommandM Bool
reply encode w =
    let next = next_sequence_id w.session in
    done true (call_back (encode next.0 empty) (record w { session = next.1 }))

-- `OkPacket(affected_rows, last_insert_id, SERVER_STATUS_AUTOCOMMIT, 0, info)`
abbrev pub ok_packet : ℕ → ℕ → Bytes → OkPacket
ok_packet affected_rows last_insert_id info = record {
  affected_rows = affected_rows;
  last_insert_id = last_insert_id;
  status_flags = 0x0002;
  warnings = 0;
  info = info;
}

unfoldable pub reply_ok : ℕ → ℕ → Bytes → CommandM Bool
reply_ok affected_rows last_insert_id info =
    reply (ok_encode (ok_packet affected_rows last_insert_id info))

unfoldable pub reply_err : ℕ → Bytes → Bytes → CommandM Bool
reply_err error_code sql_state message =
    reply (err_encode (new_err_packet error_code sql_state message))

unfoldable pub on_session : (Session → Session) → CommandM (Unit {0})
on_session f w = done tt (record w { session = f w.session })

unfoldable pub handle_ping : CommandM Bool
handle_ping = reply_ok 0 0 []

unfoldable pub handle_quit : CommandM Bool
handle_quit = do on_session (set_state SessionState.closing); pure true

-- `buffer.readableBytes()`
abbrev pub readable : CommandM ℕ
readable w = done (readable_bytes w.buffer) w

-- `buffer.readString(buffer.readableBytes())`
unfoldable pub read_all : CommandM Bytes
read_all = do n ← readable; on_buffer (read_string n)

unfoldable pub handle_init_db : CommandM Bool
handle_init_db = do database ← read_all; on_session (set_current_database database); reply_ok 0 0 []

abbrev pub no_database : CommandM Bool
no_database = reply_err 1046 (codes "3D000") (codes "No database selected")

abbrev pub unknown_database : Bytes → CommandM Bool
unknown_database db_name =
    reply_err 1049 (codes "42000") (codes "Unknown database '" ++ (db_name ++ codes "'"))

-- The current database, which the handlers of statements start from.
abbrev pub named : (Bytes → CommandM Bool) → Bytes → CommandM Bool
named f [] = no_database
named f (c ∷ s) = f (c ∷ s)

abbrev pub with_database_name : (Bytes → CommandM Bool) → CommandM Bool
with_database_name f w = named f w.session.current_database w

-- A pointer, with what is done where it is null.
abbrev pub or_else : {A : Type 0} → CommandM Bool → (A → CommandM Bool) → Option A → CommandM Bool
or_else missing f none = missing
or_else missing f (some a) = f a

-- `storage.getDatabase(db_name)`
abbrev pub with_database : Bytes → CommandM Bool → (Tables → CommandM Bool) → CommandM Bool
with_database db_name missing f w = or_else missing f (get_database db_name w.storage) w

abbrev pub unknown_table : Bytes → Bytes → CommandM Bool
unknown_table db_name table_name =
    reply_err 1146 (codes "42S02")
      (codes "Table '" ++ (db_name ++ (codes "." ++ (table_name ++ codes "' doesn't exist"))))

-- `db->getTable(table_name)`
abbrev pub with_table : Bytes → Tables → Bytes → (Table → CommandM Bool) → CommandM Bool
with_table db_name db table_name f =
    or_else (unknown_table db_name table_name) f (get_table table_name db)

-- The object behind the pointer of a database, or of a table in it, is changed.
abbrev pub put_database : Bytes → Tables → CommandM (Unit {0})
put_database db_name db w =
    done tt (record w {
      storage = record w.storage { databases = assign db_name db w.storage.databases };
    })

abbrev pub put_table : Bytes → Tables → Bytes → Table → CommandM (Unit {0})
put_table db_name db table_name t =
    put_database db_name (record db { tables = assign table_name t db.tables })
