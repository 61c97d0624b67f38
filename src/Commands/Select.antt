-- ===== src/Commands/Select.antt =====
-- src/command/command_handler.cpp: SELECT.
use tiny_sql.Prelude.{
  ℕ, suc, Bool, true, false, Option, none, some, List, [], ◌∷◌, ◌++◌, ltb, leb, if◌then◌else◌,
  length, get_elem?, take, drop, Bytes, codes, str_eq, done, pure, throw, ◌>>=◌,
}
use tiny_sql.Buffer.{Buffer, empty, write_lenenc_int}
use tiny_sql.Packet.{frame}
use tiny_sql.Response.{EofPacket, eof_encode}
use tiny_sql.Ast.{Expression, identifier, SelectStatement}
use tiny_sql.Session.{next_sequence_id}
use tiny_sql.Storage.Value.{ColumnDef}
use tiny_sql.Storage.Table.{Table, Row, get_column_index}
use tiny_sql.Storage.Compare.{Floats}
use tiny_sql.Evaluator.{Result, returned, raised, what, evaluate}
use tiny_sql.ResultSet.{from_column_def, column_encode, row_encode}
use tiny_sql.Commands.{
  CommandM, missing_value, call_back, reply_err, with_database_name, with_database, with_table,
  unknown_database,
}

-- The columns to return and their indices, or the error that is sent.
pub data Choice : Type 0 where
  chosen : List ColumnDef → List ℕ → Choice
  refused : ℕ → Bytes → Bytes → Choice

pub indices_from : ℕ → List ColumnDef → List ℕ
indices_from i [] = []
indices_from i (c ∷ cs) = i ∷ indices_from (suc i) cs

-- The column of a name, in front of those of the other names. An index that the table gives is one
-- of a column.
choose_named : Bytes → Table → Choice → Choice
choose_named name t rest = elim (get_column_index name t) [
  | none ↦
      refused 1054 (codes "42S22") (codes "Unknown column '" ++ (name ++ codes "' in 'field list'"))
  | some i ↦ elim (get_elem? t.columns i) [
    | none ↦ rest
    | some c ↦ elim rest [
      | chosen cs indices ↦ chosen (c ∷ cs) (i ∷ indices)
      | refused error_code sql_state message ↦ refused error_code sql_state message
    ]
  ]
]

choose_each : List Expression → Table → Choice
choose_each [] t = chosen [] []
choose_each (identifier name ∷ es) t = choose_named name t (choose_each es t)
choose_each (e ∷ es) t = refused 1064 (codes "42000") (codes "Invalid column expression")

is_star : Expression → Bool
is_star (identifier name) = str_eq name (codes "*")
is_star _ = false

-- A single `*` stands for all columns.
pub choose_columns : List Expression → Table → Choice
choose_columns (e ∷ []) t =
    if is_star e then chosen t.columns (indices_from 0 t.columns) else choose_each (e ∷ []) t
choose_columns es t = choose_each es t

-- The rows that match; the first exception ends the loop.
pub filter_rows : Floats → Option Expression → List ColumnDef → List Row → Result (List Row)
filter_rows F where_clause columns [] = returned []
filter_rows F where_clause columns (r ∷ rows) =
    let rest = filter_rows F where_clause columns rows in
    elim (evaluate F where_clause r columns) [
      | raised e ↦ raised e
      | returned matches ↦ elim rest [
        | raised e ↦ raised e
        | returned rs ↦ returned (if matches then r ∷ rs else rs)
      ]
    ]

abbrev limited : Option ℕ → List Row → List Row
limited none rows = rows
limited (some limit) rows = if ltb limit (length rows) then take limit rows else rows

pub apply_limit : ℕ → Option ℕ → List Row → List Row
apply_limit offset limit rows =
    if leb (length rows) offset then [] else limited limit (drop offset rows)

-- `row.getValue(idx)` for each index, where `at` throws behind the end.
pub project : List ℕ → Row → Option Row
project [] row = some []
project (i ∷ indices) row =
    let rest = project indices row in
    elim (get_elem? row i) [
      | none ↦ none
      | some v ↦ elim rest [ none ↦ none | some vs ↦ some (v ∷ vs) ]
    ]

-- A packet with the next sequence number, onto the response.
unfoldable pub write_packet : (ℕ → Buffer → Buffer) → Buffer → CommandM Buffer
write_packet encode response w =
    let next = next_sequence_id w.session in
    done (encode next.0 response) (record w { session = next.1 })

abbrev pub eof_packet : EofPacket
eof_packet = record { warnings = 0; status_flags = 0x0002 }

-- The header of the column count is written by hand, byte by byte as `writeHeader` does.
pub column_count_encode : ℕ → ℕ → Buffer → Buffer
column_count_encode n sequence_id = frame (write_lenenc_int n empty) sequence_id

unfoldable pub write_columns : Bytes → Bytes → List ColumnDef → Buffer → CommandM Buffer
write_columns table_name db_name [] response = pure response
write_columns table_name db_name (c ∷ cs) response =
    write_packet (column_encode (from_column_def c table_name db_name)) response >>= λ r.
    write_columns table_name db_name cs r

module _ (F : Floats) where
  -- One row, or the exception of `at`, in front of the other rows.
  abbrev pub write_row : (Buffer → CommandM Buffer) → Buffer → Option Row → CommandM Buffer
  write_row rest response none = throw missing_value
  write_row rest response (some values) = write_packet (row_encode F values) response >>= rest

  unfoldable pub write_rows : List ℕ → List Row → Buffer → CommandM Buffer
  write_rows indices [] response = pure response
  write_rows indices (row ∷ rows) response =
      write_row (write_rows indices rows) response (project indices row)

  unfoldable pub send_result : Bytes → Bytes → List ColumnDef → List ℕ → List Row → CommandM Bool
  send_result db_name table_name result_columns indices rows = do
    r1 ← write_packet (column_count_encode (length result_columns)) empty
    r2 ← write_columns table_name db_name result_columns r1
    r3 ← write_packet (eof_encode eof_packet) r2
    r4 ← write_rows indices rows r3
    r5 ← write_packet (eof_encode eof_packet) r4
    λ w. done true (call_back r5 w)

  unfoldable pub send_filtered :
      Bytes → SelectStatement → List ColumnDef → List ℕ → Result (List Row) → CommandM Bool
  send_filtered db_name stmt result_columns indices (raised e) =
      reply_err 1064 (codes "42000") (codes "Error evaluating WHERE clause: " ++ what e)
  send_filtered db_name stmt result_columns indices (returned rows) =
      send_result db_name stmt.table_name result_columns indices
        (apply_limit stmt.offset stmt.limit rows)

  unfoldable pub send_chosen : Bytes → SelectStatement → Table → Choice → CommandM Bool
  send_chosen db_name stmt t (refused error_code sql_state message) =
      reply_err error_code sql_state message
  send_chosen db_name stmt t (chosen result_columns indices) =
      send_filtered db_name stmt result_columns indices
        (filter_rows F stmt.where_clause t.columns t.rows)

  unfoldable pub execute_select : SelectStatement → CommandM Bool
  execute_select stmt = with_database_name λ db_name.
      with_database db_name (unknown_database db_name) λ db.
        with_table db_name db stmt.table_name
          λ t. send_chosen db_name stmt t (choose_columns stmt.columns t)
