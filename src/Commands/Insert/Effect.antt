-- ===== src/Commands/Insert/Effect.antt =====
-- src/command/command_handler.cpp: what INSERT does to the stored tables.
use tiny_sql.Prelude.{
  Bool, true, false, Option, none, some, List, [], ◌∷◌, ◌≡◌, refl, sym, ap, ◌∙◌, inl, inr,
  Bool-cases, Option-cases, Bytes, after, if◌then◌else◌,
}
use tiny_sql.Maps.{find, assign, find-assign, find-assign_other}
use tiny_sql.Ast.{InsertStatement, Expression}
use tiny_sql.Storage.Value.{ColumnDef}
use tiny_sql.Storage.Table.{Table, Row, insert_row}
use tiny_sql.Storage.Table.Rows.{Reachable, step, counts, inserts}
use tiny_sql.Storage.Compare.{Floats}
use tiny_sql.Storage.Catalogue.{get_table, get_database}
use tiny_sql.Session.{next_sequence_id}
use tiny_sql.Commands.{Tables, Server, reply_ok, reply_err, reply, call_back}
use tiny_sql.Commands.Schema.Effect.{in_database, table_in, Changes, put-Changes, kept-Changes}
use tiny_sql.Commands.Insert.{
  expression_of, value_unnamed, value_named, row_named, prepare_row, insert_prepared, insert_into,
}

module _ (F : Floats) where
  value_unnamed-Reachable :
      (name : Bytes) (c : ColumnDef) (t : Table)
      → Reachable name t
      → Reachable name (value_unnamed F c t).1
  unfolding value_unnamed
  value_unnamed-Reachable name c t r = elim (Bool-cases c.auto_increment) [
    | inl e ↦ rw e (step r (counts t))
    | inr e ↦ rw e r
  ]

  value_named-Reachable :
      (name : Bytes) (names : List Bytes) (exprs : List Expression) (c : ColumnDef) (t : Table)
      → Reachable name t
      → Reachable name (value_named F names exprs c t).1
  unfolding value_named
  value_named-Reachable name names exprs c t r =
      elim (Option-cases (expression_of F c.name names exprs)) [
        | inl e ↦ rw (e, value_named) (value_unnamed-Reachable name c t r)
        | inr (x, e) ↦ rw (e, value_named) r
      ]

  row_named-Reachable :
      (name : Bytes) (names : List Bytes) (exprs : List Expression) (cs : List ColumnDef)
      (t : Table)
      → Reachable name t
      → Reachable name (row_named F names exprs cs t).1
  unfolding row_named
  row_named-Reachable name names exprs [] t r = r
  row_named-Reachable name names exprs (c ∷ cs) t r =
      row_named-Reachable name names exprs cs _ (value_named-Reachable name names exprs c t r)

  -- The table behind an INSERT with this row.
  pub with_row : Table → Option (Row × Table) → Table
  with_row t none = t
  with_row t (some (row, u)) = (insert_row row u).1

  with_row_if-Reachable :
      (name : Bytes) (b : Bool) (t : Table) (r : Row × Table)
      → Reachable name t
      → Reachable name r.1
      → Reachable name (with_row t (if b then some r else none))
  unfolding with_row
  with_row_if-Reachable name true t (row, u) k l = step l (inserts row u)
  with_row_if-Reachable name false t (row, u) k l = k

  pub prepared-Reachable :
      (name : Bytes) (stmt : InsertStatement) (t : Table)
      → Reachable name t
      → Reachable name (with_row t (prepare_row F stmt t))
  unfolding prepare_row
  prepared-Reachable name stmt t r = by_columns stmt.columns refl
    where
      by_columns :
          (names : List Bytes)
          → stmt.columns ≡ names
          → Reachable name (with_row t (prepare_row F stmt t))
      by_columns [] e = rw e (with_row_if-Reachable name _ t _ r r)
      by_columns (n ∷ ns) e = rw e (
          with_row_if-Reachable name _ t _ r
            (row_named-Reachable name (n ∷ ns) stmt.insert_values t.columns t r))

  unfoldable pub filled : InsertStatement → Option Table → Option Table
  filled stmt none = none
  filled stmt (some t) = some (with_row t (prepare_row F stmt t))

  prepared-Changes :
      (db_name name : Bytes) (f : Option Table → Option Table) (db : Tables) (t : Table)
      (r : Option (Row × Table)) (w : Server)
      → get_database db_name w.storage ≡ some db
      → get_table name db ≡ some t
      → f (some t) ≡ some (with_row t r)
      → Changes db_name name f w.storage (after (insert_prepared F db_name db name r w)).storage
  unfolding insert_prepared table_in in_database get_database get_table with_row reply_err reply_ok
      reply call_back next_sequence_id
  prepared-Changes db_name name f db t none w z taken hf =
      let q = ap (in_database name) z ∙ taken in
      kept-Changes db_name name f w.storage (ap f q ∙ hf ∙ sym q)
  prepared-Changes db_name name f db t (some (row, u)) w z taken hf =
      let new = (insert_row row u).1 in
      let put =
        put-Changes db_name name f db (record db { tables = assign name new db.tables }) w.storage z
          (find-assign name new db.tables ∙ sym (ap f taken ∙ hf))
          (λ k n. find-assign_other k name new db.tables n) in
      elim (Bool-cases (insert_row row u).0) [ inl e ↦ rw e put | inr e ↦ rw e put ]

  pub inserted-Changes :
      (db_name : Bytes) (stmt : InsertStatement) (w : Server)
      → Changes db_name stmt.table_name
          (filled stmt)
          w.storage
          (after (insert_into F stmt db_name w)).storage
  unfolding insert_into table_in in_database get_database get_table filled reply_err reply_ok reply
      call_back next_sequence_id
  inserted-Changes db_name stmt w =
      let name = stmt.table_name in
      elim (Option-cases (find db_name w.storage.databases)) [
        | inl z ↦
            let q = ap (in_database name) z in
            rw z (kept-Changes db_name name (filled stmt) w.storage (ap (filled stmt) q ∙ sym q))
        | inr (db, z) ↦ elim (Option-cases (find name db.tables)) [
          | inl free ↦
              let q = ap (in_database name) z ∙ free in
              rw (z, free)
                (kept-Changes db_name name (filled stmt) w.storage (ap (filled stmt) q ∙ sym q))
          | inr (t, taken) ↦
              rw (z, taken)
                (prepared-Changes db_name name (filled stmt) db t (prepare_row F stmt t) w z taken
                  refl)
        ]
      ]
