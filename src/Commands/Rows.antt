-- ===== src/Commands/Rows.antt =====
-- src/command/command_handler.cpp: the rows that the statements leave in the storage.
use tiny_sql.Prelude.{
  Bool, true, Option, none, some, List, [], ◌∷◌, ◌≡◌, refl, sym, ap, ◌∙◌, inl, inr, Bool-cases,
  Bytes, str_eq, str_eq_iff, after, subst, ◌>>=◌,
}
use tiny_sql.Ast.{ColumnDefinition, CreateTableStatement, InsertStatement}
use tiny_sql.Storage.Table.{Table, new_table, add_column}
use tiny_sql.Storage.Table.Rows.{Reachable, made, step, adds_column, AllFit, Reachable-AllFit}
use tiny_sql.Storage.Compare.{Floats}
use tiny_sql.Session.{next_sequence_id}
use tiny_sql.Commands.{
  Storage, Server, CommandM, named, reply_ok, reply_err, reply, call_back, on_session,
  unknown_database, or_else,
}
use tiny_sql.Commands.Schema.{
  column_of, add_columns, create_in, open_database, execute_create_table, drop_from,
  execute_drop_table, execute_use_database,
}
use tiny_sql.Commands.Schema.Effect.{
  table_in, Changes, declared, or_new, dropped, created-Changes, dropped-Changes,
}
use tiny_sql.Commands.Insert.{prepare_row, insert_into, execute_insert}
use tiny_sql.Commands.Insert.Effect.{with_row, prepared-Reachable, filled, inserted-Changes}

-- Every stored table is one that is made and filled by the operations on tables, under its name.
pub record WellStored (e : Storage) : Type 0 where
  pub stored : (d n : Bytes) (t : Table) → table_in d n e ≡ some t → Reachable n t

abbrev Each : Bytes → Option Table → Type 0
Each name o = (t : Table) → o ≡ some t → Reachable name t

Changes-WellStored :
    (db_name name : Bytes) (f : Option Table → Option Table) (e e' : Storage)
    → Changes db_name name f e e'
    → (Each name (table_in db_name name e) → Each name (f (table_in db_name name e)))
    → WellStored e
    → WellStored e'
Changes-WellStored db_name name f e e' c good k = record {
  stored = λ d n t h. elim (Bool-cases (str_eq db_name d)) [
    | inr other ↦ k.stored d n t (
        sym (
          c.elsewhere d n
            (inl λ p. let q : str_eq db_name d ≡ true = (str_eq_iff db_name d).1 p in absurd cc))
        ∙ h)
    | inl same ↦ elim (Bool-cases (str_eq name n)) [
      | inr other ↦ k.stored d n t (
          sym (
            c.elsewhere d n
              (inr λ p. let q : str_eq name n ≡ true = (str_eq_iff name n).1 p in absurd cc))
          ∙ h)
      | inl here ↦
          let p = (str_eq_iff db_name d).0 same in
          let q = (str_eq_iff name n).0 here in
          let at_name : table_in db_name name e' ≡ some t =
            ap (λ (x : Bytes). table_in x name e') p ∙ ap (λ (x : Bytes). table_in d x e') q ∙ h in
          subst (λ (x : Bytes). Reachable x t) q
            (good (k.stored db_name name) t (sym c.here ∙ at_name))
    ]
  ];
}

-- CREATE TABLE adds its columns to a table without rows.
add_columns-Reachable :
    (name : Bytes) (cs : List ColumnDefinition) (t : Table)
    → t.rows ≡ []
    → Reachable name t
    → Reachable name (add_columns cs t)
unfolding add_columns add_column
add_columns-Reachable name [] t e r = r
add_columns-Reachable name (c ∷ cs) t e r =
    add_columns-Reachable name cs (add_column (column_of c) t) e
      (step r (adds_column (column_of c) t e))

or_new-Each :
    (name : Bytes) (new : Table) (o : Option Table)
    → Reachable name new
    → Each name o
    → Each name (or_new new o)
or_new-Each name new none r k t h = let p : new ≡ t = cc in subst (Reachable name) p r
or_new-Each name new (some u) r k t h = k t h

declared-Reachable : (stmt : CreateTableStatement) → Reachable stmt.table_name (declared stmt)
unfolding new_table
declared-Reachable stmt =
    add_columns-Reachable stmt.table_name stmt.columns (new_table stmt.table_name) refl made

-- A statement that works on the current database, if there is one.
named-WellStored :
    (f : Bytes → CommandM Bool) (s : Bytes) (w : Server)
    → WellStored w.storage
    → ((db_name : Bytes) → WellStored (after (f db_name w)).storage)
    → WellStored (after (named f s w)).storage
unfolding reply_err reply call_back next_sequence_id
named-WellStored f [] w k h = record { stored = k.stored }
named-WellStored f (c ∷ s) w k h = h (c ∷ s)

create-WellStored :
    (stmt : CreateTableStatement) (w : Server)
    → WellStored w.storage
    → WellStored (after (execute_create_table stmt w)).storage
unfolding execute_create_table
create-WellStored stmt w k =
    named-WellStored (λ d. open_database d >>= or_else (unknown_database d) (create_in d stmt))
      w.session.current_database w k
      λ db_name.
        Changes-WellStored db_name stmt.table_name (or_new (declared stmt)) w.storage _
          (created-Changes db_name stmt w)
          (or_new-Each stmt.table_name (declared stmt) _ (declared-Reachable stmt)) k

drop-WellStored :
    (name : Bytes) (w : Server)
    → WellStored w.storage
    → WellStored (after (execute_drop_table name w)).storage
unfolding execute_drop_table
drop-WellStored name w k =
    named-WellStored (drop_from name) w.session.current_database w k λ db_name.
      Changes-WellStored db_name name dropped w.storage _ (dropped-Changes db_name name w)
        (λ _ t h. absurd cc) k

-- A statement that changes the storage, or the choice of a database in between.
pub data Change : Type 0 where
  creates : CreateTableStatement → Change
  drops : Bytes → Change
  fills : InsertStatement → Change
  chooses : Bytes → Change

module _ (F : Floats) where
  filled-Each :
      (name : Bytes) (stmt : InsertStatement) (o : Option Table)
      → Each name o
      → Each name (filled F stmt o)
  unfolding filled
  filled-Each name stmt none k t h = absurd cc
  filled-Each name stmt (some u) k t h =
      let p : with_row F u (prepare_row F stmt u) ≡ t = cc in
      subst (Reachable name) p (prepared-Reachable F name stmt u (k u refl))

  insert-WellStored :
      (stmt : InsertStatement) (w : Server)
      → WellStored w.storage
      → WellStored (after (execute_insert F stmt w)).storage
  unfolding execute_insert
  insert-WellStored stmt w k =
      named-WellStored (insert_into F stmt) w.session.current_database w k λ db_name.
        Changes-WellStored db_name stmt.table_name (filled F stmt) w.storage _
          (inserted-Changes F db_name stmt w) (filled-Each stmt.table_name stmt _) k

  unfoldable pub apply : Change → Server → Server
  apply (creates stmt) w = after (execute_create_table stmt w)
  apply (drops name) w = after (execute_drop_table name w)
  apply (fills stmt) w = after (execute_insert F stmt w)
  apply (chooses name) w = after (execute_use_database name w)

  unfoldable pub apply_all : List Change → Server → Server
  apply_all [] w = w
  apply_all (c ∷ cs) w = apply_all cs (apply c w)

  apply-WellStored :
      (c : Change) (w : Server) → WellStored w.storage → WellStored (apply c w).storage
  unfolding apply execute_use_database reply_ok reply call_back next_sequence_id on_session
  apply-WellStored (creates stmt) w k = create-WellStored stmt w k
  apply-WellStored (drops name) w k = drop-WellStored name w k
  apply-WellStored (fills stmt) w k = insert-WellStored stmt w k
  apply-WellStored (chooses name) w k = record { stored = k.stored }

  apply_all-WellStored :
      (cs : List Change) (w : Server) → WellStored w.storage → WellStored (apply_all cs w).storage
  unfolding apply_all
  apply_all-WellStored [] w k = k
  apply_all-WellStored (c ∷ cs) w k = apply_all-WellStored cs (apply c w) (apply-WellStored c w k)

  -- From a server whose tables were made by the operations on tables, such as one without tables,
  -- after every sequence of CREATE TABLE, DROP TABLE, INSERT and USE, whatever is replied: in every
  -- table that is found in a database, each row has a value for each column, and none is NULL where
  -- the column is NOT NULL.
  pub apply_all-AllFit :
      (cs : List Change) (w : Server) (db_name name : Bytes) (t : Table)
      → WellStored w.storage
      → table_in db_name name (apply_all cs w).storage ≡ some t
      → AllFit t.columns t.rows
  apply_all-AllFit cs w db_name name t k h =
      Reachable-AllFit ((apply_all-WellStored cs w k).stored db_name name t h)
