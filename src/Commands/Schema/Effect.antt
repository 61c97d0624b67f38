-- ===== src/Commands/Schema/Effect.antt =====
-- src/command/command_handler.cpp: what CREATE TABLE and DROP TABLE do to the stored tables.
use tiny_sql.Prelude.{
  ℕ, subst, true, Option, none, some, List, [], ◌∷◌, ◌≡◌, ◌≢◌, refl, sym, ap, ◌∙◌, ◌⊎◌, inl, inr,
  Bool-cases, Option-cases, Bytes, str_eq, str_eq_iff, after, done, ◌>>=◌,
}
use tiny_sql.Maps.{
  find, assign, erase, find-assign, find-assign_other, find-erase, find-erase_other,
}
use tiny_sql.Ast.{ColumnDefinition, CreateTableStatement}
use tiny_sql.Storage.Table.{Table, new_table, add_column}
use tiny_sql.Storage.Catalogue.{
  get_table, has_table, drop_table, create_table, get_database, create_database,
  get_or_create_database,
}
use tiny_sql.Commands.{
  Tables, Storage, Server, new_database, reply_ok, reply_err, reply, call_back, unknown_database,
  or_else, named,
}
use tiny_sql.Session.{next_sequence_id}
use tiny_sql.Commands.Schema.{
  column_of, add_columns, create_in, open_database, execute_create_table, drop_from,
  execute_drop_table,
}

-- The table of a name in the database of a name.
unfoldable pub in_database : Bytes → Option Tables → Option Table
in_database table_name none = none
in_database table_name (some db) = get_table table_name db

unfoldable pub table_in : Bytes → Bytes → Storage → Option Table
table_in db_name table_name e = in_database table_name (get_database db_name e)

-- One name in one database may get another meaning, and every other table stays.
pub record Changes (db_name table_name : Bytes) (f : Option Table → Option Table) (e e' : Storage)
    : Type 0 where
  pub here : table_in db_name table_name e' ≡ f (table_in db_name table_name e)
  pub elsewhere :
      (d t : Bytes) → (db_name ≢ d) ⊎ (table_name ≢ t) → table_in d t e' ≡ table_in d t e

-- A database that has the same table at a name.
put_table_in :
    (db_name d t : Bytes) (db : Tables) (e : Storage)
    → get_table t db ≡ table_in db_name t e
    → table_in d t (record e { databases = assign db_name db e.databases }) ≡ table_in d t e
unfolding table_in get_database in_database
put_table_in db_name d t db e same = elim (Bool-cases (str_eq db_name d)) [
  | inl i ↦
      let p : db_name ≡ d = (str_eq_iff db_name d).0 i in
      ap (λ (k : Bytes). in_database t (find k (assign db_name db e.databases))) (sym p)
      ∙ ap (in_database t) (find-assign db_name db e.databases)
      ∙ same
      ∙ ap (λ (k : Bytes). in_database t (find k e.databases)) p
  | inr n ↦ ap (in_database t) (
      find-assign_other d db_name db e.databases
        (λ p. let q : str_eq db_name d ≡ true = (str_eq_iff db_name d).1 p in absurd (cc)))
]

-- A database whose tables change at one name is put back.
pub put-Changes :
    (db_name table_name : Bytes) (f : Option Table → Option Table) (db db' : Tables) (e : Storage)
    → get_database db_name e ≡ some db
    → get_table table_name db' ≡ f (get_table table_name db)
    → ((t : Bytes) → table_name ≢ t → get_table t db' ≡ get_table t db)
    → Changes db_name table_name f e (record e { databases = assign db_name db' e.databases })
unfolding table_in get_database in_database
put-Changes db_name table_name f db db' e z h others = record {
  here =
      ap (in_database table_name) (find-assign db_name db' e.databases)
      ∙ h
      ∙ sym (ap (λ o. f (in_database table_name o)) z);
  elsewhere = λ d t o. elim o [
    | inl n ↦ ap (in_database t) (find-assign_other d db_name db' e.databases n)
    | inr n ↦ put_table_in db_name d t db' e (others t n ∙ sym (ap (in_database t) z))
  ];
}

-- The table that a CREATE TABLE declares.
abbrev pub declared : CreateTableStatement → Table
declared stmt = add_columns stmt.columns (new_table stmt.table_name)

-- A table that is there stays, else the new one is there.
abbrev pub or_new : Table → Option Table → Option Table
or_new new none = some new
or_new new (some t) = some t

abbrev pub dropped : Option Table → Option Table
dropped t = none

add_columns-name : (cs : List ColumnDefinition) (t : Table) → (add_columns cs t).name ≡ t.name
unfolding add_columns add_column
add_columns-name [] t = refl
add_columns-name (c ∷ cs) t = add_columns-name cs (add_column (column_of c) t)

declared-name : (stmt : CreateTableStatement) → (declared stmt).name ≡ stmt.table_name
unfolding new_table
declared-name stmt = add_columns-name stmt.columns (new_table stmt.table_name)

-- A statement that is refused leaves the tables as they were.
pub kept-Changes :
    (db_name table_name : Bytes) (f : Option Table → Option Table) (e : Storage)
    → f (table_in db_name table_name e) ≡ table_in db_name table_name e
    → Changes db_name table_name f e e
kept-Changes db_name table_name f e h = record { here = sym h; elsewhere = λ d t o. refl }

create_in-Changes :
    (db_name : Bytes) (stmt : CreateTableStatement) (db : Tables) (w : Server)
    → get_database db_name w.storage ≡ some db
    → Changes db_name stmt.table_name
        (or_new (declared stmt))
        w.storage
        (after (create_in db_name stmt db w)).storage
unfolding create_in has_table get_table create_table table_in in_database get_database reply_err
    reply_ok reply call_back next_sequence_id add_columns
create_in-Changes db_name stmt db w z =
    let name = stmt.table_name in
    let new = declared stmt in
    elim (Option-cases (find name db.tables)) [
      | inl free ↦
          rw (free, declared-name stmt, free)
            (put-Changes db_name name (or_new new) db
              (record db { tables = assign name new db.tables }) w.storage z
              (find-assign name new db.tables ∙ sym (ap (or_new new) free))
              (λ t n. find-assign_other t name new db.tables n))
      | inr (t, taken) ↦
          let q = ap (in_database name) z ∙ taken in
          rw taken (kept-Changes db_name name (or_new new) w.storage (ap (or_new new) q ∙ sym q))
    ]

open_database-old :
    (db_name : Bytes) (db : Tables) (w : Server)
    → get_database db_name w.storage ≡ some db
    → open_database db_name w ≡ done (some db) w
unfolding open_database get_or_create_database
open_database-old db_name db w z = rw (z, get_or_create_database) refl

-- A database that is made is empty.
abbrev with_new : Bytes → Server → Server
with_new db_name w = record w {
  storage = record w.storage {
    databases = assign db_name (new_database db_name) w.storage.databases;
  };
}

open_database-new :
    (db_name : Bytes) (w : Server)
    → get_database db_name w.storage ≡ none
    → open_database db_name w ≡ done (some (new_database db_name)) (with_new db_name w)
unfolding open_database get_or_create_database create_database get_database
open_database-new db_name w z =
    let found = find-assign db_name (new_database db_name) w.storage.databases in
    rw (z, z, get_or_create_database) (rw found refl)

with_new-table_in :
    (db_name d t : Bytes) (w : Server)
    → get_database db_name w.storage ≡ none
    → table_in d t (with_new db_name w).storage ≡ table_in d t w.storage
unfolding table_in in_database get_table find
with_new-table_in db_name d t w z =
    put_table_in db_name d t (new_database db_name) w.storage (sym (ap (in_database t) z))

pub created-Changes :
    (db_name : Bytes) (stmt : CreateTableStatement) (w : Server)
    → Changes db_name stmt.table_name
        (or_new (declared stmt))
        w.storage
        (after (
          (open_database db_name >>= or_else (unknown_database db_name) (create_in db_name stmt))
            w)).storage
unfolding get_database find
created-Changes db_name stmt w = elim (Option-cases (get_database db_name w.storage)) [
  | inl z ↦
      let same = λ (d t : Bytes). with_new-table_in db_name d t w z in
      let c =
        create_in-Changes db_name stmt (new_database db_name) (with_new db_name w)
          (find-assign db_name (new_database db_name) w.storage.databases) in
      rw (open_database-new db_name w z) (record {
        here = c.here ∙ ap (or_new (declared stmt)) (same db_name stmt.table_name);
        elsewhere = λ d t o. c.elsewhere d t o ∙ same d t;
      })
  | inr (db, z) ↦ rw (open_database-old db_name db w z) (create_in-Changes db_name stmt db w z)
]

pub dropped-Changes :
    (db_name table_name : Bytes) (w : Server)
    → Changes db_name table_name dropped w.storage (after (drop_from table_name db_name w)).storage
unfolding drop_from drop_table get_table table_in in_database get_database reply_err reply_ok reply
    call_back next_sequence_id
dropped-Changes db_name table_name w = elim (Option-cases (find db_name w.storage.databases)) [
  | inl z ↦
      rw z (kept-Changes db_name table_name dropped w.storage (sym (ap (in_database table_name) z)))
  | inr (db, z) ↦ elim (Option-cases (find table_name db.tables)) [
    | inl free ↦
        rw (z, free)
          (kept-Changes db_name table_name dropped w.storage
            (sym (ap (in_database table_name) z ∙ free)))
    | inr (t, taken) ↦
        rw (z, taken)
          (put-Changes db_name table_name dropped db
            (record db { tables = erase table_name db.tables }) w.storage z
            (find-erase table_name db.tables) (λ k n. find-erase_other k table_name db.tables n))
  ]
]

-- With a current database: after CREATE TABLE, in every case and whatever is replied, the table of
-- that name in the current database is the one that was there, or the declared one where there was
-- none, also when the database did not exist; after DROP TABLE there is none of that name; and each
-- leaves every other table, of this and of the other databases, as it was.
pub execute_create_table-Changes :
    (stmt : CreateTableStatement) (table_name : Bytes) (c : ℕ) (s : Bytes) (w : Server)
    → w.session.current_database ≡ c ∷ s
    → Changes
        (c ∷ s)
        stmt.table_name
        (or_new (declared stmt))
        w.storage
        (after (execute_create_table stmt w)).storage
      × Changes
          (c ∷ s)
          table_name
          dropped
          w.storage
          (after (execute_drop_table table_name w)).storage
unfolding execute_create_table execute_drop_table
execute_create_table-Changes stmt table_name c s w e = (
  subst
      (λ (n : Bytes).
        Changes (c ∷ s) stmt.table_name (or_new (declared stmt)) w.storage
          (after (
            named
              (λ db_name.
                open_database db_name
                >>= or_else (unknown_database db_name) (create_in db_name stmt))
              n w)).storage)
      (sym e) (created-Changes (c ∷ s) stmt w),
  subst
      (λ (n : Bytes).
        Changes (c ∷ s) table_name dropped w.storage
          (after (named (drop_from table_name) n w)).storage)
      (sym e) (dropped-Changes (c ∷ s) table_name w),
)
