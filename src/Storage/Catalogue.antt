-- ===== src/Storage/Catalogue.antt =====
-- src/storage/storage_engine.cpp, include/tiny_sql/storage/storage_engine.h: a database, which is a
-- map of tables, and the engine, which is a map of databases.
--
-- The maps hold shared pointers, and nothing here looks behind them but `getName`: the pointers are
-- a parameter, and so are the name behind one and the object that `std::make_shared` makes. The
-- mutex makes each operation one step. A list of names is made from the keys
-- of the map.
pub mod Refines
use tiny_sql.Prelude.{
  Bool, true, false, ◌||◌, Option, none, some, List, [], ◌∷◌, if◌then◌else◌, Bytes, codes, str_eq,
}
use tiny_sql.Storage.Compare.{string_lt}
use tiny_sql.Maps.{find, assign, erase}

pub record Database (T : Type 0) : Type 0 where
  pub name : Bytes
  pub tables : List (Bytes × T)

pub record StorageEngine (D : Type 0) : Type 0 where
  pub databases : List (Bytes × D)

-- `it != end()`
abbrev pub is_some : {A : Type 0} → Option A → Bool
is_some none = false
is_some (some a) = true

module _ {T : Type 0} where
  unfoldable pub get_table : Bytes → Database T → Option T
  get_table table_name db = find table_name db.tables

  unfoldable pub has_table : Bytes → Database T → Bool
  has_table table_name db = is_some (find table_name db.tables)

  unfoldable pub drop_table : Bytes → Database T → Bool × Database T
  drop_table table_name db =
      if is_some (find table_name db.tables)
      then (true, record db { tables = erase table_name db.tables })
      else (false, db)

module _ {T : Type 0} (get_name : T → Bytes) where
  unfoldable pub create_table : T → Database T → Bool × Database T
  create_table table db =
      if is_some (find (get_name table) db.tables)
      then (false, db)
      else (true, record db { tables = assign (get_name table) table db.tables })

-- `std::sort` of names: one order is sorted.
insert_name : Bytes → List Bytes → List Bytes
insert_name name [] = name ∷ []
insert_name name (n ∷ ns) =
    let rest = insert_name name ns in if string_lt n name then n ∷ rest else name ∷ n ∷ ns

pub sort_names : List Bytes → List Bytes
sort_names [] = []
sort_names (n ∷ ns) = insert_name n (sort_names ns)

-- The keys of a map.
abbrev pub keys : {A : Type 0} → List (Bytes × A) → List Bytes
keys [] = []
keys ((k, a) ∷ m) = k ∷ keys m

pub get_table_names : {T : Type 0} → Database T → List Bytes
get_table_names db = sort_names (keys db.tables)

pub get_database_names : {D : Type 0} → StorageEngine D → List Bytes
get_database_names e = sort_names (keys e.databases)

-- The databases that may not be dropped.
pub is_system : Bytes → Bool
is_system db_name = str_eq db_name (codes "mysql") || str_eq db_name (codes "information_schema")

module _ {D : Type 0} where
  unfoldable pub get_database : Bytes → StorageEngine D → Option D
  get_database db_name e = find db_name e.databases

  pub has_database : Bytes → StorageEngine D → Bool
  has_database db_name e = is_some (find db_name e.databases)

  pub drop_database : Bytes → StorageEngine D → Bool × StorageEngine D
  drop_database db_name e =
      if is_system db_name
      then (false, e)
      else if is_some (find db_name e.databases)
      then (true, record e { databases = erase db_name e.databases })
      else (false, e)

module _ {D : Type 0} (make : Bytes → D) where
  unfoldable pub new_engine : StorageEngine D
  new_engine = record {
    databases =
        assign (codes "test") (make (codes "test"))
          (assign (codes "mysql") (make (codes "mysql")) []);
  }

  unfoldable pub create_database : Bytes → StorageEngine D → Bool × StorageEngine D
  create_database db_name e =
      if is_some (find db_name e.databases)
      then (false, e)
      else (true, record e { databases = assign db_name (make db_name) e.databases })

  unfoldable pub get_or_create_database : Bytes → StorageEngine D → Option D × StorageEngine D
  get_or_create_database db_name e = elim (get_database db_name e) [
    | some db ↦ (some db, e)
    | none ↦ let e' = (create_database db_name e).1 in (get_database db_name e', e')
  ]
