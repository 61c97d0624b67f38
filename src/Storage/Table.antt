-- ===== src/Storage/Table.antt =====
-- src/storage/table.cpp, include/tiny_sql/storage/table.h: a table, its columns and its rows.
--
-- An index that is -1 in the program is `none`. The 64 bits of the auto-increment counter are kept.
pub mod Indices
pub mod Rows
use tiny_sql.Prelude.{
  ℕ, suc, ◌+◌, ◌%◌, ◌^◌, Bool, true, false, ◌&&◌, Option, none, some, List, [], ◌∷◌, ◌++◌, ◌==◌,
  if◌then◌else◌, length, Bytes,
}
use tiny_sql.Maps.{find, assign}
use tiny_sql.Storage.Value.{Value, is_null, ColumnDef}

abbrev pub Row : Type 0
Row = List Value

pub record Table : Type 0 where
  pub name : Bytes
  pub columns : List ColumnDef
  pub column_index_map : List (Bytes × ℕ)
  pub rows : List Row
  pub next_auto_increment : ℕ

unfoldable pub new_table : Bytes → Table
new_table name = record {
  name = name;
  columns = [];
  column_index_map = [];
  rows = [];
  next_auto_increment = 1;
}

unfoldable pub add_column : ColumnDef → Table → Table
add_column column t = record t {
  column_index_map = assign column.name (length t.columns) t.column_index_map;
  columns = t.columns ++ column ∷ [];
}

pub get_column_index : Bytes → Table → Option ℕ
get_column_index column_name t = find column_name t.column_index_map

-- The loop over the columns: no column that is NOT NULL has a NULL.
unfoldable pub not_null_holds : List ColumnDef → Row → Bool
not_null_holds [] row = true
not_null_holds (c ∷ cs) [] = true
not_null_holds (c ∷ cs) (v ∷ vs) =
    let rest = not_null_holds cs vs in if c.not_null && is_null v then false else rest

unfoldable pub insert_row : Row → Table → Bool × Table
insert_row row t =
    if length row == length t.columns
    then (if not_null_holds t.columns row
        then (true, record t { rows = t.rows ++ row ∷ [] })
        else (false, t))
    else (false, t)

-- The first column that passes a test, counted from `i`.
index_from : (ColumnDef → Bool) → ℕ → List ColumnDef → Option ℕ
index_from test i [] = none
index_from test i (c ∷ cs) =
    let rest = index_from test (suc i) cs in if test c then some i else rest

pub get_primary_key_index : Table → Option ℕ
get_primary_key_index t = index_from (λ c. c.primary_key) 0 t.columns

pub get_auto_increment_index : Table → Option ℕ
get_auto_increment_index t = index_from (λ c. c.auto_increment) 0 t.columns

pub get_next_auto_increment_value : Table → ℕ × Table
get_next_auto_increment_value t =
    (t.next_auto_increment, record t { next_auto_increment = (t.next_auto_increment + 1) % 2 ^ 64 })

pub truncate : Table → Table
truncate t = record t { rows = []; next_auto_increment = 1 }
