-- ===== src/Storage/Tests.antt =====
-- The theorems on tables and databases at concrete inputs.
use tiny_sql.Prelude.{inl, some, true, false, List, [], ◌∷◌, ◌++◌, ◌≡◌, ◌⊎◌, refl, Bytes, codes}
use tiny_sql.Storage.Value.{DataType, int_value, null_value, ColumnDef}
use tiny_sql.Storage.Table.{Table, new_table, add_column, insert_row, get_column_index}
use tiny_sql.Storage.Table.Rows.{
  Fits, AllFit, insert_row-Fits, adds_column, inserts, Reachable, made, step, Reachable-AllFit,
}
use tiny_sql.Storage.Table.Indices.{Located, get_column_index-Located}
use tiny_sql.Storage.Catalogue.{drop_database, Database, new_engine, get_table, get_database}
use tiny_sql.Storage.Catalogue.Refines.{
  Request, promises, serve_all, serve_all-promises, serve_engine_rest, serve_engine_rest-keeps,
}

abbrev id_column : ColumnDef
id_column = record {
  name = codes "id";
  type = DataType.int;
  primary_key = true;
  not_null = true;
  auto_increment = true;
  default_value = null_value;
}

abbrev name_column : ColumnDef
name_column = record id_column {
  name = codes "name";
  type = DataType.varchar;
  primary_key = false;
  not_null = false;
}

abbrev users : Table
users = add_column name_column (add_column id_column (new_table (codes "users")))

users-Reachable : Reachable (codes "users") users
unfolding new_table add_column
users-Reachable =
    step (step made (adds_column id_column (new_table (codes "users")) refl))
      (adds_column name_column _ refl)

abbrev filled : Table
filled =
    (insert_row (null_value ∷ null_value ∷ [])
      (insert_row (int_value 1 ∷ null_value ∷ []) users).1).1

filled-Reachable : Reachable (codes "users") filled
filled-Reachable =
    step (step users-Reachable (inserts (int_value 1 ∷ null_value ∷ []) users))
      (inserts (null_value ∷ null_value ∷ []) _)

Reachable-AllFit_example : AllFit filled.columns filled.rows
Reachable-AllFit_example = Reachable-AllFit filled-Reachable

insert_row-Fits_example :
    (Fits users.columns (int_value 1 ∷ [])
      × (insert_row (int_value 1 ∷ []) users
          ≡ (true, record users { rows = users.rows ++ (int_value 1 ∷ []) ∷ [] })))
    ⊎ ((¬ Fits users.columns (int_value 1 ∷ []))
        × (insert_row (int_value 1 ∷ []) users ≡ (false, users)))
insert_row-Fits_example = insert_row-Fits (int_value 1 ∷ []) users

get_column_index-Located_example :
    Located (codes "name") filled.columns (get_column_index (codes "name") filled)
get_column_index-Located_example = get_column_index-Located (codes "name") filled-Reachable

abbrev shop : Database Bytes
shop = record { name = codes "shop"; tables = [] }

abbrev requests : List (Request Bytes)
requests =
    Request.create (codes "a")
    ∷ Request.create (codes "a")
    ∷ Request.drop (codes "a")
    ∷ Request.drop (codes "mysql")
    ∷ Request.get (codes "a")
    ∷ Request.has (codes "mysql")
    ∷ []

serve_all-promises_example :
    serve_all (λ t. t) requests shop
    ≡ promises (λ t. t) (λ t. t) (λ _. false) requests (λ k. get_table k shop)
serve_all-promises_example = serve_all-promises (λ t. t) requests shop

serve_engine_rest-keeps_example :
    (get_database (codes "mysql") (serve_engine_rest (λ k. k) requests (new_engine (λ k. k)))
      ≡ some (codes "mysql"))
    × ((drop_database (codes "mysql") (serve_engine_rest (λ k. k) requests (new_engine (λ k. k)))).0
        ≡ false)
unfolding get_database new_engine tiny_sql.Maps.find tiny_sql.Maps.assign tiny_sql.Prelude.str_eq
serve_engine_rest-keeps_example =
    serve_engine_rest-keeps (λ k. k) requests (new_engine (λ k. k)) (codes "mysql") (codes "mysql")
      (inl refl) refl
