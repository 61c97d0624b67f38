-- ===== src/Storage/Table/Rows.antt =====
-- src/storage/table.cpp: the rows of a table, and the sequences of operations on it.
use tiny_sql.Prelude.{
  Bool, true, false, ◌&&◌, List, [], ◌∷◌, ◌++◌, ◌≡◌, ◌≢◌, ◌⊎◌, inl, inr, refl, ap, arith, ◌==◌,
  ==_iff, length, Bytes, Bool-cases,
}
use tiny_sql.Storage.Value.{Value, null_value, is_null, ColumnDef}
use tiny_sql.Storage.Table.{
  Row, Table, new_table, add_column, not_null_holds, insert_row, get_next_auto_increment_value,
  truncate,
}

-- A row has a value for each column, and none that is NULL where the column is NOT NULL.
pub data Fits : List ColumnDef → Row → Type 0 where
  no_columns : Fits [] []
  column :
      (c : ColumnDef) (v : Value) {cs : List ColumnDef} {vs : Row}
      → (c.not_null ≡ true → v ≢ null_value)
      → Fits cs vs
      → Fits (c ∷ cs) (v ∷ vs)

pub data AllFit (cs : List ColumnDef) : List Row → Type 0 where
  no_rows : AllFit cs []
  row : (r : Row) {rs : List Row} → Fits cs r → AllFit cs rs → AllFit cs (r ∷ rs)

AllFit-append :
    {cs : List ColumnDef} {rs : List Row} (r : Row)
    → AllFit cs rs
    → Fits cs r
    → AllFit cs (rs ++ r ∷ [])
AllFit-append r no_rows f = row r f no_rows
AllFit-append r (row s g more) f = row s g (AllFit-append r more f)

is_null-false : (v : Value) → is_null v ≡ false → v ≢ null_value
unfolding is_null
is_null-false v e z = cc (e, ap is_null z)

ne-is_null : (v : Value) → v ≢ null_value → is_null v ≡ false
unfolding is_null
ne-is_null null_value h = absurd (h refl)
ne-is_null _ h = refl

null_refused : (b : Bool) (v : Value) → b && is_null v ≡ false → b ≡ true → v ≢ null_value
null_refused true v z h = is_null-false v z
null_refused false v z h = cc

null_allowed : (b : Bool) (v : Value) → (b ≡ true → v ≢ null_value) → b && is_null v ≡ false
null_allowed true v h = ne-is_null v (h refl)
null_allowed false v h = refl

checked-Fits :
    (cs : List ColumnDef) (r : Row) → length r ≡ length cs → not_null_holds cs r ≡ true → Fits cs r
unfolding not_null_holds
checked-Fits [] [] h e = no_columns
checked-Fits [] (v ∷ vs) h e = absurd (omega arith)
checked-Fits (c ∷ cs) [] h e = absurd (omega arith)
checked-Fits (c ∷ cs) (v ∷ vs) h e = elim (Bool-cases (c.not_null && is_null v)) [
  | inl z ↦ absurd (ground arith)
  | inr z ↦
      column c v (null_refused c.not_null v z) (checked-Fits cs vs (omega arith) (ground arith))
]

Fits-checked : {cs : List ColumnDef} {r : Row} → Fits cs r → not_null_holds cs r ≡ true
unfolding not_null_holds
Fits-checked no_columns = refl
Fits-checked (column c v h f) = rw (null_allowed c.not_null v h) (Fits-checked f)

Fits-length : {cs : List ColumnDef} {r : Row} → Fits cs r → length r ≡ length cs
Fits-length no_columns = refl
Fits-length (column c v h f) = omega (arith, Fits-length f)

-- `insertRow` accepts a row exactly when it has a value for each column and none is NULL where the
-- column is NOT NULL. An accepted row is appended, and a refused one leaves the table as it was.
pub insert_row-Fits :
    (r : Row) (t : Table)
    → (Fits t.columns r × (insert_row r t ≡ (true, record t { rows = t.rows ++ r ∷ [] })))
      ⊎ ((¬ Fits t.columns r) × (insert_row r t ≡ (false, t)))
unfolding insert_row
insert_row-Fits r t = elim (Bool-cases (length r == length t.columns)) [
  | inr ne ↦
      inr ((λ f. cc (ne, (==_iff (length r) (length t.columns)).1 (Fits-length f))), rw ne refl)
  | inl e ↦
      let n = (==_iff (length r) (length t.columns)).0 e in
      elim (Bool-cases (not_null_holds t.columns r)) [
        | inl ok ↦ inl (checked-Fits t.columns r n ok, rw (e, ok) refl)
        | inr no_null ↦ inr ((λ f. cc (no_null, Fits-checked f)), rw (e, no_null) refl)
      ]
]

-- The operations on a table. A column is added only while the table has no rows, which is how the
-- command handler makes a table before it publishes it.
pub data Step : Table → Table → Type 0 where
  adds_column : (c : ColumnDef) (t : Table) → t.rows ≡ [] → Step t (add_column c t)
  inserts : (r : Row) (t : Table) → Step t (insert_row r t).1
  counts : (t : Table) → Step t (get_next_auto_increment_value t).1
  truncates : (t : Table) → Step t (truncate t)

pub data Reachable (name : Bytes) : Table → Type 0 where
  made : Reachable name (new_table name)
  step : {t u : Table} → Reachable name t → Step t u → Reachable name u

Step-AllFit : {t u : Table} → Step t u → AllFit t.columns t.rows → AllFit u.columns u.rows
unfolding add_column get_next_auto_increment_value truncate
Step-AllFit (adds_column c t e) a = rw e no_rows
Step-AllFit (counts t) a = a
Step-AllFit (truncates t) a = no_rows
Step-AllFit (inserts r t) a = elim (insert_row-Fits r t) [
  | inl (f, e) ↦ rw e (AllFit-append r a f)
  | inr (nf, e) ↦ rw e a
]

-- In every table that is made, given its columns while it is empty, and then filled, counted on and
-- truncated in any order, every row has a value for each column and none is NULL where the column
-- is NOT NULL.
pub Reachable-AllFit : {name : Bytes} {t : Table} → Reachable name t → AllFit t.columns t.rows
unfolding new_table
Reachable-AllFit made = no_rows
Reachable-AllFit (step r s) = Step-AllFit s (Reachable-AllFit r)
