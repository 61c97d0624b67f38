-- ===== src/Storage/Table/Indices.antt =====
-- src/storage/table.cpp: the indices that a table gives for its columns.
use tiny_sql.Prelude.{
  ℕ, suc, ◌+◌, Bool, true, false, Option, none, some, List, [], ◌∷◌, ◌++◌, ◌≡◌, ◌≢◌, inl, inr, refl,
  sym, ap, ◌∙◌, subst, arith, length, Bytes, Bool-cases, str_eq, str_eq_iff, append_assoc,
}
use tiny_sql.Maps.{find, assign, find-assign, find-assign_other}
use tiny_sql.Storage.Value.{ColumnDef}
use tiny_sql.Storage.Table.{
  Table, new_table, add_column, get_column_index, index_from, get_primary_key_index,
  get_auto_increment_index, get_next_auto_increment_value, truncate,
}
use tiny_sql.Storage.Table.Rows.{
  Step, adds_column, inserts, counts, truncates, Reachable, made, step, insert_row-Fits,
}

-- No column has that name.
pub data Unnamed (n : Bytes) : List ColumnDef → Type 0 where
  unnamed_nil : Unnamed n []
  unnamed_cons :
      (c : ColumnDef) {cs : List ColumnDef} → c.name ≢ n → Unnamed n cs → Unnamed n (c ∷ cs)

-- The place of the last column of that name.
pub data Located (n : Bytes) (cs : List ColumnDef) : Option ℕ → Type 0 where
  absent : Unnamed n cs → Located n cs none
  located :
      (before : List ColumnDef) (c : ColumnDef) (after : List ColumnDef)
      → cs ≡ before ++ c ∷ after
      → c.name ≡ n
      → Unnamed n after
      → Located n cs (some (length before))

Unnamed-append :
    {n : Bytes} {cs : List ColumnDef} (c : ColumnDef)
    → c.name ≢ n
    → Unnamed n cs
    → Unnamed n (cs ++ c ∷ [])
Unnamed-append c h unnamed_nil = unnamed_cons c h unnamed_nil
Unnamed-append c h (unnamed_cons d k u) = unnamed_cons d k (Unnamed-append c h u)

Located-append :
    {n : Bytes} {cs : List ColumnDef} {r : Option ℕ} (c : ColumnDef)
    → c.name ≢ n
    → Located n cs r
    → Located n (cs ++ c ∷ []) r
Located-append c h (absent u) = absent (Unnamed-append c h u)
Located-append c h (located before d after e k u) =
    located before d (after ++ c ∷ [])
      (ap (λ (l : List ColumnDef). l ++ c ∷ []) e ∙ append_assoc before (d ∷ after) (c ∷ [])) k
      (Unnamed-append c h u)

add_column-Located :
    (n : Bytes) (c : ColumnDef) (t : Table)
    → Located n t.columns (get_column_index n t)
    → Located n (add_column c t).columns (get_column_index n (add_column c t))
unfolding add_column get_column_index
add_column-Located n c t l = elim (Bool-cases (str_eq c.name n)) [
  | inl e ↦
      let same = (str_eq_iff c.name n).0 e in
      subst (Located n (t.columns ++ c ∷ []))
        (sym (
          ap (λ k. find k (assign c.name (length t.columns) t.column_index_map)) (sym same)
          ∙ find-assign c.name (length t.columns) t.column_index_map))
        (located t.columns c [] refl same unnamed_nil)
  | inr e ↦
      let other : c.name ≢ n = λ z. cc (e, (str_eq_iff c.name n).1 z) in
      rw (find-assign_other n c.name (length t.columns) t.column_index_map other)
        (Located-append c other l)
]

Step-Located :
    (n : Bytes) {t u : Table}
    → Step t u
    → Located n t.columns (get_column_index n t)
    → Located n u.columns (get_column_index n u)
unfolding get_column_index get_next_auto_increment_value truncate
Step-Located n (adds_column c t e) l = add_column-Located n c t l
Step-Located n (counts t) l = l
Step-Located n (truncates t) l = l
Step-Located n (inserts r t) l = elim (insert_row-Fits r t) [
  | inl (f, e) ↦ rw e l
  | inr (nf, e) ↦ rw e l
]

-- In every table that is reached by the operations, `getColumnIndex` gives the place of the last
-- column of that name, and -1 exactly where no column has it.
pub get_column_index-Located :
    {name : Bytes} {t : Table} (n : Bytes)
    → Reachable name t
    → Located n t.columns (get_column_index n t)
unfolding new_table get_column_index find
get_column_index-Located n made = absent unnamed_nil
get_column_index-Located n (step r s) = Step-Located n s (get_column_index-Located n r)

-- The test has that result on every column.
pub data Passing (test : ColumnDef → Bool) : Bool → List ColumnDef → Type 0 where
  passing_nil : {b : Bool} → Passing test b []
  passing_cons :
      {b : Bool} (c : ColumnDef) {cs : List ColumnDef}
      → test c ≡ b
      → Passing test b cs
      → Passing test b (c ∷ cs)

-- The place, counted from `k`, of the first column that passes the test.
pub data First (test : ColumnDef → Bool) (k : ℕ) (cs : List ColumnDef) : Option ℕ → Type 0 where
  nowhere : Passing test false cs → First test k cs none
  first :
      (before : List ColumnDef) (c : ColumnDef) (after : List ColumnDef) (i : ℕ)
      → cs ≡ before ++ c ∷ after
      → i ≡ k + length before
      → test c ≡ true
      → Passing test false before
      → First test k cs (some i)

First-cons :
    {test : ColumnDef → Bool} {k : ℕ} {cs : List ColumnDef} {r : Option ℕ} (c : ColumnDef)
    → test c ≡ false
    → First test (suc k) cs r
    → First test k (c ∷ cs) r
First-cons c f (nowhere p) = nowhere (passing_cons c f p)
First-cons c f (first before d after i e n t p) =
    first (c ∷ before) d after i (ap (λ (l : List ColumnDef). c ∷ l) e) (omega arith) t
      (passing_cons c f p)

index_from-First :
    (test : ColumnDef → Bool) (k : ℕ) (cs : List ColumnDef) → First test k cs (index_from test k cs)
unfolding index_from
index_from-First test k [] = nowhere passing_nil
index_from-First test k (c ∷ cs) = elim (Bool-cases (test c)) [
  | inl t ↦ rw t (first [] c cs k refl (omega arith) t passing_nil)
  | inr f ↦ rw f (First-cons c f (index_from-First test (suc k) cs))
]

-- `getPrimaryKeyIndex` and `getAutoIncrementIndex` give the place of the first column that is a
-- primary key, or that is auto-incremented, and -1 exactly where no column is.
pub key_indices-First :
    (t : Table)
    → First (λ c. c.primary_key) 0 t.columns (get_primary_key_index t)
      × First (λ c. c.auto_increment) 0 t.columns (get_auto_increment_index t)
unfolding get_primary_key_index get_auto_increment_index
key_indices-First t = (
  index_from-First (λ c. c.primary_key) 0 t.columns,
  index_from-First (λ c. c.auto_increment) 0 t.columns,
)
