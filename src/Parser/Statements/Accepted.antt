-- ===== src/Parser/Statements/Accepted.antt =====
-- src/sql/parser.cpp: the statements that `parse` can return.
use tiny_sql.Prelude.{
  ℕ, zero, suc, Bool, true, false, Option, none, some, List, [], ◌∷◌, ◌≡◌, refl, subst, Bytes,
  codes, if◌then◌else◌,
}
use tiny_sql.Token.{TokenType, Token}
use tiny_sql.Ast.{
  Expression, identifier, SelectStatement, new_select, Statement, CreateTableStatement,
  select_statement, create_table_statement, drop_table_statement, show_tables_statement,
  show_databases_statement, use_database_statement,
}
use tiny_sql.Parser.Statements.{
  parse_list, parse_select_statement, parse_insert_statement, parse_create_table_statement,
  parse_drop_table_statement, parse_show_statement, parse_use_statement, parse_by, parse,
  skip_semicolons, select_columns, select_from, select_where, select_limit, limit_value, expect,
  identifier_or, skip, insert_columns,
}
use tiny_sql.Parser.{Parser, Parsed, found, failed, raised, out_of_fuel, ◌>>=◌, parse_expression}
use tiny_sql.Parser.Expressions.{
  NotFound, is_failed, is_raised, is_out_of_fuel, NotFound-bind, NotFound-first,
  parse_expression-NotFound,
}

-- A value that a run returns satisfies `P`.
data Satisfies {S A : Type 0} (P : A → Type 0) : Parsed S A → Type 0 where
  value : (a : A) (p : Parser S) → P a → Satisfies P (found a p)
  no_value : {m : Parsed S A} → NotFound m → Satisfies P m

Satisfies-found :
    {S A : Type 0} {P : A → Type 0} {a : A} {p : Parser S} → Satisfies P (found a p) → P a
Satisfies-found (value a p h) = h
Satisfies-found (no_value none_found) = elim none_found [ ]

module _ {S A B : Type 0} {P : A → Type 0} {Q : B → Type 0} where
  Satisfies-bind :
      (m : Parsed S A) (f : A → Parser S → Parsed S B)
      → Satisfies P m
      → ((a : A) (p : Parser S) → P a → Satisfies Q (f a p))
      → Satisfies Q (m >>= f)
  Satisfies-bind m f (value a p h) k = k a p h
  Satisfies-bind m f (no_value none_found) k = no_value (NotFound-first m f none_found)

module _ {S A B : Type 0} {Q : B → Type 0} where
  bind-Satisfies :
      (m : Parsed S A) (f : A → Parser S → Parsed S B)
      → ((a : A) (p : Parser S) → Satisfies Q (f a p))
      → Satisfies Q (m >>= f)
  bind-Satisfies (found a p) f k = k a p
  bind-Satisfies (failed p) f k = no_value (is_failed p)
  bind-Satisfies (raised p) f k = no_value (is_raised p)
  bind-Satisfies out_of_fuel f k = no_value is_out_of_fuel

module _ {S A : Type 0} {P : A → Type 0} where
  Satisfies-if :
      (b : Bool) {m m' : Parsed S A}
      → Satisfies P m
      → Satisfies P m'
      → Satisfies P (if b then m else m')
  Satisfies-if true h h' = h
  Satisfies-if false h h' = h'

-- Of the SELECTs these are `SELECT *` with a table or none, without WHERE, and of the INSERTs
-- none.
pub data Accepted : Statement → Type 0 where
  select_all :
      (table : Bytes) (limit : Option ℕ)
      → Accepted (
          select_statement (record new_select {
            columns = identifier (codes "*") ∷ [];
            table_name = table;
            limit = limit;
          }))
  create : (stmt : CreateTableStatement) → Accepted (create_table_statement stmt)
  drop : (table : Bytes) → Accepted (drop_table_statement table)
  show_tables : Accepted show_tables_statement
  show_databases : Accepted show_databases_statement
  use_database : (db : Bytes) → Accepted (use_database_statement db)

-- A SELECT as far as its FROM clause.
data IsFrom : SelectStatement → Type 0 where
  from_table :
      (table : Bytes)
      → IsFrom (record new_select { columns = identifier (codes "*") ∷ []; table_name = table })

module _ {S : Type 0} (next : S → Token × S) where
  parse_list-NotFound :
      (n : ℕ) (acc : List Expression) (p : Parser S) → NotFound (parse_list next n acc p)
  unfolding parse_list
  parse_list-NotFound zero acc p = is_out_of_fuel
  parse_list-NotFound (suc n) acc p =
      NotFound-first (parse_expression next n p) _ (parse_expression-NotFound next n p)

  -- No INSERT is ever returned, on any tokens and any fuel: its values are expressions.
  pub parse_insert_statement-NotFound :
      (n : ℕ) (p : Parser S) → NotFound (parse_insert_statement next n p)
  unfolding parse_insert_statement
  parse_insert_statement-NotFound n p = NotFound-bind (expect next TokenType.insert p) _ λ _ q _.
      NotFound-bind (expect next TokenType.into q) _ λ _ r _.
        NotFound-bind (identifier_or next _ r) _ λ table s _.
          NotFound-bind (insert_columns next n s) _ λ columns t _.
            NotFound-bind (expect next TokenType.values t) _ λ _ u _.
              NotFound-bind (expect next TokenType.lparen u) _
                λ _ v _. NotFound-first (parse_list next n [] v) _ (parse_list-NotFound n [] v)

  select_columns-Satisfies :
      (n : ℕ) (p : Parser S)
      → Satisfies (λ cs. cs ≡ identifier (codes "*") ∷ []) (select_columns next n p)
  unfolding select_columns
  select_columns-Satisfies n p =
      Satisfies-if _ (value _ _ refl) (no_value (parse_list-NotFound n [] p))

  select_from-Satisfies :
      (p : Parser S)
      → Satisfies IsFrom
          (select_from next (record new_select { columns = identifier (codes "*") ∷ [] }) p)
  unfolding select_from
  select_from-Satisfies p =
      Satisfies-if _
        (bind-Satisfies (identifier_or next _ (skip next p)) _
          λ table q. value _ _ (from_table table))
        (value _ _ (from_table []))

  select_where-Satisfies :
      (n : ℕ) (stmt : SelectStatement) (p : Parser S)
      → IsFrom stmt
      → Satisfies IsFrom (select_where next n stmt p)
  unfolding select_where
  select_where-Satisfies n stmt p h =
      Satisfies-if _
        (no_value (NotFound-first _ _ (parse_expression-NotFound next n (skip next p))))
        (value _ _ h)

  limit_value-Satisfies :
      (l : Option ℕ) (stmt : SelectStatement) (p : Parser S)
      → IsFrom stmt
      → Satisfies (λ s. Accepted (select_statement s)) (limit_value next l stmt p)
  unfolding limit_value
  limit_value-Satisfies none stmt p h = no_value (is_raised p)
  limit_value-Satisfies (some n) stmt p (from_table table) = value _ _ (select_all table (some n))

  select_limit-Satisfies :
      (stmt : SelectStatement) (p : Parser S)
      → IsFrom stmt
      → Satisfies (λ s. Accepted (select_statement s)) (select_limit next stmt p)
  unfolding select_limit
  select_limit-Satisfies stmt p (from_table table) =
      Satisfies-if _
        (Satisfies-if _ (limit_value-Satisfies _ _ _ (from_table table)) (no_value (is_failed _)))
        (value _ _ (select_all table none))

  parse_select-Satisfies :
      (n : ℕ) (p : Parser S)
      → Satisfies (λ s. Accepted (select_statement s)) (parse_select_statement next n p)
  unfolding parse_select_statement
  parse_select-Satisfies n p = bind-Satisfies (expect next TokenType.select p) _ λ _ q.
      Satisfies-bind (select_columns next n q) _ (select_columns-Satisfies n q) λ columns r e.
        rw e (
          Satisfies-bind (select_from next _ r) _ (select_from-Satisfies r) λ stmt s h.
            Satisfies-bind (select_where next n stmt s) _ (select_where-Satisfies n stmt s h)
              λ stmt' t h'. select_limit-Satisfies stmt' t h')

  parse_drop-Satisfies : (p : Parser S) → Satisfies Accepted (parse_drop_table_statement next p)
  unfolding parse_drop_table_statement
  parse_drop-Satisfies p = bind-Satisfies (expect next TokenType.drop p) _ λ _ q.
      bind-Satisfies (expect next TokenType.table q) _
        λ _ r. bind-Satisfies (identifier_or next _ r) _ λ table s. value _ s (drop table)

  parse_show-Satisfies : (p : Parser S) → Satisfies Accepted (parse_show_statement next p)
  unfolding parse_show_statement
  parse_show-Satisfies p = bind-Satisfies (expect next TokenType.show p) _ λ _ q.
      Satisfies-if _ (value _ _ show_tables)
        (Satisfies-if _ (value _ _ show_databases) (no_value (is_failed _)))

  parse_use-Satisfies : (p : Parser S) → Satisfies Accepted (parse_use_statement next p)
  unfolding parse_use_statement
  parse_use-Satisfies p =
      bind-Satisfies (expect next TokenType.use_token p) _
        λ _ q. bind-Satisfies (identifier_or next _ q) _ λ db r. value _ r (use_database db)

  parse_by-Satisfies :
      (n : ℕ) (t : TokenType) (p : Parser S) → Satisfies Accepted (parse_by next n t p)
  unfolding parse_by
  parse_by-Satisfies n TokenType.eof_token p = no_value (is_failed p)
  parse_by-Satisfies n TokenType.select p =
      Satisfies-bind (parse_select_statement next n p) _ (parse_select-Satisfies n p)
        λ stmt q h. value _ _ h
  parse_by-Satisfies n TokenType.insert p =
      no_value (NotFound-first _ _ (parse_insert_statement-NotFound n p))
  parse_by-Satisfies n TokenType.create p =
      bind-Satisfies (parse_create_table_statement next n p) _ λ stmt q. value _ _ (create stmt)
  parse_by-Satisfies n TokenType.drop p = parse_drop-Satisfies p
  parse_by-Satisfies n TokenType.show p = parse_show-Satisfies p
  parse_by-Satisfies n TokenType.use_token p = parse_use-Satisfies p
  parse_by-Satisfies n _ p = no_value (is_failed _)

  -- A statement that `parse` returns, on whatever tokens, is one of these: `SELECT *` with a table or
  -- none, with a limit or none and without WHERE; CREATE TABLE; DROP TABLE; SHOW TABLES; SHOW
  -- DATABASES; USE.
  pub parse-Accepted :
      (n : ℕ) (p : Parser S) {stmt : Statement} {q : Parser S}
      → parse next n p ≡ found stmt q
      → Accepted stmt
  unfolding parse
  parse-Accepted n p {stmt} {q} e = Satisfies-found (
      subst (λ m. Satisfies Accepted m) e
        (parse_by-Satisfies n _ (skip_semicolons next n (record p { errors = [] }))))
