-- ===== src/Ast.antt =====
-- include/tiny_sql/sql/ast.h, src/sql/ast.cpp: expressions and statements, and their printing.
--
-- The pointers of the nodes are owned and never shared, so a node is a value; a `nullptr` clause is
-- `none`. `limit_` is -1 where no LIMIT was given, here `none`.
use tiny_sql.Prelude.{
  ℕ, zero, suc, ◌+◌, ◌/◌, ◌%◌, Bool, Option, none, some, List, [], ◌∷◌, ◌++◌, ltb, ◌==◌,
  if◌then◌else◌, map, Bytes, codes,
}

pub data Expression : Type 0 where
  identifier : Bytes → Expression
  number_literal : Bytes → Expression
  string_literal : Bytes → Expression
  binary : Expression → Bytes → Expression → Expression

pub record SelectStatement : Type 0 where
  pub columns : List Expression
  pub table_name : Bytes
  pub where_clause : Option Expression
  pub limit : Option ℕ
  pub offset : ℕ

pub record InsertStatement : Type 0 where
  pub table_name : Bytes
  pub columns : List Bytes
  pub insert_values : List Expression

pub record ColumnDefinition : Type 0 where
  pub name : Bytes
  pub type : Bytes
  pub primary_key : Bool
  pub not_null : Bool
  pub auto_increment : Bool
  pub default_value : Bytes

pub record CreateTableStatement : Type 0 where
  pub table_name : Bytes
  pub columns : List ColumnDefinition

pub data Statement : Type 0 where
  select_statement : SelectStatement → Statement
  insert_statement : InsertStatement → Statement
  create_table_statement : CreateTableStatement → Statement
  drop_table_statement : Bytes → Statement
  show_tables_statement : Statement
  show_databases_statement : Statement
  use_database_statement : Bytes → Statement

-- `SelectStatement()`
abbrev pub new_select : SelectStatement
new_select = record { columns = []; table_name = []; where_clause = none; limit = none; offset = 0 }

-- `std::to_string` of an unsigned number: as many rounds as the number are enough.
digits : ℕ → ℕ → Bytes → Bytes
digits zero n acc = acc
digits (suc f) n acc =
    let acc' = (b'0' + n % 10) ∷ acc in
    let rest = digits f (n / 10) acc' in if n / 10 == 0 then acc' else rest

unfoldable pub to_string : ℕ → Bytes
unfolding digits
to_string n = digits (suc n) n []

-- `a, b, c`
unfoldable pub comma_separated : List Bytes → Bytes
comma_separated [] = []
comma_separated (s ∷ []) = s
comma_separated (s ∷ t ∷ ss) = s ++ (codes ", " ++ comma_separated (t ∷ ss))

pub expression_to_string : Expression → Bytes
expression_to_string (identifier name) = name
expression_to_string (number_literal value) = value
expression_to_string (string_literal value) = codes "'" ++ (value ++ codes "'")
expression_to_string (binary left op right) =
    codes "("
    ++ (expression_to_string left
        ++ (codes " " ++ (op ++ (codes " " ++ (expression_to_string right ++ codes ")")))))

-- A clause that is printed only where there is something to print.
abbrev clause : Bytes → Bytes → Bytes
clause keyword [] = []
clause keyword (c ∷ s) = keyword ++ c ∷ s

abbrev where_to_string : Option Expression → Bytes
where_to_string none = []
where_to_string (some e) = codes " WHERE " ++ expression_to_string e

abbrev limit_to_string : Option ℕ → Bytes
limit_to_string none = []
limit_to_string (some n) = codes " LIMIT " ++ to_string n

abbrev columns_to_string : List Expression → Bytes
columns_to_string [] = codes "*"
columns_to_string (e ∷ es) = comma_separated (map expression_to_string (e ∷ es))

pub select_to_string : SelectStatement → Bytes
unfolding expression_to_string to_string comma_separated
select_to_string s =
    codes "SELECT "
    ++ (columns_to_string s.columns
        ++ (clause (codes " FROM ") s.table_name
            ++ (where_to_string s.where_clause
                ++ (limit_to_string s.limit
                    ++ (if ltb 0 s.offset then codes " OFFSET " ++ to_string s.offset else [])))))

abbrev insert_columns : List Bytes → Bytes
insert_columns [] = []
insert_columns (c ∷ cs) = codes " (" ++ (comma_separated (c ∷ cs) ++ codes ")")

pub insert_to_string : InsertStatement → Bytes
unfolding expression_to_string comma_separated
insert_to_string s =
    codes "INSERT INTO "
    ++ (s.table_name
        ++ (insert_columns s.columns
            ++ (codes " VALUES ("
                ++ (comma_separated (map expression_to_string s.insert_values) ++ codes ")"))))

pub column_to_string : ColumnDefinition → Bytes
column_to_string c =
    c.name
    ++ (codes " "
        ++ (c.type
            ++ ((if c.not_null then codes " NOT NULL" else [])
                ++ ((if c.primary_key then codes " PRIMARY KEY" else [])
                    ++ ((if c.auto_increment then codes " AUTO_INCREMENT" else [])
                        ++ clause (codes " DEFAULT ") c.default_value)))))

pub create_table_to_string : CreateTableStatement → Bytes
unfolding column_to_string comma_separated
create_table_to_string s =
    codes "CREATE TABLE "
    ++ (s.table_name
        ++ (codes " (" ++ (comma_separated (map column_to_string s.columns) ++ codes ")")))

pub statement_to_string : Statement → Bytes
unfolding select_to_string insert_to_string create_table_to_string
statement_to_string (select_statement s) = select_to_string s
statement_to_string (insert_statement s) = insert_to_string s
statement_to_string (create_table_statement s) = create_table_to_string s
statement_to_string (drop_table_statement table) = codes "DROP TABLE " ++ table
statement_to_string show_tables_statement = codes "SHOW TABLES"
statement_to_string show_databases_statement = codes "SHOW DATABASES"
statement_to_string (use_database_statement db) = codes "USE " ++ db
