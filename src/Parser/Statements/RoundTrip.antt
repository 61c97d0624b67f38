-- ===== src/Parser/Statements/RoundTrip.antt =====
-- src/sql/parser.cpp: `parse` on statements written as tokens.
use tiny_sql.Prelude.{
  ℕ, zero, suc, List, [], ◌∷◌, ◌≡◌, refl, sym, subst, ◌<◌, arith, Bytes, codes, false,
}
use tiny_sql.Token.{TokenType, Token, is_type}
use tiny_sql.Ast.{
  identifier, new_select, Statement, select_statement, drop_table_statement, show_tables_statement,
  show_databases_statement, use_database_statement,
}
use tiny_sql.Parser
use tiny_sql.Parser.{Parser, Parsed, found, stoi}
use tiny_sql.Parser.Statements.{
  parse, new_parser, skip_semicolons, parse_by, parse_select_statement, select_columns, select_from,
  select_where, select_limit, parse_drop_table_statement, parse_show_statement, parse_use_statement,
  identifier_or,
}

-- A token; where it stands plays no part.
abbrev pub token : TokenType → Bytes → Token
token type literal = record { type = type; literal = literal; line = 1; column = 1 }

-- The tokens of a list, and EOF behind them.
unfoldable pub next_of : List Token → Token × List Token
next_of [] = (token TokenType.eof_token [], [])
next_of (t ∷ ts) = (t, ts)

-- The statements that are keywords and one name at most.
pub data Command : Type 0 where
  select_all drop_table use_database : Bytes → Command
  show_tables show_databases : Command

pub statement_of : Command → Statement
statement_of (select_all table) =
    select_statement
      (record new_select { columns = identifier (codes "*") ∷ []; table_name = table })
statement_of (drop_table table) = drop_table_statement table
statement_of (use_database db) = use_database_statement db
statement_of show_tables = show_tables_statement
statement_of show_databases = show_databases_statement

pub tokens_of : Command → List Token
tokens_of (select_all table) =
    token TokenType.select (codes "SELECT")
    ∷ token TokenType.asterisk (codes "*")
    ∷ token TokenType.from (codes "FROM")
    ∷ token TokenType.identifier table
    ∷ []
tokens_of (drop_table table) =
    token TokenType.drop (codes "DROP")
    ∷ token TokenType.table (codes "TABLE")
    ∷ token TokenType.identifier table
    ∷ []
tokens_of (use_database db) =
    token TokenType.use_token (codes "USE") ∷ token TokenType.identifier db ∷ []
tokens_of show_tables =
    token TokenType.show (codes "SHOW") ∷ token TokenType.tables (codes "TABLES") ∷ []
tokens_of show_databases =
    token TokenType.show (codes "SHOW") ∷ token TokenType.databases (codes "DATABASES") ∷ []

-- Semicolons in front.
pub semicolons : ℕ → List Token → List Token
semicolons zero ts = ts
semicolons (suc k) ts = token TokenType.semicolon (codes ";") ∷ semicolons k ts

unfoldable pub Gives : Parsed (List Token) Statement → Statement → Type 0
Gives m stmt =
    (q : Parser (List Token)) × (m ≡ found stmt q)
    × (q.current.type ≡ TokenType.eof_token)
    × (q.errors ≡ [])

abbrev pub at_start : List Token → Parser (List Token)
at_start ts = record (new_parser next_of ts) { errors = [] }

by-Gives :
    (c : Command) (n : ℕ)
    → Gives
        (parse_by next_of n (at_start (tokens_of c)).current.type (at_start (tokens_of c)))
        (statement_of c)
unfolding parse_by new_parser Parser.next_token next_of tokens_of statement_of Gives
    parse_select_statement select_columns select_from select_where select_limit
    parse_drop_table_statement parse_show_statement parse_use_statement identifier_or
    Parser.expect_and_next is_type
by-Gives (select_all table) n = (_, refl, refl, refl)
by-Gives (drop_table table) n = (_, refl, refl, refl)
by-Gives (use_database table) n = (_, refl, refl, refl)
by-Gives show_tables n = (_, refl, refl, refl)
by-Gives show_databases n = (_, refl, refl, refl)

no_semicolon :
    (c : Command) → is_type (at_start (tokens_of c)).current.type TokenType.semicolon ≡ false
unfolding new_parser Parser.next_token next_of tokens_of is_type
no_semicolon (select_all table) = refl
no_semicolon (drop_table table) = refl
no_semicolon (use_database table) = refl
no_semicolon show_tables = refl
no_semicolon show_databases = refl

skip_semicolons-at_start :
    (n k : ℕ) (ts : List Token)
    → k < n
    → is_type (at_start ts).current.type TokenType.semicolon ≡ false
    → skip_semicolons next_of n (at_start (semicolons k ts)) ≡ at_start ts
unfolding skip_semicolons new_parser Parser.next_token next_of semicolons is_type
skip_semicolons-at_start zero k ts h e = absurd (omega arith)
skip_semicolons-at_start (suc n) zero ts h e = rw e refl
skip_semicolons-at_start (suc n) (suc k) ts h e = skip_semicolons-at_start n k ts (omega arith) e

-- The tokens of a `SELECT * FROM`, DROP TABLE, USE, SHOW TABLES or SHOW DATABASES, with any number of
-- semicolons in front and fuel above that number, are parsed to that statement: no error is
-- reported, and all tokens are used up.
pub parse-tokens_of :
    (c : Command) (k n : ℕ)
    → k < n
    → Gives (parse next_of n (new_parser next_of (semicolons k (tokens_of c)))) (statement_of c)
unfolding parse
parse-tokens_of c k n h =
    subst (λ q. Gives (parse_by next_of n q.current.type q) (statement_of c))
      (sym (skip_semicolons-at_start n k (tokens_of c) h (no_semicolon c))) (by-Gives c n)
