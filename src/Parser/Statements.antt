-- ===== src/Parser/Statements.antt =====
-- src/sql/parser.cpp: `Parser::parse` and one function for each kind of statement.
pub mod Accepted
pub mod Enough
pub mod Returns
pub mod RoundTrip
pub mod CreateTable
mod Tests
use tiny_sql.Prelude.{
  ℕ, zero, suc, ◌+◌, Bool, true, false, Option, none, some, List, [], ◌∷◌, ◌++◌, if◌then◌else◌,
  Bytes, codes,
}
use tiny_sql.Token.{TokenType, Token, is_type}
use tiny_sql.Ast.{
  Expression, identifier, SelectStatement, new_select, InsertStatement, ColumnDefinition,
  CreateTableStatement, Statement, select_statement, insert_statement, create_table_statement,
  drop_table_statement, show_tables_statement, show_databases_statement, use_database_statement,
}
use tiny_sql.Parser
use tiny_sql.Parser.{
  Parser, Parsed, found, failed, raised, out_of_fuel, ◌>>=◌, is_current, add_error, stoi,
}

module _ {S : Type 0} (next : S → Token × S) where
  abbrev skip : Parser S → Parser S
  skip p = Parser.next_token next p

  abbrev fail : {A : Type 0} → Bytes → Parser S → Parsed S A
  fail message p = failed (add_error message p)

  abbrev expect : TokenType → Parser S → Parsed S (Unit {0})
  expect = Parser.expect_and_next next

  -- The literal of the current token, which has to be an identifier.
  pub identifier_or : Bytes → Parser S → Parsed S Bytes
  identifier_or message p =
      if is_current TokenType.identifier p then found p.current.literal (skip p) else fail message p

  -- Expressions separated by commas.
  pub parse_list : ℕ → List Expression → Parser S → Parsed S (List Expression)
  parse_list zero acc p = out_of_fuel
  parse_list (suc n) acc p = Parser.parse_expression next n p >>= λ e q.
      let rest = parse_list n (acc ++ e ∷ []) (skip q) in
      if is_current TokenType.comma q then rest else found (acc ++ e ∷ []) q

  -- Names separated by commas.
  pub parse_names : ℕ → List Bytes → Parser S → Parsed S (List Bytes)
  parse_names zero acc p = out_of_fuel
  parse_names (suc n) acc p = identifier_or (codes "Expected column name") p >>= λ name q.
      let rest = parse_names n (acc ++ name ∷ []) (skip q) in
      if is_current TokenType.comma q then rest else found (acc ++ name ∷ []) q

  select_columns : ℕ → Parser S → Parsed S (List Expression)
  select_columns n p =
      if is_current TokenType.asterisk p
      then found (identifier (codes "*") ∷ []) (skip p)
      else parse_list n [] p

  select_from : SelectStatement → Parser S → Parsed S SelectStatement
  select_from stmt p =
      if is_current TokenType.from p
      then (identifier_or (codes "Expected table name after FROM") (skip p) >>= λ table q.
          found (record stmt { table_name = table }) q)
      else found stmt p

  select_where : ℕ → SelectStatement → Parser S → Parsed S SelectStatement
  select_where n stmt p =
      if is_current TokenType.where_token p
      then (Parser.parse_expression next n (skip p) >>= λ e q.
          found (record stmt { where_clause = some e }) q)
      else found stmt p

  -- `std::stoi` throws where the number is no `int`.
  limit_value : Option ℕ → SelectStatement → Parser S → Parsed S SelectStatement
  limit_value none stmt p = raised p
  limit_value (some n) stmt p = found (record stmt { limit = some n }) (skip p)

  select_limit : SelectStatement → Parser S → Parsed S SelectStatement
  select_limit stmt p =
      if is_current TokenType.limit p
      then (let q = skip p in
          if is_current TokenType.number q
          then limit_value (stoi q.current.literal) stmt q
          else fail (codes "Expected number after LIMIT") q)
      else found stmt p

  pub parse_select_statement : ℕ → Parser S → Parsed S SelectStatement
  parse_select_statement n p = expect TokenType.select p >>= λ _ q.
      select_columns n q >>= λ columns r.
      select_from (record new_select { columns = columns }) r >>= λ stmt s.
      select_where n stmt s >>= λ stmt' t. select_limit stmt' t

  insert_columns : ℕ → Parser S → Parsed S (List Bytes)
  insert_columns n p =
      if is_current TokenType.lparen p
      then (parse_names n [] (skip p) >>= λ names q.
          expect TokenType.rparen q >>= λ _ r. found names r)
      else found [] p

  pub parse_insert_statement : ℕ → Parser S → Parsed S InsertStatement
  parse_insert_statement n p = expect TokenType.insert p >>= λ _ q.
      expect TokenType.into q >>= λ _ r.
      identifier_or (codes "Expected table name after INTO") r >>= λ table s.
      insert_columns n s >>= λ columns t. expect TokenType.values t >>= λ _ u.
      expect TokenType.lparen u >>= λ _ v. parse_list n [] v >>= λ vals w.
      expect TokenType.rparen w >>= λ _ x.
      found (record { table_name = table; columns = columns; insert_values = vals }) x

  -- The constraints behind a column's type, in any order and any number. A PRIMARY without KEY and a
  -- NOT without NULL are passed over.
  pub parse_constraints : ℕ → ColumnDefinition → Parser S → Parsed S ColumnDefinition
  parse_constraints zero col p = out_of_fuel
  parse_constraints (suc n) col p =
      let q = skip p in
      let key = is_current TokenType.key q in
      let null = is_current TokenType.null_token q in
      let primary =
        parse_constraints n (if key then record col { primary_key = true } else col)
          (if key then skip q else q) in
      let not_null =
        parse_constraints n (if null then record col { not_null = true } else col)
          (if null then skip q else q) in
      let auto = parse_constraints n (record col { auto_increment = true }) q in
      let default =
        parse_constraints n (record col { default_value = q.current.literal }) (skip q) in
      if is_current TokenType.primary p
      then primary
      else if is_current TokenType.not_token p
      then not_null
      else if is_current TokenType.auto_increment p
      then auto
      else if is_current TokenType.default p
      then default
      else found col p

  abbrev new_column : Bytes → Bytes → ColumnDefinition
  new_column name type = record {
    name = name;
    type = type;
    primary_key = false;
    not_null = false;
    auto_increment = false;
    default_value = [];
  }

  -- A column: its name, a token for its type, whatever that is, and its constraints.
  parse_column : ℕ → Parser S → Parsed S ColumnDefinition
  parse_column n p = identifier_or (codes "Expected column name") p >>= λ name q.
      parse_constraints n (new_column name q.current.literal) (skip q)

  pub parse_columns : ℕ → List ColumnDefinition → Parser S → Parsed S (List ColumnDefinition)
  parse_columns zero acc p = out_of_fuel
  parse_columns (suc n) acc p =
      let round = parse_column n p >>= λ col q.
      let rest = parse_columns n (acc ++ col ∷ []) (skip q) in
      if is_current TokenType.comma q then rest else found (acc ++ col ∷ []) q in
      if is_current TokenType.rparen p then found acc p else round

  pub parse_create_table_statement : ℕ → Parser S → Parsed S CreateTableStatement
  parse_create_table_statement n p = expect TokenType.create p >>= λ _ q.
      expect TokenType.table q >>= λ _ r.
      identifier_or (codes "Expected table name") r >>= λ table s.
      expect TokenType.lparen s >>= λ _ t. parse_columns n [] t >>= λ columns u.
      expect TokenType.rparen u >>= λ _ v.
      found (record { table_name = table; columns = columns }) v

  pub parse_drop_table_statement : Parser S → Parsed S Statement
  parse_drop_table_statement p = expect TokenType.drop p >>= λ _ q.
      expect TokenType.table q >>= λ _ r.
      identifier_or (codes "Expected table name") r >>= λ table s.
      found (drop_table_statement table) s

  pub parse_show_statement : Parser S → Parsed S Statement
  parse_show_statement p = expect TokenType.show p >>= λ _ q.
      if is_current TokenType.tables q
      then found show_tables_statement (skip q)
      else if is_current TokenType.databases q
      then found show_databases_statement (skip q)
      else fail (codes "Unexpected token after SHOW") q

  pub parse_use_statement : Parser S → Parsed S Statement
  parse_use_statement p = expect TokenType.use_token p >>= λ _ q.
      identifier_or (codes "Expected database name") q >>= λ db r.
      found (use_database_statement db) r

  -- `while (currentToken().type == SEMICOLON) nextToken();`
  pub skip_semicolons : ℕ → Parser S → Parser S
  skip_semicolons zero p = p
  skip_semicolons (suc n) p =
      let rest = skip_semicolons n (skip p) in if is_current TokenType.semicolon p then rest else p

  -- The switch on the first token of the statement.
  parse_by : ℕ → TokenType → Parser S → Parsed S Statement
  parse_by n TokenType.eof_token p = failed p
  parse_by n TokenType.select p =
      parse_select_statement n p >>= λ stmt q. found (select_statement stmt) q
  parse_by n TokenType.insert p =
      parse_insert_statement n p >>= λ stmt q. found (insert_statement stmt) q
  parse_by n TokenType.create p =
      parse_create_table_statement n p >>= λ stmt q. found (create_table_statement stmt) q
  parse_by n TokenType.drop p = parse_drop_table_statement p
  parse_by n TokenType.show p = parse_show_statement p
  parse_by n TokenType.use_token p = parse_use_statement p
  parse_by n _ p = fail (codes "Unexpected token: " ++ p.current.literal) p

  -- `parse()`, which clears the errors of the object first.
  pub parse : ℕ → Parser S → Parsed S Statement
  parse n p = let q = skip_semicolons n (record p { errors = [] }) in parse_by n q.current.type q

  -- The constructor: two calls of `nextToken` fill the two tokens.
  pub new_parser : S → Parser S
  new_parser s =
      let blank : Token = record { type = TokenType.illegal; literal = []; line = 0; column = 0 } in
      skip (skip (record { lexer = s; current = blank; peek = blank; errors = [] }))
