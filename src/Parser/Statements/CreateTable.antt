-- ===== src/Parser/Statements/CreateTable.antt =====
-- src/sql/parser.cpp: `parseCreateTableStatement` on a CREATE TABLE written as tokens.
use tiny_sql.Prelude.{
  ℕ, zero, suc, ◌+◌, ◌<◌, Bool, true, false, List, [], ◌∷◌, ◌++◌, ◌≡◌, refl, sym, ap, ◌∙◌, arith,
  Bytes, codes, if◌then◌else◌, map, append-nil, append_assoc, length,
}
use tiny_sql.Token.{TokenType, Token, is_type}
use tiny_sql.Ast.{ColumnDefinition, create_table_statement}
use tiny_sql.Parser
use tiny_sql.Parser.{Parser, Parsed, found, ◌>>=◌}
use tiny_sql.Parser.Statements.{
  parse, new_parser, skip_semicolons, parse_by, parse_constraints, new_column, parse_column,
  parse_columns, parse_create_table_statement, identifier_or,
}
use tiny_sql.Parser.Statements.RoundTrip.{token, next_of, at_start, Gives}

pub data Constraint : Type 0 where
  primary_key not_null auto_increment : Constraint
  default : Token → Constraint

pub apply : Constraint → ColumnDefinition → ColumnDefinition
apply primary_key col = record col { primary_key = true }
apply not_null col = record col { not_null = true }
apply auto_increment col = record col { auto_increment = true }
apply (default value) col = record col { default_value = value.literal }

pub apply_all : List Constraint → ColumnDefinition → ColumnDefinition
apply_all [] col = col
apply_all (c ∷ cs) col = apply_all cs (apply c col)

-- Constraints in front of other tokens.
pub constraint_tokens : List Constraint → List Token → List Token
constraint_tokens [] ts = ts
constraint_tokens (primary_key ∷ cs) ts =
    token TokenType.primary (codes "PRIMARY")
    ∷ token TokenType.key (codes "KEY")
    ∷ constraint_tokens cs ts
constraint_tokens (not_null ∷ cs) ts =
    token TokenType.not_token (codes "NOT")
    ∷ token TokenType.null_token (codes "NULL")
    ∷ constraint_tokens cs ts
constraint_tokens (auto_increment ∷ cs) ts =
    token TokenType.auto_increment (codes "AUTO_INCREMENT") ∷ constraint_tokens cs ts
constraint_tokens (default value ∷ cs) ts =
    token TokenType.default (codes "DEFAULT") ∷ value ∷ constraint_tokens cs ts

-- A column as it is written; its type is one token.
pub record Column : Type 0 where
  pub name : Bytes
  pub type : Token
  pub constraints : List Constraint

pub definition_of : Column → ColumnDefinition
definition_of c = apply_all c.constraints (new_column next_of c.name c.type.literal)

pub column_tokens : Column → List Token → List Token
column_tokens c ts = token TokenType.identifier c.name ∷ c.type ∷ constraint_tokens c.constraints ts

abbrev comma : Token
comma = token TokenType.comma (codes ",")

abbrev rparen : Token
rparen = token TokenType.rparen (codes ")")

-- The columns and the parenthesis that closes their list.
pub columns_tokens : List Column → List Token → List Token
columns_tokens [] ts = rparen ∷ ts
columns_tokens (c ∷ []) ts = column_tokens c (rparen ∷ ts)
columns_tokens (c ∷ d ∷ cs) ts = column_tokens c (comma ∷ columns_tokens (d ∷ cs) ts)

pub create_tokens : Bytes → List Column → List Token
create_tokens table cs =
    token TokenType.create (codes "CREATE")
    ∷ token TokenType.table (codes "TABLE")
    ∷ token TokenType.identifier table
    ∷ token TokenType.lparen (codes "(")
    ∷ columns_tokens cs []

-- One for each column and each constraint.
unfoldable pub cost : List Column → ℕ
cost [] = 0
cost (c ∷ cs) = 1 + length c.constraints + cost cs

separator : Bool → Token
separator more = if more then comma else rparen

constraints-Gives :
    (cs : List Constraint) (col : ColumnDefinition) (n : ℕ) (more : Bool) (ts : List Token)
    → length cs < n
    → parse_constraints next_of n col (at_start (constraint_tokens cs (separator more ∷ ts)))
      ≡ found (apply_all cs col) (at_start (separator more ∷ ts))
unfolding parse_constraints constraint_tokens apply_all apply separator next_of new_parser
    Parser.next_token is_type
constraints-Gives cs col zero more ts h = absurd (omega arith)
constraints-Gives [] col (suc n) true ts h = refl
constraints-Gives [] col (suc n) false ts h = refl
constraints-Gives (primary_key ∷ cs) col (suc n) more ts h =
    constraints-Gives cs _ n more ts (omega arith)
constraints-Gives (not_null ∷ cs) col (suc n) more ts h =
    constraints-Gives cs _ n more ts (omega arith)
constraints-Gives (auto_increment ∷ cs) col (suc n) more ts h =
    constraints-Gives cs _ n more ts (omega arith)
constraints-Gives (default value ∷ cs) col (suc n) more ts h =
    constraints-Gives cs _ n more ts (omega arith)

column-Gives :
    (c : Column) (n : ℕ) (more : Bool) (ts : List Token)
    → length c.constraints < n
    → parse_column next_of n (at_start (column_tokens c (separator more ∷ ts)))
      ≡ found (definition_of c) (at_start (separator more ∷ ts))
unfolding parse_column column_tokens definition_of identifier_or separator next_of new_parser
    Parser.next_token is_type
column-Gives c n more ts h = constraints-Gives c.constraints _ n more ts h

found-bind :
    {S A B : Type 0} {m : Parsed S A} (f : A → Parser S → Parsed S B) {a : A} {q : Parser S}
    → m ≡ found a q
    → (m >>= f) ≡ f a q
found-bind f e = ap (λ x. x >>= f) e

-- One round of the loop over the columns.
columns-step :
    (n : ℕ) (acc : List ColumnDefinition) (p q : Parser (List Token)) (col : ColumnDefinition)
    → is_type p.current.type TokenType.rparen ≡ false
    → parse_column next_of n p ≡ found col q
    → parse_columns next_of (suc n) acc p ≡ (
        if is_type q.current.type TokenType.comma
        then parse_columns next_of n (acc ++ col ∷ []) (Parser.next_token next_of q)
        else found (acc ++ col ∷ []) q)
unfolding parse_columns
columns-step n acc p q col e h = rw e (found-bind _ h)

no_rparen :
    (c : Column) (ts : List Token)
    → is_type (at_start (column_tokens c ts)).current.type TokenType.rparen ≡ false
unfolding column_tokens next_of new_parser Parser.next_token is_type
no_rparen c ts = refl

columns-Gives :
    (cs : List Column) (acc : List ColumnDefinition) (n : ℕ) (ts : List Token)
    → cost cs < n
    → parse_columns next_of n acc (at_start (columns_tokens cs ts))
      ≡ found (acc ++ map definition_of cs) (at_start (rparen ∷ ts))
unfolding parse_columns columns_tokens cost separator next_of new_parser Parser.next_token is_type
columns-Gives cs acc zero ts h = absurd (omega arith)
columns-Gives [] acc (suc n) ts h =
    ap (λ (l : List ColumnDefinition). found l (at_start (rparen ∷ ts))) (sym (append-nil acc))
columns-Gives (c ∷ []) acc (suc n) ts h =
    columns-step n acc _ (at_start (rparen ∷ ts)) (definition_of c) (no_rparen c (rparen ∷ ts))
      (column-Gives c n false ts (omega arith))
columns-Gives (c ∷ d ∷ cs) acc (suc n) ts h =
    let rest = columns_tokens (d ∷ cs) ts in
    columns-step n acc _ (at_start (comma ∷ rest)) (definition_of c) (no_rparen c (comma ∷ rest))
      (column-Gives c n true rest (omega arith))
    ∙ columns-Gives (d ∷ cs) (acc ++ definition_of c ∷ []) n ts (omega arith)
    ∙ ap (λ (l : List ColumnDefinition). found l (at_start (rparen ∷ ts)))
        (append_assoc acc (definition_of c ∷ []) (map definition_of (d ∷ cs)))

create-Gives :
    (table : Bytes) (cs : List Column) (n : ℕ)
    → cost cs < n
    → parse_create_table_statement next_of n (at_start (create_tokens table cs))
      ≡ found (record { table_name = table; columns = map definition_of cs }) (at_start [])
unfolding parse_create_table_statement create_tokens identifier_or Parser.expect_and_next next_of
    new_parser Parser.next_token is_type
create-Gives table cs n h = found-bind _ (columns-Gives cs [] n [] h)

-- The tokens of a CREATE TABLE with any columns, each with a name, a token for its type and any
-- constraints in any order, are parsed with fuel above the number of columns and constraints: to the
-- statement with these columns, in which each constraint is recorded and of several defaults the
-- last. No error is reported, and all tokens are used up.
pub parse-create_tokens :
    (table : Bytes) (cs : List Column) (n : ℕ)
    → cost cs < n
    → Gives
        (parse next_of n (new_parser next_of (create_tokens table cs)))
        (create_table_statement (record { table_name = table; columns = map definition_of cs }))
unfolding parse skip_semicolons parse_by Gives create_tokens next_of new_parser Parser.next_token
    is_type
parse-create_tokens table cs zero h = absurd (omega arith)
parse-create_tokens table cs (suc n) h =
    (at_start [], found-bind _ (create-Gives table cs (suc n) h), refl, refl)
