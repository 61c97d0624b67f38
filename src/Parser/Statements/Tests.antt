-- ===== src/Parser/Statements/Tests.antt =====
-- Runs of the parser, and the theorems on it at concrete inputs.
use tiny_sql.Prelude.{List, [], ◌∷◌, map, ◌<◌, ◌≡◌, refl, arith, Bytes, codes, Option, none, some}
use tiny_sql.Ast.{create_table_statement, use_database_statement}
use tiny_sql.Token.{TokenType, lookup_keyword, is_type}
use tiny_sql.Lexer
use tiny_sql.Lexer.{Lexer, new_lexer}
use tiny_sql.Lexer.Tokens.{new_lexer-IsAt}
use tiny_sql.Parser
use tiny_sql.Parser.{Parser, Parsed, found, failed, raised, out_of_fuel}
use tiny_sql.Parser.Statements.{
  parse, new_parser, skip_semicolons, parse_by, parse_use_statement, identifier_or,
}
use tiny_sql.Parser.Statements.Accepted.{Accepted, parse-Accepted}
use tiny_sql.Parser.Expressions.{Rejects, parse_expression-Rejects}
use tiny_sql.Lexer.Progress.{left-new_lexer}
use tiny_sql.Parser.Statements.Returns.{new_parser-Ready, new_parser-left}
use tiny_sql.Parser.Statements.RoundTrip.{
  token, next_of, Command, tokens_of, statement_of, semicolons, Gives, parse-tokens_of,
}
use tiny_sql.Parser.Statements.CreateTable.{
  Column, Constraint, primary_key, default, create_tokens, cost, definition_of, parse-create_tokens,
}
use tiny_sql.Parser.Query.{lexer_source}

abbrev result : {S A : Type 0} → Parsed S A → Option A
result (found a p) = some a
result (failed p) = none
result (raised p) = none
result out_of_fuel = none

abbrev parser : Bytes → Parser Lexer
parser s = new_parser Lexer.next_token (new_lexer s)

use_test :
    result (parse Lexer.next_token 9 (parser (codes "USE db")))
    ≡ some (use_database_statement (codes "db"))
unfolding parse new_parser Lexer.next_token skip_semicolons parse_by parse_use_statement
    identifier_or new_lexer lookup_keyword is_type Parser.next_token Parser.expect_and_next
use_test = refl

-- `1 + 2` is no expression to the parser.
parse_expression-Rejects_example :
    Rejects Lexer.next_token (Parser.parse_expression Lexer.next_token 30 (parser (codes "1 + 2")))
parse_expression-Rejects_example =
    parse_expression-Rejects Lexer.next_token lexer_source 30 (parser (codes "1 + 2"))
      (new_parser-Ready Lexer.next_token lexer_source (new_lexer (codes "1 + 2"))
        (new_lexer-IsAt (codes "1 + 2")))
      (omega (
        arith,
        new_parser-left Lexer.next_token lexer_source (new_lexer (codes "1 + 2"))
            (new_lexer-IsAt (codes "1 + 2")),
        left-new_lexer (codes "1 + 2"),
      ))

use_run :
    (q : Parser Lexer) × (parse Lexer.next_token 9 (parser (codes "USE db"))
      ≡ found (use_database_statement (codes "db")) q)
unfolding parse new_parser Lexer.next_token skip_semicolons parse_by parse_use_statement
    identifier_or new_lexer lookup_keyword is_type Parser.next_token Parser.expect_and_next
use_run = (_, refl)

parse-Accepted_example : Accepted (use_database_statement (codes "db"))
parse-Accepted_example = parse-Accepted Lexer.next_token 9 (parser (codes "USE db")) use_run.1

parse-tokens_of_example :
    Gives
      (parse next_of 5
        (new_parser next_of (semicolons 2 (tokens_of (Command.use_database (codes "db"))))))
      (statement_of (Command.use_database (codes "db")))
parse-tokens_of_example = parse-tokens_of (Command.use_database (codes "db")) 2 5 (omega arith)

abbrev columns : List Column
columns =
    record {
      name = codes "id";
      type = record { type = TokenType.int; literal = codes "INT"; line = 1; column = 20 };
      constraints = Constraint.not_null ∷ primary_key ∷ [];
    }
    ∷ record {
      name = codes "age";
      type = record { type = TokenType.int; literal = codes "INT"; line = 1; column = 50 };
      constraints = default (token TokenType.number (codes "7")) ∷ [];
    }
    ∷ []

columns_cheap : cost columns < 9
unfolding cost
columns_cheap = omega arith

parse-create_tokens_example :
    Gives (parse next_of 9 (new_parser next_of (create_tokens (codes "users") columns))) (
      create_table_statement
        (record { table_name = codes "users"; columns = map definition_of columns }))
parse-create_tokens_example = parse-create_tokens (codes "users") columns 9 columns_cheap
