-- ===== src/Parser/Query.antt =====
-- src/sql/parser.cpp on src/sql/lexer.cpp: `Parser(input).parse()` on a query text.
use tiny_sql.Prelude.{◌+◌, ◌*◌, [], ◌≡◌, ◌≢◌, Bytes, length}
use tiny_sql.Token.{TokenType}
use tiny_sql.Lexer
use tiny_sql.Lexer.{Lexer, new_lexer, read_char}
use tiny_sql.Lexer.Progress.{IsAt, left}
use tiny_sql.Lexer.Tokens.{next_token-Progresses}
use tiny_sql.Ast.{Statement}
use tiny_sql.Parser.{Parser, Parsed, found, failed, raised}
use tiny_sql.Parser.Statements.{parse, new_parser}
use tiny_sql.Parser.Statements.Accepted.{Accepted}
use tiny_sql.Parser.Totality.{TokenSource}

abbrev pub lexer_source : TokenSource Lexer.next_token
lexer_source = record {
  Ready = IsAt;
  size = left;
  next_ready = λ s a. (next_token-Progresses s a).moves.at;
  next_le = λ s a. (next_token-Progresses s a).moves.no_further;
  eof_or_less = λ s a. (next_token-Progresses s a).eof_or_closer;
}

-- The fuel covers the longest run on a text of that length.
pub parse_query : Bytes → Parsed Lexer Statement
parse_query s =
    parse Lexer.next_token (3 * length s + 10) (new_parser Lexer.next_token (new_lexer s))

-- What a query gets.
pub data Answer : Parsed Lexer Statement → Type 0 where
  accepted : (stmt : Statement) (p : Parser Lexer) → Accepted stmt → Answer (found stmt p)
  refused : (p : Parser Lexer) → p.errors ≢ [] → Answer (failed p)
  blank :
      (p : Parser Lexer) → p.errors ≡ [] → p.current.type ≡ TokenType.eof_token → Answer (failed p)
  overflow : (p : Parser Lexer) → Answer (raised p)
