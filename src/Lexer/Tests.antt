-- ===== src/Lexer/Tests.antt =====
-- src/sql/lexer.cpp on small inputs, and the theorems on it at concrete inputs.
use tiny_sql.Prelude.{List, [], ◌∷◌, ◌≡◌, refl, map, Option, some, none, Bytes, codes}
use tiny_sql.Token.{TokenType, Token, lookup_keyword}
use tiny_sql.Lexer.{new_lexer, next_token, tokenize, tokenize_fuel}
use tiny_sql.Lexer.Tokens.{
  Progresses, next_token-Progresses, EndsWithEof, tokenize-EndsWithEof, new_lexer-IsAt,
}

abbrev types : Option (List Token) → List TokenType
types none = []
types (some ts) = map (λ t. t.type) ts

line_comments :
    types (tokenize_fuel 9 (new_lexer (codes "-- a\n-- b\nselect 'x\\'y' <= 1.5;")))
    ≡ TokenType.select ∷ TokenType.string ∷ TokenType.le ∷ TokenType.number ∷ TokenType.semicolon
      ∷ TokenType.eof_token ∷ []
unfolding tokenize_fuel next_token new_lexer lookup_keyword
line_comments = refl

block_comments :
    types (tokenize_fuel 9 (new_lexer (codes "/* a */ /* b */")))
    ≡ TokenType.slash ∷ TokenType.asterisk ∷ TokenType.identifier ∷ TokenType.asterisk
      ∷ TokenType.slash ∷ TokenType.eof_token ∷ []
unfolding tokenize_fuel next_token new_lexer lookup_keyword
block_comments = refl

abbrev sql : Bytes
sql = codes " -- a\nuse db"

next_token-Progresses_example : Progresses (new_lexer sql) (next_token (new_lexer sql))
next_token-Progresses_example = next_token-Progresses (new_lexer sql) (new_lexer-IsAt sql)

tokenize-EndsWithEof_example :
    (ts : List Token) × (tokenize (new_lexer sql) ≡ some ts) × EndsWithEof ts
tokenize-EndsWithEof_example = tokenize-EndsWithEof sql
