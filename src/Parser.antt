-- ===== src/Parser.antt =====
-- src/sql/parser.cpp, include/tiny_sql/sql/parser.h: the recursive-descent parser.
--
-- The parser draws its tokens from a source: `next` stands for `Lexer::nextToken`, and Parser/Query
-- puts the lexer there. A function that returns a pointer gives `found`, or `failed` for `nullptr`;
-- `raised` is the exception of `std::stoi`. The loops and the recursion run on fuel; `out_of_fuel`
-- has no counterpart in the program, and Parser/Totality shows the fuel that is enough.
pub mod Statements
pub mod Expressions
pub mod Totality
pub mod Query
use tiny_sql.Prelude.{
  ℕ, zero, suc, ◌+◌, ◌-◌, ◌*◌, ◌^◌, Bool, true, false, not, ◌&&◌, Option, none, some, List, [], ◌∷◌,
  ◌++◌, ltb, leb, ◌==◌, if◌then◌else◌, Bytes, codes,
}
use tiny_sql.Token.{TokenType, Token, is_type, token_type_to_string}
use tiny_sql.Ast.{
  Expression, identifier, number_literal, string_literal, binary, SelectStatement, new_select,
  InsertStatement, ColumnDefinition, CreateTableStatement, Statement, select_statement,
  insert_statement, create_table_statement, drop_table_statement, show_tables_statement,
  show_databases_statement, use_database_statement, to_string,
}

pub record Parser (S : Type 0) : Type 0 where
  pub lexer : S
  pub current : Token
  pub peek : Token
  pub errors : List Bytes

pub data Parsed (S A : Type 0) : Type 0 where
  found : A → Parser S → Parsed S A
  failed : Parser S → Parsed S A
  raised : Parser S → Parsed S A
  out_of_fuel : Parsed S A

-- What a token begins as a primary expression.
pub data Primary : Type 0 where
  leaf : Expression → Primary
  paren : Primary
  unexpected : Primary

pub primary_of : TokenType → Bytes → Primary
primary_of TokenType.identifier literal = leaf (identifier literal)
primary_of TokenType.number literal = leaf (number_literal literal)
primary_of TokenType.string literal = leaf (string_literal literal)
primary_of TokenType.asterisk literal = leaf (identifier (codes "*"))
primary_of TokenType.lparen literal = paren
primary_of _ literal = unexpected

pub get_precedence : TokenType → ℕ
get_precedence TokenType.or = 1
get_precedence TokenType.and = 2
get_precedence TokenType.eq = 3
get_precedence TokenType.ne = 3
get_precedence TokenType.lt = 3
get_precedence TokenType.le = 3
get_precedence TokenType.gt = 3
get_precedence TokenType.ge = 3
get_precedence TokenType.plus = 4
get_precedence TokenType.minus = 4
get_precedence TokenType.asterisk = 5
get_precedence TokenType.slash = 5
get_precedence TokenType.percent = 5
get_precedence _ = 0

-- The value of the digits in front, and the rest is ignored.
unfoldable pub leading_digits : ℕ → Bytes → ℕ
leading_digits acc [] = acc
leading_digits acc (c ∷ s) =
    let more = leading_digits (acc * 10 + (c - b'0')) s in
    if leb b'0' c && leb c b'9' then more else acc

-- `std::stoi` of a NUMBER token, which begins with a digit: `none` where the value is no `int`.
unfoldable pub stoi : Bytes → Option ℕ
unfolding leading_digits
stoi s = let n = leading_digits 0 s in if ltb n (2 ^ 31) then some n else none

module _ {S A B : Type 0} where
  infixl 5 ◌>>=◌
  abbrev pub ◌>>=◌ : Parsed S A → (A → Parser S → Parsed S B) → Parsed S B
  found a p >>= f = f a p
  failed p >>= f = failed p
  raised p >>= f = raised p
  out_of_fuel >>= f = out_of_fuel

module _ {S : Type 0} where
  abbrev is_current : TokenType → Parser S → Bool
  is_current t p = is_type p.current.type t

  pub add_error : Bytes → Parser S → Parser S
  add_error message p = record p {
    errors =
        p.errors
        ++ (codes "Parse error at line "
            ++ (to_string p.current.line
                ++ (codes ", column " ++ (to_string p.current.column ++ (codes ": " ++ message)))))
          ∷ [];
  }

module _ {S : Type 0} (next : S → Token × S) where
  pub next_token : Parser S → Parser S
  next_token p = record p { lexer = (next p.lexer).1; current = p.peek; peek = (next p.lexer).0 }

  -- `expectAndNext`
  pub expect_and_next : TokenType → Parser S → Parsed S (Unit {0})
  expect_and_next t p =
      if is_current t p
      then found tt (next_token p)
      else failed (
          add_error
            (codes "Expected " ++ (token_type_to_string t ++ (codes ", got " ++ p.current.literal)))
            p)

  -- `)` behind a parenthesised expression is expected whether or not the expression was one.
  pub close_paren : Parsed S Expression → Parsed S Expression
  close_paren (found e p) = expect_and_next TokenType.rparen p >>= λ _ q. found e q
  close_paren (failed p) = expect_and_next TokenType.rparen p >>= λ _ q. failed q
  close_paren (raised p) = raised p
  close_paren out_of_fuel = out_of_fuel

  abbrev unexpected_token : Parser S → Parsed S Expression
  unexpected_token p =
      failed (add_error (codes "Unexpected token in expression: " ++ p.current.literal) p)

  mutual
    pub parse_expression : ℕ → Parser S → Parsed S Expression
    parse_expression zero p = out_of_fuel
    parse_expression (suc n) p = parse_primary n p >>= λ left q. parse_binary n 0 left q

    pub parse_primary : ℕ → Parser S → Parsed S Expression
    parse_primary zero p = out_of_fuel
    parse_primary (suc n) p = elim (primary_of p.current.type p.current.literal) [
      | leaf e ↦ found e (next_token p)
      | paren ↦ close_paren (parse_expression n (next_token p))
      | unexpected ↦ unexpected_token p
    ]

    pub parse_binary : ℕ → ℕ → Expression → Parser S → Parsed S Expression
    parse_binary zero precedence left p = out_of_fuel
    parse_binary (suc n) precedence left p =
        let current_precedence = get_precedence p.current.type in
        let op = p.current.literal in
        let round = parse_primary n (next_token p) >>= λ right q.
        (let tighter = parse_binary n (current_precedence + 1) right q in
          if ltb current_precedence (get_precedence q.current.type) then tighter else found right q)
        >>= λ operand r. parse_binary n precedence (binary left op operand) r in
        if ltb current_precedence precedence then found left p else round
