-- ===== src/Parser/Statements/Returns.antt =====
-- src/sql/parser.cpp: the fuel of the other statements and of `parse`.
use tiny_sql.Prelude.{ℕ, ◌+◌, ◌≤◌, true, false, [], ◌≡◌, arith}
use tiny_sql.Token.{TokenType, Token}
use tiny_sql.Ast.{Statement}
use tiny_sql.Parser.Statements.{skip, new_parser}
use tiny_sql.Parser.Statements.Enough.{left, Within, skip-le}
use tiny_sql.Parser
use tiny_sql.Parser.{Parser, Parsed, failed, is_current}
use tiny_sql.Parser.Totality.{TokenSource, remaining, remaining-le, ready-next}

module _ {S : Type 0} (next : S → Token × S) (source : TokenSource next) where
  open source use {Ready}

  abbrev lft : Parser S → ℕ
  lft = left next source

  abbrev Over : {A : Type 0} → Parser S → Parsed S A → Type 0
  Over p = Within next source 0 (lft p)

  -- `q` is `p` with some semicolons passed over, and nothing else.
  pub data Past (q : Parser S) : Parser S → Type 0 where
    here_now : Past q q
    one_more :
        (p : Parser S) → is_current TokenType.semicolon p ≡ true → Past q (skip next p) → Past q p

  -- There was no statement: `nullptr` at EOF, behind semicolons alone, with no error on the list.
  pub record NoStatement (p : Parser S) (m : Parsed S Statement) : Type 0 where
    pub end : Parser S
    pub answer : m ≡ failed end
    pub only_semicolons : Past end p
    pub at_eof : end.current.type ≡ TokenType.eof_token
    pub no_errors : end.errors ≡ []

  -- The semicolons in front are passed over.
  record Skipped (p q : Parser S) : Type 0 where
    ready : Ready q.lexer
    fewer : lft q ≤ lft p
    no_semicolon : is_current TokenType.semicolon q ≡ false
    past : Past q p
    same_errors : q.errors ≡ p.errors

  -- A new parser has read two tokens.
  pub new_parser-Ready : (s : S) → Ready s → Ready (new_parser next s).lexer
  unfolding new_parser
  new_parser-Ready s r = ready-next next source _ (ready-next next source _ r)

  pub new_parser-left :
      (s : S) → Ready s → remaining next source (new_parser next s) ≤ source.size s + 2
  unfolding new_parser
  new_parser-left s r =
      let blank : Token = record { type = TokenType.illegal; literal = []; line = 0; column = 0 } in
      let p : Parser S = record { lexer = s; current = blank; peek = blank; errors = [] } in
      omega (
        arith,
        skip-le next source (skip next p) (ready-next next source p r),
        skip-le next source p r,
        remaining-le next source p,
      )
