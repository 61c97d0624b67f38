-- ===== src/Parser/Statements/Enough.antt =====
-- src/sql/parser.cpp: the fuel of SELECT and INSERT.
use tiny_sql.Prelude.{
  ℕ, zero, suc, ◌+◌, ◌*◌, ◌<◌, ◌≤◌, true, Option, none, some, List, [], ◌≡◌, ◌≢◌, arith, Bytes,
}
use tiny_sql.Token.{TokenType, Token}
use tiny_sql.Ast.{Expression, SelectStatement}
use tiny_sql.Parser.Statements.{
  parse_list, parse_names, parse_select_statement, parse_insert_statement, select_columns,
  select_from, select_where, select_limit, limit_value, expect, identifier_or, skip, insert_columns,
}
use tiny_sql.Parser.{Parser, Parsed, found, ◌>>=◌, is_current, parse_expression, expect_and_next}
use tiny_sql.Parser.Totality.{
  TokenSource, current-weight, remaining, remaining-next, ready-next, Ends, returns, rejects,
  raises, Ends-bind, Ends-if, Ends-le, add_error-ne, parse_expression-Ends,
}

module _ {S : Type 0} (next : S → Token × S) (source : TokenSource next) where
  open source use {Ready}

  abbrev pub left : Parser S → ℕ
  left = remaining next source

  abbrev pub Within : {A : Type 0} → ℕ → ℕ → Parsed S A → Type 0
  Within = Ends next source

  pub skip-le : (p : Parser S) → Ready p.lexer → left (skip next p) ≤ left p
  skip-le p r = omega (arith, remaining-next next source p r)

  pub skip-less :
      (t : TokenType) (p : Parser S)
      → Ready p.lexer
      → is_current t p ≡ true
      → t ≢ TokenType.eof_token
      → left (skip next p) + 1 ≤ left p
  skip-less t p r e ne = omega (arith, remaining-next next source p r, current-weight t p e ne)

  -- One run behind another.
  pub Ends-then :
      {A B : Type 0} {d k : ℕ} (m : Parsed S A) (f : A → Parser S → Parsed S B)
      → Within d k m
      → ((a : A) (q : Parser S) → Ready q.lexer → left q + d ≤ k → Within 0 (left q) (f a q))
      → Within 0 k (m >>= f)
  Ends-then {d = d} {k = k} m f h g =
      Ends-bind next source {d' = 0} {k' = k} m f h
        λ a q r le. Ends-le next source (g a q r le) (omega arith)

  pub expect-Ends :
      (t : TokenType) (p : Parser S) → Ready p.lexer → Within 0 (left p) (expect_and_next next t p)
  unfolding expect_and_next
  expect-Ends t p r =
      Ends-if next source (is_current t p)
        (λ _. returns _ _ (ready-next next source p r) (omega (arith, skip-le p r)))
        (λ _. rejects _ (add_error-ne next source _ p))

  pub identifier-Ends :
      (message : Bytes) (p : Parser S)
      → Ready p.lexer
      → Within 1 (left p) (identifier_or next message p)
  unfolding identifier_or
  identifier-Ends message p r =
      Ends-if next source (is_current TokenType.identifier p)
        (λ e. returns _ _ (ready-next next source p r) (skip-less _ p r e (cc)))
        (λ _. rejects _ (add_error-ne next source _ p))

  pub here : {A : Type 0} (a : A) (p : Parser S) → Ready p.lexer → Within 0 (left p) (found a p)
  here a p r = returns a p r (omega arith)

  list-Ends :
      (n : ℕ) (acc : List Expression) (p : Parser S)
      → Ready p.lexer
      → 3 * left p + 3 < n
      → Within 0 (left p) (parse_list next n acc p)
  unfolding parse_list
  list-Ends zero acc p r h = absurd (omega arith)
  list-Ends (suc n) acc p r h =
      Ends-then _ _ (parse_expression-Ends next source n p r (omega arith)) λ e q rq hq.
        Ends-if next source (is_current TokenType.comma q)
          (λ _.
            Ends-le next source
              (list-Ends n _ (skip next q) (ready-next next source q rq)
                (omega (arith, skip-le q rq)))
              (skip-le q rq))
          (λ _. here _ q rq)

  names-Ends :
      (n : ℕ) (acc : List Bytes) (p : Parser S)
      → Ready p.lexer
      → left p < n
      → Within 0 (left p) (parse_names next n acc p)
  unfolding parse_names
  names-Ends zero acc p r h = absurd (omega arith)
  names-Ends (suc n) acc p r h = Ends-then _ _ (identifier-Ends _ p r) λ e q rq hq.
      Ends-if next source (is_current TokenType.comma q)
        (λ _.
          Ends-le next source
            (names-Ends n _ (skip next q) (ready-next next source q rq)
              (omega (arith, skip-le q rq)))
            (skip-le q rq))
        (λ _. here _ q rq)

  select_columns-Ends :
      (n : ℕ) (p : Parser S)
      → Ready p.lexer
      → 3 * left p + 3 < n
      → Within 0 (left p) (select_columns next n p)
  unfolding select_columns
  select_columns-Ends n p r h =
      Ends-if next source (is_current TokenType.asterisk p)
        (λ _. Ends-le next source (here _ _ (ready-next next source p r)) (skip-le p r))
        (λ _. list-Ends n [] p r h)

  select_from-Ends :
      (stmt : SelectStatement) (p : Parser S)
      → Ready p.lexer
      → Within 0 (left p) (select_from next stmt p)
  unfolding select_from
  select_from-Ends stmt p r =
      Ends-if next source (is_current TokenType.from p)
        (λ _.
          Ends-le next source
            (Ends-then (identifier_or next _ (skip next p)) _
              (identifier-Ends _ (skip next p) (ready-next next source p r))
              λ table q rq _. here _ q rq)
            (skip-le p r))
        (λ _. here _ p r)

  select_where-Ends :
      (n : ℕ) (stmt : SelectStatement) (p : Parser S)
      → Ready p.lexer
      → 3 * left p + 3 < n
      → Within 0 (left p) (select_where next n stmt p)
  unfolding select_where
  select_where-Ends n stmt p r h =
      Ends-if next source (is_current TokenType.where_token p)
        (λ _.
          Ends-le next source
            (Ends-then (parse_expression next n (skip next p)) _
              (parse_expression-Ends next source n (skip next p) (ready-next next source p r)
                (omega (arith, skip-le p r)))
              λ e q rq _. here _ q rq)
            (skip-le p r))
        (λ _. here _ p r)

  limit_value-Ends :
      (l : Option ℕ) (stmt : SelectStatement) (p : Parser S)
      → Ready p.lexer
      → Within 0 (left p) (limit_value next l stmt p)
  unfolding limit_value
  limit_value-Ends none stmt p r = raises p
  limit_value-Ends (some l) stmt p r =
      Ends-le next source (here _ _ (ready-next next source p r)) (skip-le p r)

  select_limit-Ends :
      (stmt : SelectStatement) (p : Parser S)
      → Ready p.lexer
      → Within 0 (left p) (select_limit next stmt p)
  unfolding select_limit
  select_limit-Ends stmt p r =
      Ends-if next source (is_current TokenType.limit p)
        (λ _.
          Ends-le next source
            (Ends-if next source (is_current TokenType.number (skip next p))
              (λ _. limit_value-Ends _ stmt _ (ready-next next source p r))
              (λ _. rejects _ (add_error-ne next source _ (skip next p))))
            (skip-le p r))
        (λ _. here _ p r)

  pub select-Ends :
      (n : ℕ) (p : Parser S)
      → Ready p.lexer
      → 3 * left p + 3 < n
      → Within 0 (left p) (parse_select_statement next n p)
  unfolding parse_select_statement
  select-Ends n p r h =
      Ends-then (expect next TokenType.select p) _ (expect-Ends TokenType.select p r) λ _ q rq hq.
        Ends-then (select_columns next n q) _ (select_columns-Ends n q rq (omega arith))
          λ columns s rs hs.
            Ends-then (select_from next _ s) _ (select_from-Ends _ s rs) λ stmt t rt ht.
              Ends-then (select_where next n stmt t) _ (select_where-Ends n stmt t rt (omega arith))
                λ stmt' u ru hu. select_limit-Ends stmt' u ru

  insert_columns-Ends :
      (n : ℕ) (p : Parser S)
      → Ready p.lexer
      → left p < n
      → Within 0 (left p) (insert_columns next n p)
  unfolding insert_columns
  insert_columns-Ends n p r h =
      Ends-if next source (is_current TokenType.lparen p)
        (λ _.
          Ends-le next source
            (Ends-then (parse_names next n [] (skip next p)) _
              (names-Ends n [] (skip next p) (ready-next next source p r)
                (omega (arith, skip-le p r)))
              λ names q rq hq.
                Ends-then (expect next TokenType.rparen q) _ (expect-Ends TokenType.rparen q rq)
                  λ _ s rs hs. here _ s rs)
            (skip-le p r))
        (λ _. here _ p r)

  pub insert-Ends :
      (n : ℕ) (p : Parser S)
      → Ready p.lexer
      → 3 * left p + 3 < n
      → Within 0 (left p) (parse_insert_statement next n p)
  unfolding parse_insert_statement
  insert-Ends n p r h =
      Ends-then (expect next TokenType.insert p) _ (expect-Ends TokenType.insert p r) λ _ q rq hq.
        Ends-then (expect next TokenType.into q) _ (expect-Ends TokenType.into q rq) λ _ s rs hs.
          Ends-then (identifier_or next _ s) _ (identifier-Ends _ s rs) λ table t rt ht.
            Ends-then (insert_columns next n t) _ (insert_columns-Ends n t rt (omega arith))
              λ columns u ru hu.
                Ends-then (expect next TokenType.values u) _ (expect-Ends TokenType.values u ru)
                  λ _ v rv hv.
                    Ends-then (expect next TokenType.lparen v) _ (expect-Ends TokenType.lparen v rv)
                      λ _ w rw' hw.
                        Ends-then (parse_list next n [] w) _ (list-Ends n [] w rw' (omega arith))
                          λ vals x rx hx.
                            Ends-then (expect next TokenType.rparen x) _
                              (expect-Ends TokenType.rparen x rx) λ _ y ry hy. here _ y ry
