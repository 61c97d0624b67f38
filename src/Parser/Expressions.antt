-- ===== src/Parser/Expressions.antt =====
-- src/sql/parser.cpp: what `parseExpression` can return.
use tiny_sql.Prelude.{
  ℕ, zero, suc, ◌+◌, ◌*◌, ◌<◌, Bool, true, false, [], ◌≡◌, ◌≢◌, inl, inr, refl, arith, ltb, le→ltb,
  if◌then◌else◌,
}
use tiny_sql.Token.{TokenType, Token}
use tiny_sql.Ast.{Expression, binary}
use tiny_sql.Parser.Totality.{
  Primary-cases, TokenSource, remaining, Ends, returns, rejects, raises, parse_expression-Ends,
}
use tiny_sql.Parser.{
  Parser, Parsed, found, failed, raised, out_of_fuel, ◌>>=◌, is_current, next_token,
  expect_and_next, close_paren, get_precedence, primary_of, parse_expression, parse_primary,
  parse_binary,
}

-- No value was returned: `nullptr`, an exception, or the model's fuel.
pub data NotFound {S A : Type 0} : Parsed S A → Type 0 where
  is_failed : (p : Parser S) → NotFound (failed p)
  is_raised : (p : Parser S) → NotFound (raised p)
  is_out_of_fuel : NotFound out_of_fuel

module _ {S A B : Type 0} where
  pub NotFound-bind :
      (m : Parsed S A) (f : A → Parser S → Parsed S B)
      → ((a : A) (p : Parser S) → m ≡ found a p → NotFound (f a p))
      → NotFound (m >>= f)
  NotFound-bind (found a p) f h = h a p refl
  NotFound-bind (failed p) f h = is_failed p
  NotFound-bind (raised p) f h = is_raised p
  NotFound-bind out_of_fuel f h = is_out_of_fuel

  pub NotFound-first :
      (m : Parsed S A) (f : A → Parser S → Parsed S B) → NotFound m → NotFound (m >>= f)
  NotFound-first m f (is_failed p) = is_failed p
  NotFound-first m f (is_raised p) = is_raised p
  NotFound-first m f is_out_of_fuel = is_out_of_fuel

module _ {S : Type 0} (next : S → Token × S) where
  -- At precedence 0 the test `current_precedence < precedence` never passes: the token behind an
  -- operand is taken for an operator, whatever it is.
  parse_binary-NotFound :
      (n : ℕ) (left : Expression) (p : Parser S) → NotFound (parse_binary next n 0 left p)
  unfolding parse_binary
  parse_binary-NotFound zero left p = is_out_of_fuel
  parse_binary-NotFound (suc n) left p =
      rw (le→ltb (get_precedence p.current.type) 0 (omega arith)) (
        NotFound-bind (parse_primary next n (next_token next p)) _ λ right q _.
          NotFound-bind _ _
            λ operand r _. parse_binary-NotFound n (binary left p.current.literal operand) r)

  pub parse_expression-NotFound : (n : ℕ) (p : Parser S) → NotFound (parse_expression next n p)
  unfolding parse_expression
  parse_expression-NotFound zero p = is_out_of_fuel
  parse_expression-NotFound (suc n) p =
      NotFound-bind (parse_primary next n p) _ λ left q _. parse_binary-NotFound n left q

-- The exception of `std::stoi` is for LIMIT only.
pub data NotRaised {S A : Type 0} : Parsed S A → Type 0 where
  by_found : (a : A) (p : Parser S) → NotRaised (found a p)
  by_failed : (p : Parser S) → NotRaised (failed p)
  by_out_of_fuel : NotRaised out_of_fuel

module _ {S A B : Type 0} where
  NotRaised-bind :
      (m : Parsed S A) (f : A → Parser S → Parsed S B)
      → NotRaised m
      → ((a : A) (p : Parser S) → NotRaised (f a p))
      → NotRaised (m >>= f)
  NotRaised-bind m f (by_found a p) h = h a p
  NotRaised-bind m f (by_failed p) h = by_failed p
  NotRaised-bind m f by_out_of_fuel h = by_out_of_fuel

module _ {S A : Type 0} where
  NotRaised-if :
      (b : Bool) {m m' : Parsed S A} → NotRaised m → NotRaised m' → NotRaised (if b then m else m')
  NotRaised-if true h h' = h
  NotRaised-if false h h' = h'

module _ {S : Type 0} (next : S → Token × S) where
  expect-NotRaised : (t : TokenType) (p : Parser S) → NotRaised (expect_and_next next t p)
  unfolding expect_and_next
  expect-NotRaised t p = NotRaised-if (is_current t p) (by_found _ _) (by_failed _)

  close_paren-NotRaised : (m : Parsed S Expression) → NotRaised m → NotRaised (close_paren next m)
  unfolding close_paren
  close_paren-NotRaised m (by_found e p) =
      NotRaised-bind _ _ (expect-NotRaised TokenType.rparen p) λ _ q. by_found e q
  close_paren-NotRaised m (by_failed p) =
      NotRaised-bind _ _ (expect-NotRaised TokenType.rparen p) λ _ q. by_failed q
  close_paren-NotRaised m by_out_of_fuel = by_out_of_fuel

  mutual
    unfolding parse_expression

    expression-NotRaised : (n : ℕ) (p : Parser S) → NotRaised (parse_expression next n p)
    expression-NotRaised zero p = by_out_of_fuel
    expression-NotRaised (suc n) p =
        NotRaised-bind _ _ (primary-NotRaised n p) λ left q. binary-NotRaised n 0 left q

    primary-NotRaised : (n : ℕ) (p : Parser S) → NotRaised (parse_primary next n p)
    primary-NotRaised zero p = by_out_of_fuel
    primary-NotRaised (suc n) p =
        elim (Primary-cases (primary_of p.current.type p.current.literal)) [
          | inl (e, z) ↦ rw (z, parse_primary) (by_found e (next_token next p))
          | inr rest ↦ elim rest [
            | inl z ↦
                rw (z, parse_primary)
                  (close_paren-NotRaised _ (expression-NotRaised n (next_token next p)))
            | inr z ↦ rw (z, parse_primary) (by_failed _)
          ]
        ]

    binary-NotRaised :
        (n precedence : ℕ) (left : Expression) (p : Parser S)
        → NotRaised (parse_binary next n precedence left p)
    binary-NotRaised zero precedence left p = by_out_of_fuel
    binary-NotRaised (suc n) precedence left p =
        NotRaised-if (ltb (get_precedence p.current.type) precedence) (by_found _ _) (
          NotRaised-bind _ _ (primary-NotRaised n (next_token next p)) λ right q.
            NotRaised-bind _ _ (NotRaised-if _ (binary-NotRaised n _ right q) (by_found right q))
              λ operand r. binary-NotRaised n precedence _ r)

  -- What the parser answers to an expression, whatever tokens it is made of: `nullptr`, and at
  -- least one error is on the list.
  pub record Rejects {A : Type 0} (m : Parsed S A) : Type 0 where
    pub left_at : Parser S
    pub gives : m ≡ failed left_at
    pub reported : left_at.errors ≢ []

  rejected :
      {A : Type 0} (source : TokenSource next) (d k : ℕ) (m : Parsed S A)
      → Ends next source d k m
      → NotFound m
      → NotRaised m
      → Rejects m
  rejected source d k m (returns a q r h) none_found h' = elim none_found [ ]
  rejected source d k m (rejects q ne) none_found h' = record {
    left_at = q;
    gives = refl;
    reported = ne;
  }
  rejected source d k m (raises q) none_found h' = elim h' [ ]

  -- Whatever the tokens are, `parseExpression` returns `nullptr` and has reported an error, when
  -- its tokens come from a source that ends and its fuel is above three for each remaining token
  -- and two.
  pub parse_expression-Rejects :
      (source : TokenSource next) (n : ℕ) (p : Parser S)
      → source.Ready p.lexer
      → 3 * remaining next source p + 2 < n
      → Rejects (parse_expression next n p)
  parse_expression-Rejects source n p r h =
      rejected source 1 (remaining next source p) _ (parse_expression-Ends next source n p r h)
        (parse_expression-NotFound next n p) (expression-NotRaised n p)
