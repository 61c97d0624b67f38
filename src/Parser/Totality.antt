-- ===== src/Parser/Totality.antt =====
-- src/sql/parser.cpp: the fuel of the expression parser.
use tiny_sql.Prelude.{
  ℕ, zero, suc, ◌+◌, ◌*◌, ◌<◌, ◌≤◌, Bool, true, false, List, [], ◌∷◌, ◌++◌, ◌≡◌, ◌≢◌, ◌⊎◌, inl, inr,
  refl, sym, ap, ◌∙◌, arith, ltb, if◌then◌else◌, Bytes, Bool-cases,
}
use tiny_sql.Token.{TokenType, Token, is_type, is_type_iff}
use tiny_sql.Ast.{Expression, binary}
use tiny_sql.Parser.{
  Parser, Parsed, found, failed, raised, ◌>>=◌, is_current, add_error, next_token, expect_and_next,
  close_paren, get_precedence, primary_of, Primary, leaf, paren, unexpected, parse_expression,
  parse_primary, parse_binary,
}

-- A source of tokens that comes to an end: each token is EOF, or fewer are left behind it.
pub record TokenSource {S : Type 0} (next : S → Token × S) : Type 1 where
  pub Ready : S → Type 0
  pub size : S → ℕ
  pub next_ready : (s : S) → Ready s → Ready (next s).1
  pub next_le : (s : S) → Ready s → size (next s).1 ≤ size s
  pub eof_or_less :
      (s : S) → Ready s → ((next s).0.type ≡ TokenType.eof_token) ⊎ (size (next s).1 < size s)

-- One for a token that is not EOF.
pub weight : Token → ℕ
weight t = if is_type t.type TokenType.eof_token then 0 else 1

pub Primary-cases :
    (k : Primary) → ((e : Expression) × (k ≡ leaf e)) ⊎ ((k ≡ paren) ⊎ (k ≡ unexpected))
Primary-cases (leaf e) = inl (e, refl)
Primary-cases paren = inr (inl refl)
Primary-cases unexpected = inr (inr refl)

-- A token that is of another type than EOF.
pub current-weight :
    {S : Type 0} (t : TokenType) (p : Parser S)
    → is_current t p ≡ true
    → t ≢ TokenType.eof_token
    → weight p.current ≡ 1
unfolding weight
current-weight t p e ne = elim (Bool-cases (is_type p.current.type TokenType.eof_token)) [
  | inl z ↦ absurd (
      ne (
        sym ((is_type_iff p.current.type t).0 e)
        ∙ (is_type_iff p.current.type TokenType.eof_token).0 z))
  | inr z ↦ rw z refl
]

module _ {S : Type 0} (next : S → Token × S) (source : TokenSource next) where
  open source use {Ready, size, next_ready, next_le, eof_or_less}

  -- The tokens that are left, the current one and the one behind it included.
  pub remaining : Parser S → ℕ
  remaining p = size p.lexer + weight p.peek + weight p.current

  weight-eof : (t : Token) → t.type ≡ TokenType.eof_token → weight t ≡ 0
  unfolding weight
  weight-eof t e = rw ((is_type_iff t.type TokenType.eof_token).1 e)

  weight-le : (t : Token) → weight t ≤ 1
  unfolding weight
  weight-le t = ground arith

  next-weight : (s : S) → Ready s → size (next s).1 + weight (next s).0 ≤ size s
  next-weight s r = elim (eof_or_less s r) [
    | inl e ↦ omega (arith, weight-eof (next s).0 e, next_le s r)
    | inr lt ↦ omega (arith, weight-le (next s).0)
  ]

  -- `nextToken` uses up the current token.
  pub remaining-next :
      (p : Parser S)
      → Ready p.lexer
      → remaining (next_token next p) + weight p.current ≤ remaining p
  unfolding remaining next_token
  remaining-next p r = omega (arith, next-weight p.lexer r)

  pub remaining-le : (p : Parser S) → remaining p ≤ size p.lexer + 2
  unfolding remaining
  remaining-le p = omega (arith, weight-le p.peek, weight-le p.current)

  pub remaining-errors :
      (errors : List Bytes) (p : Parser S) → remaining (record p { errors = errors }) ≡ remaining p
  unfolding remaining
  remaining-errors errors p = refl

  -- A run that ended within its fuel: a value, behind which `d` of `k` tokens at least are used up,
  -- or `nullptr` with an error reported, or the exception of `std::stoi`.
  pub data Ends {A : Type 0} (d k : ℕ) : Parsed S A → Type 0 where
    returns : (a : A) (q : Parser S) → Ready q.lexer → remaining q + d ≤ k → Ends d k (found a q)
    rejects : (q : Parser S) → q.errors ≢ [] → Ends d k (failed q)
    raises : (q : Parser S) → Ends d k (raised q)

  pub Ends-bind :
      {A B : Type 0} {d k d' k' : ℕ} (m : Parsed S A) (f : A → Parser S → Parsed S B)
      → Ends d k m
      → ((a : A) (q : Parser S) → Ready q.lexer → remaining q + d ≤ k → Ends d' k' (f a q))
      → Ends d' k' (m >>= f)
  Ends-bind m f (returns a q r h) g = g a q r h
  Ends-bind m f (rejects q ne) g = rejects q ne
  Ends-bind m f (raises q) g = raises q

  pub Ends-if :
      {A : Type 0} {d k : ℕ} (b : Bool) {m m' : Parsed S A}
      → (b ≡ true → Ends d k m)
      → (b ≡ false → Ends d k m')
      → Ends d k (if b then m else m')
  Ends-if true h h' = h refl
  Ends-if false h h' = h' refl

  pub add_error-ne : (message : Bytes) (p : Parser S) → (add_error message p).errors ≢ []
  unfolding add_error
  add_error-ne message p = append-ne p.errors _
    where
      append-ne : (xs : List Bytes) (x : Bytes) → xs ++ x ∷ [] ≢ []
      append-ne [] x = cc
      append-ne (y ∷ ys) x = cc

  close_paren-Ends :
      (d k : ℕ) (m : Parsed S Expression) → Ends d k m → Ends d k (close_paren next m)
  unfolding close_paren expect_and_next next_token
  close_paren-Ends d k m (returns e q r h) = elim (Bool-cases (is_current TokenType.rparen q)) [
    | inl t ↦ rw t (returns e _ (next_ready q.lexer r) (omega (arith, remaining-next q r)))
    | inr f ↦ rw f (rejects _ (add_error-ne _ q))
  ]
  close_paren-Ends d k m (raises q) = raises q
  close_paren-Ends d k m (rejects q ne) = elim (Bool-cases (is_current TokenType.rparen q)) [
    | inl t ↦ rw t (rejects _ ne)
    | inr f ↦ rw f (rejects _ (add_error-ne _ q))
  ]

  -- A token that begins an expression is not EOF.
  primary_of-weight :
      (t : TokenType) (literal : Bytes)
      → primary_of t literal ≢ unexpected
      → is_type t TokenType.eof_token ≡ false
  unfolding primary_of
  primary_of-weight t literal h = elim (Bool-cases (is_type t TokenType.eof_token)) [
    | inl e ↦ absurd (h (ap (λ u. primary_of u literal) ((is_type_iff t TokenType.eof_token).0 e)))
    | inr f ↦ f
  ]

  weight-primary :
      (p : Parser S) {k : Primary}
      → primary_of p.current.type p.current.literal ≡ k
      → k ≢ unexpected
      → weight p.current ≡ 1
  unfolding weight
  weight-primary p e h =
      rw (primary_of-weight p.current.type p.current.literal (λ z. h (sym e ∙ z)))

  pub Ends-le : {A : Type 0} {d k k' : ℕ} {m : Parsed S A} → Ends d k m → k ≤ k' → Ends d k' m
  Ends-le (returns e q r h) le = returns e q r (omega arith)
  Ends-le (rejects q ne) le = rejects q ne
  Ends-le (raises q) le = raises q

  pub ready-next : (p : Parser S) → Ready p.lexer → Ready (next_token next p).lexer
  unfolding next_token
  ready-next p r = next_ready p.lexer r

  leaf-Ends :
      (p : Parser S) (e : Expression)
      → Ready p.lexer
      → weight p.current ≡ 1
      → Ends 1 (remaining p) (found e (next_token next p))
  leaf-Ends p e r w =
      returns e (next_token next p) (ready-next p r) (omega (arith, remaining-next p r))

  mutual
    unfolding parse_expression

    -- Three calls at most use up a token.
    expression-Ends :
        (n : ℕ) (p : Parser S)
        → Ready p.lexer
        → 3 * remaining p + 2 < n
        → Ends 1 (remaining p) (parse_expression next n p)
    expression-Ends zero p r h = absurd (omega arith)
    expression-Ends (suc n) p r h =
        Ends-bind (parse_primary next n p) _ (primary-Ends n p r (omega arith))
          λ left q rq hq. binary-Ends n 0 left q 1 (remaining p) rq (omega arith) (omega arith)

    primary-Ends :
        (n : ℕ) (p : Parser S)
        → Ready p.lexer
        → 3 * remaining p < n
        → Ends 1 (remaining p) (parse_primary next n p)
    primary-Ends zero p r h = absurd (omega arith)
    primary-Ends (suc n) p r h =
        elim (Primary-cases (primary_of p.current.type p.current.literal)) [
          | inl (e, z) ↦ rw (z, parse_primary) (leaf-Ends p e r (weight-primary p z (cc)))
          | inr rest ↦ elim rest [
            | inl z ↦
                let w = weight-primary p z (cc) in
                let p1 = next_token next p in
                let inner =
                  expression-Ends n p1 (ready-next p r) (omega (arith, remaining-next p r)) in
                rw (z, parse_primary)
                  (close_paren-Ends 1 (remaining p) _
                    (Ends-le inner (omega (arith, remaining-next p r))))
            | inr z ↦ rw (z, parse_primary) (rejects _ (add_error-ne _ p))
          ]
        ]

    binary-Ends :
        (n precedence : ℕ) (left : Expression) (p : Parser S) (d k : ℕ)
        → Ready p.lexer
        → remaining p + d ≤ k
        → 3 * remaining p + 1 < n
        → Ends d k (parse_binary next n precedence left p)
    binary-Ends zero precedence left p d k r h lt = absurd (omega arith)
    binary-Ends (suc n) precedence left p d k r h lt =
        let p1 = next_token next p in
        let current = get_precedence p.current.type in
        Ends-if (ltb current precedence) (λ _. returns left p r h)
          (λ _.
            Ends-bind (parse_primary next n p1) _
              (primary-Ends n p1 (ready-next p r) (omega (arith, remaining-next p r)))
              λ right q rq hq.
                Ends-bind _ _
                  (Ends-if {d = 1} {k = remaining p1} (ltb current (get_precedence q.current.type))
                    (λ _.
                      binary-Ends n (current + 1) right q 1 (remaining p1) rq hq
                        (omega (arith, remaining-next p r)))
                    (λ _. returns right q rq hq))
                  λ operand u ru hu.
                    binary-Ends n precedence (binary left p.current.literal operand) u d k ru
                      (omega (arith, remaining-next p r)) (omega (arith, remaining-next p r)))

  pub parse_expression-Ends :
      (n : ℕ) (p : Parser S)
      → Ready p.lexer
      → 3 * remaining p + 2 < n
      → Ends 1 (remaining p) (parse_expression next n p)
  parse_expression-Ends = expression-Ends
