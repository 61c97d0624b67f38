-- ===== src/Lexer/Tokens.antt =====
-- src/sql/lexer.cpp: `nextToken` and `tokenize` as a whole.
use tiny_sql.Prelude.{
  ℕ, zero, suc, ◌<◌, false, ◌∙◌, some, List, [], ◌∷◌, ◌≡◌, ◌≢◌, ◌⊎◌, inl, inr, refl, arith, Bytes,
  Bool-cases,
}
use tiny_sql.Token.{TokenType, Token, is_type, is_type_iff}
use tiny_sql.Lexer.{
  Lexer, fuel, skip_whitespace, at_dashes, skip_comment, scan_token, to_token, next_token_fuel,
  next_token, tokenize_fuel, tokenize, new_lexer,
}
use tiny_sql.Lexer.Progress.{
  IsAt, left, Moves, Moves-refl, Moves-trans, read_char-IsAt, left-le-fuel, skip_whitespace-Moves,
  skip_comment-Moves, left-skip_comment,
}
use tiny_sql.Lexer.Consumes.{scan_token-Consumes}

-- What a call of `nextToken` gives: the EOF token, or a lexer that has moved on.
pub record Progresses (s : Lexer) (r : Token × Lexer) : Type 0 where
  pub moves : Moves s r.1
  pub eof_or_closer : (r.0.type ≡ TokenType.eof_token) ⊎ (left r.1 < left s)

to_token-Progresses : (s : Lexer) → IsAt s → Progresses s (to_token s (scan_token s))
unfolding to_token
to_token-Progresses s a = elim (scan_token-Consumes s a) [
  | inl (z, e) ↦ rw e (record { moves = Moves-refl a; eof_or_closer = inl refl })
  | inr c ↦ record { moves = c.advances.moves; eof_or_closer = inr c.advances.closer }
]

Progresses-after : {s t : Lexer} {r : Token × Lexer} → Moves s t → Progresses t r → Progresses s r
Progresses-after m p = record {
  moves = Moves-trans m p.moves;
  eof_or_closer = elim p.eof_or_closer [
    | inl e ↦ inl e
    | inr lt ↦ inr (omega (arith, m.no_further))
  ];
}

next_token_fuel-Progresses :
    (n : ℕ) (s : Lexer) → IsAt s → left s < n → Progresses s (next_token_fuel n s)
unfolding next_token_fuel to_token
next_token_fuel-Progresses zero s a h = elim h [ ]
next_token_fuel-Progresses (suc n) s a h =
    let m1 = skip_whitespace-Moves s a in
    let m2 = skip_comment-Moves (skip_whitespace s) m1.at in
    let s1 = skip_comment (skip_whitespace s) in
    let m = Moves-trans m1 m2 in
    elim (Bool-cases (at_dashes s1)) [
      | inl again ↦ rw again (
          let m3 = skip_comment-Moves s1 m2.at in
          Progresses-after (Moves-trans m m3) (
            next_token_fuel-Progresses n (skip_comment s1) m3.at
              (omega (arith, m1.no_further, m2.no_further, left-skip_comment s1 m2.at again))))
      | inr here ↦ rw here (Progresses-after m (to_token-Progresses s1 m2.at))
    ]

-- From every state that keeps the current character in step with the position, `nextToken` leaves
-- such a state over the same input, none of its loops runs out of fuel, and it either returns EOF or
-- has consumed a character.
pub next_token-Progresses : (s : Lexer) → IsAt s → Progresses s (next_token s)
unfolding next_token
next_token-Progresses s a =
    next_token_fuel-Progresses (suc (fuel s)) s a (omega (arith, left-le-fuel s))

-- The list ends with an EOF token and has no other.
pub EndsWithEof : List Token → Type 0
EndsWithEof [] = ⊥
EndsWithEof (t ∷ []) = t.type ≡ TokenType.eof_token
EndsWithEof (t ∷ u ∷ ts) = (t.type ≢ TokenType.eof_token) × EndsWithEof (u ∷ ts)

EndsWithEof-cons :
    (t : Token) (ts : List Token)
    → t.type ≢ TokenType.eof_token
    → EndsWithEof ts
    → EndsWithEof (t ∷ ts)
unfolding EndsWithEof
EndsWithEof-cons t [] h e = absurd e
EndsWithEof-cons t (u ∷ ts) h e = (h, e)

tokenize_fuel-EndsWithEof :
    (n : ℕ) (s : Lexer)
    → IsAt s
    → left s < n
    → s.exhausted ≡ false
    → (ts : List Token) × (tokenize_fuel n s ≡ some ts) × EndsWithEof ts
unfolding tokenize_fuel EndsWithEof
tokenize_fuel-EndsWithEof zero s a h f = elim h [ ]
tokenize_fuel-EndsWithEof (suc n) s a h f =
    let p = next_token-Progresses s a in
    let r = next_token s in
    let fine : r.1.exhausted ≡ false = p.moves.same_mark ∙ f in
    elim (Bool-cases (is_type r.0.type TokenType.eof_token)) [
      | inl e ↦ (r.0 ∷ [], rw (fine, e), (is_type_iff _ _).0 e)
      | inr ne ↦
          let not_eof : r.0.type ≢ TokenType.eof_token = λ z. cc (ne, (is_type_iff _ _).1 z) in
          let closer : left r.1 < left s = elim p.eof_or_closer [
            | inl z ↦ absurd (not_eof z)
            | inr lt ↦ lt
          ] in
          let (ts, found, ends) = tokenize_fuel-EndsWithEof n r.1 p.moves.at (omega arith) fine in
          (r.0 ∷ ts, rw (fine, ne, found), EndsWithEof-cons r.0 ts not_eof ends)
    ]

pub new_lexer-IsAt : (s : Bytes) → IsAt (new_lexer s)
unfolding new_lexer
new_lexer-IsAt s = read_char-IsAt (record {
  input = s;
  position = 0;
  read_position = 0;
  ch = 0;
  line = 1;
  column = 0;
  exhausted = false;
})

pub new_lexer_fresh : (s : Bytes) → (new_lexer s).exhausted ≡ false
unfolding new_lexer
new_lexer_fresh s = refl

-- The lexer after a number of calls of `nextToken`.
pub after_tokens : ℕ → Lexer → Lexer
after_tokens zero s = s
after_tokens (suc n) s = after_tokens n (next_token s).1

-- However many tokens are read, no loop of the lexer runs out of fuel.
pub after_tokens_fresh :
    (n : ℕ) (s : Lexer) → IsAt s → s.exhausted ≡ false → (after_tokens n s).exhausted ≡ false
unfolding after_tokens
after_tokens_fresh zero s a f = f
after_tokens_fresh (suc n) s a f =
    let p = next_token-Progresses s a in
    after_tokens_fresh n (next_token s).1 p.moves.at (p.moves.same_mark ∙ f)

-- `tokenize` ends for every input, and so does every loop of the lexer on the way: it returns a list
-- of tokens whose last is EOF, and no other is.
pub tokenize-EndsWithEof :
    (s : Bytes) → (ts : List Token) × (tokenize (new_lexer s) ≡ some ts) × EndsWithEof ts
unfolding tokenize
tokenize-EndsWithEof s =
    tokenize_fuel-EndsWithEof _ (new_lexer s) (new_lexer-IsAt s)
      (omega (arith, left-le-fuel (new_lexer s))) (new_lexer_fresh s)
