-- ===== src/Lexer/Consumes.antt =====
-- src/sql/lexer.cpp: the branches of `nextToken` and the input that they read.
use tiny_sql.Prelude.{
  ℕ, zero, suc, ◌<◌, ◌≤◌, Bool, true, false, not, ◌&&◌, ◌||◌, [], ◌≡◌, ◌≢◌, ◌⊎◌, inl, inr, refl,
  arith, ◌==◌, if◌then◌else◌, Bytes, Bool-cases, Option-cases, ==_iff,
}
use tiny_sql.Token.{TokenType}
use tiny_sql.Lexer.{
  Lexer, peek_char, read_char, fuel, number_end, string_end, read_string, Scanned, scan_string,
  scan_identifier, scan_number, scan_operator, single, scan_other, scan_token, is_letter, is_digit,
}
use tiny_sql.Lexer.Progress.{
  IsAt, left, ch-at_end, spent-Moves, Moves, Moves-refl, Moves-trans, read_char-IsAt,
  read_char-Moves, left-read_char, left-le-fuel, scan-Moves, left-scan,
}

-- `t` is `s` moved on by a character or more.
pub record Advances (s t : Lexer) : Type 0 where
  pub moves : Moves s t
  pub closer : left t < left s

Advances-then : {s t u : Lexer} → Advances s t → Moves t u → Advances s u
Advances-then a m = record {
  moves = Moves-trans a.moves m;
  closer = omega (arith, a.closer, m.no_further);
}

read_char-Advances : (s : Lexer) → IsAt s → s.ch ≢ 0 → Advances s (read_char s)
read_char-Advances s a h = record { moves = read_char-Moves a; closer = left-read_char s a h }

read_twice-Advances : (s : Lexer) → IsAt s → s.ch ≢ 0 → Advances s (read_char (read_char s))
read_twice-Advances s a h =
    Advances-then (read_char-Advances s a h) (read_char-Moves (read_char-IsAt s))

-- The lexer behind a token has moved on.
pub record Consumes (s : Lexer) (r : Scanned) : Type 0 where
  pub advances : Advances s r.2

Consumes-if :
    {s : Lexer} (b : Bool) {x y : Scanned}
    → (b ≡ true → Consumes s x)
    → (b ≡ false → Consumes s y)
    → Consumes s (if b then x else y)
Consumes-if true h k = h refl
Consumes-if false h k = k refl

-- The loop of `readNumber` stops at the end of the input.
number_stops :
    (d : Bool) (s : Lexer) → s.ch ≡ 0 → (is_digit s.ch || (s.ch == b'.' && not d)) ≡ false
unfolding is_digit
number_stops d s e = ground arith

number_end-Moves : (n : ℕ) (d : Bool) (s : Lexer) → IsAt s → left s ≤ n → Moves s (number_end n d s)
unfolding number_end
number_end-Moves zero d s a h = rw (number_stops d s (ch-at_end s a h)) (spent-Moves a)
number_end-Moves (suc n) d s a h = elim (Bool-cases (is_digit s.ch || (s.ch == b'.' && not d))) [
  | inl go ↦ rw go (
      Moves-trans (read_char-Moves a) (
        number_end-Moves n _ (read_char s) (read_char-IsAt s)
          (omega (arith, left-read_char s a (λ e. cc (number_stops d s e, go))))))
  | inr stop ↦ rw stop (Moves-refl a)
]

number_end-Advances :
    (n : ℕ) (s : Lexer)
    → IsAt s
    → s.ch ≢ 0
    → left s ≤ n
    → is_digit s.ch ≡ true
    → Advances s (number_end n false s)
unfolding number_end
number_end-Advances zero s a h lt d = absurd (h (ch-at_end s a lt))
number_end-Advances (suc n) s a h lt d = rw d (
    Advances-then (read_char-Advances s a h)
      (number_end-Moves n _ (read_char s) (read_char-IsAt s) (omega (arith, left-read_char s a h))))

-- The test of the loop of `readString` fails at the end of the input.
string_stops : (quote : ℕ) (s : Lexer) → s.ch ≡ 0 → (not (s.ch == quote) && not (s.ch == 0)) ≡ false
string_stops quote s e = ground arith

-- A round of the loop reads the character, and the one behind a backslash.
escaped-Advances :
    (s : Lexer)
    → IsAt s
    → s.ch ≢ 0
    → Advances s (read_char (if s.ch == b'\\' then read_char s else s))
escaped-Advances s a h = elim (Bool-cases (s.ch == b'\\')) [
  | inl e ↦ rw e (read_twice-Advances s a h)
  | inr e ↦ rw e (read_char-Advances s a h)
]

string_end-Moves :
    (n quote : ℕ) (result : Bytes) (s : Lexer)
    → IsAt s
    → left s ≤ n
    → Moves s (string_end n quote result s).1
unfolding string_end
string_end-Moves zero quote result s a h =
    rw (string_stops quote s (ch-at_end s a h)) (spent-Moves a)
string_end-Moves (suc n) quote result s a h =
    elim (Bool-cases (not (s.ch == quote) && not (s.ch == 0))) [
      | inl go ↦ rw go (
          let closer = escaped-Advances s a (λ e. cc (string_stops quote s e, go)) in
          Moves-trans closer.moves
            (string_end-Moves n quote _ _ closer.moves.at (omega (arith, closer.closer))))
      | inr stop ↦ rw stop (Moves-refl a)
    ]

scan_string-Advances : (s : Lexer) → IsAt s → s.ch ≢ 0 → Advances s (scan_string s).2
unfolding scan_string read_string
scan_string-Advances s a h =
    let m =
      string_end-Moves (fuel s) s.ch [] (read_char s) (read_char-IsAt s)
        (omega (arith, left-read_char s a h, left-le-fuel s)) in
    Advances-then (read_char-Advances s a h) (Moves-trans m (read_char-Moves m.at))

name_stops : (s : Lexer) → s.ch ≡ 0 → (is_letter s.ch || is_digit s.ch) ≡ false
unfolding is_letter is_digit
name_stops s e = ground arith

scan_identifier-Advances :
    (s : Lexer) → IsAt s → is_letter s.ch ≡ true → Advances s (scan_identifier s).2
unfolding scan_identifier
scan_identifier-Advances s a l = record {
  moves = scan-Moves _ name_stops (fuel s) s a (left-le-fuel s);
  closer = left-scan _ name_stops (fuel s) s a (left-le-fuel s) (rw l);
}

scan_number-Advances :
    (s : Lexer) → IsAt s → s.ch ≢ 0 → is_digit s.ch ≡ true → Advances s (scan_number s).2
unfolding scan_number
scan_number-Advances s a h d = number_end-Advances (fuel s) s a h (left-le-fuel s) d

scan_operator-Consumes : (s : Lexer) → IsAt s → s.ch ≢ 0 → Consumes s (scan_operator s)
unfolding scan_operator
scan_operator-Consumes s a h =
    let short = read_char-Advances s a h in
    let long = read_twice-Advances s a h in
    let eq = peek_char s == b'=' in
    Consumes-if (s.ch == b'!')
      (λ _. Consumes-if eq (λ _. record { advances = long }) (λ _. record { advances = short }))
      (λ _.
        Consumes-if (s.ch == b'<')
          (λ _.
            Consumes-if eq (λ _. record { advances = long })
              (λ _.
                Consumes-if (peek_char s == b'>') (λ _. record { advances = long })
                  (λ _. record { advances = short })))
          (λ _.
            Consumes-if eq (λ _. record { advances = long }) (λ _. record { advances = short })))

scan_other-Consumes : (s : Lexer) → IsAt s → s.ch ≢ 0 → Consumes s (scan_other s)
unfolding scan_other
scan_other-Consumes s a h =
    Consumes-if (s.ch == b'!' || s.ch == b'<' || s.ch == b'>') (λ _. scan_operator-Consumes s a h)
      (λ _.
        Consumes-if (s.ch == b'\'' || s.ch == b'"')
          (λ _. record { advances = scan_string-Advances s a h })
          (λ _.
            Consumes-if (is_letter s.ch) (λ l. record { advances = scan_identifier-Advances s a l })
              (λ _.
                Consumes-if (is_digit s.ch)
                  (λ d. record { advances = scan_number-Advances s a h d })
                  (λ _. record { advances = read_char-Advances s a h }))))

-- At the end of the input the token is EOF and nothing moves. Elsewhere the lexer moves on.
pub scan_token-Consumes :
    (s : Lexer)
    → IsAt s
    → ((s.ch ≡ 0) × (scan_token s ≡ (TokenType.eof_token, [], s))) ⊎ Consumes s (scan_token s)
unfolding scan_token
scan_token-Consumes s a = elim (Bool-cases (s.ch == 0)) [
  | inl e ↦ inl ((==_iff s.ch 0).0 e, rw e)
  | inr ne ↦
      let h : s.ch ≢ 0 = λ z. cc (ne, (==_iff s.ch 0).1 z) in
      inr (
        rw ne (elim (Option-cases (single s.ch)) [
          | inl e ↦ rw e (scan_other-Consumes s a h)
          | inr (t, e) ↦ rw e (record { advances = read_char-Advances s a h })
        ]))
]
