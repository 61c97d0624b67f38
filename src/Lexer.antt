-- ===== src/Lexer.antt =====
-- src/sql/lexer.cpp, include/tiny_sql/sql/lexer.h: the SQL lexer.
--
-- `Lexer` has the class's members, and the mark `exhausted`, which the class has not: a loop whose
-- fuel runs out before its test fails sets it. The loops run on as many rounds as the input has
-- bytes: each round reads a character, and each loop stops at the end of the input.
pub mod Progress
pub mod Consumes
pub mod Tokens
mod Tests
use tiny_sql.Prelude.{
  ℕ, zero, suc, ◌+◌, ◌-◌, Bool, true, false, not, ◌&&◌, ◌||◌, Option, none, some, List, [], ◌∷◌,
  ◌++◌, ltb, leb, ◌==◌, if◌then◌else◌, length, get_or, take, drop, Bytes,
}
use mathlib.Core.Option
use tiny_sql.Token.{TokenType, is_type, Token, lookup_keyword}

pub record Lexer : Type 0 where
  pub input : Bytes
  pub position : ℕ
  pub read_position : ℕ
  pub ch : ℕ
  pub line : ℕ
  pub column : ℕ
  pub exhausted : Bool

-- The character at an index; the end of the input and a zero byte are both `\0`.
abbrev pub char_at : Bytes → ℕ → ℕ
char_at s i = get_or s i 0

pub read_char : Lexer → Lexer
read_char s =
    let c = char_at s.input s.read_position in
    let newline = c == b'\n' in
    record s {
      position = s.read_position;
      read_position = s.read_position + 1;
      ch = c;
      line = if newline then s.line + 1 else s.line;
      column = if newline then 0 else s.column + 1;
    }

unfoldable pub new_lexer : Bytes → Lexer
unfolding read_char
new_lexer s = read_char (record {
  input = s;
  position = 0;
  read_position = 0;
  ch = 0;
  line = 1;
  column = 0;
  exhausted = false;
})

pub peek_char : Lexer → ℕ
peek_char s = char_at s.input s.read_position

abbrev within : ℕ → ℕ → ℕ → Bool
within lo hi c = leb lo c && leb c hi

pub is_letter : ℕ → Bool
is_letter c = within b'a' b'z' c || within b'A' b'Z' c || c == b'_'

pub is_digit : ℕ → Bool
is_digit c = within b'0' b'9' c

pub is_whitespace : ℕ → Bool
is_whitespace c = c == b' ' || c == b'\t' || c == b'\n' || c == b'\r'

-- The fuel of a loop has run out: the mark is set if the loop would go on.
pub out_of_rounds : Bool → Lexer → Lexer
out_of_rounds goes_on s = record s { exhausted = s.exhausted || goes_on }

-- `while (test()) readChar();`
pub scan : (Lexer → Bool) → ℕ → Lexer → Lexer
unfolding read_char out_of_rounds
scan test zero s = out_of_rounds (test s) s
scan test (suc n) s = let rest = scan test n (read_char s) in if test s then rest else s

abbrev fuel : Lexer → ℕ
fuel s = length s.input

pub skip_whitespace : Lexer → Lexer
unfolding scan is_whitespace
skip_whitespace s = scan (λ t. is_whitespace t.ch) (fuel s) s

in_line : Lexer → Bool
in_line t = not (t.ch == b'\n') && not (t.ch == 0)

-- A comment that runs to the end of its line, and the white space behind it.
skip_line : Lexer → Lexer
unfolding skip_whitespace in_line
skip_line s = skip_whitespace (scan in_line (fuel s) s)

in_block : Lexer → Bool
unfolding peek_char
in_block t = not (t.ch == 0) && not (t.ch == b'*' && peek_char t == b'/')

skip_block : Lexer → Lexer
unfolding skip_whitespace in_block
skip_block s =
    let opened = read_char (read_char s) in
    let t = scan in_block (fuel s) opened in
    skip_whitespace (if t.ch == 0 then t else read_char (read_char t))

pub at_dashes : Lexer → Bool
unfolding peek_char
at_dashes s = s.ch == b'-' && peek_char s == b'-'

at_block : Lexer → Bool
unfolding peek_char
at_block s = s.ch == b'/' && peek_char s == b'*'

-- The three kinds of comment, each tried once, in this order.
pub skip_comment : Lexer → Lexer
unfolding skip_line skip_block at_dashes at_block
skip_comment s =
    let s1 = if at_dashes s then skip_line s else s in
    let s2 = if at_block s1 then skip_block s1 else s1 in if s2.ch == b'#' then skip_line s2 else s2

-- `input_.substr(start, position_ - start)`
abbrev text_between : Lexer → Lexer → Bytes
text_between s t = take (t.position - s.position) (drop s.position s.input)

pub read_identifier : Lexer → Bytes × Lexer
unfolding scan is_letter is_digit
read_identifier s =
    let t = scan (λ t. is_letter t.ch || is_digit t.ch) (fuel s) s in (text_between s t, t)

-- The test of the loop of `readNumber`; the flag is `has_dot`.
abbrev pub in_number : Bool → Lexer → Bool
in_number has_dot s = is_digit s.ch || (s.ch == b'.' && not has_dot)

pub number_end : ℕ → Bool → Lexer → Lexer
unfolding is_digit read_char out_of_rounds
number_end zero has_dot s = out_of_rounds (in_number has_dot s) s
number_end (suc n) has_dot s =
    let rest = number_end n (has_dot || s.ch == b'.') (read_char s) in
    if in_number has_dot s then rest else s

pub read_number : Lexer → Bytes × Lexer
unfolding number_end
read_number s = let t = number_end (fuel s) false s in (text_between s t, t)

-- The character that a backslash stands for with `c` behind it.
pub unescape : ℕ → ℕ
unescape c =
    if c == b'n' then b'\n' else if c == b't' then b'\t' else if c == b'r' then b'\r' else c

-- The test of the loop of `readString`.
abbrev pub in_string : ℕ → Lexer → Bool
in_string quote s = not (s.ch == quote) && not (s.ch == 0)

pub string_end : ℕ → ℕ → Bytes → Lexer → Bytes × Lexer
unfolding unescape read_char out_of_rounds
string_end zero quote result s = (result, out_of_rounds (in_string quote s) s)
string_end (suc n) quote result s =
    let escaped = read_char s in
    let next = if s.ch == b'\\' then escaped else s in
    let c = if s.ch == b'\\' then unescape escaped.ch else s.ch in
    let rest = string_end n quote (result ++ c ∷ []) (read_char next) in
    if in_string quote s then rest else (result, s)

pub read_string : ℕ → Lexer → Bytes × Lexer
unfolding string_end
read_string quote s =
    let (result, t) = string_end (fuel s) quote [] (read_char s) in (result, read_char t)

abbrev pub Scanned : Type 0
Scanned = TokenType × Bytes × Lexer

-- A token of the current character, and of the current and the next one.
abbrev one : TokenType → Lexer → Scanned
one t s = (t, s.ch ∷ [], read_char s)

abbrev two : TokenType → Lexer → Scanned
two t s = let s' = read_char s in (t, s.ch ∷ s'.ch ∷ [], read_char s')

scan_string : Lexer → Scanned
unfolding read_string
scan_string s = let (literal, s') = read_string s.ch s in (TokenType.string, literal, s')

scan_identifier : Lexer → Scanned
unfolding read_identifier
scan_identifier s = let (literal, s') = read_identifier s in (lookup_keyword literal, literal, s')

scan_number : Lexer → Scanned
unfolding read_number
scan_number s = let (literal, s') = read_number s in (TokenType.number, literal, s')

-- The operators of one or two characters.
scan_operator : Lexer → Scanned
scan_operator s =
    let after = peek_char s in
    if s.ch == b'!'
    then (if after == b'=' then two TokenType.ne s else one TokenType.illegal s)
    else if s.ch == b'<'
    then if after == b'='
      then two TokenType.le s
      else if after == b'>'
      then two TokenType.ne s
      else one TokenType.lt s
    else if after == b'='
    then two TokenType.ge s
    else one TokenType.gt s

-- The characters that are a token by themselves.
single : ℕ → Option TokenType
single c =
    if c == b'+'
    then some TokenType.plus
    else if c == b'-'
    then some TokenType.minus
    else if c == b'*'
    then some TokenType.asterisk
    else if c == b'/'
    then some TokenType.slash
    else if c == b'%'
    then some TokenType.percent
    else if c == b'='
    then some TokenType.eq
    else if c == b','
    then some TokenType.comma
    else if c == b';'
    then some TokenType.semicolon
    else if c == b'.'
    then some TokenType.dot
    else if c == b'('
    then some TokenType.lparen
    else if c == b')'
    then some TokenType.rparen
    else none

scan_other : Lexer → Scanned
scan_other s =
    if s.ch == b'!' || s.ch == b'<' || s.ch == b'>'
    then scan_operator s
    else if s.ch == b'\'' || s.ch == b'"'
    then scan_string s
    else if is_letter s.ch
    then scan_identifier s
    else if is_digit s.ch
    then scan_number s
    else one TokenType.illegal s

-- The switch of `nextToken`, where no comment stands at the current character.
pub scan_token : Lexer → Scanned
scan_token s =
    if s.ch == 0
    then (TokenType.eof_token, [], s)
    else elim (single s.ch) [ some t ↦ one t s | none ↦ scan_other s ]

to_token : Lexer → Scanned → Token × Lexer
to_token at (t, literal, s) =
    (record { type = t; literal = literal; line = at.line; column = at.column }, s)

-- A `--` comment that still stands there is skipped, and the whole is done again.
pub next_token_fuel : ℕ → Lexer → Token × Lexer
next_token_fuel zero s = to_token s (TokenType.eof_token, [], out_of_rounds true s)
next_token_fuel (suc n) s =
    let s1 = skip_comment (skip_whitespace s) in
    let again = next_token_fuel n (skip_comment s1) in
    if at_dashes s1 then again else to_token s1 (scan_token s1)

unfoldable pub next_token : Lexer → Token × Lexer
unfolding next_token_fuel skip_whitespace skip_comment at_dashes scan_token to_token single
    scan_other scan_operator scan_string scan_identifier scan_number is_letter is_digit peek_char
    read_char out_of_rounds
next_token s = next_token_fuel (suc (fuel s)) s

-- `peekToken` runs `nextToken` and puts the five members back.
pub peek_token : Lexer → Token × Lexer
peek_token s =
    let (token, s') = next_token s in
    (
      token,
      record s' {
        position = s.position;
        read_position = s.read_position;
        ch = s.ch;
        line = s.line;
        column = s.column;
      },
    )

-- `tokenize`: all tokens up to the first EOF, which is the last. `none`: out of fuel, here or in a loop of
-- `nextToken`.
pub tokenize_fuel : ℕ → Lexer → Option (List Token)
unfolding is_type
tokenize_fuel zero s = none
tokenize_fuel (suc n) s =
    let (token, s') = next_token s in
    let rest = tokenize_fuel n s' in
    if s'.exhausted
    then none
    else if is_type token.type TokenType.eof_token
    then some (token ∷ [])
    else Option.map (◌∷◌ token) rest

pub tokenize : Lexer → Option (List Token)
tokenize s = tokenize_fuel (suc (suc (fuel s))) s
