-- ===== src/Lexer/Progress.antt =====
-- src/sql/lexer.cpp: the loops of the lexer, its white space and its comments.
use tiny_sql.Prelude.{
  ℕ, zero, suc, ◌+◌, ◌-◌, ◌<◌, ◌≤◌, Bool, true, false, ◌||◌, [], ◌∷◌, ◌≡◌, ◌≢◌, inl, inr, refl, ◌∙◌,
  arith, ◌==◌, if◌then◌else◌, length, Bytes, Bool-cases,
}
use tiny_sql.Lexer.{
  Lexer, new_lexer, read_char, out_of_rounds, char_at, scan, fuel, skip_whitespace, is_whitespace,
  in_line, skip_line, in_block, skip_block, at_dashes, at_block, skip_comment,
}

-- `ch_` is the character at `position_`, and `read_position_` stands behind it.
pub record IsAt (s : Lexer) : Type 0 where
  pub here : s.ch ≡ char_at s.input s.position
  pub ahead : s.read_position ≡ s.position + 1

-- The characters of the input from the current one on.
pub left : Lexer → ℕ
left s = length s.input - s.position

pub read_char-IsAt : (s : Lexer) → IsAt (read_char s)
unfolding read_char
read_char-IsAt s = omega arith

char_at-lt : (s : Bytes) (i : ℕ) → char_at s i ≢ 0 → i < length s
char_at-lt [] i h = absurd (h refl)
char_at-lt (c ∷ s) zero h = omega arith
char_at-lt (c ∷ s) (suc i) h = omega (arith, char_at-lt s i h)

char_at-out : (s : Bytes) (i : ℕ) → length s ≤ i → char_at s i ≡ 0
char_at-out [] i h = refl
char_at-out (c ∷ s) zero h = elim h [ ]
char_at-out (c ∷ s) (suc i) h = char_at-out s i (omega arith)

pub ch-at_end : (s : Lexer) → IsAt s → left s ≤ 0 → s.ch ≡ 0
unfolding left
ch-at_end s a h = a.here ∙ char_at-out s.input s.position (omega arith)

||-false : (b : Bool) → (b || false) ≡ b
||-false true = refl
||-false false = refl

-- `t` is `s` moved on in the same input, and no loop has run out of fuel on the way.
pub record Moves (s t : Lexer) : Type 0 where
  pub same_input : t.input ≡ s.input
  pub at : IsAt t
  pub same_mark : t.exhausted ≡ s.exhausted
  pub no_further : left t ≤ left s

pub Moves-refl : {s : Lexer} → IsAt s → Moves s s
Moves-refl a = record { same_input = refl; at = a; same_mark = refl; no_further = omega arith }

pub Moves-trans : {s t u : Lexer} → Moves s t → Moves t u → Moves s u
Moves-trans m n = record {
  same_input = n.same_input ∙ m.same_input;
  at = n.at;
  same_mark = n.same_mark ∙ m.same_mark;
  no_further = omega (arith, m.no_further, n.no_further);
}

pub read_char-Moves : {s : Lexer} → IsAt s → Moves s (read_char s)
unfolding left read_char
read_char-Moves a = record {
  same_input = refl;
  at = omega arith;
  same_mark = refl;
  no_further = omega (arith, a.ahead);
}

pub left-read_char : (s : Lexer) → IsAt s → s.ch ≢ 0 → left (read_char s) < left s
unfolding left read_char
left-read_char s a h = omega (arith, a.ahead, char_at-lt s.input s.position (λ e. h (a.here ∙ e)))

pub left-le-fuel : (s : Lexer) → left s ≤ fuel s
unfolding left
left-le-fuel s = omega arith

pub left-new_lexer : (s : Bytes) → left (new_lexer s) ≤ length s
unfolding left new_lexer read_char
left-new_lexer s = omega arith

-- A loop that is at its end when the fuel runs out.
pub spent-Moves : {s : Lexer} → IsAt s → Moves s (out_of_rounds false s)
unfolding left out_of_rounds
spent-Moves {s} a = record {
  same_input = refl;
  at = record { here = a.here; ahead = a.ahead };
  same_mark = ||-false s.exhausted;
  no_further = omega arith;
}

module _ (test : Lexer → Bool) (stops : (s : Lexer) → s.ch ≡ 0 → test s ≡ false) where
  pub scan-Moves : (n : ℕ) (s : Lexer) → IsAt s → left s ≤ n → Moves s (scan test n s)
  unfolding scan
  scan-Moves zero s a h = rw (stops s (ch-at_end s a h)) (spent-Moves a)
  scan-Moves (suc n) s a h = elim (Bool-cases (test s)) [
    | inl go ↦ rw go (
        Moves-trans (read_char-Moves a) (
          scan-Moves n (read_char s) (read_char-IsAt s)
            (omega (arith, left-read_char s a (λ e. cc (stops s e))))))
    | inr stop ↦ rw stop (Moves-refl a)
  ]

  -- With as many rounds as characters are left, the loop ends by its test.
  pub scan_ends : (n : ℕ) (s : Lexer) → IsAt s → left s ≤ n → test (scan test n s) ≡ false
  unfolding scan
  scan_ends zero s a h = stops _ (ch-at_end s a h)
  scan_ends (suc n) s a h = elim (Bool-cases (test s)) [
    | inl go ↦ rw go (
        scan_ends n (read_char s) (read_char-IsAt s)
          (omega (arith, left-read_char s a (λ e. cc (stops s e)))))
    | inr stop ↦ rw stop stop
  ]

  -- A round more, where the test passes at the start.
  pub left-scan :
      (n : ℕ) (s : Lexer) → IsAt s → left s ≤ n → test s ≡ true → left (scan test n s) < left s
  unfolding scan
  left-scan zero s a h go = cc (stops s (ch-at_end s a h))
  left-scan (suc n) s a h go = rw go (
      omega (
        arith,
        left-read_char s a (λ e. cc (stops s e)),
        (scan-Moves n (read_char s) (read_char-IsAt s)
            (omega (arith, left-read_char s a (λ e. cc (stops s e))))).no_further,
      ))

pub Moves-if : {s t u : Lexer} (b : Bool) → Moves s t → Moves s u → Moves s (if b then t else u)
Moves-if true m n = m
Moves-if false m n = n

whitespace_stops : (s : Lexer) → s.ch ≡ 0 → is_whitespace s.ch ≡ false
unfolding is_whitespace
whitespace_stops s e = ground arith

in_line_stops : (s : Lexer) → s.ch ≡ 0 → in_line s ≡ false
unfolding in_line
in_line_stops s e = ground arith

in_block_stops : (s : Lexer) → s.ch ≡ 0 → in_block s ≡ false
unfolding in_block
in_block_stops s e = ground arith

pub skip_whitespace-Moves : (s : Lexer) → IsAt s → Moves s (skip_whitespace s)
unfolding skip_whitespace
skip_whitespace-Moves s a = scan-Moves _ whitespace_stops (fuel s) s a (left-le-fuel s)

-- `skipWhitespace` ends at a character that is no white space, from every state that keeps the
-- current character in step with the position.
pub skip_whitespace_ends : (s : Lexer) → IsAt s → is_whitespace (skip_whitespace s).ch ≡ false
unfolding skip_whitespace
skip_whitespace_ends s a = scan_ends _ whitespace_stops (fuel s) s a (left-le-fuel s)

skip_line-Moves : (s : Lexer) → IsAt s → Moves s (skip_line s)
unfolding skip_line
skip_line-Moves s a =
    let m = scan-Moves in_line in_line_stops (fuel s) s a (left-le-fuel s) in
    Moves-trans m (skip_whitespace-Moves (scan in_line (fuel s) s) m.at)

read_twice-Moves : (s : Lexer) → IsAt s → Moves s (read_char (read_char s))
read_twice-Moves s a = Moves-trans (read_char-Moves a) (read_char-Moves (read_char-IsAt s))

skip_block-Moves : (s : Lexer) → IsAt s → Moves s (skip_block s)
unfolding skip_block
skip_block-Moves s a =
    let opened = read_twice-Moves s a in
    let m =
      scan-Moves in_block in_block_stops (fuel s) (read_char (read_char s)) opened.at
        (omega (arith, opened.no_further, left-le-fuel s)) in
    let t = scan in_block (fuel s) (read_char (read_char s)) in
    let closed = Moves-if (t.ch == 0) (Moves-refl m.at) (read_twice-Moves t m.at) in
    Moves-trans opened (Moves-trans m (Moves-trans closed (skip_whitespace-Moves _ closed.at)))

pub skip_comment-Moves : (s : Lexer) → IsAt s → Moves s (skip_comment s)
unfolding skip_comment
skip_comment-Moves s a =
    let m1 = Moves-if (at_dashes s) (skip_line-Moves s a) (Moves-refl a) in
    let s1 = if at_dashes s then skip_line s else s in
    let m2 = Moves-if (at_block s1) (skip_block-Moves s1 m1.at) (Moves-refl m1.at) in
    let s2 = if at_block s1 then skip_block s1 else s1 in
    Moves-trans m1
      (Moves-trans m2 (Moves-if (s2.ch == b'#') (skip_line-Moves s2 m2.at) (Moves-refl m2.at)))

dashes-in_line : (s : Lexer) → at_dashes s ≡ true → in_line s ≡ true
unfolding at_dashes in_line
dashes-in_line s h = ground arith

-- A `--` comment is not skipped without reading a character.
pub left-skip_comment : (s : Lexer) → IsAt s → at_dashes s ≡ true → left (skip_comment s) < left s
unfolding skip_comment
left-skip_comment s a h =
    let go : in_line s ≡ true = dashes-in_line s h in
    let m = scan-Moves in_line in_line_stops (fuel s) s a (left-le-fuel s) in
    let m1 = skip_whitespace-Moves (scan in_line (fuel s) s) m.at in
    let s1 = skip_line s in
    let m2 = Moves-if (at_block s1) (skip_block-Moves s1 m1.at) (Moves-refl m1.at) in
    let s2 = if at_block s1 then skip_block s1 else s1 in
    let m3 = Moves-if (s2.ch == b'#') (skip_line-Moves s2 m2.at) (Moves-refl m2.at) in
    rw h (
      omega (
        arith,
        left-scan in_line in_line_stops (fuel s) s a (left-le-fuel s) go,
        m1.no_further,
        m2.no_further,
        m3.no_further,
      ))
