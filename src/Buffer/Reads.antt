-- ===== src/Buffer/Reads.antt =====
-- include/tiny_sql/common/buffer.h: the encodings that each read takes off the front.
use tiny_sql.Prelude.{
  ℕ, zero, suc, ◌+◌, ◌*◌, ◌/◌, ◌%◌, ◌^◌, ◌≤◌, ◌<◌, false, some, [], ◌∷◌, ◌++◌, ◌≡◌, ◌≢◌, refl, sym,
  ap, ◌∙◌, arith, ltb, if◌then◌else◌, length, get_or, take, drop, Bytes, length-append,
  drop-append_length, take-append_length, get_or-drop, le→ltb, append_assoc, done, ◌>>=◌, ◌>>◌,
  Bool-cases, inl, inr, ltb→lt, pure,
}
use tiny_sql.Buffer.{
  Buffer, BufferError, BufferM, readable_bytes, unread, advance, byte_at, read_uint8, read_uint16,
  read_uint32, read_uint64, uint16_bytes, uint24_bytes, uint32_bytes, scatter, read_string,
  retrieve, find_null, read_null_terminated_string, read_lenenc_int, read_lenenc_string,
  read_lenenc3, lenenc_tail, require, short_lenenc, short_lenenc3,
}
use tiny_sql.Buffer.Valid.{IsValid, readable_bytes-ge, unread-advance, IsValid-advance}

abbrev pub Reads : {A : Type 0} → BufferM A → Bytes → A → Type 0
Reads m input a =
    (b : Buffer) (rest : Bytes)
    → IsValid b
    → unread b ≡ input ++ rest
    → m b ≡ done a (advance (length input) b)

-- After such a read the rest is unread.
pub unread-after :
    (b : Buffer) (input rest : Bytes)
    → unread b ≡ input ++ rest
    → unread (advance (length input) b) ≡ rest
unread-after b input rest e =
    unread-advance (length input) b ∙ ap (drop (length input)) e ∙ drop-append_length input rest

pub IsValid-after :
    (b : Buffer) (input rest : Bytes)
    → IsValid b
    → unread b ≡ input ++ rest
    → IsValid (advance (length input) b)
IsValid-after b input rest v e =
    IsValid-advance (length input) b v
      (omega (arith, ap (length {0}) e, length-append {0} input rest))

pub byte_at-unread : (b : Buffer) (i : ℕ) (s : Bytes) → unread b ≡ s → byte_at b i ≡ get_or s i 0
unfolding byte_at
byte_at-unread b i s e =
    sym (get_or-drop b.read_index i b.contents 0) ∙ ap (λ (l : Bytes). get_or l i 0) e

module _ {A B : Type 0} (m : BufferM A) (f : A → BufferM B) where
  -- Two reads in a row.
  pub Reads-bind :
      (input more : Bytes) (a : A) (c : B)
      → Reads m input a
      → Reads (f a) more c
      → Reads (m >>= f) (input ++ more) c
  Reads-bind input more a c rm rf b rest v e =
      let e' = e ∙ append_assoc input more rest in
      let moved =
        rf (advance (length input) b) rest (IsValid-after b input (more ++ rest) v e')
          (unread-after b input (more ++ rest) e') in
      rw (rm b (more ++ rest) v e') (rw (length-append input more) (moved ∙ ground arith))

pub Reads-pure : {A : Type 0} (a : A) → Reads (pure a) [] a
Reads-pure a b rest v e = ground arith

-- The guard of a read passes when its bytes are there.
enough :
    (b : Buffer) (input rest : Bytes) (n : ℕ)
    → IsValid b
    → unread b ≡ input ++ rest
    → n ≤ length input
    → ltb (readable_bytes b) n ≡ false
enough b input rest n v e h =
    le→ltb (readable_bytes b) n (omega (arith, readable_bytes-ge b input rest v e))

pub read_uint8-Reads : (x : ℕ) → Reads read_uint8 (x ∷ []) x
unfolding read_uint8
read_uint8-Reads x b rest v e =
    rw (enough b (x ∷ []) rest 1 v e (omega arith)) (rw (byte_at-unread b 0 (x ∷ rest) e))

pub read_uint16-Reads : (x : ℕ) → x < 2 ^ 16 → Reads read_uint16 (uint16_bytes x) x
unfolding read_uint16
read_uint16-Reads x h b rest v e =
    rw (enough b (uint16_bytes x) rest 2 v e (omega arith)) (
      ap (λ n. done n (advance 2 b))
        (omega (arith, byte_at-unread b 0 _ e, byte_at-unread b 1 _ e)))

pub read_uint32-Reads : (x : ℕ) → x < 2 ^ 32 → Reads read_uint32 (uint32_bytes x) x
unfolding read_uint32
read_uint32-Reads x h b rest v e = rw (enough b (uint32_bytes x) rest 4 v e (omega arith)) (
    ap (λ n. done n (advance 4 b))
      (omega (
        arith,
        byte_at-unread b 0 _ e,
        byte_at-unread b 1 _ e,
        byte_at-unread b 2 _ e,
        byte_at-unread b 3 _ e,
      )))

-- The loop of `readUint64` takes the low bytes of a number, and so the whole of a 64-bit one.
pub read_uint64-Reads : (x : ℕ) → x < 2 ^ 64 → Reads read_uint64 (scatter 8 0 x) x
unfolding read_uint64 scatter
read_uint64-Reads x h b rest v e = rw (enough b (scatter 8 0 x) rest 8 v e (omega arith)) (
    ap (λ n. done n (advance 8 b))
      (omega (
        arith,
        byte_at-unread b 0 _ e,
        byte_at-unread b 1 _ e,
        byte_at-unread b 2 _ e,
        byte_at-unread b 3 _ e,
        byte_at-unread b 4 _ e,
        byte_at-unread b 5 _ e,
        byte_at-unread b 6 _ e,
        byte_at-unread b 7 _ e,
      )))

pub read_string-Reads : (s : Bytes) → Reads (read_string (length s)) s s
unfolding read_string
read_string-Reads s b rest v e = rw (enough b s rest (length s) v e (omega arith)) (
    ap (λ (t : Bytes). done t (advance (length s) b))
      (ap (take (length s)) e ∙ take-append_length s rest))

pub retrieve-Reads : (s : Bytes) → Reads (retrieve (length s)) s s
unfolding retrieve
retrieve-Reads s b rest v e = rw (enough b s rest (length s) v e (omega arith)) (
    ap (λ (t : Bytes). done t (advance (length s) b))
      (ap (take (length s)) e ∙ take-append_length s rest))

-- No byte of a string is zero.
abbrev pub HasNoNull : Bytes → Type 0
HasNoNull [] = Unit
HasNoNull (c ∷ s) = (c ≢ 0) × HasNoNull s

find_null-HasNoNull :
    (n : ℕ) (s rest : Bytes)
    → HasNoNull s
    → length s < n
    → find_null n (s ++ 0 ∷ rest) ≡ some (length s)
unfolding find_null
find_null-HasNoNull zero s rest h lt = elim lt [ ]
find_null-HasNoNull (suc n) [] rest h lt = refl
find_null-HasNoNull (suc n) (c ∷ s) rest h lt =
    ground (arith, find_null-HasNoNull n s rest h.1 (omega arith))

pub read_null_terminated_string-Reads :
    (s : Bytes) → HasNoNull s → Reads read_null_terminated_string (s ++ 0 ∷ []) s
unfolding read_null_terminated_string
read_null_terminated_string-Reads s h b rest v e =
    let e' = e ∙ append_assoc s (0 ∷ []) rest in
    let room : length s < readable_bytes b =
      omega (arith, readable_bytes-ge b (s ++ 0 ∷ []) rest v e, length-append {0} s (0 ∷ [])) in
    let found : find_null (readable_bytes b) (unread b) ≡ some (length s) =
      ap (find_null (readable_bytes b)) e' ∙ find_null-HasNoNull (readable_bytes b) s rest h room in
    let text : take (length s) (unread b) ≡ s =
      ap (take (length s)) e' ∙ take-append_length s (0 ∷ rest) in
    rw (found, read_null_terminated_string) (rw text (rw (length-append s (0 ∷ [])) (ground arith)))

-- The four encodings of `writeLenencInt`.
abbrev pub lenenc_bytes : ℕ → Bytes
lenenc_bytes x =
    if ltb x 0xFB
    then x ∷ []
    else if ltb x 0x10000
    then 0xFC ∷ uint16_bytes x
    else if ltb x 0x1000000
    then 0xFD ∷ uint24_bytes x
    else 0xFE ∷ scatter 8 0 x

Reads-require :
    {A : Type 0} (m : BufferM A) (n : ℕ) (err : BufferError) (input : Bytes) (a : A)
    → n ≤ length input
    → Reads m input a
    → Reads (require n err >> m) input a
Reads-require m n err input a h r b rest v e = rw (enough b input rest n v e h) (r b rest v e)

read_lenenc3-Reads : (x : ℕ) → x < 2 ^ 24 → Reads read_lenenc3 (uint24_bytes x) x
unfolding read_lenenc3
read_lenenc3-Reads x h =
    let b0 = x % 2 ^ 8 in
    let b1 = x / 2 ^ 8 % 2 ^ 8 in
    let b2 = x / 2 ^ 16 % 2 ^ 8 in
    let value : b0 + b1 * 2 ^ 8 + b2 * 2 ^ 16 ≡ x = omega arith in
    Reads-require _ 3 short_lenenc3 (uint24_bytes x) x (omega arith) (
      Reads-bind read_uint8 _ (b0 ∷ []) (b1 ∷ b2 ∷ []) b0 x (read_uint8-Reads b0) (
        Reads-bind read_uint8 _ (b1 ∷ []) (b2 ∷ []) b1 x (read_uint8-Reads b1)
          (λ b rest v e. rw (read_uint8-Reads b2 b rest v e) (rw value))))

lenenc_tail-Reads :
    (first x : ℕ) (more : Bytes)
    → Reads (lenenc_tail first) more x
    → Reads read_lenenc_int (first ∷ more) x
unfolding read_lenenc_int
lenenc_tail-Reads first x more r =
    Reads-require _ 1 short_lenenc (first ∷ more) x (omega arith)
      (Reads-bind read_uint8 lenenc_tail (first ∷ []) more first x (read_uint8-Reads first) r)

pub read_lenenc_int-Reads : (x : ℕ) → x < 2 ^ 64 → Reads read_lenenc_int (lenenc_bytes x) x
unfolding lenenc_tail
read_lenenc_int-Reads x h = elim (Bool-cases (ltb x 0xFB)) [
  | inl small ↦ rw small (lenenc_tail-Reads x x [] (λ b rest v e. rw small (ground arith)))
  | inr large ↦ rw large (elim (Bool-cases (ltb x 0x10000)) [
    | inl two ↦
        rw two
          (lenenc_tail-Reads 0xFC x (uint16_bytes x) (read_uint16-Reads x (ltb→lt x 0x10000 two)))
    | inr more ↦ rw more (elim (Bool-cases (ltb x 0x1000000)) [
      | inl three ↦ rw three (
          lenenc_tail-Reads 0xFD x (uint24_bytes x)
            (read_lenenc3-Reads x (ltb→lt x 0x1000000 three)))
      | inr eight ↦ rw eight (lenenc_tail-Reads 0xFE x (scatter 8 0 x) (read_uint64-Reads x h))
    ])
  ])
]

pub read_lenenc_string-Reads :
    (s : Bytes) → length s < 2 ^ 64 → Reads read_lenenc_string (lenenc_bytes (length s) ++ s) s
unfolding read_lenenc_string
read_lenenc_string-Reads s h =
    Reads-bind read_lenenc_int read_string (lenenc_bytes (length s)) s (length s) s
      (read_lenenc_int-Reads (length s) h) (read_string-Reads s)
