-- ===== src/Buffer/RoundTrip.antt =====
-- include/tiny_sql/common/buffer.h: reading what was written.
use tiny_sql.Prelude.{ℕ, ◌^◌, ◌<◌, [], ◌∷◌, ◌++◌, ◌≡◌, ap, ◌∙◌, length, Bytes, done}
use tiny_sql.Buffer.{
  Buffer, BufferM, unread, advance, write_null_terminated_string, write_lenenc_int,
  write_lenenc_string, read_lenenc_int, read_lenenc_string, read_null_terminated_string,
}
use tiny_sql.Buffer.Valid.{IsValid}
use tiny_sql.Buffer.Reads.{
  Reads, unread-after, IsValid-after, lenenc_bytes, HasNoNull, read_lenenc_int-Reads,
  read_lenenc_string-Reads, read_null_terminated_string-Reads,
}
use tiny_sql.Buffer.Writes.{
  Writes, write_lenenc_int-Writes, write_lenenc_string-Writes, write_null_terminated_string-Writes,
}

-- `m` returns `a` on `b`, and leaves a valid buffer in which `rest` is unread.
pub record Returns {A : Type 0} (m : BufferM A) (b : Buffer) (a : A) (rest : Bytes) : Type 0 where
  pub left : Buffer
  pub returned : m b ≡ done a left
  pub left_valid : IsValid left
  pub left_unread : unread left ≡ rest

pub Reads-Returns :
    {A : Type 0} (m : BufferM A) (b : Buffer) (a : A) (s rest : Bytes)
    → Reads m s a
    → IsValid b
    → unread b ≡ s ++ rest
    → Returns m b a rest
Reads-Returns m b a s rest r v e = record {
  left = advance (length s) b;
  returned = r b rest v e;
  left_valid = IsValid-after b s rest v e;
  left_unread = unread-after b s rest e;
}

-- Two writes onto a buffer that has been read to its end: the first value comes back, and the
-- second encoding is what is left.
pub read-write :
    {A : Type 0} (f g : Buffer → Buffer) (m : BufferM A) (s t : Bytes) (a : A) (b : Buffer)
    → Writes f s
    → Writes g t
    → Reads m s a
    → IsValid b
    → unread b ≡ []
    → Returns m (g (f b)) a t
read-write f g m s t a b wf wg r v e =
    Reads-Returns m (g (f b)) a s t r (wg.valid (f b) (wf.valid b v)) (
      wg.appends (f b) (wf.valid b v)
      ∙ ap (λ (l : Bytes). l ++ t) (wf.appends b v ∙ ap (λ (l : Bytes). l ++ s) e))

-- `writeLenencInt` then `writeLenencString` onto a buffer with nothing unread: `readLenencInt`
-- returns the number, for every 64-bit value, and the string's encoding is left.
pub read_lenenc_int-write :
    (x : ℕ) (s : Bytes) (b : Buffer)
    → x < 2 ^ 64
    → IsValid b
    → unread b ≡ []
    → Returns read_lenenc_int
        (write_lenenc_string s (write_lenenc_int x b))
        x
        (lenenc_bytes (length s) ++ s)
read_lenenc_int-write x s b h v e =
    read-write (write_lenenc_int x) (write_lenenc_string s) read_lenenc_int (lenenc_bytes x) _ x b
      (write_lenenc_int-Writes x) (write_lenenc_string-Writes s) (read_lenenc_int-Reads x h) v e

-- Two strings written by `writeLenencString`: the first is read back, and the second is left.
pub read_lenenc_string-write :
    (s t : Bytes) (b : Buffer)
    → length s < 2 ^ 64
    → IsValid b
    → unread b ≡ []
    → Returns read_lenenc_string
        (write_lenenc_string t (write_lenenc_string s b))
        s
        (lenenc_bytes (length t) ++ t)
read_lenenc_string-write s t b h v e =
    read-write (write_lenenc_string s) (write_lenenc_string t) read_lenenc_string
      (lenenc_bytes (length s) ++ s) _ s b (write_lenenc_string-Writes s)
      (write_lenenc_string-Writes t) (read_lenenc_string-Reads s h) v e

-- A string with no zero byte, written with its terminator, is read back, and what was written
-- behind it is left.
pub read_null_terminated_string-write :
    (s t : Bytes) (b : Buffer)
    → HasNoNull s
    → IsValid b
    → unread b ≡ []
    → Returns read_null_terminated_string
        (write_null_terminated_string t (write_null_terminated_string s b))
        s
        (t ++ 0 ∷ [])
read_null_terminated_string-write s t b h v e =
    read-write (write_null_terminated_string s) (write_null_terminated_string t)
      read_null_terminated_string (s ++ 0 ∷ []) _ s b (write_null_terminated_string-Writes s)
      (write_null_terminated_string-Writes t) (read_null_terminated_string-Reads s h) v e
