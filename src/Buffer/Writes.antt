-- ===== src/Buffer/Writes.antt =====
-- include/tiny_sql/common/buffer.h: what each write appends.
use tiny_sql.Prelude.{
  ℕ, ◌+◌, ◌/◌, ◌%◌, ◌^◌, [], ◌∷◌, ◌++◌, ◌≡◌, refl, ap, ◌∙◌, subst, arith, ltb, length, Bytes,
  length-append, drop-append, append_assoc, Bool-cases, inl, inr, ltb→lt,
}
use tiny_sql.Buffer.{
  empty, readable_bytes, Buffer, unread, put, write_uint8, write_uint16, write_uint32, write_uint64,
  write_bytes, append, write_string, write_null_terminated_string, write_lenenc_int,
  write_lenenc_string, write_lenenc3, get_lenenc_int_size, uint8_bytes, uint16_bytes, uint24_bytes,
  uint32_bytes, scatter,
}
use tiny_sql.Buffer.Valid.{IsValid, readable_bytes-length}
use tiny_sql.Buffer.Reads.{lenenc_bytes}

pub record Writes (f : Buffer → Buffer) (bytes : Bytes) : Type 0 where
  pub valid : (b : Buffer) → IsValid b → IsValid (f b)
  pub appends : (b : Buffer) → IsValid b → unread (f b) ≡ unread b ++ bytes

put-Writes : (bytes : Bytes) → Writes (put bytes) bytes
put-Writes bytes = record {
  valid = λ b v. record {
    read_le_write = omega (arith, v.read_le_write);
    write_eq_size = omega (arith, v.write_eq_size, length-append {0} b.contents bytes);
  };
  appends = λ b v.
      drop-append b.read_index b.contents bytes (omega (arith, v.read_le_write, v.write_eq_size));
}

-- Two writes in a row.
pub Writes-then :
    (f g : Buffer → Buffer) (s t : Bytes) → Writes f s → Writes g t → Writes (λ b. g (f b)) (s ++ t)
Writes-then f g s t wf wg = record {
  valid = λ b v. wg.valid (f b) (wf.valid b v);
  appends = λ b v.
      wg.appends (f b) (wf.valid b v)
      ∙ ap (λ (l : Bytes). l ++ t) (wf.appends b v)
      ∙ append_assoc (unread b) s t;
}

pub write_uint8-Writes : (x : ℕ) → Writes (write_uint8 x) (uint8_bytes x)
unfolding write_uint8
write_uint8-Writes x = put-Writes (uint8_bytes x)

pub write_uint16-Writes : (x : ℕ) → Writes (write_uint16 x) (uint16_bytes x)
unfolding write_uint16
write_uint16-Writes x = put-Writes (uint16_bytes x)

pub write_uint32-Writes : (x : ℕ) → Writes (write_uint32 x) (uint32_bytes x)
unfolding write_uint32
write_uint32-Writes x = put-Writes (uint32_bytes x)

pub write_uint64-Writes : (x : ℕ) → Writes (write_uint64 x) (scatter 8 0 x)
unfolding write_uint64
write_uint64-Writes x = put-Writes (scatter 8 0 x)

pub append-Writes : (s : Bytes) → Writes (append s) s
unfolding append
append-Writes s = put-Writes s

pub write_bytes-Writes : (s : Bytes) → Writes (write_bytes s) s
unfolding write_bytes
write_bytes-Writes s = put-Writes s

pub write_string-Writes : (s : Bytes) → Writes (write_string s) s
unfolding write_string
write_string-Writes s = put-Writes s

pub write_null_terminated_string-Writes :
    (s : Bytes) → Writes (write_null_terminated_string s) (s ++ 0 ∷ [])
unfolding write_null_terminated_string
write_null_terminated_string-Writes s =
    Writes-then (write_string s) (write_uint8 0) s (0 ∷ []) (write_string-Writes s)
      (write_uint8-Writes 0)

pub Writes-eq : {f : Buffer → Buffer} (s t : Bytes) → s ≡ t → Writes f s → Writes f t
Writes-eq {f} s t e w = subst (Writes f) e w

write_lenenc3-Writes : (x : ℕ) → Writes (write_lenenc3 x) (uint24_bytes x)
unfolding write_lenenc3
write_lenenc3-Writes x =
    let b0 = x % 2 ^ 8 in
    let b1 = x / 2 ^ 8 % 2 ^ 8 in
    let b2 = x / 2 ^ 16 % 2 ^ 8 in
    Writes-eq (b0 % 2 ^ 8 ∷ b1 % 2 ^ 8 ∷ b2 % 2 ^ 8 ∷ []) (uint24_bytes x) (ground arith) (
      Writes-then (λ b. write_uint8 b1 (write_uint8 b0 b)) (write_uint8 b2) _ _
        (Writes-then (write_uint8 b0) (write_uint8 b1) _ _ (write_uint8-Writes b0)
          (write_uint8-Writes b1))
        (write_uint8-Writes b2))

pub write_lenenc_int-Writes : (x : ℕ) → Writes (write_lenenc_int x) (lenenc_bytes x)
unfolding write_lenenc_int
write_lenenc_int-Writes x = elim (Bool-cases (ltb x 0xFB)) [
  | inl small ↦ rw small (
      Writes-eq (uint8_bytes x) (x ∷ []) (let h = ltb→lt x 0xFB small in ground arith)
        (write_uint8-Writes x))
  | inr large ↦ rw large (elim (Bool-cases (ltb x 0x10000)) [
    | inl two ↦ rw two (
        Writes-eq (0xFC ∷ uint16_bytes (x % 2 ^ 16)) (0xFC ∷ uint16_bytes x)
          (let h = ltb→lt x 0x10000 two in ground arith)
          (Writes-then (write_uint8 0xFC) (write_uint16 (x % 2 ^ 16)) _ _ (write_uint8-Writes 0xFC)
            (write_uint16-Writes (x % 2 ^ 16))))
    | inr more ↦ rw more (elim (Bool-cases (ltb x 0x1000000)) [
      | inl three ↦ rw three (
          Writes-then (write_uint8 0xFD) (write_lenenc3 x) _ _ (write_uint8-Writes 0xFD)
            (write_lenenc3-Writes x))
      | inr eight ↦ rw eight (
          Writes-then (write_uint8 0xFE) (write_uint64 x) _ _ (write_uint8-Writes 0xFE)
            (write_uint64-Writes x))
    ])
  ])
]

pub write_lenenc_string-Writes :
    (s : Bytes) → Writes (write_lenenc_string s) (lenenc_bytes (length s) ++ s)
unfolding write_lenenc_string
write_lenenc_string-Writes s =
    Writes-then (write_lenenc_int (length s)) (write_string s) (lenenc_bytes (length s)) s
      (write_lenenc_int-Writes (length s)) (write_string-Writes s)

-- What a write adds to the readable bytes.
pub readable_bytes-Writes :
    {f : Buffer → Buffer} (s : Bytes) (b : Buffer)
    → Writes f s
    → IsValid b
    → readable_bytes (f b) ≡ readable_bytes b + length s
readable_bytes-Writes {f} s b w v = omega (
  arith,
  readable_bytes-length b v,
  readable_bytes-length (f b) (w.valid b v),
  ap (length {0}) (w.appends b v),
  length-append {0} (unread b) s,
)

pub length-lenenc_bytes : (x : ℕ) → length (lenenc_bytes x) ≡ get_lenenc_int_size x
unfolding get_lenenc_int_size scatter
length-lenenc_bytes x = ground arith

-- `getLenencIntSize` is the number of readable bytes that `writeLenencInt` adds to a valid buffer.
pub get_lenenc_int_size-write :
    (x : ℕ) (b : Buffer)
    → IsValid b
    → readable_bytes (write_lenenc_int x b) ≡ readable_bytes b + get_lenenc_int_size x
get_lenenc_int_size-write x b v =
    readable_bytes-Writes (lenenc_bytes x) b (write_lenenc_int-Writes x) v
    ∙ ap (λ (n : ℕ). readable_bytes b + n) (length-lenenc_bytes x)

pub empty-IsValid : IsValid empty
unfolding empty
empty-IsValid = omega arith

pub unread-empty : unread empty ≡ []
unfolding empty
unread-empty = refl
