-- ===== src/Buffer/Valid.antt =====
-- The invariant of `Buffer`, and what the indices mean under it.
use tiny_sql.Prelude.{
  ℕ, ◌-◌, ◌≤◌, ◌++◌, ◌≡◌, sym, ap, arith, length, drop, Bytes, length-drop, length-append,
  drop-drop,
}
use tiny_sql.Buffer.{Buffer, readable_bytes, unread, advance}

pub record IsValid (b : Buffer) : Type 0 where
  pub read_le_write : b.read_index ≤ b.write_index
  pub write_eq_size : b.write_index ≡ length b.contents

pub readable_bytes-eq : (b : Buffer) → IsValid b → readable_bytes b ≡ b.write_index - b.read_index
unfolding readable_bytes
readable_bytes-eq b v = ground arith

-- What `readableBytes` counts is what `peek` points at.
pub readable_bytes-length : (b : Buffer) → IsValid b → readable_bytes b ≡ length (unread b)
readable_bytes-length b v =
    omega (arith, readable_bytes-eq b v, length-drop b.read_index b.contents)

pub unread-advance : (n : ℕ) (b : Buffer) → unread (advance n b) ≡ drop n (unread b)
unread-advance n b = sym (drop-drop n b.read_index b.contents)

pub IsValid-advance :
    (n : ℕ) (b : Buffer) → IsValid b → n ≤ length (unread b) → IsValid (advance n b)
IsValid-advance n b v h = record {
  read_le_write = omega (arith, length-drop b.read_index b.contents);
  write_eq_size = v.write_eq_size;
}

pub readable_bytes-ge :
    (b : Buffer) (input rest : Bytes)
    → IsValid b
    → unread b ≡ input ++ rest
    → length input ≤ readable_bytes b
readable_bytes-ge b input rest v e =
    omega (arith, readable_bytes-length b v, ap (length {0}) e, length-append {0} input rest)
