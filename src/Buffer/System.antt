-- ===== src/Buffer/System.antt =====
-- src/common/buffer.cpp: the two methods of `Buffer` that call the system.
--
-- What the system answers is an argument: the bytes that `::readv` delivers, or how many bytes
-- `::write` takes, and `none` for -1. The capacity of the vector is an argument of `read_from_fd`.
-- `::readv` puts the first bytes into the spare capacity, behind the contents of the vector, and
-- the others into `extrabuf`.
use tiny_sql.Prelude.{
  ℕ, ◌+◌, ◌-◌, ◌<◌, ◌≤◌, Option, none, some, ◌∷◌, ◌≡◌, leb, ltb, if◌then◌else◌, length, drop, Bytes,
  arith, length-drop, length-append, Bool-cases, inl, inr,
}
use tiny_sql.Buffer.{Buffer, advance, sub_size, write_bytes, readable_bytes}
use tiny_sql.Buffer.Valid.{IsValid, IsValid-advance, readable_bytes-length}

-- `readFromFd`
unfoldable pub read_from_fd : ℕ → Option Bytes → Buffer → Option ℕ × Buffer
unfolding write_bytes sub_size
read_from_fd capacity none b = (none, b)
read_from_fd capacity (some bytes) b =
    let writable = sub_size capacity b.write_index in
    let n = length bytes in
    (
      some n,
      if leb n writable
          then record b { write_index = b.write_index + n }
          else write_bytes (drop writable bytes) (record b { write_index = capacity }),
    )

-- `writeToFd`
unfoldable pub write_to_fd : Option ℕ → Buffer → Option ℕ × Buffer
write_to_fd none b = (none, b)
write_to_fd (some n) b = (some n, if ltb 0 n then advance n b else b)

-- The system takes no more than it is given.
abbrev pub taken : ℕ → Buffer → ℕ
taken n b = if leb n (readable_bytes b) then n else readable_bytes b

taken-le : (n : ℕ) (b : Buffer) → taken n b ≤ readable_bytes b
taken-le n b = ground arith

pub write_to_fd-IsValid :
    (n : ℕ) (b : Buffer) → IsValid b → IsValid (write_to_fd (some (taken n b)) b).1
unfolding write_to_fd
write_to_fd-IsValid n b v = elim (Bool-cases (ltb 0 (taken n b))) [
  | inl e ↦
      rw e
        (IsValid-advance (taken n b) b v (omega (arith, taken-le n b, readable_bytes-length b v)))
  | inr e ↦ rw e v
]

spare :
    (capacity : ℕ) (b : Buffer)
    → b.write_index < capacity
    → sub_size capacity b.write_index ≡ capacity - b.write_index
unfolding sub_size
spare capacity b h = ground arith

-- With spare capacity, the first byte that arrives lies behind the contents.
pub read_from_fd-broken :
    (capacity c : ℕ) (bytes : Bytes) (b : Buffer)
    → IsValid b
    → b.write_index < capacity
    → ¬ IsValid (read_from_fd capacity (some (c ∷ bytes)) b).1
unfolding read_from_fd write_bytes
read_from_fd-broken capacity c bytes b v h =
    let writable = sub_size capacity b.write_index in
    let rest = drop writable (c ∷ bytes) in
    elim (Bool-cases (leb (length (c ∷ bytes)) writable)) [
      | inl e ↦ rw e (λ w. omega (arith, w.write_eq_size, v.write_eq_size))
      | inr e ↦ rw e (λ w. omega (
        arith,
        w.write_eq_size,
        v.write_eq_size,
        spare capacity b h,
        length-append {0} b.contents rest,
        length-drop writable (c ∷ bytes),
      ))
    ]
