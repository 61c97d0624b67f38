-- ===== src/Buffer.antt =====
-- include/tiny_sql/common/buffer.h: the byte buffer that every packet is read from and written to.
--
-- `Buffer` has the class's members `data_` (`contents`), `read_index_` and `write_index_`. The
-- capacity of the vector is the allocator's: `ensureWritable` changes nothing else, so it has no
-- place here. A method that may throw is a function into `Outcome`, and a throw keeps what the
-- method had changed before. The bytes of a word do not overlap, so `|` of shifted bytes is `+`.
-- `readFromFd` and `writeToFd`, which call the system, are in Buffer/System.
pub mod Valid
pub mod Reads
pub mod Writes
pub mod RoundTrip
pub mod System
pub mod Methods
mod Tests
use mathlib.Core.Option
use tiny_sql.Prelude.{
  ℕ, zero, suc, ◌+◌, ◌-◌, ◌*◌, ◌/◌, ◌%◌, ◌^◌, Bool, true, false, Option, none, some, List, [], ◌∷◌,
  ◌++◌, ltb, leb, ◌==◌, if◌then◌else◌, length, get_or, take, drop, Bytes, Outcome, done, thrown,
  pure, throw, ◌>>=◌, ◌>>◌,
}

pub record Buffer : Type 0 where
  pub contents : Bytes
  pub read_index : ℕ
  pub write_index : ℕ

-- The `std::runtime_error` that a method throws, one name for each message.
pub data BufferError : Type 0 where
  short_uint8 short_uint16 short_uint32 short_uint64 : BufferError
  short_bytes short_string no_null_terminator : BufferError
  short_lenenc short_lenenc3 invalid_lenenc : BufferError
  short_skip short_retrieve invalid_reader_index : BufferError

abbrev pub BufferM : Type 0 → Type 0
BufferM A = Buffer → Outcome BufferError Buffer A

pub empty : Buffer
empty = record { contents = []; read_index = 0; write_index = 0 }

-- The constructors from a vector and from a string.
pub of_bytes : Bytes → Buffer
of_bytes bytes = record { contents = bytes; read_index = 0; write_index = length bytes }

-- `size_t` subtraction wraps.
unfoldable pub sub_size : ℕ → ℕ → ℕ
sub_size a b = if leb b a then a - b else a + 2 ^ 64 - b

unfoldable pub readable_bytes : Buffer → ℕ
unfolding sub_size
readable_bytes b = sub_size b.write_index b.read_index

-- `data_[read_index_ + i]`; the default stands for a read out of bounds.
pub byte_at : Buffer → ℕ → ℕ
byte_at b i = get_or b.contents (b.read_index + i) 0

-- `peek()`, as the bytes from the read index on.
abbrev pub unread : Buffer → Bytes
unread b = drop b.read_index b.contents

abbrev pub advance : ℕ → Buffer → Buffer
advance n b = record b { read_index = b.read_index + n }

abbrev move : ℕ → BufferM (Unit {0})
move n b = done tt (advance n b)

-- `if (readableBytes() < n) throw …`
abbrev require : ℕ → BufferError → BufferM (Unit {0})
require n e b = if ltb (readable_bytes b) n then thrown e b else done tt b

abbrev look : {A : Type 0} → (Buffer → A) → BufferM A
look f b = done (f b) b

unfoldable pub peek_uint8 : BufferM ℕ
unfolding readable_bytes byte_at
peek_uint8 = do require 1 short_uint8; look (λ b. byte_at b 0)

unfoldable pub peek_uint16 : BufferM ℕ
unfolding readable_bytes byte_at
peek_uint16 = do require 2 short_uint16; look (λ b. byte_at b 0 + byte_at b 1 * 2 ^ 8)

unfoldable pub peek_uint32 : BufferM ℕ
unfolding readable_bytes byte_at
peek_uint32 = do
  require 4 short_uint32
  look (λ b. byte_at b 0 + byte_at b 1 * 2 ^ 8 + byte_at b 2 * 2 ^ 16 + byte_at b 3 * 2 ^ 24)

unfoldable pub read_uint8 : BufferM ℕ
unfolding peek_uint8
read_uint8 = do val ← peek_uint8; move 1; pure val

unfoldable pub read_uint16 : BufferM ℕ
unfolding peek_uint16
read_uint16 = do val ← peek_uint16; move 2; pure val

unfoldable pub read_uint32 : BufferM ℕ
unfolding peek_uint32
read_uint32 = do val ← peek_uint32; move 4; pure val

-- The loop of `readUint64`, with `n` rounds left.
gather : ℕ → ℕ → ℕ → Buffer → ℕ
unfolding byte_at
gather zero i val b = val
gather (suc n) i val b = gather n (i + 1) (val + byte_at b i * 2 ^ (i * 8)) b

unfoldable pub read_uint64 : BufferM ℕ
unfolding readable_bytes gather
read_uint64 = do require 8 short_uint64; val ← look (gather 8 0 0); move 8; pure val

-- `n` bytes from the read index on, which is then moved over them: `readBytes`, `readString` and
-- `retrieve`, which differ in the message of their exception.
abbrev take_bytes : ℕ → BufferError → BufferM Bytes
take_bytes n e = do require n e; result ← look (λ b. take n (unread b)); move n; pure result

unfoldable pub read_bytes : ℕ → BufferM Bytes
unfolding readable_bytes
read_bytes n = take_bytes n short_bytes

unfoldable pub read_string : ℕ → BufferM Bytes
unfolding readable_bytes
read_string n = take_bytes n short_string

unfoldable pub retrieve : ℕ → BufferM Bytes
unfolding readable_bytes
retrieve n = take_bytes n short_retrieve

-- `memchr(start, 0, n)`, as the offset of the first zero byte.
unfoldable pub find_null : ℕ → Bytes → Option ℕ
find_null zero s = none
find_null (suc n) [] = none
find_null (suc n) (c ∷ s) =
    let rest = find_null n s in if c == 0 then some 0 else Option.map suc rest

unfoldable pub read_null_terminated_string : BufferM Bytes
unfolding readable_bytes find_null
read_null_terminated_string b = elim (find_null (readable_bytes b) (unread b)) [
  | none ↦ thrown no_null_terminator b
  | some len ↦ done (take len (unread b)) (advance (len + 1) b)
]

-- The three bytes behind 0xFD. The source calls `readUint8` three times in one expression, whose
-- order C++ leaves open; here the calls are made from left to right.
read_lenenc3 : BufferM ℕ
unfolding read_uint8 readable_bytes
read_lenenc3 = do
  require 3 short_lenenc3
  b0 ← read_uint8
  b1 ← read_uint8
  b2 ← read_uint8
  pure (b0 + b1 * 2 ^ 8 + b2 * 2 ^ 16)

-- The switch of `readLenencInt` on the first byte.
lenenc_tail : ℕ → BufferM ℕ
unfolding read_lenenc3 read_uint16 read_uint64
lenenc_tail first =
    if ltb first 0xFB
    then pure first
    else if first == 0xFC
    then read_uint16
    else if first == 0xFD
    then read_lenenc3
    else if first == 0xFE
    then read_uint64
    else throw invalid_lenenc

unfoldable pub read_lenenc_int : BufferM ℕ
unfolding lenenc_tail
read_lenenc_int = do require 1 short_lenenc; first ← read_uint8; lenenc_tail first

unfoldable pub read_lenenc_string : BufferM Bytes
read_lenenc_string = do len ← read_lenenc_int; read_string len

-- What a write adds at the end of the vector. The write index moves along.
abbrev put : Bytes → Buffer → Buffer
put bytes b = record b {
  contents = b.contents ++ bytes;
  write_index = b.write_index + length bytes;
}

-- The bytes of a word, least significant first: `val & 0xFF`, `(val >> 8) & 0xFF`, ….
abbrev pub uint8_bytes : ℕ → Bytes
uint8_bytes val = val % 2 ^ 8 ∷ []

abbrev pub uint16_bytes : ℕ → Bytes
uint16_bytes val = val % 2 ^ 8 ∷ val / 2 ^ 8 % 2 ^ 8 ∷ []

abbrev pub uint24_bytes : ℕ → Bytes
uint24_bytes val = val % 2 ^ 8 ∷ val / 2 ^ 8 % 2 ^ 8 ∷ val / 2 ^ 16 % 2 ^ 8 ∷ []

abbrev pub uint32_bytes : ℕ → Bytes
uint32_bytes val =
    val % 2 ^ 8 ∷ val / 2 ^ 8 % 2 ^ 8 ∷ val / 2 ^ 16 % 2 ^ 8 ∷ val / 2 ^ 24 % 2 ^ 8 ∷ []

-- The loop of `writeUint64`, with `n` rounds left.
unfoldable pub scatter : ℕ → ℕ → ℕ → Bytes
scatter zero i val = []
scatter (suc n) i val = val / 2 ^ (i * 8) % 2 ^ 8 ∷ scatter n (i + 1) val

unfoldable pub write_uint8 : ℕ → Buffer → Buffer
write_uint8 val = put (uint8_bytes val)

unfoldable pub write_uint16 : ℕ → Buffer → Buffer
write_uint16 val = put (uint16_bytes val)

unfoldable pub write_uint32 : ℕ → Buffer → Buffer
write_uint32 val = put (uint32_bytes val)

unfoldable pub write_uint64 : ℕ → Buffer → Buffer
unfolding scatter
write_uint64 val = put (scatter 8 0 val)

-- `writeBytes`, both overloads, and `append`, both overloads.
unfoldable pub write_bytes : Bytes → Buffer → Buffer
write_bytes bytes = put bytes

unfoldable pub append : Bytes → Buffer → Buffer
append bytes = put bytes

unfoldable pub write_string : Bytes → Buffer → Buffer
write_string str = put str

unfoldable pub write_null_terminated_string : Bytes → Buffer → Buffer
unfolding write_string write_uint8
write_null_terminated_string str b = write_uint8 0 (write_string str b)

-- The three bytes behind 0xFD.
write_lenenc3 : ℕ → Buffer → Buffer
unfolding write_uint8
write_lenenc3 val b =
    write_uint8 (val / 2 ^ 16 % 2 ^ 8)
      (write_uint8 (val / 2 ^ 8 % 2 ^ 8) (write_uint8 (val % 2 ^ 8) b))

unfoldable pub write_lenenc_int : ℕ → Buffer → Buffer
unfolding write_uint8 write_uint16 write_lenenc3 write_uint64
write_lenenc_int val =
    if ltb val 0xFB
    then write_uint8 val
    else if ltb val 0x10000
    then (λ b. write_uint16 (val % 2 ^ 16) (write_uint8 0xFC b))
    else if ltb val 0x1000000
    then (λ b. write_lenenc3 val (write_uint8 0xFD b))
    else (λ b. write_uint64 val (write_uint8 0xFE b))

unfoldable pub write_lenenc_string : Bytes → Buffer → Buffer
write_lenenc_string str b = write_string str (write_lenenc_int (length str) b)

unfoldable pub skip : ℕ → BufferM (Unit {0})
unfolding readable_bytes
skip n = do require n short_skip; move n

unfoldable pub reset : Buffer → Buffer
reset b = record { contents = []; read_index = 0; write_index = 0 }

-- Everything between the two indices; the buffer is empty afterwards.
unfoldable pub retrieve_all : Buffer → Bytes × Buffer
unfolding readable_bytes reset
retrieve_all b = (take (readable_bytes b) (unread b), reset b)

unfoldable pub set_reader_index : ℕ → BufferM (Unit {0})
set_reader_index index b =
    if ltb b.write_index index
    then thrown invalid_reader_index b
    else done tt (record b { read_index = index })

unfoldable pub get_lenenc_int_size : ℕ → ℕ
get_lenenc_int_size val =
    if ltb val 0xFB then 1 else if ltb val 0x10000 then 3 else if ltb val 0x1000000 then 4 else 9
