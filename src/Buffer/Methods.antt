-- ===== src/Buffer/Methods.antt =====
-- include/tiny_sql/common/buffer.h: sequences of the class's public methods.
use tiny_sql.Prelude.{
  ℕ, zero, suc, ◌+◌, ◌<◌, Bool, true, false, some, List, [], ◌∷◌, ◌≡◌, arith, ltb, ◌==◌,
  if◌then◌else◌, length, Bytes, Outcome, done, thrown, after, continue, ◌>>=◌, Bool-cases, inl, inr,
  ltb→le, Option-cases,
}
use tiny_sql.Buffer
use tiny_sql.Buffer.{
  Buffer, BufferError, BufferM, readable_bytes, unread, advance, look, move, require, find_null,
  read_lenenc3, lenenc_tail,
}
use tiny_sql.Buffer.System
use tiny_sql.Buffer.Valid.{IsValid, readable_bytes-length, IsValid-advance}
use tiny_sql.Buffer.Writes.{
  write_uint8-Writes, write_uint16-Writes, write_uint32-Writes, write_uint64-Writes,
  write_bytes-Writes, append-Writes, write_string-Writes, write_null_terminated_string-Writes,
  write_lenenc_int-Writes, write_lenenc_string-Writes,
}

-- The methods that change the buffer, with their arguments, but `readFromFd`. For `writeToFd` the
-- argument is what the system would take if it were given enough.
pub data Method : Type 0 where
  write_uint8 write_uint16 write_uint32 write_uint64 write_lenenc_int : ℕ → Method
  write_bytes write_string write_null_terminated_string write_lenenc_string append : Bytes → Method
  read_uint8 read_uint16 read_uint32 read_uint64 read_lenenc_int : Method
  read_lenenc_string read_null_terminated_string : Method
  read_bytes read_string retrieve skip set_reader_index : ℕ → Method
  reset retrieve_all : Method
  write_to_fd : ℕ → Method

abbrev Safe : {A : Type 0} → BufferM A → Type 0
Safe m = (b : Buffer) → IsValid b → IsValid (after (m b))

continue-IsValid :
    {A B : Type 0} (o : Outcome BufferError Buffer A) (f : A → BufferM B)
    → IsValid (after o)
    → ((a : A) → Safe (f a))
    → IsValid (after (continue o f))
continue-IsValid (done a s) f v h = h a s v
continue-IsValid (thrown e s) f v h = v

Safe-bind :
    {A B : Type 0} (m : BufferM A) (f : A → BufferM B)
    → Safe m
    → ((a : A) → Safe (f a))
    → Safe (m >>= f)
Safe-bind m f hm hf b v = continue-IsValid (m b) f (hm b v) hf

Safe-require : (n : ℕ) (e : BufferError) → Safe (require n e)
Safe-require n e b v = elim (Bool-cases (ltb (readable_bytes b) n)) [
  | inl short ↦ rw short v
  | inr room ↦ rw room v
]

-- A read that throws if fewer than `n` bytes are readable, and moves over them otherwise.
guarded-IsValid :
    {A : Type 0} (n : ℕ) (b : Buffer) (o : Outcome BufferError Buffer A)
    → IsValid b
    → (ltb (readable_bytes b) n ≡ true → after o ≡ b)
    → (ltb (readable_bytes b) n ≡ false → after o ≡ advance n b)
    → IsValid (after o)
guarded-IsValid n b o v short room = elim (Bool-cases (ltb (readable_bytes b) n)) [
  | inl h ↦ rw (short h) v
  | inr h ↦ rw (room h) (
      IsValid-advance n b v
        (omega (arith, ltb→le (readable_bytes b) n h, readable_bytes-length b v)))
]

read_uint8-Safe : Safe Buffer.read_uint8
unfolding Buffer.read_uint8
read_uint8-Safe b v = guarded-IsValid 1 b (Buffer.read_uint8 b) v (λ h. rw h) (λ h. rw h)

read_uint16-Safe : Safe Buffer.read_uint16
unfolding Buffer.read_uint16
read_uint16-Safe b v = guarded-IsValid 2 b (Buffer.read_uint16 b) v (λ h. rw h) (λ h. rw h)

read_uint32-Safe : Safe Buffer.read_uint32
unfolding Buffer.read_uint32
read_uint32-Safe b v = guarded-IsValid 4 b (Buffer.read_uint32 b) v (λ h. rw h) (λ h. rw h)

read_uint64-Safe : Safe Buffer.read_uint64
unfolding Buffer.read_uint64
read_uint64-Safe b v = guarded-IsValid 8 b (Buffer.read_uint64 b) v (λ h. rw h) (λ h. rw h)

read_bytes-Safe : (n : ℕ) → Safe (Buffer.read_bytes n)
unfolding Buffer.read_bytes
read_bytes-Safe n b v = guarded-IsValid n b (Buffer.read_bytes n b) v (λ h. rw h) (λ h. rw h)

read_string-Safe : (n : ℕ) → Safe (Buffer.read_string n)
unfolding Buffer.read_string
read_string-Safe n b v = guarded-IsValid n b (Buffer.read_string n b) v (λ h. rw h) (λ h. rw h)

retrieve-Safe : (n : ℕ) → Safe (Buffer.retrieve n)
unfolding Buffer.retrieve
retrieve-Safe n b v = guarded-IsValid n b (Buffer.retrieve n b) v (λ h. rw h) (λ h. rw h)

skip-Safe : (n : ℕ) → Safe (Buffer.skip n)
unfolding Buffer.skip
skip-Safe n b v = guarded-IsValid n b (Buffer.skip n b) v (λ h. rw h) (λ h. rw h)

set_reader_index-Safe : (n : ℕ) → Safe (Buffer.set_reader_index n)
unfolding Buffer.set_reader_index
set_reader_index-Safe n b v = ground arith

find_null-lt : (n len : ℕ) (s : Bytes) → find_null n s ≡ some len → len < length s
unfolding find_null
find_null-lt zero len s h = cc
find_null-lt (suc n) len [] h = cc
find_null-lt (suc n) zero (c ∷ s) h = omega arith
find_null-lt (suc n) (suc len) (c ∷ s) h = ground (arith, find_null-lt n len s)

read_null_terminated_string-Safe : Safe Buffer.read_null_terminated_string
unfolding Buffer.read_null_terminated_string
read_null_terminated_string-Safe b v =
    elim (Option-cases (find_null (readable_bytes b) (unread b))) [
      | inl h ↦ rw (h, Buffer.read_null_terminated_string) v
      | inr (len, h) ↦
          rw (h, Buffer.read_null_terminated_string)
            (IsValid-advance (len + 1) b v
              (omega (arith, find_null-lt (readable_bytes b) len (unread b) h)))
    ]

read_lenenc3-Safe : Safe read_lenenc3
unfolding read_lenenc3
read_lenenc3-Safe = Safe-bind (require 3 Buffer.short_lenenc3) _ (Safe-require 3 _) λ _.
    Safe-bind Buffer.read_uint8 _ read_uint8-Safe λ _.
      Safe-bind Buffer.read_uint8 _ read_uint8-Safe
        λ _. Safe-bind Buffer.read_uint8 _ read_uint8-Safe λ _ b v. v

Safe-if : {A : Type 0} (t : Bool) (m k : BufferM A) → Safe m → Safe k → Safe (if t then m else k)
Safe-if true m k hm hk = hm
Safe-if false m k hm hk = hk

lenenc_tail-Safe : (first : ℕ) → Safe (lenenc_tail first)
unfolding lenenc_tail
lenenc_tail-Safe first =
    Safe-if (ltb first 0xFB) _ _ (λ b v. v)
      (Safe-if (first == 0xFC) _ _ read_uint16-Safe (
        Safe-if (first == 0xFD) _ _ read_lenenc3-Safe
          (Safe-if (first == 0xFE) _ _ read_uint64-Safe (λ b v. v))))

read_lenenc_int-Safe : Safe Buffer.read_lenenc_int
unfolding Buffer.read_lenenc_int
read_lenenc_int-Safe =
    Safe-bind (require 1 Buffer.short_lenenc) _ (Safe-require 1 _)
      λ _. Safe-bind Buffer.read_uint8 _ read_uint8-Safe lenenc_tail-Safe

read_lenenc_string-Safe : Safe Buffer.read_lenenc_string
unfolding Buffer.read_lenenc_string
read_lenenc_string-Safe =
    Safe-bind Buffer.read_lenenc_int Buffer.read_string read_lenenc_int-Safe read_string-Safe

-- The buffer after a call of a method, which may have thrown.
call : Method → Buffer → Buffer
call (Method.write_uint8 x) b = Buffer.write_uint8 x b
call (Method.write_uint16 x) b = Buffer.write_uint16 x b
call (Method.write_uint32 x) b = Buffer.write_uint32 x b
call (Method.write_uint64 x) b = Buffer.write_uint64 x b
call (Method.write_lenenc_int x) b = Buffer.write_lenenc_int x b
call (Method.write_bytes s) b = Buffer.write_bytes s b
call (Method.write_string s) b = Buffer.write_string s b
call (Method.write_null_terminated_string s) b = Buffer.write_null_terminated_string s b
call (Method.write_lenenc_string s) b = Buffer.write_lenenc_string s b
call (Method.append s) b = Buffer.append s b
call Method.read_uint8 b = after (Buffer.read_uint8 b)
call Method.read_uint16 b = after (Buffer.read_uint16 b)
call Method.read_uint32 b = after (Buffer.read_uint32 b)
call Method.read_uint64 b = after (Buffer.read_uint64 b)
call Method.read_lenenc_int b = after (Buffer.read_lenenc_int b)
call Method.read_lenenc_string b = after (Buffer.read_lenenc_string b)
call Method.read_null_terminated_string b = after (Buffer.read_null_terminated_string b)
call (Method.read_bytes n) b = after (Buffer.read_bytes n b)
call (Method.read_string n) b = after (Buffer.read_string n b)
call (Method.retrieve n) b = after (Buffer.retrieve n b)
call (Method.skip n) b = after (Buffer.skip n b)
call (Method.set_reader_index n) b = after (Buffer.set_reader_index n b)
call Method.reset b = Buffer.reset b
call Method.retrieve_all b = (Buffer.retrieve_all b).1
call (Method.write_to_fd n) b = (System.write_to_fd (some (System.taken n b)) b).1

reset-IsValid : (b : Buffer) → IsValid (Buffer.reset b)
unfolding Buffer.reset
reset-IsValid b = omega arith

retrieve_all-IsValid : (b : Buffer) → IsValid (Buffer.retrieve_all b).1
unfolding Buffer.retrieve_all
retrieve_all-IsValid b = omega arith

call-IsValid : (m : Method) (b : Buffer) → IsValid b → IsValid (call m b)
unfolding call
call-IsValid (Method.write_uint8 x) b v = (write_uint8-Writes x).valid b v
call-IsValid (Method.write_uint16 x) b v = (write_uint16-Writes x).valid b v
call-IsValid (Method.write_uint32 x) b v = (write_uint32-Writes x).valid b v
call-IsValid (Method.write_uint64 x) b v = (write_uint64-Writes x).valid b v
call-IsValid (Method.write_lenenc_int x) b v = (write_lenenc_int-Writes x).valid b v
call-IsValid (Method.write_bytes s) b v = (write_bytes-Writes s).valid b v
call-IsValid (Method.write_string s) b v = (write_string-Writes s).valid b v
call-IsValid (Method.write_null_terminated_string s) b v =
    (write_null_terminated_string-Writes s).valid b v
call-IsValid (Method.write_lenenc_string s) b v = (write_lenenc_string-Writes s).valid b v
call-IsValid (Method.append s) b v = (append-Writes s).valid b v
call-IsValid Method.read_uint8 b v = read_uint8-Safe b v
call-IsValid Method.read_uint16 b v = read_uint16-Safe b v
call-IsValid Method.read_uint32 b v = read_uint32-Safe b v
call-IsValid Method.read_uint64 b v = read_uint64-Safe b v
call-IsValid Method.read_lenenc_int b v = read_lenenc_int-Safe b v
call-IsValid Method.read_lenenc_string b v = read_lenenc_string-Safe b v
call-IsValid Method.read_null_terminated_string b v = read_null_terminated_string-Safe b v
call-IsValid (Method.read_bytes n) b v = read_bytes-Safe n b v
call-IsValid (Method.read_string n) b v = read_string-Safe n b v
call-IsValid (Method.retrieve n) b v = retrieve-Safe n b v
call-IsValid (Method.skip n) b v = skip-Safe n b v
call-IsValid (Method.set_reader_index n) b v = set_reader_index-Safe n b v
call-IsValid Method.reset b v = reset-IsValid b
call-IsValid (Method.write_to_fd n) b v = System.write_to_fd-IsValid n b v
call-IsValid Method.retrieve_all b v = retrieve_all-IsValid b

-- A sequence of calls on one object, where the caller catches what is thrown.
pub calls : List Method → Buffer → Buffer
calls [] b = b
calls (m ∷ ms) b = calls ms (call m b)

all-IsValid : (ms : List Method) (b : Buffer) → IsValid b → IsValid (calls ms b)
unfolding calls
all-IsValid [] b v = v
all-IsValid (m ∷ ms) b v = all-IsValid ms (call m b) (call-IsValid m b v)

-- From a valid buffer, every sequence of calls of the methods but `readFromFd`, with any arguments,
-- whether each returns or throws, leaves the read index within the write index and the write index
-- at the size of the data. A `readFromFd` that receives a byte, on a valid buffer whose vector has
-- spare capacity, does not.
pub calls-IsValid :
    (ms : List Method) (b : Buffer) (capacity c : ℕ) (bytes : Bytes)
    → IsValid b
    → (calls ms b).write_index < capacity
    → IsValid (calls ms b)
      × ¬ IsValid (System.read_from_fd capacity (some (c ∷ bytes)) (calls ms b)).1
calls-IsValid ms b capacity c bytes v h =
    let w = all-IsValid ms b v in (w, System.read_from_fd-broken capacity c bytes (calls ms b) w h)
