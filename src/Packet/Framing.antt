-- ===== src/Packet/Framing.antt =====
-- src/protocol/packet.cpp: the bytes of a packet, written and read.
use mathlib.Core.Path.{ap₂}
use tiny_sql.Prelude.{
  ℕ, ◌+◌, ◌*◌, ◌/◌, ◌%◌, ◌^◌, ◌≤◌, ◌<◌, true, false, none, some, [], ◌∷◌, ◌++◌, ◌≡◌, sym, ap, ◌∙◌,
  subst, arith, length, take, Bytes, append-nil, append_assoc, take-append_length, done, le→ltb,
  pure, ◌>>=◌,
}
use tiny_sql.Buffer.{
  Buffer, BufferM, unread, advance, readable_bytes, write_uint8, append, retrieve, read_uint8,
}
use tiny_sql.Buffer.Valid.{IsValid, readable_bytes-length, readable_bytes-ge}
use tiny_sql.Buffer.Reads.{
  Reads, Reads-bind, unread-after, IsValid-after, read_uint8-Reads, retrieve-Reads,
}
use tiny_sql.Buffer.Writes.{Writes, Writes-then, Writes-eq, write_uint8-Writes, append-Writes}
use tiny_sql.Packet.{
  PacketHeader, read_uint24, read_header, write_header, frame, open_packet, generic_decode,
  generic_encode,
}

abbrev pub header_bytes : ℕ → ℕ → Bytes
header_bytes len seq = len % 2 ^ 8 ∷ len / 2 ^ 8 % 2 ^ 8 ∷ len / 2 ^ 16 % 2 ^ 8 ∷ seq % 2 ^ 8 ∷ []

-- A payload as it is sent.
abbrev pub packet_bytes : Bytes → ℕ → Bytes
packet_bytes payload seq = header_bytes (length payload) seq ++ payload

write_header-Writes : (len seq : ℕ) → Writes (write_header len seq) (header_bytes len seq)
unfolding write_header
write_header-Writes len seq =
    let b0 = len % 2 ^ 8 in
    let b1 = len / 2 ^ 8 % 2 ^ 8 in
    let b2 = len / 2 ^ 16 % 2 ^ 8 in
    Writes-eq (b0 % 2 ^ 8 ∷ b1 % 2 ^ 8 ∷ b2 % 2 ^ 8 ∷ seq % 2 ^ 8 ∷ []) (header_bytes len seq)
      (ground arith)
      (Writes-then (λ b. write_uint8 b2 (write_uint8 b1 (write_uint8 b0 b))) (write_uint8 seq) _ _
        (Writes-then (λ b. write_uint8 b1 (write_uint8 b0 b)) (write_uint8 b2) _ _
          (Writes-then (write_uint8 b0) (write_uint8 b1) _ _ (write_uint8-Writes b0)
            (write_uint8-Writes b1))
          (write_uint8-Writes b2))
        (write_uint8-Writes seq))

-- The 32-bit cast of a length keeps the three bytes that are written.
header_bytes-cast : (len seq : ℕ) → header_bytes (len % 2 ^ 32) seq ≡ header_bytes len seq
header_bytes-cast len seq = ground arith

pub generic_encode-Writes :
    (payload : Bytes) (seq : ℕ) → Writes (generic_encode payload seq) (packet_bytes payload seq)
unfolding generic_encode
generic_encode-Writes payload seq =
    Writes-then (write_header (length payload % 2 ^ 32) seq) (append payload) _ payload
      (Writes-eq _ _ (header_bytes-cast (length payload) seq)
        (write_header-Writes (length payload % 2 ^ 32) seq))
      (append-Writes payload)

-- `frame` sends what is unread in the payload buffer.
pub frame-Writes :
    (payload : Buffer) (s : Bytes) (seq : ℕ)
    → IsValid payload
    → unread payload ≡ s
    → Writes (frame payload seq) (packet_bytes s seq)
unfolding frame generic_encode
frame-Writes payload s seq v e =
    let n : readable_bytes payload ≡ length s =
      readable_bytes-length payload v ∙ ap (length {0}) e in
    let text : take (readable_bytes payload) (unread payload) ≡ s =
      ap₂ take n e ∙ ap (take (length s)) (sym (append-nil s)) ∙ take-append_length s [] in
    let same : generic_encode s seq ≡ frame payload seq =
      ap₂ (λ k t b. append t (write_header (k % 2 ^ 32) seq b)) (sym n) (sym text) in
    subst (λ f. Writes f (packet_bytes s seq)) same (generic_encode-Writes s seq)

abbrev header : ℕ → ℕ → PacketHeader
header len seq = record { payload_length = len; sequence_id = seq }

-- The three length bytes, whatever they are.
pub read_uint24-eq :
    (b0 b1 b2 : ℕ) → Reads read_uint24 (b0 ∷ b1 ∷ b2 ∷ []) (b0 + b1 * 2 ^ 8 + b2 * 2 ^ 16)
unfolding read_uint24
read_uint24-eq b0 b1 b2 =
    let value = b0 + b1 * 2 ^ 8 + b2 * 2 ^ 16 in
    Reads-bind read_uint8 _ (b0 ∷ []) (b1 ∷ b2 ∷ []) b0 value (read_uint8-Reads b0) (
      Reads-bind read_uint8 _ (b1 ∷ []) (b2 ∷ []) b1 value (read_uint8-Reads b1)
        (λ b rest v e. rw (read_uint8-Reads b2 b rest v e)))

read_uint24-Reads :
    (len : ℕ)
    → len < 2 ^ 24
    → Reads read_uint24 (len % 2 ^ 8 ∷ len / 2 ^ 8 % 2 ^ 8 ∷ len / 2 ^ 16 % 2 ^ 8 ∷ []) len
read_uint24-Reads len h =
    let bytes = len % 2 ^ 8 ∷ len / 2 ^ 8 % 2 ^ 8 ∷ len / 2 ^ 16 % 2 ^ 8 ∷ [] in
    subst (Reads read_uint24 bytes) (omega arith)
      (read_uint24-eq (len % 2 ^ 8) (len / 2 ^ 8 % 2 ^ 8) (len / 2 ^ 16 % 2 ^ 8))

read_header-Reads :
    (len seq : ℕ)
    → len < 2 ^ 24
    → seq < 2 ^ 8
    → Reads read_header (header_bytes len seq) (some (header len seq))
unfolding read_header
read_header-Reads len seq h k b rest v e =
    rw (le→ltb (readable_bytes b) 4 (readable_bytes-ge b (header_bytes len seq) rest v e)) (
      Reads-bind read_uint24 _ (len % 2 ^ 8 ∷ len / 2 ^ 8 % 2 ^ 8 ∷ len / 2 ^ 16 % 2 ^ 8 ∷ [])
        (seq % 2 ^ 8 ∷ []) len (some (header len seq)) (read_uint24-Reads len h)
        (Reads-bind read_uint8 _ (seq % 2 ^ 8 ∷ []) [] (seq % 2 ^ 8) (some (header len seq))
          (read_uint8-Reads (seq % 2 ^ 8))
          (λ b' rest' v' e'. let low : seq % 2 ^ 8 ≡ seq = omega arith in rw low (ground arith)))
        b rest v e)

open_packet-eq :
    (s rest : Bytes) (seq : ℕ) (b : Buffer)
    → length s < 2 ^ 24
    → seq < 2 ^ 8
    → IsValid b
    → unread b ≡ packet_bytes s seq ++ rest
    → open_packet b ≡ done (some (length s)) (advance 4 b)
unfolding open_packet
open_packet-eq s rest seq b h k v e =
    let front = header_bytes (length s) seq in
    let e' = e ∙ append_assoc front s rest in
    let v' = IsValid-after b front (s ++ rest) v e' in
    let room : length s ≤ readable_bytes (advance 4 b) =
      readable_bytes-ge (advance 4 b) s rest v' (unread-after b front (s ++ rest) e') in
    rw (read_header-Reads (length s) seq h k b (s ++ rest) v e')
      (rw (le→ltb (readable_bytes (advance 4 b)) (length s) room))

-- A decoder that opens a packet and then reads only the front of its payload.
pub packet-Reads_front :
    {A : Type 0} (m : ℕ → BufferM A) (failed : A) (s t : Bytes) (seq : ℕ) (a : A) (b : Buffer)
    (rest : Bytes)
    → length (s ++ t) < 2 ^ 24
    → seq < 2 ^ 8
    → Reads (m (length (s ++ t))) s a
    → IsValid b
    → unread b ≡ packet_bytes (s ++ t) seq ++ rest
    → (open_packet >>= λ opened. elim opened [ none ↦ pure failed | some n ↦ m n ]) b
      ≡ done a (advance (length (header_bytes (length (s ++ t)) seq ++ s)) b)
packet-Reads_front m failed s t seq a b rest h k r v e =
    let front = header_bytes (length (s ++ t)) seq in
    let e' = e ∙ append_assoc front (s ++ t) rest in
    let body =
      r (advance 4 b) (t ++ rest) (IsValid-after b front ((s ++ t) ++ rest) v e')
        (unread-after b front ((s ++ t) ++ rest) e' ∙ append_assoc s t rest) in
    rw (open_packet-eq (s ++ t) rest seq b h k v e) (body ∙ ground arith)

-- A decoder that opens a packet and then reads its payload reads the whole packet.
pub packet-Reads :
    {A : Type 0} (m : ℕ → BufferM A) (failed : A) (s : Bytes) (seq : ℕ) (a : A)
    → length s < 2 ^ 24
    → seq < 2 ^ 8
    → Reads (m (length s)) s a
    → Reads
        (open_packet >>= λ opened. elim opened [ none ↦ pure failed | some n ↦ m n ])
        (packet_bytes s seq)
        a
packet-Reads m failed s seq a h k r b rest v e =
    let front = header_bytes (length s) seq in
    let e' = e ∙ append_assoc front s rest in
    let body =
      r (advance 4 b) rest (IsValid-after b front (s ++ rest) v e')
        (unread-after b front (s ++ rest) e') in
    rw (open_packet-eq s rest seq b h k v e) (body ∙ ground arith)

pub generic_decode-Reads :
    (old s : Bytes) (seq : ℕ)
    → length s < 2 ^ 24
    → seq < 2 ^ 8
    → Reads (generic_decode old) (packet_bytes s seq) (true, s)
unfolding generic_decode
generic_decode-Reads old s seq h k =
    packet-Reads (λ n. retrieve n >>= λ bytes. pure (true, bytes)) (false, old) s seq (true, s) h k
      (λ b rest v e. rw (retrieve-Reads s b rest v e))
