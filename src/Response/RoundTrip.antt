-- ===== src/Response/RoundTrip.antt =====
-- src/protocol/response.cpp: `decode` on what `encode` sends.
use tiny_sql.Prelude.{
  ℕ, ◌+◌, ◌-◌, ◌%◌, ◌^◌, ◌<◌, Bool, true, false, [], ◌∷◌, ◌++◌, ◌≡◌, arith, length, Bytes,
  length-append, subst, pure, ◌>>=◌, lt→ltb,
}
use tiny_sql.Buffer.{
  Buffer, BufferM, unread, append, sub_size, read_uint8, read_uint16, read_string, read_lenenc_int,
  uint16_bytes, get_lenenc_int_size,
}
use tiny_sql.Buffer.Valid.{IsValid}
use tiny_sql.Buffer.Reads.{
  Reads, Reads-bind, Reads-pure, lenenc_bytes, read_uint8-Reads, read_uint16-Reads,
  read_lenenc_int-Reads, read_string-Reads,
}
use tiny_sql.Buffer.Writes.{append-Writes, length-lenenc_bytes}
use tiny_sql.Buffer.RoundTrip.{Returns, read-write}
use tiny_sql.Packet.Framing.{packet_bytes, packet-Reads}
use tiny_sql.Response.{
  OkPacket, ErrPacket, EofPacket, ok_info, ok_fields, ok_body, ok_decode, ok_encode, err_message,
  err_fields, err_body, err_decode, err_encode, eof_fields, eof_body, eof_decode, eof_encode,
  checked_state,
}
use tiny_sql.Response.Encoding.{
  ok_bytes, ok_encode-Writes, err_bytes, err_encode-Writes, length-checked_state, eof_bytes,
  eof_encode-Writes,
}

-- A read, and a value made from what it returns.
pub Reads-last :
    {A B : Type 0} (m : BufferM A) (f : A → B) (s : Bytes) (a : A)
    → Reads m s a
    → Reads (m >>= λ x. pure (f x)) s (f a)
Reads-last m f s a r b rest v e = rw (r b rest v e)

-- `decode` leaves the old info where the packet has none.
abbrev pub kept : Bytes → Bytes → Bytes
kept old [] = old
kept old (c ∷ s) = c ∷ s

ok_info-Reads :
    (p : OkPacket) (info : Bytes)
    → Reads (ok_info (length info) p) info (true, record p { info = kept p.info info })
unfolding ok_info
ok_info-Reads p [] = Reads-pure (true, p)
ok_info-Reads p (c ∷ s) =
    rw (lt→ltb 0 (length (c ∷ s)) (omega arith))
      (Reads-last (read_string (length (c ∷ s))) _ (c ∷ s) (c ∷ s) (read_string-Reads (c ∷ s)))

-- The sizes of the two numbers are found again, so the info has the right length.
ok_remaining :
    (p : OkPacket)
    → sub_size
        (length (ok_bytes p))
        (1 + get_lenenc_int_size p.affected_rows + get_lenenc_int_size p.last_insert_id + 4)
      ≡ length p.info
unfolding sub_size
ok_remaining p =
    let front = lenenc_bytes p.affected_rows in
    let next = lenenc_bytes p.last_insert_id in
    let rest = uint16_bytes p.status_flags ++ (uint16_bytes p.warnings ++ p.info) in
    ground (
      arith,
      length-append front (next ++ rest),
      length-append next rest,
      length-lenenc_bytes p.affected_rows,
      length-lenenc_bytes p.last_insert_id,
    )

-- The values that the fields of an OK packet can hold, and a payload that one packet can carry.
pub record OkFits (p : OkPacket) : Type 0 where
  pub affected_rows_fits : p.affected_rows < 2 ^ 64
  pub last_insert_id_fits : p.last_insert_id < 2 ^ 64
  pub status_flags_fits : p.status_flags < 2 ^ 16
  pub warnings_fits : p.warnings < 2 ^ 16
  pub payload_fits : length (ok_bytes p) < 2 ^ 24

ok_body-Reads :
    (old p : OkPacket)
    → OkFits p
    → Reads
        (ok_body old (length (ok_bytes p)))
        (ok_bytes p)
        (true, record p { info = kept old.info p.info })
unfolding ok_body ok_fields
ok_body-Reads old p f =
    let after_status = uint16_bytes p.warnings ++ p.info in
    let after_id = uint16_bytes p.status_flags ++ after_status in
    let after_rows = lenenc_bytes p.last_insert_id ++ after_id in
    Reads-bind read_uint8 _ (0x00 ∷ []) (lenenc_bytes p.affected_rows ++ after_rows) 0x00 _
      (read_uint8-Reads 0x00)
      (Reads-bind read_lenenc_int _ (lenenc_bytes p.affected_rows) after_rows p.affected_rows _
        (read_lenenc_int-Reads p.affected_rows f.affected_rows_fits)
        (Reads-bind read_lenenc_int _ (lenenc_bytes p.last_insert_id) after_id p.last_insert_id _
          (read_lenenc_int-Reads p.last_insert_id f.last_insert_id_fits)
          (Reads-bind read_uint16 _ (uint16_bytes p.status_flags) after_status p.status_flags _
            (read_uint16-Reads p.status_flags f.status_flags_fits)
            (Reads-bind read_uint16 _ (uint16_bytes p.warnings) p.info p.warnings _
              (read_uint16-Reads p.warnings f.warnings_fits)
              (rw (ok_remaining p) (ok_info-Reads (record p { info = old.info }) p.info))))))

-- An OK packet whose fields fit their types and whose payload is below 2^24 bytes, encoded onto a
-- buffer with nothing unread and followed by other bytes, is decoded with the same fields, and the
-- other bytes are left. An object decoded into keeps its old info where the packet's is empty.
pub ok_decode-encode :
    (p old : OkPacket) (rest : Bytes) (seq : ℕ) (b : Buffer)
    → OkFits p
    → seq < 2 ^ 8
    → IsValid b
    → unread b ≡ []
    → Returns
        (ok_decode old)
        (append rest (ok_encode p seq b))
        (true, record p { info = kept old.info p.info })
        rest
unfolding ok_decode
ok_decode-encode p old rest seq b f k v e =
    let result : Bool × OkPacket = (true, record p { info = kept old.info p.info }) in
    read-write (ok_encode p seq) (append rest) (ok_decode old) (packet_bytes (ok_bytes p) seq) rest
      result b (ok_encode-Writes p seq) (append-Writes rest)
      (packet-Reads (ok_body old) (false, old) (ok_bytes p) seq result f.payload_fits k
        (ok_body-Reads old p f))
      v e

err_message-Reads :
    (p : ErrPacket) (message : Bytes)
    → Reads
        (err_message (length message) p)
        message
        (true, record p { error_message = kept p.error_message message })
unfolding err_message
err_message-Reads p [] = Reads-pure (true, p)
err_message-Reads p (c ∷ s) =
    rw (lt→ltb 0 (length (c ∷ s)) (omega arith))
      (Reads-last (read_string (length (c ∷ s))) _ (c ∷ s) (c ∷ s) (read_string-Reads (c ∷ s)))

-- An error code of 16 bits, a state of five characters, as the constructor makes it, and a payload
-- that one packet can carry.
pub record ErrFits (p : ErrPacket) : Type 0 where
  pub error_code_fits : p.error_code < 2 ^ 16
  pub sql_state_fits : length p.sql_state ≡ 5
  pub payload_fits : length (err_bytes p) < 2 ^ 24

checked_state-fits : (s : Bytes) → length s ≡ 5 → checked_state s ≡ s
unfolding checked_state
checked_state-fits s h = ground arith

err_remaining :
    (p : ErrPacket)
    → ErrFits p
    → (length (err_bytes p) + 2 ^ 32 - 9) % 2 ^ 32 ≡ length p.error_message
err_remaining p f = omega (
  arith,
  f.payload_fits,
  length-append {0} (checked_state p.sql_state) p.error_message,
  length-checked_state p.sql_state,
)

read_state-Reads : (s : Bytes) → length s ≡ 5 → Reads (read_string 5) (checked_state s) s
read_state-Reads s h =
    rw (checked_state-fits s h) (subst (λ n. Reads (read_string n) s s) h (read_string-Reads s))

err_body-Reads :
    (old p : ErrPacket)
    → ErrFits p
    → Reads
        (err_body old (length (err_bytes p)))
        (err_bytes p)
        (true, record p { error_message = kept old.error_message p.error_message })
unfolding err_body err_fields
err_body-Reads old p f =
    let after_marker = checked_state p.sql_state ++ p.error_message in
    let after_code = b'#' ∷ after_marker in
    Reads-bind read_uint8 _ (0xFF ∷ []) (uint16_bytes p.error_code ++ after_code) 0xFF _
      (read_uint8-Reads 0xFF)
      (Reads-bind read_uint16 _ (uint16_bytes p.error_code) after_code p.error_code _
        (read_uint16-Reads p.error_code f.error_code_fits)
        (Reads-bind read_uint8 _ (b'#' ∷ []) after_marker b'#' _ (read_uint8-Reads b'#') (
          Reads-bind (read_string 5) _ (checked_state p.sql_state) p.error_message p.sql_state _
            (read_state-Reads p.sql_state f.sql_state_fits)
            (rw (err_remaining p f) (
              err_message-Reads (record p { error_message = old.error_message })
                p.error_message)))))

-- An ERR packet with a 16-bit code, a state of five characters and a payload below 2^24 bytes,
-- encoded onto a buffer with nothing unread and followed by other bytes, is decoded with the same
-- fields, and the other bytes are left. An object decoded into keeps its old message where the
-- packet's is empty.
pub err_decode-encode :
    (p old : ErrPacket) (rest : Bytes) (seq : ℕ) (b : Buffer)
    → ErrFits p
    → seq < 2 ^ 8
    → IsValid b
    → unread b ≡ []
    → Returns
        (err_decode old)
        (append rest (err_encode p seq b))
        (true, record p { error_message = kept old.error_message p.error_message })
        rest
unfolding err_decode
err_decode-encode p old rest seq b f k v e =
    let result : Bool × ErrPacket =
      (true, record p { error_message = kept old.error_message p.error_message }) in
    read-write (err_encode p seq) (append rest) (err_decode old) (packet_bytes (err_bytes p) seq)
      rest result b (err_encode-Writes p seq) (append-Writes rest)
      (packet-Reads (err_body old) (false, old) (err_bytes p) seq result f.payload_fits k
        (err_body-Reads old p f))
      v e

eof_body-Reads :
    (old p : EofPacket)
    → p.warnings < 2 ^ 16
    → p.status_flags < 2 ^ 16
    → Reads (eof_body old (length (eof_bytes p))) (eof_bytes p) (true, p)
unfolding eof_body eof_fields
eof_body-Reads old p h k =
    Reads-bind read_uint8 _ (0xFE ∷ []) (uint16_bytes p.warnings ++ uint16_bytes p.status_flags)
      0xFE (true, p) (read_uint8-Reads 0xFE)
      (Reads-bind read_uint16 _ (uint16_bytes p.warnings) (uint16_bytes p.status_flags) p.warnings
        (true, p) (read_uint16-Reads p.warnings h)
        (Reads-last read_uint16 _ (uint16_bytes p.status_flags) p.status_flags
          (read_uint16-Reads p.status_flags k)))

-- An EOF packet with 16-bit fields, encoded onto a buffer with nothing unread and followed by other
-- bytes, is decoded to itself, and the other bytes are left.
pub eof_decode-encode :
    (p old : EofPacket) (rest : Bytes) (seq : ℕ) (b : Buffer)
    → p.warnings < 2 ^ 16
    → p.status_flags < 2 ^ 16
    → seq < 2 ^ 8
    → IsValid b
    → unread b ≡ []
    → Returns (eof_decode old) (append rest (eof_encode p seq b)) (true, p) rest
unfolding eof_decode
eof_decode-encode p old rest seq b h k l v e =
    read-write (eof_encode p seq) (append rest) (eof_decode old) (packet_bytes (eof_bytes p) seq)
      rest (true, p) b (eof_encode-Writes p seq) (append-Writes rest)
      (packet-Reads (eof_body old) (false, old) (eof_bytes p) seq (true, p) (omega arith) l
        (eof_body-Reads old p h k))
      v e
