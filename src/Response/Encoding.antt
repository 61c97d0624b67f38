-- ===== src/Response/Encoding.antt =====
-- src/protocol/response.cpp: the bytes of the OK, ERR and EOF packets, and their announced lengths.
use tiny_sql.Prelude.{
  ℕ, [], ◌∷◌, ◌++◌, ◌≡◌, sym, ap, ◌∙◌, arith, length, Bytes, length-append, append-nil,
  append_assoc,
}
use tiny_sql.Buffer.{
  Buffer, empty, unread, readable_bytes, write_uint8, write_uint16, write_string, write_lenenc_int,
  uint16_bytes, scatter,
}
use tiny_sql.Buffer.Valid.{readable_bytes-length}
use tiny_sql.Buffer.Reads.{lenenc_bytes}
use tiny_sql.Buffer.Writes.{
  Writes, Writes-then, Writes-eq, write_uint8-Writes, write_uint16-Writes, write_string-Writes,
  write_lenenc_int-Writes, empty-IsValid, unread-empty,
}
use tiny_sql.Packet.{frame}
use tiny_sql.Packet.Framing.{packet_bytes, frame-Writes}
use tiny_sql.Response.{
  OkPacket, ErrPacket, EofPacket, write_nonempty, ok_payload, ok_encode, ladder_size,
  ok_get_payload_length, checked_state, err_payload, err_encode, eof_payload,
  err_get_payload_length, eof_get_payload_length, eof_encode,
}

abbrev pub ok_bytes : OkPacket → Bytes
ok_bytes p =
    0x00
    ∷ (lenenc_bytes p.affected_rows
        ++ (lenenc_bytes p.last_insert_id
            ++ (uint16_bytes p.status_flags ++ (uint16_bytes p.warnings ++ p.info))))

write_nonempty-Writes : (s : Bytes) → Writes (write_nonempty s) s
unfolding write_nonempty
write_nonempty-Writes [] = record { valid = λ b v. v; appends = λ b v. sym (append-nil (unread b)) }
write_nonempty-Writes (c ∷ s) = write_string-Writes (c ∷ s)

ok_payload-Writes : (p : OkPacket) → Writes (ok_payload p) (ok_bytes p)
unfolding ok_payload
ok_payload-Writes p = Writes-eq _ (ok_bytes p) (simp append_assoc) (
    Writes-then _ (write_nonempty p.info) _ p.info
      (Writes-then _ (write_uint16 p.warnings) _ _
        (Writes-then _ (write_uint16 p.status_flags) _ _
          (Writes-then _ (write_lenenc_int p.last_insert_id) _ _
            (Writes-then (write_uint8 0x00) (write_lenenc_int p.affected_rows) _ _
              (write_uint8-Writes 0x00) (write_lenenc_int-Writes p.affected_rows))
            (write_lenenc_int-Writes p.last_insert_id))
          (write_uint16-Writes p.status_flags))
        (write_uint16-Writes p.warnings))
      (write_nonempty-Writes p.info))

-- What a payload routine writes onto an empty buffer is what it appends.
pub unread-payload : (f : Buffer → Buffer) (s : Bytes) → Writes f s → unread (f empty) ≡ s
unread-payload f s w = w.appends empty empty-IsValid ∙ ap (λ (l : Bytes). l ++ s) unread-empty

pub readable-payload :
    (f : Buffer → Buffer) (s : Bytes) → Writes f s → readable_bytes (f empty) ≡ length s
readable-payload f s w =
    readable_bytes-length (f empty) (w.valid empty empty-IsValid)
    ∙ ap (length {0}) (unread-payload f s w)

pub framed-Writes :
    (f : Buffer → Buffer) (s : Bytes) (seq : ℕ)
    → Writes f s
    → Writes (frame (f empty) seq) (packet_bytes s seq)
framed-Writes f s seq w =
    frame-Writes (f empty) s seq (w.valid empty empty-IsValid) (unread-payload f s w)

pub ok_encode-Writes :
    (p : OkPacket) (seq : ℕ) → Writes (ok_encode p seq) (packet_bytes (ok_bytes p) seq)
unfolding ok_encode
ok_encode-Writes p seq = framed-Writes (ok_payload p) (ok_bytes p) seq (ok_payload-Writes p)

ladder_size-eq : (x : ℕ) → ladder_size x ≡ length (lenenc_bytes x)
unfolding ladder_size scatter
ladder_size-eq x = ground arith

-- `getPayloadLength` of an OK packet is the number of bytes in the payload that `encode` builds,
-- for all field values.
pub ok_get_payload_length-encode :
    (p : OkPacket) → readable_bytes (ok_payload p empty) ≡ ok_get_payload_length p
unfolding ok_get_payload_length
ok_get_payload_length-encode p =
    readable_bytes-length (ok_payload p empty) ((ok_payload-Writes p).valid empty empty-IsValid)
    ∙ ap (length {0}) (unread-payload (ok_payload p) (ok_bytes p) (ok_payload-Writes p))
    ∙ (let front = lenenc_bytes p.affected_rows in
        let next = lenenc_bytes p.last_insert_id in
        let rest = uint16_bytes p.status_flags ++ (uint16_bytes p.warnings ++ p.info) in
        omega (
          arith,
          length-append {0} front (next ++ rest),
          length-append {0} next rest,
          ladder_size-eq p.affected_rows,
          ladder_size-eq p.last_insert_id,
        ))

abbrev pub err_bytes : ErrPacket → Bytes
err_bytes p =
    0xFF ∷ (uint16_bytes p.error_code ++ (b'#' ∷ (checked_state p.sql_state ++ p.error_message)))

err_payload-Writes : (p : ErrPacket) → Writes (err_payload p) (err_bytes p)
unfolding err_payload
err_payload-Writes p = Writes-eq _ (err_bytes p) (simp append_assoc) (
    Writes-then _ (write_nonempty p.error_message) _ p.error_message
      (Writes-then _ (write_string (checked_state p.sql_state)) _ _
        (Writes-then _ (write_uint8 b'#') _ _
          (Writes-then (write_uint8 0xFF) (write_uint16 p.error_code) _ _ (write_uint8-Writes 0xFF)
            (write_uint16-Writes p.error_code))
          (write_uint8-Writes b'#'))
        (write_string-Writes (checked_state p.sql_state)))
      (write_nonempty-Writes p.error_message))

pub err_encode-Writes :
    (p : ErrPacket) (seq : ℕ) → Writes (err_encode p seq) (packet_bytes (err_bytes p) seq)
unfolding err_encode
err_encode-Writes p seq = framed-Writes (err_payload p) (err_bytes p) seq (err_payload-Writes p)

pub length-checked_state : (s : Bytes) → length (checked_state s) ≡ 5
unfolding checked_state
length-checked_state s = ground arith

abbrev pub eof_bytes : EofPacket → Bytes
eof_bytes p = 0xFE ∷ (uint16_bytes p.warnings ++ uint16_bytes p.status_flags)

eof_payload-Writes : (p : EofPacket) → Writes (eof_payload p) (eof_bytes p)
unfolding eof_payload
eof_payload-Writes p =
    Writes-then _ (write_uint16 p.status_flags) _ _
      (Writes-then (write_uint8 0xFE) (write_uint16 p.warnings) _ _ (write_uint8-Writes 0xFE)
        (write_uint16-Writes p.warnings))
      (write_uint16-Writes p.status_flags)

pub eof_encode-Writes :
    (p : EofPacket) (seq : ℕ) → Writes (eof_encode p seq) (packet_bytes (eof_bytes p) seq)
unfolding eof_encode
eof_encode-Writes p seq = framed-Writes (eof_payload p) (eof_bytes p) seq (eof_payload-Writes p)

-- `getPayloadLength` of an ERR and of an EOF packet is the number of bytes in the payload that
-- `encode` builds, for all field values.
pub get_payload_length-encode :
    (p : ErrPacket) (q : EofPacket)
    → (readable_bytes (err_payload p empty) ≡ err_get_payload_length p)
      × (readable_bytes (eof_payload q empty) ≡ eof_get_payload_length q)
unfolding err_get_payload_length eof_get_payload_length
get_payload_length-encode p q = (
  readable-payload (err_payload p) (err_bytes p) (err_payload-Writes p)
      ∙ omega (
        arith,
        length-append {0} (checked_state p.sql_state) p.error_message,
        length-checked_state p.sql_state,
      ),
  readable-payload (eof_payload q) (eof_bytes q) (eof_payload-Writes q),
)
