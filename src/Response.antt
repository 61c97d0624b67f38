-- ===== src/Response.antt =====
-- src/protocol/response.cpp: the OK, ERR and EOF packets and the recognition of a packet's type.
--
-- Each packet object is a record. `encode` builds the payload in a buffer of its own and frames it;
-- `decode` returns whether it succeeded together with the packet object as it leaves it.
pub mod Encoding
pub mod RoundTrip
pub mod Identify
mod Tests
use tiny_sql.Prelude.{
  ℕ, ◌+◌, ◌-◌, ◌*◌, ◌/◌, ◌%◌, ◌^◌, Bool, true, false, not, ◌&&◌, Option, none, some, List, [], ◌∷◌,
  ltb, leb, ◌==◌, if◌then◌else◌, length, Bytes, codes, Outcome, done, thrown, pure, throw, ◌>>=◌,
  ◌>>◌,
}
use tiny_sql.Buffer.{
  Buffer, BufferM, empty, unread, readable_bytes, sub_size, byte_at, read_uint8, read_uint16,
  read_string, read_lenenc_int, retrieve, set_reader_index, write_uint8, write_uint16, write_string,
  write_lenenc_int, get_lenenc_int_size,
}
use tiny_sql.Packet.{frame, open_packet}

pub record OkPacket : Type 0 where
  pub affected_rows : ℕ
  pub last_insert_id : ℕ
  pub status_flags : ℕ
  pub warnings : ℕ
  pub info : Bytes

pub record ErrPacket : Type 0 where
  pub error_code : ℕ
  pub sql_state : Bytes
  pub error_message : Bytes

pub record EofPacket : Type 0 where
  pub warnings : ℕ
  pub status_flags : ℕ

-- `if (!str.empty()) payload.writeString(str)`
unfoldable pub write_nonempty : Bytes → Buffer → Buffer
write_nonempty [] b = b
write_nonempty (c ∷ s) b = write_string (c ∷ s) b

pub ok_payload : OkPacket → Buffer → Buffer
ok_payload p b = write_nonempty p.info (
    write_uint16 p.warnings (
      write_uint16 p.status_flags (
        write_lenenc_int p.last_insert_id (write_lenenc_int p.affected_rows (write_uint8 0x00 b)))))

unfoldable pub ok_encode : OkPacket → ℕ → Buffer → Buffer
ok_encode p sequence_id = frame (ok_payload p empty) sequence_id

-- The info that `decode` keeps: what remains of the payload, or the old one if nothing does.
ok_info : ℕ → OkPacket → BufferM (Bool × OkPacket)
ok_info remaining p =
    if ltb 0 remaining
    then (do info ← read_string remaining; pure (true, record p { info = info }))
    else pure (true, p)

ok_fields : ℕ → OkPacket → BufferM (Bool × OkPacket)
ok_fields payload_length p = do
  affected_rows ← read_lenenc_int
  last_insert_id ← read_lenenc_int
  status_flags ← read_uint16
  warnings ← read_uint16
  ok_info
      (sub_size payload_length
        (1 + get_lenenc_int_size affected_rows + get_lenenc_int_size last_insert_id + 4))
      (record {
        affected_rows = affected_rows;
        last_insert_id = last_insert_id;
        status_flags = status_flags;
        warnings = warnings;
        info = p.info;
      })

ok_body : OkPacket → ℕ → BufferM (Bool × OkPacket)
ok_body p payload_length = do
  packet_header ← read_uint8
  if not (packet_header == 0x00) && not (packet_header == 0xFE)
      then pure (false, p)
      else ok_fields payload_length p

pub ok_decode : OkPacket → BufferM (Bool × OkPacket)
ok_decode p = do opened ← open_packet; elim opened [ none ↦ pure (false, p) | some n ↦ ok_body p n ]

-- The ladder that `getPayloadLength` writes out for a length-encoded number.
ladder_size : ℕ → ℕ
ladder_size x = if ltb x 251 then 1 else if ltb x 65536 then 3 else if ltb x 16777216 then 4 else 9

pub ok_get_payload_length : OkPacket → ℕ
ok_get_payload_length p =
    1 + ladder_size p.affected_rows + ladder_size p.last_insert_id + 2 + 2 + length p.info

-- The constructor, and `encode` again, put HY000 for a state that is not five characters.
pub checked_state : Bytes → Bytes
checked_state state = if length state == 5 then state else codes "HY000"

pub new_err_packet : ℕ → Bytes → Bytes → ErrPacket
new_err_packet error_code sql_state error_message = record {
  error_code = error_code;
  sql_state = checked_state sql_state;
  error_message = error_message;
}

pub err_payload : ErrPacket → Buffer → Buffer
err_payload p b = write_nonempty p.error_message (
    write_string (checked_state p.sql_state)
      (write_uint8 b'#' (write_uint16 p.error_code (write_uint8 0xFF b))))

unfoldable pub err_encode : ErrPacket → ℕ → Buffer → Buffer
err_encode p sequence_id = frame (err_payload p empty) sequence_id

err_message : ℕ → ErrPacket → BufferM (Bool × ErrPacket)
err_message msg_len p =
    if ltb 0 msg_len
    then (do message ← read_string msg_len; pure (true, record p { error_message = message }))
    else pure (true, p)

-- The marker byte is read and only a missing `#` is logged. `payload_length - 9` is a subtraction
-- of 32-bit numbers.
err_fields : ℕ → ErrPacket → BufferM (Bool × ErrPacket)
err_fields payload_length p = do
  error_code ← read_uint16
  marker ← read_uint8
  sql_state ← read_string 5
  err_message ((payload_length + 2 ^ 32 - 9) % 2 ^ 32)
      (record { error_code = error_code; sql_state = sql_state; error_message = p.error_message })

err_body : ErrPacket → ℕ → BufferM (Bool × ErrPacket)
err_body p payload_length = do
  packet_header ← read_uint8
  if not (packet_header == 0xFF) then pure (false, p) else err_fields payload_length p

pub err_decode : ErrPacket → BufferM (Bool × ErrPacket)
err_decode p = do
  opened ← open_packet
  elim opened [ none ↦ pure (false, p) | some n ↦ err_body p n ]

pub err_get_payload_length : ErrPacket → ℕ
err_get_payload_length p = 1 + 2 + 1 + 5 + length p.error_message

pub eof_payload : EofPacket → Buffer → Buffer
eof_payload p b = write_uint16 p.status_flags (write_uint16 p.warnings (write_uint8 0xFE b))

unfoldable pub eof_encode : EofPacket → ℕ → Buffer → Buffer
eof_encode p sequence_id = frame (eof_payload p empty) sequence_id

eof_fields : BufferM (Bool × EofPacket)
eof_fields = do
  warnings ← read_uint16
  status_flags ← read_uint16
  pure (true, record { warnings = warnings; status_flags = status_flags })

eof_body : EofPacket → ℕ → BufferM (Bool × EofPacket)
eof_body p payload_length = do
  packet_header ← read_uint8
  if not (packet_header == 0xFE) then pure (false, p) else eof_fields

pub eof_decode : EofPacket → BufferM (Bool × EofPacket)
eof_decode p = do
  opened ← open_packet
  elim opened [ none ↦ pure (false, p) | some n ↦ eof_body p n ]

pub eof_get_payload_length : EofPacket → ℕ
eof_get_payload_length p = 1 + 2 + 2

pub data PacketType : Type 0 where
  ok err eof_pkt handshake query unknown : PacketType

-- The switch on the first byte of the payload; an EOF packet is told by its length as well.
classify : ℕ → ℕ → PacketType
classify first_byte payload_len =
    if first_byte == 0x00
    then ok
    else if first_byte == 0xFF
    then err
    else if first_byte == 0xFE
    then (if ltb payload_len 9 then eof_pkt else unknown)
    else if first_byte == 0x0a
    then handshake
    else if first_byte == 0x03
    then query
    else unknown

-- The first byte of the payload, with the read index put back, and the length at the start.
first_byte_at : ℕ → BufferM PacketType
first_byte_at save_pos = do
  first_byte ← read_uint8
  set_reader_index save_pos
  λ b. done (classify first_byte (byte_at b 0 + byte_at b 1 * 2 ^ 8 + byte_at b 2 * 2 ^ 16)) b

at_payload : ℕ → BufferM PacketType
at_payload save_pos b =
    if readable_bytes b == 0
    then (do set_reader_index save_pos; pure unknown) b
    else first_byte_at save_pos b

pub identify_packet_type : BufferM PacketType
identify_packet_type b =
    if ltb (readable_bytes b) 5 then done unknown b else (do retrieve 4; at_payload b.read_index) b
