-- ===== src/Packet.antt =====
-- src/protocol/packet.cpp, include/tiny_sql/protocol/packet.h: the packet header of three length
-- bytes and a sequence number, the generic packet, and the test for a complete packet.
--
-- The end of every `encode` and the start of every `decode` are here, as `frame` and `open_packet`.
-- A `decode` returns whether it succeeded together with the packet object as it leaves it.
pub mod Framing
pub mod Complete
mod Tests
use tiny_sql.Prelude.{
  ℕ, ◌+◌, ◌*◌, ◌/◌, ◌%◌, ◌^◌, Bool, true, false, Option, none, some, List, [], ltb, leb,
  if◌then◌else◌, length, take, Bytes, Outcome, done, thrown, pure, throw, ◌>>=◌, ◌>>◌,
}
use tiny_sql.Buffer.{
  Buffer, BufferM, unread, readable_bytes, read_uint8, write_uint8, append, retrieve,
  set_reader_index,
}

pub record PacketHeader : Type 0 where
  pub payload_length : ℕ
  pub sequence_id : ℕ

-- Three length bytes, least significant first.
pub read_uint24 : BufferM ℕ
unfolding read_uint8
read_uint24 = do
  b0 ← read_uint8
  b1 ← read_uint8
  b2 ← read_uint8
  pure (b0 + b1 * 2 ^ 8 + b2 * 2 ^ 16)

-- `none` for `false`: not even a header is there.
unfoldable pub read_header : BufferM (Option PacketHeader)
unfolding readable_bytes read_uint24
read_header b =
    if ltb (readable_bytes b) 4
    then done none b
    else (do
      len ← read_uint24
      seq ← read_uint8
      pure (some (record { payload_length = len; sequence_id = seq })))
        b

unfoldable pub write_header : ℕ → ℕ → Buffer → Buffer
unfolding write_uint8
write_header payload_length sequence_id b = write_uint8 sequence_id (
    write_uint8 (payload_length / 2 ^ 16 % 2 ^ 8)
      (write_uint8 (payload_length / 2 ^ 8 % 2 ^ 8) (write_uint8 (payload_length % 2 ^ 8) b)))

-- The end of every `encode`: the header for a payload buffer, and then its bytes.
unfoldable pub frame : Buffer → ℕ → Buffer → Buffer
unfolding readable_bytes
frame payload sequence_id b =
    append (take (readable_bytes payload) (unread payload))
      (write_header (readable_bytes payload % 2 ^ 32) sequence_id b)

-- The start of every `decode`: `none` for `false`, where a header or its payload is not all there.
unfoldable pub open_packet : BufferM (Option ℕ)
unfolding readable_bytes
open_packet = do
  header ← read_header
  elim header [
    | none ↦ pure none
    | some h ↦ λ b.
        if ltb (readable_bytes b) h.payload_length
        then done none b
        else done (some h.payload_length) b
  ]

-- `GenericPacket`, whose only member is its payload.
unfoldable pub generic_decode : Bytes → BufferM (Bool × Bytes)
generic_decode payload = do
  opened ← open_packet
  elim opened [ none ↦ pure (false, payload) | some n ↦ do bytes ← retrieve n; pure (true, bytes) ]

unfoldable pub generic_encode : Bytes → ℕ → Buffer → Buffer
generic_encode payload sequence_id b =
    append payload (write_header (length payload % 2 ^ 32) sequence_id b)

-- The part of `checkPacketComplete` behind the length.
unfoldable pub complete_length : ℕ → BufferM ℕ
unfolding readable_bytes
complete_length payload_length b =
    let total_length = 4 + payload_length in
    if leb total_length (readable_bytes b) then done total_length b else done 0 b

-- The total length of the packet at the read index, or 0 if it is not all there.
unfoldable pub check_packet_complete : BufferM ℕ
unfolding readable_bytes read_uint24 set_reader_index
check_packet_complete b =
    if ltb (readable_bytes b) 4
    then done 0 b
    else (do
      payload_length ← read_uint24
      set_reader_index b.read_index
      complete_length payload_length)
        b
