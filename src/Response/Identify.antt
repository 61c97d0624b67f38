-- ===== src/Response/Identify.antt =====
-- src/protocol/response.cpp: `identifyPacketType` on the packets that the server sends.
use tiny_sql.Prelude.{
  ℕ, ◌+◌, ◌*◌, ◌/◌, ◌%◌, ◌^◌, false, [], ◌∷◌, ◌++◌, ◌≡◌, refl, ap, ◌∙◌, arith, ltb, ◌==◌, length,
  Bytes, done, le→ltb,
}
use tiny_sql.Buffer.{
  Buffer, unread, advance, append, readable_bytes, set_reader_index, uint16_bytes,
}
use tiny_sql.Buffer.Valid.{IsValid, readable_bytes-length}
use tiny_sql.Buffer.Reads.{
  read_uint8-Reads, retrieve-Reads, unread-after, IsValid-after, byte_at-unread,
}
use tiny_sql.Buffer.Writes.{Writes, Writes-then, append-Writes}
use tiny_sql.Packet.Framing.{packet_bytes}
use tiny_sql.Response.{
  OkPacket, ErrPacket, EofPacket, checked_state, ok_encode, err_encode, eof_encode, PacketType,
  classify, identify_packet_type, at_payload, first_byte_at,
}
use tiny_sql.Response.Encoding.{ok_encode-Writes, err_encode-Writes, eof_encode-Writes}

identify-packet :
    (b0 b1 b2 seq h : ℕ) (t : Bytes) (b : Buffer)
    → IsValid b
    → unread b ≡ b0 ∷ b1 ∷ b2 ∷ seq ∷ h ∷ t
    → identify_packet_type b ≡ done (classify h (b0 + b1 * 2 ^ 8 + b2 * 2 ^ 16)) b
unfolding identify_packet_type at_payload first_byte_at set_reader_index
identify-packet b0 b1 b2 seq h t b v e =
    let n : readable_bytes b ≡ 5 + length t =
      readable_bytes-length b v ∙ ap (length {0}) e ∙ omega arith in
    let header = b0 ∷ b1 ∷ b2 ∷ seq ∷ [] in
    let v1 = IsValid-after b header (h ∷ t) v e in
    let e1 = unread-after b header (h ∷ t) e in
    let n1 : readable_bytes (advance 4 b) ≡ 1 + length t =
      readable_bytes-length (advance 4 b) v1 ∙ ap (length {0}) e1 ∙ omega arith in
    let back : ltb b.write_index b.read_index ≡ false =
      le→ltb b.write_index b.read_index v.read_le_write in
    let whole = b0 ∷ b1 ∷ b2 ∷ seq ∷ h ∷ t in
    let more : (1 + length t == 0) ≡ false = ground arith in
    rw (le→ltb (readable_bytes b) 5 (omega arith)) (
      rw (retrieve-Reads header b (h ∷ t) v e) (
        rw n1 (
          rw (read_uint8-Reads h (advance 4 b) t v1 e1) (
            rw
              (
                back,
                byte_at-unread b 0 whole e,
                byte_at-unread b 1 whole e,
                byte_at-unread b 2 whole e,
              )
              (rw more refl)))))

-- What is identified behind a packet's encoding.
identify-encode :
    (f : Buffer → Buffer) (h : ℕ) (s rest : Bytes) (seq : ℕ) (b : Buffer)
    → Writes f (packet_bytes (h ∷ s) seq)
    → IsValid b
    → unread b ≡ []
    → identify_packet_type (append rest (f b))
      ≡ done
          (classify h (
            length (h ∷ s) % 2 ^ 8
            + length (h ∷ s) / 2 ^ 8 % 2 ^ 8 * 2 ^ 8
            + length (h ∷ s) / 2 ^ 16 % 2 ^ 8 * 2 ^ 16))
          (append rest (f b))
identify-encode f h s rest seq b w v e =
    let both = Writes-then f (append rest) (packet_bytes (h ∷ s) seq) rest w (append-Writes rest) in
    identify-packet _ _ _ (seq % 2 ^ 8) h (s ++ rest) (append rest (f b)) (both.valid b v)
      (both.appends b v ∙ ap (λ (l : Bytes). l ++ (packet_bytes (h ∷ s) seq ++ rest)) e)

-- `identifyPacketType` tells the packets of the server apart: on the encoding of an OK, an ERR or an
-- EOF packet, whatever its fields, onto a valid buffer with nothing unread, whatever follows it, it
-- returns OK, ERR or EOF_PKT and leaves the buffer as it was.
pub identify_packet_type-encode :
    (p : OkPacket) (q : ErrPacket) (r : EofPacket) (rest : Bytes) (seq : ℕ) (b : Buffer)
    → IsValid b
    → unread b ≡ []
    → (identify_packet_type (append rest (ok_encode p seq b))
        ≡ done PacketType.ok (append rest (ok_encode p seq b)))
      × (identify_packet_type (append rest (err_encode q seq b))
          ≡ done PacketType.err (append rest (err_encode q seq b)))
      × (identify_packet_type (append rest (eof_encode r seq b))
          ≡ done PacketType.eof_pkt (append rest (eof_encode r seq b)))
unfolding classify
identify_packet_type-encode p q r rest seq b v e = (
  identify-encode (ok_encode p seq) 0x00 _ rest seq b (ok_encode-Writes p seq) v e,
  identify-encode (err_encode q seq) 0xFF
      (uint16_bytes q.error_code ++ (b'#' ∷ (checked_state q.sql_state ++ q.error_message))) rest
      seq b (err_encode-Writes q seq) v e,
  identify-encode (eof_encode r seq) 0xFE (uint16_bytes r.warnings ++ uint16_bytes r.status_flags)
      rest seq b (eof_encode-Writes r seq) v e,
)
