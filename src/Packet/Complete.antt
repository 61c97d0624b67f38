-- ===== src/Packet/Complete.antt =====
-- src/protocol/packet.cpp: `checkPacketComplete` and `GenericPacket`.
use tiny_sql.Prelude.{
  ℕ, zero, suc, ◌+◌, ◌*◌, ◌^◌, ◌<◌, true, false, [], ◌∷◌, ◌++◌, ◌≡◌, refl, ap, ◌∙◌, arith, ltb, leb,
  if◌then◌else◌, length, get_or, take, Bytes, length-append, length-take, done, le→ltb, lt→ltb,
}
use tiny_sql.Buffer.{Buffer, unread, readable_bytes, append}
use tiny_sql.Buffer.Valid.{IsValid, readable_bytes-length}
use tiny_sql.Buffer.RoundTrip.{Returns, read-write}
use tiny_sql.Buffer.Writes.{Writes-then, append-Writes}
use tiny_sql.Packet.Framing.{
  packet_bytes, read_uint24-eq, generic_encode-Writes, generic_decode-Reads,
}
use tiny_sql.Packet.{generic_decode, generic_encode, complete_length, check_packet_complete}

-- The total length announced by the first three bytes, and 0 unless as many bytes are there.
unfoldable pub announced : Bytes → ℕ
announced s =
    let total = 4 + (get_or s 0 0 + get_or s 1 0 * 2 ^ 8 + get_or s 2 0 * 2 ^ 16) in
    if ltb (length s) 4 then 0 else if leb total (length s) then total else 0

check-short :
    (s : Bytes) (b : Buffer)
    → IsValid b
    → unread b ≡ s
    → length s < 4
    → check_packet_complete b ≡ done (announced s) b
unfolding check_packet_complete announced
check-short s b v e h =
    let n : readable_bytes b ≡ length s = readable_bytes-length b v ∙ ap (length {0}) e in
    rw (lt→ltb (length s) 4 h, lt→ltb (readable_bytes b) 4 (omega arith))

check-long :
    (b0 b1 b2 seq : ℕ) (t : Bytes) (b : Buffer)
    → IsValid b
    → unread b ≡ b0 ∷ b1 ∷ b2 ∷ seq ∷ t
    → check_packet_complete b ≡ done (announced (b0 ∷ b1 ∷ b2 ∷ seq ∷ t)) b
unfolding check_packet_complete announced complete_length
check-long b0 b1 b2 seq t b v e =
    let n : readable_bytes b ≡ 4 + length t =
      readable_bytes-length b v ∙ ap (length {0}) e ∙ omega arith in
    let back : ltb b.write_index b.read_index ≡ false =
      le→ltb b.write_index b.read_index v.read_le_write in
    rw (le→ltb (readable_bytes b) 4 (omega arith))
      (rw (read_uint24-eq b0 b1 b2 b (seq ∷ t) v e) (rw back (rw n (ground arith))))

check-announced :
    (s : Bytes) (b : Buffer)
    → IsValid b
    → unread b ≡ s
    → check_packet_complete b ≡ done (announced s) b
check-announced [] b v e = check-short [] b v e (omega arith)
check-announced (b0 ∷ []) b v e = check-short (b0 ∷ []) b v e (omega arith)
check-announced (b0 ∷ b1 ∷ []) b v e = check-short (b0 ∷ b1 ∷ []) b v e (omega arith)
check-announced (b0 ∷ b1 ∷ b2 ∷ []) b v e = check-short (b0 ∷ b1 ∷ b2 ∷ []) b v e (omega arith)
check-announced (b0 ∷ b1 ∷ b2 ∷ seq ∷ t) b v e = check-long b0 b1 b2 seq t b v e

-- On every valid buffer `checkPacketComplete` returns, with no exception and the buffer as it was,
-- and its result is the total length that the first three unread bytes announce where as many
-- bytes and at least a header are unread, and 0 elsewhere.
pub check_packet_complete-announced :
    (b : Buffer) → IsValid b → check_packet_complete b ≡ done (announced (unread b)) b
check_packet_complete-announced b v = check-announced (unread b) b v refl

pub announced-packet_bytes :
    (s rest : Bytes) (seq : ℕ)
    → length s < 2 ^ 24
    → announced (packet_bytes s seq ++ rest) ≡ length (packet_bytes s seq)
unfolding announced
announced-packet_bytes s rest seq h = ground (arith, length-append s rest)

announced-prefix :
    (s : Bytes) (seq k : ℕ)
    → length s < 2 ^ 24
    → k < length (packet_bytes s seq)
    → announced (take k (packet_bytes s seq)) ≡ 0
unfolding announced
announced-prefix s seq zero h lt = refl
announced-prefix s seq (suc zero) h lt = refl
announced-prefix s seq (suc (suc zero)) h lt = refl
announced-prefix s seq (suc (suc (suc zero))) h lt = refl
announced-prefix s seq (suc (suc (suc (suc k)))) h lt = ground (arith, length-take k s)

-- While some of the bytes of a packet with a payload below 2^24 bytes are missing,
-- `checkPacketComplete` returns 0.
pub check_packet_complete-partial :
    (s : Bytes) (seq k : ℕ) (b : Buffer)
    → length s < 2 ^ 24
    → k < length (packet_bytes s seq)
    → IsValid b
    → unread b ≡ take k (packet_bytes s seq)
    → check_packet_complete b ≡ done 0 b
check_packet_complete-partial s seq k b h lt v e =
    check_packet_complete-announced b v
    ∙ ap (λ n. done n b) (ap announced e ∙ announced-prefix s seq k h lt)

-- When a whole packet with a payload below 2^24 bytes is encoded onto a buffer with nothing unread,
-- whatever follows it, `checkPacketComplete` returns the length of that packet with its header.
pub check_packet_complete-encode :
    (s rest : Bytes) (seq : ℕ) (b : Buffer)
    → length s < 2 ^ 24
    → IsValid b
    → unread b ≡ []
    → check_packet_complete (append rest (generic_encode s seq b))
      ≡ done (4 + length s) (append rest (generic_encode s seq b))
check_packet_complete-encode s rest seq b h v e =
    let w =
      Writes-then (generic_encode s seq) (append rest) (packet_bytes s seq) rest
        (generic_encode-Writes s seq) (append-Writes rest) in
    let b' = append rest (generic_encode s seq b) in
    let e' : unread b' ≡ packet_bytes s seq ++ rest =
      w.appends b v ∙ ap (λ (l : Bytes). l ++ (packet_bytes s seq ++ rest)) e in
    check_packet_complete-announced b' (w.valid b v)
    ∙ ap (λ n. done n b') (ap announced e' ∙ announced-packet_bytes s rest seq h ∙ ground arith)

-- A generic packet with a payload below 2^24 bytes, encoded onto a buffer with nothing unread and
-- followed by other bytes, is decoded to its payload, and the other bytes are left.
pub generic_decode-encode :
    (s old rest : Bytes) (seq : ℕ) (b : Buffer)
    → length s < 2 ^ 24
    → seq < 2 ^ 8
    → IsValid b
    → unread b ≡ []
    → Returns (generic_decode old) (append rest (generic_encode s seq b)) (true, s) rest
generic_decode-encode s old rest seq b h k v e =
    read-write (generic_encode s seq) (append rest) (generic_decode old) (packet_bytes s seq) rest
      (true, s) b (generic_encode-Writes s seq) (append-Writes rest)
      (generic_decode-Reads old s seq h k) v e
