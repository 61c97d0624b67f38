-- ===== src/ResultSet/Rows.antt =====
-- src/protocol/response.cpp: the rows of a result set, as a client reads them.
use tiny_sql.Prelude.{
  ℕ, zero, suc, ◌^◌, ◌<◌, false, Option, none, some, List, [], ◌∷◌, ◌++◌, ◌≡◌, refl, sym, ap, ◌∙◌,
  map, arith, ◌==◌, if◌then◌else◌, length, get_or, Bytes, length-append, append-nil, append_assoc,
  Bool-cases, inl, inr, pure, ◌>>=◌,
}
use tiny_sql.Buffer.{
  Buffer, BufferM, empty, unread, readable_bytes, append, read_uint8, read_lenenc_string, byte_at,
  scatter,
}
use tiny_sql.Buffer.Valid.{IsValid}
use tiny_sql.Buffer.Reads.{
  Reads, Reads-bind, Reads-pure, lenenc_bytes, byte_at-unread, read_uint8-Reads,
  read_lenenc_string-Reads,
}
use tiny_sql.Buffer.Writes.{
  Writes, Writes-then, write_uint8-Writes, write_lenenc_string-Writes, append-Writes,
}
use tiny_sql.Buffer.RoundTrip.{Returns, read-write}
use tiny_sql.Packet.{open_packet}
use tiny_sql.Packet.Framing.{packet_bytes, packet-Reads}
use tiny_sql.Response.Encoding.{framed-Writes, readable-payload}
use tiny_sql.Response.RoundTrip.{Reads-last}
use tiny_sql.Storage.Value.{Value, is_null}
use tiny_sql.Storage.Table.{Row}
use tiny_sql.Storage.Compare.{Floats, value_to_string}
use tiny_sql.ResultSet.{
  ColumnDefinitionPacket, column_payload, column_get_payload_length, text_size, write_value,
  row_payload, row_encode, row_get_payload_length,
}
use tiny_sql.ResultSet.Encoding.{lenenc_string_bytes, NamesFit, readable-column_payload}

-- A client of the protocol: 0xFB stands for NULL, and any other byte begins a string.
pub read_cell : BufferM (Option Bytes)
read_cell b =
    if byte_at b 0 == 0xFB
    then (read_uint8 >>= λ c. pure none) b
    else (read_lenenc_string >>= λ s. pure (some s)) b

pub read_cells : ℕ → BufferM (List (Option Bytes))
read_cells zero = pure []
read_cells (suc n) = read_cell >>= λ c. read_cells n >>= λ cs. pure (c ∷ cs)

-- One packet with a number of cells.
pub read_row : ℕ → BufferM (Option (List (Option Bytes)))
read_row n = open_packet >>= λ opened. elim opened [
  | none ↦ pure none
  | some len ↦ read_cells n >>= λ cs. pure (some cs)
]

read_null-Reads : Reads read_cell (0xFB ∷ []) none
unfolding read_cell
read_null-Reads b rest v e = rw (byte_at-unread b 0 (0xFB ∷ rest) e) (
    Reads-last read_uint8 (λ c. let n : Option Bytes = none in n) (0xFB ∷ []) 0xFB
      (read_uint8-Reads 0xFB) b rest v e)

-- No length begins with the byte that stands for NULL.
lenenc_bytes-first : (n : ℕ) (t : Bytes) → (get_or (lenenc_bytes n ++ t) 0 0 == 0xFB) ≡ false
lenenc_bytes-first n t = ground arith

read_text-Reads : (s : Bytes) → length s < 2 ^ 64 → Reads read_cell (lenenc_string_bytes s) (some s)
unfolding read_cell
read_text-Reads s h b rest v e =
    let first = byte_at-unread b 0 _ (e ∙ append_assoc (lenenc_bytes (length s)) s rest) in
    rw (ap (λ n. n == 0xFB) first ∙ lenenc_bytes-first (length s) (s ++ rest)) (
      Reads-last read_lenenc_string some (lenenc_string_bytes s) s (read_lenenc_string-Reads s h) b
        rest v e)

module _ (F : Floats) where
  abbrev pub cell : Value → Option Bytes
  cell v = if is_null v then none else some (value_to_string F v)

  abbrev pub value_bytes : Value → Bytes
  value_bytes v = if is_null v then 0xFB ∷ [] else lenenc_string_bytes (value_to_string F v)

  abbrev pub row_bytes : Row → Bytes
  row_bytes [] = []
  row_bytes (v ∷ vs) = value_bytes v ++ row_bytes vs

  write_value-Writes : (v : Value) → Writes (write_value F v) (value_bytes v)
  unfolding write_value
  write_value-Writes v = elim (Bool-cases (is_null v)) [
    | inl e ↦ rw e (write_uint8-Writes 0xFB)
    | inr e ↦ rw e (write_lenenc_string-Writes (value_to_string F v))
  ]

  row_payload-Writes : (row : Row) → Writes (row_payload F row) (row_bytes row)
  unfolding row_payload
  row_payload-Writes [] = record { valid = λ b v. v; appends = λ b v. sym (append-nil (unread b)) }
  row_payload-Writes (v ∷ vs) =
      Writes-then (write_value F v) (row_payload F vs) (value_bytes v) (row_bytes vs)
        (write_value-Writes v) (row_payload-Writes vs)

  -- The texts of the values fit the lengths that can be sent.
  abbrev pub TextsFit : Row → Type 0
  TextsFit [] = Unit
  TextsFit (v ∷ vs) = (length (value_to_string F v) < 2 ^ 64) × TextsFit vs

  read_cell-Reads :
      (v : Value) → length (value_to_string F v) < 2 ^ 64 → Reads read_cell (value_bytes v) (cell v)
  read_cell-Reads v h = elim (Bool-cases (is_null v)) [
    | inl e ↦ rw e read_null-Reads
    | inr e ↦ rw e (read_text-Reads (value_to_string F v) h)
  ]

  read_cells-Reads :
      (row : Row) → TextsFit row → Reads (read_cells (length row)) (row_bytes row) (map cell row)
  unfolding read_cells
  read_cells-Reads [] f = Reads-pure []
  read_cells-Reads (v ∷ vs) (h, f) =
      Reads-bind read_cell _ (value_bytes v) (row_bytes vs) (cell v) _ (read_cell-Reads v h)
        (Reads-last (read_cells (length vs)) _ (row_bytes vs) (map cell vs) (read_cells-Reads vs f))

  pub row_encode-Writes :
      (row : Row) (seq : ℕ) → Writes (row_encode F row seq) (packet_bytes (row_bytes row) seq)
  unfolding row_encode
  row_encode-Writes row seq =
      framed-Writes (row_payload F row) (row_bytes row) seq (row_payload-Writes row)

  -- A row whose payload is below 2^24 bytes, encoded onto a buffer with nothing unread and followed
  -- by other bytes: a client that reads as many cells as the row has values gets NULL for every
  -- NULL value and the text of every other value, in order, and the other bytes are left.
  pub row_encode-read :
      (row : Row) (rest : Bytes) (seq : ℕ) (b : Buffer)
      → TextsFit row
      → length (row_bytes row) < 2 ^ 24
      → seq < 2 ^ 8
      → IsValid b
      → unread b ≡ []
      → Returns
          (read_row (length row))
          (append rest (row_encode F row seq b))
          (some (map cell row))
          rest
  unfolding read_row
  row_encode-read row rest seq b f h k v e =
      read-write (row_encode F row seq) (append rest) (read_row (length row))
        (packet_bytes (row_bytes row) seq) rest (some (map cell row)) b (row_encode-Writes row seq)
        (append-Writes rest)
        (packet-Reads (λ len. read_cells (length row) >>= λ cs. pure (some cs)) none (row_bytes row)
          seq (some (map cell row)) h k
          (Reads-last (read_cells (length row)) some (row_bytes row) (map cell row)
            (read_cells-Reads row f)))
        v e

  length-value_bytes :
      (v : Value)
      → length (value_bytes v) ≡ (if is_null v then 1 else text_size (value_to_string F v))
  unfolding text_size scatter
  length-value_bytes v =
      ground
        (arith, length-append (lenenc_bytes (length (value_to_string F v))) (value_to_string F v))

  length-row_bytes : (row : Row) → length (row_bytes row) ≡ row_get_payload_length F row
  unfolding row_get_payload_length
  length-row_bytes [] = refl
  length-row_bytes (v ∷ vs) = omega (
    arith,
    length-append {0} (value_bytes v) (row_bytes vs),
    length-value_bytes v,
    length-row_bytes vs,
  )

  -- `getPayloadLength` is the number of bytes in the payload that `encode` builds: for a row always,
  -- and for a column definition where each of its names is below 251 bytes.
  pub result_set_get_payload_length-encode :
      (row : Row) (p : ColumnDefinitionPacket)
      → NamesFit p
      → (readable_bytes (row_payload F row empty) ≡ row_get_payload_length F row)
        × (readable_bytes (column_payload p empty) ≡ column_get_payload_length p)
  result_set_get_payload_length-encode row p f = (
    readable-payload (row_payload F row) (row_bytes row) (row_payload-Writes row)
        ∙ length-row_bytes row,
    readable-column_payload p f,
  )
