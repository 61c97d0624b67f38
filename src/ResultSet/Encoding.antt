-- ===== src/ResultSet/Encoding.antt =====
-- src/protocol/response.cpp: the bytes of the packets of a result set, and their announced lengths.
use tiny_sql.Prelude.{
  ℕ, ◌+◌, ◌<◌, [], ◌∷◌, ◌++◌, ◌≡◌, ◌∙◌, arith, length, Bytes, length-append, append_assoc,
}
use tiny_sql.Buffer.{
  empty, readable_bytes, write_uint8, write_uint16, write_uint32, write_lenenc_string, uint8_bytes,
  uint16_bytes, uint32_bytes,
}
use tiny_sql.Buffer.Reads.{lenenc_bytes}
use tiny_sql.Buffer.Writes.{
  Writes, Writes-then, Writes-eq, write_uint8-Writes, write_uint16-Writes, write_uint32-Writes,
  write_lenenc_string-Writes,
}
use tiny_sql.Packet.Framing.{packet_bytes}
use tiny_sql.Response.Encoding.{framed-Writes, readable-payload}
use tiny_sql.ResultSet.{
  ColumnDefinitionPacket, names_payload, fixed_payload, column_payload, column_encode,
  column_get_payload_length,
}

-- A string with its length in front.
abbrev pub lenenc_string_bytes : Bytes → Bytes
lenenc_string_bytes s = lenenc_bytes (length s) ++ s

abbrev pub fixed_bytes : ColumnDefinitionPacket → Bytes
fixed_bytes p =
    0x0c
    ∷ (uint16_bytes p.charset
        ++ (uint32_bytes p.column_length
            ++ (uint8_bytes p.column_type
                ++ (uint16_bytes p.flags ++ (uint8_bytes p.decimals ++ (0 ∷ 0 ∷ []))))))

abbrev pub column_bytes : ColumnDefinitionPacket → Bytes
column_bytes p =
    lenenc_string_bytes p.catalog
    ++ (lenenc_string_bytes p.schema
        ++ (lenenc_string_bytes p.table
            ++ (lenenc_string_bytes p.org_table
                ++ (lenenc_string_bytes p.name
                    ++ (lenenc_string_bytes p.org_name ++ fixed_bytes p)))))

names_payload-Writes :
    (p : ColumnDefinitionPacket)
    → Writes (names_payload p) (
        lenenc_string_bytes p.catalog
        ++ (lenenc_string_bytes p.schema
            ++ (lenenc_string_bytes p.table
                ++ (lenenc_string_bytes p.org_table
                    ++ (lenenc_string_bytes p.name ++ lenenc_string_bytes p.org_name)))))
unfolding names_payload
names_payload-Writes p = Writes-eq _ _ (simp append_assoc) (
    Writes-then _ (write_lenenc_string p.org_name) _ _
      (Writes-then _ (write_lenenc_string p.name) _ _
        (Writes-then _ (write_lenenc_string p.org_table) _ _
          (Writes-then _ (write_lenenc_string p.table) _ _
            (Writes-then (write_lenenc_string p.catalog) (write_lenenc_string p.schema) _ _
              (write_lenenc_string-Writes p.catalog) (write_lenenc_string-Writes p.schema))
            (write_lenenc_string-Writes p.table))
          (write_lenenc_string-Writes p.org_table))
        (write_lenenc_string-Writes p.name))
      (write_lenenc_string-Writes p.org_name))

fixed_payload-Writes : (p : ColumnDefinitionPacket) → Writes (fixed_payload p) (fixed_bytes p)
unfolding fixed_payload
fixed_payload-Writes p = Writes-eq _ (fixed_bytes p) (simp append_assoc) (
    Writes-then _ (write_uint16 0) _ _
      (Writes-then _ (write_uint8 p.decimals) _ _
        (Writes-then _ (write_uint16 p.flags) _ _
          (Writes-then _ (write_uint8 p.column_type) _ _
            (Writes-then _ (write_uint32 p.column_length) _ _
              (Writes-then (write_uint8 0x0c) (write_uint16 p.charset) _ _ (write_uint8-Writes 0x0c)
                (write_uint16-Writes p.charset))
              (write_uint32-Writes p.column_length))
            (write_uint8-Writes p.column_type))
          (write_uint16-Writes p.flags))
        (write_uint8-Writes p.decimals))
      (write_uint16-Writes 0))

column_payload-Writes : (p : ColumnDefinitionPacket) → Writes (column_payload p) (column_bytes p)
unfolding column_payload
column_payload-Writes p = Writes-eq _ (column_bytes p) (simp append_assoc) (
    Writes-then (names_payload p) (fixed_payload p) _ _ (names_payload-Writes p)
      (fixed_payload-Writes p))

pub column_encode-Writes :
    (p : ColumnDefinitionPacket) (seq : ℕ)
    → Writes (column_encode p seq) (packet_bytes (column_bytes p) seq)
unfolding column_encode
column_encode-Writes p seq =
    framed-Writes (column_payload p) (column_bytes p) seq (column_payload-Writes p)

length-short_string : (s : Bytes) → length s < 251 → length (lenenc_string_bytes s) ≡ 1 + length s
length-short_string s h =
    omega (arith, length-append {0} (lenenc_bytes (length s)) s, one_byte (length s) h)
  where
    one_byte : (n : ℕ) → n < 251 → length (lenenc_bytes n) ≡ 1
    one_byte n k = ground arith

-- The names that a column definition carries are below 251 bytes.
pub record NamesFit (p : ColumnDefinitionPacket) : Type 0 where
  pub catalog_fits : length p.catalog < 251
  pub schema_fits : length p.schema < 251
  pub table_fits : length p.table < 251
  pub org_table_fits : length p.org_table < 251
  pub name_fits : length p.name < 251
  pub org_name_fits : length p.org_name < 251

length-column_bytes :
    (p : ColumnDefinitionPacket)
    → NamesFit p
    → length (column_bytes p) ≡ column_get_payload_length p
unfolding column_get_payload_length
length-column_bytes p f =
    let org = lenenc_string_bytes p.org_name ++ fixed_bytes p in
    let name = lenenc_string_bytes p.name ++ org in
    let org_table = lenenc_string_bytes p.org_table ++ name in
    let table = lenenc_string_bytes p.table ++ org_table in
    omega (
      arith,
      length-append {0} (lenenc_string_bytes p.catalog) (lenenc_string_bytes p.schema ++ table),
      length-append {0} (lenenc_string_bytes p.schema) table,
      length-append {0} (lenenc_string_bytes p.table) org_table,
      length-append {0} (lenenc_string_bytes p.org_table) name,
      length-append {0} (lenenc_string_bytes p.name) org,
      length-append {0} (lenenc_string_bytes p.org_name) (fixed_bytes p),
      length-short_string p.catalog f.catalog_fits,
      length-short_string p.schema f.schema_fits,
      length-short_string p.table f.table_fits,
      length-short_string p.org_table f.org_table_fits,
      length-short_string p.name f.name_fits,
      length-short_string p.org_name f.org_name_fits,
    )

pub readable-column_payload :
    (p : ColumnDefinitionPacket)
    → NamesFit p
    → readable_bytes (column_payload p empty) ≡ column_get_payload_length p
readable-column_payload p f =
    readable-payload (column_payload p) (column_bytes p) (column_payload-Writes p)
    ∙ length-column_bytes p f
