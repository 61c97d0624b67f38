-- ===== src/Handshake/RoundTrip.antt =====
-- src/protocol/handshake.cpp: `decode` of an answer on what `encode` sends.
use tiny_sql.Prelude.{
  ℕ, ◌%◌, ◌^◌, ◌<◌, Bool, true, false, [], ◌∷◌, ◌++◌, ◌≡◌, arith, if◌then◌else◌, length, Bytes,
  Bool-cases, inl, inr, subst,
}
use tiny_sql.Buffer.{
  Buffer, unread, append, read_uint8, read_uint32, read_null_terminated_string, read_lenenc_int,
  retrieve, uint8_bytes, uint32_bytes,
}
use tiny_sql.Buffer.Valid.{IsValid}
use tiny_sql.Buffer.Reads.{
  Reads, Reads-bind, Reads-pure, lenenc_bytes, HasNoNull, read_uint8-Reads, read_uint32-Reads,
  read_null_terminated_string-Reads, read_lenenc_int-Reads, retrieve-Reads,
}
use tiny_sql.Buffer.Writes.{append-Writes}
use tiny_sql.Buffer.RoundTrip.{Returns, read-write}
use tiny_sql.Packet.Framing.{packet_bytes, packet-Reads}
use tiny_sql.Response.RoundTrip.{Reads-last}
use tiny_sql.Handshake.{
  HandshakeResponse41, has_flag, client_plugin_auth, client_connect_with_db,
  client_secure_connection, client_plugin_auth_lenenc_client_data, read_each, zeros, read_optional,
  read_auth_response, response41_body, response41_decode, response41_encode,
  response41_get_payload_length, auth_response_size,
}
use tiny_sql.Handshake.Encoding.{
  low_bytes, optional_bytes, auth_bytes, response41_bytes, response41_encode-Writes,
  length-low_bytes,
}
use tiny_sql.Handshake.Lengths.{response41_length}

pub read_low-Reads : (x : ℕ) → x < 2 ^ 8 → Reads read_uint8 (uint8_bytes x) x
read_low-Reads x h =
    subst (Reads read_uint8 (uint8_bytes x)) (omega arith) (read_uint8-Reads (x % 2 ^ 8))

read_each-Reads : (s : Bytes) → Reads (read_each (length s)) s s
unfolding read_each
read_each-Reads [] = Reads-pure []
read_each-Reads (c ∷ s) =
    Reads-bind read_uint8 _ (c ∷ []) s c (c ∷ s) (read_uint8-Reads c)
      (Reads-last (read_each (length s)) _ s s (read_each-Reads s))

pub read_count-Reads : (n : ℕ) (s : Bytes) → length s ≡ n → Reads (read_each n) s s
read_count-Reads n s h = subst (λ k. Reads (read_each k) s s) h (read_each-Reads s)

pub read_optional-Reads :
    (set : Bool) (old s : Bytes)
    → HasNoNull s
    → Reads (read_optional set old) (optional_bytes set s) (if set then s else old)
unfolding read_optional
read_optional-Reads true old s h = read_null_terminated_string-Reads s h
read_optional-Reads false old s h = Reads-pure old

-- Where the length of the authentication data is one byte, and where a zero byte ends it.
pub record AuthFits (flags : ℕ) (response : Bytes) : Type 0 where
  pub one_byte_fits :
      has_flag flags client_plugin_auth_lenenc_client_data ≡ false
      → has_flag flags client_secure_connection ≡ true
      → length response < 2 ^ 8
  pub text_fits :
      has_flag flags client_plugin_auth_lenenc_client_data ≡ false
      → has_flag flags client_secure_connection ≡ false
      → HasNoNull response

-- The values that the fields of an answer can hold, and a payload that one packet can carry.
pub record Response41Fits (p : HandshakeResponse41) : Type 0 where
  pub capability_flags_fits : p.capability_flags < 2 ^ 32
  pub max_packet_size_fits : p.max_packet_size < 2 ^ 32
  pub character_set_fits : p.character_set < 2 ^ 8
  pub username_fits : HasNoNull p.username
  pub auth_response_fits : AuthFits p.capability_flags p.auth_response
  pub database_fits : HasNoNull p.database
  pub auth_plugin_name_fits : HasNoNull p.auth_plugin_name
  pub payload_fits : length (response41_bytes p) < 2 ^ 24

read_auth_response-Reads :
    (flags : ℕ) (response : Bytes)
    → length response < 2 ^ 64
    → AuthFits flags response
    → Reads (read_auth_response flags) (auth_bytes flags response) response
unfolding read_auth_response
read_auth_response-Reads flags response small f =
    elim (Bool-cases (has_flag flags client_plugin_auth_lenenc_client_data)) [
      | inl counted ↦ rw counted (
          Reads-bind read_lenenc_int retrieve (lenenc_bytes (length response)) response
            (length response) response (read_lenenc_int-Reads (length response) small)
            (retrieve-Reads response))
      | inr plain ↦ rw plain (elim (Bool-cases (has_flag flags client_secure_connection)) [
        | inl one ↦ rw one (
            Reads-bind read_uint8 retrieve (length response % 2 ^ 8 ∷ []) response (length response)
              response (read_low-Reads (length response) (f.one_byte_fits plain one))
              (retrieve-Reads response))
        | inr old ↦ rw old (read_null_terminated_string-Reads response (f.text_fits plain old))
      ])
    ]

-- What `decode` makes of an answer: a string that is not sent stays as it was.
abbrev pub received : HandshakeResponse41 → HandshakeResponse41 → HandshakeResponse41
received old p = record p {
  database =
      if has_flag p.capability_flags client_connect_with_db then p.database else old.database;
  auth_plugin_name =
      if has_flag p.capability_flags client_plugin_auth
      then p.auth_plugin_name
      else old.auth_plugin_name;
}

response_small :
    (p : HandshakeResponse41)
    → length (response41_bytes p) < 2 ^ 24
    → length p.auth_response < 2 ^ 64
unfolding response41_get_payload_length auth_response_size
response_small p h = ground (arith, response41_length p)

response41_body-Reads :
    (old p : HandshakeResponse41)
    → Response41Fits p
    → Reads (response41_body old) (response41_bytes p) (true, received old p)
unfolding response41_body zeros
response41_body-Reads old p f =
    let with_db = has_flag p.capability_flags client_connect_with_db in
    let with_name = has_flag p.capability_flags client_plugin_auth in
    let name = optional_bytes with_name p.auth_plugin_name in
    let after_auth = optional_bytes with_db p.database ++ name in
    let after_user = auth_bytes p.capability_flags p.auth_response ++ after_auth in
    let after_zeros = (p.username ++ 0 ∷ []) ++ after_user in
    let after_charset = low_bytes (zeros 23) ++ after_zeros in
    let after_max = uint8_bytes p.character_set ++ after_charset in
    let result : Bool × HandshakeResponse41 = (true, received old p) in
    Reads-bind read_uint32 _ (uint32_bytes p.capability_flags)
      (uint32_bytes p.max_packet_size ++ after_max) p.capability_flags result
      (read_uint32-Reads p.capability_flags f.capability_flags_fits)
      (Reads-bind read_uint32 _ (uint32_bytes p.max_packet_size) after_max p.max_packet_size result
        (read_uint32-Reads p.max_packet_size f.max_packet_size_fits)
        (Reads-bind read_uint8 _ (uint8_bytes p.character_set) after_charset p.character_set result
          (read_low-Reads p.character_set f.character_set_fits)
          (Reads-bind (read_each 23) _ (low_bytes (zeros 23)) after_zeros (low_bytes (zeros 23))
            result (read_count-Reads 23 (low_bytes (zeros 23)) (length-low_bytes (zeros 23)))
            (Reads-bind read_null_terminated_string _ (p.username ++ 0 ∷ []) after_user p.username
              result (read_null_terminated_string-Reads p.username f.username_fits)
              (Reads-bind (read_auth_response p.capability_flags) _
                (auth_bytes p.capability_flags p.auth_response) after_auth p.auth_response result
                (read_auth_response-Reads p.capability_flags p.auth_response
                  (response_small p f.payload_fits) f.auth_response_fits)
                (Reads-bind (read_optional with_db old.database) _
                  (optional_bytes with_db p.database) name _ result
                  (read_optional-Reads with_db old.database p.database f.database_fits)
                  (Reads-last (read_optional with_name old.auth_plugin_name) _ name _ (
                    read_optional-Reads with_name old.auth_plugin_name p.auth_plugin_name
                      f.auth_plugin_name_fits))))))))

pub response41_decode-Reads :
    (p old : HandshakeResponse41) (seq : ℕ)
    → Response41Fits p
    → seq < 2 ^ 8
    → Reads (response41_decode old) (packet_bytes (response41_bytes p) seq) (true, received old p)
unfolding response41_decode
response41_decode-Reads p old seq f k =
    packet-Reads (λ n. response41_body old) (false, old) (response41_bytes p) seq
      (true, received old p) f.payload_fits k (response41_body-Reads old p f)

-- An answer whose fields fit their types and whose payload is below 2^24 bytes, encoded onto a
-- buffer with nothing unread and followed by other bytes, is decoded with the same fields, whatever
-- form its flags choose for the authentication data, and the other bytes are left. The database or
-- the plugin name stays as the object decoded into has it where the flags leave it out.
pub response41_decode-encode :
    (p old : HandshakeResponse41) (rest : Bytes) (seq : ℕ) (b : Buffer)
    → Response41Fits p
    → seq < 2 ^ 8
    → IsValid b
    → unread b ≡ []
    → Returns
        (response41_decode old)
        (append rest (response41_encode p seq b))
        (true, received old p)
        rest
response41_decode-encode p old rest seq b f k v e =
    read-write (response41_encode p seq) (append rest) (response41_decode old)
      (packet_bytes (response41_bytes p) seq) rest (true, received old p) b
      (response41_encode-Writes p seq) (append-Writes rest) (response41_decode-Reads p old seq f k)
      v e
