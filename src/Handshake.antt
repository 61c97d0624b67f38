-- ===== src/Handshake.antt =====
-- src/protocol/handshake.cpp, include/tiny_sql/protocol/handshake.h: the greeting that the server
-- sends first and the client's answer.
--
-- The twenty bytes of `auth_plugin_data_` are a list, and the random ones that the constructor puts
-- there are its argument. `|` of bits that do not overlap is `+`.
pub mod Encoding
pub mod Lengths
pub mod RoundTrip
pub mod Greeting
mod Tests
use tiny_sql.Prelude.{
  ℕ, zero, suc, ◌+◌, ◌-◌, ◌*◌, ◌/◌, ◌%◌, ◌^◌, Bool, true, false, Option, none, some, List, [], ◌∷◌,
  ◌++◌, ltb, ◌==◌, if◌then◌else◌, length, take, drop, Bytes, codes, Outcome, done, thrown, pure,
  ◌>>=◌, ◌>>◌, max,
}
use tiny_sql.Buffer.{
  Buffer, BufferM, empty, read_uint8, read_uint16, read_uint32, read_null_terminated_string,
  read_lenenc_int, retrieve, append, write_uint8, write_uint16, write_uint32, write_string,
  write_lenenc_int,
}
use tiny_sql.Packet.{frame, open_packet}

-- `namespace CapabilityFlags`: the flags that the server offers or looks at.
abbrev pub client_long_password : ℕ
client_long_password = 0x00000001

abbrev pub client_connect_with_db : ℕ
client_connect_with_db = 0x00000008

abbrev pub client_protocol_41 : ℕ
client_protocol_41 = 0x00000200

abbrev pub client_secure_connection : ℕ
client_secure_connection = 0x00008000

abbrev pub client_plugin_auth : ℕ
client_plugin_auth = 0x00080000

abbrev pub client_plugin_auth_lenenc_client_data : ℕ
client_plugin_auth_lenenc_client_data = 0x00200000

abbrev pub client_deprecate_eof : ℕ
client_deprecate_eof = 0x01000000

-- `flags & flag`, for a flag of one bit.
unfoldable pub has_flag : ℕ → ℕ → Bool
has_flag flags flag = flags / flag % 2 == 1

pub record HandshakeV10 : Type 0 where
  pub protocol_version : ℕ
  pub server_version : Bytes
  pub connection_id : ℕ
  pub auth_plugin_data : Bytes
  pub capability_flags : ℕ
  pub character_set : ℕ
  pub status_flags : ℕ
  pub auth_plugin_name : Bytes

pub record HandshakeResponse41 : Type 0 where
  pub capability_flags : ℕ
  pub max_packet_size : ℕ
  pub character_set : ℕ
  pub username : Bytes
  pub auth_response : Bytes
  pub database : Bytes
  pub auth_plugin_name : Bytes

-- The constructor, with the bytes that `generateAuthPluginData` draws.
unfoldable pub new_handshake : Bytes → HandshakeV10
new_handshake random = record {
  protocol_version = 10;
  server_version = codes "1.0.0-tiny-sql";
  connection_id = 0;
  auth_plugin_data = random;
  capability_flags =
      client_long_password + client_protocol_41 + client_secure_connection + client_plugin_auth
      + client_connect_with_db + client_deprecate_eof;
  character_set = 45;
  status_flags = 0x0002;
  auth_plugin_name = codes "mysql_native_password";
}

-- The loops that read and write single bytes.
pub read_each : ℕ → BufferM Bytes
read_each zero = pure []
read_each (suc n) = do c ← read_uint8; s ← read_each n; pure (c ∷ s)

write_each : Bytes → Buffer → Buffer
write_each [] b = b
write_each (c ∷ s) b = write_each s (write_uint8 c b)

unfoldable pub zeros : ℕ → Bytes
zeros zero = []
zeros (suc n) = 0 ∷ zeros n

-- A string and its terminator, and the same under a flag.
write_terminated : Bytes → Buffer → Buffer
write_terminated str b = write_uint8 0 (write_string str b)

write_optional : Bool → Bytes → Buffer → Buffer
write_optional true str b = write_terminated str b
write_optional false str b = b

pub read_optional : Bool → Bytes → BufferM Bytes
read_optional true old = read_null_terminated_string
read_optional false old = pure old

-- The number of rounds of the loop over the second part of the authentication data.
rest_rounds : ℕ → ℕ
rest_rounds len = let n = max 13 (len - 8) in if ltb n 12 then n else 12

v10_auth : HandshakeV10 → Bytes → ℕ → BufferM (Bool × HandshakeV10)
v10_auth p first auth_plugin_data_len = do
  reserved ← read_each 10
  second ← read_each (rest_rounds auth_plugin_data_len)
  auth_plugin_name ←
      read_optional (has_flag p.capability_flags client_plugin_auth) p.auth_plugin_name
  pure (
    true,
    record p {
      auth_plugin_data = first ++ (second ++ drop (length second) (drop 8 p.auth_plugin_data));
      auth_plugin_name = auth_plugin_name;
    },
  )

v10_body : HandshakeV10 → BufferM (Bool × HandshakeV10)
v10_body p = do
  protocol_version ← read_uint8
  server_version ← read_null_terminated_string
  connection_id ← read_uint32
  first ← read_each 8
  filler ← read_uint8
  cap_lower ← read_uint16
  character_set ← read_uint8
  status_flags ← read_uint16
  cap_upper ← read_uint16
  auth_plugin_data_len ← read_uint8
  v10_auth
      (record {
        protocol_version = protocol_version;
        server_version = server_version;
        connection_id = connection_id;
        auth_plugin_data = p.auth_plugin_data;
        capability_flags = cap_upper * 2 ^ 16 + cap_lower;
        character_set = character_set;
        status_flags = status_flags;
        auth_plugin_name = p.auth_plugin_name;
      })
      first auth_plugin_data_len

pub v10_decode : HandshakeV10 → BufferM (Bool × HandshakeV10)
v10_decode p = do opened ← open_packet; elim opened [ none ↦ pure (false, p) | some n ↦ v10_body p ]

-- The fields in front of the authentication data, and the rest.
v10_front : HandshakeV10 → Buffer → Buffer
v10_front p b =
    write_uint32 p.connection_id
      (write_terminated p.server_version (write_uint8 p.protocol_version b))

v10_flags : HandshakeV10 → Buffer → Buffer
v10_flags p b = write_uint8 21 (
    write_uint16 (p.capability_flags / 2 ^ 16 % 2 ^ 16) (
      write_uint16 p.status_flags
        (write_uint8 p.character_set (write_uint16 (p.capability_flags % 2 ^ 16) b))))

pub v10_payload : HandshakeV10 → Buffer → Buffer
v10_payload p b =
    write_optional (has_flag p.capability_flags client_plugin_auth) p.auth_plugin_name (
      write_uint8 0 (
        write_each (take 12 (drop 8 p.auth_plugin_data)) (
          write_each (zeros 10) (
            v10_flags p (write_uint8 0 (write_each (take 8 p.auth_plugin_data) (v10_front p b)))))))

unfoldable pub v10_encode : HandshakeV10 → ℕ → Buffer → Buffer
v10_encode p sequence_id = frame (v10_payload p empty) sequence_id

-- What a string behind a flag takes up, with its terminator.
optional_size : Bool → Bytes → ℕ
optional_size true str = length str + 1
optional_size false str = 0

pub v10_get_payload_length : HandshakeV10 → ℕ
v10_get_payload_length p =
    1
    + (length p.server_version + 1)
    + 4
    + 8
    + 1
    + 2
    + 1
    + 2
    + 2
    + 1
    + 10
    + 12
    + 1
    + optional_size (has_flag p.capability_flags client_plugin_auth) p.auth_plugin_name

-- The answer's authentication data, in one of three forms.
read_auth_response : ℕ → BufferM Bytes
read_auth_response capability_flags =
    if has_flag capability_flags client_plugin_auth_lenenc_client_data
    then (do auth_len ← read_lenenc_int; retrieve auth_len)
    else if has_flag capability_flags client_secure_connection
    then (do auth_len ← read_uint8; retrieve auth_len)
    else read_null_terminated_string

write_auth_response : ℕ → Bytes → Buffer → Buffer
write_auth_response capability_flags response =
    if has_flag capability_flags client_plugin_auth_lenenc_client_data
    then (λ b. append response (write_lenenc_int (length response) b))
    else if has_flag capability_flags client_secure_connection
    then (λ b. append response (write_uint8 (length response % 2 ^ 8) b))
    else (λ b. write_uint8 0 (append response b))

response41_body : HandshakeResponse41 → BufferM (Bool × HandshakeResponse41)
response41_body p = do
  capability_flags ← read_uint32
  max_packet_size ← read_uint32
  character_set ← read_uint8
  reserved ← read_each 23
  username ← read_null_terminated_string
  auth_response ← read_auth_response capability_flags
  database ← read_optional (has_flag capability_flags client_connect_with_db) p.database
  auth_plugin_name ← read_optional (has_flag capability_flags client_plugin_auth) p.auth_plugin_name
  pure (
    true,
    record {
      capability_flags = capability_flags;
      max_packet_size = max_packet_size;
      character_set = character_set;
      username = username;
      auth_response = auth_response;
      database = database;
      auth_plugin_name = auth_plugin_name;
    },
  )

pub response41_decode : HandshakeResponse41 → BufferM (Bool × HandshakeResponse41)
response41_decode p = do
  opened ← open_packet
  elim opened [ none ↦ pure (false, p) | some n ↦ response41_body p ]

pub response41_payload : HandshakeResponse41 → Buffer → Buffer
response41_payload p b =
    write_optional (has_flag p.capability_flags client_plugin_auth) p.auth_plugin_name (
      write_optional (has_flag p.capability_flags client_connect_with_db) p.database (
        write_auth_response p.capability_flags p.auth_response (
          write_terminated p.username (
            write_each (zeros 23) (
              write_uint8 p.character_set
                (write_uint32 p.max_packet_size (write_uint32 p.capability_flags b)))))))

unfoldable pub response41_encode : HandshakeResponse41 → ℕ → Buffer → Buffer
response41_encode p sequence_id = frame (response41_payload p empty) sequence_id

-- The ladder that `getPayloadLength` writes out for a length-encoded number.
ladder_size : ℕ → ℕ
ladder_size x = if ltb x 251 then 1 else if ltb x 65536 then 3 else if ltb x 16777216 then 4 else 9

auth_response_size : ℕ → Bytes → ℕ
auth_response_size capability_flags response =
    if has_flag capability_flags client_plugin_auth_lenenc_client_data
    then ladder_size (length response) + length response
    else if has_flag capability_flags client_secure_connection
    then 1 + length response
    else length response + 1

pub response41_get_payload_length : HandshakeResponse41 → ℕ
response41_get_payload_length p =
    4
    + 4
    + 1
    + 23
    + (length p.username + 1)
    + auth_response_size p.capability_flags p.auth_response
    + optional_size (has_flag p.capability_flags client_connect_with_db) p.database
    + optional_size (has_flag p.capability_flags client_plugin_auth) p.auth_plugin_name
