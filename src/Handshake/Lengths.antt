-- ===== src/Handshake/Lengths.antt =====
-- src/protocol/handshake.cpp: the announced lengths of the two packets.
use tiny_sql.Prelude.{
  ℕ, ◌+◌, Bool, true, false, [], ◌∷◌, ◌++◌, ◌≡◌, refl, ◌∙◌, arith, length, take, drop, Bytes,
  length-append, length-take, length-drop,
}
use tiny_sql.Buffer.{empty, readable_bytes, uint32_bytes, scatter}
use tiny_sql.Buffer.Reads.{lenenc_bytes}
use tiny_sql.Response.Encoding.{readable-payload}
use tiny_sql.Handshake.{
  HandshakeV10, HandshakeResponse41, has_flag, client_plugin_auth, client_connect_with_db, zeros,
  v10_payload, optional_size, v10_get_payload_length, response41_payload, ladder_size,
  auth_response_size, response41_get_payload_length,
}
use tiny_sql.Handshake.Encoding.{
  auth_bytes, length-low_bytes, low_bytes, optional_bytes, response41_bytes,
  response41_payload-Writes, v10_flag_bytes, v10_main_bytes, v10_name_bytes, v10_payload-Writes,
}

length-optional_bytes :
    (set : Bool) (s : Bytes) → length (optional_bytes set s) ≡ optional_size set s
unfolding optional_size
length-optional_bytes true s = length-append s (0 ∷ [])
length-optional_bytes false s = refl

ladder_size-eq : (x : ℕ) → ladder_size x ≡ length (lenenc_bytes x)
unfolding ladder_size scatter
ladder_size-eq x = ground arith

length-auth_bytes :
    (flags : ℕ) (response : Bytes)
    → length (auth_bytes flags response) ≡ auth_response_size flags response
unfolding auth_response_size
length-auth_bytes flags response = ground (
  arith,
  ladder_size-eq (length response),
  length-append (lenenc_bytes (length response)) response,
  length-append response (0 ∷ []),
)

-- The array has twenty bytes, and its two parts are eight and twelve.
v10_auth_length :
    (bytes : Bytes)
    → length bytes ≡ 20
    → length (low_bytes (take 8 bytes)) + length (low_bytes (take 12 (drop 8 bytes))) ≡ 20
v10_auth_length bytes h = omega (
  arith,
  length-low_bytes (take 8 bytes),
  length-low_bytes (take 12 (drop 8 bytes)),
  length-take {0} 8 bytes,
  length-take {0} 12 (drop 8 bytes),
  length-drop 8 bytes,
)

v10_length :
    (p : HandshakeV10)
    → length p.auth_plugin_data ≡ 20
    → length (v10_main_bytes p ++ (0 ∷ v10_name_bytes p)) ≡ v10_get_payload_length p
unfolding v10_get_payload_length zeros low_bytes
v10_length p h =
    let first = low_bytes (take 8 p.auth_plugin_data) in
    let second = low_bytes (take 12 (drop 8 p.auth_plugin_data)) in
    let flags = 0 ∷ (v10_flag_bytes p ++ (low_bytes (zeros 10) ++ second)) in
    let numbers = uint32_bytes p.connection_id ++ (first ++ flags) in
    omega (
      arith,
      length-append {0} (v10_main_bytes p) (0 ∷ v10_name_bytes p),
      length-append {0} (p.server_version ++ 0 ∷ []) numbers,
      length-append {0} p.server_version (0 ∷ []),
      length-append {0} first flags,
      v10_auth_length p.auth_plugin_data h,
      length-optional_bytes (has_flag p.capability_flags client_plugin_auth) p.auth_plugin_name,
    )

pub response41_length :
    (p : HandshakeResponse41) → length (response41_bytes p) ≡ response41_get_payload_length p
unfolding response41_get_payload_length zeros low_bytes
response41_length p =
    let database = optional_bytes (has_flag p.capability_flags client_connect_with_db) p.database in
    let name = optional_bytes (has_flag p.capability_flags client_plugin_auth) p.auth_plugin_name in
    let response = auth_bytes p.capability_flags p.auth_response in
    omega (
      arith,
      length-append {0} (p.username ++ 0 ∷ []) (response ++ (database ++ name)),
      length-append {0} p.username (0 ∷ []),
      length-append {0} response (database ++ name),
      length-append {0} database name,
      length-auth_bytes p.capability_flags p.auth_response,
      length-optional_bytes (has_flag p.capability_flags client_connect_with_db) p.database,
      length-optional_bytes (has_flag p.capability_flags client_plugin_auth) p.auth_plugin_name,
    )

-- `getPayloadLength` of a greeting with its twenty bytes of authentication data, and of an answer,
-- is the number of bytes in the payload that `encode` builds, whatever the flags and the fields.
pub handshake_get_payload_length-encode :
    (p : HandshakeV10) (q : HandshakeResponse41)
    → length p.auth_plugin_data ≡ 20
    → (readable_bytes (v10_payload p empty) ≡ v10_get_payload_length p)
      × (readable_bytes (response41_payload q empty) ≡ response41_get_payload_length q)
handshake_get_payload_length-encode p q h = (
  readable-payload (v10_payload p) _ (v10_payload-Writes p) ∙ v10_length p h,
  readable-payload (response41_payload q) _ (response41_payload-Writes q) ∙ response41_length q,
)
