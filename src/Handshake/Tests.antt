-- ===== src/Handshake/Tests.antt =====
-- The theorems on the greeting and the answer at concrete inputs.
use tiny_sql.Prelude.{true, ◌+◌, ◌++◌, ◌≡◌, refl, arith, Bytes, codes, length}
use tiny_sql.Buffer.{empty, append, readable_bytes}
use tiny_sql.Buffer.RoundTrip.{Returns}
use tiny_sql.Buffer.Writes.{empty-IsValid, unread-empty}
use tiny_sql.Handshake.{
  HandshakeV10, HandshakeResponse41, has_flag, zeros, new_handshake, v10_payload, v10_encode,
  v10_decode, v10_get_payload_length, response41_payload, response41_encode, response41_decode,
  response41_get_payload_length, client_connect_with_db, client_secure_connection,
  client_plugin_auth,
}
use tiny_sql.Handshake.Encoding.{low_bytes}
use tiny_sql.Handshake.Lengths.{handshake_get_payload_length-encode}
use tiny_sql.Handshake.RoundTrip.{AuthFits, Response41Fits, received, response41_decode-encode}
use tiny_sql.Handshake.Greeting.{V10Fits, greeted, v10_left_bytes, v10_decode-encode}

abbrev random : Bytes
random = codes "abcdefghijklmnopqrst"

abbrev greeting : HandshakeV10
greeting = new_handshake random

greeting-V10Fits : V10Fits greeting
unfolding new_handshake low_bytes has_flag zeros
greeting-V10Fits = record {
  protocol_version_fits = omega arith;
  server_version_fits = omega arith;
  connection_id_fits = omega arith;
  auth_plugin_data_size = refl;
  auth_plugin_data_fits = refl;
  capability_flags_fits = omega arith;
  character_set_fits = omega arith;
  status_flags_fits = omega arith;
  payload_fits = omega arith;
}

greeting_size : length greeting.auth_plugin_data ≡ 20
unfolding new_handshake
greeting_size = refl

abbrev answer : HandshakeResponse41
answer = record {
  capability_flags = client_connect_with_db + client_secure_connection + client_plugin_auth;
  max_packet_size = 65536;
  character_set = 45;
  username = codes "me";
  auth_response = codes "secret";
  database = codes "db";
  auth_plugin_name = codes "np";
}

answer-AuthFits : AuthFits answer.capability_flags answer.auth_response
unfolding has_flag
answer-AuthFits = record { one_byte_fits = λ a b. omega arith; text_fits = λ a b. cc }

answer-Response41Fits : Response41Fits answer
unfolding has_flag zeros low_bytes
answer-Response41Fits = record {
  capability_flags_fits = omega arith;
  max_packet_size_fits = omega arith;
  character_set_fits = omega arith;
  username_fits = ((λ e. cc), ((λ e. cc), tt));
  auth_response_fits = answer-AuthFits;
  database_fits = ((λ e. cc), ((λ e. cc), tt));
  auth_plugin_name_fits = ((λ e. cc), ((λ e. cc), tt));
  payload_fits = omega arith;
}

handshake_get_payload_length-encode_example :
    (readable_bytes (v10_payload greeting empty) ≡ v10_get_payload_length greeting)
    × (readable_bytes (response41_payload answer empty) ≡ response41_get_payload_length answer)
handshake_get_payload_length-encode_example =
    handshake_get_payload_length-encode greeting answer greeting_size

response41_decode-encode_example :
    Returns
      (response41_decode answer)
      (append (codes "z") (response41_encode answer 1 empty))
      (true, received answer answer)
      (codes "z")
response41_decode-encode_example =
    response41_decode-encode answer answer (codes "z") 1 empty answer-Response41Fits (omega arith)
      empty-IsValid unread-empty

v10_decode-encode_example :
    Returns
      (v10_decode greeting)
      (append (codes "z") (v10_encode greeting 0 empty))
      (true, greeted greeting greeting)
      (v10_left_bytes greeting ++ codes "z")
v10_decode-encode_example =
    v10_decode-encode greeting greeting (codes "z") 0 empty greeting-V10Fits greeting_size
      (omega arith) empty-IsValid unread-empty
