-- ===== src/Handshake/Encoding.antt =====
-- src/protocol/handshake.cpp: the bytes of the two packets.
use tiny_sql.Prelude.{
  ℕ, zero, suc, ◌/◌, ◌%◌, ◌^◌, Bool, true, false, [], ◌∷◌, ◌++◌, ◌≡◌, refl, sym, ap, arith,
  if◌then◌else◌, length, take, drop, Bytes, append-nil, append_assoc, Bool-cases, inl, inr,
}
use tiny_sql.Buffer.{
  unread, write_uint8, write_uint16, write_uint32, write_string, append, write_lenenc_int,
  uint8_bytes, uint16_bytes, uint32_bytes,
}
use tiny_sql.Buffer.Reads.{lenenc_bytes}
use tiny_sql.Buffer.Writes.{
  Writes, Writes-then, Writes-eq, write_uint8-Writes, write_uint16-Writes, write_uint32-Writes,
  write_string-Writes, append-Writes, write_lenenc_int-Writes,
}
use tiny_sql.Packet.Framing.{packet_bytes}
use tiny_sql.Response.Encoding.{framed-Writes}
use tiny_sql.Handshake.{
  HandshakeV10, HandshakeResponse41, has_flag, client_plugin_auth, client_connect_with_db,
  client_secure_connection, client_plugin_auth_lenenc_client_data, write_each, zeros,
  write_terminated, write_optional, v10_front, v10_flags, v10_payload, v10_encode,
  write_auth_response, response41_payload, response41_encode,
}

-- The low byte of each element.
unfoldable pub low_bytes : Bytes → Bytes
low_bytes [] = []
low_bytes (c ∷ s) = c % 2 ^ 8 ∷ low_bytes s

abbrev pub optional_bytes : Bool → Bytes → Bytes
optional_bytes true s = s ++ 0 ∷ []
optional_bytes false s = []

write_each-Writes : (s : Bytes) → Writes (write_each s) (low_bytes s)
unfolding write_each low_bytes
write_each-Writes [] = record { valid = λ b v. v; appends = λ b v. sym (append-nil (unread b)) }
write_each-Writes (c ∷ s) =
    Writes-then (write_uint8 c) (write_each s) (uint8_bytes c) (low_bytes s) (write_uint8-Writes c)
      (write_each-Writes s)

write_terminated-Writes : (s : Bytes) → Writes (write_terminated s) (s ++ 0 ∷ [])
unfolding write_terminated
write_terminated-Writes s =
    Writes-then (write_string s) (write_uint8 0) s (0 ∷ []) (write_string-Writes s)
      (write_uint8-Writes 0)

write_optional-Writes :
    (set : Bool) (s : Bytes) → Writes (write_optional set s) (optional_bytes set s)
unfolding write_optional
write_optional-Writes true s = write_terminated-Writes s
write_optional-Writes false s = record {
  valid = λ b v. v;
  appends = λ b v. sym (append-nil (unread b));
}

-- The payload of a greeting up to the terminator of the authentication data, and what follows.
abbrev pub v10_flag_bytes : HandshakeV10 → Bytes
v10_flag_bytes p =
    uint16_bytes (p.capability_flags % 2 ^ 16)
    ++ (uint8_bytes p.character_set
        ++ (uint16_bytes p.status_flags
            ++ (uint16_bytes (p.capability_flags / 2 ^ 16 % 2 ^ 16) ++ (21 ∷ []))))

abbrev pub v10_main_bytes : HandshakeV10 → Bytes
v10_main_bytes p =
    uint8_bytes p.protocol_version
    ++ ((p.server_version ++ 0 ∷ [])
        ++ (uint32_bytes p.connection_id
            ++ (low_bytes (take 8 p.auth_plugin_data)
                ++ (0
                    ∷ (v10_flag_bytes p
                        ++ (low_bytes (zeros 10)
                            ++ low_bytes (take 12 (drop 8 p.auth_plugin_data))))))))

abbrev pub v10_name_bytes : HandshakeV10 → Bytes
v10_name_bytes p =
    optional_bytes (has_flag p.capability_flags client_plugin_auth) p.auth_plugin_name

v10_flags-Writes : (p : HandshakeV10) → Writes (v10_flags p) (v10_flag_bytes p)
unfolding v10_flags
v10_flags-Writes p = Writes-eq _ (v10_flag_bytes p) (simp append_assoc) (
    Writes-then _ (write_uint8 21) _ _
      (Writes-then _ (write_uint16 (p.capability_flags / 2 ^ 16 % 2 ^ 16)) _ _
        (Writes-then _ (write_uint16 p.status_flags) _ _
          (Writes-then (write_uint16 (p.capability_flags % 2 ^ 16)) (write_uint8 p.character_set) _
            _ (write_uint16-Writes (p.capability_flags % 2 ^ 16))
            (write_uint8-Writes p.character_set))
          (write_uint16-Writes p.status_flags))
        (write_uint16-Writes (p.capability_flags / 2 ^ 16 % 2 ^ 16)))
      (write_uint8-Writes 21))

v10_front-Writes :
    (p : HandshakeV10)
    → Writes (v10_front p) (
        uint8_bytes p.protocol_version
        ++ ((p.server_version ++ 0 ∷ []) ++ uint32_bytes p.connection_id))
unfolding v10_front
v10_front-Writes p = Writes-eq _ _ (simp append_assoc) (
    Writes-then _ (write_uint32 p.connection_id) _ _
      (Writes-then (write_uint8 p.protocol_version) (write_terminated p.server_version) _ _
        (write_uint8-Writes p.protocol_version) (write_terminated-Writes p.server_version))
      (write_uint32-Writes p.connection_id))

pub v10_payload-Writes :
    (p : HandshakeV10) → Writes (v10_payload p) (v10_main_bytes p ++ (0 ∷ v10_name_bytes p))
unfolding v10_payload
v10_payload-Writes p =
    let first = take 8 p.auth_plugin_data in
    let second = take 12 (drop 8 p.auth_plugin_data) in
    let set = has_flag p.capability_flags client_plugin_auth in
    Writes-eq _ _ (simp append_assoc) (
      Writes-then _ (write_optional set p.auth_plugin_name) _ _
        (Writes-then _ (write_uint8 0) _ _
          (Writes-then _ (write_each second) _ _
            (Writes-then _ (write_each (zeros 10)) _ _
              (Writes-then _ (v10_flags p) _ _
                (Writes-then _ (write_uint8 0) _ _
                  (Writes-then (v10_front p) (write_each first) _ _ (v10_front-Writes p)
                    (write_each-Writes first))
                  (write_uint8-Writes 0))
                (v10_flags-Writes p))
              (write_each-Writes (zeros 10)))
            (write_each-Writes second))
          (write_uint8-Writes 0))
        (write_optional-Writes set p.auth_plugin_name))

pub v10_encode-Writes :
    (p : HandshakeV10) (seq : ℕ)
    → Writes (v10_encode p seq) (packet_bytes (v10_main_bytes p ++ (0 ∷ v10_name_bytes p)) seq)
unfolding v10_encode
v10_encode-Writes p seq = framed-Writes (v10_payload p) _ seq (v10_payload-Writes p)

-- The authentication data of an answer, in one of three forms.
abbrev pub auth_bytes : ℕ → Bytes → Bytes
auth_bytes flags response =
    if has_flag flags client_plugin_auth_lenenc_client_data
    then lenenc_bytes (length response) ++ response
    else if has_flag flags client_secure_connection
    then length response % 2 ^ 8 ∷ response
    else response ++ 0 ∷ []

write_auth_response-Writes :
    (flags : ℕ) (response : Bytes)
    → Writes (write_auth_response flags response) (auth_bytes flags response)
unfolding write_auth_response
write_auth_response-Writes flags response =
    elim (Bool-cases (has_flag flags client_plugin_auth_lenenc_client_data)) [
      | inl counted ↦ rw counted (
          Writes-then (write_lenenc_int (length response)) (append response) _ _
            (write_lenenc_int-Writes (length response)) (append-Writes response))
      | inr plain ↦ rw plain (elim (Bool-cases (has_flag flags client_secure_connection)) [
        | inl one ↦ rw one (
            Writes-eq (uint8_bytes (length response % 2 ^ 8) ++ response) _ (ground arith) (
              Writes-then (write_uint8 (length response % 2 ^ 8)) (append response) _ _
                (write_uint8-Writes (length response % 2 ^ 8)) (append-Writes response)))
        | inr old ↦ rw old (
            Writes-then (append response) (write_uint8 0) _ _ (append-Writes response)
              (write_uint8-Writes 0))
      ])
    ]

abbrev pub response41_bytes : HandshakeResponse41 → Bytes
response41_bytes p =
    uint32_bytes p.capability_flags
    ++ (uint32_bytes p.max_packet_size
        ++ (uint8_bytes p.character_set
            ++ (low_bytes (zeros 23)
                ++ ((p.username ++ 0 ∷ [])
                    ++ (auth_bytes p.capability_flags p.auth_response
                        ++ (optional_bytes (has_flag p.capability_flags client_connect_with_db)
                              p.database
                            ++ optional_bytes (has_flag p.capability_flags client_plugin_auth)
                                p.auth_plugin_name))))))

pub response41_payload-Writes :
    (p : HandshakeResponse41) → Writes (response41_payload p) (response41_bytes p)
unfolding response41_payload
response41_payload-Writes p =
    let with_db = has_flag p.capability_flags client_connect_with_db in
    let with_name = has_flag p.capability_flags client_plugin_auth in
    Writes-eq _ (response41_bytes p) (simp append_assoc) (
      Writes-then _ (write_optional with_name p.auth_plugin_name) _ _
        (Writes-then _ (write_optional with_db p.database) _ _
          (Writes-then _ (write_auth_response p.capability_flags p.auth_response) _ _
            (Writes-then _ (write_terminated p.username) _ _
              (Writes-then _ (write_each (zeros 23)) _ _
                (Writes-then _ (write_uint8 p.character_set) _ _
                  (Writes-then (write_uint32 p.capability_flags) (write_uint32 p.max_packet_size) _
                    _ (write_uint32-Writes p.capability_flags)
                    (write_uint32-Writes p.max_packet_size))
                  (write_uint8-Writes p.character_set))
                (write_each-Writes (zeros 23)))
              (write_terminated-Writes p.username))
            (write_auth_response-Writes p.capability_flags p.auth_response))
          (write_optional-Writes with_db p.database))
        (write_optional-Writes with_name p.auth_plugin_name))

pub response41_encode-Writes :
    (p : HandshakeResponse41) (seq : ℕ)
    → Writes (response41_encode p seq) (packet_bytes (response41_bytes p) seq)
unfolding response41_encode
response41_encode-Writes p seq =
    framed-Writes (response41_payload p) (response41_bytes p) seq (response41_payload-Writes p)

pub length-low_bytes : (s : Bytes) → length (low_bytes s) ≡ length s
unfolding low_bytes
length-low_bytes [] = refl
length-low_bytes (c ∷ s) = ap suc (length-low_bytes s)

pub low_bytes-take : (n : ℕ) (s : Bytes) → low_bytes (take n s) ≡ take n (low_bytes s)
unfolding low_bytes
low_bytes-take zero s = refl
low_bytes-take (suc n) [] = refl
low_bytes-take (suc n) (c ∷ s) = ap (λ (l : Bytes). c % 2 ^ 8 ∷ l) (low_bytes-take n s)

pub low_bytes-drop : (n : ℕ) (s : Bytes) → low_bytes (drop n s) ≡ drop n (low_bytes s)
unfolding low_bytes
low_bytes-drop zero s = refl
low_bytes-drop (suc n) [] = refl
low_bytes-drop (suc n) (c ∷ s) = low_bytes-drop n s
