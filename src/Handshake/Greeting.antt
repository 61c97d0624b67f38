-- ===== src/Handshake/Greeting.antt =====
-- src/protocol/handshake.cpp: `decode` of a greeting on what `encode` sends.
use tiny_sql.Prelude.{
  ℕ, zero, suc, ◌+◌, ◌*◌, ◌/◌, ◌%◌, ◌^◌, ◌≤◌, ◌<◌, Bool, true, false, none, some, [], ◌∷◌, ◌++◌,
  ◌≡◌, refl, sym, ap, ◌∙◌, arith, if◌then◌else◌, length, take, drop, Bytes, length-take,
  length-drop, take-append-drop, append-nil, append_assoc, Bool-cases, inl, inr, subst, pure, ◌>>=◌,
}
use tiny_sql.Buffer.{
  Buffer, BufferM, unread, advance, append, read_uint8, read_uint16, read_uint32,
  read_null_terminated_string, uint8_bytes, uint16_bytes, uint32_bytes,
}
use tiny_sql.Buffer.Valid.{IsValid}
use tiny_sql.Buffer.Reads.{
  Reads, Reads-bind, HasNoNull, read_uint8-Reads, read_uint16-Reads, read_uint32-Reads,
  read_null_terminated_string-Reads, unread-after, IsValid-after,
}
use tiny_sql.Buffer.Writes.{Writes-then, append-Writes}
use tiny_sql.Buffer.RoundTrip.{Returns}
use tiny_sql.Packet.{open_packet}
use tiny_sql.Packet.Framing.{header_bytes, packet_bytes, packet-Reads_front}
use tiny_sql.Response.RoundTrip.{Reads-last}
use tiny_sql.Handshake.{
  HandshakeV10, has_flag, client_plugin_auth, read_each, zeros, read_optional, rest_rounds,
  v10_auth, v10_body, v10_decode, v10_encode,
}
use tiny_sql.Handshake.Encoding.{
  low_bytes-take, low_bytes-drop, low_bytes, optional_bytes, v10_main_bytes, v10_name_bytes,
  v10_encode-Writes, length-low_bytes,
}
use tiny_sql.Handshake.RoundTrip.{read_low-Reads, read_count-Reads, read_optional-Reads}

-- The values that the fields of a greeting can hold, and a payload that one packet can carry.
pub record V10Fits (p : HandshakeV10) : Type 0 where
  pub protocol_version_fits : p.protocol_version < 2 ^ 8
  pub server_version_fits : HasNoNull p.server_version
  pub connection_id_fits : p.connection_id < 2 ^ 32
  pub auth_plugin_data_size : length p.auth_plugin_data ≡ 20
  pub auth_plugin_data_fits : low_bytes p.auth_plugin_data ≡ p.auth_plugin_data
  pub capability_flags_fits : p.capability_flags < 2 ^ 32
  pub character_set_fits : p.character_set < 2 ^ 8
  pub status_flags_fits : p.status_flags < 2 ^ 16
  pub payload_fits : length (v10_main_bytes p ++ (0 ∷ v10_name_bytes p)) < 2 ^ 24

first_length : (bytes : Bytes) → length bytes ≡ 20 → length (take 8 bytes) ≡ 8
first_length bytes h = omega (arith, length-take {0} 8 bytes)

second_length : (bytes : Bytes) → length bytes ≡ 20 → length (take 12 (drop 8 bytes)) ≡ 12
second_length bytes h = omega (arith, length-take {0} 12 (drop 8 bytes), length-drop {0} 8 bytes)

-- Nothing is behind the end of a list.
drop-nothing : (n : ℕ) (s : Bytes) → length s ≤ n → drop n s ≡ []
drop-nothing zero [] h = refl
drop-nothing (suc n) [] h = refl
drop-nothing zero (c ∷ s) h = absurd (omega (arith, h))
drop-nothing (suc n) (c ∷ s) h = drop-nothing n s (omega (arith, h))

take_all : (n : ℕ) (s : Bytes) → length s ≤ n → take n s ≡ s
take_all n s h =
    sym (append-nil (take n s))
    ∙ ap (λ (l : Bytes). take n s ++ l) (sym (drop-nothing n s h))
    ∙ take-append-drop n s

-- The twenty elements that two loops assign are the whole array.
array_filled :
    (bytes old : Bytes)
    → length bytes ≡ 20
    → length old ≡ 20
    → take 8 bytes
        ++ (take 12 (drop 8 bytes) ++ drop (length (take 12 (drop 8 bytes))) (drop 8 old))
      ≡ bytes
array_filled bytes old h k =
    let second = drop 8 bytes in
    let size : length second ≡ 12 = omega (arith, length-drop {0} 8 bytes) in
    let behind : length (drop 8 old) ≡ 12 = omega (arith, length-drop {0} 8 old) in
    rw (second_length bytes h) (
      rw (drop-nothing 12 (drop 8 old) (omega arith), take_all 12 second (omega arith))
        (rw (append-nil second) (take-append-drop 8 bytes)))

Reads-eq : {A : Type 0} (m : BufferM A) (s t : Bytes) (a : A) → s ≡ t → Reads m s a → Reads m t a
Reads-eq m s t a e r = subst (λ (l : Bytes). Reads m l a) e r

v10_auth-Reads :
    (p : HandshakeV10) (first second : Bytes)
    → length second ≡ 12
    → Reads
        (v10_auth p first 21)
        (low_bytes (zeros 10)
          ++ (second ++ optional_bytes (has_flag p.capability_flags client_plugin_auth) []))
        (
          true,
          record p {
            auth_plugin_data =
                first ++ (second ++ drop (length second) (drop 8 p.auth_plugin_data));
            auth_plugin_name =
                if has_flag p.capability_flags client_plugin_auth then [] else p.auth_plugin_name;
          },
        )
unfolding v10_auth rest_rounds zeros
v10_auth-Reads p first second h =
    let set = has_flag p.capability_flags client_plugin_auth in
    Reads-bind (read_each 10) _ (low_bytes (zeros 10)) (second ++ optional_bytes set [])
      (low_bytes (zeros 10)) _
      (read_count-Reads 10 (low_bytes (zeros 10)) (length-low_bytes (zeros 10)))
      (Reads-bind (read_each 12) _ second (optional_bytes set []) second _
        (read_count-Reads 12 second h)
        (Reads-last (read_optional set p.auth_plugin_name) _ (optional_bytes set []) _
          (read_optional-Reads set p.auth_plugin_name [] tt)))

-- The part of a greeting's payload that `decode` reads, and the part that it does not.
abbrev pub v10_read_bytes : HandshakeV10 → Bytes
v10_read_bytes p =
    v10_main_bytes p ++ optional_bytes (has_flag p.capability_flags client_plugin_auth) []

abbrev pub v10_left_bytes : HandshakeV10 → Bytes
v10_left_bytes p =
    if has_flag p.capability_flags client_plugin_auth then p.auth_plugin_name ++ 0 ∷ [] else 0 ∷ []

v10_bytes_split :
    (p : HandshakeV10)
    → v10_main_bytes p ++ (0 ∷ v10_name_bytes p) ≡ v10_read_bytes p ++ v10_left_bytes p
v10_bytes_split p = elim (Bool-cases (has_flag p.capability_flags client_plugin_auth)) [
  | inl e ↦ rw e (simp append_assoc)
  | inr e ↦ rw e (simp append_assoc)
]

-- What `decode` makes of a greeting.
abbrev pub greeted : HandshakeV10 → HandshakeV10 → HandshakeV10
greeted old p = record p {
  auth_plugin_name =
      if has_flag p.capability_flags client_plugin_auth then [] else old.auth_plugin_name;
}

low_bytes_part :
    (p : HandshakeV10)
    → V10Fits p
    → (low_bytes (take 8 p.auth_plugin_data) ≡ take 8 p.auth_plugin_data)
      × (low_bytes (take 12 (drop 8 p.auth_plugin_data)) ≡ take 12 (drop 8 p.auth_plugin_data))
low_bytes_part p f = (
  low_bytes-take 8 p.auth_plugin_data ∙ ap (take 8) f.auth_plugin_data_fits,
  low_bytes-take 12 (drop 8 p.auth_plugin_data)
      ∙ ap (take 12) (low_bytes-drop 8 p.auth_plugin_data ∙ ap (drop 8) f.auth_plugin_data_fits),
)

joined_flags :
    (flags : ℕ) → flags < 2 ^ 32 → flags / 2 ^ 16 % 2 ^ 16 * 2 ^ 16 + flags % 2 ^ 16 ≡ flags
joined_flags flags h = omega arith

-- The last reads of a greeting, with the flags as the two halves make them.
v10_auth_last :
    (old p : HandshakeV10)
    → V10Fits p
    → length old.auth_plugin_data ≡ 20
    → Reads
        (v10_auth
          (record p {
            auth_plugin_data = old.auth_plugin_data;
            capability_flags =
                p.capability_flags / 2 ^ 16 % 2 ^ 16 * 2 ^ 16 + p.capability_flags % 2 ^ 16;
            auth_plugin_name = old.auth_plugin_name;
          })
          (take 8 p.auth_plugin_data)
          21)
        (low_bytes (zeros 10)
          ++ (take 12 (drop 8 p.auth_plugin_data)
              ++ optional_bytes (has_flag p.capability_flags client_plugin_auth) []))
        (true, greeted old p)
v10_auth_last old p f k =
    let q : HandshakeV10 = record p {
      auth_plugin_data = old.auth_plugin_data;
      auth_plugin_name = old.auth_plugin_name;
    } in
    let second = take 12 (drop 8 p.auth_plugin_data) in
    rw (joined_flags p.capability_flags f.capability_flags_fits) (
      subst
        (λ (l : Bytes).
          Reads (v10_auth q (take 8 p.auth_plugin_data) 21)
            (low_bytes (zeros 10)
              ++ (second ++ optional_bytes (has_flag p.capability_flags client_plugin_auth) []))
            (true, record (greeted old p) { auth_plugin_data = l }))
        (array_filled p.auth_plugin_data old.auth_plugin_data f.auth_plugin_data_size k)
        (v10_auth-Reads q (take 8 p.auth_plugin_data) second
          (second_length p.auth_plugin_data f.auth_plugin_data_size)))

v10_body-Reads :
    (old p : HandshakeV10)
    → V10Fits p
    → length old.auth_plugin_data ≡ 20
    → Reads (v10_body old) (v10_read_bytes p) (true, greeted old p)
unfolding v10_body
v10_body-Reads old p f k =
    let first = take 8 p.auth_plugin_data in
    let second = take 12 (drop 8 p.auth_plugin_data) in
    let set = has_flag p.capability_flags client_plugin_auth in
    let result : Bool × HandshakeV10 = (true, greeted old p) in
    let lower = p.capability_flags % 2 ^ 16 in
    let upper = p.capability_flags / 2 ^ 16 % 2 ^ 16 in
    let after_len = low_bytes (zeros 10) ++ (second ++ optional_bytes set []) in
    let after_upper = 21 ∷ after_len in
    let after_status = uint16_bytes upper ++ after_upper in
    let after_charset = uint16_bytes p.status_flags ++ after_status in
    let after_lower = uint8_bytes p.character_set ++ after_charset in
    let after_filler = uint16_bytes lower ++ after_lower in
    let after_first = 0 ∷ after_filler in
    let after_id = first ++ after_first in
    let after_version = uint32_bytes p.connection_id ++ after_id in
    Reads-eq (v10_body old)
      (uint8_bytes p.protocol_version ++ ((p.server_version ++ 0 ∷ []) ++ after_version))
      (v10_read_bytes p) result
      (rw ((low_bytes_part p f).0, (low_bytes_part p f).1) (simp append_assoc))
      (Reads-bind read_uint8 _ (uint8_bytes p.protocol_version)
        ((p.server_version ++ 0 ∷ []) ++ after_version) p.protocol_version result
        (read_low-Reads p.protocol_version f.protocol_version_fits)
        (Reads-bind read_null_terminated_string _ (p.server_version ++ 0 ∷ []) after_version
          p.server_version result
          (read_null_terminated_string-Reads p.server_version f.server_version_fits)
          (Reads-bind read_uint32 _ (uint32_bytes p.connection_id) after_id p.connection_id result
            (read_uint32-Reads p.connection_id f.connection_id_fits)
            (Reads-bind (read_each 8) _ first after_first first result
              (read_count-Reads 8 first (first_length p.auth_plugin_data f.auth_plugin_data_size))
              (Reads-bind read_uint8 _ (0 ∷ []) after_filler 0 result (read_uint8-Reads 0) (
                Reads-bind read_uint16 _ (uint16_bytes lower) after_lower lower result
                  (read_uint16-Reads lower (omega arith))
                  (Reads-bind read_uint8 _ (uint8_bytes p.character_set) after_charset
                    p.character_set result (read_low-Reads p.character_set f.character_set_fits)
                    (Reads-bind read_uint16 _ (uint16_bytes p.status_flags) after_status
                      p.status_flags result (read_uint16-Reads p.status_flags f.status_flags_fits)
                      (Reads-bind read_uint16 _ (uint16_bytes upper) after_upper upper result
                        (read_uint16-Reads upper (omega arith))
                        (Reads-bind read_uint8 _ (21 ∷ []) after_len 21 result (read_uint8-Reads 21)
                          (v10_auth_last old p f k)))))))))))

-- A decoder that reads only the front of its payload leaves the other part unread.
front_Returns :
    {A : Type 0} (m : ℕ → BufferM A) (failed : A) (s t : Bytes) (seq : ℕ) (a : A) (b : Buffer)
    (rest : Bytes)
    → length (s ++ t) < 2 ^ 24
    → seq < 2 ^ 8
    → Reads (m (length (s ++ t))) s a
    → IsValid b
    → unread b ≡ packet_bytes (s ++ t) seq ++ rest
    → Returns
        (open_packet >>= λ opened. elim opened [ none ↦ pure failed | some n ↦ m n ])
        b
        a
        (t ++ rest)
front_Returns m failed s t seq a b rest h k r v e =
    let front = header_bytes (length (s ++ t)) seq ++ s in
    let split : unread b ≡ front ++ (t ++ rest) = e ∙ simp append_assoc in
    record {
      left = advance (length front) b;
      returned = packet-Reads_front m failed s t seq a b rest h k r v e;
      left_valid = IsValid-after b front (t ++ rest) v split;
      left_unread = unread-after b front (t ++ rest) split;
    }

-- A greeting whose fields fit their types, encoded onto a buffer with nothing unread and followed
-- by other bytes, is decoded with the same fields but for the plugin name. Of the two zero-ended
-- strings that end it `decode` takes only the first zero: with the plugin flag the name comes back
-- empty and the name that was sent stays unread in front of the other bytes, and without it the
-- name stays as it was and the zero stays unread.
pub v10_decode-encode :
    (p old : HandshakeV10) (rest : Bytes) (seq : ℕ) (b : Buffer)
    → V10Fits p
    → length old.auth_plugin_data ≡ 20
    → seq < 2 ^ 8
    → IsValid b
    → unread b ≡ []
    → Returns
        (v10_decode old)
        (append rest (v10_encode p seq b))
        (true, greeted old p)
        (v10_left_bytes p ++ rest)
unfolding v10_decode
v10_decode-encode p old rest seq b f size k v e =
    let s = v10_read_bytes p in
    let t = v10_left_bytes p in
    let w =
      Writes-then (v10_encode p seq) (append rest) _ rest (v10_encode-Writes p seq)
        (append-Writes rest) in
    let b' = append rest (v10_encode p seq b) in
    let whole : unread b' ≡ packet_bytes (s ++ t) seq ++ rest =
      w.appends b v
      ∙ ap
          (λ (l : Bytes).
            l ++ (packet_bytes (v10_main_bytes p ++ (0 ∷ v10_name_bytes p)) seq ++ rest))
          e
      ∙ ap (λ (l : Bytes). packet_bytes l seq ++ rest) (v10_bytes_split p) in
    front_Returns (λ n. v10_body old) (false, old) s t seq (true, greeted old p) b' rest
      (subst (λ (l : Bytes). length l < 2 ^ 24) (v10_bytes_split p) f.payload_fits) k
      (v10_body-Reads old p f size) (w.valid b v) whole
