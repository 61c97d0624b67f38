-- ===== src/ProtocolHandler/Login.antt =====
-- src/protocol/protocol_handler.cpp: a client that answers the greeting with its password.
use tiny_sql.Prelude.{
  ℕ, ◌^◌, ◌<◌, true, false, some, ◌++◌, ◌==◌, ◌≡◌, refl, ap, ◌∙◌, arith, length, Bytes, done, after,
}
use tiny_sql.Buffer.{unread, advance}
use tiny_sql.Buffer.Valid.{IsValid}
use tiny_sql.Packet.{check_packet_complete}
use tiny_sql.Packet.Complete.{announced, announced-packet_bytes, check_packet_complete-announced}
use tiny_sql.Packet.Framing.{packet_bytes}
use tiny_sql.Handshake.{HandshakeResponse41}
use tiny_sql.Handshake.Encoding.{response41_bytes}
use tiny_sql.Handshake.RoundTrip.{Response41Fits, received, response41_decode-Reads}
use tiny_sql.Session.{SessionState, is_authenticated, set_state, set_username}
use tiny_sql.Authenticator.{authenticate, compute_auth_response}
use tiny_sql.Authenticator.Accepts.{IsSha1, password_of, authenticate-compute}
use tiny_sql.Storage.Compare.{Floats}
use tiny_sql.Commands.{Server, on_buffer, on_session}
use tiny_sql.ProtocolHandler.{
  new_response41, check_login, let_in, deny, login, handle_authentication, by_state, handle_data,
  send_response,
}
use tiny_sql.ProtocolHandler.Secure.{choose_database_same}

packet_bytes-nonempty : (s : Bytes) (seq : ℕ) → (length (packet_bytes s seq) == 0) ≡ false
packet_bytes-nonempty s seq = ground arith

module _ (sha1 : Bytes → Bytes) (F : Floats) where
  -- `handleData` returns `true` and the session is authenticated as that user.
  pub record LogsIn (w : Server) (username : Bytes) : Type 0 where
    pub left : Server
    pub returned : handle_data sha1 F w ≡ done true left
    pub is_in : is_authenticated left.session ≡ true
    pub as_user : left.session.username ≡ username

  accepted :
      (p : HandshakeResponse41) (w v : Server)
      → handle_data sha1 F w ≡ check_login sha1 F p v
      → authenticate sha1 p.username p.auth_response v.session.auth_plugin_data ≡ true
      → LogsIn w p.username
  unfolding check_login let_in deny on_session set_username set_state send_response is_authenticated
  accepted p w v h e = record {
    left = after (let_in p v);
    returned = h ∙ rw e refl;
    is_in = refl;
    as_user = (choose_database_same p.database (record v.session { username = p.username })).0;
  }

  answered :
      (p : HandshakeResponse41) (rest : Bytes) (seq : ℕ) (w : Server)
      → Response41Fits p
      → seq < 2 ^ 8
      → IsValid w.buffer
      → unread w.buffer ≡ packet_bytes (response41_bytes p) seq ++ rest
      → w.session.state ≡ SessionState.handshake_sent
      → handle_data sha1 F w
        ≡ check_login sha1 F (received new_response41 p) (record w {
          buffer = advance (length (packet_bytes (response41_bytes p) seq)) w.buffer;
        })
  unfolding handle_data by_state handle_authentication on_buffer login
  answered p rest seq w f k v e hs =
      let size = length (packet_bytes (response41_bytes p) seq) in
      let whole : check_packet_complete w.buffer ≡ done size w.buffer =
        check_packet_complete-announced w.buffer v
        ∙ ap (λ n. done n w.buffer)
            (ap announced e
              ∙ announced-packet_bytes (response41_bytes p) rest seq f.payload_fits) in
      rw whole (
        rw (packet_bytes-nonempty (response41_bytes p) seq)
          (rw hs (rw (response41_decode-Reads p new_response41 seq f k w.buffer rest v e) refl)))

  -- For a digest of twenty bytes: when the unread input begins with a client's answer, as `encode`
  -- writes it, for a user in the table, with the response that `computeAuthResponse` gives for that
  -- user's password and the session's challenge, then `handleData` on a session that waits for the
  -- answer returns `true` and leaves the session authenticated as that user.
  pub handle_data-login :
      (p : HandshakeResponse41) (password rest : Bytes) (seq : ℕ) (w : Server)
      → IsSha1 sha1
      → Response41Fits p
      → seq < 2 ^ 8
      → IsValid w.buffer
      → unread w.buffer ≡ packet_bytes (response41_bytes p) seq ++ rest
      → w.session.state ≡ SessionState.handshake_sent
      → password_of p.username ≡ some password
      → p.auth_response ≡ compute_auth_response sha1 password w.session.auth_plugin_data
      → LogsIn w p.username
  handle_data-login p password rest seq w s f k v e hs known right =
      accepted (received new_response41 p) w _ (answered p rest seq w f k v e hs) (
        ap (λ (x : Bytes). authenticate sha1 p.username x w.session.auth_plugin_data) right
        ∙ authenticate-compute sha1 s p.username password w.session.auth_plugin_data known)
