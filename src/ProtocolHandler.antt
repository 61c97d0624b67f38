-- ===== src/ProtocolHandler.antt =====
-- src/protocol/protocol_handler.cpp: the life of a connection, from the greeting to the commands.
--
-- The handler works on the connection's input buffer, its session, the storage and what has been
-- sent, as the command handlers do. The file descriptor that numbers a connection and the random
-- challenge are arguments; `SHA1` and the floating-point operations are parameters.
pub mod Secure
pub mod Trust
pub mod Waits
pub mod Login
mod Tests
use tiny_sql.Prelude.{
  ℕ, ◌%◌, ◌^◌, Bool, true, false, List, [], ◌∷◌, ◌++◌, ◌==◌, if◌then◌else◌, take, Bytes, codes,
  Outcome, done, thrown, pure, ◌>>=◌, ◌>>◌,
}
use tiny_sql.Buffer.{Buffer, empty, unread, readable_bytes}
use tiny_sql.Packet.{check_packet_complete}
use tiny_sql.Response.{new_err_packet, ok_encode, err_encode}
use tiny_sql.Handshake.{
  HandshakeV10, HandshakeResponse41, new_handshake, v10_encode, response41_decode,
}
use tiny_sql.Session.{
  SessionState, Session, new_session, is_authenticated, set_state, set_username,
  set_current_database, set_auth_plugin_data, reset_sequence_id,
}
use tiny_sql.Authenticator.{authenticate}
use tiny_sql.Storage.Compare.{Floats}
use tiny_sql.Commands.{Storage, Server, CommandM, on_buffer, on_session, reply_err, ok_packet}
use tiny_sql.Commands.Dispatch.{dispatch}

-- The constructor on a new connection, whose input buffer is empty.
pub new_handler : ℕ → Storage → Server
new_handler fd storage = record {
  buffer = empty;
  session = new_session fd;
  storage = storage;
  sent = [];
}

-- `sendResponse`; an empty response would change nothing.
unfoldable pub send_response : Buffer → CommandM (Unit {0})
send_response response w =
    done tt (record w { sent = w.sent ++ take (readable_bytes response) (unread response) })

-- The second draw of random bytes is the one that counts.
pub send_handshake : Bytes → CommandM (Unit {0})
send_handshake random w =
    let handshake = record (new_handshake random) { connection_id = w.session.connection_id } in
    (do
      on_session (set_auth_plugin_data handshake.auth_plugin_data)
      send_response (v10_encode handshake 0 empty)
      on_session (set_state SessionState.handshake_sent)
      on_session reset_sequence_id)
      w

-- `HandshakeResponse41Packet()`
abbrev new_response41 : HandshakeResponse41
new_response41 = record {
  capability_flags = 0;
  max_packet_size = 0;
  character_set = 0;
  username = [];
  auth_response = [];
  database = [];
  auth_plugin_name = [];
}

-- A packet with the sequence number 2, and the result of the handler.
abbrev answer : Bool → (ℕ → Buffer → Buffer) → CommandM Bool
answer result encode = do send_response (encode 2 empty); pure result

-- The database that the client names becomes the current one.
abbrev pub choose_database : Bytes → Session → Session
choose_database [] s = s
choose_database (c ∷ db) s = set_current_database (c ∷ db) s

-- The two ends of a login.
let_in : HandshakeResponse41 → CommandM Bool
let_in auth_response = do
  on_session (set_username auth_response.username)
  on_session (choose_database auth_response.database)
  on_session (set_state SessionState.authenticated)
  answer true (ok_encode (ok_packet 0 0 []))

deny : HandshakeResponse41 → CommandM Bool
deny auth_response = answer false (
    err_encode (
      new_err_packet 1045 (codes "28000")
        (codes "Access denied for user '" ++ (auth_response.username ++ codes "'"))))

module _ (sha1 : Bytes → Bytes) (F : Floats) where
  -- What follows a decoded answer.
  check_login : HandshakeResponse41 → CommandM Bool
  check_login auth_response w =
      if authenticate sha1 auth_response.username auth_response.auth_response
        w.session.auth_plugin_data
      then let_in auth_response w
      else deny auth_response w

  login : Bool × HandshakeResponse41 → CommandM Bool
  login (true, auth_response) = check_login auth_response
  login (false, auth_response) =
      answer false (err_encode (new_err_packet 1043 (codes "08S01") (codes "Bad handshake")))

  pub handle_authentication : CommandM Bool
  handle_authentication = do decoded ← on_buffer (response41_decode new_response41); login decoded

  -- A QUIT leaves the session closing, which ends the connection.
  unless_closing : Bool → SessionState → Bool
  unless_closing result SessionState.closing = false
  unless_closing result _ = result

  pub handle_command : CommandM Bool
  handle_command w =
      if is_authenticated w.session
      then (do result ← dispatch F; λ v. done (unless_closing result v.session.state) v) w
      else (reply_err 1184 (codes "08S01") (codes "Aborted connection") >> pure false) w

  -- The switch on the state of the session.
  by_state : SessionState → CommandM Bool
  by_state SessionState.init = pure false
  by_state SessionState.handshake_sent = handle_authentication
  by_state SessionState.authenticating = pure false
  by_state SessionState.authenticated = handle_command
  by_state SessionState.command_phase = handle_command
  by_state SessionState.closing = pure false
  by_state SessionState.closed = pure false

  -- `true` to keep the connection. A packet that is not complete is waited for.
  pub handle_data : CommandM Bool
  handle_data = do
    packet_size ← on_buffer check_packet_complete
    if packet_size == 0 then pure true else (λ w. by_state w.session.state w)
