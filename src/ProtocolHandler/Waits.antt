-- ===== src/ProtocolHandler/Waits.antt =====
-- src/protocol/protocol_handler.cpp: data that is not a command, and a connection before login.
use tiny_sql.Prelude.{
  ℕ, Bool, true, false, ◌==◌, ◌≡◌, refl, inl, inr, Bytes, Outcome, done, thrown, after, continue,
  pure, Bool-cases, if◌then◌else◌,
}
use tiny_sql.Buffer.{Buffer, BufferError, unread}
use tiny_sql.Buffer.Valid.{IsValid}
use tiny_sql.Packet.{check_packet_complete}
use tiny_sql.Packet.Complete.{announced, check_packet_complete-announced}
use tiny_sql.Handshake.{HandshakeResponse41, response41_decode}
use tiny_sql.Session.{SessionState, is_authenticated, next_sequence_id}
use tiny_sql.Authenticator.{authenticate}
use tiny_sql.Storage.Compare.{Floats}
use tiny_sql.Commands.{Server, with_buffer, on_buffer, on_session, reply, reply_err, call_back}
use tiny_sql.ProtocolHandler.{
  new_response41, check_login, let_in, deny, login, handle_authentication, handle_command, by_state,
  handle_data, send_response,
}

module _ (sha1 : Bytes → Bytes) (F : Floats) where
  -- While the input holds no complete packet, `handleData` keeps the connection and changes nothing,
  -- whatever the state of the session.
  pub handle_data-waits :
      (w : Server)
      → IsValid w.buffer
      → announced (unread w.buffer) ≡ 0
      → handle_data sha1 F w ≡ done true w
  unfolding handle_data on_buffer
  handle_data-waits w v e = rw (check_packet_complete-announced w.buffer v, e) refl

  check_login-storage :
      (p : HandshakeResponse41) (w : Server) → (after (check_login sha1 F p w)).storage ≡ w.storage
  unfolding check_login let_in deny on_session send_response
  check_login-storage p w =
      elim (Bool-cases (authenticate sha1 p.username p.auth_response w.session.auth_plugin_data)) [
        | inl e ↦ rw e refl
        | inr e ↦ rw e refl
      ]

  login-storage :
      (o : Outcome BufferError Buffer (Bool × HandshakeResponse41)) (w : Server)
      → (after (continue (with_buffer w o) (login sha1 F))).storage ≡ w.storage
  unfolding login send_response
  login-storage (done (true, p) b) w = check_login-storage p (record w { buffer = b })
  login-storage (done (false, p) b) w = refl
  login-storage (thrown e b) w = refl

  handle_command-storage :
      (w : Server)
      → is_authenticated w.session ≡ false
      → (after (handle_command sha1 F w)).storage ≡ w.storage
  unfolding handle_command reply_err reply call_back next_sequence_id
  handle_command-storage w h = rw h refl

  by_state-storage :
      (w : Server) (state : SessionState)
      → is_authenticated w.session ≡ false
      → (after (by_state sha1 F state w)).storage ≡ w.storage
  unfolding by_state handle_authentication on_buffer
  by_state-storage w SessionState.init h = refl
  by_state-storage w SessionState.handshake_sent h =
      login-storage (response41_decode new_response41 w.buffer) w
  by_state-storage w SessionState.authenticating h = refl
  by_state-storage w SessionState.authenticated h = handle_command-storage w h
  by_state-storage w SessionState.command_phase h = handle_command-storage w h
  by_state-storage w SessionState.closing h = refl
  by_state-storage w SessionState.closed h = refl

  packet-storage :
      (o : Outcome BufferError Buffer ℕ) (w : Server)
      → is_authenticated w.session ≡ false
      → (after (
          continue
            (with_buffer w o)
            λ n. if n == 0 then pure true else (λ v. by_state sha1 F v.session.state v))).storage
        ≡ w.storage
  packet-storage (thrown e b) w h = refl
  packet-storage (done n b) w h = elim (Bool-cases (n == 0)) [
    | inl e ↦ rw e refl
    | inr e ↦ rw e (by_state-storage (record w { buffer = b }) w.session.state h)
  ]

  -- No data changes the storage on a connection whose session is not authenticated: on every input
  -- `handleData` leaves it as it was, the calls that log in and those that throw included.
  pub handle_data-storage :
      (w : Server)
      → is_authenticated w.session ≡ false
      → (after (handle_data sha1 F w)).storage ≡ w.storage
  unfolding handle_data on_buffer
  handle_data-storage w h = packet-storage (check_packet_complete w.buffer) w h
