-- ===== src/ProtocolHandler/Trust.antt =====
-- src/protocol/protocol_handler.cpp: who can give commands on a connection.
use tiny_sql.Prelude.{ℕ, true, false, ◌≡◌, refl, ◌∙◌, subst, inl, inr, Bytes, done, after}
use tiny_sql.Buffer.{Buffer, append}
use tiny_sql.Packet.{check_packet_complete}
use tiny_sql.Handshake.{HandshakeResponse41, new_handshake, response41_decode}
use tiny_sql.Session.{
  SessionState, is_authenticated, set_state, set_auth_plugin_data, reset_sequence_id,
}
use tiny_sql.Authenticator.{authenticate}
use tiny_sql.Storage.Compare.{Floats}
use tiny_sql.Commands.{Storage, Server, on_session}
use tiny_sql.ProtocolHandler.{
  new_handler, send_response, send_handshake, new_response41, handle_data,
}
use tiny_sql.ProtocolHandler.Secure.{handle_data-Secure}

-- A new connection behind its greeting.
abbrev pub greeted : Bytes → ℕ → Storage → Server
greeted random fd e = after (send_handshake random (new_handler fd e))

module _ (sha1 : Bytes → Bytes) (F : Floats) where
  -- The life of a connection from some state on: bytes that arrive, `handleData`, and what other
  -- connections do to the storage in between.
  pub data Later (w : Server) : Server → Type 0 where
    now : Later w w
    received :
        (v : Server) (bytes : Bytes)
        → Later w v
        → Later w (record v { buffer = append bytes v.buffer })
    handled : (v : Server) → Later w v → Later w (after (handle_data sha1 F v))
    stored : (v : Server) (e : Storage) → Later w v → Later w (record v { storage = e })

  -- On the way from `start` to `w`, one call of `handleData` found a complete packet while the
  -- session waited for the client's answer, and decoded it. The answer names the user of `w`, and
  -- `authenticate` accepts its response for the challenge.
  pub record LoggedIn (challenge : Bytes) (start w : Server) : Type 0 where
    pub before : Server
    pub earlier : Later start before
    pub since : Later (after (handle_data sha1 F before)) w
    pub waiting : before.session.state ≡ SessionState.handshake_sent
    pub size : ℕ
    pub input : Buffer
    pub complete : check_packet_complete before.buffer ≡ done size input
    pub answer : HandshakeResponse41
    pub rest : Buffer
    pub decoded : response41_decode new_response41 input ≡ done (true, answer) rest
    pub same_user : w.session.username ≡ answer.username
    pub accepted : authenticate sha1 answer.username answer.auth_response challenge ≡ true

  Later-challenge :
      (random : Bytes) (fd : ℕ) (e : Storage) (w : Server)
      → Later (greeted random fd e) w
      → w.session.auth_plugin_data ≡ random
  unfolding send_handshake new_handler new_handshake on_session send_response set_auth_plugin_data
      set_state reset_sequence_id
  Later-challenge random fd e _ now = refl
  Later-challenge random fd e _ (received v bytes r) = Later-challenge random fd e v r
  Later-challenge random fd e _ (stored v e' r) = Later-challenge random fd e v r
  Later-challenge random fd e _ (handled v r) =
      (handle_data-Secure sha1 F v).challenge_same ∙ Later-challenge random fd e v r

  -- A login stays one, whatever comes behind it, while the user stays.
  LoggedIn-then :
      (challenge : Bytes) (start v w : Server)
      → LoggedIn challenge start v
      → w.session.username ≡ v.session.username
      → ((u : Server) → Later u v → Later u w)
      → LoggedIn challenge start w
  LoggedIn-then challenge start v w l same step = record {
    before = l.before;
    earlier = l.earlier;
    since = step _ l.since;
    waiting = l.waiting;
    size = l.size;
    input = l.input;
    complete = l.complete;
    answer = l.answer;
    rest = l.rest;
    decoded = l.decoded;
    same_user = same ∙ l.same_user;
    accepted = l.accepted;
  }

  -- However bytes arrive on a connection behind its greeting, and however `handleData` is called on
  -- them: if the session is authenticated, then an earlier call of `handleData`, made while the
  -- session waited for the client's answer, decoded a complete answer from the input that names the
  -- session's user and whose response `authenticate` accepts for that user and the challenge that
  -- was sent in the greeting.
  pub Later-LoggedIn :
      (random : Bytes) (fd : ℕ) (e : Storage) (w : Server)
      → Later (greeted random fd e) w
      → is_authenticated w.session ≡ true
      → LoggedIn random (greeted random fd e) w
  unfolding send_handshake new_handler on_session send_response set_state reset_sequence_id
      is_authenticated
  Later-LoggedIn random fd e _ now h = absurd (let z : false ≡ true = h in cc)
  Later-LoggedIn random fd e _ (received v bytes r) h =
      LoggedIn-then random _ v _ (Later-LoggedIn random fd e v r h) refl λ u. received v bytes
  Later-LoggedIn random fd e _ (stored v e' r) h =
      LoggedIn-then random _ v _ (Later-LoggedIn random fd e v r h) refl λ u. stored v e'
  Later-LoggedIn random fd e _ (handled v r) h = elim ((handle_data-Secure sha1 F v).secure h) [
    | inl (old, same) ↦
        LoggedIn-then random _ v _ (Later-LoggedIn random fd e v r old) same λ u. handled v
    | inr p ↦
        let a = p.waited.1 in
        record {
          before = v;
          earlier = r;
          since = now;
          waiting = p.waited.0;
          size = p.size;
          input = p.input;
          complete = p.complete;
          answer = a.answer;
          rest = a.rest;
          decoded = a.decoded;
          same_user = a.same_user;
          accepted =
              subst
                (λ (c : Bytes). authenticate sha1 a.answer.username a.answer.auth_response c ≡ true)
                (Later-challenge random fd e v r) a.accepted;
        }
  ]
