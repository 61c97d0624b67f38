-- ===== src/ProtocolHandler/Secure.antt =====
-- src/protocol/protocol_handler.cpp: what a call of the handler does to the user of a session.
use tiny_sql.Prelude.{
  ℕ, Bool, true, false, [], ◌∷◌, ◌==◌, ◌≡◌, refl, ◌∙◌, inl, inr, ◌⊎◌, Bytes, Outcome, done, thrown,
  after, continue, pure, Bool-cases, if◌then◌else◌,
}
use tiny_sql.Buffer.{Buffer, BufferError}
use tiny_sql.Packet.{check_packet_complete}
use tiny_sql.Handshake.{HandshakeResponse41, response41_decode}
use tiny_sql.Session.{
  SessionState, Session, is_authenticated, set_state, set_username, set_current_database,
}
use tiny_sql.Authenticator.{authenticate}
use tiny_sql.Storage.Compare.{Floats}
use tiny_sql.Commands.{Server, on_buffer, on_session, with_buffer}
use tiny_sql.Commands.Stays.{Frame, Stays, Stays-reply_err, Stays-next, Stays-pure, Stays-bind}
use tiny_sql.Commands.Preserved.{dispatch-Stays}
use tiny_sql.ProtocolHandler.{
  send_response, new_response41, choose_database, check_login, let_in, deny, login,
  handle_authentication, handle_command, unless_closing, by_state, handle_data,
}

-- The user and the challenge stay, and no session becomes authenticated.
pub record KeepsUser (w v : Server) : Type 0 where
  pub username_same : v.session.username ≡ w.session.username
  pub challenge_same : v.session.auth_plugin_data ≡ w.session.auth_plugin_data
  pub no_login : is_authenticated v.session ≡ true → is_authenticated w.session ≡ true

pub keeps_user : Frame KeepsUser
unfolding is_authenticated
keeps_user = record {
  unchanged = λ w. record { username_same = refl; challenge_same = refl; no_login = λ h. h };
  both = λ u v w p q. record {
    username_same = q.username_same ∙ p.username_same;
    challenge_same = q.challenge_same ∙ p.challenge_same;
    no_login = λ h. p.no_login (q.no_login h);
  };
  buffer = λ w b. record { username_same = refl; challenge_same = refl; no_login = λ h. h };
  sent = λ w s. record { username_same = refl; challenge_same = refl; no_login = λ h. h };
  storage = λ w e. record { username_same = refl; challenge_same = refl; no_login = λ h. h };
  sequence = λ w n. record { username_same = refl; challenge_same = refl; no_login = λ h. h };
  database = λ w d. record { username_same = refl; challenge_same = refl; no_login = λ h. h };
  closing = λ w. record { username_same = refl; challenge_same = refl; no_login = λ h. cc };
}

pub choose_database_same :
    (d : Bytes) (s : Session)
    → ((choose_database d s).username ≡ s.username)
      × ((choose_database d s).auth_plugin_data ≡ s.auth_plugin_data)
unfolding set_current_database
choose_database_same [] s = (refl, refl)
choose_database_same (c ∷ d) s = (refl, refl)

module _ (sha1 : Bytes → Bytes) (F : Floats) where
  -- What was decoded is an answer for the user of `t`, whose response is accepted for the challenge
  -- of `s`.
  pub record FromAnswer (o : Outcome BufferError Buffer (Bool × HandshakeResponse41))
      (s t : Session) : Type 0 where
    pub answer : HandshakeResponse41
    pub rest : Buffer
    pub decoded : o ≡ done (true, answer) rest
    pub same_user : t.username ≡ answer.username
    pub accepted : authenticate sha1 answer.username answer.auth_response s.auth_plugin_data ≡ true

  -- The challenge stays, and a session that is authenticated afterwards either was so before, with
  -- the same user, or there is evidence of a login.
  pub record Secure (Evidence : Session → Type 0) (s t : Session) : Type 0 where
    pub challenge_same : t.auth_plugin_data ≡ s.auth_plugin_data
    pub secure :
        is_authenticated t ≡ true
        → ((is_authenticated s ≡ true) × (t.username ≡ s.username)) ⊎ Evidence t

  KeepsUser-Secure :
      (E : Session → Type 0) {w v : Server} → KeepsUser w v → Secure E w.session v.session
  KeepsUser-Secure E k = record {
    challenge_same = k.challenge_same;
    secure = λ h. inl (k.no_login h, k.username_same);
  }

  Secure-refl : (E : Session → Type 0) (s : Session) → Secure E s s
  Secure-refl E s = record { challenge_same = refl; secure = λ h. inl (h, refl) }

  Secure-map :
      (E E' : Session → Type 0) (s t : Session) → (E t → E' t) → Secure E s t → Secure E' s t
  Secure-map E E' s t f k = record {
    challenge_same = k.challenge_same;
    secure = λ h. elim (k.secure h) [ inl old ↦ inl old | inr new ↦ inr (f new) ];
  }

  check_login-Secure :
      (o : Outcome BufferError Buffer (Bool × HandshakeResponse41)) (p : HandshakeResponse41)
      (rest : Buffer) (w : Server)
      → o ≡ done (true, p) rest
      → Secure (FromAnswer o w.session) w.session (after (check_login sha1 F p w)).session
  unfolding check_login let_in deny on_session set_username set_state send_response
  check_login-Secure o p rest w d =
      elim (Bool-cases (authenticate sha1 p.username p.auth_response w.session.auth_plugin_data)) [
        | inl e ↦
            let named =
              choose_database_same p.database (record w.session { username = p.username }) in
            rw e (record {
              challenge_same = named.1;
              secure = λ h. inr (record {
                answer = p;
                rest = rest;
                decoded = d;
                same_user = named.0;
                accepted = e;
              });
            })
        | inr e ↦ rw e (Secure-refl _ w.session)
      ]

  login-Secure :
      (o : Outcome BufferError Buffer (Bool × HandshakeResponse41)) (w : Server)
      → Secure
          (FromAnswer o w.session)
          w.session
          (after (continue (with_buffer w o) (login sha1 F))).session
  unfolding login send_response
  login-Secure (done (true, p) b) w = check_login-Secure _ p b (record w { buffer = b }) refl
  login-Secure (done (false, p) b) w = Secure-refl _ w.session
  login-Secure (thrown e b) w = Secure-refl _ w.session

  abbrev pub decode : Buffer → Outcome BufferError Buffer (Bool × HandshakeResponse41)
  decode = response41_decode new_response41

  handle_authentication-Secure :
      (w : Server)
      → Secure
          (FromAnswer (decode w.buffer) w.session)
          w.session
          (after (handle_authentication sha1 F w)).session
  unfolding handle_authentication on_buffer
  handle_authentication-Secure w = login-Secure (decode w.buffer) w

  handle_command-Stays : Stays KeepsUser keeps_user (handle_command sha1 F)
  unfolding handle_command
  handle_command-Stays = record {
    stays = λ w. elim (Bool-cases (is_authenticated w.session)) [
      | inl e ↦ rw e (
          (Stays-bind KeepsUser keeps_user _
              (λ result v. done (unless_closing sha1 F result v.session.state) v)
              (dispatch-Stays KeepsUser keeps_user F)
              λ result. record { stays = keeps_user.unchanged }).stays
            w)
      | inr e ↦ rw e (
          (Stays-next KeepsUser keeps_user _ _ (Stays-reply_err KeepsUser keeps_user _ _ _)
              (Stays-pure KeepsUser keeps_user false)).stays
            w)
    ];
  }

  -- The session waited for the answer that was decoded.
  abbrev pub Waited : SessionState → Buffer → Session → Session → Type 0
  Waited state b s t = (state ≡ SessionState.handshake_sent) × FromAnswer (decode b) s t

  by_state-Secure :
      (state : SessionState) (w : Server)
      → Secure (Waited state w.buffer w.session) w.session (after (by_state sha1 F state w)).session
  unfolding by_state
  by_state-Secure SessionState.init w = Secure-refl _ w.session
  by_state-Secure SessionState.handshake_sent w =
      Secure-map _ _ _ _ (λ x. (refl, x)) (handle_authentication-Secure w)
  by_state-Secure SessionState.authenticating w = Secure-refl _ w.session
  by_state-Secure SessionState.authenticated w = KeepsUser-Secure _ (handle_command-Stays.stays w)
  by_state-Secure SessionState.command_phase w = KeepsUser-Secure _ (handle_command-Stays.stays w)
  by_state-Secure SessionState.closing w = Secure-refl _ w.session
  by_state-Secure SessionState.closed w = Secure-refl _ w.session

  -- A packet was complete, and it was such an answer.
  pub record Completed (o : Outcome BufferError Buffer ℕ) (s t : Session) : Type 0 where
    pub size : ℕ
    pub input : Buffer
    pub complete : o ≡ done size input
    pub waited : Waited s.state input s t

  packet-Secure :
      (o : Outcome BufferError Buffer ℕ) (w : Server)
      → Secure
          (Completed o w.session)
          w.session
          (after (
            continue
              (with_buffer w o)
              λ n. if n == 0 then pure true else (λ v. by_state sha1 F v.session.state v))).session
  packet-Secure (thrown e b) w = Secure-refl _ w.session
  packet-Secure (done n b) w = elim (Bool-cases (n == 0)) [
    | inl e ↦ rw e (Secure-refl _ w.session)
    | inr e ↦ rw e (
        Secure-map _ _ _ _ (λ x. record { size = n; input = b; complete = refl; waited = x })
          (by_state-Secure w.session.state (record w { buffer = b })))
  ]

  pub handle_data-Secure :
      (w : Server)
      → Secure
          (Completed (check_packet_complete w.buffer) w.session)
          w.session
          (after (handle_data sha1 F w)).session
  unfolding handle_data on_buffer
  handle_data-Secure w = packet-Secure (check_packet_complete w.buffer) w
