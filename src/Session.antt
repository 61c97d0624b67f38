-- ===== src/Session.antt =====
-- src/session/session.cpp, include/tiny_sql/session/session.h: what the server keeps of a
-- connection.
use tiny_sql.Prelude.{ℕ, ◌+◌, ◌%◌, ◌^◌, Bool, true, false, [], ◌∷◌, ◌++◌, Bytes, codes}
use tiny_sql.Ast.{to_string}
use tiny_sql.Handshake.{zeros}

pub data SessionState : Type 0 where
  init handshake_sent authenticating authenticated command_phase closing closed : SessionState

pub record Session : Type 0 where
  pub connection_id : ℕ
  pub state : SessionState
  pub username : Bytes
  pub current_database : Bytes
  pub sequence_id : ℕ
  pub auth_plugin_data : Bytes

pub new_session : ℕ → Session
new_session connection_id = record {
  connection_id = connection_id;
  state = SessionState.init;
  username = [];
  current_database = [];
  sequence_id = 0;
  auth_plugin_data = zeros 20;
}

unfoldable pub is_authenticated : Session → Bool
is_authenticated s = elim s.state [
  | SessionState.init ↦ false
  | SessionState.handshake_sent ↦ false
  | SessionState.authenticating ↦ false
  | SessionState.authenticated ↦ true
  | SessionState.command_phase ↦ true
  | SessionState.closing ↦ false
  | SessionState.closed ↦ false
]

-- `sequence_id_++` of an 8-bit number.
unfoldable pub next_sequence_id : Session → ℕ × Session
next_sequence_id s = (s.sequence_id, record s { sequence_id = (s.sequence_id + 1) % 2 ^ 8 })

unfoldable pub set_state : SessionState → Session → Session
set_state state s = record s { state = state }

unfoldable pub set_username : Bytes → Session → Session
set_username username s = record s { username = username }

unfoldable pub set_current_database : Bytes → Session → Session
set_current_database database s = record s { current_database = database }

unfoldable pub set_auth_plugin_data : Bytes → Session → Session
set_auth_plugin_data bytes s = record s { auth_plugin_data = bytes }

unfoldable pub reset_sequence_id : Session → Session
reset_sequence_id s = record s { sequence_id = 0 }

abbrev or_none : Bytes → Bytes
or_none [] = codes "<none>"
or_none (c ∷ s) = c ∷ s

state_name : SessionState → Bytes
state_name SessionState.init = codes "INIT"
state_name SessionState.handshake_sent = codes "HANDSHAKE_SENT"
state_name SessionState.authenticating = codes "AUTHENTICATING"
state_name SessionState.authenticated = codes "AUTHENTICATED"
state_name SessionState.command_phase = codes "COMMAND_PHASE"
state_name SessionState.closing = codes "CLOSING"
state_name SessionState.closed = codes "CLOSED"

pub get_session_info : Session → Bytes
get_session_info s =
    codes "Session[id="
    ++ (to_string s.connection_id
        ++ (codes ", user="
            ++ (or_none s.username
                ++ (codes ", db="
                    ++ (or_none s.current_database
                        ++ (codes ", state=" ++ (state_name s.state ++ codes "]")))))))
