-- ===== src/ProtocolHandler/Tests.antt =====
-- The theorems on connections at concrete inputs.
use tiny_sql.Prelude.{
  sym, Bool, Outcome, true, false, [], ◌∷◌, ◌++◌, ◌≡◌, refl, ap, ◌∙◌, arith, subst, append-nil,
  Bytes, codes, done, after,
}
use tiny_sql.Buffer.{empty, unread, append}
use tiny_sql.Buffer.Valid.{IsValid}
use tiny_sql.Buffer.Writes.{append-Writes, empty-IsValid, unread-empty}
use tiny_sql.Packet.Framing.{packet_bytes}
use tiny_sql.Handshake.{HandshakeResponse41, zeros, has_flag}
use tiny_sql.Handshake.Encoding.{response41_bytes, low_bytes}
use tiny_sql.Handshake.RoundTrip.{AuthFits, Response41Fits}
use tiny_sql.Session.{is_authenticated, reset_sequence_id, set_state}
use tiny_sql.Authenticator.{compute_auth_response}
use tiny_sql.Authenticator.Accepts.{password_of}
use tiny_sql.Authenticator.Tests.{length_digest, length_digest-IsSha1}
use tiny_sql.Storage.Compare.Tests.{whole_floats}
use tiny_sql.Commands.{CommandError, Storage, Server, on_session}
use tiny_sql.ProtocolHandler.{new_handler, send_handshake, send_response, handle_data}
use tiny_sql.ProtocolHandler.Trust.{LoggedIn, greeted, now, received, handled, Later-LoggedIn}
use tiny_sql.ProtocolHandler.Waits.{handle_data-storage}
use tiny_sql.ProtocolHandler.Login.{LogsIn, handle_data-login}

abbrev random : Bytes
random = codes "abcdefghijklmnopqrst"

abbrev storage : Storage
storage = record { databases = [] }

-- A connection after the greeting, and one on which the answer has arrived.
abbrev waiting : Server
waiting = after (send_handshake random (new_handler 7 storage))

abbrev answer : HandshakeResponse41
answer = record {
  capability_flags = 0;
  max_packet_size = 65536;
  character_set = 45;
  username = codes "root";
  auth_response = [];
  database = [];
  auth_plugin_name = [];
}

abbrev answer_bytes : Bytes
answer_bytes = packet_bytes (response41_bytes answer) 1

abbrev answered : Server
answered = record waiting { buffer = append answer_bytes waiting.buffer }

answer-AuthFits : AuthFits answer.capability_flags answer.auth_response
answer-AuthFits = record { one_byte_fits = λ a b. omega arith; text_fits = λ a b. tt }

answer-Response41Fits : Response41Fits answer
unfolding zeros low_bytes has_flag
answer-Response41Fits = record {
  capability_flags_fits = omega arith;
  max_packet_size_fits = omega arith;
  character_set_fits = omega arith;
  username_fits = omega arith;
  auth_response_fits = answer-AuthFits;
  database_fits = tt;
  auth_plugin_name_fits = tt;
  payload_fits = omega arith;
}

answered-IsValid : IsValid answered.buffer
unfolding send_handshake new_handler on_session send_response
answered-IsValid = (append-Writes answer_bytes).valid empty empty-IsValid

answered-unread : unread answered.buffer ≡ answer_bytes ++ []
unfolding send_handshake new_handler on_session send_response
answered-unread =
    (append-Writes answer_bytes).appends empty empty-IsValid
    ∙ ap (λ (l : Bytes). l ++ answer_bytes) unread-empty
    ∙ sym (append-nil answer_bytes)

handle_data-login_example : LogsIn length_digest whole_floats answered (codes "root")
unfolding send_handshake new_handler on_session send_response reset_sequence_id set_state
    password_of compute_auth_response tiny_sql.Prelude.str_eq
handle_data-login_example =
    handle_data-login length_digest whole_floats answer [] [] 1 answered length_digest-IsSha1
      answer-Response41Fits (omega arith) answered-IsValid answered-unread refl refl refl

abbrev logged_in : Server
logged_in = after (handle_data length_digest whole_floats answered)

logged_in-is_authenticated : is_authenticated logged_in.session ≡ true
logged_in-is_authenticated =
    let l = handle_data-login_example in
    subst (λ (o : Outcome CommandError Server Bool). is_authenticated (after o).session ≡ true)
      (sym l.returned) l.is_in

Later-LoggedIn_example :
    LoggedIn length_digest whole_floats random (greeted random 7 storage) logged_in
Later-LoggedIn_example =
    Later-LoggedIn length_digest whole_floats random 7 storage logged_in
      (handled answered (received waiting answer_bytes now)) logged_in-is_authenticated

handle_data-storage_example :
    (after (handle_data length_digest whole_floats answered)).storage ≡ answered.storage
unfolding send_handshake new_handler is_authenticated on_session send_response reset_sequence_id
    set_state
handle_data-storage_example = handle_data-storage length_digest whole_floats answered refl
