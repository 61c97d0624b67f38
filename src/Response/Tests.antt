-- ===== src/Response/Tests.antt =====
-- The theorems on the OK, ERR and EOF packets at concrete inputs.
use tiny_sql.Prelude.{true, [], ◌≡◌, refl, arith, codes, done}
use tiny_sql.Buffer.{empty, append}
use tiny_sql.Buffer.RoundTrip.{Returns}
use tiny_sql.Buffer.Writes.{empty-IsValid, unread-empty}
use tiny_sql.Response.{
  PacketType, identify_packet_type, OkPacket, ErrPacket, EofPacket, ok_encode, ok_decode,
  err_encode, err_decode, checked_state, eof_encode, eof_decode,
}
use tiny_sql.Response.Identify.{identify_packet_type-encode}
use tiny_sql.Response.RoundTrip.{
  OkFits, ErrFits, ok_decode-encode, err_decode-encode, eof_decode-encode,
}

abbrev ok_packet : OkPacket
ok_packet = record {
  affected_rows = 300;
  last_insert_id = 7;
  status_flags = 2;
  warnings = 0;
  info = codes "done";
}

ok_packet-OkFits : OkFits ok_packet
ok_packet-OkFits = record {
  affected_rows_fits = omega arith;
  last_insert_id_fits = omega arith;
  status_flags_fits = omega arith;
  warnings_fits = omega arith;
  payload_fits = omega arith;
}

ok_decode-encode_example :
    Returns
      (ok_decode ok_packet)
      (append (codes "z") (ok_encode ok_packet 1 empty))
      (true, ok_packet)
      (codes "z")
ok_decode-encode_example =
    ok_decode-encode ok_packet ok_packet (codes "z") 1 empty ok_packet-OkFits (omega arith)
      empty-IsValid unread-empty

abbrev err_packet : ErrPacket
err_packet = record { error_code = 1064; sql_state = codes "42000"; error_message = codes "syntax" }

err_packet-ErrFits : ErrFits err_packet
unfolding checked_state
err_packet-ErrFits = record {
  error_code_fits = omega arith;
  sql_state_fits = refl;
  payload_fits = omega arith;
}

err_decode-encode_example :
    Returns
      (err_decode err_packet)
      (append (codes "z") (err_encode err_packet 1 empty))
      (true, err_packet)
      (codes "z")
err_decode-encode_example =
    err_decode-encode err_packet err_packet (codes "z") 1 empty err_packet-ErrFits (omega arith)
      empty-IsValid unread-empty

abbrev eof_packet : EofPacket
eof_packet = record { warnings = 0; status_flags = 2 }

eof_decode-encode_example :
    Returns
      (eof_decode eof_packet)
      (append [] (eof_encode eof_packet 5 empty))
      (true, eof_packet)
      []
eof_decode-encode_example =
    eof_decode-encode eof_packet eof_packet [] 5 empty (omega arith) (omega arith) (omega arith)
      empty-IsValid unread-empty

identify_packet_type-encode_example :
    (identify_packet_type (append (codes "z") (ok_encode ok_packet 1 empty))
      ≡ done PacketType.ok (append (codes "z") (ok_encode ok_packet 1 empty)))
    × (identify_packet_type (append (codes "z") (err_encode err_packet 1 empty))
        ≡ done PacketType.err (append (codes "z") (err_encode err_packet 1 empty)))
    × (identify_packet_type (append (codes "z") (eof_encode eof_packet 1 empty))
        ≡ done PacketType.eof_pkt (append (codes "z") (eof_encode eof_packet 1 empty)))
identify_packet_type-encode_example =
    identify_packet_type-encode ok_packet err_packet eof_packet (codes "z") 1 empty empty-IsValid
      unread-empty
