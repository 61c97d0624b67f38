-- ===== src/Packet/Tests.antt =====
-- The theorems on packets at concrete inputs.
use tiny_sql.Prelude.{true, ◌+◌, [], ◌∷◌, ◌≡◌, refl, arith, codes, length, done}
use tiny_sql.Buffer.{Buffer, empty, unread, append}
use tiny_sql.Buffer.Valid.{IsValid}
use tiny_sql.Buffer.RoundTrip.{Returns}
use tiny_sql.Buffer.Writes.{empty-IsValid, unread-empty}
use tiny_sql.Packet.{generic_decode, generic_encode, check_packet_complete}
use tiny_sql.Packet.Complete.{
  announced, check_packet_complete-announced, check_packet_complete-encode, generic_decode-encode,
}

-- Six of the seven bytes of a packet.
abbrev part : Buffer
part = record { contents = 3 ∷ 0 ∷ 0 ∷ 1 ∷ 97 ∷ 98 ∷ []; read_index = 0; write_index = 6 }

part-IsValid : IsValid part
part-IsValid = record { read_le_write = omega arith; write_eq_size = refl }

check_packet_complete-announced_example :
    check_packet_complete part ≡ done (announced (unread part)) part
check_packet_complete-announced_example = check_packet_complete-announced part part-IsValid

check_packet_complete-encode_example :
    check_packet_complete (append (codes "z") (generic_encode (codes "abc") 1 empty))
    ≡ done (4 + length (codes "abc")) (append (codes "z") (generic_encode (codes "abc") 1 empty))
check_packet_complete-encode_example =
    check_packet_complete-encode (codes "abc") (codes "z") 1 empty (omega arith) empty-IsValid
      unread-empty

generic_decode-encode_example :
    Returns
      (generic_decode [])
      (append (codes "z") (generic_encode (codes "abc") 1 empty))
      (true, codes "abc")
      (codes "z")
generic_decode-encode_example =
    generic_decode-encode (codes "abc") [] (codes "z") 1 empty (omega arith) (omega arith)
      empty-IsValid unread-empty
