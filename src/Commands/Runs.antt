-- ===== src/Commands/Runs.antt =====
-- src/command/command_handler.cpp: a whole command packet, from its header to the reply.
use tiny_sql.Prelude.{
  ℕ, ◌+◌, ◌*◌, ◌%◌, ◌^◌, ◌<◌, ◌≤◌, true, [], ◌∷◌, ◌++◌, ◌≡◌, refl, sym, ap, ap₂, ◌∙◌, arith, length,
  take, Bytes, done, le→ltb, append-nil, length-append, take-append_length,
}
use tiny_sql.Buffer.{Buffer, empty, unread, advance, readable_bytes}
use tiny_sql.Buffer.Valid.{IsValid, readable_bytes-length}
use tiny_sql.Buffer.Reads.{read_uint8-Reads, read_string-Reads, unread-after, IsValid-after}
use tiny_sql.Buffer.Writes.{Writes, empty-IsValid, unread-empty}
use tiny_sql.Packet.Framing.{read_uint24-eq, packet_bytes, header_bytes}
use tiny_sql.Response.{ok_encode}
use tiny_sql.Response.Encoding.{ok_bytes, ok_encode-Writes}
use tiny_sql.Session.{next_sequence_id, set_current_database}
use tiny_sql.Storage.Compare.{Floats}
use tiny_sql.Commands.{
  Server, on_buffer, on_session, call_back, reply, reply_ok, ok_packet, read_all, handle_init_db,
}
use tiny_sql.Commands.Dispatch.{run_command, dispatch_payload, dispatch, set_sequence_id}

-- What is sent, onto an empty response.
sent-Writes :
    (encode : Buffer → Buffer) (s : Bytes)
    → Writes encode s
    → take (readable_bytes (encode empty)) (unread (encode empty)) ≡ s
sent-Writes encode s w =
    let text : unread (encode empty) ≡ s =
      w.appends empty empty-IsValid ∙ ap (λ (l : Bytes). l ++ s) unread-empty in
    let size : readable_bytes (encode empty) ≡ length s =
      readable_bytes-length (encode empty) (w.valid empty empty-IsValid) ∙ ap (length {0}) text in
    rw (size, text) (ap (take (length s)) (sym (append-nil s)) ∙ take-append_length s [])

module _ (F : Floats) where
  -- A packet that is all there is taken apart: its command runs on the rest of the input, with the
  -- packet's sequence number.
  pub dispatch-runs :
      (b0 b1 b2 seq command : ℕ) (rest : Bytes) (w : Server)
      → IsValid w.buffer
      → unread w.buffer ≡ b0 ∷ b1 ∷ b2 ∷ seq ∷ command ∷ rest
      → 1 ≤ b0 + b1 * 2 ^ 8 + b2 * 2 ^ 16
      → b0 + b1 * 2 ^ 8 + b2 * 2 ^ 16 ≤ 1 + length rest
      → dispatch F w
        ≡ run_command F command (record w {
          buffer = advance 5 w.buffer;
          session = record w.session { sequence_id = seq };
        })
  unfolding dispatch dispatch_payload on_buffer on_session set_sequence_id
  dispatch-runs b0 b1 b2 seq command rest w v e some enough =
      let b = w.buffer in
      let e3 = unread-after b (b0 ∷ b1 ∷ b2 ∷ []) (seq ∷ command ∷ rest) e in
      let v3 = IsValid-after b (b0 ∷ b1 ∷ b2 ∷ []) (seq ∷ command ∷ rest) v e in
      let e4 = unread-after (advance 3 b) (seq ∷ []) (command ∷ rest) e3 in
      let v4 = IsValid-after (advance 3 b) (seq ∷ []) (command ∷ rest) v3 e3 in
      let room : 4 ≤ readable_bytes b =
        omega (arith, readable_bytes-length b v, ap (length {0}) e) in
      let n = b0 + b1 * 2 ^ 8 + b2 * 2 ^ 16 in
      let left : n ≤ readable_bytes (advance 1 (advance 3 b)) =
        omega (arith, readable_bytes-length (advance 1 (advance 3 b)) v4, ap (length {0}) e4) in
      rw (le→ltb (readable_bytes b) 4 room) (
        rw (read_uint24-eq b0 b1 b2 b (seq ∷ command ∷ rest) v e) (
          rw (read_uint8-Reads seq (advance 3 b) (command ∷ rest) v3 e3) (
            rw (le→ltb (readable_bytes (advance 1 (advance 3 b))) n left, le→ltb n 1 some)
              (rw (read_uint8-Reads command (advance 1 (advance 3 b)) rest v4 e4) (
                ap
                  (λ k. run_command F command (record w {
                    buffer = record b { read_index = k };
                    session = record w.session { sequence_id = seq };
                  }))
                  (omega arith))))))

  read_all-eq :
      (s : Bytes) (w : Server)
      → IsValid w.buffer
      → unread w.buffer ≡ s
      → read_all w ≡ done s (record w { buffer = advance (length s) w.buffer })
  unfolding read_all on_buffer
  read_all-eq s w v e =
      let size : readable_bytes w.buffer ≡ length s =
        readable_bytes-length w.buffer v ∙ ap (length {0}) e in
      rw size (rw (read_string-Reads s w.buffer [] v (e ∙ sym (append-nil s))) refl)

  handle_init_db-eq :
      (s : Bytes) (w : Server)
      → IsValid w.buffer
      → unread w.buffer ≡ s
      → handle_init_db w
        ≡ done true (record w {
          buffer = advance (length s) w.buffer;
          session = record w.session {
            sequence_id = (w.session.sequence_id + 1) % 2 ^ 8;
            current_database = s;
          };
          sent = w.sent ++ packet_bytes (ok_bytes (ok_packet 0 0 [])) w.session.sequence_id;
        })
  unfolding handle_init_db on_session set_current_database reply_ok reply call_back next_sequence_id
  handle_init_db-eq s w v e = rw (read_all-eq s w v e) (
      rw
        (sent-Writes (ok_encode (ok_packet 0 0 []) w.session.sequence_id) _
          (ok_encode-Writes (ok_packet 0 0 []) w.session.sequence_id))
        refl)

  -- A complete COM_INIT_DB packet: the database that is chosen is everything that is left in the
  -- input, the name in the packet and whatever has arrived behind the packet; the OK packet that
  -- answers carries the sequence number of the request itself, and nothing stays unread.
  pub dispatch-init_db :
      (name rest : Bytes) (seq : ℕ) (w : Server)
      → 1 + length name < 2 ^ 24
      → seq < 2 ^ 8
      → IsValid w.buffer
      → unread w.buffer ≡ packet_bytes (0x02 ∷ name) seq ++ rest
      → dispatch F w
        ≡ done true (record w {
          buffer = advance (length (packet_bytes (0x02 ∷ name) seq ++ rest)) w.buffer;
          session = record w.session {
            sequence_id = (seq + 1) % 2 ^ 8;
            current_database = name ++ rest;
          };
          sent = w.sent ++ packet_bytes (ok_bytes (ok_packet 0 0 [])) seq;
        })
  unfolding run_command
  dispatch-init_db name rest seq w small k v e =
      let b = w.buffer in
      let front = header_bytes (length (0x02 ∷ name)) seq ++ 0x02 ∷ [] in
      let low : seq % 2 ^ 8 ≡ seq = omega arith in
      dispatch-runs _ _ _ _ 0x02 (name ++ rest) w v e (omega arith)
        (omega (arith, length-append {0} name rest))
      ∙ handle_init_db-eq (name ++ rest)
          (record w {
            buffer = advance 5 b;
            session = record w.session { sequence_id = seq % 2 ^ 8 };
          })
          (IsValid-after b front (name ++ rest) v e) (unread-after b front (name ++ rest) e)
      ∙ ap₂
          (λ q i. done true (record w {
            buffer = record b { read_index = i };
            session = record w.session {
              sequence_id = (q + 1) % 2 ^ 8;
              current_database = name ++ rest;
            };
            sent = w.sent ++ packet_bytes (ok_bytes (ok_packet 0 0 [])) q;
          }))
          low (omega arith)
