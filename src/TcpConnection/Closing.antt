-- ===== src/TcpConnection/Closing.antt =====
-- src/network/tcp_connection.cpp: a descriptor after `handleClose`.
use tiny_sql.Prelude.{true, false, List, [], ◌∷◌, ◌≡◌, refl, ap, ◌∙◌, Bytes}
use tiny_sql.TcpConnection.{TcpConnection, Written, send, close, handle_close, handle_write}

-- A call of a method of the connection.
pub data Call : Type 0 where
  send_call : Written → Bytes → Call
  write_call : Written → Call
  handle_close_call close_call : Call

pub run : Call → TcpConnection → TcpConnection
run (send_call w bytes) c = (send w bytes c).1
run (write_call w) c = handle_write w c
run handle_close_call c = handle_close c
run close_call c = close c

pub run_all : List Call → TcpConnection → TcpConnection
run_all [] c = c
run_all (call ∷ calls) c = run_all calls (run call c)

run-same : (call : Call) (c : TcpConnection) → c.connected ≡ false → run call c ≡ c
unfolding run send handle_write handle_close close
run-same (send_call w bytes) c e = rw e refl
run-same (write_call w) c e = rw e refl
run-same handle_close_call c e = rw e refl
run-same close_call c e = rw e refl

run_all-same : (calls : List Call) (c : TcpConnection) → c.connected ≡ false → run_all calls c ≡ c
unfolding run_all
run_all-same [] c e = refl
run_all-same (call ∷ calls) c e = ap (run_all calls) (run-same call c e) ∙ run_all-same calls c e

-- On a connection that is connected, after `handleClose`, which a read at the end of the stream and
-- an error call: whatever methods are called from then on, `close` and with it the destructor among
-- them, its descriptor is never given to `closeSocket`, and no more bytes are sent.
pub handle_close-run_all :
    (calls : List Call) (c : TcpConnection)
    → c.connected ≡ true
    → ((run_all calls (handle_close c)).closed_sockets ≡ c.closed_sockets)
      × ((run_all calls (handle_close c)).wire ≡ c.wire)
unfolding handle_close close
handle_close-run_all calls c e = rw e (
    (
      ap (λ (v : TcpConnection). v.closed_sockets) (run_all-same calls _ refl),
      ap (λ (v : TcpConnection). v.wire) (run_all-same calls _ refl),
    ))
