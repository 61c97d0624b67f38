-- ===== src/TcpConnection.antt =====
-- src/network/tcp_connection.cpp: what a connection sends, and how it is closed.
--
-- What the system answers to `::write` is an argument of each operation that calls it. The bytes
-- that the system took, the descriptors given to `closeSocket` and the calls of the callbacks are
-- kept in the state. The connection's descriptor is `none` for -1. Reading into the input buffer
-- depends on the capacity of its vector and is left out.
pub mod Delivery
pub mod Closing
mod Tests
use tiny_sql.Prelude.{
  ℕ, suc, Bool, true, false, Option, none, some, List, [], ◌∷◌, ◌++◌, ltb, ◌==◌, ◌||◌, not,
  if◌then◌else◌, take, drop, length, Bytes,
}
use tiny_sql.Buffer.{Buffer, empty, unread, advance, readable_bytes, write_bytes}

pub record TcpConnection : Type 0 where
  pub fd : Option ℕ
  pub connected : Bool
  pub output_buffer : Buffer
  pub wire : Bytes
  pub closed_sockets : List ℕ
  pub close_calls : ℕ
  pub write_complete_calls : ℕ

pub new_connection : ℕ → TcpConnection
new_connection fd = record {
  fd = some fd;
  connected = true;
  output_buffer = empty;
  wire = [];
  closed_sockets = [];
  close_calls = 0;
  write_complete_calls = 0;
}

-- The answer of `::write`: a count, -1 with `EAGAIN` or `EWOULDBLOCK`, or -1 with another error.
pub data Written : Type 0 where
  wrote : ℕ → Written
  would_block write_failed : Written

-- The state after the system took some bytes of the data.
sent_in_part : ℕ → Bytes → TcpConnection → TcpConnection
sent_in_part n bytes c = record c {
  wire = c.wire ++ take n bytes;
  output_buffer =
      if ltb n (length bytes) then write_bytes (drop n bytes) c.output_buffer else c.output_buffer;
}

-- `send` on a connection that is connected; `none` is the result -1.
send_connected : Written → Bytes → TcpConnection → Option ℕ × TcpConnection
send_connected (wrote n) bytes c = (some n, sent_in_part n bytes c)
send_connected would_block bytes c =
    (some 0, record c { output_buffer = write_bytes bytes c.output_buffer })
send_connected write_failed bytes c = (none, c)

pub send : Written → Bytes → TcpConnection → Option ℕ × TcpConnection
send w bytes c = if c.connected then send_connected w bytes c else (none, c)

-- `send(const Buffer&)`, which sends the whole vector.
pub send_buffer : Written → Buffer → TcpConnection → Option ℕ × TcpConnection
send_buffer w b = send w b.contents

close_socket : Option ℕ → List ℕ → List ℕ
close_socket none closed = closed
close_socket (some fd) closed = closed ++ fd ∷ []

-- `close`, `forceClose`, and the destructor.
pub close : TcpConnection → TcpConnection
close c =
    if c.connected
    then record c {
      connected = false;
      closed_sockets = close_socket c.fd c.closed_sockets;
      fd = none;
    }
    else c

-- `handleClose`, and `handleError` behind its log line.
pub handle_close : TcpConnection → TcpConnection
handle_close c =
    if c.connected
    then close (record c { connected = false; close_calls = suc c.close_calls })
    else c

-- The end of `handleWrite`.
write_complete : TcpConnection → TcpConnection
write_complete c =
    if readable_bytes c.output_buffer == 0
    then record c { write_complete_calls = suc c.write_complete_calls }
    else c

-- `writeToFd` on the output buffer, and what follows it.
write_out : Written → TcpConnection → TcpConnection
write_out (wrote n) c = write_complete (record c {
  wire = c.wire ++ take n (unread c.output_buffer);
  output_buffer = advance n c.output_buffer;
})
write_out would_block c = write_complete c
write_out write_failed c = handle_close c

pub handle_write : Written → TcpConnection → TcpConnection
handle_write w c =
    if not c.connected || (readable_bytes c.output_buffer == 0) then c else write_out w c
