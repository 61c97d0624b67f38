-- ===== src/TcpConnection/Tests.antt =====
-- The theorems on sending and closing at concrete inputs.
use tiny_sql.Prelude.{[], ◌∷◌, ◌++◌, ◌≡◌, refl, arith, codes, inl, inr}
use tiny_sql.Buffer.Writes.{unread-empty}
use tiny_sql.TcpConnection.{
  TcpConnection, new_connection, wrote, would_block, send, handle_close, handle_write,
}
use tiny_sql.TcpConnection.Delivery.{Holds, opened, sending, accepted, Sent-Holds}
use tiny_sql.TcpConnection.Closing.{send_call, close_call, run_all, handle_close-run_all}

abbrev connection : TcpConnection
connection = new_connection 7

-- The system takes two of five bytes, then nothing.
abbrev after_first : TcpConnection
after_first = (send (wrote 2) (codes "hello") connection).1

abbrev after_second : TcpConnection
after_second = (send would_block (codes "you") after_first).1

Sent-Holds_example :
    Holds
      (([] ++ accepted (send (wrote 2) (codes "hello") connection).0 (codes "hello"))
        ++ accepted (send would_block (codes "you") after_first).0 (codes "you"))
      after_second
unfolding new_connection
Sent-Holds_example = Sent-Holds (
    sending _ (codes "you") would_block after_first
      (sending [] (codes "hello") (wrote 2) connection (opened 7) (omega arith) (inl unread-empty))
      tt (inr refl))

handle_close-run_all_example :
    ((run_all
        (send_call would_block (codes "x") ∷ close_call ∷ [])
        (handle_close after_second)).closed_sockets
      ≡ after_second.closed_sockets)
    × ((run_all
          (send_call would_block (codes "x") ∷ close_call ∷ [])
          (handle_close after_second)).wire
        ≡ after_second.wire)
unfolding new_connection send tiny_sql.TcpConnection.send_connected
    tiny_sql.TcpConnection.sent_in_part
handle_close-run_all_example =
    handle_close-run_all (send_call would_block (codes "x") ∷ close_call ∷ []) after_second refl
