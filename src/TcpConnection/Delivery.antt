-- ===== src/TcpConnection/Delivery.antt =====
-- src/network/tcp_connection.cpp: the order of what is sent.
use tiny_sql.Prelude.{
  ℕ, ◌≤◌, Bool, true, false, Option, none, some, [], ◌++◌, ltb, ◌==◌, ◌||◌, not, ◌≡◌, ◌⊎◌, inl, inr,
  sym, ap, ap₂, ◌∙◌, arith, if◌then◌else◌, take, drop, length, Bytes, Bool-cases, append_assoc,
  append-nil, take-append-drop, take-append_length, ltb→le,
}
use tiny_sql.Buffer.{unread, readable_bytes, write_bytes}
use tiny_sql.Buffer.Valid.{IsValid, IsValid-advance, unread-advance}
use tiny_sql.Buffer.Writes.{write_bytes-Writes, empty-IsValid, unread-empty}
use tiny_sql.TcpConnection.{
  TcpConnection, new_connection, Written, wrote, would_block, write_failed, sent_in_part,
  send_connected, send, close, handle_close, write_complete, write_out, handle_write,
}

-- The system takes no more than it is given.
abbrev pub Takes : Written → ℕ → Type 0
Takes (wrote n) size = n ≤ size
Takes would_block size = Unit {0}
Takes write_failed size = Unit {0}

-- What a `send` adds to the data that the connection has accepted.
abbrev pub accepted : Option ℕ → Bytes → Bytes
accepted none bytes = []
accepted (some n) bytes = bytes

-- Nothing is pending, or the data joins what is pending.
abbrev pub InTurn : Written → TcpConnection → Type 0
InTurn w c = (unread c.output_buffer ≡ []) ⊎ (w ≡ would_block)

-- A connection on which some data was accepted, in this order.
pub data Sent : Bytes → TcpConnection → Type 0 where
  opened : (fd : ℕ) → Sent [] (new_connection fd)
  sending :
      (s bytes : Bytes) (w : Written) (c : TcpConnection)
      → Sent s c
      → Takes w (length bytes)
      → InTurn w c
      → Sent (s ++ accepted (send w bytes c).0 bytes) (send w bytes c).1
  writing :
      (s : Bytes) (w : Written) (c : TcpConnection)
      → Sent s c
      → Takes w (length (unread c.output_buffer))
      → Sent s (handle_write w c)
  closing : (s : Bytes) (c : TcpConnection) → Sent s c → Sent s (handle_close c)
  closed : (s : Bytes) (c : TcpConnection) → Sent s c → Sent s (close c)

-- The bytes that the system took and those that are pending.
pub record Holds (s : Bytes) (c : TcpConnection) : Type 0 where
  pub valid : IsValid c.output_buffer
  pub in_order : c.wire ++ unread c.output_buffer ≡ s

new_connection-Holds : (fd : ℕ) → Holds [] (new_connection fd)
unfolding new_connection
new_connection-Holds fd = record { valid = empty-IsValid; in_order = unread-empty }

-- What holds of both branches.
if_both : {A : Type 0} (P : A → Type 0) (b : Bool) {x y : A} → P x → P y → P (if b then x else y)
if_both P true p q = p
if_both P false p q = q

close-Holds : (s : Bytes) (c : TcpConnection) → Holds s c → Holds s (close c)
unfolding close
close-Holds s c h =
    if_both (Holds s) c.connected (record { valid = h.valid; in_order = h.in_order }) h

handle_close-Holds : (s : Bytes) (c : TcpConnection) → Holds s c → Holds s (handle_close c)
unfolding handle_close
handle_close-Holds s c h =
    if_both (Holds s) c.connected
      (close-Holds s _ (record { valid = h.valid; in_order = h.in_order })) h

write_complete-Holds : (s : Bytes) (c : TcpConnection) → Holds s c → Holds s (write_complete c)
unfolding write_complete
write_complete-Holds s c h =
    if_both (Holds s) (readable_bytes c.output_buffer == 0)
      (record { valid = h.valid; in_order = h.in_order }) h

write_out-Holds :
    (s : Bytes) (w : Written) (c : TcpConnection)
    → Holds s c
    → Takes w (length (unread c.output_buffer))
    → Holds s (write_out w c)
unfolding write_out
write_out-Holds s (wrote n) c h k = write_complete-Holds s _ (record {
  valid = IsValid-advance n c.output_buffer h.valid k;
  in_order =
      ap (λ (l : Bytes). (c.wire ++ take n (unread c.output_buffer)) ++ l)
        (unread-advance n c.output_buffer)
      ∙ append_assoc c.wire (take n (unread c.output_buffer)) (drop n (unread c.output_buffer))
      ∙ ap (λ (l : Bytes). c.wire ++ l) (take-append-drop n (unread c.output_buffer))
      ∙ h.in_order;
})
write_out-Holds s would_block c h k = write_complete-Holds s c h
write_out-Holds s write_failed c h k = handle_close-Holds s c h

handle_write-Holds :
    (s : Bytes) (w : Written) (c : TcpConnection)
    → Holds s c
    → Takes w (length (unread c.output_buffer))
    → Holds s (handle_write w c)
unfolding handle_write
handle_write-Holds s w c h k =
    if_both (Holds s) (not c.connected || (readable_bytes c.output_buffer == 0)) h
      (write_out-Holds s w c h k)

queued :
    (s bytes : Bytes) (c : TcpConnection)
    → Holds s c
    → Holds (s ++ bytes) (record c { output_buffer = write_bytes bytes c.output_buffer })
queued s bytes c h = record {
  valid = (write_bytes-Writes bytes).valid c.output_buffer h.valid;
  in_order =
      ap (λ (l : Bytes). c.wire ++ l) ((write_bytes-Writes bytes).appends c.output_buffer h.valid)
      ∙ sym (append_assoc c.wire (unread c.output_buffer) bytes)
      ∙ ap (λ (l : Bytes). l ++ bytes) h.in_order;
}

-- With nothing pending, the wire is all there is.
all_on_wire : (s : Bytes) (c : TcpConnection) → Holds s c → unread c.output_buffer ≡ [] → c.wire ≡ s
all_on_wire s c h e = sym (append-nil c.wire) ∙ ap (λ (l : Bytes). c.wire ++ l) (sym e) ∙ h.in_order

sent_in_part-Holds :
    (s bytes : Bytes) (n : ℕ) (c : TcpConnection)
    → Holds s c
    → n ≤ length bytes
    → unread c.output_buffer ≡ []
    → Holds (s ++ bytes) (sent_in_part n bytes c)
unfolding sent_in_part
sent_in_part-Holds s bytes n c h k e = elim (Bool-cases (ltb n (length bytes))) [
  | inl part ↦ rw part (record {
    valid = (write_bytes-Writes (drop n bytes)).valid c.output_buffer h.valid;
    in_order =
        ap (λ (l : Bytes). (c.wire ++ take n bytes) ++ l)
          ((write_bytes-Writes (drop n bytes)).appends c.output_buffer h.valid
            ∙ ap (λ (l : Bytes). l ++ drop n bytes) e)
        ∙ append_assoc c.wire (take n bytes) (drop n bytes)
        ∙ ap₂ (λ (l r : Bytes). l ++ r) (all_on_wire s c h e) (take-append-drop n bytes);
  })
  | inr whole ↦ rw whole (record {
    valid = h.valid;
    in_order =
        ap₂ (λ (m : ℕ) (l : Bytes). (c.wire ++ take m bytes) ++ l)
          (let all : n ≡ length bytes = omega (arith, ltb→le n (length bytes) whole) in all) e
        ∙ append-nil (c.wire ++ take (length bytes) bytes)
        ∙ ap₂ (λ (l r : Bytes). l ++ r) (all_on_wire s c h e)
            (ap (take (length bytes)) (sym (append-nil bytes)) ∙ take-append_length bytes []);
  })
]

send_connected-Holds :
    (s bytes : Bytes) (w : Written) (c : TcpConnection)
    → Holds s c
    → Takes w (length bytes)
    → InTurn w c
    → Holds (s ++ accepted (send_connected w bytes c).0 bytes) (send_connected w bytes c).1
unfolding send_connected
send_connected-Holds s bytes (wrote n) c h k (inl e) = sent_in_part-Holds s bytes n c h k e
send_connected-Holds s bytes (wrote n) c h k (inr e) = absurd cc
send_connected-Holds s bytes would_block c h k t = queued s bytes c h
send_connected-Holds s bytes write_failed c h k t = rw (append-nil s) h

send-Holds :
    (s bytes : Bytes) (w : Written) (c : TcpConnection)
    → Holds s c
    → Takes w (length bytes)
    → InTurn w c
    → Holds (s ++ accepted (send w bytes c).0 bytes) (send w bytes c).1
unfolding send
send-Holds s bytes w c h k t =
    if_both (λ (r : Option ℕ × TcpConnection). Holds (s ++ accepted r.0 bytes) r.1) c.connected
      (send_connected-Holds s bytes w c h k t) (rw (append-nil s) h)

-- A new connection, any calls of `send`, `handleWrite`, `handleClose` and `close`, and any answers
-- of the system, which takes no more than it is given; a `send` that finds bytes pending is not
-- taken by the system. Then the bytes that the system took, followed by those that are pending, are
-- the data of the calls of `send` that did not return -1, in their order.
pub Sent-Holds : {s : Bytes} {c : TcpConnection} → Sent s c → Holds s c
Sent-Holds (opened fd) = new_connection-Holds fd
Sent-Holds (sending s bytes w c r k t) = send-Holds s bytes w c (Sent-Holds r) k t
Sent-Holds (writing s w c r k) = handle_write-Holds s w c (Sent-Holds r) k
Sent-Holds (closing s c r) = handle_close-Holds s c (Sent-Holds r)
Sent-Holds (closed s c r) = close-Holds s c (Sent-Holds r)
