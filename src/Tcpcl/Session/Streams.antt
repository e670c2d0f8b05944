-- ===== src/Tcpcl/Session/Streams.antt =====
-- The octets to send, on their way through the two buffers to the socket.
use dtn_demo_agent.Common.{
  ℕ, zero, suc, ◌*◌, ◌≤◌, ◌≡◌, refl, ◌∙◌, none, some, Option, List, [], ◌∷◌, ◌++◌, length, take,
  drop, append_assoc, take-length-drop, take-append-drop, Bool, take-take, ltb, Bool-cases, inl,
  inr, arith,
}
use dtn_demo_agent.Tcpcl.Session.State.{Session}
use dtn_demo_agent.Tcpcl.Session.Connection.{
  close, conn_close, keepalive_stop, idle_stop, unlisten_tls, unlisten_notls,
}
use dtn_demo_agent.Tcpcl.Session.Transmit.{send_buffer_decreased, process_queue_trigger}
use dtn_demo_agent.Tcpcl.Session.Dispatch.{chunk_size, send_raw, tx_fill, tx_flush, tx_proxy}

-- All octets that are still to reach the socket, in order.
abbrev pub unsent : Session → List ℕ
unsent s = s.conn.tx_buf ++ s.msgr.tx_buf

-- The octets that the socket takes in a round that begins with this connection buffer.
abbrev pub taken : (List ℕ → Option ℕ) → List ℕ → List ℕ
taken sock_send [] = []
taken sock_send (b ∷ bs) = elim (sock_send (take chunk_size (b ∷ bs))) [
  | none ↦ []
  | some n ↦ take n (take chunk_size (b ∷ bs))
]

-- Popping a chunk of messages moves their front into the chunk.
send_raw_split :
    (size : ℕ) (s : Session)
    → ((send_raw size s).0 ++ (send_raw size s).1.msgr.tx_buf ≡ s.msgr.tx_buf)
      × ((send_raw size s).1.conn ≡ s.conn)
unfolding send_raw send_buffer_decreased process_queue_trigger
send_raw_split size s =
    elim (Bool-cases (
      ltb (length (drop (length (take size s.msgr.tx_buf)) s.msgr.tx_buf))
        (5 * s.msgr.send_segment_size))) [
          | inl e ↦ rw e (take-length-drop size s.msgr.tx_buf, refl)
          | inr e ↦ rw e (take-length-drop size s.msgr.tx_buf, refl)
        ]

unsent-fill : (s : Session) → unsent (tx_fill s).1 ≡ unsent s
unfolding tx_fill
unsent-fill s = elim (Bool-cases (ltb (length s.conn.tx_buf) chunk_size)) [
  | inl e ↦ rw e (
      append_assoc (send_raw chunk_size s).1.conn.tx_buf (send_raw chunk_size s).0 _
      ∙ cc ((send_raw_split chunk_size s).0, (send_raw_split chunk_size s).1))
  | inr e ↦ rw e
]

unsent-close : (s : Session) → unsent (close s) ≡ unsent s
unfolding close conn_close keepalive_stop idle_stop unlisten_tls unlisten_notls
unsent-close s = ground arith

-- `socket.send` returns how many octets of its argument it took.
abbrev pub SendLaw : (List ℕ → Option ℕ) → Type 0
SendLaw sock_send = (xs : List ℕ) (n : ℕ) → sock_send xs ≡ some n → n ≤ length xs

flush_cases :
    (sock_send : List ℕ → Option ℕ) (up_empty : Bool) (s : Session) (buf : List ℕ) (r : Option ℕ)
    → s.conn.tx_buf ≡ buf
    → sock_send (take chunk_size s.conn.tx_buf) ≡ r
    → SendLaw sock_send
    → taken sock_send s.conn.tx_buf ++ unsent (tx_flush sock_send up_empty s).1 ≡ unsent s
unfolding tx_flush
flush_cases sock_send up_empty s [] r e q law = ground arith
flush_cases sock_send up_empty s (b ∷ bs) none e q law = ground (arith, unsent-close s)
flush_cases sock_send up_empty s (b ∷ bs) (some zero) e q law = ground (arith, unsent-close s)
flush_cases sock_send up_empty s (b ∷ bs) (some (suc n)) e q law = ground (
  arith,
  take-take (suc n) chunk_size s.conn.tx_buf (law _ (suc n) q),
  take-append-drop (suc n) s.conn.tx_buf,
  append_assoc (take (suc n) s.conn.tx_buf) (drop (suc n) s.conn.tx_buf) s.msgr.tx_buf,
)

unsent-flush :
    (sock_send : List ℕ → Option ℕ) (up_empty : Bool) (s : Session)
    → SendLaw sock_send
    → taken sock_send s.conn.tx_buf ++ unsent (tx_flush sock_send up_empty s).1 ≡ unsent s
unsent-flush sock_send up_empty s law =
    flush_cases sock_send up_empty s s.conn.tx_buf (sock_send (take chunk_size s.conn.tx_buf)) refl
      refl law

-- One round of `_tx_proxy` loses nothing and changes no order: what the socket takes is the front of
-- the octets that wait, and the rest of them still waits, also when the round closes the connection.
pub tx_proxy_stream :
    (sock_send : List ℕ → Option ℕ) (s : Session)
    → SendLaw sock_send
    → taken sock_send (tx_fill s).1.conn.tx_buf ++ unsent (tx_proxy sock_send s).1 ≡ unsent s
unfolding tx_proxy
tx_proxy_stream sock_send s law =
    unsent-flush sock_send (tx_fill s).0 (tx_fill s).1 law ∙ unsent-fill s
