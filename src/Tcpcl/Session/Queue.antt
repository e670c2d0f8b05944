-- ===== src/Tcpcl/Session/Queue.antt =====
-- The transmit queue of src/tcpcl/session.py, and what leaves it alone.
pub mod Frame
pub mod Invariant
pub mod Keeps
pub mod Process
pub mod Steps
use dtn_demo_agent.Common.{
  ℕ, zero, suc, ◌≡◌, refl, ap, sym, ◌∙◌, Bool, true, false, Option, none, some, List, [], ◌∷◌, ◌++◌,
  arith, Bool-cases, inl, inr, is_empty, length, ltb, ◌+◌, ◌*◌, is_none, not, ◌&&◌, ◌||◌,
  if◌then◌else◌,
}
use dtn_demo_agent.Common.Exec.{
  Exec, Outcome, done, raised, final, continue, when, get, modify, ◌>>=◌, ◌>>◌, ssl_error,
  reject_error, terminate_error,
}
use dtn_demo_agent.Tcpcl.Packet.{
  Codec, Pkt, SessionInit, TransferSegment, contact, sess_init, sess_term, xfer_segment, xfer_ack,
}
use dtn_demo_agent.Tcpcl.Session.State.{Session, Env, SessState, RxItem}
use dtn_demo_agent.Tcpcl.Session.Connection.{
  is_secure, close, conn_close, unlisten_notls, unlisten_tls, keepalive_stop, keepalive_reset,
  idle_stop, idle_reset, get_ssl_context, secure, send_ready, update_state, check_sess_term,
  is_sess_idle,
}
use dtn_demo_agent.Tcpcl.Session.Sending.{
  send_message, send_reject, send_sess_term, send_contact_header, send_sess_init, send_xfer_data,
  send_xfer_ack, require_sess,
}
use dtn_demo_agent.Tcpcl.Session.Transmit.{send_buffer_decreased, process_queue_trigger}
use dtn_demo_agent.Tcpcl.Session.Receive.{
  rx_setup, rx_teardown, finish_rx, write_segment, resume_segment, recv_xfer_data,
}
use dtn_demo_agent.Tcpcl.Session.Negotiate.{
  merge_contact_params, merge_session_params, authenticate, adopt_params, Identity,
}
use dtn_demo_agent.Tcpcl.Session.Dispatch.{
  send_raw, tx_fill, tx_flush, tx_proxy, avail_tx_notls, flush_tx, violates, after_tls,
  after_handshake, attempt_tls, finish_contact, recv_contact, recv_sess_init,
}

-- Where the transfers are: the next ID, those that wait, the one in progress, those that wait for
-- their acknowledgement, and all that are known.
pub record Queue : Type 0 where
  pub next_id : ℕ
  pub waiting : List ℕ
  pub current : Option ℕ
  pub unacked : List ℕ
  pub known : List ℕ
  pub final_ack : Bool

abbrev pub queue : Session → Queue
queue s = record {
  next_id = s.hdl.tx_next_id;
  waiting = s.hdl.tx_pend_start;
  current = s.hdl.tx_tmp;
  unacked = s.hdl.tx_pend_ack;
  known = s.hdl.tx_map;
  final_ack = s.msgr.do_send_ack_final;
}

-- A call leaves the queue alone, whether it returns or raises.
pub record Leaves {A : Type 0} (m : Exec Session A) : Type 0 where
  pub leaves : (s : Session) → queue (final (m s)) ≡ queue s

pub Leaves-bind :
    {A B : Type 0} {m : Exec Session A} {f : A → Exec Session B}
    → Leaves m
    → ((a : A) → Leaves (f a))
    → Leaves (m >>= f)
Leaves-bind {m = m} {f = f} p q = record { leaves = λ s. bound s (m s) refl }
  where
    bound : (s : Session) (o : Outcome Session _) → m s ≡ o → queue (final (continue o f)) ≡ queue s
    bound s (done a t) e = (q a).leaves t ∙ sym (ap (λ o. queue (final o)) e) ∙ p.leaves s
    bound s (raised x t) e = sym (ap (λ o. queue (final o)) e) ∙ p.leaves s

pub Leaves-when : (b : Bool) {m : Exec Session (Unit {0})} → Leaves m → Leaves (when b m)
Leaves-when true p = record { leaves = λ s. p.leaves s }
Leaves-when false p = record { leaves = λ s. refl }

pub Leaves-get : Leaves get
Leaves-get = record { leaves = λ s. refl }

pub Leaves-modify :
    {f : Session → Session} → ((s : Session) → queue (f s) ≡ queue s) → Leaves (modify f)
Leaves-modify h = record { leaves = h }

send_ready-Leaves : Leaves send_ready
unfolding send_ready
send_ready-Leaves = record { leaves = λ s. ground arith }

pub send_message-Leaves : (codec : Codec) (pkt : Pkt) → Leaves (send_message codec pkt)
unfolding send_message send_ready keepalive_reset idle_reset keepalive_stop idle_stop
send_message-Leaves codec pkt = record { leaves = λ s. ground arith }

pub queue-close : (s : Session) → queue (close s) ≡ queue s
unfolding close conn_close keepalive_stop idle_stop unlisten_notls unlisten_tls
queue-close s = ground arith

pub queue-update_state : (x : SessState) (s : Session) → queue (update_state x s) ≡ queue s
unfolding update_state
queue-update_state x s = ground arith

pub send_reject-Leaves :
    (codec : Codec) (reason : ℕ) (pkt : Pkt) → Leaves (send_reject codec reason pkt)
unfolding send_reject
send_reject-Leaves codec reason pkt = record {
  leaves = λ s. (send_message-Leaves codec _).leaves s;
}

pub send_sess_term-Leaves :
    (codec : Codec) (reason : ℕ) (b : Bool) → Leaves (send_sess_term codec reason b)
unfolding send_sess_term send_message send_ready keepalive_reset idle_reset keepalive_stop idle_stop
    update_state
send_sess_term-Leaves codec reason b = record { leaves = λ s. ground arith }

pub send_sess_init-Leaves : (codec : Codec) → Leaves (send_sess_init codec)
unfolding send_sess_init send_message send_ready keepalive_reset idle_reset keepalive_stop idle_stop
send_sess_init-Leaves codec = record { leaves = λ s. ground arith }

pub send_contact_header-Leaves : (codec : Codec) → Leaves (send_contact_header codec)
unfolding send_contact_header
send_contact_header-Leaves codec = record { leaves = λ s. (send_message-Leaves codec _).leaves s }

pub send_xfer_ack-Leaves : (codec : Codec) (i n f : ℕ) → Leaves (send_xfer_ack codec i n f)
unfolding send_xfer_ack
send_xfer_ack-Leaves codec i n f = record {
  leaves = λ s. ground (arith, (send_message-Leaves codec (xfer_ack f i n)).leaves s);
}

queue-tx_fill : (s : Session) → queue (tx_fill s).1 ≡ queue s
unfolding tx_fill send_raw send_buffer_decreased process_queue_trigger
queue-tx_fill s = ground arith

queue-tx_flush :
    (f : List ℕ → Option ℕ) (b : Bool) (s : Session) → queue (tx_flush f b s).1 ≡ queue s
unfolding tx_flush close conn_close keepalive_stop idle_stop unlisten_notls unlisten_tls
queue-tx_flush f b s = ground arith

pub queue-tx_proxy : (f : List ℕ → Option ℕ) (s : Session) → queue (tx_proxy f s).1 ≡ queue s
unfolding tx_proxy
queue-tx_proxy f s = queue-tx_flush f (tx_fill s).0 (tx_fill s).1 ∙ queue-tx_fill s

pub queue-avail_tx_notls :
    (f : List ℕ → Option ℕ) (s : Session) → queue (avail_tx_notls f s).1 ≡ queue s
unfolding avail_tx_notls
queue-avail_tx_notls f s =
    ground (
      arith,
      queue-tx_proxy f (record s { conn = record (s.conn) { avail_tx_notls_pend = false } }),
    )

queue-flush_tx :
    (n : ℕ) (f : List ℕ → Option ℕ) (s : Session) → queue (final (flush_tx n f s)) ≡ queue s
unfolding flush_tx
queue-flush_tx zero f s = ground arith
queue-flush_tx (suc n) f s =
    ground (arith, queue-flush_tx n f (avail_tx_notls f s).1, queue-avail_tx_notls f s)

secure-Leaves : (env : Env) → Leaves (get_ssl_context env >> secure env)
unfolding get_ssl_context secure unlisten_notls
secure-Leaves env = record { leaves = λ s. ground arith }

after_tls-Leaves : (codec : Codec) → Leaves (after_tls codec)
unfolding after_tls is_secure
after_tls-Leaves codec = record {
  leaves = λ s. ground (arith, queue-close s, (send_sess_init-Leaves codec).leaves s);
}

queue-after_handshake :
    (codec : Codec) (o : Outcome Session (Unit {0}))
    → queue (final (after_handshake codec o)) ≡ queue (final o)
unfolding after_handshake
queue-after_handshake codec (done _ s) = (after_tls-Leaves codec).leaves s
queue-after_handshake codec (raised e s) = ground (arith, queue-close s)

flush_tx-Leaves : (n : ℕ) (f : List ℕ → Option ℕ) → Leaves (flush_tx n f)
flush_tx-Leaves n f = record { leaves = queue-flush_tx n f }

handshake-Leaves :
    (codec : Codec) (env : Env)
    → Leaves (λ t. after_handshake codec ((get_ssl_context env >> secure env) t))
handshake-Leaves codec env = record {
  leaves = λ t.
      queue-after_handshake codec ((get_ssl_context env >> secure env) t)
      ∙ (secure-Leaves env).leaves t;
}

attempt_tls-Leaves : (codec : Codec) (env : Env) → Leaves (attempt_tls codec env)
unfolding attempt_tls
attempt_tls-Leaves codec env = Leaves-bind Leaves-get (λ s.
    Leaves-bind (flush_tx-Leaves (length s.conn.tx_buf + length s.msgr.tx_buf) env.sock_send)
      (λ _. handshake-Leaves codec env))

pub finish_contact-Leaves : (codec : Codec) (env : Env) → Leaves (finish_contact codec env)
unfolding finish_contact
finish_contact-Leaves codec env = record {
  leaves = λ s. ground (
    arith,
    queue-close s,
    (attempt_tls-Leaves codec env).leaves s,
    (after_tls-Leaves codec).leaves s,
  );
}

pub merge_contact_params-Leaves : Leaves merge_contact_params
unfolding merge_contact_params
merge_contact_params-Leaves = record { leaves = λ s. ground arith }
