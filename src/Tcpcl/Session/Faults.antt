-- ===== src/Tcpcl/Session/Faults.antt =====
-- What src/tcpcl/session.py does with what it does not expect.
use dtn_demo_agent.Common.{
  ℕ, zero, suc, ◌≡◌, ◌<◌, refl, sym, Bool, true, false, not, ◌||◌, ◌&&◌, none, some, List, [], ◌∷◌,
  arith, length, take, drop, ◌+◌, ◌==◌,
}
use dtn_demo_agent.Common.Exec.{done, raised, runtime_error}
use dtn_demo_agent.Tcpcl.Packet.{
  Codec, TransferSegment, xfer_segment, sess_term, reject_msg, seg_start, has_flag,
  reject_unexpected,
}
use dtn_demo_agent.Tcpcl.Session.State.{
  Session, Env, TxItem, Event, emit, set_hdl, closed, send_bundle_finished, session_terminating,
}
use dtn_demo_agent.Tcpcl.Session.Connection.{
  check_sess_term, is_sess_idle, close, conn_close, keepalive_stop, idle_stop, unlisten_notls,
  unlisten_tls,
}
use dtn_demo_agent.Tcpcl.Session.Sending.{
  send_message, send_reject, send_sess_term, send_xfer_data, require_sess,
}
use dtn_demo_agent.Tcpcl.Session.Transmit.{
  process_queue, continue_transfer, begin_transfer, send_segment, segment_ext_items, segment_flags,
  update_item,
}
use dtn_demo_agent.Tcpcl.Session.Receive.{
  recv_xfer_data, resume_segment, recv_sess_term, drop_pending,
}
use dtn_demo_agent.Tcpcl.Session.Dispatch.{recv_message, recv_body, except_clauses}
use dtn_demo_agent.Tcpcl.Session.Transfer.{sent, Returns, Returns-continue}
use dtn_demo_agent.Tcpcl.Session.Run.{queue_rounds}

-- A SESS_TERM outside a session is no rejected message: RuntimeError leaves `recv_message`, from the
-- reply that is tried first, and nothing is sent.
pub sess_term_outside :
    (codec : Codec) (env : Env) (flags reason : ℕ) (s : Session)
    → s.msgr.in_sess ≡ false
    → s.msgr.in_term ≡ false
    → recv_message codec env (sess_term flags reason) s ≡ raised runtime_error s
unfolding recv_message recv_body except_clauses send_sess_term
sess_term_outside codec env flags reason s h k = ground arith

-- Which segments does a receiver not expect?
abbrev pub unexpected : Session → TransferSegment → Bool
unexpected s x =
    not s.msgr.in_sess
    || (not (has_flag x.flags seg_start)
        && elim s.hdl.rx_tmp [ none ↦ true | some item ↦ not (item.transfer_id == x.transfer_id) ])

-- A segment outside a session, or one that does not start a transfer and does not go on with the one
-- in progress, is answered by REJECT with the reason "unexpected" and the number of XFER_SEGMENT, and
-- has no other effect.
unexpected_segment :
    (codec : Codec) (env : Env) (x : TransferSegment) (s : Session)
    → unexpected s x ≡ true
    → recv_message codec env (xfer_segment x) s
      ≡ send_message codec (reject_msg 0x1 reject_unexpected) s
unfolding recv_message recv_body except_clauses recv_xfer_data resume_segment require_sess
    send_reject
unexpected_segment codec env x s h = ground arith

-- An empty bundle is at the head of the queue of an idle sender.
pub record IsQueuedEmpty (bid : ℕ) (rest : List ℕ) (s : Session) : Type 0 where
  pub in_sess : s.msgr.in_sess ≡ true
  pub idle : s.hdl.tx_tmp ≡ none
  pub first : s.hdl.tx_pend_start ≡ bid ∷ rest
  pub empty : (s.hdl.tx_items bid).file ≡ []

-- The empty bundle is in progress, and all of it is sent.
pub record IsBlocked (bid : ℕ) (rest : List ℕ) (segments : List TransferSegment) (s : Session)
    : Type 0 where
  pub current : s.hdl.tx_tmp ≡ some bid
  pub all_sent : s.hdl.tx_length ≡ some 0
  pub no_octets : (s.hdl.tx_items bid).total_length ≡ some 0
  pub waiting : s.hdl.tx_pend_start ≡ rest
  pub silent : sent s.events ≡ segments

empty_begins :
    (codec : Codec) (now bid : ℕ) (rest : List ℕ) (s : Session)
    → IsQueuedEmpty bid rest s
    → Returns (process_queue codec now s) (IsBlocked bid rest (sent s.events))
unfolding process_queue continue_transfer begin_transfer
empty_begins codec now bid rest s h = ground arith

IsBlocked-stays :
    (codec : Codec) (now bid : ℕ) (rest : List ℕ) (segments : List TransferSegment) (s : Session)
    → IsBlocked bid rest segments s
    → Returns (process_queue codec now s) (IsBlocked bid rest segments)
unfolding process_queue continue_transfer
IsBlocked-stays codec now bid rest segments s h = ground arith

IsBlocked-rounds :
    (codec : Codec) (now k bid : ℕ) (rest : List ℕ) (segments : List TransferSegment) (s : Session)
    → IsBlocked bid rest segments s
    → Returns (queue_rounds codec now k s) (IsBlocked bid rest segments)
unfolding queue_rounds
IsBlocked-rounds codec now zero bid rest segments s h = h
IsBlocked-rounds codec now (suc k) bid rest segments s h =
    Returns-continue (IsBlocked bid rest segments) _ _ _
      (IsBlocked-stays codec now bid rest segments s h)
      (λ a t q. IsBlocked-rounds codec now k bid rest segments t q)

-- An empty bundle at the head of the queue blocks it: after one round or more, however many, it is
-- still the bundle in progress, no segment was sent, and the bundles behind it still wait.
pub empty_bundle_blocks :
    (codec : Codec) (now k bid : ℕ) (rest : List ℕ) (s : Session)
    → IsQueuedEmpty bid rest s
    → Returns (queue_rounds codec now (suc k) s) (IsBlocked bid rest (sent s.events))
unfolding queue_rounds
empty_bundle_blocks codec now k bid rest s h =
    Returns-continue (IsBlocked bid rest (sent s.events)) _ _ _
      (empty_begins codec now bid rest s h)
      (λ a t q. IsBlocked-rounds codec now k bid rest (sent s.events) t q)

-- A bundle in progress of which some octets are sent, and some are not.
pub record IsHalfway (bid before total : ℕ) (s : Session) : Type 0 where
  pub in_sess : s.msgr.in_sess ≡ true
  pub current : s.hdl.tx_tmp ≡ some bid
  pub sent_length : s.hdl.tx_length ≡ some (suc before)
  pub item_length : (s.hdl.tx_items bid).total_length ≡ some total
  pub more : suc before < total

-- The state that the round leaves: the read position and the count went on.
tried : Codec → ℕ → ℕ → ℕ → ℕ → Session → Session
tried codec now bid before total s =
    let content =
      take s.msgr.send_segment_size
        (drop (s.hdl.tx_items bid).position (s.hdl.tx_items bid).file) in
    set_hdl
      (λ h. record h {
        process_queue_pend = false;
        tx_items =
            update_item bid (λ i. record i { position = i.position + length content }) h.tx_items;
        tx_length = some (suc before + length content);
      })
      s

-- In the test mode of private extensions every segment has an extension item, which the second
-- segment of a transfer may not have: the round raises RuntimeError, and no packet is sent.
pub private_extensions_raise :
    (codec : Codec) (now bid before total : ℕ) (s : Session)
    → s.config.private_extensions ≡ true
    → IsHalfway bid before total s
    → (t : Session) × (process_queue codec now s ≡ raised runtime_error t) × (t.events ≡ s.events)
unfolding process_queue continue_transfer send_segment send_xfer_data segment_ext_items
    segment_flags tried
private_extensions_raise codec now bid before total s p h =
    (tried codec now bid before total s, ground arith, refl)

-- Nothing is under way but transfers that were not begun, and the session is ending.
pub record IsEnding (s : Session) : Type 0 where
  pub in_sess : s.msgr.in_sess ≡ true
  pub in_term : s.msgr.in_term ≡ true
  pub no_rx_buf : s.msgr.rx_buf ≡ []
  pub no_tx_buf : s.msgr.tx_buf ≡ []
  pub no_rx : s.hdl.rx_tmp ≡ none
  pub no_tx : s.hdl.tx_tmp ≡ none
  pub no_ack : s.hdl.tx_pend_ack ≡ []
  pub open_socket : s.conn.s_notls ≡ true
  pub callback : s.conn.on_close ≡ true

-- The signals of the dropped transfers, newest first.
abbrev pub dropped : (ℕ → TxItem) → List ℕ → List Event → List Event
dropped items [] es = es
dropped items (bid ∷ rest) es = dropped items rest (
    send_bundle_finished bid (elim (items bid).total_length [ none ↦ 0 | some n ↦ n ])
      session_terminating
    ∷ es)

dropped_one : ℕ → List ℕ → Session → Session
dropped_one bid rest s =
    emit
      (send_bundle_finished bid (elim (s.hdl.tx_items bid).total_length [ none ↦ 0 | some n ↦ n ])
        session_terminating)
      (set_hdl (λ h. record h { tx_pend_start = rest }) s)

drop_pending_lem :
    (bids : List ℕ) (s : Session)
    → s.hdl.tx_pend_start ≡ bids
    → IsEnding s
    → IsEnding (drop_pending bids s)
      × ((drop_pending bids s).hdl.tx_pend_start ≡ [])
      × ((drop_pending bids s).events ≡ dropped s.hdl.tx_items bids s.events)
unfolding drop_pending dropped_one
drop_pending_lem [] s e h = (h, e, refl)
drop_pending_lem (bid ∷ rest) s e h = drop_pending_lem rest (dropped_one bid rest s) refl (record {
  in_sess = h.in_sess;
  in_term = h.in_term;
  no_rx_buf = h.no_rx_buf;
  no_tx_buf = h.no_tx_buf;
  no_rx = h.no_rx;
  no_tx = h.no_tx;
  no_ack = h.no_ack;
  open_socket = h.open_socket;
  callback = h.callback;
})

message_ending :
    (codec : Codec) (env : Env) (flags reason : ℕ) (s : Session)
    → IsEnding s
    → recv_message codec env (sess_term flags reason) s
      ≡ done tt (check_sess_term (drop_pending s.hdl.tx_pend_start s))
unfolding recv_message recv_body except_clauses recv_sess_term require_sess
message_ending codec env flags reason s h = ground arith

-- The session is closed with these events, and no transfer is pending.
pub record IsClosed (es : List Event) (t : Session) : Type 0 where
  pub no_socket : t.conn.s_notls ≡ false
  pub no_transfers : t.hdl.tx_pend_start ≡ []
  pub events : t.events ≡ es

check_ending :
    (s : Session)
    → IsEnding s
    → s.hdl.tx_pend_start ≡ []
    → IsClosed (closed ∷ s.events) (check_sess_term s)
unfolding check_sess_term is_sess_idle close conn_close keepalive_stop idle_stop unlisten_notls
    unlisten_tls
check_ending s h e = ground arith

-- A SESS_TERM, received while a session is ending and nothing is under way but transfers that were not
-- begun, raises nothing and sends no reply: it gives the signal "session terminating" for each of these
-- transfers, in order, and closes the socket with its callback.
pub sess_term_closes :
    (codec : Codec) (env : Env) (flags reason : ℕ) (s : Session)
    → IsEnding s
    → Returns
        (recv_message codec env (sess_term flags reason) s)
        (IsClosed (closed ∷ dropped s.hdl.tx_items s.hdl.tx_pend_start s.events))
sess_term_closes codec env flags reason s h =
    let (i, none_left, es) = drop_pending_lem s.hdl.tx_pend_start s refl h in
    rw (message_ending codec env flags reason s h, sym es)
      (check_ending (drop_pending s.hdl.tx_pend_start s) i none_left)
