-- ===== src/Tcpcl/Session/Receiver.antt =====
-- The receiver: a run of segments is delivered as one bundle, whatever cut it into segments.
use dtn_demo_agent.Common.{
  ℕ, ◌≡◌, ap, ◌∙◌, true, false, ◌||◌, none, some, List, [], ◌∷◌, ◌++◌, length, arith, dict_set,
}
use dtn_demo_agent.Common.Exec.{Exec, done, continue}
use dtn_demo_agent.Tcpcl.Packet.{Codec, TransferSegment, has_flag, seg_end, xfer_ack}
use dtn_demo_agent.Tcpcl.Session.State.{
  Session, Event, RxItem, tx, emit, set_hdl, recv_bundle_intermediate, recv_bundle_finished,
  success,
}
use dtn_demo_agent.Tcpcl.Session.Sending.{send_message, send_xfer_ack}
use dtn_demo_agent.Tcpcl.Session.Connection.{
  send_ready, keepalive_reset, idle_reset, check_sess_term,
}
use dtn_demo_agent.Tcpcl.Session.Receive.{rx_teardown, recv_xfer_data, write_segment, finish_rx}
use dtn_demo_agent.Tcpcl.Session.Transfer.{Returns, Returns-continue, Returns-when_true}

-- The segments arrive one after the other, up to the first exception.
unfoldable pub recv_segments : Codec → List TransferSegment → Exec Session (Unit {0})
recv_segments codec [] s = done tt s
recv_segments codec (x ∷ xs) s =
    continue (recv_xfer_data codec x.transfer_id x.flags x.content s) (λ _. recv_segments codec xs)

-- The session is up, acknowledges every segment, and is not about to end.
pub record CanReceive (s : Session) : Type 0 where
  pub in_sess : s.msgr.in_sess ≡ true
  pub open_socket : (s.conn.s_tls || s.conn.s_notls) ≡ true
  pub inter_ack : s.msgr.do_send_ack_inter ≡ true
  pub final_ack : s.msgr.do_send_ack_final ≡ true
  pub no_term : s.msgr.in_term ≡ false

-- What a sent acknowledgement leaves alone.
record IsAcked (e : Event) (s t : Session) : Type 0 where
  events : t.events ≡ e ∷ s.events
  hdl : t.hdl ≡ s.hdl
  in_sess : t.msgr.in_sess ≡ s.msgr.in_sess
  in_term : t.msgr.in_term ≡ s.msgr.in_term
  inter_ack : t.msgr.do_send_ack_inter ≡ s.msgr.do_send_ack_inter
  final_ack : t.msgr.do_send_ack_final ≡ s.msgr.do_send_ack_final
  open_socket : (t.conn.s_tls || t.conn.s_notls) ≡ (s.conn.s_tls || s.conn.s_notls)

send_xfer_ack-IsAcked :
    (codec : Codec) (id acked flags : ℕ) (s : Session)
    → CanReceive s
    → Returns (send_xfer_ack codec id acked flags s) (IsAcked (tx (xfer_ack flags id acked)) s)
unfolding send_xfer_ack send_message send_ready keepalive_reset idle_reset
send_xfer_ack-IsAcked codec id acked flags s h = ground arith

CanReceive-acked : {e : Event} {s t : Session} → CanReceive s → IsAcked e s t → CanReceive t
CanReceive-acked h q = record {
  in_sess = q.in_sess ∙ h.in_sess;
  open_socket = q.open_socket ∙ h.open_socket;
  inter_ack = q.inter_ack ∙ h.inter_ack;
  final_ack = q.final_ack ∙ h.final_ack;
  no_term = q.in_term ∙ h.no_term;
}

abbrev pub grown : RxItem → List ℕ → RxItem
grown item content = record item { file = item.file ++ content }

abbrev pub holding : RxItem → Session → Session
holding item = set_hdl (λ h. record h { rx_tmp = some item })

-- After a segment that is not the last.
pub record IsResumed (flags : ℕ) (item : RxItem) (s t : Session) : Type 0 where
  pub can : CanReceive t
  pub hdl : t.hdl ≡ (holding item s).hdl
  pub events :
      t.events
      ≡ recv_bundle_intermediate item.transfer_id (length item.file)
        ∷ tx (xfer_ack flags item.transfer_id (length item.file))
        ∷ s.events

pub holding-CanReceive : {item : RxItem} {s : Session} → CanReceive s → CanReceive (holding item s)
holding-CanReceive h = record {
  in_sess = h.in_sess;
  open_socket = h.open_socket;
  inter_ack = h.inter_ack;
  final_ack = h.final_ack;
  no_term = h.no_term;
}

resumed :
    (flags : ℕ) (item : RxItem) (s t : Session)
    → CanReceive s
    → IsAcked (tx (xfer_ack flags item.transfer_id (length item.file))) (holding item s) t
    → IsResumed flags item s (emit (recv_bundle_intermediate item.transfer_id (length item.file)) t)
resumed flags item s t h q = record {
  can =
      let c = CanReceive-acked (holding-CanReceive {item = item} h) q in
      record {
        in_sess = c.in_sess;
        open_socket = c.open_socket;
        inter_ack = c.inter_ack;
        final_ack = c.final_ack;
        no_term = c.no_term;
      };
  hdl = q.hdl;
  events = ap (λ es. recv_bundle_intermediate item.transfer_id (length item.file) ∷ es) q.events;
}

pub write_middle :
    (codec : Codec) (flags : ℕ) (content : List ℕ) (item : RxItem) (s : Session)
    → CanReceive s
    → has_flag flags seg_end ≡ false
    → Returns
        (write_segment codec item.transfer_id flags content item s)
        (IsResumed flags (grown item content) s)
unfolding write_segment
write_middle codec flags content item s h e = rw e (
    Returns-when_true (IsResumed flags (grown item content) s) s.msgr.do_send_ack_inter _ _
      h.inter_ack
      (Returns-continue
        (IsAcked (tx (xfer_ack flags item.transfer_id (length (item.file ++ content))))
          (holding (grown item content) s))
        _ _ _ (send_xfer_ack-IsAcked codec _ _ flags _ (holding-CanReceive h))
        (λ a t q. resumed flags (grown item content) s t h q)))

-- After the last segment.
pub record IsReceived (flags : ℕ) (item : RxItem) (s t : Session) : Type 0 where
  pub can : CanReceive t
  pub idle : t.hdl.rx_tmp ≡ none
  pub bundles : t.hdl.rx_bundles ≡ s.hdl.rx_bundles ++ item ∷ []
  pub map : t.hdl.rx_map ≡ dict_set item.transfer_id item s.hdl.rx_map
  pub events :
      t.events
      ≡ recv_bundle_finished item.transfer_id (length item.file) success
        ∷ tx (xfer_ack flags item.transfer_id (length item.file))
        ∷ s.events

received :
    (flags : ℕ) (item : RxItem) (s t : Session)
    → CanReceive s
    → IsAcked (tx (xfer_ack flags item.transfer_id (length item.file))) (holding item s) t
    → IsReceived flags item s (finish_rx item t)
unfolding finish_rx check_sess_term rx_teardown
received flags item s t h q = ground (arith, q.hdl)

pub write_last :
    (codec : Codec) (flags : ℕ) (content : List ℕ) (item : RxItem) (s : Session)
    → CanReceive s
    → has_flag flags seg_end ≡ true
    → Returns
        (write_segment codec item.transfer_id flags content item s)
        (IsReceived flags (grown item content) s)
unfolding write_segment
write_last codec flags content item s h e = rw e (
    Returns-continue
      (IsAcked (tx (xfer_ack flags item.transfer_id (length (item.file ++ content))))
        (holding (grown item content) s))
      _ _ _
      (Returns-when_true
        (IsAcked (tx (xfer_ack flags item.transfer_id (length (item.file ++ content))))
          (holding (grown item content) s))
        s.msgr.do_send_ack_final _ _ h.final_ack
        (send_xfer_ack-IsAcked codec _ _ flags _ (holding-CanReceive h)))
      (λ a t q. received flags (grown item content) s t h q))
