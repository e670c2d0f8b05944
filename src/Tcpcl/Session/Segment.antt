-- ===== src/Tcpcl/Session/Segment.antt =====
-- One segment of a bundle, as `process_queue` of src/tcpcl/session.py sends it.
use dtn_demo_agent.Common.{
  ℕ, ◌+◌, ◌≤◌, ◌<◌, ◌≡◌, refl, Bool, true, false, ◌||◌, some, List, [], ◌∷◌, length, ◌==◌, drop,
  take, arith, bit_or, if◌then◌else◌, is_empty,
}
use dtn_demo_agent.Tcpcl.Session.Sending.{send_message, send_xfer_data}
use dtn_demo_agent.Tcpcl.Session.Connection.{send_ready, keepalive_reset, idle_reset}
use dtn_demo_agent.Tcpcl.Packet.{
  ExtItem, xfer_segment, Pkt, Codec, TransferSegment, has_flag, seg_start, seg_end,
}
use dtn_demo_agent.Tcpcl.Session.State.{Session, Event, tx, set_hdl}
use dtn_demo_agent.Tcpcl.Session.Transmit.{update_item, segment_flags, segment_ext_items}
use dtn_demo_agent.Tcpcl.Session.Transfer.{Returns}

-- The session can send, with segments of up to `limit` octets.
pub record CanSend (limit : ℕ) (s : Session) : Type 0 where
  pub in_sess : s.msgr.in_sess ≡ true
  pub open_socket : (s.conn.s_tls || s.conn.s_notls) ≡ true
  pub positive : 1 ≤ limit
  pub size : s.msgr.send_segment_size ≡ limit
  pub final_ack : s.msgr.do_send_ack_final ≡ true
  pub no_test : s.config.private_extensions ≡ false

-- The bundle `bid` is in progress, `before` octets of `file` are sent, and more are to be.
pub record IsSending (limit bid before : ℕ) (file : List ℕ) (s : Session) : Type 0 where
  pub can : CanSend limit s
  pub current : s.hdl.tx_tmp ≡ some bid
  pub sent_length : s.hdl.tx_length ≡ some before
  pub item : s.hdl.tx_items bid ≡ record {
    total_length = some (length file);
    ack_length = (s.hdl.tx_items bid).ack_length;
    file = file;
    position = before;
  }
  pub more : before < length file

-- What a sent packet leaves: it is logged, and the state that the sender works with is kept.
pub record IsSent (e : Event) (s t : Session) : Type 0 where
  pub events : t.events ≡ e ∷ s.events
  pub hdl : t.hdl ≡ s.hdl
  pub config : t.config ≡ s.config
  pub in_sess : t.msgr.in_sess ≡ s.msgr.in_sess
  pub size : t.msgr.send_segment_size ≡ s.msgr.send_segment_size
  pub final_ack : t.msgr.do_send_ack_final ≡ s.msgr.do_send_ack_final
  pub open_socket : (t.conn.s_tls || t.conn.s_notls) ≡ (s.conn.s_tls || s.conn.s_notls)

send_message-IsSent :
    (codec : Codec) (pkt : Pkt) (s : Session)
    → (s.conn.s_tls || s.conn.s_notls) ≡ true
    → Returns (send_message codec pkt s) (IsSent (tx pkt) s)
unfolding send_message send_ready keepalive_reset idle_reset
send_message-IsSent codec pkt s h = ground arith

-- The segment that a round sends.
abbrev pub next_segment : Session → ℕ → ℕ → List ℕ → TransferSegment
next_segment s bid before file =
    let content = take s.msgr.send_segment_size (drop before file) in
    record {
      flags = segment_flags before (before + length content) (length file);
      transfer_id = bid;
      ext_items = segment_ext_items s before (length file);
      content = content;
    }

send_xfer_data-IsSent :
    {limit : ℕ} (codec : Codec) (bid flg : ℕ) (content : List ℕ) (ext_items : List ExtItem)
    (s : Session)
    → CanSend limit s
    → (is_empty ext_items || has_flag flg seg_start) ≡ true
    → Returns (send_xfer_data codec bid content flg ext_items s) (
        IsSent
          (tx (
            xfer_segment (record {
              flags = flg;
              transfer_id = bid;
              ext_items = ext_items;
              content = content;
            })))
          s)
unfolding send_xfer_data
send_xfer_data-IsSent codec bid flg content [] s h ok = ground (
  arith,
  send_message-IsSent codec
      (xfer_segment (record { flags = flg; transfer_id = bid; ext_items = []; content = content }))
      s,
)
send_xfer_data-IsSent codec bid flg content (e ∷ es) s h ok = ground (
  arith,
  send_message-IsSent codec
      (xfer_segment
        (record { flags = flg; transfer_id = bid; ext_items = e ∷ es; content = content }))
      s,
)

either_flag :
    (p q : Bool)
    → (has_flag (bit_or (if p then seg_start else 0) (if q then seg_end else 0)) seg_start ≡ p)
      × (has_flag (bit_or (if p then seg_start else 0) (if q then seg_end else 0)) seg_end ≡ q)
either_flag true true = (refl, refl)
either_flag true false = (refl, refl)
either_flag false true = (refl, refl)
either_flag false false = (refl, refl)

pub flags_lem :
    (before after total : ℕ)
    → (has_flag (segment_flags before after total) seg_start ≡ (before == 0))
      × (has_flag (segment_flags before after total) seg_end ≡ (after == total))
unfolding segment_flags
flags_lem before after total = either_flag (before == 0) (after == total)

-- Extension items go on the first segment only.
ext_items_allowed :
    {limit : ℕ} (s : Session) (before after total : ℕ)
    → CanSend limit s
    → (is_empty (segment_ext_items s before total)
        || has_flag (segment_flags before after total) seg_start)
      ≡ true
unfolding segment_ext_items
ext_items_allowed s before after total h =
    rw (h.no_test, (flags_lem before after total).0) (ground arith)

-- The state in which a round sends its segment, `n` octets long.
abbrev pub advanced : ℕ → ℕ → ℕ → Session → Session
advanced bid before n s =
    set_hdl
      (λ h. record h {
        tx_items = update_item bid (λ i. record i { position = i.position + n }) h.tx_items;
        tx_length = some (before + n);
      })
      s

-- What a middle segment and the last one share: the segment goes out.
pub segment-IsSent :
    {limit : ℕ} (codec : Codec) (bid before : ℕ) (file : List ℕ) (s : Session)
    → CanSend limit s
    → Returns
        (send_xfer_data codec bid
          (next_segment s bid before file).content
          (next_segment s bid before file).flags
          (next_segment s bid before file).ext_items
          (advanced bid before (length (next_segment s bid before file).content) s))
        (IsSent
          (tx (xfer_segment (next_segment s bid before file)))
          (advanced bid before (length (next_segment s bid before file).content) s))
segment-IsSent codec bid before file s h =
    send_xfer_data-IsSent codec bid (next_segment s bid before file).flags
      (next_segment s bid before file).content (next_segment s bid before file).ext_items
      (advanced bid before (length (next_segment s bid before file).content) s)
      (record {
        in_sess = h.in_sess;
        open_socket = h.open_socket;
        positive = h.positive;
        size = h.size;
        final_ack = h.final_ack;
        no_test = h.no_test;
      })
      (ext_items_allowed s before _ (length file) h)
