-- ===== src/Tcpcl/Session/Sender.antt =====
-- The sender: rounds of `process_queue` send the bundle at the head of the queue as one run.
use dtn_demo_agent.Common.{
  ℕ, ◌+◌, ◌≤◌, ◌<◌, ◌≡◌, refl, ap, ◌∙◌, true, false, none, List, [], ◌∷◌, ◌++◌, length, ◌==◌, drop,
  take, arith, length-take, length-drop, contains, dict_set,
}
use dtn_demo_agent.Common.Exec.{done, continue, pure}
use dtn_demo_agent.Tcpcl.Packet.{xfer_segment, Codec, has_flag, seg_end}
use dtn_demo_agent.Tcpcl.Session.State.{Session, Event, tx, set_hdl, set_msgr}
use dtn_demo_agent.Tcpcl.Session.Transmit.{
  end_transfer, tx_teardown, process_queue_trigger, process_queue, send_segment, continue_transfer,
  segment_flags, segment_ext_items,
}
use dtn_demo_agent.Tcpcl.Session.Transfer.{IsSegment, Returns, Returns-done, Returns-continue}
use dtn_demo_agent.Tcpcl.Session.Segment.{
  CanSend, IsSending, IsSent, advanced, flags_lem, next_segment, segment-IsSent,
}

abbrev timed : ℕ → ℕ → Session → Session
timed after now =
    set_msgr (λ m. record m { segment_tx_times = dict_set after now m.segment_tx_times })

CanSend-sent :
    {limit : ℕ} {e : Event} (s t : Session) (after now bid before n : ℕ)
    → CanSend limit s
    → IsSent e (advanced bid before n s) t
    → CanSend limit (timed after now t)
CanSend-sent s t after now bid before n h q = record {
  in_sess = q.in_sess ∙ h.in_sess;
  open_socket = q.open_socket ∙ h.open_socket;
  positive = h.positive;
  size = q.size ∙ h.size;
  final_ack = q.final_ack ∙ h.final_ack;
  no_test = ap (λ c. c.private_extensions) q.config ∙ h.no_test;
}

IsSending-sent :
    {limit : ℕ} {e : Event} (s t : Session) (now bid before n : ℕ) (file : List ℕ)
    → IsSending limit bid before file s
    → IsSent e (advanced bid before n s) t
    → before + n < length file
    → IsSending limit bid (before + n) file (timed (before + n) now t)
IsSending-sent s t now bid before n file h q lt = record {
  can = CanSend-sent s t (before + n) now bid before n h.can q;
  current = ap (λ h. h.tx_tmp) q.hdl ∙ h.current;
  sent_length = ap (λ h. h.tx_length) q.hdl;
  item = ground (arith, ap (λ h. h.tx_items bid) q.hdl, h.item);
  more = lt;
}

not_last :
    (before after total : ℕ)
    → after < total
    → has_flag (segment_flags before after total) seg_end ≡ false
not_last before after total lt = (flags_lem before after total).1 ∙ ground arith

abbrev AfterMiddle : ℕ → ℕ → ℕ → List ℕ → Session → Session → Type 0
AfterMiddle limit bid before file s t =
    IsSending limit bid (before + length (next_segment s bid before file).content) file t
    × (t.events ≡ tx (xfer_segment (next_segment s bid before file)) ∷ s.events)

-- A segment that does not reach the end of the file.
middle_segment :
    {limit : ℕ} (codec : Codec) (now bid before : ℕ) (file : List ℕ) (s : Session)
    → IsSending limit bid before file s
    → before + length (next_segment s bid before file).content < length file
    → Returns
        (send_segment codec now bid before (length file) s)
        (AfterMiddle limit bid before file s)
unfolding send_segment
middle_segment codec now bid before file s h lt = rw (h.item) (
    Returns-continue
      (IsSent (tx (xfer_segment (next_segment s bid before file)))
        (advanced bid before (length (next_segment s bid before file).content) s))
      _ _ _ (segment-IsSent codec bid before file s h.can)
      (λ a t q.
        rw
          (not_last before (before + length (take s.msgr.send_segment_size (drop before file)))
            (length file) lt)
          (IsSending-sent s t now bid before _ file h q lt, q.events)))

-- The whole bundle is sent: it waits for its acknowledgement, and the next one may begin.
pub record IsAwaiting (limit bid : ℕ) (t : Session) : Type 0 where
  pub can : CanSend limit t
  pub idle : t.hdl.tx_tmp ≡ none
  pub no_length : t.hdl.tx_length ≡ none
  pub pending : contains bid t.hdl.tx_pend_ack ≡ true
  pub triggered : t.hdl.process_queue_pend ≡ true

contains-append : (x : ℕ) (xs : List ℕ) → contains x (xs ++ x ∷ []) ≡ true
contains-append x [] = ground arith
contains-append x (y ∷ ys) = ground (arith, contains-append x ys)

end_transfer-IsAwaiting :
    {limit : ℕ} (bid : ℕ) (t : Session)
    → CanSend limit t
    → IsAwaiting limit bid (end_transfer bid t) × ((end_transfer bid t).events ≡ t.events)
unfolding end_transfer tx_teardown process_queue_trigger
end_transfer-IsAwaiting bid t h = ground (arith, h.final_ack, contains-append bid t.hdl.tx_pend_ack)

is_last :
    (before after total : ℕ)
    → after ≡ total
    → has_flag (segment_flags before after total) seg_end ≡ true
is_last before after total e = (flags_lem before after total).1 ∙ ground arith

abbrev AfterLast : ℕ → ℕ → ℕ → List ℕ → Session → Session → Type 0
AfterLast limit bid before file s t =
    IsAwaiting limit bid t
    × (t.events ≡ tx (xfer_segment (next_segment s bid before file)) ∷ s.events)

last_segment :
    {limit : ℕ} (codec : Codec) (now bid before : ℕ) (file : List ℕ) (s : Session)
    → IsSending limit bid before file s
    → before + length (next_segment s bid before file).content ≡ length file
    → Returns
        (send_segment codec now bid before (length file) s)
        (AfterLast limit bid before file s)
unfolding send_segment
last_segment codec now bid before file s h e = rw (h.item) (
    Returns-continue
      (IsSent (tx (xfer_segment (next_segment s bid before file)))
        (advanced bid before (length (next_segment s bid before file).content) s))
      _ _ _ (segment-IsSent codec bid before file s h.can)
      (λ a t q.
        rw
          (is_last before (before + length (take s.msgr.send_segment_size (drop before file)))
            (length file) e)
          (let (w, v) =
              end_transfer-IsAwaiting bid
                (timed (before + length (take s.msgr.send_segment_size (drop before file))) now t)
                (CanSend-sent s t _ now bid before _ h.can q) in
            (w, v ∙ q.events))))

abbrev polled : Session → Session
polled = set_hdl (λ h. record h { process_queue_pend = false })

-- A round of the queue while a bundle is in progress sends its next segment.
process_queue_round :
    {limit : ℕ} (codec : Codec) (now bid before : ℕ) (file : List ℕ) (s : Session)
    → IsSending limit bid before file s
    → process_queue codec now s
      ≡ continue (send_segment codec now bid before (length file) (polled s)) (λ _. pure false)
unfolding process_queue continue_transfer
process_queue_round codec now bid before file s h = ground (arith, h.item)

polled-IsSending :
    {limit bid before : ℕ} {file : List ℕ} {s : Session}
    → IsSending limit bid before file s
    → IsSending limit bid before file (polled s)
polled-IsSending h = record {
  can = record {
    in_sess = h.can.in_sess;
    open_socket = h.can.open_socket;
    positive = h.can.positive;
    size = h.can.size;
    final_ack = h.can.final_ack;
    no_test = h.can.no_test;
  };
  current = h.current;
  sent_length = h.sent_length;
  item = h.item;
  more = h.more;
}

pub segment_length :
    {limit : ℕ} (bid before : ℕ) (file : List ℕ) (s : Session)
    → IsSending limit bid before file s
    → (1 ≤ length (next_segment s bid before file).content)
      × (length (next_segment s bid before file).content ≤ limit)
      × (before + length (next_segment s bid before file).content ≤ length file)
segment_length bid before file s h = omega (
  arith,
  length-take {0} s.msgr.send_segment_size (drop before file),
  length-drop {0} before file,
  h.can.size,
  h.can.positive,
  h.more,
)

pub next_segment-IsSegment :
    {limit : ℕ} (bid before : ℕ) (file : List ℕ) (s : Session)
    → IsSending limit bid before file s
    → IsSegment bid limit before
        (before + length (next_segment s bid before file).content == length file)
        (next_segment s bid before file)
next_segment-IsSegment bid before file s h = record {
  same_id = refl;
  some_octets = (segment_length bid before file s h).0;
  within = (segment_length bid before file s h).1;
  starts = (flags_lem before _ (length file)).0;
  ends = (flags_lem before _ (length file)).1;
}

-- One round: the next segment goes out, and the bundle is still in progress or it is sent.
pub round_middle :
    {limit : ℕ} (codec : Codec) (now bid before : ℕ) (file : List ℕ) (s : Session)
    → IsSending limit bid before file s
    → before + length (next_segment s bid before file).content < length file
    → (t : Session) × (process_queue codec now s ≡ done false t)
      × IsSending limit bid (before + length (next_segment s bid before file).content) file t
      × (t.events ≡ tx (xfer_segment (next_segment s bid before file)) ∷ s.events)
unfolding segment_ext_items
round_middle {limit} codec now bid before file s h lt =
    let (a, t, e, (i, v)) =
      Returns-done (AfterMiddle limit bid before file (polled s)) _
        (middle_segment codec now bid before file (polled s) (polled-IsSending h) lt) in
    (
      t,
      process_queue_round codec now bid before file s h ∙ ap (λ o. continue o (λ _. pure false)) e,
      i,
      v,
    )

pub round_last :
    {limit : ℕ} (codec : Codec) (now bid before : ℕ) (file : List ℕ) (s : Session)
    → IsSending limit bid before file s
    → before + length (next_segment s bid before file).content ≡ length file
    → (t : Session) × (process_queue codec now s ≡ done false t)
      × IsAwaiting limit bid t
      × (t.events ≡ tx (xfer_segment (next_segment s bid before file)) ∷ s.events)
unfolding segment_ext_items
round_last {limit} codec now bid before file s h e =
    let (a, t, d, (i, v)) =
      Returns-done (AfterLast limit bid before file (polled s)) _
        (last_segment codec now bid before file (polled s) (polled-IsSending h) e) in
    (
      t,
      process_queue_round codec now bid before file s h ∙ ap (λ o. continue o (λ _. pure false)) d,
      i,
      v,
    )
