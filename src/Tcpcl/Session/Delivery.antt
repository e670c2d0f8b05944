-- ===== src/Tcpcl/Session/Delivery.antt =====
-- A whole run at the receiver, and a bundle from the queue of one session to the map of another.
use dtn_demo_agent.Common.{
  ℕ, ◌+◌, ◌<◌, ◌≡◌, refl, ap, sym, ◌∙◌, subst, true, false, none, some, List, [], ◌∷◌, ◌++◌, length,
  drop, append_assoc, ◌==◌, arith, dict_get, dict_set, get-set, eq→eqb, length-append, ◌≤◌,
}
use dtn_demo_agent.Tcpcl.Packet.{Codec, TransferSegment, has_flag, seg_start, xfer_ack}
use dtn_demo_agent.Tcpcl.Session.State.{
  Session, Event, RxItem, tx, recv_bundle_started, recv_bundle_intermediate, recv_bundle_finished,
  success,
}
use dtn_demo_agent.Tcpcl.Session.Sending.{require_sess}
use dtn_demo_agent.Tcpcl.Session.Receive.{recv_xfer_data, resume_segment, write_segment, rx_setup}
use dtn_demo_agent.Tcpcl.Session.Transfer.{IsRun, sent, Returns, Returns-continue, Returns-mono}
use dtn_demo_agent.Tcpcl.Session.Run.{IsQueued, IsDelivered, queue_rounds, queue_sends_run}
use dtn_demo_agent.Tcpcl.Session.Receiver.{
  CanReceive, IsResumed, IsReceived, grown, write_middle, write_last, recv_segments,
}

recv_xfer_data_resume :
    (codec : Codec) (flags : ℕ) (content : List ℕ) (item : RxItem) (s : Session)
    → CanReceive s
    → s.hdl.rx_tmp ≡ some item
    → has_flag flags seg_start ≡ false
    → recv_xfer_data codec item.transfer_id flags content s
      ≡ write_segment codec item.transfer_id flags content item s
unfolding recv_xfer_data require_sess resume_segment
recv_xfer_data_resume codec flags content item s h e n = ground arith

abbrev pub fresh : ℕ → Session → RxItem
fresh id s = record { object = s.hdl.rx_objects; transfer_id = id; total_length = none; file = [] }

recv_xfer_data_start :
    (codec : Codec) (id flags : ℕ) (content : List ℕ) (s : Session)
    → CanReceive s
    → has_flag flags seg_start ≡ true
    → recv_xfer_data codec id flags content s
      ≡ write_segment codec id flags content (fresh id s) (rx_setup id none s)
unfolding recv_xfer_data require_sess resume_segment rx_setup
recv_xfer_data_start codec id flags content s h n = ground arith

-- What the receiver emits for a run of which `before` octets are there, newest first: for each
-- segment an acknowledgement of all octets so far, and a signal.
abbrev pub run_events : ℕ → ℕ → List TransferSegment → List Event → List Event
run_events id before [] es = es
run_events id before (x ∷ []) es =
    recv_bundle_finished id (before + length x.content) success
    ∷ tx (xfer_ack x.flags id (before + length x.content))
    ∷ es
run_events id before (x ∷ y ∷ ys) es = run_events id (before + length x.content) (y ∷ ys) (
    recv_bundle_intermediate id (before + length x.content)
    ∷ tx (xfer_ack x.flags id (before + length x.content))
    ∷ es)

-- The bundle is delivered: to the list of bundles, and to the map under its transfer ID.
pub record IsComplete (item : RxItem) (s : Session) (es : List Event) (t : Session) : Type 0 where
  pub can : CanReceive t
  pub idle : t.hdl.rx_tmp ≡ none
  pub bundles : t.hdl.rx_bundles ≡ s.hdl.rx_bundles ++ item ∷ []
  pub map : t.hdl.rx_map ≡ dict_set item.transfer_id item s.hdl.rx_map
  pub events : t.events ≡ es

grown_twice :
    (item : RxItem) (c d rest : List ℕ) → c ++ d ≡ rest → grown (grown item c) d ≡ grown item rest
grown_twice item c d rest e = ground (arith, append_assoc item.file c d)

run_head :
    (id limit before : ℕ) (rest : List ℕ) (y : TransferSegment) (ys : List TransferSegment)
    → IsRun id limit before rest (y ∷ ys)
    → (y.transfer_id ≡ id) × (1 ≤ length y.content) × (has_flag y.flags seg_start ≡ (before == 0))
run_head id limit before rest y [] (i, e) = (i.same_id, i.some_octets, i.starts)
run_head id limit before rest y (z ∷ zs) (i, e, r) = (i.same_id, i.some_octets, i.starts)

-- The first of the segments `x ∷ xs` goes to `item`, in the state `s'`.
abbrev Writes : Codec → RxItem → TransferSegment → Session → Session → Type 0
Writes codec item x s s' =
    recv_xfer_data codec x.transfer_id x.flags x.content s
    ≡ write_segment codec item.transfer_id x.flags x.content item s'

resume-Writes :
    (codec : Codec) (limit : ℕ) (item : RxItem) (rest : List ℕ) (y : TransferSegment)
    (ys : List TransferSegment) (s : Session)
    → CanReceive s
    → s.hdl.rx_tmp ≡ some item
    → 0 < length item.file
    → IsRun item.transfer_id limit (length item.file) rest (y ∷ ys)
    → Writes codec item y s s
resume-Writes codec limit item rest y ys s h c p r =
    let (same, some_octets, starts) =
      run_head item.transfer_id limit (length item.file) rest y ys r in
    ap (λ (n : ℕ). recv_xfer_data codec n y.flags y.content s) same
    ∙ recv_xfer_data_resume codec y.flags y.content item s h c (starts ∙ ground arith)

-- The outcome of the rest of the segments, from the receiver's state before them.
recv_run :
    (codec : Codec) (limit : ℕ) (item : RxItem) (rest : List ℕ) (x : TransferSegment)
    (xs : List TransferSegment) (s s' u : Session)
    → CanReceive s'
    → Writes codec item x s s'
    → IsRun item.transfer_id limit (length item.file) rest (x ∷ xs)
    → u.hdl.rx_bundles ≡ s'.hdl.rx_bundles
    → u.hdl.rx_map ≡ s'.hdl.rx_map
    → Returns (recv_segments codec (x ∷ xs) s) (
        IsComplete
          (grown item rest)
          u
          (run_events item.transfer_id (length item.file) (x ∷ xs) s'.events))
unfolding recv_segments
recv_run codec limit item rest x [] s s' u h w (i, e) b m = rw w (
    Returns-continue (IsReceived x.flags (grown item x.content) s') _ _ _
      (write_last codec x.flags x.content item s' h i.ends)
      (λ a t q. record {
        can = q.can;
        idle = q.idle;
        bundles = q.bundles ∙ cc (b, e);
        map = q.map ∙ cc (m, e);
        events = q.events ∙ rw (length-append item.file x.content);
      }))
recv_run codec limit item rest x (y ∷ ys) s s' u h w (i, e, r) b m = rw w (
    Returns-continue (IsResumed x.flags (grown item x.content) s') _ _ _
      (write_middle codec x.flags x.content item s' h i.ends)
      (λ a t q.
        let r' =
          subst (λ n. IsRun item.transfer_id limit n (drop (length x.content) rest) (y ∷ ys))
            (sym (length-append item.file x.content)) r in
        let w' =
          resume-Writes codec limit (grown item x.content) (drop (length x.content) rest) y ys t
            q.can (ap (λ h. h.rx_tmp) q.hdl)
            (omega (arith, length-append item.file x.content, i.some_octets)) r' in
        Returns-mono
          (IsComplete (grown (grown item x.content) (drop (length x.content) rest)) u
            (run_events item.transfer_id (length (item.file ++ x.content)) (y ∷ ys) t.events))
          (IsComplete (grown item rest) u
            (run_events item.transfer_id (length item.file) (x ∷ y ∷ ys) s'.events))
          _
          (λ v k. record {
            can = k.can;
            idle = k.idle;
            bundles = k.bundles ∙ cc (grown_twice item x.content _ rest e);
            map = k.map ∙ cc (grown_twice item x.content _ rest e);
            events = k.events ∙ rw (q.events, length-append item.file x.content);
          })
          (recv_run codec limit (grown item x.content) (drop (length x.content) rest) y ys t t u
            q.can w' r' (b ∙ sym (ap (λ h. h.rx_bundles) q.hdl))
            (m ∙ sym (ap (λ h. h.rx_map) q.hdl)))))

-- The segments of a run, received in order by a session that acknowledges every segment and is not
-- ending, raise nothing and deliver one bundle with the octets of the run: it joins the list of
-- bundles and is the entry of its transfer ID in the map, no bundle is in progress, and for each
-- segment the sum of the octets so far was acknowledged, with the signals of a start, of each middle
-- segment and of the end.
pub recv_run_delivers :
    (codec : Codec) (id limit : ℕ) (file : List ℕ) (xs : List TransferSegment) (s : Session)
    → CanReceive s
    → IsRun id limit 0 file xs
    → Returns (recv_segments codec xs s) (
        IsComplete
          (grown (fresh id s) file)
          s
          (run_events id 0 xs (recv_bundle_started id none ∷ s.events)))
unfolding rx_setup
recv_run_delivers codec id limit file [] s h r = absurd r
recv_run_delivers codec id limit file (x ∷ xs) s h r =
    let (same, some_octets, starts) = run_head id limit 0 file x xs r in
    recv_run codec limit (fresh id s) file x xs s (rx_setup id none s) s
      (record {
        in_sess = h.in_sess;
        open_socket = h.open_socket;
        inter_ack = h.inter_ack;
        final_ack = h.final_ack;
        no_term = h.no_term;
      })
      (ap (λ (n : ℕ). recv_xfer_data codec n x.flags x.content s) same
        ∙ recv_xfer_data_start codec id x.flags x.content s h starts)
      r refl refl

-- A bundle of one octet or more, at the head of the queue of a session that can send, is delivered by a
-- session that can receive, acknowledges every segment and is not ending: after at most as many rounds
-- of the sender's `_process_queue` as the bundle has octets, the segments that it sent, received in
-- order, put the very octets of the file into the receiver's map under the transfer ID.
pub transfer_end_to_end :
    {limit : ℕ} (codec : Codec) (now bid : ℕ) (file rest : List ℕ) (s r : Session)
    → IsQueued limit bid file rest s
    → CanReceive r
    → (k : ℕ) × (k ≤ length file)
      × Returns (queue_rounds codec now k s) (λ t.
        (xs : List TransferSegment) × (sent t.events ≡ sent s.events ++ xs)
        × Returns
            (recv_segments codec xs r)
            (λ u. (item : RxItem) × (dict_get bid u.hdl.rx_map ≡ some item) × (item.file ≡ file)))
transfer_end_to_end {limit} codec now bid file rest s r h c =
    let (k, le, q) = queue_sends_run codec now bid file rest s h in
    (
      k,
      le,
      Returns-mono (IsDelivered limit bid file s)
          (λ t.
            (xs : List TransferSegment) × (sent t.events ≡ sent s.events ++ xs)
            × Returns (recv_segments codec xs r) (λ u.
              (item : RxItem) × (dict_get bid u.hdl.rx_map ≡ some item) × (item.file ≡ file)))
          _
          (λ t d. (
            d.segments,
            d.new,
            Returns-mono
                (IsComplete (grown (fresh bid r) file) r
                  (run_events bid 0 d.segments (recv_bundle_started bid none ∷ r.events)))
                (λ u.
                  (item : RxItem) × (dict_get bid u.hdl.rx_map ≡ some item) × (item.file ≡ file))
                _
                (λ u v. (
                  grown (fresh bid r) file,
                  ap (λ m. dict_get bid m) v.map
                      ∙ get-set bid bid (grown (fresh bid r) file) r.hdl.rx_map
                      ∙ rw (eq→eqb bid bid refl),
                  refl,
                ))
                (recv_run_delivers codec bid limit file d.segments r c d.run),
          ))
          q,
    )
