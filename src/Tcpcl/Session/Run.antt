-- ===== src/Tcpcl/Session/Run.antt =====
-- The rounds of `_process_queue` that send one bundle, as the event loop makes them.
use dtn_demo_agent.Common.{
  ℕ, zero, suc, ◌+◌, ◌≤◌, ◌<◌, ◌≡◌, refl, ap, sym, ◌∙◌, false, none, List, [], ◌∷◌, ◌++◌, length,
  drop, drop-drop, drop_all, take-length-drop, length-drop, append-nil, append_assoc, arith, dec_lt,
  subst, eq→eqb, lt→eqb,
}
use dtn_demo_agent.Common.Exec.{Exec, done, continue}
use dtn_demo_agent.Tcpcl.Packet.{Codec, TransferSegment, xfer_segment}
use dtn_demo_agent.Tcpcl.Session.State.{Session, tx, set_hdl}
use dtn_demo_agent.Tcpcl.Session.Transmit.{process_queue, continue_transfer, begin_transfer}
use dtn_demo_agent.Tcpcl.Session.Transfer.{IsSegment, IsRun, sent, Returns, Returns-mono}
use dtn_demo_agent.Tcpcl.Session.Segment.{CanSend, IsSending, next_segment}
use dtn_demo_agent.Tcpcl.Session.Sender.{
  IsAwaiting, next_segment-IsSegment, segment_length, round_middle, round_last,
}

-- `k` idle calls of `_process_queue`, up to the first exception.
unfoldable pub queue_rounds : Codec → ℕ → ℕ → Exec Session (Unit {0})
queue_rounds codec now zero s = done tt s
queue_rounds codec now (suc k) s =
    continue (process_queue codec now s) (λ _. queue_rounds codec now k)

rounds_suc :
    (codec : Codec) (now k : ℕ) (s t : Session) (P : Session → Type 0)
    → process_queue codec now s ≡ done false t
    → Returns (queue_rounds codec now k t) P
    → Returns (queue_rounds codec now (suc k) s) P
unfolding queue_rounds
rounds_suc codec now k s t P e p = rw e p

-- What was sent since `s`, and where that leaves the session.
pub record IsSentRun (limit bid before : ℕ) (file : List ℕ) (s t : Session) : Type 0 where
  pub awaiting : IsAwaiting limit bid t
  pub segments : List TransferSegment
  pub new : sent t.events ≡ sent s.events ++ segments
  pub run : IsRun bid limit before (drop before file) segments

no_rest :
    (content rest : List ℕ)
    → content ++ drop (length content) rest ≡ rest
    → length rest ≤ length content
    → content ≡ rest
no_rest content rest e le =
    sym (append-nil content)
    ∙ ap (λ ys. content ++ ys) (sym (drop_all (length content) rest le))
    ∙ e

IsRun-cons :
    {limit id before : ℕ} {rest : List ℕ} (x : TransferSegment) (xs : List TransferSegment)
    → IsSegment id limit before false x
    → x.content ++ drop (length x.content) rest ≡ rest
    → IsRun id limit (before + length x.content) (drop (length x.content) rest) xs
    → IsRun id limit before rest (x ∷ xs)
IsRun-cons x [] i e r = absurd r
IsRun-cons x (y ∷ ys) i e r = (i, e, r)

run_last :
    {limit : ℕ} (bid before : ℕ) (file : List ℕ) (s t : Session)
    → IsSending limit bid before file s
    → before + length (next_segment s bid before file).content ≡ length file
    → IsAwaiting limit bid t
    → t.events ≡ tx (xfer_segment (next_segment s bid before file)) ∷ s.events
    → IsSentRun limit bid before file s t
run_last {limit} bid before file s t h e w v = record {
  awaiting = w;
  segments = next_segment s bid before file ∷ [];
  new = ap sent v;
  run = (
    subst (λ b. IsSegment bid limit before b (next_segment s bid before file)) (eq→eqb _ _ e)
        (next_segment-IsSegment bid before file s h),
    no_rest _ (drop before file) (take-length-drop s.msgr.send_segment_size (drop before file))
        (omega (arith, length-drop {0} before file)),
  );
}

run_more :
    {limit : ℕ} (bid before : ℕ) (file : List ℕ) (s t u : Session)
    → IsSending limit bid before file s
    → before + length (next_segment s bid before file).content < length file
    → t.events ≡ tx (xfer_segment (next_segment s bid before file)) ∷ s.events
    → IsSentRun limit bid (before + length (next_segment s bid before file).content) file t u
    → IsSentRun limit bid before file s u
run_more {limit} bid before file s t u h lt v r = record {
  awaiting = r.awaiting;
  segments = next_segment s bid before file ∷ r.segments;
  new =
      r.new
      ∙ ap (λ es. sent es ++ r.segments) v
      ∙ append_assoc (sent s.events) (next_segment s bid before file ∷ []) r.segments;
  run =
      IsRun-cons _ r.segments
        (subst (λ b. IsSegment bid limit before b (next_segment s bid before file)) (lt→eqb _ _ lt)
          (next_segment-IsSegment bid before file s h))
        (take-length-drop s.msgr.send_segment_size (drop before file))
        (subst
          (λ rest.
            IsRun bid limit (before + length (next_segment s bid before file).content) rest
              r.segments)
          (drop-drop before (length (next_segment s bid before file).content) file) r.run);
}

-- From a bundle in progress, at most as many rounds as it has octets left send all of it.
rounds_send :
    {limit : ℕ} (codec : Codec) (now fuel bid before : ℕ) (file : List ℕ) (s : Session)
    → IsSending limit bid before file s
    → length file ≤ before + fuel
    → (k : ℕ) × (1 ≤ k)
      × (k ≤ fuel)
      × Returns (queue_rounds codec now k s) (IsSentRun limit bid before file s)
rounds_send codec now zero bid before file s h le = absurd (omega (arith, h.more))
rounds_send {limit} codec now (suc fuel) bid before file s h le =
    elim (dec_lt (before + length (next_segment s bid before file).content) (length file)) [
      | yes lt ↦
          let (t, e, i, v) = round_middle codec now bid before file s h lt in
          let (k, pos, le', r) =
            rounds_send {limit = limit} codec now fuel bid
              (before + length (next_segment s bid before file).content) file t i
              (omega (arith, segment_length bid before file s h)) in
          (
            suc k,
            omega arith,
            omega arith,
            rounds_suc codec now k s t _ e
                (Returns-mono _ _ _ (λ u q. run_more bid before file s t u h lt v q) r),
          )
      | no ge ↦
          let eq : before + length (next_segment s bid before file).content ≡ length file =
            omega (arith, segment_length bid before file s h) in
          let (t, e, i, v) = round_last codec now bid before file s h eq in
          (
            1,
            omega arith,
            omega arith,
            rounds_suc codec now 0 s t _ e
                (unfold queue_rounds in run_last bid before file s t h eq i v),
          )
    ]

-- The bundle waits at the head of the queue.
pub record IsQueued (limit bid : ℕ) (file : List ℕ) (rest : List ℕ) (s : Session) : Type 0 where
  pub can : CanSend limit s
  pub idle : s.hdl.tx_tmp ≡ none
  pub first : s.hdl.tx_pend_start ≡ bid ∷ rest
  pub item_file : (s.hdl.tx_items bid).file ≡ file
  pub not_empty : 1 ≤ length file

begun : ℕ → List ℕ → Session → Session
unfolding begin_transfer
begun bid rest s =
    begin_transfer bid rest (set_hdl (λ h. record h { process_queue_pend = false }) s)

-- The first round takes the bundle from the queue, and goes on as a round of a bundle in progress.
process_queue_begin :
    {limit : ℕ} (codec : Codec) (now bid : ℕ) (file rest : List ℕ) (s : Session)
    → IsQueued limit bid file rest s
    → process_queue codec now s ≡ process_queue codec now (begun bid rest s)
unfolding process_queue continue_transfer begun
process_queue_begin codec now bid file rest s h = ground arith

begun-IsSending :
    {limit : ℕ} (bid : ℕ) (file rest : List ℕ) (s : Session)
    → IsQueued limit bid file rest s
    → IsSending limit bid 0 file (begun bid rest s)
      × (sent (begun bid rest s).events ≡ sent s.events)
unfolding begun
begun-IsSending bid file rest s h = (
  record {
    can = record {
      in_sess = h.can.in_sess;
      open_socket = h.can.open_socket;
      positive = h.can.positive;
      size = h.can.size;
      final_ack = h.can.final_ack;
      no_test = h.can.no_test;
    };
    current = refl;
    sent_length = refl;
    item = ground (arith, h.item_file);
    more = h.not_empty;
  },
  refl,
)

rounds_begin :
    {limit : ℕ} (codec : Codec) (now k bid : ℕ) (file rest : List ℕ) (s : Session)
    (P : Session → Type 0)
    → IsQueued limit bid file rest s
    → 0 < k
    → Returns (queue_rounds codec now k (begun bid rest s)) P
    → Returns (queue_rounds codec now k s) P
unfolding queue_rounds
rounds_begin codec now zero bid file rest s P h p r = absurd (omega arith)
rounds_begin codec now (suc k) bid file rest s P h p r =
    rw (process_queue_begin codec now bid file rest s h) r

-- What the receiver is sent for the bundle at the head of the queue.
pub record IsDelivered (limit bid : ℕ) (file : List ℕ) (s t : Session) : Type 0 where
  pub awaiting : IsAwaiting limit bid t
  pub segments : List TransferSegment
  pub new : sent t.events ≡ sent s.events ++ segments
  pub run : IsRun bid limit 0 file segments

-- In a session that can send, a bundle of one octet or more at the head of the queue goes out as one
-- run of segments: after at most as many rounds of `_process_queue` as it has octets, with no
-- exception, the segments that were sent since carry the octets of its file in order, each of them
-- with one octet up to the segment size, START on the first alone and END on the last alone; the
-- bundle then waits for its acknowledgement, and the next round may begin another.
pub queue_sends_run :
    {limit : ℕ} (codec : Codec) (now bid : ℕ) (file rest : List ℕ) (s : Session)
    → IsQueued limit bid file rest s
    → (k : ℕ) × (k ≤ length file)
      × Returns (queue_rounds codec now k s) (IsDelivered limit bid file s)
queue_sends_run {limit} codec now bid file rest s h =
    let (i, v) = begun-IsSending bid file rest s h in
    let (k, pos, le, r) =
      rounds_send codec now (length file) bid 0 file (begun bid rest s) i (omega arith) in
    (
      k,
      le,
      rounds_begin codec now k bid file rest s _ h pos (
          Returns-mono (IsSentRun limit bid 0 file (begun bid rest s)) _ _
            (λ t q. record {
              awaiting = q.awaiting;
              segments = q.segments;
              new = q.new ∙ ap (λ xs. xs ++ q.segments) v;
              run = q.run;
            })
            r),
    )
