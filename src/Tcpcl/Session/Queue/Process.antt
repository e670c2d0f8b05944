-- ===== src/Tcpcl/Session/Queue/Process.antt =====
-- `_process_queue` of src/tcpcl/session.py, and the consistency of the transfers.
use dtn_demo_agent.Common.{
  ℕ, ◌+◌, ◌≡◌, refl, ap, sym, ◌∙◌, subst, Bool, true, false, Option, none, some, List, [], ◌∷◌,
  ◌++◌, arith, Bool-cases, Option-cases, ◌⊎◌, take, drop, length, dict_set, inl, inr, ◌==◌,
  contains, if◌then◌else◌,
}
use dtn_demo_agent.Common.Exec.{Outcome, done, raised, final, continue, when, modify, ◌>>=◌}
use dtn_demo_agent.Tcpcl.Packet.{Codec, ExtItem, xfer_segment, has_flag, seg_end}
use dtn_demo_agent.Tcpcl.Session.State.{Session, set_hdl, set_msgr}
use dtn_demo_agent.Tcpcl.Session.Sending.{send_xfer_data}
use dtn_demo_agent.Tcpcl.Session.Transmit.{
  process_queue, continue_transfer, begin_transfer, send_segment, end_transfer, tx_teardown,
  process_queue_trigger, update_item, segment_flags, segment_ext_items,
}
use dtn_demo_agent.Tcpcl.Session.Queue.{queue, Leaves, send_message-Leaves}
use dtn_demo_agent.Tcpcl.Session.Queue.Invariant.{
  IsConsistent, begun-IsConsistent, ended-IsConsistent,
}
use dtn_demo_agent.Tcpcl.Session.Queue.Keeps.{IsSound, Keeps}

queue-end_transfer :
    (bid : ℕ) (s : Session)
    → s.msgr.do_send_ack_final ≡ true
    → queue (end_transfer bid s) ≡ record (queue s) {
      current = none;
      unacked =
          if contains bid s.hdl.tx_pend_ack
          then s.hdl.tx_pend_ack
          else s.hdl.tx_pend_ack ++ bid ∷ [];
    }
unfolding end_transfer tx_teardown process_queue_trigger
queue-end_transfer bid s e = ground arith

end-IsSound :
    (bid : ℕ) (s : Session) → s.hdl.tx_tmp ≡ some bid → IsSound s → IsSound (end_transfer bid s)
end-IsSound bid s c h =
    subst IsConsistent (sym (queue-end_transfer bid s h.final_ack))
      (ended-IsConsistent (queue s) bid c h)

send_xfer_data-Leaves :
    (codec : Codec) (i : ℕ) (content : List ℕ) (f : ℕ) (e : List ExtItem)
    → Leaves (send_xfer_data codec i content f e)
unfolding send_xfer_data
send_xfer_data-Leaves codec i content f e = record {
  leaves = λ s. ground (
    arith,
    (send_message-Leaves codec (
          xfer_segment
            (record { flags = f; transfer_id = i; ext_items = e; content = content }))).leaves
        s,
  );
}

-- After a segment: the time is noted, and the last one ends the transfer.
after-IsSound :
    (bid : ℕ) (b : Bool) (f : Session → Session) (o : Outcome Session (Unit {0}))
    → ((t : Session) → queue (f t) ≡ queue t)
    → (final o).hdl.tx_tmp ≡ some bid
    → IsSound (final o)
    → IsSound (final (continue o (λ _. modify f >>= λ _. when b (modify (end_transfer bid)))))
after-IsSound bid true f (done _ t) k c h =
    end-IsSound bid (f t) (ap (λ q. q.current) (k t) ∙ c) (subst IsConsistent (sym (k t)) h)
after-IsSound bid false f (done _ t) k c h = subst IsConsistent (sym (k t)) h
after-IsSound bid b f (raised e t) k c h = h

send_segment-IsSound :
    (codec : Codec) (now bid before total : ℕ) (s : Session)
    → s.hdl.tx_tmp ≡ some bid
    → IsSound s
    → IsSound (final (send_segment codec now bid before total s))
unfolding send_segment
send_segment-IsSound codec now bid before total s c h =
    let item = s.hdl.tx_items bid in
    let content = take s.msgr.send_segment_size (drop item.position item.file) in
    let after = before + length content in
    let flg = segment_flags before after total in
    let u =
      set_hdl
        (λ h. record h {
          tx_items =
              update_item bid (λ i. record i { position = i.position + length content }) h.tx_items;
          tx_length = some after;
        })
        s in
    let q =
      (send_xfer_data-Leaves codec bid content flg (segment_ext_items s before total)).leaves u in
    after-IsSound bid (has_flag flg seg_end)
      (set_msgr (λ m. record m { segment_tx_times = dict_set after now m.segment_tx_times }))
      (send_xfer_data codec bid content flg (segment_ext_items s before total) u) (λ t. refl)
      (ap (λ q. q.current) q ∙ c) (subst IsConsistent (sym q) h)

abbrev Continued : Codec → ℕ → Session → Type 0
Continued codec now s = IsSound (final (continue_transfer codec now s))

final-pure :
    {A B : Type 0} (b : B) (o : Outcome Session A) → final (continue o (λ _ t. done b t)) ≡ final o
final-pure b (done a t) = refl
final-pure b (raised e t) = refl

unchanged :
    (codec : Codec) (now : ℕ) (s : Session)
    → (s.hdl.tx_tmp ≡ none) ⊎ (s.hdl.tx_length ≡ none)
    → final (continue_transfer codec now s) ≡ s
unfolding continue_transfer
unchanged codec now s h = ground arith

unchanged_item :
    (codec : Codec) (now bid : ℕ) (s : Session)
    → s.hdl.tx_tmp ≡ some bid
    → (s.hdl.tx_items bid).total_length ≡ none
    → final (continue_transfer codec now s) ≡ s
unfolding continue_transfer
unchanged_item codec now bid s c h = ground arith

all_sent :
    (codec : Codec) (now bid before total : ℕ) (s : Session)
    → s.hdl.tx_tmp ≡ some bid
    → s.hdl.tx_length ≡ some before
    → (s.hdl.tx_items bid).total_length ≡ some total
    → (before == total) ≡ true
    → final (continue_transfer codec now s) ≡ s
unfolding continue_transfer
all_sent codec now bid before total s c l t e = ground arith

more_to_send :
    (codec : Codec) (now bid before total : ℕ) (s : Session)
    → s.hdl.tx_tmp ≡ some bid
    → s.hdl.tx_length ≡ some before
    → (s.hdl.tx_items bid).total_length ≡ some total
    → (before == total) ≡ false
    → continue_transfer codec now s
      ≡ continue (send_segment codec now bid before total s) (λ _ t. done false t)
unfolding continue_transfer
more_to_send codec now bid before total s c l t e = ground arith

pub same-IsSound : (t s : Session) → t ≡ s → IsSound s → IsSound t
same-IsSound t s e h = subst IsSound (sym e) h

known-IsSound :
    (codec : Codec) (now bid before : ℕ) (s : Session)
    → s.hdl.tx_tmp ≡ some bid
    → s.hdl.tx_length ≡ some before
    → IsSound s
    → Continued codec now s
known-IsSound codec now bid before s c l h = elim (Option-cases (s.hdl.tx_items bid).total_length) [
  | inl e ↦ same-IsSound _ s (unchanged_item codec now bid s c e) h
  | inr (total, e) ↦ elim (Bool-cases (before == total)) [
    | inl q ↦ same-IsSound _ s (all_sent codec now bid before total s c l e q) h
    | inr q ↦
        same-IsSound _ (final (send_segment codec now bid before total s))
          (ap (λ o. final o) (more_to_send codec now bid before total s c l e q)
            ∙ final-pure false (send_segment codec now bid before total s))
          (send_segment-IsSound codec now bid before total s c h)
  ]
]

continue_transfer-IsSound :
    (codec : Codec) (now : ℕ) (s : Session) → IsSound s → Continued codec now s
continue_transfer-IsSound codec now s h = elim (Option-cases s.hdl.tx_tmp) [
  | inl e ↦ same-IsSound _ s (unchanged codec now s (inl e)) h
  | inr (bid, c) ↦ elim (Option-cases s.hdl.tx_length) [
    | inl e ↦ same-IsSound _ s (unchanged codec now s (inr e)) h
    | inr (before, l) ↦ known-IsSound codec now bid before s c l h
  ]
]

queue-begin :
    (bid : ℕ) (rest : List ℕ) (s : Session)
    → queue (begin_transfer bid rest (set_hdl (λ h. record h { process_queue_pend = false }) s))
      ≡ record (queue s) { waiting = rest; current = some bid }
unfolding begin_transfer
queue-begin bid rest s = refl

queue_begins :
    (codec : Codec) (now bid : ℕ) (rest : List ℕ) (s : Session)
    → s.hdl.tx_tmp ≡ none
    → s.hdl.tx_pend_start ≡ bid ∷ rest
    → s.msgr.in_sess ≡ true
    → process_queue codec now s
      ≡ continue_transfer codec now
          (begin_transfer bid rest (set_hdl (λ h. record h { process_queue_pend = false }) s))
unfolding process_queue
queue_begins codec now bid rest s c e i = ground arith

queue_cases :
    (codec : Codec) (now : ℕ) (s : Session) (o : Option ℕ) (w : List ℕ)
    → s.hdl.tx_tmp ≡ o
    → s.hdl.tx_pend_start ≡ w
    → IsSound s
    → IsSound (final (process_queue codec now s))
unfolding process_queue begin_transfer
queue_cases codec now s (some bid) w c e h = ground (
  arith,
  continue_transfer-IsSound codec now (set_hdl (λ h. record h { process_queue_pend = false }) s) h,
)
queue_cases codec now s none [] c e h =
    same-IsSound (final (process_queue codec now s))
      (set_hdl (λ h. record h { process_queue_pend = false }) s) (ground arith) h
queue_cases codec now s none (bid ∷ rest) c e h = elim (Bool-cases s.msgr.in_sess) [
  | inl i ↦ subst IsSound (ap (λ o. final o) (sym (queue_begins codec now bid rest s c e i))) (
      continue_transfer-IsSound codec now _ (
        subst IsConsistent (sym (queue-begin bid rest s))
          (begun-IsConsistent (queue s) bid rest c e h)))
  | inr i ↦
      same-IsSound (final (process_queue codec now s))
        (set_hdl (λ h. record h { process_queue_pend = false }) s) (ground arith) h
]

pub process_queue-Keeps : (codec : Codec) (now : ℕ) → Keeps (process_queue codec now)
process_queue-Keeps codec now = record {
  keeps = λ s h. queue_cases codec now s s.hdl.tx_tmp s.hdl.tx_pend_start refl refl h;
}
