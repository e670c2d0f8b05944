-- ===== src/Tcpcl/Session/Queue/Keeps.antt =====
-- The calls of src/tcpcl/session.py that add, drop and finish transfers.
use dtn_demo_agent.Common.{
  ℕ, ◌≡◌, refl, sym, subst, Bool, true, false, not, List, [], ◌∷◌, arith, Bool-cases, inl, inr,
  contains, is_none,
}
use dtn_demo_agent.Common.Exec.{
  Exec, Outcome, done, raised, final, continue, when, throw, key_error, ◌>>=◌,
}
use dtn_demo_agent.Tcpcl.Packet.{has_flag, seg_end}
use dtn_demo_agent.Tcpcl.Session.State.{Session, Env, set_hdl}
use dtn_demo_agent.Tcpcl.Session.Transmit.{
  add_queue_item, process_queue_trigger, recv_xfer_ack, settle_ack, finish_ack, update_item,
  modulate_from_ack, modulate_tx_seg_size,
}
use dtn_demo_agent.Tcpcl.Session.Receive.{recv_sess_term, drop_pending}
use dtn_demo_agent.Tcpcl.Session.Queue.{queue, Leaves, Leaves-when, Leaves-modify}
use dtn_demo_agent.Tcpcl.Session.Queue.Frame.{require_sess-Leaves, queue-check_sess_term}
use dtn_demo_agent.Tcpcl.Session.Queue.Invariant.{
  IsConsistent, added-IsConsistent, acked-IsConsistent, dropped-IsConsistent, count-present,
}

-- The transfers of a session are consistent.
abbrev pub IsSound : Session → Type 0
IsSound s = IsConsistent (queue s)

-- A call keeps that, whether it returns or raises.
pub record Keeps {A : Type 0} (m : Exec Session A) : Type 0 where
  pub keeps : (s : Session) → IsSound s → IsSound (final (m s))

pub Leaves-Keeps : {A : Type 0} {m : Exec Session A} → Leaves m → Keeps m
Leaves-Keeps p = record { keeps = λ s h. subst IsConsistent (sym (p.leaves s)) h }

pub Keeps-bind :
    {A B : Type 0} {m : Exec Session A} {f : A → Exec Session B}
    → Keeps m
    → ((a : A) → Keeps (f a))
    → Keeps (m >>= f)
Keeps-bind {m = m} {f = f} p q = record { keeps = λ s h. bound s (m s) refl (p.keeps s h) }
  where
    bound :
        (s : Session) (o : Outcome Session _)
        → m s ≡ o
        → IsSound (final (m s))
        → IsSound (final (continue o f))
    bound s (done a t) e h = (q a).keeps t (subst (λ o. IsSound (final o)) e h)
    bound s (raised x t) e h = subst (λ o. IsSound (final o)) e h

pub add-Keeps : (file : List ℕ) → Keeps (add_queue_item file)
unfolding add_queue_item process_queue_trigger
add-Keeps file = record {
  keeps = λ s h. elim (Bool-cases (contains s.hdl.tx_next_id s.hdl.tx_map)) [
    | inl e ↦ absurd (
        omega (
          arith,
          count-present s.hdl.tx_next_id s.hdl.tx_map e,
          h.fresh s.hdl.tx_next_id (omega arith),
        ))
    | inr e ↦ rw e (added-IsConsistent (queue s) h)
  ];
}

drop_pending-IsSound :
    (bids : List ℕ) (s : Session)
    → s.hdl.tx_pend_start ≡ bids
    → IsSound s
    → IsSound (drop_pending bids s)
unfolding drop_pending
drop_pending-IsSound [] s e h = h
drop_pending-IsSound (bid ∷ rest) s e h =
    drop_pending-IsSound rest _ refl (dropped-IsConsistent (queue s) bid rest e h)

pub recv_sess_term-Keeps : Keeps recv_sess_term
unfolding recv_sess_term
recv_sess_term-Keeps = Keeps-bind (Leaves-Keeps require_sess-Leaves) (λ _. record {
  keeps = λ s h.
      subst IsConsistent (sym (queue-check_sess_term (drop_pending s.hdl.tx_pend_start s)))
        (drop_pending-IsSound s.hdl.tx_pend_start s refl h);
})

modulate-Leaves : (env : Env) (n : ℕ) → Leaves (modulate_from_ack env n)
unfolding modulate_from_ack modulate_tx_seg_size
modulate-Leaves env n = record { leaves = λ s. ground arith }

finish_ack-Keeps : (i n : ℕ) → Keeps (finish_ack i n)
unfolding finish_ack
finish_ack-Keeps i n = record {
  keeps = λ s h. elim (Bool-cases (contains i s.hdl.tx_pend_ack)) [
    | inl e ↦
        rw (e, finish_ack)
          (subst IsConsistent (sym (queue-check_sess_term _)) (acked-IsConsistent (queue s) i e h))
    | inr e ↦ rw (e, finish_ack) h
  ];
}

settle_ack-Keeps : (b : Bool) (i n : ℕ) → Keeps (settle_ack b i n)
unfolding settle_ack
settle_ack-Keeps true i n = record {
  keeps = λ s h. ground (arith, (finish_ack-Keeps i n).keeps s h);
}
settle_ack-Keeps false i n = record {
  keeps = λ s h. elim (Bool-cases s.msgr.do_send_ack_inter) [
    | inl e ↦ rw (e, settle_ack) h
    | inr e ↦ rw (e, settle_ack) h
  ];
}

known-Leaves : (b : Bool) → Leaves {A = Unit {0}} (when b (throw key_error))
known-Leaves true = record { leaves = λ s. refl }
known-Leaves false = record { leaves = λ s. refl }

pub recv_xfer_ack-Keeps : (env : Env) (i f n : ℕ) → Keeps (recv_xfer_ack env i f n)
unfolding recv_xfer_ack
recv_xfer_ack-Keeps env i f n = record {
  keeps = λ s h.
      (Keeps-bind (Leaves-Keeps require_sess-Leaves) (λ _.
          Keeps-bind
            (Leaves-Keeps (
              Leaves-when (not (is_none s.config.modulate_target_ack_time))
                (modulate-Leaves env n)))
            (λ _. Keeps-bind (Leaves-Keeps (known-Leaves (not (contains i s.hdl.tx_map)))) (λ _.
              Keeps-bind
                (Leaves-Keeps (
                  Leaves-modify
                    {f = set_hdl (λ h. record h {
                      tx_items = update_item i (λ x. record x { ack_length = n }) h.tx_items;
                    })}
                    (λ t. refl)))
                (λ _. settle_ack-Keeps (has_flag f seg_end) i n))))).keeps
        s h;
}
