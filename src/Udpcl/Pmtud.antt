-- ===== src/Udpcl/Pmtud.antt =====
-- The discovery of the path MTU in src/udpcl/agent.py.
use dtn_demo_agent.Common.{
  ℕ, zero, suc, ◌+◌, ◌-◌, ◌*◌, ◌/◌, min, max, false, Option, none, some, List, [], ◌∷◌, ◌++◌, ◌==◌,
  ltb, length, if◌then◌else◌,
}
use dtn_demo_agent.Common.Exec.{
  Exec, done, raised, pure, modify, ◌>>=◌, ◌>>◌, key_error, value_error, zero_division_error,
}
use dtn_demo_agent.Common.Portion.{zeros}
use dtn_demo_agent.Udpcl.Value.{
  Value, uint, dict, entry, end, array, cons, Values, nil, Cbor2, key_value, pmtud_probe, pmtud_ack,
}
use dtn_demo_agent.Udpcl.Conversation.{
  Ip, Address, Conversation, addr_str, conv_get, conv_set, conv_del,
}
use dtn_demo_agent.Udpcl.State.{Env, BundleItem, Probes, Agent}
use dtn_demo_agent.Udpcl.Queue.{addr_from_str, add_tx_item, message}

abbrev pub values : List Value → Values
values [] = nil
values (v ∷ vs) = cons v (values vs)

abbrev pub base_plpmtu : ℕ
base_plpmtu = 1200

-- `IP_MTU_DISCOVER` with `IP_PMTUDISC_DO`
abbrev pub always_df : ℕ × ℕ × ℕ
always_df = (0, 10, 2)

-- `timers` and `glib.source_remove`
abbrev pub remove_timer : ℕ → List (ℕ × Conversation) → List (ℕ × Conversation)
remove_timer t [] = []
remove_timer t ((u, c) ∷ m) = if u == t then m else (u, c) ∷ remove_timer t m

abbrev pub cancel : Option ℕ → List (ℕ × Conversation) → List (ℕ × Conversation)
cancel none m = m
cancel (some t) m = remove_timer t m

-- The largest and smallest size of a packet, without the headers of IP and UDP
abbrev pub overhead : Option Ip → ℕ
overhead none = 40 + 8
overhead (some a) = if a.is_v4 then 20 + 8 else 40 + 8

abbrev pub least_packet : Option Ip → ℕ
least_packet none = 1280
least_packet (some a) = if a.is_v4 then 68 else 1280

unfoldable pub max_plpmtu : Option Ip → ℕ
max_plpmtu ip = min (2 * base_plpmtu) 65535 - overhead ip

unfoldable pub pkt_step : Option Ip → ℕ → ℕ
unfolding max_plpmtu
pkt_step ip stepcount = max 1 ((max_plpmtu ip - (least_packet ip - overhead ip)) / stepcount)

-- The identity of a probe, which has a number, an identity, and a time to wait.
unfoldable pub probe_items : Value → Option Value
probe_items (array (cons seq (cons pid (cons (uint timeout) nil)))) = some pid
probe_items _ = none

abbrev pub no_probes : Probes
no_probes = record { timer = none; pids = [] }

abbrev probes_of : Option Probes → Probes
probes_of none = no_probes
probes_of (some p) = p

-- A probe, padded to its size.
unfoldable pub probe_item : Cbor2 → Address → ℕ → ℕ → BundleItem
probe_item cbor address port size =
    let msg = cbor.dumps (
      dict (
        entry (key_value pmtud_probe)
          (array (cons (uint 0) (cons (uint size) (cons (uint 1000) nil)))) end)) in
    message address (some port) (msg ++ zeros (size - length msg)) (always_df ∷ [])

-- The acknowledgement of probes
unfoldable pub ack_item : Cbor2 → Conversation → List Value → BundleItem
ack_item cbor conv pids =
    message (addr_str conv.peer_address) conv.peer_port
      (cbor.dumps (
        dict (
          entry (key_value pmtud_ack) (array (cons (uint 0) (cons (array (values pids)) nil)))
            end)))
      []

module _ {I : Type 0} where
  -- `range(size, stop, step)`, on fuel: the probes that are put into the queue.
  unfoldable pub queue_probes : Cbor2 → Address → ℕ → ℕ → ℕ → ℕ → ℕ → Exec (Agent I) (Unit {0})
  unfolding add_tx_item probe_item
  queue_probes cbor address port stop step zero size s = done tt s
  queue_probes cbor address port stop step (suc fuel) size s =
      let next =
        (do
          _ ← add_tx_item (probe_item cbor address port size) false
          queue_probes cbor address port stop step fuel (size + step))
          s in
      if ltb size stop then next else done tt s

  -- A positive `stepcount`, or 0. The fuel is the number of sizes if the step is 1.
  unfoldable pub probe_sizes : Cbor2 → Address → ℕ → ℕ → Option Ip → Exec (Agent I) (Unit {0})
  unfolding max_plpmtu pkt_step queue_probes
  probe_sizes cbor address port stepcount ip s =
      if stepcount == 0
      then raised zero_division_error s
      else queue_probes cbor address port (max_plpmtu ip) (pkt_step ip stepcount)
          (max_plpmtu ip - base_plpmtu) base_plpmtu s

  unfoldable pub pmtud_start : Cbor2 → Env → Address → ℕ → ℕ → Exec (Agent I) (Unit {0})
  unfolding addr_from_str probe_sizes
  pmtud_start cbor env address port stepcount = do
    ip ← addr_from_str env (some address)
    probe_sizes cbor address port stepcount ip

  abbrev pub note_probe : Conversation → Value → Probes → Agent I → Agent I
  note_probe conv pid found s = record s {
    pmtud_recv =
        conv_set conv (record { timer = some s.next_timer; pids = found.pids ++ pid ∷ [] })
          s.pmtud_recv;
    timers = cancel found.timer s.timers ++ (s.next_timer, conv) ∷ [];
    next_timer = s.next_timer + 1;
  }

  -- The state of the conversation is made before the probe is taken apart.
  unfoldable pub pmtud_recv_probe : Conversation → Value → Exec (Agent I) (Unit {0})
  unfolding probe_items
  pmtud_recv_probe conv v s = elim (probe_items v) [
    | none ↦ raised value_error (record s {
      pmtud_recv = conv_set conv (probes_of (conv_get conv s.pmtud_recv)) s.pmtud_recv;
    })
    | some pid ↦ done tt (note_probe conv pid (probes_of (conv_get conv s.pmtud_recv)) s)
  ]

  abbrev pub forget_probes : Conversation → Agent I → Agent I
  forget_probes conv s = record s { pmtud_recv = conv_del conv s.pmtud_recv }

  -- The timer of a conversation
  unfoldable pub pmtud_send_ack : Cbor2 → Conversation → Exec (Agent I) (Unit {0})
  unfolding add_tx_item ack_item
  pmtud_send_ack cbor conv s = elim (conv_get conv s.pmtud_recv) [
    | none ↦ raised key_error s
    | some state ↦
        (do
          modify (forget_probes conv)
          _ ← add_tx_item (ack_item cbor conv state.pids) false
          pure tt)
          s
  ]
