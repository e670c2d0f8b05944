-- ===== src/Udpcl/Examples.antt =====
-- Agents of src/udpcl/agent.py at work, with a small encoding.
use dtn_demo_agent.Common.{
  inr, ℕ, zero, suc, ◌≤◌, ◌<◌, ◌≡◌, refl, true, false, none, some, List, [], ◌∷◌, ◌++◌, arith, All,
  length, dict_set,
}
use dtn_demo_agent.Common.Exec.{done, final}
use dtn_demo_agent.Common.Exec.Ends.{Ends}
use dtn_demo_agent.Common.Portion.Spans.{spans}
use dtn_demo_agent.Common.Portion.Assembly.{IsSlice, Covers}
use dtn_demo_agent.Udpcl.Value.{major_type, transfer_map}
use dtn_demo_agent.Udpcl.Encoding.{cbor, cbor-IsCbor, cbor-IsSized, toy_load, toy_dumps}
use dtn_demo_agent.Udpcl.Conversation.{Ip, numeric, Conversation, find_in, find_pattern, pat_match}
use dtn_demo_agent.Udpcl.State.{Config, Env, BundleItem, Agent}
use dtn_demo_agent.Udpcl.Queue.{addr_from_str, add_rx_item, add_tx_item, send_bundle_data}
use dtn_demo_agent.Udpcl.Starttls.{start_tls}
use dtn_demo_agent.Udpcl.Send.{remain_size, send_segments, fragment_loop, item_conversation}
use dtn_demo_agent.Udpcl.Send.Bounds.{send_segments_fit, no_room_loops}
use dtn_demo_agent.Udpcl.Send.Order.{Sendable, sent_log, item_datagrams}
use dtn_demo_agent.Udpcl.Ledger.{ledger}
use dtn_demo_agent.Udpcl.Numbers.{Since, Sound}
use dtn_demo_agent.Udpcl.Idle.{Runs, idle_drains}
use dtn_demo_agent.Udpcl.Idle.Order.{queue_sent, concat}
use dtn_demo_agent.Udpcl.Steps.{Reaches, here, next, on_send, Reaches-Sound}
use dtn_demo_agent.Udpcl.Receive.Assembly.{
  IsSound, current, recv_fragments, recv_fragments-IsSound, fragment_completes, whole,
}
use dtn_demo_agent.Udpcl.Receive.Ends.{recv_datagram-Ends}
use dtn_demo_agent.Udpcl.Receive.Policy.{unsecured_refused, failed_handshake_ignores, recv_run}
use dtn_demo_agent.Udpcl.Receive.Downgrade.{starttls_with, starttls_map_accepted}
use dtn_demo_agent.Udpcl.RoundTrip.Message.{peer_key}
use dtn_demo_agent.Udpcl.RoundTrip.Whole.{IsBundle, recv_each, transfer_round_trip}
use dtn_demo_agent.Udpcl.Receive.{
  transfer_items, recv_datagram, recv_fragment, sock_recvfrom, recv_ext_map, new_transfer,
  add_fragment, key_del,
}

-- 10.0.0.1 and 10.0.0.2
abbrev here_ip : Ip
here_ip = record { is_v4 = true; value = 167772161 }

abbrev peer_ip : Ip
peer_ip = record { is_v4 = true; value = 167772162 }

abbrev conv : Conversation
conv = record {
  peer_address = some peer_ip;
  peer_port = some 4556;
  local_address = some here_ip;
  local_port = some 4556;
}

abbrev config : Config
config = record {
  dtls_enable_tx = false;
  require_tls = false;
  node_id = "dtn://here/";
  default_tx_address = none;
  default_tx_port = none;
  mtu_default = some 8;
  multicast_ttl = none;
}

abbrev env : Env
env = record {
  getaddrinfo = λ t. none;
  bind_ok = λ c. true;
  handshake_ok = λ c b. true;
  send_ok = λ xs. true;
}

-- No handshake succeeds.
abbrev deaf : Env
deaf = record env { handshake_ok = λ c b. false }

abbrev idle_agent : Agent spans.Interval
idle_agent = record {
  config = config;
  bindsocks = [];
  listen_plain = [];
  plain_sock = [];
  dtls_prep = [];
  dtls_sess = [];
  tx_id = 0;
  tx_queue = [];
  rx_fragments = [];
  rx_id = 0;
  rx_queue = [];
  pmtud_recv = [];
  next_sock = 1;
  next_timer = 0;
  dtls_watch = [];
  idle = 0;
  timers = [];
  events = [];
}

abbrev secure_agent : Agent spans.Interval
secure_agent = record idle_agent { config = record config { require_tls = true } }

-- A bundle of nine octets
abbrev content : List ℕ
content = 128 ∷ 7 ∷ 1 ∷ 2 ∷ 3 ∷ 4 ∷ 5 ∷ 6 ∷ 7 ∷ []

content-IsBundle : IsBundle cbor content
unfolding toy_load major_type
content-IsBundle = record { item = _; loaded = refl; is_array = refl }

room_8 : 0 < remain_size cbor 8 0 9
unfolding remain_size toy_dumps transfer_map transfer_items
room_8 = omega arith

transfer_round_trip_example :
    (segs : List (List ℕ)) × (send_segments cbor (some 8) 0 9 content ≡ some segs)
    × (recv_each spans cbor env (some 0) conv segs idle_agent
        ≡ done tt (add_rx_item (whole spans (peer_key conv 0) content) idle_agent))
transfer_round_trip_example =
    transfer_round_trip spans cbor env (some 0) conv (some 8) 0 content idle_agent cbor-IsCbor
      content-IsBundle room_8 refl refl

-- Three fragments, out of order and one of them twice
abbrev out_of_order : List (ℕ × List ℕ)
out_of_order = (2, 1 ∷ 2 ∷ []) ∷ (0, 128 ∷ 7 ∷ 1 ∷ []) ∷ (2, 1 ∷ 2 ∷ []) ∷ []

slices : All (λ f. IsSlice content f.0 f.1) out_of_order
slices = (
  record { within = omega arith; same = refl },
  (
    record { within = omega arith; same = refl },
    (record { within = omega arith; same = refl }, tt),
  ),
)

abbrev Never : (ℕ × BundleItem) → Type 0
Never e = ⊥

idle-IsSound : IsSound spans (peer_key conv 3) content Never idle_agent
idle-IsSound = record { kept = tt; received = tt }

recv_fragments-IsSound_example :
    IsSound spans
      (peer_key conv 3)
      content
      Never
      (recv_fragments spans (peer_key conv 3) 9 out_of_order idle_agent)
recv_fragments-IsSound_example =
    recv_fragments-IsSound spans (peer_key conv 3) content Never out_of_order idle_agent slices
      idle-IsSound

short_IsSound : IsSound spans (peer_key conv 3) (7 ∷ 8 ∷ []) Never idle_agent
short_IsSound = record { kept = tt; received = tt }

short_covered :
    Covers spans
      (7 ∷ 8 ∷ [])
      (add_fragment spans 0 (7 ∷ 8 ∷ []) (current spans (peer_key conv 3) 2 idle_agent)).valid
unfolding add_fragment current new_transfer
short_covered zero m = refl
short_covered (suc zero) m = refl
short_covered (suc (suc i)) m = absurd (omega arith)

fragment_completes_example :
    recv_fragment spans (peer_key conv 3) 2 0 (7 ∷ 8 ∷ []) idle_agent
    ≡ done tt (
        add_rx_item
          (whole spans (peer_key conv 3) (7 ∷ 8 ∷ []))
          (record idle_agent { rx_fragments = key_del (peer_key conv 3) [] }))
fragment_completes_example =
    fragment_completes spans (peer_key conv 3) (7 ∷ 8 ∷ []) Never 0 (7 ∷ 8 ∷ []) idle_agent
      (record { within = omega arith; same = refl }) short_IsSound short_covered

idle-Sound : Sound idle_agent
idle-Sound = record { received = omega arith; waiting = omega arith; scheduled = omega arith }

abbrev to_peer : Agent spans.Interval → Agent spans.Interval
unfolding send_bundle_data add_tx_item
to_peer s = final (send_bundle_data content (some (numeric peer_ip)) none none none s)

two_sent : Reaches spans cbor idle_agent (to_peer (to_peer idle_agent))
unfolding to_peer
two_sent =
    next (next here (on_send content (some (numeric peer_ip)) none none none refl))
      (on_send content (some (numeric peer_ip)) none none none refl)

Reaches-Sound_example :
    Sound (to_peer (to_peer idle_agent))
    × Since (ledger idle_agent) (ledger (to_peer (to_peer idle_agent)))
Reaches-Sound_example = Reaches-Sound spans cbor two_sent idle-Sound

-- An agent with two items in its queue
abbrev busy_agent : Agent spans.Interval
unfolding to_peer
busy_agent = to_peer (to_peer idle_agent)

busy-Sound : Sound busy_agent
unfolding busy_agent to_peer
busy-Sound = (Reaches-Sound spans cbor two_sent idle-Sound).0

idle_drains_example : (t : Agent spans.Interval) × Runs cbor env 2 busy_agent t × (t.tx_queue ≡ [])
unfolding busy_agent to_peer send_bundle_data add_tx_item remain_size transfer_map toy_dumps
idle_drains_example =
    idle_drains cbor env busy_agent.tx_queue busy_agent refl busy-Sound
      (inr room_8, (inr room_8, tt))

abbrev pieces_of : ℕ → List (List ℕ)
pieces_of i =
    (160 ∷ i ∷ 9 ∷ 0 ∷ 3 ∷ 128 ∷ 7 ∷ 1 ∷ [])
    ∷ (160 ∷ i ∷ 9 ∷ 3 ∷ 3 ∷ 2 ∷ 3 ∷ 4 ∷ [])
    ∷ (160 ∷ i ∷ 9 ∷ 6 ∷ 3 ∷ 5 ∷ 6 ∷ 7 ∷ [])
    ∷ []

abbrev queued : ℕ → BundleItem
queued i = record {
  address = numeric peer_ip;
  port = some 4556;
  file = content;
  local_address = none;
  local_port = none;
  transfer_id = some i;
  total_length = some 9;
  sock_opts = [];
}

-- The conversation of what is sent from any address
abbrev conv_out : Conversation
conv_out = record {
  peer_address = some peer_ip;
  peer_port = some 4556;
  local_address = none;
  local_port = none;
}

queued-Sendable : (i : ℕ) → Sendable spans.Interval cbor env config (queued i) (pieces_of i)
unfolding item_conversation addr_from_str item_datagrams send_segments remain_size fragment_loop
    toy_dumps transfer_map transfer_items
queued-Sendable i = record {
  conv = conv_out;
  peer = peer_ip;
  resolved = λ s. refl;
  to_peer = refl;
  unicast = refl;
  no_dtls = refl;
  bound = refl;
  sendable = λ xs. refl;
  cut = refl;
}

queue_sent_example :
    (t : Agent spans.Interval) × Runs cbor env 2 busy_agent t
    × (t.tx_queue ≡ [])
    × (sent_log t.events ≡ sent_log busy_agent.events ++ concat (pieces_of 0 ∷ pieces_of 1 ∷ []))
unfolding busy_agent to_peer send_bundle_data add_tx_item
queue_sent_example =
    queue_sent cbor env (queued 0 ∷ queued 1 ∷ []) (pieces_of 0 ∷ pieces_of 1 ∷ []) busy_agent refl
      busy-Sound (queued-Sendable 0, (queued-Sendable 1, tt))

unsecured_refused_example :
    ledger (final (sock_recvfrom spans cbor deaf 0 content conv secure_agent)) ≡ ledger secure_agent
unsecured_refused_example = unsecured_refused spans cbor deaf 0 conv content secure_agent refl refl

starttls_map_accepted_example :
    (final
      (recv_ext_map spans cbor env (some 0) conv (starttls_with 3 content) secure_agent)).rx_queue
    ≡ dict_set 0 (record (whole spans (peer_key conv 3) content) { transfer_id = some 0 }) []
starttls_map_accepted_example =
    starttls_map_accepted spans cbor env conv 0 3 content secure_agent refl refl refl refl

failed_handshake_ignores_example :
    (let t = final (start_tls deaf conv 0 true idle_agent) in
      recv_run spans cbor deaf 0 conv ((env, 0, content) ∷ (env, 1, 22 ∷ []) ∷ []) t ≡ t)
failed_handshake_ignores_example =
    failed_handshake_ignores spans cbor deaf 0 conv true
      ((env, 0, content) ∷ (env, 1, 22 ∷ []) ∷ []) idle_agent refl

recv_datagram-Ends_example : Ends (recv_datagram spans cbor env (some 0) content conv idle_agent)
recv_datagram-Ends_example =
    recv_datagram-Ends spans cbor env (some 0) content conv idle_agent cbor-IsCbor

pieces_sent : send_segments cbor (some 8) 0 9 content ≡ some (pieces_of 0)
unfolding send_segments remain_size fragment_loop toy_dumps transfer_map transfer_items
pieces_sent = refl

send_segments_fit_example : All (λ seg. length seg ≤ 8) (pieces_of 0)
send_segments_fit_example =
    send_segments_fit cbor 8 0 content (pieces_of 0) cbor-IsSized room_8 pieces_sent

no_room : remain_size cbor 5 0 9 ≡ 0
unfolding remain_size toy_dumps transfer_map transfer_items
no_room = refl

no_room_loops_example : fragment_loop cbor 0 9 content (remain_size cbor 5 0 9) 100 0 ≡ none
no_room_loops_example = no_room_loops cbor 5 0 content 100 0 no_room (omega arith)

-- A socket for any peer, and one for this conversation
abbrev socks : List (Conversation × ℕ)
socks = (record conv { peer_address = none; peer_port = none }, 7) ∷ (conv, 8) ∷ []

exact_found : find_in conv socks ≡ some 8
unfolding find_in
exact_found = refl

pattern_found : find_in conv_out socks ≡ some 7
unfolding find_in find_pattern pat_match
pattern_found = refl
