-- ===== src/Tcpcl/Session/Examples.antt =====
-- Concrete sessions of src/tcpcl/session.py, and runs of them.
use dtn_demo_agent.Common.{
  ℕ, ◌≡◌, ◌≤◌, ◌⊎◌, refl, true, false, Option, some, none, List, [], ◌∷◌, ◌++◌, str_eq, length,
  arith, min,
}
use dtn_demo_agent.Common.{dict_get}
use dtn_demo_agent.Common.Exec.{done, raised, final, runtime_error}
use dtn_demo_agent.Tcpcl.Packet.{Codec, TransferSegment, partial, sess_term}
use dtn_demo_agent.Tcpcl.Session.State.{
  Session, Config, Connection, Messenger, Handler, RxItem, Env, Cert, established, matched, absent,
  mismatched, closed, recv_bundle_started,
}
use dtn_demo_agent.Tcpcl.Session.Transmit.{add_queue_item, new_item, process_queue}
use dtn_demo_agent.Tcpcl.Session.Negotiate.{
  Identity, authenticate, cert_identity, peer_dnsid, is_refused, match_id, octets_eq,
}
use dtn_demo_agent.Tcpcl.Session.Connection.{is_secure, close}
use dtn_demo_agent.Tcpcl.Session.Dispatch.{recv_message, tx_proxy, tx_fill, finish_contact}
use dtn_demo_agent.Tcpcl.Session.Transfer.{IsRun, sent, Returns}
use dtn_demo_agent.Tcpcl.Session.Run.{IsQueued, IsDelivered, queue_rounds, queue_sends_run}
use dtn_demo_agent.Tcpcl.Session.Receiver.{CanReceive, grown, recv_segments}
use dtn_demo_agent.Tcpcl.Session.Delivery.{
  IsComplete, fresh, run_events, recv_run_delivers, transfer_end_to_end,
}
use dtn_demo_agent.Tcpcl.Session.Streams.{SendLaw, taken, unsent, tx_proxy_stream}
use dtn_demo_agent.Tcpcl.Session.Policy.{
  Names, Obeys, authenticate_node, authenticate_host_active, authenticate_host_passive,
  finish_contact-Obeys,
}
use dtn_demo_agent.Tcpcl.Session.Queue.Keeps.{IsSound}
use dtn_demo_agent.Tcpcl.Session.Queue.Steps.{Step, here, later, Reaches-IsSound}
use dtn_demo_agent.Tcpcl.Session.Faults.{
  IsBlocked, IsClosed, dropped, sess_term_outside, empty_bundle_blocks, private_extensions_raise,
  sess_term_closes,
}

-- Every packet is one octet here, and none is read back.
abbrev codec : Codec
codec = record { encode = λ p. 0 ∷ []; decode = λ b xs. partial }

abbrev config : Config
config = record {
  private_extensions = false;
  tls_enable = true;
  require_tls = some true;
  require_host_authn = true;
  require_node_authn = true;
  node_id = b'd' ∷ b't' ∷ b'n' ∷ [];
  keepalive_time = 0;
  idle_time = 0;
  segment_size_mru = 100;
  segment_size_tx_initial = 2;
  modulate_target_ack_time = none;
}

abbrev conn : Connection
conn = record {
  as_passive = false;
  peer_name = "node";
  s_notls = true;
  s_tls = false;
  avail_rx_notls_id = true;
  avail_tx_notls_id = false;
  avail_tx_notls_pend = false;
  avail_rx_tls_id = false;
  avail_tx_tls_id = false;
  avail_tx_tls_pend = false;
  tx_buf = [];
  on_close = true;
}

abbrev msgr : Messenger
msgr = record {
  state = established;
  do_send_ack_inter = true;
  do_send_ack_final = true;
  keepalive_time = 0;
  idle_time = 0;
  send_segment_size_min = 1;
  send_segment_size = 2;
  segment_tx_times = [];
  segment_last_ack_len = some 0;
  keepalive_timer = none;
  idle_timer = none;
  conhead_peer = some 1;
  conhead_this = some 1;
  in_conn = true;
  sessinit_peer = none;
  sessinit_this = none;
  sess_parameters = none;
  in_sess = true;
  in_sess_func = true;
  in_term = false;
  in_term_func = true;
  tls_attempt = true;
  rx_buf = [];
  tx_buf = [];
}

abbrev hdl : Handler
hdl = record {
  on_bus = true;
  tx_next_id = 1;
  tx_pend_start = [];
  tx_pend_ack = [];
  tx_map = [];
  tx_items = λ n. new_item [];
  tx_tmp = none;
  tx_length = none;
  process_queue_pend = false;
  rx_tmp = none;
  rx_bundles = [];
  rx_map = [];
  rx_objects = 0;
}

abbrev ready : Session
ready = record { config = config; conn = conn; msgr = msgr; hdl = hdl; events = [] }

abbrev file : List ℕ
file = 7 ∷ 8 ∷ 9 ∷ []

-- Bundle 1 waits.
abbrev queued : Session
queued = record ready {
  hdl = record hdl { tx_pend_start = 1 ∷ []; tx_map = 1 ∷ []; tx_items = λ n. new_item file };
}

queued-IsQueued : IsQueued 2 1 file [] queued
queued-IsQueued = record {
  can = record {
    in_sess = refl;
    open_socket = refl;
    positive = omega arith;
    size = refl;
    final_ack = refl;
    no_test = refl;
  };
  idle = refl;
  first = refl;
  item_file = refl;
  not_empty = omega arith;
}

ready-CanReceive : CanReceive ready
ready-CanReceive = record {
  in_sess = refl;
  open_socket = refl;
  inter_ack = refl;
  final_ack = refl;
  no_term = refl;
}

abbrev first_segment : TransferSegment
first_segment = record { flags = 2; transfer_id = 1; ext_items = []; content = 7 ∷ 8 ∷ [] }

abbrev last_segment : TransferSegment
last_segment = record { flags = 1; transfer_id = 1; ext_items = []; content = 9 ∷ [] }

queue_sends_run_example :
    (k : ℕ) × (k ≤ 3) × Returns (queue_rounds codec 0 k queued) (IsDelivered 2 1 file queued)
queue_sends_run_example = queue_sends_run codec 0 1 file [] queued queued-IsQueued

segments-IsRun : IsRun 1 2 0 file (first_segment ∷ last_segment ∷ [])
segments-IsRun = (
  record {
    same_id = refl;
    some_octets = omega arith;
    within = omega arith;
    starts = refl;
    ends = refl;
  },
  refl,
  (
    record {
      same_id = refl;
      some_octets = omega arith;
      within = omega arith;
      starts = refl;
      ends = refl;
    },
    refl,
  ),
)

recv_run_delivers_example :
    Returns (recv_segments codec (first_segment ∷ last_segment ∷ []) ready) (
      IsComplete
        (grown (fresh 1 ready) file)
        ready
        (run_events 1 0 (first_segment ∷ last_segment ∷ []) (recv_bundle_started 1 none ∷ [])))
recv_run_delivers_example =
    recv_run_delivers codec 1 2 file (first_segment ∷ last_segment ∷ []) ready ready-CanReceive
      segments-IsRun

transfer_end_to_end_example :
    (k : ℕ) × (k ≤ 3)
    × Returns (queue_rounds codec 0 k queued) (λ t.
      (xs : List TransferSegment) × (sent t.events ≡ xs)
      × Returns
          (recv_segments codec xs ready)
          (λ u. (item : RxItem) × (dict_get 1 u.hdl.rx_map ≡ some item) × (item.file ≡ file)))
transfer_end_to_end_example =
    transfer_end_to_end codec 0 1 file [] queued ready queued-IsQueued ready-CanReceive

abbrev buffered : Session
buffered = record ready { msgr = record msgr { tx_buf = file } }

-- The socket takes two octets at most.
abbrev two_octets : List ℕ → Option ℕ
two_octets xs = some (min 2 (length xs))

two_octets_law : SendLaw two_octets
two_octets_law xs n e = ground arith

tx_proxy_stream_example :
    taken two_octets (tx_fill buffered).1.conn.tx_buf ++ unsent (tx_proxy two_octets buffered).1
    ≡ unsent buffered
tx_proxy_stream_example = tx_proxy_stream two_octets buffered two_octets_law

abbrev cert : Cert
cert = record {
  ip_addresses = none;
  dns_names = some ("node" ∷ []);
  uris = some ((b'd' ∷ b't' ∷ b'n' ∷ []) ∷ []);
}

abbrev env : Env
env = record {
  now = 5;
  next_seg_size = none;
  ssl_context = true;
  do_handshake = true;
  peer_addr = "::1";
  peer_cert = some cert;
  sock_send = two_octets;
}

abbrev secured : Session
secured = record ready { conn = record conn { s_tls = true } }

abbrev found : Identity
found = record {
  nodeid = matched (b'd' ∷ b't' ∷ b'n' ∷ []);
  dnsid = matched "node";
  ipaddrid = absent;
}

secured_passes : authenticate env (b'd' ∷ b't' ∷ b'n' ∷ []) secured ≡ done found secured
unfolding authenticate is_secure cert_identity is_refused match_id peer_dnsid
secured_passes = refl

secured_dnsid : peer_dnsid env secured ≡ some "node"
unfolding peer_dnsid
secured_dnsid = refl

authenticate_node_example :
    (found.nodeid ≡ matched (b'd' ∷ b't' ∷ b'n' ∷ []))
    × Names octets_eq cert.uris (b'd' ∷ b't' ∷ b'n' ∷ [])
authenticate_node_example =
    authenticate_node env (b'd' ∷ b't' ∷ b'n' ∷ []) secured secured found cert refl refl refl
      secured_passes

authenticate_host_active_example :
    Names str_eq cert.dns_names "node" ⊎ Names str_eq cert.ip_addresses "::1"
authenticate_host_active_example =
    authenticate_host_active env (b'd' ∷ b't' ∷ b'n' ∷ []) "node" secured secured found cert refl
      refl refl secured_dnsid refl secured_passes

abbrev other_cert : Cert
other_cert = record { ip_addresses = some []; dns_names = some ("other" ∷ []); uris = some [] }

abbrev passive : Session
passive = record secured {
  conn = record conn { s_tls = true; as_passive = true };
  config = record config { require_node_authn = false };
}

authenticate_host_passive_example :
    authenticate (record env { peer_cert = some other_cert }) (b'd' ∷ []) passive
    ≡ done (record { nodeid = absent; dnsid = mismatched; ipaddrid = absent }) passive
authenticate_host_passive_example =
    authenticate_host_passive (record env { peer_cert = some other_cert }) (b'd' ∷ []) "other" []
      passive refl refl refl refl refl

-- A passive side, before its peer's SESS_INIT, that the peer offers no TLS
abbrev plain : Session
plain = record passive {
  conn = record conn { as_passive = true };
  msgr = record msgr { tls_attempt = false };
}

plain_ends : finish_contact codec env plain ≡ done tt (close plain)
unfolding finish_contact close
plain_ends = refl

finish_contact-Obeys_example : Obeys true (close plain)
finish_contact-Obeys_example =
    finish_contact-Obeys codec env true plain (close plain) refl plain_ends

abbrev outside : Session
outside = record ready { msgr = record msgr { in_sess = false } }

sess_term_outside_example :
    recv_message codec env (sess_term 0 3) outside ≡ raised runtime_error outside
sess_term_outside_example = sess_term_outside codec env 0 3 outside refl refl

abbrev queued_empty : Session
queued_empty = record ready { hdl = record hdl { tx_pend_start = 1 ∷ 2 ∷ []; tx_map = 1 ∷ 2 ∷ [] } }

empty_bundle_blocks_example :
    Returns (queue_rounds codec 0 4 queued_empty) (IsBlocked 1 (2 ∷ []) [])
empty_bundle_blocks_example =
    empty_bundle_blocks codec 0 3 1 (2 ∷ []) queued_empty
      (record { in_sess = refl; idle = refl; first = refl; empty = refl })

-- One octet of three is sent, in the test mode.
abbrev halfway : Session
halfway = record ready {
  config = record config { private_extensions = true };
  hdl = record hdl {
    tx_tmp = some 1;
    tx_length = some 1;
    tx_map = 1 ∷ [];
    tx_items = λ n. record { total_length = some 3; ack_length = 0; file = file; position = 1 };
  };
}

private_extensions_raise_example :
    (t : Session) × (process_queue codec 0 halfway ≡ raised runtime_error t) × (t.events ≡ [])
private_extensions_raise_example = private_extensions_raise codec 0 1 0 3 halfway refl (record {
  in_sess = refl;
  current = refl;
  sent_length = refl;
  item_length = refl;
  more = omega arith;
})

abbrev ending_session : Session
ending_session = record queued { msgr = record msgr { in_term = true } }

sess_term_closes_example :
    Returns
      (recv_message codec env (sess_term 0 0) ending_session)
      (IsClosed (closed ∷ dropped (λ n. new_item file) (1 ∷ []) []))
sess_term_closes_example = sess_term_closes codec env 0 0 ending_session (record {
  in_sess = refl;
  in_term = refl;
  no_rx_buf = refl;
  no_tx_buf = refl;
  no_rx = refl;
  no_tx = refl;
  no_ack = refl;
  open_socket = refl;
  callback = refl;
})

ready-IsSound : IsSound ready
ready-IsSound = record {
  final_ack = refl;
  known = λ k. omega arith;
  once = λ k. omega arith;
  fresh = λ k le. refl;
}

abbrev added : Session
added = final (add_queue_item file ready)

Reaches-IsSound_example : IsSound (final (process_queue codec 0 added))
unfolding add_queue_item
Reaches-IsSound_example =
    Reaches-IsSound {codec = codec}
      (later (later (here ready) (Step.queued file ready)) (Step.processed 0 added)) ready-IsSound
