-- ===== src/Bp/Cla.antt =====
-- src/bp/cla.py: how the agent uses the convergence layers. D-Bus proxies are numbers.
pub mod Acts
pub mod Waiting
pub mod Resent
mod Examples
use dtn_demo_agent.Common.{
  ℕ, Bool, true, false, not, ◌&&◌, Option, none, some, List, [], ◌∷◌, ◌++◌, String, str_eq, map,
  ◌==◌, contains, is_none, is_some, is_empty, length, take, dict_get, dict_set, dict_pop,
  if◌then◌else◌,
}
use dtn_demo_agent.Common.Exec.{
  Exec, Outcome, done, raised, throw, pure, get, modify, when, ◌>>=◌, ◌>>◌, key_error, type_error,
}

-- Dicts under texts
module _ {V : Type 0} where
  abbrev pub text_get : String → List (String × V) → Option V
  text_get k [] = none
  text_get k ((j, v) ∷ m) = if str_eq j k then some v else text_get k m

  abbrev pub text_set : String → V → List (String × V) → List (String × V)
  text_set k v [] = (k, v) ∷ []
  text_set k v ((j, w) ∷ m) = if str_eq j k then (j, v) ∷ m else (j, w) ∷ text_set k v m

  abbrev pub text_del : String → List (String × V) → List (String × V)
  text_del k [] = []
  text_del k ((j, w) ∷ m) = if str_eq j k then m else (j, w) ∷ text_del k m

-- `AbstractAdaptor`: the service, and the proxy of it that is there while it is bound.
pub record Binding : Type 0 where
  pub agent_obj : Option ℕ
  pub signals : List String

-- The signals that `_do_bind` connects to
abbrev pub udpcl_signals : List String
udpcl_signals = "polling_received" ∷ "recv_bundle_finished" ∷ []

abbrev pub tcpcl_signals : List String
tcpcl_signals = "connection_opened" ∷ "connection_closed" ∷ []

-- `bind`: a service that is bound already is not bound again.
unfoldable pub bind : List String → ℕ → Binding → Binding
bind names proxy b = elim b.agent_obj [
  | some p ↦ b
  | none ↦ record { agent_obj = some proxy; signals = b.signals ++ names }
]

unfoldable pub unbind : Binding → Binding
unbind b = record b { agent_obj = none }

-- `TAG_ENC`
abbrev pub tag_enc : List ℕ
tag_enc = 217 ∷ 217 ∷ 247 ∷ []

abbrev pub same_octets : List ℕ → List ℕ → Bool
same_octets [] [] = true
same_octets (x ∷ xs) (y ∷ ys) = x == y && same_octets xs ys
same_octets _ _ = false

-- What the sender of `UdpclAdaptor` gives to `send_bundle_data`
unfoldable pub udpcl_tagged : Bool → List ℕ → List ℕ
udpcl_tagged do_tag octets =
    if do_tag && not (same_octets (take (length tag_enc) octets) tag_enc)
    then tag_enc ++ octets
    else octets

-- `TcpclConnection`
pub record Connection : Type 0 where
  pub nodeid : Option String

-- What the adaptor asks of the convergence layer: to send over a connection, to connect, and to take a
-- bundle that was received.
pub data Call : Type 0 where
  send_bundle_data : ℕ → List ℕ → Call
  connect : String → ℕ → Call
  pop_data : ℕ → ℕ → Call

-- `TcpclAdaptor`. Connections are known by their object path, a number here. `state_signals` are those
-- whose `session_state_changed` is connected to `handle_state_change`.
pub record Tcpcl : Type 0 where
  pub cl_conn_path : List (ℕ × Connection)
  pub cl_conn_nodeid : List (String × ℕ)
  pub sess_wait : List (String × List (List ℕ))
  pub state_signals : List ℕ
  pub calls : List Call

abbrev pub call : Call → Tcpcl → Tcpcl
call c s = record s { calls = s.calls ++ c ∷ [] }

-- The bundles that wait for a session with a node
unfoldable pub pending : String → Tcpcl → List (List ℕ)
pending n s = elim (text_get n s.sess_wait) [ none ↦ [] | some l ↦ l ]

abbrev pub send_each : ℕ → List (List ℕ) → Tcpcl → Tcpcl
send_each path [] s = s
send_each path (octets ∷ rest) s = send_each path rest (call (send_bundle_data path octets) s)

-- `_conn_ready`
unfoldable pub conn_ready : String → Exec Tcpcl (Unit {0})
unfolding pending
conn_ready n s = if is_empty (pending n s) then done tt s else elim (text_get n s.cl_conn_nodeid) [
  | none ↦ raised key_error s
  | some path ↦ done tt (send_each path (pending n s) s)
]

-- `handle_state_change`: of a state that is `established`, the node of the peer.
unfoldable pub handle_state_change : ℕ → Option String → Exec Tcpcl (Unit {0})
unfolding conn_ready
handle_state_change path none s = done tt s
handle_state_change path (some n) s = elim (dict_get path s.cl_conn_path) [
  | none ↦ raised key_error s
  | some conn ↦ conn_ready n (record s {
    cl_conn_path = dict_set path (record { nodeid = some n }) s.cl_conn_path;
    cl_conn_nodeid = text_set n path s.cl_conn_nodeid;
  })
]

-- `_conn_attach`, of a connection that may be established already
unfoldable pub conn_attach : ℕ → Option String → Exec Tcpcl (Unit {0})
unfolding handle_state_change
conn_attach path established s = handle_state_change path established (record s {
  cl_conn_path = dict_set path (record { nodeid = none }) s.cl_conn_path;
  state_signals = s.state_signals ++ path ∷ [];
})

-- A signal `session_state_changed`, which reaches the adaptor if it is connected.
unfoldable pub on_session_state : ℕ → Option String → Exec Tcpcl (Unit {0})
unfolding handle_state_change
on_session_state path established s =
    if contains path s.state_signals then handle_state_change path established s else done tt s

abbrev pub has_node : Option String → Option String
has_node none = none
has_node (some n) = if str_eq n "" then none else some n

-- `_conn_detach`
unfoldable pub conn_detach : ℕ → Exec Tcpcl (Unit {0})
conn_detach path s = elim (dict_get path s.cl_conn_path) [
  | none ↦ raised key_error s
  | some conn ↦
      let t = record s { cl_conn_path = dict_pop path s.cl_conn_path } in
      elim (has_node conn.nodeid) [
        | none ↦ done tt t
        | some n ↦
            if is_some (text_get n t.cl_conn_nodeid)
            then done tt (record t { cl_conn_nodeid = text_del n t.cl_conn_nodeid })
            else raised key_error t
      ]
]

-- The sender that `send_bundle_func` makes for a node
unfoldable pub tcpcl_sender : String → String → ℕ → List ℕ → Tcpcl → Tcpcl
unfolding pending
tcpcl_sender next_nodeid address port octets s = elim (text_get next_nodeid s.cl_conn_nodeid) [
  | some path ↦ call (send_bundle_data path octets) s
  | none ↦ call (connect address port) (record s {
    sess_wait = text_set next_nodeid (pending next_nodeid s ++ octets ∷ []) s.sess_wait;
  })
]

-- `handle_recv_bundle_finish`: the callback of the agent takes the metadata besides, which is not given.
unfoldable pub tcpcl_recv_finish : ℕ → ℕ → Bool → Exec Tcpcl (Unit {0})
tcpcl_recv_finish path bid success s =
    if success then raised type_error (call (pop_data path bid) s) else done tt s
