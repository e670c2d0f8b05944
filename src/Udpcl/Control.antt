-- ===== src/Udpcl/Control.antt =====
-- The calls of src/udpcl/agent.py that listen, and that poll a peer.
use dtn_demo_agent.Common.{
  ℕ, Bool, false, Option, none, some, List, [], ◌∷◌, ◌++◌, is_some, remove, if◌then◌else◌,
}
use dtn_demo_agent.Common.Exec.{
  Exec, done, raised, pure, get, modify, ◌>>=◌, ◌>>◌, dbus_error, value_error,
}
use dtn_demo_agent.Udpcl.Value.{
  uint, tstr, dict, entry, end, Cbor2, key_value, sender_listen, sender_nodeid,
}
use dtn_demo_agent.Udpcl.Conversation.{
  Ip, Address, numeric, name, Conversation, conv_get, conv_set, conv_del,
}
use dtn_demo_agent.Udpcl.State.{Config, Env, BundleItem, Agent, emit, joined_group, socket_closed}
use dtn_demo_agent.Udpcl.Queue.{add_tx_item, message}
use dtn_demo_agent.Udpcl.Starttls.{make_local_socket}

-- `PollConfig`
pub record PollConfig : Type 0 where
  pub address : Address
  pub port : ℕ
  pub local_address : Option Address
  pub local_port : Option ℕ
  pub interval_ms : ℕ

abbrev pub listen_conv : Ip → ℕ → Conversation
listen_conv ip port = record {
  peer_address = none;
  peer_port = none;
  local_address = some ip;
  local_port = some port;
}

-- The message that `_poll` sends
unfoldable pub poll_item : Cbor2 → PollConfig → Config → BundleItem
poll_item cbor item config =
    record (message item.address (some item.port)
      (cbor.dumps (
        dict (
          entry (key_value sender_listen) (uint item.interval_ms)
            (entry (key_value sender_nodeid) (tstr config.node_id) end))))
      []) { local_address = item.local_address; local_port = item.local_port }

module _ {I : Type 0} where
  abbrev pub join_groups : ℕ → List Address → Agent I → Agent I
  join_groups sock [] s = s
  join_groups sock (a ∷ groups) s = join_groups sock groups (emit (joined_group sock a) s)

  abbrev pub bind_listener : Conversation → ℕ → Agent I → Agent I
  bind_listener conv sock s = record s {
    bindsocks = conv_set conv sock s.bindsocks;
    listen_plain = s.listen_plain ++ sock ∷ [];
  }

  -- `ipaddress.ip_address` takes no names.
  unfoldable pub listen : Env → Address → ℕ → List Address → Exec (Agent I) (Unit {0})
  unfolding make_local_socket
  listen env (name t) port multicast_member s = raised value_error s
  listen env (numeric ip) port multicast_member s =
      if is_some (conv_get (listen_conv ip port) s.bindsocks)
      then raised dbus_error s
      else (do
        sock ← make_local_socket env (listen_conv ip port)
        modify (join_groups sock multicast_member)
        modify (bind_listener (listen_conv ip port) sock))
          s

  unfoldable pub listen_stop : Address → ℕ → Exec (Agent I) (Unit {0})
  listen_stop (name t) port s = raised value_error s
  listen_stop (numeric ip) port s = elim (conv_get (listen_conv ip port) s.bindsocks) [
    | none ↦ raised dbus_error s
    | some sock ↦ done tt (
        emit (socket_closed sock) (record s {
          bindsocks = conv_del (listen_conv ip port) s.bindsocks;
          listen_plain = remove sock s.listen_plain;
        }))
  ]

  -- `_poll`: whether the timer goes on.
  unfoldable pub poll : Cbor2 → PollConfig → Bool → Exec (Agent I) Bool
  unfolding add_tx_item poll_item
  poll cbor item repeat = do
    s ← get
    _ ← add_tx_item (poll_item cbor item s.config) false
    pure repeat
