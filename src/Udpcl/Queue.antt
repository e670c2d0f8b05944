-- ===== src/Udpcl/Queue.antt =====
-- The queues of src/udpcl/agent.py: bundles that were received, and items to send.
use dtn_demo_agent.Common.{
  ℕ, ◌+◌, Bool, true, false, Option, none, some, List, [], ◌∷◌, ◌++◌, map, ◌==◌, length, dict_get,
  dict_set, dict_pop, if◌then◌else◌,
}
use dtn_demo_agent.Common.Exec.{Exec, done, raised, key_error, runtime_error}
use dtn_demo_agent.Udpcl.Conversation.{Ip, Address, numeric, name, is_unspecified, has_text}
use dtn_demo_agent.Udpcl.State.{Env, BundleItem, Metadata, Agent, emit, recv_bundle_finished}

-- A text, or a port, that is there and not empty or 0.
abbrev pub given_text : Option Address → Option Address
given_text none = none
given_text (some a) = if has_text a then some a else none

abbrev pub given_port : Option ℕ → Option ℕ
given_port none = none
given_port (some p) = if p == 0 then none else some p

abbrev pub first_of {ℓ} : {A : Type ℓ} → Option A → Option A → Option A
first_of none y = y
first_of (some x) y = some x

-- The item of a message that is no bundle
abbrev pub message : Address → Option ℕ → List ℕ → List (ℕ × ℕ × ℕ) → BundleItem
message address port octets opts = record {
  address = address;
  port = port;
  file = octets;
  local_address = none;
  local_port = none;
  transfer_id = none;
  total_length = none;
  sock_opts = opts;
}

-- The item of a bundle that was received
abbrev pub received_item : Address → Option ℕ → List ℕ → ℕ → BundleItem
received_item address port octets total = record (message address port octets []) {
  total_length = some total;
}

abbrev pub metadata : BundleItem → Metadata
metadata item = record {
  address = item.address;
  port = item.port;
  local_address = given_text item.local_address;
  local_port = given_port item.local_port;
}

module _ {I : Type 0} where
  -- The socket of `getaddrinfo` resolves the text of an address object to that object.
  unfoldable pub addr_from_str : Env → Option Address → Exec (Agent I) (Option Ip)
  addr_from_str env none s = done none s
  addr_from_str env (some (numeric a)) s = done (if is_unspecified a then none else some a) s
  addr_from_str env (some (name t)) s = elim (env.getaddrinfo t) [
    | none ↦ raised runtime_error s
    | some a ↦ done (if is_unspecified a then none else some a) s
  ]

  abbrev with_rx_id : BundleItem → Agent I → ℕ × Agent I
  with_rx_id item s = elim item.transfer_id [
    | none ↦ (s.rx_id, record s { rx_id = s.rx_id + 1 })
    | some i ↦ (i, s)
  ]

  unfoldable pub add_rx_item : BundleItem → Agent I → Agent I
  add_rx_item item s =
      let (i, t) = with_rx_id item s in
      emit (recv_bundle_finished i item.total_length (metadata item))
        (record t { rx_queue = dict_set i (record item { transfer_id = some i }) t.rx_queue })

  unfoldable pub recv_bundle_get_queue : Agent I → List ℕ
  recv_bundle_get_queue s = map (λ e. e.0) s.rx_queue

  -- `recv_bundle_pop_file` writes the same octets to a file.
  unfoldable pub recv_bundle_pop_data : ℕ → Exec (Agent I) (List ℕ)
  recv_bundle_pop_data bid s = elim (dict_get bid s.rx_queue) [
    | none ↦ raised key_error s
    | some item ↦ done item.file (record s { rx_queue = dict_pop bid s.rx_queue })
  ]

  -- `_process_tx_queue_trigger`, of a queue that is not empty
  abbrev pub process_tx_queue_trigger : Agent I → Agent I
  process_tx_queue_trigger s = record s { idle = s.idle + 1 }

  abbrev with_tx_id : Bool → BundleItem → Agent I → Option ℕ × Agent I
  with_tx_id false item s = (item.transfer_id, s)
  with_tx_id true item s = elim item.transfer_id [
    | none ↦ (some s.tx_id, record s { tx_id = s.tx_id + 1 })
    | some i ↦ (some i, s)
  ]

  unfoldable pub add_tx_item : BundleItem → Bool → Exec (Agent I) (Option ℕ)
  add_tx_item item is_transfer s =
      let (i, t) = with_tx_id is_transfer item s in
      done i (
        process_tx_queue_trigger (record t {
          tx_queue =
              t.tx_queue
              ++ (record item { transfer_id = i; total_length = some (length item.file) } ∷ []);
        }))

  -- `send_bundle_data`, of the entries of `tx_params`
  unfoldable pub send_bundle_data :
      List ℕ → Option Address → Option ℕ → Option Address → Option ℕ → Exec (Agent I) (Option ℕ)
  unfolding add_tx_item
  send_bundle_data octets none port local_address local_port s = raised key_error s
  send_bundle_data octets (some address) port local_address local_port s =
      add_tx_item
        (record {
          address = address;
          port = first_of port (some 4556);
          file = octets;
          local_address = local_address;
          local_port = local_port;
          transfer_id = none;
          total_length = none;
          sock_opts = [];
        })
        true s
