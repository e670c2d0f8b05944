-- ===== src/Bp/Nmp.antt =====
-- The neighbor messages of src/bp/app/nmp.py: what a HELLO says of a neighbor, and the routes it gives.
-- The octets of a message are the work of cbor2, a parameter.
pub mod First
pub mod Routes
pub mod Unreachable
mod Examples
use dtn_demo_agent.Common.{
  ℕ, Bool, true, false, not, ◌&&◌, ◌||◌, Option, none, some, List, [], ◌∷◌, ◌++◌, ◌+◌, String,
  str_eq, ◌==◌, if◌then◌else◌,
}
use dtn_demo_agent.Common.Exec.{
  Exec, Outcome, done, raised, continue, modify, ◌>>=◌, ◌>>◌, key_error, type_error, value_error,
  index_error, unbound_local_error, decode_error,
}
use dtn_demo_agent.Bp.Bundle.{PrimaryBlock, CanonicalBlock, flag_set, is_fragment}
use dtn_demo_agent.Bp.Container.{Container, Route, deliver, has_action, block_num, same_source}
use dtn_demo_agent.Bp.Agent.{record_action}

-- LinkStatus
abbrev pub heard : ℕ
heard = 1

abbrev pub symmetric : ℕ
symmetric = 2

-- MsgType.HELLO
abbrev pub hello_type : ℕ
hello_type = 1

-- ClType, by number
abbrev pub cl_name : Option ℕ → Option String
cl_name none = none
cl_name (some t) = if t == 2 then some "udpcl" else if t == 1 then some "tcpcl" else none

-- A definition of a convergence layer in a message; no address is the same as an empty list of them.
pub record ClDef : Type 0 where
  pub cl_type : Option ℕ
  pub addr : List (List ℕ)
  pub port : Option ℕ

-- A message that cbor2 read. A list that is missing is the same as an empty one.
pub record Msg : Type 0 where
  pub msg_type : Option ℕ
  pub validity_time : Option ℕ
  pub clset : List ClDef
  pub peerset : List (String × ℕ)

-- `OneHopNeighbor`, in the dict under its node
pub record Neighbor : Type 0 where
  pub valid_until : Option ℕ
  pub link_status : ℕ
  pub tx_routes : List Route

pub record Nmp : Type 0 where
  pub one_hop : List (Option String × Neighbor)

-- Packages and the language's library: `cbor2.loads`, `ipaddress.ip_address` of octets, and the dict of an
-- address and a port, which is the `raw_config` of a route.
pub record Packages : Type 0 where
  pub loads : List ℕ → Option Msg
  pub ip_address : List ℕ → Option String
  pub as_config : String → ℕ → ℕ

abbrev pub node_get : Option String → List (Option String × Neighbor) → Option Neighbor
node_get k [] = none
node_get k ((j, v) ∷ m) = if same_source j k then some v else node_get k m

-- A change of the neighbor under a key
abbrev pub node_update :
    Option String
    → (Neighbor → Neighbor)
    → List (Option String × Neighbor)
    → List (Option String × Neighbor)
node_update k f [] = []
node_update k f ((j, v) ∷ m) = if same_source j k then (j, f v) ∷ m else (j, v) ∷ node_update k f m

unfoldable pub with_neighbor : Option String → (Neighbor → Neighbor) → Nmp → Nmp
with_neighbor k f s = record { one_hop = node_update k f s.one_hop }

-- The neighbor of a node, made if it is not there
unfoldable pub heard_of : Option String → Nmp → Nmp
heard_of k s = elim (node_get k s.one_hop) [
  | some v ↦ s
  | none ↦ record {
    one_hop = s.one_hop ++ (k, record { valid_until = none; link_status = 0; tx_routes = [] }) ∷ [];
  }
]

-- A HELLO came in: at least that is known.
abbrev pub is_heard : Option ℕ → ℕ → Neighbor → Neighbor
is_heard validity_time dtntime v = record v {
  link_status = heard;
  valid_until = elim validity_time [
    | none ↦ v.valid_until
    | some ms ↦ if dtntime == 0 then v.valid_until else some (dtntime + ms)
  ];
}

abbrev pub add_route : Route → Neighbor → Neighbor
add_route r v = record v { tx_routes = v.tx_routes ++ r ∷ [] }

-- The route of a definition. Of a type that is not known, `route` keeps what it was, if it was anything.
-- A node that is not there is the empty text in the route.
unfoldable pub def_route : Packages → Option String → Option Route → ClDef → Exec Nmp Route
def_route packages node_id route cldef s = elim (cl_name cldef.cl_type) [
  | none ↦ elim route [ none ↦ raised unbound_local_error s | some r ↦ done r s ]
  | some name ↦ elim cldef.addr [
    | [] ↦ raised index_error s
    | a ∷ rest ↦ elim (packages.ip_address a) [
      | none ↦ raised value_error s
      | some address ↦
          let port : ℕ = elim cldef.port [ none ↦ 4556 | some p ↦ p ] in
          done
            (record {
              next_nodeid = elim node_id [ none ↦ "" | some n ↦ n ];
              cl_type = name;
              mtu = none;
              raw_config = packages.as_config address port;
            })
            s
    ]
  ]
]

-- The loop over the convergence layers
unfoldable pub add_routes :
    Packages → Option String → Option Route → List ClDef → Exec Nmp (Unit {0})
add_routes packages node_id route [] s = done tt s
add_routes packages node_id route (cldef ∷ clset) s =
    continue (def_route packages node_id route cldef s)
      (λ r t. add_routes packages node_id (some r) clset (with_neighbor node_id (add_route r) t))

-- The loop over the peers of the neighbor
unfoldable pub see_peers : String → List (String × ℕ) → Neighbor → Neighbor
see_peers own_id [] v = v
see_peers own_id ((peer, status) ∷ peerset) v = see_peers own_id peerset (
    if str_eq own_id peer && (status == heard || status == symmetric)
    then record v { link_status = symmetric }
    else v)

-- A HELLO
unfoldable pub recv_hello : Packages → String → Option String → ℕ → Msg → Exec Nmp (Unit {0})
recv_hello packages own_id node_id dtntime msg =
    modify (heard_of node_id)
    >> modify (with_neighbor node_id (is_heard msg.validity_time dtntime))
    >> add_routes packages node_id none msg.clset
    >> modify (with_neighbor node_id (see_peers own_id msg.peerset))

-- `_recv_for` of src/bp/app/base.py
unfoldable pub recv_for : Container → String → Bool
recv_for c dest_eid =
    has_action deliver c.actions
    && same_source c.bundle.primary.destination (some dest_eid)
    && not (flag_set c.bundle.primary.bundle_flags is_fragment)

-- A message
unfoldable pub recv_msg : Packages → String → PrimaryBlock → Msg → Exec Nmp (Unit {0})
recv_msg packages own_id pri msg s = elim msg.msg_type [
  | none ↦ raised key_error s
  | some t ↦
      if t == hello_type then recv_hello packages own_id pri.source pri.dtntime msg s else done tt s
]

-- The message in the block data
unfoldable pub recv_btsd : Packages → String → PrimaryBlock → Option (List ℕ) → Exec Nmp (Unit {0})
recv_btsd packages own_id pri none s = raised type_error s
recv_btsd packages own_id pri (some octets) s = elim (packages.loads octets) [
  | none ↦ raised decode_error s
  | some msg ↦ recv_msg packages own_id pri msg s
]

abbrev pub with_ctr : Container → Outcome Nmp (Unit {0}) → Outcome (Container × Nmp) Bool
with_ctr c (done u s) = done true (c, s)
with_ctr c (raised e s) = raised e (c, s)

-- `_recv_bundle`, a step of the chain
unfoldable pub nmp_recv_bundle : Packages → String → Exec (Container × Nmp) Bool
nmp_recv_bundle packages own_id (c, s) =
    if not (recv_for c "dtn:~neighbor") then done false (c, s) else elim (block_num 1 c) [
      | raised e d ↦ raised e (c, s)
      | done blk d ↦ with_ctr c (recv_btsd packages own_id c.bundle.primary blk.btsd s)
    ]

-- `_rx_route`
unfoldable pub nmp_rx_route : ℕ → Exec (Container × Nmp) Bool
nmp_rx_route now (c, s) =
    if same_source c.bundle.primary.destination (some "dtn:~neighbor")
    then done false (record_action deliver now none c, s)
    else done false (c, s)

-- `_tx_route`
unfoldable pub nmp_tx_route : ℕ → Exec (Container × Nmp) Bool
nmp_tx_route now (c, s) = elim (node_get c.bundle.primary.destination s.one_hop) [
  | none ↦ done false (record_action deliver now none c, s)
  | some v ↦ elim v.tx_routes [
    | [] ↦ raised index_error (c, s)
    | r ∷ rs ↦ done false (record_action deliver now none (record c { route = some r }), s)
  ]
]
