-- ===== src/Bp/Nmp/Examples.antt =====
-- Two nodes that hear of each other by src/bp/app/nmp.py.
use dtn_demo_agent.Common.{
  ℕ, ◌≡◌, refl, Bool, true, false, Option, none, some, List, [], ◌∷◌, String, ◌==◌, if◌then◌else◌,
}
use dtn_demo_agent.Common.Exec.{Exec, done, final}
use dtn_demo_agent.Bp.Bundle.{crc_none, no_payload, ensure_btsd}
use dtn_demo_agent.Bp.Container.{Container, Route, new_container, deliver, block_num}
use dtn_demo_agent.Bp.Agent.{record_action}
use dtn_demo_agent.Bp.Nmp.{
  ClDef, Msg, Nmp, Packages, nmp_recv_bundle, nmp_tx_route, recv_for, recv_btsd, recv_msg,
  recv_hello, add_routes, def_route, see_peers, heard_of, with_neighbor,
}
use dtn_demo_agent.Bp.Crc.{Crc}
use dtn_demo_agent.Bp.Agent.Send.{
  Layers, Job, TxRouteItem, compiled, chain_step, do_tx_step, send_bundle,
}
use dtn_demo_agent.Bp.Agent.Send.Stages.{HasUnique, Unrouted}
use dtn_demo_agent.Bp.Nmp.Unreachable.{IsBare, Refused, bare_hello-Refused}
use dtn_demo_agent.Bp.Nmp.Routes.{recv_all, nmp_tx_route-recv_all}

-- The octet 1 stands for a HELLO over UDP from address 10.0.0.2, 2 for one over TCP from 10.0.0.9, and 3 for
-- one with no convergence layers.
abbrev starts : ℕ → List ℕ → Bool
starts n [] = false
starts n (x ∷ xs) = x == n

abbrev hello_with : List ClDef → List (String × ℕ) → Msg
hello_with clset peerset = record {
  msg_type = some 1;
  validity_time = some 20;
  clset = clset;
  peerset = peerset;
}

abbrev hello : List ℕ → Option Msg
hello octets =
    if starts 1 octets
    then some (hello_with (record { cl_type = some 2; addr = (2 ∷ []) ∷ []; port = none } ∷ []) [])
    else if starts 2 octets
    then some (
        hello_with (record { cl_type = some 1; addr = (9 ∷ []) ∷ []; port = some 99 } ∷ [])
          (("dtn://a/", 1) ∷ []))
    else if starts 3 octets
    then some (hello_with [] [])
    else none

abbrev packages : Packages
packages = record {
  loads = hello;
  ip_address = λ a. if starts 2 a then some "10.0.0.2" else some "10.0.0.9";
  as_config = λ a p. p;
}

abbrev bundle_from : Option String → String → List ℕ → Container
bundle_from source dest octets =
    record (new_container (record {
      primary = record {
        bundle_flags = 0;
        crc_type = crc_none;
        destination = some dest;
        source = source;
        report_to = none;
        dtntime = 1000;
        seqno = 0;
        lifetime = 5000;
        fragment_offset = 0;
        total_app_data_len = 0;
        crc_value = none;
      };
      blocks =
          record {
            type_code = some 1;
            block_num = some 1;
            block_flags = 0;
            crc_type = crc_none;
            btsd = some octets;
            crc_value = none;
            payload = no_payload;
          }
          ∷ [];
    })) { block_nums = 0 ∷ 1 ∷ []; actions = (deliver, 1) ∷ [] }

abbrev from_b : List ℕ → Container
from_b octets = bundle_from (some "dtn://b/") "dtn:~neighbor" octets

abbrev nobody : Nmp
nobody = record { one_hop = [] }

abbrev first : Route
first = record { next_nodeid = "dtn://b/"; cl_type = "udpcl"; mtu = none; raw_config = 4556 }

abbrev to_b : Container
to_b = bundle_from (some "dtn://a/") "dtn://b/" (7 ∷ [])

abbrev met : Nmp
met = record {
  one_hop =
      (some "dtn://b/", record { valid_until = some 1020; link_status = 1; tx_routes = first ∷ [] })
      ∷ [];
}

-- The first HELLO
meet : recv_all packages "dtn://a/" (from_b (1 ∷ []) ∷ []) nobody ≡ met
unfolding nmp_recv_bundle recv_for block_num recv_btsd recv_msg recv_hello add_routes def_route
    see_peers heard_of with_neighbor
meet = refl

nmp_tx_route-recv_all_example :
    (let t = recv_all packages "dtn://a/" (from_b (2 ∷ []) ∷ from_b (3 ∷ []) ∷ []) met in
      nmp_tx_route 9 (to_b, t)
      ≡ done false (record_action deliver 9 none (record to_b { route = some first }), t))
nmp_tx_route-recv_all_example =
    nmp_tx_route-recv_all packages "dtn://a/" (from_b (2 ∷ []) ∷ from_b (3 ∷ []) ∷ []) 9 to_b first
      met (_, refl, refl)

abbrev own_crc : Crc
own_crc = record { of_primary = λ p. 1 ∷ []; of_block = λ b. 2 ∷ [] }

abbrev own_layers : Layers
own_layers = record { attached = λ t. true; takes = λ t p. true }

-- A bundle for the node, after its HELLO
abbrev late : Job Nmp
late = record {
  ctr = new_container to_b.bundle;
  timestamp = record { time = none; seqno = 0 };
  apps = (final (nmp_recv_bundle packages "dtn://a/" (from_b (3 ∷ []), nobody))).1;
  sent = [];
}

late-Unrouted : Unrouted "dtn://b/" late.ctr
late-Unrouted = record { no_route = refl; no_sender = refl; to_node = refl }

late-HasUnique : HasUnique late.ctr
unfolding ensure_btsd
late-HasUnique = refl

bare : IsBare packages "dtn://b/" (from_b (3 ∷ [])) nobody
unfolding recv_for block_num
bare = record {
  blk = record {
    type_code = some 1;
    block_num = some 1;
    block_flags = 0;
    crc_type = crc_none;
    btsd = some (3 ∷ []);
    crc_value = none;
    payload = no_payload;
  };
  octets = 3 ∷ [];
  msg = hello_with [] [];
  for_us = refl;
  payload = refl;
  content = refl;
  reads = refl;
  is_hello = refl;
  no_layers = refl;
  source = refl;
  unknown = refl;
}

-- A static route to the node follows in the chain.
abbrev to_node : TxRouteItem
to_node = record { eid_pattern = compiled "dtn://b/"; route = first }

abbrev after_nmp : List (Exec (Container × Nmp) Bool)
after_nmp = chain_step (do_tx_step (λ p eid. true) (to_node ∷ [])) ∷ []

bare_hello-Refused_example :
    Refused [] (send_bundle own_crc own_layers "dtn://a/" 9 (nmp_tx_route 9 ∷ after_nmp) late)
bare_hello-Refused_example =
    bare_hello-Refused packages "dtn://a/" "dtn://b/" (from_b (3 ∷ [])) nobody own_crc own_layers 9
      after_nmp late bare late-HasUnique late-Unrouted refl
