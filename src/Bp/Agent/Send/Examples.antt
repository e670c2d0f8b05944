-- ===== src/Bp/Agent/Send/Examples.antt =====
-- Bundles that src/bp/agent.py sends.
use dtn_demo_agent.Common.{◌≡◌, refl, true, none, some, [], ◌∷◌, str_eq}
use dtn_demo_agent.Common.Exec.{done}
use dtn_demo_agent.Bp.Bundle.{crc16, no_payload, ensure_btsd}
use dtn_demo_agent.Bp.Crc.{Crc}
use dtn_demo_agent.Bp.Container.{new_container}
use dtn_demo_agent.Bp.Agent.Send.{
  compiled, escaped_start, Matcher, TxRouteItem, Layers, Job, chain_step, do_tx_step,
  peer_node_seen, send_bundle, by_route,
}
use dtn_demo_agent.Bp.Agent.Send.Peers.{peer_bundle_sent, SentTo}
use dtn_demo_agent.Bp.Agent.Send.Stages.{Unrouted}
use dtn_demo_agent.Bp.Agent.Send.Outcomes.{Sends, send_bundle-Sends}

-- Patterns that match one endpoint
abbrev one : Matcher
one (compiled p) eid = str_eq p eid
one (escaped_start p) eid = str_eq p eid

abbrev crc : Crc
crc = record { of_primary = λ p. 1 ∷ 2 ∷ []; of_block = λ b. 3 ∷ 4 ∷ [] }

abbrev layers : Layers
layers = record { attached = λ t. str_eq t "udpcl"; takes = λ t p. true }

abbrev job : Job (Unit {0})
job = record {
  ctr = new_container (record {
    primary = record {
      bundle_flags = 0;
      crc_type = crc16;
      destination = some "dtn://b/";
      source = none;
      report_to = none;
      dtntime = 0;
      seqno = 0;
      lifetime = 0;
      fragment_offset = 0;
      total_app_data_len = 0;
      crc_value = none;
    };
    blocks =
        record {
          type_code = some 1;
          block_num = none;
          block_flags = 0;
          crc_type = crc16;
          btsd = some (7 ∷ []);
          crc_value = none;
          payload = no_payload;
        }
        ∷ [];
  });
  timestamp = record { time = none; seqno = 0 };
  apps = tt;
  sent = [];
}

-- A configured route to another node
abbrev other : TxRouteItem
other = record {
  eid_pattern = compiled "dtn://c/";
  route = record { next_nodeid = "dtn://c/"; cl_type = "tcpcl"; mtu = none; raw_config = 3 };
}

job-Unrouted : Unrouted "dtn://b/" job.ctr
job-Unrouted = record { no_route = refl; no_sender = refl; to_node = refl }

peer_bundle_sent_example :
    (k : Job (Unit {0})) × (send_bundle crc layers "dtn://a/" 5
        (chain_step (do_tx_step one (peer_node_seen "udpcl" "dtn://b/" 9 (other ∷ []))) ∷ [])
        job
      ≡ done tt k)
    × SentTo "dtn://b/" [] (by_route "udpcl" 9) k
unfolding ensure_btsd
peer_bundle_sent_example =
    peer_bundle_sent crc layers one "dtn://a/" "dtn://b/" "udpcl" 9 5 (other ∷ []) job refl
      job-Unrouted (refl, tt) refl refl

send_bundle-Sends_example :
    Sends crc []
      (send_bundle crc layers "dtn://a/" 5 (chain_step (do_tx_step one (other ∷ [])) ∷ []) job)
send_bundle-Sends_example =
    send_bundle-Sends crc layers "dtn://a/" 5 (chain_step (do_tx_step one (other ∷ [])) ∷ []) job
