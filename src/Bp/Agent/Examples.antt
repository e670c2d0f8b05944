-- ===== src/Bp/Agent/Examples.antt =====
-- Concrete runs of src/bp/agent.py.
use dtn_demo_agent.Common.{ℕ, ◌≡◌, refl, arith, Bool, false, some, none, List, [], ◌∷◌}
use dtn_demo_agent.Common.Exec.{Exec, done}
use dtn_demo_agent.Bp.Bundle.{Bundle, PrimaryBlock, crc_none, crc16, no_payload}
use dtn_demo_agent.Bp.Crc.{
  Crc, check_all_crc, update_all_crc, check-update_all, check_primary_crc, check_block_crc,
}
use dtn_demo_agent.Bp.Container.{Container, new_container, deliver}
use dtn_demo_agent.Bp.Agent.{Agent, Timestamper, recv_bundle, record_action}
use dtn_demo_agent.Bp.Agent.Once.{recv_all, recv_bundle_once, stamps, Increasing, stamps-Increasing}

abbrev primary : PrimaryBlock
primary = record {
  bundle_flags = 0x020000;
  crc_type = crc16;
  destination = some "dtn://there/svc";
  source = some "dtn://here/";
  report_to = some "dtn://here/";
  dtntime = 1000;
  seqno = 0;
  lifetime = 5000;
  fragment_offset = 0;
  total_app_data_len = 0;
  crc_value = some (1 ∷ 2 ∷ []);
}

abbrev bundle : Bundle
bundle = record {
  primary = primary;
  blocks =
      record {
        type_code = some 1;
        block_num = some 1;
        block_flags = 0;
        crc_type = crc_none;
        btsd = some (7 ∷ []);
        crc_value = none;
        payload = no_payload;
      }
      ∷ [];
}

-- Every CRC is the two octets 1 and 2 here.
abbrev crc : Crc
crc = record { of_primary = λ p. 1 ∷ 2 ∷ []; of_block = λ b. 1 ∷ 2 ∷ [] }

check-update_all_example : check_all_crc crc (update_all_crc crc bundle) ≡ []
check-update_all_example = check-update_all crc bundle

abbrev ctr : Container
ctr = new_container bundle

-- A step that delivers every bundle, and writes that it did.
abbrev deliver_all : Exec (Container × ℕ) Bool
deliver_all w = done false (record_action deliver 9 none w.0, 1)

abbrev rx_chain : List (Exec (Container × ℕ) Bool)
rx_chain = deliver_all ∷ []

abbrev agent : Agent ℕ
agent = record { seen = []; fwd_queue = []; reports = []; fwd_rounds = 0; apps = 0 }

ctr_valid : check_all_crc crc ctr.bundle ≡ []
unfolding check_all_crc check_primary_crc check_block_crc
ctr_valid = refl

-- Another bundle of the same source
abbrev other_ctr : Container
other_ctr = new_container (record bundle { primary = record primary { seqno = 1 } })

recv_bundle_once_example :
    (let b = recv_all crc "dtn://me/" rx_chain ((5, ctr) ∷ (6, other_ctr) ∷ []) agent in
      recv_bundle crc "dtn://me/" rx_chain 7 ctr b ≡ b)
recv_bundle_once_example =
    recv_bundle_once crc "dtn://me/" rx_chain 5 7 ctr ctr ((6, other_ctr) ∷ []) agent ctr_valid refl
      refl

abbrev stamp : Timestamper
stamp = record { time = some 5; seqno = 0 }

stamps-Increasing_example : Increasing (stamp ∷ stamps (5 ∷ 5 ∷ 7 ∷ []) stamp)
stamps-Increasing_example =
    stamps-Increasing (5 ∷ 5 ∷ 7 ∷ []) 5 stamp refl (omega arith, (omega arith, (omega arith, tt)))
