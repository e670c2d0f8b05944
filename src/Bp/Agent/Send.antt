-- ===== src/Bp/Agent/Send.antt =====
-- The sending side of `Agent` of src/bp/agent.py: static routes, and how a bundle is sent. The steps of the
-- applications are a parameter, and so are the regular expressions and the objects on D-Bus.
pub mod Routes
pub mod Stages
pub mod Peers
pub mod Outcomes
mod Examples
use dtn_demo_agent.Common.{
  ℕ, Bool, true, false, not, ◌&&◌, Option, none, some, List, [], ◌∷◌, ◌++◌, String, str_eq, ◌==◌,
  bit_and, bit_or, if◌then◌else◌, is_none,
}
use dtn_demo_agent.Common.Exec.{
  Exec, Outcome, done, raised, modify, throw, pure, ◌>>=◌, ◌>>◌, runtime_error, key_error,
  type_error, value_error, stuck,
}
use dtn_demo_agent.Bp.Bundle.{
  Bundle, PrimaryBlock, CanonicalBlock, CrcType, crc32, no_payload, fill_fields, flag_set,
  type_payload, num_payload,
}
use dtn_demo_agent.Bp.Crc.{Crc, update_all_crc}
use dtn_demo_agent.Bp.Container.{
  Action, deliver, Container, Route, new_container, has_action, reload, fix_block_num,
}
use dtn_demo_agent.Bp.Agent.{Timestamper, next_timestamp, record_action, run_chain}

-- A pattern for endpoints: of the configuration, or of a peer that was seen.
pub data Pattern : Type 0 where
  compiled : String → Pattern
  escaped_start : String → Pattern

-- `pattern.match(eid)`
abbrev pub Matcher : Type 0
Matcher = Pattern → String → Bool

pub record RxRouteItem : Type 0 where
  pub eid_pattern : Pattern
  pub action : Action

pub record TxRouteItem : Type 0 where
  pub eid_pattern : Pattern
  pub route : Route

-- The loops over the tables: the first item whose pattern matches.
unfoldable pub find_rx : Matcher → String → List RxRouteItem → Option RxRouteItem
find_rx match_at eid [] = none
find_rx match_at eid (r ∷ rs) =
    if match_at r.eid_pattern eid then some r else find_rx match_at eid rs

unfoldable pub find_tx : Matcher → String → List TxRouteItem → Option TxRouteItem
find_tx match_at eid [] = none
find_tx match_at eid (r ∷ rs) =
    if match_at r.eid_pattern eid then some r else find_tx match_at eid rs

-- What a look-up for the destination gives. To match no string with a pattern is a TypeError.
abbrev pub look_up :
    {R : Type 0} → (String → List R → Option R) → Option String → List R → Exec Container (Option R)
look_up find (some eid) table c = done (find eid table) c
look_up find none [] c = done none c
look_up find none (r ∷ rs) c = raised type_error c

-- `_do_rx_step`
unfoldable pub do_rx_step : Matcher → List RxRouteItem → ℕ → Exec Container Bool
do_rx_step match_at table now c =
    if has_action deliver c.actions
    then done false c
    else elim (look_up (find_rx match_at) c.bundle.primary.destination table c) [
      | raised e d ↦ raised e d
      | done found d ↦ elim found [
        | none ↦ done false d
        | some r ↦ done false (record_action r.action now none d)
      ]
    ]

-- `_do_tx_step`
unfoldable pub do_tx_step : Matcher → List TxRouteItem → Exec Container Bool
do_tx_step match_at table c = elim c.route [
  | some r ↦ done false c
  | none ↦ elim (look_up (find_tx match_at) c.bundle.primary.destination table c) [
    | raised e d ↦ raised e d
    | done found d ↦ elim found [
      | none ↦ done false d
      | some r ↦ done false (record d { route = some r.route })
    ]
  ]
]

-- The callback of `_cl_peer_node_seen`: a static route at the end of the table.
unfoldable pub peer_node_seen : String → String → ℕ → List TxRouteItem → List TxRouteItem
peer_node_seen cltype nodeid tx_params table =
    table
    ++ record {
      eid_pattern = escaped_start nodeid;
      route = record { next_nodeid = nodeid; cl_type = cltype; mtu = none; raw_config = tx_params };
    }
      ∷ []

-- A step of the chain that leaves the applications as they are
abbrev pub chain_step : {X : Type 0} → Exec Container Bool → Exec (Container × X) Bool
chain_step m w = elim (m w.0) [ done b c ↦ done b (c, w.1) | raised e c ↦ raised e (c, w.1) ]

-- The sender that a bundle is given to: the one that it has already, or that of a convergence layer.
pub data Via : Type 0 where
  kept_sender : Via
  by_route : String → ℕ → Via

-- A bundle that is sent, around the state of the applications.
pub record Job (X : Type 0) : Type 0 where
  pub ctr : Container
  pub timestamp : Timestamper
  pub apps : X
  pub sent : List (Via × Bundle)

-- What is outside: whether there is a convergence layer of a type, and its `send_bundle_func` takes a
-- configuration.
pub record Layers : Type 0 where
  pub attached : String → Bool
  pub takes : String → ℕ → Bool

-- `any_report`
abbrev pub any_report : ℕ
any_report = 0x074000

-- The defaults that need no timestamp
unfoldable pub default_primary : String → PrimaryBlock → PrimaryBlock
default_primary node_id p = record p {
  source = elim p.source [ none ↦ some node_id | some s ↦ some s ];
  report_to =
      if flag_set p.bundle_flags any_report && is_none p.report_to
      then some node_id
      else p.report_to;
  lifetime = if p.lifetime == 0 then 3600000 else p.lifetime;
}

-- The timestamp of a bundle, if its own time is 0
abbrev pub stamp : Timestamper → PrimaryBlock → PrimaryBlock
stamp t p = record p { dtntime = elim t.time [ none ↦ 0 | some now ↦ now ]; seqno = t.seqno }

abbrev pub with_primary : PrimaryBlock → Container → Container
with_primary p c = record c { bundle = record (c.bundle) { primary = p } }

module _ {X : Type 0} where
  abbrev pub stamped : Timestamper → PrimaryBlock → Job X → Job X
  stamped t p j = record j { ctr = with_primary (stamp t p) j.ctr; timestamp = t }

  -- `_apply_primary`
  unfoldable pub apply_primary : String → ℕ → Job X → Job X
  apply_primary node_id now j =
      let p = default_primary node_id j.ctr.bundle.primary in
      if p.dtntime == 0
      then stamped (next_timestamp now j.timestamp) p j
      else record j { ctr = with_primary p j.ctr }

  abbrev pub in_job : Job X → Outcome Container (Unit {0}) → Outcome (Job X) (Unit {0})
  in_job j (done u c) = done tt (record j { ctr = c })
  in_job j (raised e c) = raised e (record j { ctr = c })

  -- A method of the container
  abbrev pub on_ctr : Exec Container (Unit {0}) → Exec (Job X) (Unit {0})
  on_ctr m j = in_job j (m j.ctr)

-- `fix_block_num` on the container
unfoldable pub renumber : Exec Container (Unit {0})
renumber c = elim (fix_block_num c.last_block_num c.block_nums c.bundle.blocks) [
  | none ↦ raised stuck c
  | some (last, blocks) ↦
      done tt (record c { last_block_num = last; bundle = record (c.bundle) { blocks = blocks } })
]

abbrev pub fill : Container → Container
fill c = record c { bundle = fill_fields c.bundle }

-- `ctr.fix_block_num()` and `ctr.bundle.fill_fields()`
unfoldable pub number_and_fill : Exec Container (Unit {0})
unfolding renumber
number_and_fill = renumber >> modify fill

module _ {X : Type 0} where
  -- The loop over the chain
  unfoldable pub tx_steps : List (Exec (Container × X) Bool) → Job X → Job X
  tx_steps chain j = let (c, x) = run_chain chain (j.ctr, j.apps) in record j { ctr = c; apps = x }

  -- The sender after the chain: `none` if there is none.
  unfoldable pub choose_sender : Layers → Exec (Job X) (Option Via)
  choose_sender layers j = if j.ctr.sender then done (some kept_sender) j else elim j.ctr.route [
    | none ↦ done none j
    | some r ↦
        if layers.attached r.cl_type && layers.takes r.cl_type r.raw_config
        then done (some (by_route r.cl_type r.raw_config))
            (record j { ctr = record (j.ctr) { sender = true } })
        else raised key_error j
  ]

  abbrev pub crc_and_send : Crc → Via → Job X → Job X
  crc_and_send crc via j =
      let bundle = update_all_crc crc j.ctr.bundle in
      record j { ctr = record (j.ctr) { bundle = bundle }; sent = j.sent ++ (via, bundle) ∷ [] }

  -- From the second `fix_block_num` on
  unfoldable pub finish_send : Crc → Option Via → Exec (Job X) (Unit {0})
  finish_send crc none = throw runtime_error
  finish_send crc (some via) = on_ctr number_and_fill >> modify (crc_and_send crc via)

  -- `send_bundle`
  unfoldable pub send_bundle :
      Crc → Layers → String → ℕ → List (Exec (Container × X) Bool) → Exec (Job X) (Unit {0})
  send_bundle crc layers node_id now tx_chain = do
    on_ctr reload
    modify (apply_primary node_id now)
    on_ctr number_and_fill
    modify (tx_steps tx_chain)
    via ← choose_sender layers
    finish_send crc via
