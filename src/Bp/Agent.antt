-- ===== src/Bp/Agent.antt =====
-- `Timestamper` and `Agent` of src/bp/agent.py: timestamps, and the reception of a bundle.
pub mod Once
pub mod Send
pub mod Attach
mod Examples
use dtn_demo_agent.Common.{
  ℕ, zero, suc, ◌+◌, Bool, true, false, not, ◌&&◌, Option, none, some, List, [], ◌∷◌, ◌++◌, String,
  str_eq, ◌==◌, if◌then◌else◌, is_empty,
}
use dtn_demo_agent.Common.Exec.{Exec, Outcome, done, raised}
use dtn_demo_agent.Bp.Bundle.{Bundle, flag_set}
use dtn_demo_agent.Bp.Crc.{Crc, check_all_crc}
use dtn_demo_agent.Bp.Container.{
  Container, Ident, Action, receive, deliver, forward, delete, bundle_ident, has_action,
  same_action, same_ident,
}

pub record Timestamper : Type 0 where
  pub time : Option ℕ
  pub seqno : ℕ

-- `__call__`, at a time of the clock: the state after it is the timestamp, too.
unfoldable pub next_timestamp : ℕ → Timestamper → Timestamper
next_timestamp now t = elim t.time [
  | none ↦ record { time = some now; seqno = 0 }
  | some last ↦
      if now == last
      then record t { seqno = t.seqno + 1 }
      else record { time = some now; seqno = 0 }
]

-- `d[k] = v` for the actions
abbrev pub action_set : Action → ℕ → List (Action × ℕ) → List (Action × ℕ)
action_set a v [] = (a, v) ∷ []
action_set a v ((b, w) ∷ m) = if same_action b a then (b, v) ∷ m else (b, w) ∷ action_set a v m

-- `record_action`, with or without a reason
unfoldable pub record_action : Action → ℕ → Option ℕ → Container → Container
record_action a now reason c = record c {
  actions = action_set a now c.actions;
  status_reason = elim reason [ none ↦ c.status_reason | some r ↦ some r ];
}

-- PrimaryBlock.Flag
abbrev pub req_status_time : ℕ
req_status_time = 0x000040

-- The flag that asks for the report of an action
abbrev pub report_flag : Action → ℕ
report_flag delete = 0x040000
report_flag deliver = 0x020000
report_flag forward = 0x010000
report_flag receive = 0x004000

-- A status report: for each action that is reported, when it was, if the time is asked for. The bundle
-- around it, whose payload block is this administrative record, follows from the destination.
pub record Report : Type 0 where
  pub status : List (Action × Option ℕ)
  pub reason_code : ℕ
  pub subj_source : Option String
  pub subj_ts : ℕ × ℕ
  pub destination : Option String

-- The loop of `create_report`
abbrev pub report_status : ℕ → List (Action × ℕ) → List (Action × Option ℕ)
report_status own_flags [] = []
report_status own_flags ((a, t) ∷ m) =
    if flag_set own_flags (report_flag a)
    then (a, if flag_set own_flags req_status_time then some t else none)
      ∷ report_status own_flags m
    else report_status own_flags m

-- A destination for reports: none is the null endpoint.
abbrev pub no_destination : Option String → Bool
no_destination none = true
no_destination (some eid) = str_eq eid "dtn:none"

-- `create_report`. A reason of 0 is the same as none.
unfoldable pub create_report : Container → Option Report
create_report c =
    let pri = c.bundle.primary in
    let status = report_status pri.bundle_flags c.actions in
    if no_destination pri.report_to
    then none
    else if is_empty status
    then none
    else some (record {
      status = status;
      reason_code = elim c.status_reason [ none ↦ 0 | some r ↦ r ];
      subj_source = pri.source;
      subj_ts = (pri.dtntime, pri.seqno);
      destination = pri.report_to;
    })

-- The agent, around the state of its applications: the identities that were seen, the bundles to
-- forward, and what it gave to `glib.idle_add`, which are reports to send and rounds of `_do_fwd`.
pub record Agent (X : Type 0) : Type 0 where
  pub seen : List Ident
  pub fwd_queue : List Container
  pub reports : List Report
  pub fwd_rounds : ℕ
  pub apps : X

-- `ident in self._seen_bundle_ident`
abbrev pub ident_in : Ident → List Ident → Bool
ident_in i [] = false
ident_in i (j ∷ js) = if same_ident j i then true else ident_in i js

-- The steps of a chain, in order. A step that answers true, or that raises, ends it.
abbrev pub run_chain :
    {X : Type 0} → List (Exec (Container × X) Bool) → Container × X → Container × X
run_chain [] w = w
run_chain (step ∷ steps) w = elim (step w) [
  | raised e v ↦ v
  | done interrupted v ↦ if interrupted then v else run_chain steps v
]

-- `source == node_id`
abbrev pub is_own : Option String → String → Bool
is_own none node_id = false
is_own (some s) node_id = str_eq s node_id

module _ {X : Type 0} where
  -- `_finish_bundle`
  unfoldable pub finish_bundle : Container → Agent X → Agent X
  finish_bundle c a = elim (create_report c) [
    | none ↦ a
    | some r ↦ record a { reports = a.reports ++ r ∷ [] }
  ]

  -- After the chain
  unfoldable pub dispatch : Container → Agent X → Agent X
  dispatch c a =
      let b = if has_action deliver c.actions then finish_bundle c a else a in
      if has_action delete c.actions
      then finish_bundle c a
      else if has_action forward c.actions
      then record b { fwd_queue = b.fwd_queue ++ c ∷ []; fwd_rounds = b.fwd_rounds + 1 }
      else b

  -- A bundle that is accepted: it is seen, and goes through the chain.
  unfoldable pub accept : List (Exec (Container × X) Bool) → ℕ → Container → Agent X → Agent X
  accept rx_chain now c a =
      let (d, apps) = run_chain rx_chain (record_action receive now none c, a.apps) in
      dispatch d (record a { seen = a.seen ++ bundle_ident c ∷ []; apps = apps })

  -- `recv_bundle`
  unfoldable pub recv_bundle :
      Crc → String → List (Exec (Container × X) Bool) → ℕ → Container → Agent X → Agent X
  recv_bundle crc node_id rx_chain now c a =
      if not (is_empty (check_all_crc crc c.bundle))
      then a
      else if is_own c.bundle.primary.source node_id
      then a
      else if ident_in (bundle_ident c) a.seen
      then a
      else accept rx_chain now c a
