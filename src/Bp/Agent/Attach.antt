-- ===== src/Bp/Agent/Attach.antt =====
-- The convergence layers that `Agent` of src/bp/agent.py is attached to, and `ping`.
pub mod Bound
mod Examples
use dtn_demo_agent.Common.{
  ℕ, Bool, true, false, not, ◌&&◌, Option, none, some, List, [], ◌∷◌, String, str_eq, if◌then◌else◌,
}
use dtn_demo_agent.Common.Exec.{Exec, done, raised, value_error}
use dtn_demo_agent.Bp.Bundle.{PrimaryBlock, CanonicalBlock, Bundle, crc32, no_payload}
use dtn_demo_agent.Bp.Crc.{Crc}
use dtn_demo_agent.Bp.Container.{Container, new_container}
use dtn_demo_agent.Bp.Cla.{Binding, bind, unbind, text_set, udpcl_signals, tcpcl_signals}
use dtn_demo_agent.Bp.Agent.Send.{Job, Layers, send_bundle}

-- An adaptor, with the signals that it listens to
pub record Layer : Type 0 where
  pub serv_name : String
  pub names : List String
  pub binding : Binding

-- CL_TYPES: the signals of each type
abbrev pub cl_types : String → Option (List String)
cl_types cltype =
    if str_eq cltype "udpcl"
    then some udpcl_signals
    else if str_eq cltype "tcpcl"
    then some tcpcl_signals
    else none

abbrev pub new_layer : List String → String → Layer
new_layer names servname = record {
  serv_name = servname;
  names = names;
  binding = record { agent_obj = none; signals = [] };
}

-- To bind, with the proxy of the service
abbrev pub bind_layer : ℕ → Layer → Layer
bind_layer proxy l = record l { binding = bind l.names proxy l.binding }

abbrev pub unbind_layer : Layer → Layer
unbind_layer l = record l { binding = unbind l.binding }

abbrev pub attached_layer : List String → String → ℕ → Bool → Layer
attached_layer names servname proxy true = bind_layer proxy (new_layer names servname)
attached_layer names servname proxy false = new_layer names servname

-- `cl_attach`, where the service has an owner or not
unfoldable pub cl_attach : String → String → Bool → ℕ → Exec (List (String × Layer)) (Unit {0})
cl_attach cltype servname has_owner proxy s = elim (cl_types cltype) [
  | none ↦ raised value_error s
  | some names ↦ done tt (text_set cltype (attached_layer names servname proxy has_owner) s)
]

-- What a change of the owner of its service does to a layer. No owner is the empty text.
unfoldable pub owner_changed : String → String → ℕ → Layer → Layer
owner_changed old_owner new_owner proxy l =
    let u = if str_eq old_owner "" then l else unbind_layer l in
    if str_eq new_owner "" then u else bind_layer proxy u

-- `_bus_name_changed`
unfoldable pub bus_name_changed :
    String → String → String → ℕ → List (String × Layer) → List (String × Layer)
bus_name_changed servname old_owner new_owner proxy [] = []
bus_name_changed servname old_owner new_owner proxy ((t, l) ∷ s) =
    let rest = bus_name_changed servname old_owner new_owner proxy s in
    if str_eq l.serv_name servname
    then (t, owner_changed old_owner new_owner proxy l) ∷ rest
    else (t, l) ∷ rest

-- The bundle of `ping`, with random data: every report and its time are asked for.
unfoldable pub ping_container : String → List ℕ → Container
ping_container nodeid octets = new_container (record {
  primary = record {
    bundle_flags = 0x074040;
    crc_type = crc32;
    destination = some nodeid;
    source = none;
    report_to = none;
    dtntime = 0;
    seqno = 0;
    lifetime = 0;
    fragment_offset = 0;
    total_app_data_len = 0;
    crc_value = none;
  };
  blocks =
      record {
        type_code = some 1;
        block_num = some 1;
        block_flags = 0;
        crc_type = crc32;
        btsd = some octets;
        crc_value = none;
        payload = no_payload;
      }
      ∷ [];
})

-- `ping`
unfoldable pub ping :
    {X : Type 0}
    → Crc
    → Layers
    → String
    → ℕ
    → List (Exec (Container × X) Bool)
    → String
    → List ℕ
    → Exec (Job X) (Unit {0})
ping crc layers node_id now tx_chain nodeid octets j =
    send_bundle crc layers node_id now tx_chain (record j { ctr = ping_container nodeid octets })
