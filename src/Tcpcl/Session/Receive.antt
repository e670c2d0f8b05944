-- ===== src/Tcpcl/Session/Receive.antt =====
-- The receive side of `ContactHandler` in src/tcpcl/session.py: segments, termination, delivery.
use dtn_demo_agent.Common.{
  ℕ, ◌+◌, Option, none, some, List, [], ◌∷◌, ◌++◌, if◌then◌else◌, ◌==◌, length, dict_get, dict_set,
  dict_pop,
}
use dtn_demo_agent.Common.Exec.{
  Exec, done, raised, modify, get, when, reject_error, key_error, ◌>>=◌, ◌>>◌,
}
use dtn_demo_agent.Tcpcl.Packet.{Codec, seg_start, seg_end, has_flag, reject_unexpected}
use dtn_demo_agent.Tcpcl.Session.State.{
  Session, RxItem, emit, set_hdl, recv_bundle_started, recv_bundle_intermediate,
  recv_bundle_finished, send_bundle_finished, success, session_terminating,
}
use dtn_demo_agent.Tcpcl.Session.Connection.{check_sess_term}
use dtn_demo_agent.Tcpcl.Session.Sending.{send_xfer_ack, require_sess}

-- `_rx_setup`; a bundle in progress is dropped
unfoldable pub rx_setup : ℕ → Option ℕ → Session → Session
rx_setup transfer_id total s = emit (recv_bundle_started transfer_id total) (
    set_hdl
      (λ h. record h {
        rx_tmp = some (record {
          object = h.rx_objects;
          transfer_id = transfer_id;
          total_length = total;
          file = [];
        });
        rx_objects = h.rx_objects + 1;
      })
      s)

unfoldable pub rx_teardown : Session → Session
rx_teardown = set_hdl (λ h. record h { rx_tmp = none })

-- The item moves to the bundles to deliver, and takes the place of an older one of its ID in the map.
unfoldable pub finish_rx : RxItem → Session → Session
finish_rx item s = check_sess_term (
    rx_teardown (
      emit (recv_bundle_finished item.transfer_id (length item.file) success) (
        set_hdl
          (λ h. record h {
            rx_bundles = h.rx_bundles ++ item ∷ [];
            rx_map = dict_set item.transfer_id item h.rx_map;
          })
          s)))

-- What follows the choice of the item: write, acknowledge, deliver.
unfoldable pub write_segment : Codec → ℕ → ℕ → List ℕ → RxItem → Exec Session (Unit {0})
write_segment codec transfer_id flags content item s =
    let item' = record item { file = item.file ++ content } in
    let recv_length = length item'.file in
    let s' = set_hdl (λ h. record h { rx_tmp = some item' }) s in
    if has_flag flags seg_end
    then (do
      when s.msgr.do_send_ack_final (send_xfer_ack codec transfer_id recv_length flags)
      modify (finish_rx item'))
        s'
    else (when s.msgr.do_send_ack_inter (do
      send_xfer_ack codec transfer_id recv_length flags
      modify (emit (recv_bundle_intermediate item'.transfer_id recv_length))))
        s'

-- The segment goes on with the bundle in progress, or it is rejected.
unfoldable pub resume_segment : Codec → ℕ → ℕ → List ℕ → Option RxItem → Exec Session (Unit {0})
resume_segment codec transfer_id flags content none s = raised (reject_error reject_unexpected) s
resume_segment codec transfer_id flags content (some item) s =
    if item.transfer_id == transfer_id
    then write_segment codec transfer_id flags content item s
    else raised (reject_error reject_unexpected) s

unfoldable pub recv_xfer_data : Codec → ℕ → ℕ → List ℕ → Exec Session (Unit {0})
recv_xfer_data codec transfer_id flags content = do
  require_sess
  when (has_flag flags seg_start) (modify (rx_setup transfer_id none))
  s ← get
  resume_segment codec transfer_id flags content s.hdl.rx_tmp

-- The pending transfers are dropped, each with its signal.
unfoldable pub drop_pending : List ℕ → Session → Session
drop_pending [] s = s
drop_pending (bid ∷ rest) s =
    let total : ℕ = elim (s.hdl.tx_items bid).total_length [ none ↦ 0 | some n ↦ n ] in
    drop_pending rest (
      emit (send_bundle_finished bid total session_terminating)
        (set_hdl (λ h. record h { tx_pend_start = rest }) s))

unfoldable pub recv_sess_term : Exec Session (Unit {0})
recv_sess_term = do
  require_sess
  s ← get
  modify (drop_pending s.hdl.tx_pend_start)
  modify check_sess_term

unfoldable pub remove_object : ℕ → List RxItem → List RxItem
remove_object o [] = []
remove_object o (i ∷ is) = if i.object == o then is else i ∷ remove_object o is

-- `recv_bundle_pop_data`; the map knows the ID, or KeyError is raised
unfoldable pub recv_bundle_pop_data : ℕ → Exec Session (List ℕ)
recv_bundle_pop_data bid s = elim (dict_get bid s.hdl.rx_map) [
  | none ↦ raised key_error s
  | some item ↦ done item.file (
      set_hdl
        (λ h. record h {
          rx_map = dict_pop bid h.rx_map;
          rx_bundles = remove_object item.object h.rx_bundles;
        })
        s)
]
