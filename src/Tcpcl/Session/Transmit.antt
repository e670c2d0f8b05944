-- ===== src/Tcpcl/Session/Transmit.antt =====
-- The transmit side of `ContactHandler` in src/tcpcl/session.py: the queue, the segments of the bundle
-- in progress, and the acknowledgements.
use dtn_demo_agent.Common.{
  ℕ, ◌+◌, ◌*◌, Bool, true, false, not, none, some, List, [], ◌∷◌, ◌++◌, bit_or, if◌then◌else◌, ◌==◌,
  length, take, drop, contains, remove, min, ltb, is_none, dict_get, dict_set, dict_pop,
}
use dtn_demo_agent.Common.Int.{max_ℕ}
use dtn_demo_agent.Common.Exec.{
  Exec, done, raised, pure, throw, modify, when, reject_error, key_error, type_error,
  attribute_error, zero_division_error, ◌>>◌,
}
use dtn_demo_agent.Tcpcl.Packet.{
  Codec, ExtItem, critical, seg_start, seg_end, has_flag, reject_unexpected, private_dummy,
  total_length,
}
use dtn_demo_agent.Tcpcl.Session.State.{
  Session, TxItem, Env, emit, set_msgr, set_hdl, send_bundle_started, send_bundle_intermediate,
  send_bundle_finished, success, unacknowledged,
}
use dtn_demo_agent.Tcpcl.Session.Connection.{check_sess_term}
use dtn_demo_agent.Tcpcl.Session.Sending.{send_xfer_data, require_sess}

unfoldable pub process_queue_trigger : Session → Session
process_queue_trigger = set_hdl (λ h. record h { process_queue_pend = true })

unfoldable pub tx_teardown : Session → Session
tx_teardown s =
    process_queue_trigger (set_hdl (λ h. record h { tx_tmp = none; tx_length = none }) s)

abbrev pub update_item : ℕ → (TxItem → TxItem) → (ℕ → TxItem) → ℕ → TxItem
update_item k f items j = if j == k then f (items j) else items j

abbrev pub new_item : List ℕ → TxItem
new_item file = record { total_length = none; ack_length = 0; file = file; position = 0 }

-- `send_bundle_data` and its like, over `_add_queue_item` and `next_id`: a new item is queued under
-- the next transfer ID, which is returned.
unfoldable pub add_queue_item : List ℕ → Exec Session ℕ
add_queue_item file s =
    let bid = s.hdl.tx_next_id in
    done bid (
      process_queue_trigger (
        set_hdl
          (λ h. record h {
            tx_next_id = bid + 1;
            tx_items = update_item bid (λ _. new_item file) h.tx_items;
            tx_pend_start = h.tx_pend_start ++ bid ∷ [];
            tx_map = if contains bid h.tx_map then h.tx_map else h.tx_map ++ bid ∷ [];
          })
          s))

-- `send_buffer_decreased`
unfoldable pub send_buffer_decreased : ℕ → Session → Session
send_buffer_decreased buf_use s =
    if ltb buf_use (5 * s.msgr.send_segment_size) then process_queue_trigger s else s

-- The head of the queue becomes the bundle in progress.
unfoldable pub begin_transfer : ℕ → List ℕ → Session → Session
begin_transfer bid rest s =
    let total = length (s.hdl.tx_items bid).file in
    emit (send_bundle_started bid total) (
      set_hdl
        (λ h. record h {
          tx_tmp = some bid;
          tx_pend_start = rest;
          tx_items =
              update_item bid (λ i. record i { total_length = some total; position = 0 })
                h.tx_items;
          tx_length = some 0;
        })
        s)

unfoldable pub segment_flags : ℕ → ℕ → ℕ → ℕ
segment_flags before after total =
    bit_or (if before == 0 then seg_start else 0) (if after == total then seg_end else 0)

unfoldable pub segment_ext_items : Session → ℕ → ℕ → List ExtItem
segment_ext_items s before total =
    (if s.config.private_extensions then private_dummy critical ∷ [] else [])
    ++ (if before == 0 then total_length 0 total ∷ [] else [])

-- After the last segment the item waits for its acknowledgement.
unfoldable pub end_transfer : ℕ → Session → Session
end_transfer bid s =
    let s' =
      if s.msgr.do_send_ack_final
      then s
      else emit (send_bundle_finished bid (s.hdl.tx_items bid).position unacknowledged)
          (set_hdl (λ h. record h { tx_map = remove bid h.tx_map }) s) in
    tx_teardown (
      set_hdl
        (λ h. record h {
          tx_pend_ack =
              if contains bid h.tx_pend_ack then h.tx_pend_ack else h.tx_pend_ack ++ bid ∷ [];
        })
        s')

-- The next segment of the bundle in progress, of which `before` octets of `total` are sent.
unfoldable pub send_segment : Codec → ℕ → ℕ → ℕ → ℕ → Exec Session (Unit {0})
send_segment codec now bid before total s =
    let item = s.hdl.tx_items bid in
    let content = take s.msgr.send_segment_size (drop item.position item.file) in
    let after = before + length content in
    let flg = segment_flags before after total in
    let s' =
      set_hdl
        (λ h. record h {
          tx_items =
              update_item bid (λ i. record i { position = i.position + length content }) h.tx_items;
          tx_length = some after;
        })
        s in
    (do
      send_xfer_data codec bid content flg (segment_ext_items s before total)
      modify (set_msgr (λ m. record m { segment_tx_times = dict_set after now m.segment_tx_times }))
      when (has_flag flg seg_end) (modify (end_transfer bid)))
      s'

-- The part of `_process_queue` after the choice of the bundle. The lengths are known by then.
unfoldable pub continue_transfer : Codec → ℕ → Exec Session Bool
continue_transfer codec now s = elim s.hdl.tx_tmp [
  | none ↦ raised attribute_error s
  | some bid ↦ elim s.hdl.tx_length [
    | none ↦ raised type_error s
    | some before ↦ elim (s.hdl.tx_items bid).total_length [
      | none ↦ raised type_error s
      | some total ↦
          if before == total
          then done false s
          else (do send_segment codec now bid before total; pure false) s
    ]
  ]
]

-- `_process_queue`
unfoldable pub process_queue : Codec → ℕ → Exec Session Bool
process_queue codec now s =
    let s' = set_hdl (λ h. record h { process_queue_pend = false }) s in
    elim s.hdl.tx_tmp [
      | some bid ↦ continue_transfer codec now s'
      | none ↦ if not s.msgr.in_sess then done true s' else elim s.hdl.tx_pend_start [
        | [] ↦ done false s'
        | bid ∷ rest ↦ continue_transfer codec now (begin_transfer bid rest s')
      ]
    ]

-- `_modulate_tx_seg_size`, from the size that the floating-point control computes
unfoldable pub modulate_tx_seg_size : Env → Exec Session (Unit {0})
modulate_tx_seg_size env s = elim env.next_seg_size [
  | none ↦ raised zero_division_error s
  | some next ↦ elim s.msgr.sessinit_peer [
    | none ↦ raised attribute_error s
    | some peer ↦ done tt (
        set_msgr
          (λ m. record m {
            send_segment_size = min (max_ℕ next m.send_segment_size_min) peer.segment_mru;
          })
          s)
  ]
]

-- The timing of an acknowledgement; its segment is known by the length that it ended at.
unfoldable pub modulate_from_ack : Env → ℕ → Exec Session (Unit {0})
modulate_from_ack env acked s = elim s.msgr.segment_last_ack_len [
  | none ↦ raised type_error s
  | some last ↦
      let s' = set_msgr (λ m. record m { segment_last_ack_len = some acked }) s in
      elim (dict_get acked s.msgr.segment_tx_times) [
        | none ↦ raised key_error s'
        | some tx_time ↦
            modulate_tx_seg_size env
              (set_msgr (λ m. record m { segment_tx_times = dict_pop acked m.segment_tx_times }) s')
      ]
]

-- An acknowledgement of the last segment ends the transfer.
unfoldable pub finish_ack : ℕ → ℕ → Exec Session (Unit {0})
finish_ack transfer_id acked s =
    let s' = emit (send_bundle_finished transfer_id acked success) s in
    if contains transfer_id s.hdl.tx_pend_ack
    then done tt (
        check_sess_term (
          set_hdl
            (λ h. record h {
              tx_pend_ack = remove transfer_id h.tx_pend_ack;
              tx_map = remove transfer_id h.tx_map;
            })
            s'))
    else raised key_error s'

-- The last acknowledgement of a transfer, or one of the others.
unfoldable pub settle_ack : Bool → ℕ → ℕ → Exec Session (Unit {0})
settle_ack true transfer_id acked s =
    if s.msgr.do_send_ack_final
    then finish_ack transfer_id acked s
    else raised (reject_error reject_unexpected) s
settle_ack false transfer_id acked s =
    if s.msgr.do_send_ack_inter
    then done tt (emit (send_bundle_intermediate transfer_id acked) s)
    else raised (reject_error reject_unexpected) s

unfoldable pub recv_xfer_ack : Env → ℕ → ℕ → ℕ → Exec Session (Unit {0})
recv_xfer_ack env transfer_id flags acked s =
    (do
      require_sess
      when (not (is_none s.config.modulate_target_ack_time)) (modulate_from_ack env acked)
      when (not (contains transfer_id s.hdl.tx_map)) (throw key_error)
      modify (
          set_hdl (λ h. record h {
            tx_items = update_item transfer_id (λ i. record i { ack_length = acked }) h.tx_items;
          }))
      settle_ack (has_flag flags seg_end) transfer_id acked)
      s
