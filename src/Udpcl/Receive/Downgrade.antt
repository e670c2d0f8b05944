-- ===== src/Udpcl/Receive/Downgrade.antt =====
-- An extension map of src/udpcl/agent.py that asks for DTLS and carries a transfer besides.
use dtn_demo_agent.Common.{
  ℕ, ◌≡◌, refl, ap, ◌∙◌, true, false, none, some, List, arith, length, take_all, dict_set, is_none,
}
use dtn_demo_agent.Common.Exec.{Outcome, final, continue-done}
use dtn_demo_agent.Common.Portion.{Portion}
use dtn_demo_agent.Common.Portion.Assembly.{IsSlice, filled_equal}
use dtn_demo_agent.Udpcl.Value.{
  uint, bstr, null, array, Entries, entry, end, cons, nil, Cbor2, key_value, starttls, transfer,
}
use dtn_demo_agent.Udpcl.Conversation.{Conversation}
use dtn_demo_agent.Udpcl.State.{Env, TransferKey, Agent}
use dtn_demo_agent.Udpcl.Queue.{add_rx_item}
use dtn_demo_agent.Udpcl.Starttls.{start_tls, establish, prepared}
use dtn_demo_agent.Udpcl.Receive.{
  key_get, new_transfer, add_fragment, recv_fragment, transfer_items, recv_transfer,
  recv_extensions, serve_tls, recv_ext_map,
}
use dtn_demo_agent.Udpcl.Receive.Assembly.{new-Agrees, add-Agrees, whole, settle_whole}
use dtn_demo_agent.Udpcl.RoundTrip.Message.{peer_key}

-- A map with `STARTTLS`, and a transfer of one fragment.
unfoldable pub starttls_with : ℕ → List ℕ → Entries
starttls_with i payload = entry (key_value starttls) null (
    entry (key_value transfer)
      (array
        (cons (uint i) (cons (uint (length payload)) (cons (uint 0) (cons (bstr payload) nil)))))
      end)

all_IsSlice : (payload : List ℕ) → IsSlice payload 0 payload
all_IsSlice payload = record {
  within = omega arith;
  same = take_all (length payload) payload (omega arith);
}

module _ (portion : Portion) (cbor : Cbor2) where
  fragment_whole :
      (key : TransferKey) (payload : List ℕ) (s : Agent portion.Interval)
      → key_get key s.rx_fragments ≡ none
      → (final (recv_fragment portion key (length payload) 0 payload s)).rx_queue
        ≡ dict_set s.rx_id
            (record (whole portion key payload) { transfer_id = some s.rx_id })
            s.rx_queue
  unfolding recv_fragment add_fragment add_rx_item
  fragment_whole key payload s e =
      let x = add_fragment portion 0 payload (new_transfer portion key (length payload)) in
      let a =
        add-Agrees portion key payload 0 payload _ (all_IsSlice payload)
          (new-Agrees portion key payload) in
      rw (e, recv_fragment)
        (ap (λ t. t.rx_queue)
          (settle_whole portion key payload x s a (
            filled_equal portion payload x.total_valid x.valid x.octets a.filled (λ i lt. ground (
              arith,
              portion.member-union (new_transfer portion key (length payload)).valid
                  (portion.closedopen 0 (length payload)) i,
              portion.member-closedopen 0 (length payload) i,
            )))))

  start_tls_done :
      (env : Env) (conv : Conversation) (sock : ℕ) (s : Agent portion.Interval)
      → env.bind_ok conv ≡ true
      → is_none conv.peer_address ≡ false
      → env.handshake_ok conv true ≡ true
      → start_tls env conv sock true s ≡ establish conv (prepared conv sock s)
  unfolding start_tls
  start_tls_done env conv sock s b p h = rw (b, p, h) refl

  -- A plain datagram's map that has `STARTTLS` and a transfer besides: if the handshake succeeds, the
  -- transfer is taken too, although it came without DTLS, and although DTLS may be required.
  pub starttls_map_accepted :
      (env : Env) (conv : Conversation) (sock i : ℕ) (payload : List ℕ) (s : Agent portion.Interval)
      → env.bind_ok conv ≡ true
      → is_none conv.peer_address ≡ false
      → env.handshake_ok conv true ≡ true
      → key_get (peer_key conv i) s.rx_fragments ≡ none
      → (final
          (recv_ext_map portion cbor env (some sock) conv (starttls_with i payload) s)).rx_queue
        ≡ dict_set s.rx_id
            (record (whole portion (peer_key conv i) payload) { transfer_id = some s.rx_id })
            s.rx_queue
  unfolding recv_ext_map starttls_with recv_extensions serve_tls recv_transfer transfer_items
      establish
  starttls_map_accepted env conv sock i payload s b p h k =
      rw (start_tls_done env conv sock s b p h) (
        ap (λ (o : Outcome (Agent portion.Interval) (Unit {0})). (final o).rx_queue)
          (continue-done (
            recv_fragment portion (peer_key conv i) (length payload) 0 payload
              (final (establish conv (prepared conv sock s)))))
        ∙ fragment_whole (peer_key conv i) payload (final (establish conv (prepared conv sock s)))
            k)
