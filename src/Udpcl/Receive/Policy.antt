-- ===== src/Udpcl/Receive/Policy.antt =====
-- What src/udpcl/agent.py takes of datagrams that are not secured.
use dtn_demo_agent.Common.{
  ℕ, zero, suc, ◌≡◌, refl, ap, ◌∙◌, Bool, true, false, ◌||◌, Option, none, some, List, [], ◌∷◌,
  arith, Bool-cases, Option-cases, inl, inr, length, is_none, is_some, if◌then◌else◌,
}
use dtn_demo_agent.Common.Exec.{
  Exec, Exn, Outcome, done, raised, final, continue, decode_error, type_error, ssl_error,
  runtime_error, os_error,
}
use dtn_demo_agent.Common.Exec.Keeps.{Keeps, Keeps-bind, Keeps-throw, Keeps-pure}
use dtn_demo_agent.Common.Portion.{Portion}
use dtn_demo_agent.Udpcl.Value.{Value, Cbor2, Entries, ext_get, starttls}
use dtn_demo_agent.Udpcl.Conversation.{
  Ip, Conversation, same_conv, conv_get, conv_set, same_ip, same_opt,
}
use dtn_demo_agent.Udpcl.State.{Env, Agent}
use dtn_demo_agent.Udpcl.Starttls.{prepared, start_tls}
use dtn_demo_agent.Udpcl.Receive.{
  Kind, padding, handshake, bpv6, bundle, extension, unknown, message_kind, as_dict,
  recv_extensions, serve_tls, recv_ext_map, recv_item, read_item, handle_message, recv_messages,
  recv_datagram, sock_recvfrom, rejects,
}
use dtn_demo_agent.Udpcl.Receive.Tables.{same_ip_refl, same_port_refl}
use dtn_demo_agent.Udpcl.Ledger.{Ledger, ledger, Is}

same_ip_opt_refl : (a : Option Ip) → same_opt same_ip a a ≡ true
same_ip_opt_refl none = refl
same_ip_opt_refl (some a) = same_ip_refl a

pub same_conv_refl : (c : Conversation) → same_conv c c ≡ true
same_conv_refl c = ground (
  arith,
  same_ip_opt_refl c.peer_address,
  same_port_refl c.peer_port,
  same_ip_opt_refl c.local_address,
  same_port_refl c.local_port,
)

pub conv_get-set :
    {V : Type 0} (k : Conversation) (v : V) (m : List (Conversation × V))
    → conv_get k (conv_set k v m) ≡ some v
conv_get-set k v [] = rw (same_conv_refl k) refl
conv_get-set k v ((j, w) ∷ m) = elim (Bool-cases (same_conv j k)) [
  | inl e ↦ rw (e, e) refl
  | inr e ↦ rw (e, e) (conv_get-set k v m)
]

module _ {I : Type 0} where
  -- A call that raises, and the state that it leaves.
  record Raises {A : Type 0} (o : Outcome (Agent I) A) (t : Agent I) : Type 0 where
    exn : Exn
    raises : o ≡ raised exn t

  start_tls-Raises :
      (env : Env) (conv : Conversation) (sock : ℕ) (b : Bool) (s : Agent I)
      → env.handshake_ok conv b ≡ false
      → Raises (start_tls env conv sock b s) (prepared conv sock s)
  unfolding start_tls
  start_tls-Raises env conv sock b s e = elim (Bool-cases (env.bind_ok conv)) [
    | inl p ↦ elim (Bool-cases (is_none conv.peer_address)) [
      | inl q ↦ record { exn = runtime_error; raises = rw (p, q) refl }
      | inr q ↦ record { exn = ssl_error; raises = rw (p, q, e) refl }
    ]
    | inr p ↦ record { exn = os_error; raises = rw p refl }
  ]

-- With TLS required, what a plain datagram can do if the handshake that it may ask for fails.
module _ (portion : Portion) (cbor : Cbor2) (env : Env) (sock : ℕ) (conv : Conversation)
    (l : Ledger portion.Interval) where
  -- TLS is required, and there is none.
  record Refuses : Type 0 where
    required : l.config.require_tls ≡ true
    fails : env.handshake_ok conv true ≡ false

  rejected :
      (s : Agent portion.Interval)
      → Refuses
      → Is l s
      → rejects (some sock) s.config.require_tls ≡ true
  rejected s r h = ap (λ (k : Ledger portion.Interval). k.config.require_tls) h ∙ r.required

  skipped :
      (b : Bool) (o : Outcome (Agent portion.Interval) (Unit {0})) (s : Agent portion.Interval)
      → b ≡ true
      → Is l s
      → Is l (final (if b then done tt s else o))
  skipped true o s e h = h
  skipped false o s e h = absurd cc

  serve_tls-Is :
      (s : Agent portion.Interval) (f : Unit {0} → Exec (Agent portion.Interval) (Unit {0}))
      → Refuses
      → Is l s
      → Is l (final (continue (serve_tls portion env (some sock) conv s) f))
  unfolding serve_tls
  serve_tls-Is s f r h = rw ((start_tls-Raises env conv sock true s r.fails).raises, serve_tls) h

  recv_ext_map-Is :
      (m : Entries) (s : Agent portion.Interval)
      → Refuses
      → Is l s
      → Is l (final (recv_ext_map portion cbor env (some sock) conv m s))
  unfolding recv_ext_map
  recv_ext_map-Is m s r h = elim (Bool-cases (is_some (ext_get starttls m))) [
    | inl e ↦ rw (e, recv_ext_map) (serve_tls-Is s (λ _. recv_extensions portion cbor conv m) r h)
    | inr e ↦
        rw (e, recv_ext_map)
          (skipped s.config.require_tls (recv_extensions portion cbor conv m s) s (rejected s r h)
            h)
  ]

  recv_item-Keeps :
      (buf : List ℕ) (v : Value) (rest : List ℕ)
      → Refuses
      → Keeps (Is l) (recv_item portion cbor env (some sock) conv false buf v rest)
  unfolding recv_item
  recv_item-Keeps buf v rest r = elim (Option-cases (as_dict v)) [
    | inl e ↦ rw (e, recv_item) (Keeps-throw type_error)
    | inr (m, e) ↦ rw (e, recv_item) (record { at = λ s h. recv_ext_map-Is m s r h })
  ]

  read_item-Keeps :
      (buf : List ℕ) (k : List ℕ → Exec (Agent portion.Interval) (Unit {0}))
      → Refuses
      → ((rest : List ℕ) → Keeps (Is l) (k rest))
      → Keeps (Is l) (read_item portion cbor env (some sock) conv false buf k)
  unfolding read_item
  read_item-Keeps buf k r p = elim (Option-cases (cbor.load buf)) [
    | inl e ↦ rw (e, read_item) (Keeps-throw decode_error)
    | inr ((v, rest), e) ↦
        rw (e, read_item) (Keeps-bind (recv_item-Keeps buf v rest r) (λ _. p rest))
  ]

  handle_message-Keeps :
      (kind : Kind) (buf : List ℕ) (k : List ℕ → Exec (Agent portion.Interval) (Unit {0}))
      → Refuses
      → ((rest : List ℕ) → Keeps (Is l) (k rest))
      → Keeps (Is l) (handle_message portion kind cbor env (some sock) conv buf k)
  unfolding handle_message serve_tls
  handle_message-Keeps padding buf k r p = record { at = λ s h. h }
  handle_message-Keeps handshake buf k r p = record {
    at = λ s h. rw ((start_tls-Raises env conv sock true s r.fails).raises) h;
  }
  handle_message-Keeps bpv6 buf k r p = record { at = λ s h. h }
  handle_message-Keeps bundle buf k r p = record {
    at = λ s h.
        skipped s.config.require_tls (read_item portion cbor env (some sock) conv true buf k s) s
          (rejected s r h) h;
  }
  handle_message-Keeps extension buf k r p = record { at = (read_item-Keeps buf k r p).at }
  handle_message-Keeps unknown buf k r p = record { at = λ s h. h }

  recv_messages-Keeps :
      (fuel : ℕ) (buf : List ℕ)
      → Refuses
      → Keeps (Is l) (recv_messages portion cbor env (some sock) conv fuel buf)
  unfolding recv_messages
  recv_messages-Keeps fuel [] r = record { at = λ s h. h }
  recv_messages-Keeps zero (b ∷ bs) r = record { at = λ s h. h }
  recv_messages-Keeps (suc fuel) (b ∷ bs) r =
      handle_message-Keeps (message_kind b) (b ∷ bs)
        (λ rest t. recv_messages portion cbor env (some sock) conv fuel rest t) r
        (λ rest. record { at = (recv_messages-Keeps fuel rest r).at })

module _ (portion : Portion) (cbor : Cbor2) (env : Env) (sock : ℕ) (conv : Conversation) where
  -- With TLS required, and a peer that does not complete a handshake, a plain datagram, whatever its octets
  -- are, changes nothing in the bundles that wait, the transfers in progress, the items to send, their
  -- numbers, and the probes.
  pub unsecured_refused :
      (octets : List ℕ) (s : Agent portion.Interval)
      → s.config.require_tls ≡ true
      → env.handshake_ok conv true ≡ false
      → ledger (final (sock_recvfrom portion cbor env sock octets conv s)) ≡ ledger s
  unfolding sock_recvfrom recv_datagram
  unsecured_refused octets s q f =
      elim (Bool-cases
        (is_some (conv_get conv s.dtls_prep) || is_some (conv_get conv s.dtls_sess))) [
          | inl e ↦ rw (e, sock_recvfrom) refl
          | inr e ↦
              rw (e, sock_recvfrom)
                ((Keeps-bind
                    (recv_messages-Keeps portion cbor env sock conv (ledger s) (length octets)
                      octets (record { required = q; fails = f }))
                    (λ _. Keeps-pure true)).at
                  (record s { plain_sock = conv_set conv sock s.plain_sock }) refl)
        ]

  -- Datagrams of the conversation, one after the other, each on a socket
  abbrev pub recv_run : List (Env × ℕ × List ℕ) → Agent portion.Interval → Agent portion.Interval
  recv_run [] s = s
  recv_run ((env', sock', octets) ∷ ds) s =
      recv_run ds (final (sock_recvfrom portion cbor env' sock' octets conv s))

  prepared_ignores :
      (env' : Env) (server_side : Bool) (sock' : ℕ) (octets : List ℕ) (s t : Agent portion.Interval)
      → env.handshake_ok conv server_side ≡ false
      → t ≡ final (start_tls env conv sock server_side s)
      → sock_recvfrom portion cbor env' sock' octets conv t ≡ done true t
  unfolding sock_recvfrom
  prepared_ignores env' server_side sock' octets s t f e =
      rw (e ∙ ap (λ o. final o) (start_tls-Raises env conv sock server_side s f).raises)
        (rw (conv_get-set conv sock s.dtls_prep, sock_recvfrom) refl)

  -- A DTLS handshake that fails leaves its conversation among those that prepare one. Whatever
  -- datagrams of the conversation come next, from any socket and with any octets, with nothing else
  -- between them, all of them are ignored: the agent stays as the failure left it.
  pub failed_handshake_ignores :
      (server_side : Bool) (datagrams : List (Env × ℕ × List ℕ)) (s : Agent portion.Interval)
      → env.handshake_ok conv server_side ≡ false
      → (let t = final (start_tls env conv sock server_side s) in recv_run datagrams t ≡ t)
  failed_handshake_ignores server_side [] s f = refl
  failed_handshake_ignores server_side ((env', sock', octets) ∷ ds) s f =
      ap (λ (o : Outcome (Agent portion.Interval) Bool). recv_run ds (final o))
        (prepared_ignores env' server_side sock' octets s _ f refl)
      ∙ failed_handshake_ignores server_side ds s f
