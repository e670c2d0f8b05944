-- ===== src/Udpcl/Starttls.antt =====
-- Sockets and DTLS sessions of src/udpcl/agent.py.
use dtn_demo_agent.Common.{
  ℕ, ◌+◌, Bool, not, ◌&&◌, ◌||◌, none, some, [], ◌∷◌, ◌++◌, contains, is_none, is_some,
  if◌then◌else◌,
}
use dtn_demo_agent.Common.Exec.{
  Exec, done, raised, throw, pure, modify, when, ◌>>=◌, ◌>>◌, runtime_error, os_error, ssl_error,
}
use dtn_demo_agent.Udpcl.Conversation.{Conversation, conv_set, conv_del, find_in}
use dtn_demo_agent.Udpcl.State.{Env, Agent}
use dtn_demo_agent.Udpcl.Queue.{given_port}

module _ {I : Type 0} where
  -- A socket is bound if the local side is given.
  unfoldable pub make_local_socket : Env → Conversation → Exec (Agent I) ℕ
  make_local_socket env conv s =
      if (is_some conv.local_address || is_some (given_port conv.local_port))
        && not (env.bind_ok conv)
      then raised os_error s
      else done s.next_sock (record s { next_sock = s.next_sock + 1 })

  -- Before the handshake
  abbrev pub prepared : Conversation → ℕ → Agent I → Agent I
  prepared conv sock s = record s {
    dtls_prep = conv_set conv sock s.dtls_prep;
    next_sock = s.next_sock + 1;
  }

  -- After the handshake
  unfoldable pub establish : Conversation → Exec (Agent I) ℕ
  establish conv s = done s.next_sock (record s {
    next_sock = s.next_sock + 1;
    dtls_prep = conv_del conv s.dtls_prep;
    dtls_sess = conv_set conv s.next_sock s.dtls_sess;
    dtls_watch = s.dtls_watch ++ (s.next_sock, conv) ∷ [];
  })

  -- `conn` is a socket that is made for this conversation, and then the DTLS connection on it. A
  -- conversation stays in `dtls_prep` if the handshake is not finished.
  unfoldable pub start_tls : Env → Conversation → ℕ → Bool → Exec (Agent I) ℕ
  unfolding establish
  start_tls env conv sock server_side = do
    modify (prepared conv sock)
    when (not (env.bind_ok conv)) (throw os_error)
    when (is_none conv.peer_address) (throw runtime_error)
    when (not (env.handshake_ok conv server_side)) (throw ssl_error)
    establish conv

  -- The socket of a conversation, found by pattern or made, and watched.
  unfoldable pub plain_socket : Env → Conversation → Exec (Agent I) ℕ
  unfolding make_local_socket
  plain_socket env conv s = elim (find_in conv s.plain_sock) [
    | some sock ↦ done sock s
    | none ↦
        (do
          sock ← make_local_socket env conv
          modify (λ s. record s { plain_sock = conv_set conv sock s.plain_sock })
          pure sock)
          s
  ]

  unfoldable pub listen_on : ℕ → Agent I → Agent I
  listen_on sock s =
      if contains sock s.listen_plain
      then s
      else record s { listen_plain = s.listen_plain ++ sock ∷ [] }
