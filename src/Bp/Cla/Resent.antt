-- ===== src/Bp/Cla/Resent.antt =====
-- What waited for a session in `TcpclAdaptor` of src/bp/cla.py is sent by each session.
use dtn_demo_agent.Common.{ℕ, ◌≡◌, none, some, List, [], ◌∷◌, String, dict_get}
use dtn_demo_agent.Bp.Cla.{text_get, text_set, Tcpcl, pending, tcpcl_sender}
use dtn_demo_agent.Bp.Cla.Acts.{sends}

-- A node with a session over a connection, what waited for it before, and what was sent.
record IsUp (n : String) (path : ℕ) (xss : List (List ℕ)) (log : List (ℕ × List ℕ)) (s : Tcpcl)
    : Type 0 where
  others : List (String × ℕ)
  conn : dict_get path s.cl_conn_path ≡ some (record { nodeid = some n })
  nodes : s.cl_conn_nodeid ≡ text_set n path others
  fresh : text_get n others ≡ none
  held : pending n s ≡ xss
  log_is : sends s.calls ≡ log

-- Bundles given to the sender while there is a session
abbrev pub submit : String → String → ℕ → List (List ℕ) → Tcpcl → Tcpcl
submit n address port [] s = s
submit n address port (octets ∷ more) s =
    submit n address port more (tcpcl_sender n address port octets s)
