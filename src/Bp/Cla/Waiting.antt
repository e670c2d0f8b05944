-- ===== src/Bp/Cla/Waiting.antt =====
-- The bundles that wait for a session in `TcpclAdaptor` of src/bp/cla.py.
use dtn_demo_agent.Common.{
  ℕ, ◌≡◌, refl, ap, ◌∙◌, true, none, some, is_some, List, [], ◌∷◌, ◌++◌, String, arith,
  Option-cases, inl, inr, dict_get, dict_set,
}
use dtn_demo_agent.Common.Exec.{Outcome, done, final}
use dtn_demo_agent.Bp.Cla.{
  text_get, text_set, Tcpcl, pending, send_each, conn_ready, handle_state_change, conn_attach,
  on_session_state,
}
use dtn_demo_agent.Bp.Cla.Acts.{
  text_get-set, Waits, Act, acts, given, pending-same, acts-Waits, opens-Waits, IsOpen, acts-opened,
}

-- The state in which a connection has its node
abbrev pub attached : ℕ → String → Tcpcl → Tcpcl
attached path n s = record s {
  cl_conn_path = dict_set path (record { nodeid = some n }) s.cl_conn_path;
  cl_conn_nodeid = text_set n path s.cl_conn_nodeid;
}

conn_ready_lem :
    (n : String) (path : ℕ) (xss : List (List ℕ)) (s : Tcpcl)
    → pending n s ≡ xss
    → text_get n s.cl_conn_nodeid ≡ some path
    → conn_ready n s ≡ done tt (send_each path xss s)
unfolding conn_ready
conn_ready_lem n path [] s e f = rw (e, conn_ready) refl
conn_ready_lem n path (xs ∷ xss) s e f =
    rw (e, conn_ready, f) (ap (λ l. done tt (send_each path l s)) e)

-- A session for a node sends what waits for it, and keeps it.
established_lem :
    (path : ℕ) (n : String) (xss : List (List ℕ)) (s : Tcpcl)
    → is_some (dict_get path s.cl_conn_path) ≡ true
    → pending n s ≡ xss
    → handle_state_change path (some n) s ≡ done tt (send_each path xss (attached path n s))
unfolding handle_state_change
established_lem path n xss s h e = elim (Option-cases (dict_get path s.cl_conn_path)) [
  | inl f ↦ absurd (ground (arith, f, h))
  | inr (c, f) ↦
      rw (f, handle_state_change)
        (conn_ready_lem n path xss (attached path n s)
          (pending-same n s (attached path n s) refl ∙ e) (text_get-set n path s.cl_conn_nodeid))
]

-- The adaptor after `_conn_attach` up to the look at the state
abbrev pub opened : ℕ → Tcpcl → Tcpcl
opened path s = record s {
  cl_conn_path = dict_set path (record { nodeid = none }) s.cl_conn_path;
  state_signals = s.state_signals ++ path ∷ [];
}

signal_lem :
    (path : ℕ) (n : String) (xss : List (List ℕ)) (s : Tcpcl)
    → IsOpen path s
    → pending n s ≡ xss
    → on_session_state path (some n) s ≡ done tt (send_each path xss (attached path n s))
unfolding on_session_state
signal_lem path n xss s o e =
    rw (o.watched, on_session_state) (established_lem path n xss s o.there e)

-- A session with a node, on a connection that is opened after what came before, and established later, when
-- it tells so.
abbrev pub session : String → String → ℕ → ℕ → List Act → List Act → Tcpcl → Tcpcl
session n address port path before between s = final (
    on_session_state path (some n)
      (acts n address port between (final (conn_attach path none (acts n address port before s)))))

-- The adaptor just before the session is established
abbrev pub ready : String → String → ℕ → ℕ → List Act → List Act → Tcpcl → Tcpcl
ready n address port path before between s =
    acts n address port between (final (conn_attach path none (acts n address port before s)))

pub ready-Waits :
    (n address : String) (port path : ℕ) (before between : List Act) (xss : List (List ℕ))
    (log : List (ℕ × List ℕ)) (s : Tcpcl)
    → Waits n xss log s
    → Waits n
        ((xss ++ given before) ++ given between)
        log
        (ready n address port path before between s)
ready-Waits n address port path before between xss log s h =
    acts-Waits n address port between (xss ++ given before) log _ (
      opens-Waits n path (xss ++ given before) log _ (acts-Waits n address port before xss log s h))

pub session_lem :
    (n address : String) (port path : ℕ) (before between : List Act) (xss : List (List ℕ))
    (log : List (ℕ × List ℕ)) (s : Tcpcl)
    → Waits n xss log s
    → session n address port path before between s
      ≡ send_each path
          ((xss ++ given before) ++ given between)
          (attached path n (ready n address port path before between s))
session_lem n address port path before between xss log s h =
    ap (λ (o : Outcome Tcpcl (Unit {0})). final o)
      (signal_lem path n ((xss ++ given before) ++ given between)
        (ready n address port path before between s)
        (acts-opened n address port path between (acts n address port before s))
        (ready-Waits n address port path before between xss log s h).held)
