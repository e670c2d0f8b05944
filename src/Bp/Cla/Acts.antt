-- ===== src/Bp/Cla/Acts.antt =====
-- What happens to `TcpclAdaptor` of src/bp/cla.py before a session with a node is established.
use dtn_demo_agent.Common.{
  ℕ, ◌≡◌, refl, sym, ap, ◌∙◌, subst, true, none, some, List, [], ◌∷◌, ◌++◌, String, str_eq, eq_iff,
  arith, Bool-cases, Option-cases, inl, inr, append-nil, append_assoc, dict_get, dict_set, is_some,
  eq→eqb, contains,
}
use dtn_demo_agent.Common.Lists.{get-set}
use dtn_demo_agent.Common.Exec.{final}
use dtn_demo_agent.Bp.Cla.{
  text_get, text_set, Call, send_bundle_data, connect, Tcpcl, call, pending, send_each,
  handle_state_change, conn_attach, on_session_state, tcpcl_sender,
}

pub text_get-set :
    {V : Type 0} (k : String) (v : V) (m : List (String × V)) → text_get k (text_set k v m) ≡ some v
text_get-set k v [] = rw ((eq_iff k k).1 refl) refl
text_get-set k v ((j, w) ∷ m) = elim (Bool-cases (str_eq j k)) [
  | inl e ↦ rw (e, e) refl
  | inr e ↦ rw (e, e) (text_get-set k v m)
]

-- The calls that send bundles
abbrev pub sends : List Call → List (ℕ × List ℕ)
sends [] = []
sends (send_bundle_data path octets ∷ cs) = (path, octets) ∷ sends cs
sends (_ ∷ cs) = sends cs

abbrev pub over : ℕ → List (List ℕ) → List (ℕ × List ℕ)
over path [] = []
over path (xs ∷ xss) = (path, xs) ∷ over path xss

pub sends-append : (cs ds : List Call) → sends (cs ++ ds) ≡ sends cs ++ sends ds
sends-append [] ds = refl
sends-append (c ∷ cs) ds = ground (arith, sends-append cs ds)

abbrev sent_calls : ℕ → List (List ℕ) → List Call
sent_calls path [] = []
sent_calls path (xs ∷ xss) = send_bundle_data path xs ∷ sent_calls path xss

sends-sent_calls : (path : ℕ) (xss : List (List ℕ)) → sends (sent_calls path xss) ≡ over path xss
sends-sent_calls path [] = refl
sends-sent_calls path (xs ∷ xss) = ap (λ l. (path, xs) ∷ l) (sends-sent_calls path xss)

pub send_each_lem :
    (path : ℕ) (xss : List (List ℕ)) (s : Tcpcl)
    → send_each path xss s ≡ record s { calls = s.calls ++ sent_calls path xss }
send_each_lem path [] s = ap (λ cs. record s { calls = cs }) (sym (append-nil s.calls))
send_each_lem path (xs ∷ xss) s =
    send_each_lem path xss (call (send_bundle_data path xs) s)
    ∙ ap (λ cs. record s { calls = cs })
        (append_assoc s.calls (send_bundle_data path xs ∷ []) (sent_calls path xss))

pub sends-send_each :
    (path : ℕ) (xss : List (List ℕ)) (s : Tcpcl)
    → sends (send_each path xss s).calls ≡ sends s.calls ++ over path xss
sends-send_each path xss s =
    ap (λ t. sends t.calls) (send_each_lem path xss s)
    ∙ sends-append s.calls (sent_calls path xss)
    ∙ ap (λ l. sends s.calls ++ l) (sends-sent_calls path xss)

-- A node with no session, for which these bundles wait, and what was sent before.
pub record Waits (n : String) (xss : List (List ℕ)) (log : List (ℕ × List ℕ)) (s : Tcpcl)
    : Type 0 where
  pub no_session : text_get n s.cl_conn_nodeid ≡ none
  pub held : pending n s ≡ xss
  pub log_is : sends s.calls ≡ log

pub pending-set :
    (n : String) (xss : List (List ℕ)) (t : Tcpcl) (m : List (String × List (List ℕ)))
    → t.sess_wait ≡ text_set n xss m
    → pending n t ≡ xss
unfolding pending
pending-set n xss t m e = rw (e, pending) (rw (text_get-set n xss m, pending) refl)

sender-Waits :
    (n address : String) (port : ℕ) (octets : List ℕ) (xss : List (List ℕ))
    (log : List (ℕ × List ℕ)) (s : Tcpcl)
    → Waits n xss log s
    → Waits n (xss ++ octets ∷ []) log (tcpcl_sender n address port octets s)
unfolding tcpcl_sender
sender-Waits n address port octets xss log s h =
    rw (h.no_session, tcpcl_sender)
      (record {
        no_session = h.no_session;
        held =
            pending-set n (pending n s ++ octets ∷ [])
              (call (connect address port)
                (record s { sess_wait = text_set n (pending n s ++ octets ∷ []) s.sess_wait }))
              s.sess_wait refl
            ∙ ap (λ l. l ++ octets ∷ []) h.held;
        log_is =
            sends-append s.calls (connect address port ∷ [])
            ∙ append-nil (sends s.calls)
            ∙ h.log_is;
      })

-- What comes before a session with a node is established: a bundle is given to the sender for the node,
-- a connection is opened that is not established, or one tells of a state that is not `established`.
pub data Act : Type 0 where
  gives : List ℕ → Act
  opens : ℕ → Act
  tells : ℕ → Act

abbrev pub act : String → String → ℕ → Act → Tcpcl → Tcpcl
act n address port (gives octets) s = tcpcl_sender n address port octets s
act n address port (opens path) s = final (conn_attach path none s)
act n address port (tells path) s = final (on_session_state path none s)

abbrev pub acts : String → String → ℕ → List Act → Tcpcl → Tcpcl
acts n address port [] s = s
acts n address port (a ∷ ws) s = acts n address port ws (act n address port a s)

-- The bundles that were given, in order
abbrev pub given : List Act → List (List ℕ)
given [] = []
given (gives octets ∷ ws) = octets ∷ given ws
given (_ ∷ ws) = given ws

pub pending-same :
    (n : String) (s t : Tcpcl) → t.sess_wait ≡ s.sess_wait → pending n t ≡ pending n s
unfolding pending
pending-same n s t e = rw (e, pending) refl

-- A state that is not `established` changes nothing.
tells_lem : (path : ℕ) (s : Tcpcl) → final (on_session_state path none s) ≡ s
unfolding on_session_state handle_state_change
tells_lem path s = elim (Bool-cases (contains path s.state_signals)) [
  | inl e ↦ rw (e, on_session_state) refl
  | inr e ↦ rw (e, on_session_state) refl
]

pub opens-Waits :
    (n : String) (path : ℕ) (xss : List (List ℕ)) (log : List (ℕ × List ℕ)) (s : Tcpcl)
    → Waits n xss log s
    → Waits n xss log (final (conn_attach path none s))
unfolding conn_attach handle_state_change
opens-Waits n path xss log s h = record {
  no_session = h.no_session;
  held = pending-same n s (final (conn_attach path none s)) refl ∙ h.held;
  log_is = h.log_is;
}

-- Before a session the bundles for a node wait, in order, and nothing is sent.
pub acts-Waits :
    (n address : String) (port : ℕ) (ws : List Act) (xss : List (List ℕ)) (log : List (ℕ × List ℕ))
    (s : Tcpcl)
    → Waits n xss log s
    → Waits n (xss ++ given ws) log (acts n address port ws s)
acts-Waits n address port [] xss log s h = subst (λ l. Waits n l log s) (sym (append-nil xss)) h
acts-Waits n address port (gives octets ∷ ws) xss log s h =
    subst (λ l. Waits n l log (acts n address port (gives octets ∷ ws) s))
      (append_assoc xss (octets ∷ []) (given ws))
      (acts-Waits n address port ws (xss ++ octets ∷ []) log _
        (sender-Waits n address port octets xss log s h))
acts-Waits n address port (opens path ∷ ws) xss log s h =
    acts-Waits n address port ws xss log _ (opens-Waits n path xss log s h)
acts-Waits n address port (tells path ∷ ws) xss log s h =
    acts-Waits n address port ws xss log _
      (subst (λ t. Waits n xss log t) (sym (tells_lem path s)) h)

-- A connection that is attached, and whose changes of state reach the adaptor
pub record IsOpen (path : ℕ) (s : Tcpcl) : Type 0 where
  pub there : is_some (dict_get path s.cl_conn_path) ≡ true
  pub watched : contains path s.state_signals ≡ true

contains-snoc : (x : ℕ) (xs : List ℕ) → contains x (xs ++ x ∷ []) ≡ true
contains-snoc x [] = rw (eq→eqb x x refl) refl
contains-snoc x (y ∷ ys) = ground (arith, contains-snoc x ys)

contains-append : (x y : ℕ) (xs : List ℕ) → contains x xs ≡ true → contains x (xs ++ y ∷ []) ≡ true
contains-append x y [] h = absurd cc
contains-append x y (z ∷ zs) h = ground (arith, h, contains-append x y zs)

pub dict_hit :
    {V : Type 0} (k : ℕ) (v : V) (m : List (ℕ × V)) → dict_get k (dict_set k v m) ≡ some v
dict_hit k v m = get-set k k v m ∙ rw (eq→eqb k k refl) refl

dict_more :
    {V : Type 0} (k j : ℕ) (v : V) (m : List (ℕ × V))
    → is_some (dict_get k m) ≡ true
    → is_some (dict_get k (dict_set j v m)) ≡ true
dict_more k j v m h = ground (arith, get-set j k v m, h)

pub opened-IsOpen : (path : ℕ) (s : Tcpcl) → IsOpen path (final (conn_attach path none s))
unfolding conn_attach handle_state_change
opened-IsOpen path s = record {
  there = ap (λ o. is_some o) (dict_hit path (record { nodeid = none }) s.cl_conn_path);
  watched = contains-snoc path s.state_signals;
}

act-IsOpen :
    (n address : String) (port path : ℕ) (a : Act) (s : Tcpcl)
    → IsOpen path s
    → IsOpen path (act n address port a s)
unfolding tcpcl_sender conn_attach handle_state_change
act-IsOpen n address port path (gives octets) s h =
    elim (Option-cases (text_get n s.cl_conn_nodeid)) [
      | inl e ↦ rw (e, tcpcl_sender) (record { there = h.there; watched = h.watched })
      | inr (q, e) ↦ rw (e, tcpcl_sender) (record { there = h.there; watched = h.watched })
    ]
act-IsOpen n address port path (opens other) s h = record {
  there = dict_more path other (record { nodeid = none }) s.cl_conn_path h.there;
  watched = contains-append path other s.state_signals h.watched;
}
act-IsOpen n address port path (tells other) s h =
    subst (λ t. IsOpen path t) (sym (tells_lem other s)) h

pub acts-IsOpen :
    (n address : String) (port path : ℕ) (ws : List Act) (s : Tcpcl)
    → IsOpen path s
    → IsOpen path (acts n address port ws s)
acts-IsOpen n address port path [] s h = h
acts-IsOpen n address port path (a ∷ ws) s h =
    acts-IsOpen n address port path ws _ (act-IsOpen n address port path a s h)

pub acts-opened :
    (n address : String) (port path : ℕ) (bs : List Act) (s : Tcpcl)
    → IsOpen path (acts n address port bs (final (conn_attach path none s)))
acts-opened n address port path bs s = acts-IsOpen n address port path bs _ (opened-IsOpen path s)
