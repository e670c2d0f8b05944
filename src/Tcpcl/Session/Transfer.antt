-- ===== src/Tcpcl/Session/Transfer.antt =====
-- A bundle on its way: the run of XFER_SEGMENT messages that carries it, as RFC 9174 describes it.
use dtn_demo_agent.Common.{
  ℕ, ◌+◌, ◌≤◌, ◌≡◌, refl, Bool, true, false, List, [], ◌∷◌, ◌++◌, length, ◌==◌, drop,
}
use dtn_demo_agent.Common.Exec.{Exec, Outcome, done, raised, continue, when}
use dtn_demo_agent.Tcpcl.Packet.{TransferSegment, has_flag, seg_start, seg_end, xfer_segment}
use dtn_demo_agent.Tcpcl.Session.State.{Event, tx}

-- One segment with the next octets, of which `before` octets went out already; `last` says whether
-- it ends the bundle.
pub record IsSegment (id limit before : ℕ) (last : Bool) (x : TransferSegment) : Type 0 where
  pub same_id : x.transfer_id ≡ id
  pub some_octets : 1 ≤ length x.content
  pub within : length x.content ≤ limit
  pub starts : has_flag x.flags seg_start ≡ (before == 0)
  pub ends : has_flag x.flags seg_end ≡ last

-- The segments carry the octets `rest`, in order, with START on the first and END on the last.
abbrev pub IsRun : ℕ → ℕ → ℕ → List ℕ → List TransferSegment → Type 0
IsRun id limit before rest [] = ⊥
IsRun id limit before rest (x ∷ []) = IsSegment id limit before true x × (x.content ≡ rest)
IsRun id limit before rest (x ∷ y ∷ ys) =
    IsSegment id limit before false x
    × (x.content ++ drop (length x.content) rest ≡ rest)
    × IsRun id limit (before + length x.content) (drop (length x.content) rest) (y ∷ ys)

-- The segments among the events, oldest first.
abbrev pub sent : List Event → List TransferSegment
sent [] = []
sent (tx (xfer_segment x) ∷ es) = sent es ++ x ∷ []
sent (e ∷ es) = sent es

-- The call returned, and its final state has the property.
abbrev pub Returns : {S A : Type 0} → Outcome S A → (S → Type 0) → Type 0
Returns (done a s) P = P s
Returns (raised e s) P = ⊥

pub Returns-done :
    {S A : Type 0} (Q : S → Type 0) (o : Outcome S A)
    → Returns o Q
    → (a : A) × (s : S) × (o ≡ done a s) × Q s
Returns-done Q (done a s) q = (a, s, refl, q)
Returns-done Q (raised e s) q = absurd q

-- The call that a sequence begins with returns, so the rest runs in a state that it leaves.
pub Returns-continue :
    {S A B : Type 0} (Q P : S → Type 0) (o : Outcome S A) (k : A → Exec S B)
    → Returns o Q
    → ((a : A) (s : S) → Q s → Returns (k a s) P)
    → Returns (continue o k) P
Returns-continue Q P (done a s) k q f = f a s q
Returns-continue Q P (raised e s) k q f = absurd q

pub Returns-when_false :
    {S : Type 0} (P : S → Type 0) (b : Bool) (m : Exec S (Unit {0})) (s : S)
    → b ≡ false
    → P s
    → Returns (when b m s) P
Returns-when_false P b m s e p = rw e p

pub Returns-when_true :
    {S : Type 0} (P : S → Type 0) (b : Bool) (m : Exec S (Unit {0})) (s : S)
    → b ≡ true
    → Returns (m s) P
    → Returns (when b m s) P
Returns-when_true P b m s e p = rw e p

pub Returns-mono :
    {S A : Type 0} (Q P : S → Type 0) (o : Outcome S A)
    → ((s : S) → Q s → P s)
    → Returns o Q
    → Returns o P
Returns-mono Q P (done a s) f q = f s q
Returns-mono Q P (raised e s) f q = q
