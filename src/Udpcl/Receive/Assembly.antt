-- ===== src/Udpcl/Receive/Assembly.antt =====
-- The transfers that src/udpcl/agent.py puts together, in whatever order the fragments come.
use dtn_demo_agent.Common.{
  ℕ, ◌≡◌, refl, sym, ap, ◌∙◌, subst, ◌⊎◌, inl, inr, true, false, none, some, List, [], ◌∷◌,
  Bool-cases, Option-cases, All, length, dict_set, ◌==◌, eq→eqb,
}
use dtn_demo_agent.Common.Exec.{done, final}
use dtn_demo_agent.Common.Portion.{Portion}
use dtn_demo_agent.Common.Portion.Assembly.{
  IsSlice, Filled, Covers, zeros-Filled, splice-Filled, filled_complete, filled_equal,
}
use dtn_demo_agent.Udpcl.State.{BundleItem, TransferKey, Transfer, Agent}
use dtn_demo_agent.Udpcl.Queue.{add_rx_item, received_item}
use dtn_demo_agent.Udpcl.Receive.{
  key_get, key_set, key_del, new_transfer, add_fragment, settle_transfer, recv_fragment,
}
use dtn_demo_agent.Udpcl.Receive.Tables.{EntryIs, EntryIs-get, EntryIs-set, EntryIs-del}

All-dict_set :
    {V : Type 0} (P : (ℕ × V) → Type 0) (k : ℕ) (v : V) (m : List (ℕ × V))
    → All P m
    → P (k, v)
    → All P (dict_set k v m)
All-dict_set P k v [] h p = (p, tt)
All-dict_set P k v ((j, w) ∷ m) (a, h) p = elim (Bool-cases (j == k)) [
  | inl e ↦ rw e (p, h)
  | inr e ↦ rw e (a, All-dict_set P k v m h p)
]

All-imp : {V : Type 0} (P Q : V → Type 0) (m : List V) → ((v : V) → P v → Q v) → All P m → All Q m
All-imp P Q [] f h = tt
All-imp P Q (v ∷ m) f (a, h) = (f v a, All-imp P Q m f h)

module _ (portion : Portion) where
  -- A transfer of the payload, under its key.
  pub record Agrees (key : TransferKey) (payload : List ℕ) (x : Transfer portion.Interval)
      : Type 0 where
    pub own : x.key ≡ key
    pub total : x.total_length ≡ length payload
    pub filled : Filled portion payload x.total_valid x.valid x.octets

  pub new-Agrees :
      (key : TransferKey) (payload : List ℕ)
      → Agrees key payload (new_transfer portion key (length payload))
  unfolding new_transfer
  new-Agrees key payload = record {
    own = refl;
    total = refl;
    filled = zeros-Filled portion payload;
  }

  pub add-Agrees :
      (key : TransferKey) (payload : List ℕ) (off : ℕ) (xs : List ℕ) (x : Transfer portion.Interval)
      → IsSlice payload off xs
      → Agrees key payload x
      → Agrees key payload (add_fragment portion off xs x)
  unfolding add_fragment
  add-Agrees key payload off xs x s h = record {
    own = h.own;
    total = h.total;
    filled = splice-Filled portion payload xs off x.total_valid x.valid x.octets s h.filled;
  }

  -- The bundle that a key and a payload make
  abbrev pub whole : TransferKey → List ℕ → BundleItem
  whole key payload = received_item key.address key.port payload (length payload)

  -- A transfer that is settled is whole, or is kept.
  pub settle_whole :
      (key : TransferKey) (payload : List ℕ) (x : Transfer portion.Interval)
      (s : Agent portion.Interval)
      → Agrees key payload x
      → portion.equal x.valid x.total_valid ≡ true
      → settle_transfer portion x s
        ≡ add_rx_item (whole key payload) (record s { rx_fragments = key_del key s.rx_fragments })
  unfolding settle_transfer
  settle_whole key payload x s h e =
      rw
        (
          e,
          h.own,
          h.total,
          filled_complete portion payload x.total_valid x.valid x.octets h.filled e,
        )
        refl

  pub settle_part :
      (key : TransferKey) (payload : List ℕ) (x : Transfer portion.Interval)
      (s : Agent portion.Interval)
      → Agrees key payload x
      → portion.equal x.valid x.total_valid ≡ false
      → settle_transfer portion x s ≡ record s { rx_fragments = key_set key x s.rx_fragments }
  unfolding settle_transfer
  settle_part key payload x s h e =
      rw e (ap (λ k. record s { rx_fragments = key_set k x s.rx_fragments }) h.own)

  -- The transfer of a key that a fragment is added to
  unfoldable pub current : TransferKey → ℕ → Agent portion.Interval → Transfer portion.Interval
  unfolding new_transfer
  current key total s = elim (key_get key s.rx_fragments) [
    | none ↦ new_transfer portion key total
    | some x ↦ x
  ]

  -- The transfers of a key are of the payload. Of the bundles that were received, those that are not as
  -- before have that payload.
  pub record IsSound (key : TransferKey) (payload : List ℕ) (Before : (ℕ × BundleItem) → Type 0)
      (s : Agent portion.Interval) : Type 0 where
    pub kept : All (EntryIs key (Agrees key payload)) s.rx_fragments
    pub received : All (λ e. Before e ⊎ (e.1.file ≡ payload)) s.rx_queue

  current-Agrees :
      (key : TransferKey) (payload : List ℕ) (s : Agent portion.Interval)
      → All (EntryIs key (Agrees key payload)) s.rx_fragments
      → Agrees key payload (current key (length payload) s)
  unfolding current
  current-Agrees key payload s h = elim (Option-cases (key_get key s.rx_fragments)) [
    | inl e ↦ rw (e, current) (new-Agrees key payload)
    | inr (x, e) ↦ rw (e, current) (EntryIs-get key (Agrees key payload) s.rx_fragments x h e)
  ]

  pub fragment_settles :
      (key : TransferKey) (payload : List ℕ) (off : ℕ) (xs : List ℕ) (s : Agent portion.Interval)
      → All (EntryIs key (Agrees key payload)) s.rx_fragments
      → recv_fragment portion key (length payload) off xs s
        ≡ done tt (
            settle_transfer portion
              (add_fragment portion off xs (current key (length payload) s))
              s)
  unfolding recv_fragment current
  fragment_settles key payload off xs s h = elim (Option-cases (key_get key s.rx_fragments)) [
    | inl e ↦ rw (e, recv_fragment, current) refl
    | inr (x, e) ↦
        rw
          (
            e,
            recv_fragment,
            current,
            eq→eqb x.total_length (length payload)
                (EntryIs-get key (Agrees key payload) s.rx_fragments x h e).total,
          )
          refl
  ]

  settle-IsSound :
      (key : TransferKey) (payload : List ℕ) (Before : (ℕ × BundleItem) → Type 0)
      (x : Transfer portion.Interval) (s : Agent portion.Interval)
      → Agrees key payload x
      → IsSound key payload Before s
      → IsSound key payload Before (settle_transfer portion x s)
  unfolding add_rx_item
  settle-IsSound key payload Before x s a h =
      elim (Bool-cases (portion.equal x.valid x.total_valid)) [
        | inl e ↦
            subst (λ t. IsSound key payload Before t) (sym (settle_whole key payload x s a e))
              (record {
                kept = EntryIs-del key (Agrees key payload) s.rx_fragments h.kept;
                received =
                    All-dict_set (λ e. Before e ⊎ (e.1.file ≡ payload)) s.rx_id _ s.rx_queue
                      h.received (inr refl);
              })
        | inr e ↦
            subst (λ t. IsSound key payload Before t) (sym (settle_part key payload x s a e))
              (record {
                kept = EntryIs-set key (Agrees key payload) s.rx_fragments x h.kept a;
                received = h.received;
              })
      ]

  -- Fragments of a key, each an offset with octets, received one after the other.
  unfoldable pub recv_fragments :
      TransferKey → ℕ → List (ℕ × List ℕ) → Agent portion.Interval → Agent portion.Interval
  unfolding recv_fragment
  recv_fragments key total [] s = s
  recv_fragments key total ((off, xs) ∷ fs) s =
      recv_fragments key total fs (final (recv_fragment portion key total off xs s))

  -- Fragments of one transfer, received in any order, any number of times, and overlapping or not, keep
  -- the agent sound: what is put together agrees with the payload wherever octets are there, and each
  -- bundle in the queue is one of those before, or has exactly the payload.
  pub recv_fragments-IsSound :
      (key : TransferKey) (payload : List ℕ) (Before : (ℕ × BundleItem) → Type 0)
      (fs : List (ℕ × List ℕ)) (s : Agent portion.Interval)
      → All (λ f. IsSlice payload f.0 f.1) fs
      → IsSound key payload Before s
      → IsSound key payload Before (recv_fragments key (length payload) fs s)
  unfolding recv_fragments
  recv_fragments-IsSound key payload Before [] s ps h = h
  recv_fragments-IsSound key payload Before ((off, xs) ∷ fs) s (p, ps) h =
      recv_fragments-IsSound key payload Before fs _ ps (
        subst (λ o. IsSound key payload Before (final o))
          (sym (fragment_settles key payload off xs s h.kept))
          (settle-IsSound key payload Before _ s
            (add-Agrees key payload off xs _ p (current-Agrees key payload s h.kept)) h))

  -- The fragment after which every octet of the payload is there ends the transfer: nothing is raised,
  -- the transfer leaves the table, and one bundle, which is the payload, is received from its peer.
  pub fragment_completes :
      (key : TransferKey) (payload : List ℕ) (Before : (ℕ × BundleItem) → Type 0) (off : ℕ)
      (xs : List ℕ) (s : Agent portion.Interval)
      → IsSlice payload off xs
      → IsSound key payload Before s
      → Covers portion payload (add_fragment portion off xs (current key (length payload) s)).valid
      → recv_fragment portion key (length payload) off xs s
        ≡ done tt (
            add_rx_item
              (whole key payload)
              (record s { rx_fragments = key_del key s.rx_fragments }))
  fragment_completes key payload Before off xs s p h cov =
      let a = add-Agrees key payload off xs _ p (current-Agrees key payload s h.kept) in
      fragment_settles key payload off xs s h.kept
      ∙ ap (λ t. done tt t)
          (settle_whole key payload _ s a (filled_equal portion payload _ _ _ a.filled cov))
