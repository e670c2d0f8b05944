-- ===== src/Udpcl/Numbers.antt =====
-- The numbers of transfers and received bundles in src/udpcl/agent.py.
use dtn_demo_agent.Common.{
  ℕ, suc, ◌+◌, ◌≤◌, ◌≡◌, refl, sym, ap, subst, false, Option, none, some, List, [], ◌∷◌, ◌++◌,
  arith, Bool-cases, Option-cases, inl, inr, dict_get, dict_set, dict_pop, ◌==◌, append-nil, length,
  length-append, contains, All, ◌⊎◌, true,
}
use dtn_demo_agent.Common.Exec.{Exec}
use dtn_demo_agent.Common.Exec.Keeps.{Keeps}
use dtn_demo_agent.Udpcl.Conversation.{Address, Conversation}
use dtn_demo_agent.Udpcl.State.{BundleItem, Agent, TransferKey, Transfer, Probes}
use dtn_demo_agent.Udpcl.Ledger.{Ledger, ledger, Is}
use dtn_demo_agent.Udpcl.Queue.{
  received_item, add_rx_item, add_tx_item, recv_bundle_pop_data, send_bundle_data,
}

-- The numbers grow, from `lo` on, and stay below `hi`.
abbrev pub Rising : ℕ → ℕ → List ℕ → Type 0
Rising lo hi [] = lo ≤ hi
Rising lo hi (i ∷ is) = (lo ≤ i) × Rising (suc i) hi is

-- The numbers of the items that are transfers
abbrev pub with_number : Option ℕ → List ℕ → List ℕ
with_number none is = is
with_number (some i) is = i ∷ is

abbrev pub transfer_ids : List BundleItem → List ℕ
transfer_ids [] = []
transfer_ids (item ∷ items) = with_number item.transfer_id (transfer_ids items)

abbrev pub keys : List (ℕ × BundleItem) → List ℕ
keys [] = []
keys ((i, x) ∷ m) = i ∷ keys m

-- The bundles that were received have different numbers, in the order in which they came, and so have
-- the transfers that wait to be sent. The next numbers are larger. There is a callback for each item
-- that waits.
pub record IsSound {I : Type 0} (l : Ledger I) : Type 0 where
  pub received : Rising 0 l.rx_id (keys l.rx_queue)
  pub waiting : Rising 0 l.tx_id (transfer_ids l.tx_queue)
  pub scheduled : length l.tx_queue ≤ l.idle

-- Each number is one of these, or is not below a bound.
abbrev pub AllSince : ℕ → List ℕ → List ℕ → Type 0
AllSince n olds ids = All (λ i. (contains i olds ≡ true) ⊎ (n ≤ i)) ids

-- From one ledger to a later one: the next numbers did not fall, and a number that waits waited before, or
-- is new, that is, not below the next number of before.
pub record Since {I : Type 0} (o l : Ledger I) : Type 0 where
  pub tx_grows : o.tx_id ≤ l.tx_id
  pub rx_grows : o.rx_id ≤ l.rx_id
  pub tx_new : AllSince o.tx_id (transfer_ids o.tx_queue) (transfer_ids l.tx_queue)
  pub rx_new : AllSince o.rx_id (keys o.rx_queue) (keys l.rx_queue)

abbrev pub Sound : {I : Type 0} → Agent I → Type 0
Sound s = IsSound (ledger s)

-- Sound, and later than a ledger
abbrev pub Kept : {I : Type 0} → Ledger I → Agent I → Type 0
Kept o s = IsSound (ledger s) × Since o (ledger s)

contains-cons : (i x : ℕ) (xs : List ℕ) → contains i xs ≡ true → contains i (x ∷ xs) ≡ true
contains-cons i x xs h = ground (arith, h)

AllSince-cons : (n x : ℕ) (olds ids : List ℕ) → AllSince n olds ids → AllSince n (x ∷ olds) ids
AllSince-cons n x olds [] h = tt
AllSince-cons n x olds (i ∷ is) (inl p, h) =
    (inl (contains-cons i x olds p), AllSince-cons n x olds is h)
AllSince-cons n x olds (i ∷ is) (inr p, h) = (inr p, AllSince-cons n x olds is h)

AllSince-refl : (n : ℕ) (ids : List ℕ) → AllSince n ids ids
AllSince-refl n [] = tt
AllSince-refl n (i ∷ is) = (inl (ground arith), AllSince-cons n i is is (AllSince-refl n is))

AllSince-snoc :
    (n x : ℕ) (olds ids : List ℕ) → AllSince n olds ids → n ≤ x → AllSince n olds (ids ++ x ∷ [])
AllSince-snoc n x olds [] h p = (inr p, tt)
AllSince-snoc n x olds (i ∷ is) (q, h) p = (q, AllSince-snoc n x olds is h p)

AllSince-dict_pop :
    (n k : ℕ) (olds : List ℕ) (m : List (ℕ × BundleItem))
    → AllSince n olds (keys m)
    → AllSince n olds (keys (dict_pop k m))
AllSince-dict_pop n k olds [] h = h
AllSince-dict_pop n k olds ((i, x) ∷ m) (p, h) = elim (Bool-cases (i == k)) [
  | inl e ↦ rw e h
  | inr e ↦ rw e (p, AllSince-dict_pop n k olds m h)
]

pub AllSince-tail :
    (n : ℕ) (olds : List ℕ) (item : BundleItem) (rest : List BundleItem)
    → AllSince n olds (transfer_ids (item ∷ rest))
    → AllSince n olds (transfer_ids rest)
AllSince-tail n olds item rest h = elim (Option-cases item.transfer_id) [
  | inl e ↦ rw e at h
  | inr (i, e) ↦ (rw e at h).1
]

pub Since-refl : {I : Type 0} (l : Ledger I) → Since l l
Since-refl l = record {
  tx_grows = omega arith;
  rx_grows = omega arith;
  tx_new = AllSince-refl l.tx_id (transfer_ids l.tx_queue);
  rx_new = AllSince-refl l.rx_id (keys l.rx_queue);
}

Rising-snoc : (lo hi : ℕ) (is : List ℕ) → Rising lo hi is → Rising lo (hi + 1) (is ++ hi ∷ [])
Rising-snoc lo hi [] h = (h, omega arith)
Rising-snoc lo hi (i ∷ is) (p, h) = (p, Rising-snoc (suc i) hi is h)

pub Rising-weaken : (lo lo' hi : ℕ) (is : List ℕ) → lo ≤ lo' → Rising lo' hi is → Rising lo hi is
Rising-weaken lo lo' hi [] p h = omega arith
Rising-weaken lo lo' hi (i ∷ is) p (q, h) = (omega arith, h)

Rising-le : (lo hi : ℕ) (is : List ℕ) → Rising lo hi is → lo ≤ hi
Rising-le lo hi [] h = h
Rising-le lo hi (i ∷ is) (p, h) = omega (arith, Rising-le (suc i) hi is h)

pub Rising-tail :
    (hi : ℕ) (item : BundleItem) (rest : List BundleItem)
    → Rising 0 hi (transfer_ids (item ∷ rest))
    → Rising 0 hi (transfer_ids rest)
Rising-tail hi item rest h = elim (Option-cases item.transfer_id) [
  | inl e ↦ rw e at h
  | inr (i, e) ↦ Rising-weaken 0 (suc i) hi (transfer_ids rest) (omega arith) (rw e at h).1
]

-- A new number goes to the end of the dict: nothing that waits is replaced.
pub dict_set-append :
    (lo hi : ℕ) (x : BundleItem) (m : List (ℕ × BundleItem))
    → Rising lo hi (keys m)
    → dict_set hi x m ≡ m ++ (hi, x) ∷ []
dict_set-append lo hi x [] h = refl
dict_set-append lo hi x ((i, y) ∷ m) (p, h) =
    ground (arith, dict_set-append (suc i) hi x m h, Rising-le (suc i) hi (keys m) h)

keys-append :
    (m : List (ℕ × BundleItem)) (i : ℕ) (x : BundleItem)
    → keys (m ++ (i, x) ∷ []) ≡ keys m ++ i ∷ []
keys-append [] i x = refl
keys-append ((j, y) ∷ m) i x = ap (λ l. j ∷ l) (keys-append m i x)

transfer_ids-append :
    (items : List BundleItem) (x : BundleItem)
    → transfer_ids (items ++ x ∷ []) ≡ transfer_ids items ++ with_number x.transfer_id []
transfer_ids-append [] x = refl
transfer_ids-append (y ∷ items) x = ground (arith, transfer_ids-append items x)

Rising-dict_pop :
    (k lo hi : ℕ) (m : List (ℕ × BundleItem))
    → Rising lo hi (keys m)
    → Rising lo hi (keys (dict_pop k m))
Rising-dict_pop k lo hi [] h = h
Rising-dict_pop k lo hi ((i, x) ∷ m) (p, h) = elim (Bool-cases (i == k)) [
  | inl e ↦ rw e (Rising-weaken lo (suc i) hi (keys m) (omega arith) h)
  | inr e ↦ rw e (p, Rising-dict_pop k (suc i) hi m h)
]

module _ {I : Type 0} {o : Ledger I} where
  pub Leaves-Kept :
      {A : Type 0} (m : Exec (Agent I) A) → ((l : Ledger I) → Keeps (Is l) m) → Keeps (Kept o) m
  Leaves-Kept m p = record {
    at = λ s h. subst (λ l. IsSound l × Since o l) (sym ((p (ledger s)).at s refl)) h;
  }

  -- The transfers in progress and the probes have no part in this.
  pub Kept-other :
      (l : Ledger I) (fragments : List (TransferKey × Transfer I))
      (probes : List (Conversation × Probes))
      → IsSound l × Since o l
      → (let m = record l { rx_fragments = fragments; pmtud_recv = probes } in
          IsSound m × Since o m)
  Kept-other l fragments probes (h, q) = (
    record { received = h.received; waiting = h.waiting; scheduled = h.scheduled },
    record { tx_grows = q.tx_grows; rx_grows = q.rx_grows; tx_new = q.tx_new; rx_new = q.rx_new },
  )

  pub add_rx_item-Kept :
      (address : Address) (port : Option ℕ) (octets : List ℕ) (total : ℕ) (s : Agent I)
      → Kept o s
      → Kept o (add_rx_item (received_item address port octets total) s)
  unfolding add_rx_item
  add_rx_item-Kept address port octets total s (h, q) = (
    record {
      received =
          rw (dict_set-append 0 s.rx_id _ s.rx_queue h.received, keys-append s.rx_queue s.rx_id _)
            (Rising-snoc 0 s.rx_id (keys s.rx_queue) h.received);
      waiting = h.waiting;
      scheduled = h.scheduled;
    },
    record {
      tx_grows = q.tx_grows;
      rx_grows = omega (arith, q.rx_grows);
      tx_new = q.tx_new;
      rx_new =
          rw (dict_set-append 0 s.rx_id _ s.rx_queue h.received, keys-append s.rx_queue s.rx_id _)
            (AllSince-snoc o.rx_id s.rx_id (keys o.rx_queue) (keys s.rx_queue) q.rx_new q.rx_grows);
    },
  )

  -- An item that is no transfer and has no number
  pub message-Keeps :
      (item : BundleItem) → item.transfer_id ≡ none → Keeps (Kept o) (add_tx_item item false)
  unfolding add_tx_item
  message-Keeps item e = record {
    at = λ s (h, q). (
      record {
        received = h.received;
        waiting = rw (transfer_ids-append s.tx_queue _, e, append-nil) h.waiting;
        scheduled = omega (arith, length-append {0} s.tx_queue (_ ∷ []), h.scheduled);
      },
      record {
        tx_grows = q.tx_grows;
        rx_grows = q.rx_grows;
        tx_new = rw (transfer_ids-append s.tx_queue _, e, append-nil) q.tx_new;
        rx_new = q.rx_new;
      },
    );
  }

  pub send_bundle_data-Keeps :
      (octets : List ℕ) (address : Option Address) (port : Option ℕ)
      (local_address : Option Address) (local_port : Option ℕ)
      → Keeps (Kept o) (send_bundle_data octets address port local_address local_port)
  unfolding send_bundle_data add_tx_item
  send_bundle_data-Keeps octets none port a p = record { at = λ s h. h }
  send_bundle_data-Keeps octets (some address) port a p = record {
    at = λ s (h, q). (
      record {
        received = h.received;
        waiting =
            rw (transfer_ids-append s.tx_queue _)
              (Rising-snoc 0 s.tx_id (transfer_ids s.tx_queue) h.waiting);
        scheduled = omega (arith, length-append {0} s.tx_queue (_ ∷ []), h.scheduled);
      },
      record {
        tx_grows = omega (arith, q.tx_grows);
        rx_grows = q.rx_grows;
        tx_new = rw (transfer_ids-append s.tx_queue _) (
            AllSince-snoc o.tx_id s.tx_id (transfer_ids o.tx_queue) (transfer_ids s.tx_queue)
              q.tx_new q.tx_grows);
        rx_new = q.rx_new;
      },
    );
  }

  pub recv_bundle_pop_data-Keeps : (bid : ℕ) → Keeps (Kept o) (recv_bundle_pop_data bid)
  unfolding recv_bundle_pop_data
  recv_bundle_pop_data-Keeps bid = record {
    at = λ s (h, q). elim (Option-cases (dict_get bid s.rx_queue)) [
      | inl e ↦ rw (e, recv_bundle_pop_data) (h, q)
      | inr (x, e) ↦
          rw (e, recv_bundle_pop_data)
            (
              record {
                received = Rising-dict_pop bid 0 s.rx_id s.rx_queue h.received;
                waiting = h.waiting;
                scheduled = h.scheduled;
              },
              record {
                tx_grows = q.tx_grows;
                rx_grows = q.rx_grows;
                tx_new = q.tx_new;
                rx_new = AllSince-dict_pop o.rx_id bid (keys o.rx_queue) s.rx_queue q.rx_new;
              },
            )
    ];
  }
