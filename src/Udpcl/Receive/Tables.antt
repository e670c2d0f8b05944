-- ===== src/Udpcl/Receive/Tables.antt =====
-- The table of transfers of src/udpcl/agent.py.
use dtn_demo_agent.Common.{
  ℕ, ◌≡◌, refl, ap, subst, true, Option, none, some, List, [], ◌∷◌, eq_iff, ◌==◌, arith, Bool-cases,
  inl, inr, eq→eqb, All,
}
use dtn_demo_agent.Udpcl.Conversation.{Ip, Address, numeric, name, same_ip, same_opt, same_address}
use dtn_demo_agent.Udpcl.State.{TransferKey}
use dtn_demo_agent.Udpcl.Receive.{same_key, key_get, key_set, key_del}

pub same_ip_refl : (a : Ip) → same_ip a a ≡ true
same_ip_refl a = ground (arith, eq→eqb a.value a.value refl)

same_address_refl : (a : Address) → same_address a a ≡ true
same_address_refl (numeric a) = same_ip_refl a
same_address_refl (name s) = (eq_iff s s).1 refl

pub same_port_refl : (p : Option ℕ) → same_opt ◌==◌ p p ≡ true
same_port_refl none = refl
same_port_refl (some n) = eq→eqb n n refl

pub same_key_refl : (k : TransferKey) → same_key k k ≡ true
same_key_refl k =
    ground
      (arith, same_address_refl k.address, same_port_refl k.port, eq→eqb k.xfer_id k.xfer_id refl)

module _ {V : Type 0} where
  pub get-set :
      (k : TransferKey) (v : V) (m : List (TransferKey × V)) → key_get k (key_set k v m) ≡ some v
  get-set k v [] = rw (same_key_refl k) refl
  get-set k v ((j, w) ∷ m) = elim (Bool-cases (same_key j k)) [
    | inl e ↦ rw (e, e) refl
    | inr e ↦ rw (e, e) (get-set k v m)
  ]

  pub set-set :
      (k : TransferKey) (v w : V) (m : List (TransferKey × V))
      → key_set k w (key_set k v m) ≡ key_set k w m
  set-set k v w [] = rw (same_key_refl k) refl
  set-set k v w ((j, u) ∷ m) = elim (Bool-cases (same_key j k)) [
    | inl e ↦ rw (e, e) refl
    | inr e ↦ rw (e, e) (ap (λ l. (j, u) ∷ l) (set-set k v w m))
  ]

  pub del-set :
      (k : TransferKey) (v : V) (m : List (TransferKey × V))
      → key_get k m ≡ none
      → key_del k (key_set k v m) ≡ m
  del-set k v [] e = rw (same_key_refl k) refl
  del-set k v ((j, w) ∷ m) e = elim (Bool-cases (same_key j k)) [
    | inl q ↦ absurd (ground arith)
    | inr q ↦ rw (q, q) (ap (λ l. (j, w) ∷ l) (del-set k v m (rw q at e)))
  ]

  pub del_absent :
      (k : TransferKey) (m : List (TransferKey × V)) → key_get k m ≡ none → key_del k m ≡ m
  del_absent k [] e = refl
  del_absent k ((j, w) ∷ m) e = elim (Bool-cases (same_key j k)) [
    | inl q ↦ absurd (ground arith)
    | inr q ↦ rw q (ap (λ l. (j, w) ∷ l) (del_absent k m (rw q at e)))
  ]

  -- What holds of the entry of a key
  abbrev pub EntryIs : TransferKey → (V → Type 0) → (TransferKey × V) → Type 0
  EntryIs k P e = same_key e.0 k ≡ true → P e.1

  pub EntryIs-get :
      (k : TransferKey) (P : V → Type 0) (m : List (TransferKey × V)) (v : V)
      → All (EntryIs k P) m
      → key_get k m ≡ some v
      → P v
  EntryIs-get k P [] v h e = absurd cc
  EntryIs-get k P ((j, w) ∷ m) v (a, h) e = elim (Bool-cases (same_key j k)) [
    | inl b ↦ subst (λ x. P x) (ground arith) (a b)
    | inr b ↦ EntryIs-get k P m v h (rw b at e)
  ]

  pub EntryIs-set :
      (k : TransferKey) (P : V → Type 0) (m : List (TransferKey × V)) (v : V)
      → All (EntryIs k P) m
      → P v
      → All (EntryIs k P) (key_set k v m)
  EntryIs-set k P [] v h p = ((λ e. p), tt)
  EntryIs-set k P ((j, w) ∷ m) v (a, h) p = elim (Bool-cases (same_key j k)) [
    | inl e ↦ rw e ((λ q. p), h)
    | inr e ↦ rw e (a, EntryIs-set k P m v h p)
  ]

  pub EntryIs-del :
      (k : TransferKey) (P : V → Type 0) (m : List (TransferKey × V))
      → All (EntryIs k P) m
      → All (EntryIs k P) (key_del k m)
  EntryIs-del k P [] h = tt
  EntryIs-del k P ((j, w) ∷ m) (a, h) = elim (Bool-cases (same_key j k)) [
    | inl e ↦ rw e h
    | inr e ↦ rw e (a, EntryIs-del k P m h)
  ]
