-- ===== src/Bp/Reassemble/Whole.antt =====
-- What `_reassemble` of src/bp/app/fragment.py delivers, in whatever order the fragments come.
use dtn_demo_agent.Common.{
  ℕ, ◌≡◌, refl, ap, sym, ◌∙◌, subst, true, Option, none, some, List, [], ◌∷◌, ◌++◌, length, arith,
  All, inl, inr, Bool-cases, Option-cases,
}
use dtn_demo_agent.Common.Exec.{Outcome, done, raised, continue, final}
use dtn_demo_agent.Common.Portion.{Portion}
use dtn_demo_agent.Common.Portion.Assembly.{IsSlice, Covers}
use dtn_demo_agent.Bp.Bundle.{Bundle, CanonicalBlock, flag_set, is_fragment, num_payload}
use dtn_demo_agent.Bp.Container.{Container, Ident, deliver, block_num, has_action}
use dtn_demo_agent.Bp.Container.{same_ident}
use dtn_demo_agent.Bp.Reassemble.{
  Reassembly, Table, final_ident, ident_get, ident_set, ident_del, inject, synthesize, settle,
  find_reassembly, reassemble,
}
use dtn_demo_agent.Bp.Reassemble.Synthesis.{Carries, synthesize-Carries}
use dtn_demo_agent.Bp.Reassemble.Agrees.{
  Agrees, new-Agrees, inject-Agrees, complete_lem, covered-equal,
}

All-snoc :
    {A : Type 0} (P : A → Type 0) (xs : List A) (x : A) → All P xs → P x → All P (xs ++ x ∷ [])
All-snoc P [] x h p = (p, tt)
All-snoc P (y ∷ ys) x (q, h) p = (q, All-snoc P ys x h p)

module _ (portion : Portion) where
  -- An entry of the table, if it is of this bundle, is of its payload.
  abbrev pub EntryAgrees : Ident → List ℕ → (Ident × Reassembly portion.Interval) → Type 0
  EntryAgrees ident payload e = same_ident e.0 ident ≡ true → Agrees portion payload e.1

  EntryAgrees-get :
      (ident : Ident) (payload : List ℕ) (m : List (Ident × Reassembly portion.Interval))
      (r : Reassembly portion.Interval)
      → All (EntryAgrees ident payload) m
      → ident_get ident m ≡ some r
      → Agrees portion payload r
  EntryAgrees-get ident payload [] r h e = absurd cc
  EntryAgrees-get ident payload ((j, w) ∷ m) r (a, h) e = elim (Bool-cases (same_ident j ident)) [
    | inl b ↦ subst (λ v. Agrees portion payload v) (ground arith) (a b)
    | inr b ↦ EntryAgrees-get ident payload m r h (ground arith)
  ]

  EntryAgrees-set :
      (ident : Ident) (payload : List ℕ) (m : List (Ident × Reassembly portion.Interval))
      (r : Reassembly portion.Interval)
      → All (EntryAgrees ident payload) m
      → Agrees portion payload r
      → All (EntryAgrees ident payload) (ident_set ident r m)
  EntryAgrees-set ident payload [] r h a = ((λ e. a), tt)
  EntryAgrees-set ident payload ((j, w) ∷ m) r (b, h) a = elim (Bool-cases (same_ident j ident)) [
    | inl e ↦ rw e ((λ q. a), h)
    | inr e ↦ rw e (b, EntryAgrees-set ident payload m r h a)
  ]

  EntryAgrees-del :
      (ident : Ident) (payload : List ℕ) (m : List (Ident × Reassembly portion.Interval))
      → All (EntryAgrees ident payload) m
      → All (EntryAgrees ident payload) (ident_del ident m)
  EntryAgrees-del ident payload [] h = tt
  EntryAgrees-del ident payload ((j, w) ∷ m) (b, h) = elim (Bool-cases (same_ident j ident)) [
    | inl e ↦ rw e h
    | inr e ↦ rw e (b, EntryAgrees-del ident payload m h)
  ]

  -- What is put together of a bundle, and all that waits to be received, is of the payload.
  pub record IsSound (ident : Ident) (payload : List ℕ) (t : Table portion) : Type 0 where
    pub kept : All (EntryAgrees ident payload) t.reassembly
    pub delivered : All (Carries payload) t.idle

  find-Agrees :
      (ident : Ident) (payload : List ℕ) (t : Table portion)
      → All (EntryAgrees ident payload) t.reassembly
      → Agrees portion payload (find_reassembly portion ident (length payload) t)
  unfolding find_reassembly
  find-Agrees ident payload t h = elim (Option-cases (ident_get ident t.reassembly)) [
    | inl e ↦ rw (e, find_reassembly) (new-Agrees portion payload)
    | inr (r, e) ↦ rw (e, find_reassembly) (EntryAgrees-get ident payload t.reassembly r h e)
  ]

  -- The table without the bundle
  dropped : Ident → Table portion → Table portion
  dropped ident t = record t { reassembly = ident_del ident t.reassembly }

  dropped-IsSound :
      (ident : Ident) (payload : List ℕ) (t : Table portion)
      → IsSound ident payload t
      → IsSound ident payload (dropped ident t)
  unfolding dropped
  dropped-IsSound ident payload t h = record {
    kept = EntryAgrees-del ident payload t.reassembly h.kept;
    delivered = h.delivered;
  }

  -- The synthesized bundle waits to be received, unless the synthesis raised.
  received :
      Ident → Table portion → Outcome Container (Unit {0}) → Outcome (Table portion) (Unit {0})
  unfolding dropped
  received ident t (raised e c) = raised e (dropped ident t)
  received ident t (done _ c) = done tt (record (dropped ident t) { idle = t.idle ++ c ∷ [] })

  received-IsSound :
      (ident : Ident) (payload : List ℕ) (t : Table portion) (q : Outcome Container (Unit {0}))
      → ((c : Container) → q ≡ done tt c → Carries payload c)
      → IsSound ident payload t
      → IsSound ident payload (final (received ident t q))
  unfolding dropped received
  received-IsSound ident payload t (raised e c) k h = dropped-IsSound ident payload t h
  received-IsSound ident payload t (done _ c) k h = record {
    kept = EntryAgrees-del ident payload t.reassembly h.kept;
    delivered = All-snoc (Carries payload) t.idle c h.delivered (k c refl);
  }

  completed-IsSound :
      (ident : Ident) (payload : List ℕ) (r : Reassembly portion.Interval) (t : Table portion)
      (o : Option Bundle)
      → r.first_frag ≡ o
      → r.octets ≡ payload
      → portion.equal r.valid r.total_valid ≡ true
      → IsSound ident payload t
      → IsSound ident payload (final (settle portion ident r t))
  unfolding settle received dropped
  completed-IsSound ident payload r t none f w e h =
      rw (e, f, settle) (dropped-IsSound ident payload t h)
  completed-IsSound ident payload r t (some first) f w e h =
      rw (e, f, settle)
        (received-IsSound ident payload t (synthesize portion r.octets first)
          (λ c q. subst (λ xs. Carries xs c) w (synthesize-Carries portion r.octets first c q)) h)

  settle-IsSound :
      (ident : Ident) (payload : List ℕ) (r : Reassembly portion.Interval) (t : Table portion)
      → Agrees portion payload r
      → IsSound ident payload t
      → IsSound ident payload (final (settle portion ident r t))
  unfolding settle
  settle-IsSound ident payload r t a h = elim (Bool-cases (portion.equal r.valid r.total_valid)) [
    | inl e ↦
        completed-IsSound ident payload r t r.first_frag refl (complete_lem portion payload r a e) e
          h
    | inr e ↦
        rw (e, settle)
          (record {
            kept = EntryAgrees-set ident payload t.reassembly r h.kept a;
            delivered = h.delivered;
          })
  ]

  -- A fragment to deliver of the bundle with this identity and payload, and the octets that it has.
  pub record IsPiece (ident : Ident) (payload : List ℕ) (c : Container) : Type 0 where
    pub to_deliver : has_action deliver c.actions ≡ true
    pub fragment : flag_set c.bundle.primary.bundle_flags is_fragment ≡ true
    pub same_bundle : final_ident c ≡ ident
    pub total : c.bundle.primary.total_app_data_len ≡ length payload
    pub blk : CanonicalBlock
    pub found : block_num num_payload c ≡ done blk c
    pub octets : List ℕ
    pub content : blk.btsd ≡ some octets
    pub slice : IsSlice payload c.bundle.primary.fragment_offset octets

  -- The state of its bundle, with the octets of a fragment.
  abbrev pub written :
      Container → List ℕ → Reassembly portion.Interval → Reassembly portion.Interval
  written c xs r = inject portion c.bundle c.bundle.primary.fragment_offset xs r

  piece_settles :
      (ident : Ident) (payload : List ℕ) (c : Container) (t : Table portion)
      → (p : IsPiece ident payload c)
      → reassemble portion c t
        ≡ continue
            (settle portion ident
              (inject portion c.bundle c.bundle.primary.fragment_offset p.octets
                (find_reassembly portion ident (length payload) t))
              t)
            (λ _ u. done (true, record c { actions = [] }) u)
  unfolding reassemble
  piece_settles ident payload c t p =
      rw (p.to_deliver, p.fragment, p.found, p.content, p.same_bundle, p.total)

  -- `_reassemble` for one container after the other, whatever it raises
  abbrev pub reassemble_all : List Container → Table portion → Table portion
  reassemble_all [] t = t
  reassemble_all (c ∷ cs) t = reassemble_all cs (final (reassemble portion c t))

  final-continue :
      {A B : Type 0} (f : A → B) (o : Outcome (Table portion) A)
      → final (continue o (λ a u. done (f a) u)) ≡ final o
  final-continue f (done a u) = refl
  final-continue f (raised e u) = refl

  piece-IsSound :
      (ident : Ident) (payload : List ℕ) (c : Container) (t : Table portion)
      → IsPiece ident payload c
      → IsSound ident payload t
      → IsSound ident payload (final (reassemble portion c t))
  piece-IsSound ident payload c t p h =
      let r = written c p.octets (find_reassembly portion ident (length payload) t) in
      subst (λ u. IsSound ident payload u)
        (sym (
          ap (λ o. final o) (piece_settles ident payload c t p)
          ∙ final-continue (λ _. (true, record c { actions = [] })) (settle portion ident r t)))
        (settle-IsSound ident payload r t
          (inject-Agrees portion payload p.octets c.bundle.primary.fragment_offset c.bundle _
            p.slice (find-Agrees ident payload t h.kept))
          h)

  -- Fragments of one bundle, received in any order, any number of times, and overlapping or not, keep
  -- the table sound: what is put together of that bundle agrees with its payload wherever octets are
  -- there, and each bundle that is delivered has the whole payload, and nothing else, in its payload
  -- block.
  pub reassemble-IsSound :
      (ident : Ident) (payload : List ℕ) (cs : List Container) (t : Table portion)
      → All (IsPiece ident payload) cs
      → IsSound ident payload t
      → IsSound ident payload (reassemble_all cs t)
  reassemble-IsSound ident payload [] t ps h = h
  reassemble-IsSound ident payload (c ∷ cs) t (p, ps) h =
      reassemble-IsSound ident payload cs (final (reassemble portion c t)) ps
        (piece-IsSound ident payload c t p h)

  written-Agrees :
      (ident : Ident) (payload : List ℕ) (c : Container) (t : Table portion)
      → (p : IsPiece ident payload c) → All (EntryAgrees ident payload) t.reassembly
      → Agrees portion payload
          (written c p.octets (find_reassembly portion ident (length payload) t))
  written-Agrees ident payload c t p h =
      inject-Agrees portion payload p.octets c.bundle.primary.fragment_offset c.bundle _ p.slice
        (find-Agrees ident payload t h)

  -- The fragment after which every octet of the payload is there ends the reassembly: nothing is
  -- raised, the bundle leaves the table, and one bundle, which has the payload, waits to be received
  -- behind those that waited before, whatever these are. The conditions: the fragment is to be
  -- delivered and has octets of the payload at its offset, what the table has of this bundle, if
  -- anything, agrees with the payload, and with this fragment every octet is there, the first fragment
  -- is known, and a bundle can be made from its blocks.
  pub reassemble_delivers :
      (ident : Ident) (payload : List ℕ) (c : Container) (t : Table portion) (first : Bundle)
      (d : Container)
      → (p : IsPiece ident payload c) → All (EntryAgrees ident payload) t.reassembly
      → Covers portion payload
          (written c p.octets (find_reassembly portion ident (length payload) t)).valid
      → (written c p.octets (find_reassembly portion ident (length payload) t)).first_frag
        ≡ some first
      → synthesize portion payload first ≡ done tt d
      → (reassemble portion c t
          ≡ done
              (true, record c { actions = [] })
              (record t { reassembly = ident_del ident t.reassembly; idle = t.idle ++ d ∷ [] }))
        × Carries payload d
  unfolding settle
  reassemble_delivers ident payload c t first d p h cov f e =
      let a = written-Agrees ident payload c t p h in
      (
        piece_settles ident payload c t p
            ∙ rw (
              covered-equal portion payload _ a cov,
              f,
              complete_lem portion payload _ a (covered-equal portion payload _ a cov),
              e,
            ),
        synthesize-Carries portion payload first d e,
      )
