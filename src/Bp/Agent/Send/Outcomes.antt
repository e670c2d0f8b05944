-- ===== src/Bp/Agent/Send/Outcomes.antt =====
-- What `send_bundle` of src/bp/agent.py sends, if it sends, whatever the steps of the chain do.
use dtn_demo_agent.Common.{
  ℕ, ◌≡◌, refl, sym, subst, ap, ◌∙◌, Bool, false, Option, none, some, List, [], ◌∷◌, ◌++◌, String,
  arith, Option-cases, Bool-cases, inl, inr,
}
use dtn_demo_agent.Common.Exec.{Exec, Outcome, done, raised, continue}
use dtn_demo_agent.Common.Exec.Ends.{is_stuck, Ends}
use dtn_demo_agent.Bp.Bundle.{
  Bundle, num_payload, CanonicalBlock, fill_fields, fill_block, map_blocks, update_from_admin,
  admin_block, ensure_btsd,
}
use dtn_demo_agent.Bp.Crc.{Crc, update_all_crc, check_all_crc, check-update_all, update_block_crc}
use dtn_demo_agent.Bp.Container.{Container, fix_block_num, fix_blk_num, largest, is_payload, reload}
use dtn_demo_agent.Bp.Container.Numbers.{IsNew-loop}
use dtn_demo_agent.Bp.Agent.Send.{
  Job, Via, Layers, in_job, on_ctr, apply_primary, renumber, number_and_fill, tx_steps,
  choose_sender, finish_send, crc_and_send, send_bundle, fill,
}

-- Every block has a number.
abbrev pub Numbered : List CanonicalBlock → Type 0
Numbered [] = Unit
Numbered (b ∷ bs) = ((n : ℕ) × (b.block_num ≡ some n)) × Numbered bs

admin-num : (b : CanonicalBlock) → (admin_block b).block_num ≡ b.block_num
admin-num b = ground arith

fill-num : (b : CanonicalBlock) → (fill_block b).block_num ≡ b.block_num
unfolding fill_block ensure_btsd
fill-num b = ground arith

crc-num :
    (crc : Crc) (b : CanonicalBlock)
    → (update_block_crc crc (ensure_btsd b)).block_num ≡ b.block_num
unfolding ensure_btsd update_block_crc
crc-num crc b = ground arith

Numbered-map :
    (f : CanonicalBlock → CanonicalBlock)
    → ((b : CanonicalBlock) → (f b).block_num ≡ b.block_num)
    → (bs : List CanonicalBlock) → Numbered bs
    → Numbered (map_blocks f bs)
Numbered-map f k [] h = tt
Numbered-map f k (b ∷ bs) (h, hs) = ((h.0, k b ∙ h.1), Numbered-map f k bs hs)

blk-fix :
    (last : ℕ) (nums : List ℕ) (b : CanonicalBlock)
    → (r : ℕ × ℕ) × (fix_blk_num last nums b ≡ some r)
unfolding fix_blk_num
blk-fix last nums b = elim (Option-cases b.block_num) [
  | inr (n, e) ↦ ((last, n), rw (e, fix_blk_num) refl)
  | inl e ↦ elim (Bool-cases (is_payload b.type_code)) [
    | inl p ↦ ((last, num_payload), rw (e, fix_blk_num, p) refl)
    | inr p ↦
        let (n, q, i) = IsNew-loop (largest nums) last nums (omega arith) in
        ((n, n), rw (e, fix_blk_num, p, q) refl)
  ]
]

-- `fix_block_num` always ends, and each block has a number then.
pub fix_block_num-Numbered :
    (last : ℕ) (nums : List ℕ) (bs : List CanonicalBlock)
    → (r : ℕ × List CanonicalBlock) × (fix_block_num last nums bs ≡ some r) × Numbered r.1
unfolding fix_block_num
fix_block_num-Numbered last nums [] = ((last, []), refl, tt)
fix_block_num-Numbered last nums (b ∷ bs) =
    let ((last', n), e) = blk-fix last nums b in
    let ((last'', bs'), f, h) = fix_block_num-Numbered last' nums bs in
    ((last'', record b { block_num = some n } ∷ bs'), rw (e, f) refl, ((n, refl), h))

renumber-Numbered :
    (c : Container) → (d : Container) × (renumber c ≡ done tt d) × Numbered d.bundle.blocks
unfolding renumber
renumber-Numbered c =
    let ((last, bs), e, h) = fix_block_num-Numbered c.last_block_num c.block_nums c.bundle.blocks in
    (
      record c { last_block_num = last; bundle = record (c.bundle) { blocks = bs } },
      rw (e, renumber) refl,
      h,
    )

fill-Numbered : (c : Container) → Numbered c.bundle.blocks → Numbered (fill c).bundle.blocks
unfolding fill_fields update_from_admin
fill-Numbered c h =
    Numbered-map fill_block fill-num (map_blocks admin_block c.bundle.blocks)
      (Numbered-map admin_block admin-num c.bundle.blocks h)

crc-Numbered : (crc : Crc) (b : Bundle) → Numbered b.blocks → Numbered (update_all_crc crc b).blocks
unfolding update_all_crc update_from_admin
crc-Numbered crc b h =
    Numbered-map (λ x. update_block_crc crc (ensure_btsd x)) (crc-num crc)
      (map_blocks admin_block b.blocks) (Numbered-map admin_block admin-num b.blocks h)

number_and_fill-Numbered :
    (c : Container) → (d : Container) × (number_and_fill c ≡ done tt d) × Numbered d.bundle.blocks
unfolding number_and_fill
number_and_fill-Numbered c =
    let (d, e, h) = renumber-Numbered c in (fill d, rw e refl, fill-Numbered d h)

-- Of a call that sends a bundle or raises: either one bundle is sent after those before, with a number on
-- each block and with CRCs that check, or an exception leaves it, and nothing is sent.
abbrev pub Sends : {X : Type 0} → Crc → List (Via × Bundle) → Outcome (Job X) (Unit {0}) → Type 0
Sends crc sent (raised e k) = (k.sent ≡ sent) × (is_stuck e ≡ false)
Sends crc sent (done u k) =
    (via : Via) × (b : Bundle) × (k.sent ≡ sent ++ (via, b) ∷ [])
    × (check_all_crc crc b ≡ [])
    × Numbered b.blocks

-- Of a call before that: nothing is sent.
abbrev Holds : {X A : Type 0} → List (Via × Bundle) → Outcome (Job X) A → Type 0
Holds sent (raised e k) = (k.sent ≡ sent) × (is_stuck e ≡ false)
Holds sent (done u k) = k.sent ≡ sent

continue-Sends :
    {X A : Type 0} (crc : Crc) (sent : List (Via × Bundle)) (o : Outcome (Job X) A)
    (f : A → Exec (Job X) (Unit {0}))
    → Holds sent o
    → ((a : A) (k : Job X) → k.sent ≡ sent → Sends crc sent (f a k))
    → Sends crc sent (continue o f)
continue-Sends crc sent (raised e k) f h g = h
continue-Sends crc sent (done a k) f h g = g a k h

reload-Ends : (c : Container) → Ends (reload c)
unfolding reload
reload-Ends c = ground arith

module _ {X : Type 0} where
  finish_send-Sends :
      (crc : Crc) (via : Option Via) (sent : List (Via × Bundle)) (j : Job X)
      → j.sent ≡ sent
      → Sends crc sent (finish_send crc via j)
  unfolding finish_send
  finish_send-Sends crc none sent j h = (h, refl)
  finish_send-Sends crc (some via) sent j h =
      let (d, e, n) = number_and_fill-Numbered j.ctr in
      subst
        (λ (o : Outcome Container (Unit {0})).
          Sends crc sent (continue (in_job j o) (λ _ k. done tt (crc_and_send crc via k))))
        (sym e)
        (
          via,
          update_all_crc crc d.bundle,
          ap (λ l. l ++ (via, update_all_crc crc d.bundle) ∷ []) h,
          check-update_all crc d.bundle,
          crc-Numbered crc d.bundle n,
        )

  choose_sender-Holds :
      (layers : Layers) (sent : List (Via × Bundle)) (j : Job X)
      → j.sent ≡ sent
      → Holds sent (choose_sender layers j)
  unfolding choose_sender
  choose_sender-Holds layers sent j h = ground (arith, h)

  pub apply_primary-sent :
      (node_id : String) (now : ℕ) (j : Job X) → (apply_primary node_id now j).sent ≡ j.sent
  unfolding apply_primary
  apply_primary-sent node_id now j = ground arith

  tx_steps-sent :
      (chain : List (Exec (Container × X) Bool)) (j : Job X) → (tx_steps chain j).sent ≡ j.sent
  unfolding tx_steps
  tx_steps-sent chain j = refl

  in_job-Holds :
      (sent : List (Via × Bundle)) (j : Job X) (o : Outcome Container (Unit {0}))
      → j.sent ≡ sent
      → Ends o
      → Holds {A = Unit {0}} sent (in_job j o)
  in_job-Holds sent j (done u c) h i = h
  in_job-Holds sent j (raised e c) h i = (h, i)

  number-Holds :
      (sent : List (Via × Bundle)) (j : Job X)
      → j.sent ≡ sent
      → Holds {A = Unit {0}} sent (on_ctr number_and_fill j)
  number-Holds sent j h =
      let (d, e, n) = number_and_fill-Numbered j.ctr in
      in_job-Holds sent j (number_and_fill j.ctr) h
        (subst (λ (o : Outcome Container (Unit {0})). Ends o) (sym e) tt)

  reload-Holds :
      (sent : List (Via × Bundle)) (j : Job X)
      → j.sent ≡ sent
      → Holds {A = Unit {0}} sent (on_ctr reload j)
  reload-Holds sent j h = in_job-Holds sent j (reload j.ctr) h (reload-Ends j.ctr)

  -- `send_bundle` never lacks fuel, and it sends one bundle or raises an exception, whatever the steps of
  -- the chain do to the bundle. If it raises, nothing is sent. If it returns, one bundle was given to a
  -- sender, after those sent before: each of its blocks has a number, and no CRC of it fails.
  pub send_bundle-Sends :
      (crc : Crc) (layers : Layers) (node_id : String) (now : ℕ)
      (tx_chain : List (Exec (Container × X) Bool)) (j : Job X)
      → Sends crc j.sent (send_bundle crc layers node_id now tx_chain j)
  unfolding send_bundle tx_steps
  send_bundle-Sends crc layers node_id now tx_chain j =
      continue-Sends crc j.sent (on_ctr reload j) _ (reload-Holds j.sent j refl) (λ _ k h.
        let t = apply_primary node_id now k in
        continue-Sends crc j.sent (on_ctr number_and_fill t) _
          (number-Holds j.sent t (apply_primary-sent node_id now k ∙ h))
          (λ _ u g.
            let v = tx_steps tx_chain u in
            continue-Sends crc j.sent (choose_sender layers v) _
              (choose_sender-Holds layers j.sent v g)
              (λ via w f. finish_send-Sends crc via j.sent w f)))
