-- ===== src/Udpcl/RoundTrip/Pieces.antt =====
-- The fragments of `_send_transfer` of src/udpcl/agent.py, received one after the other.
use dtn_demo_agent.Common.{
  ℕ, zero, suc, ◌+◌, ◌≤◌, ◌<◌, ◌≡◌, refl, ap, ◌∙◌, true, false, none, List, [], ◌∷◌, arith,
  Bool-cases, inl, inr, length, take, drop, ltb, eq→eqb, lt→ltb,
}
use dtn_demo_agent.Common.Exec.{done}
use dtn_demo_agent.Common.Portion.{Portion}
use dtn_demo_agent.Common.Portion.Assembly.{IsSlice, filled_equal}
use dtn_demo_agent.Udpcl.State.{TransferKey, Transfer, Agent}
use dtn_demo_agent.Udpcl.Queue.{add_rx_item}
use dtn_demo_agent.Udpcl.Send.Loop.{piece, length-piece}
use dtn_demo_agent.Udpcl.Receive.{
  key_get, key_set, key_del, new_transfer, add_fragment, settle_transfer, recv_fragment,
}
use dtn_demo_agent.Udpcl.Receive.Tables.{get-set, set-set, del-set, del_absent}
use dtn_demo_agent.Udpcl.Receive.Assembly.{Agrees, add-Agrees, whole, settle_whole, settle_part}

take-length : (n : ℕ) (xs : List ℕ) → take (length (take n xs)) xs ≡ take n xs
take-length zero xs = refl
take-length (suc n) [] = refl
take-length (suc n) (x ∷ xs) = ap (λ l. x ∷ l) (take-length n xs)

piece-IsSlice :
    (content : List ℕ) (remain off : ℕ)
    → off ≤ length content
    → IsSlice content off (piece content remain off)
piece-IsSlice content remain off h = record {
  within = omega (arith, length-piece content remain off);
  same = take-length remain (drop off content);
}

module _ (portion : Portion) (key : TransferKey) (content : List ℕ) where
  -- The octets up to `off` are there.
  pub record InProgress (off : ℕ) (x : Transfer portion.Interval) : Type 0 where
    pub agrees : Agrees portion key content x
    pub upto : (i : ℕ) → portion.member x.valid i ≡ ltb i off

  pub add-InProgress :
      (remain off : ℕ) (x : Transfer portion.Interval)
      → off ≤ length content
      → InProgress off x
      → InProgress
          (off + length (piece content remain off))
          (add_fragment portion off (piece content remain off) x)
  unfolding add_fragment
  add-InProgress remain off x h p = record {
    agrees =
        add-Agrees portion key content off (piece content remain off) x
          (piece-IsSlice content remain off h) p.agrees;
    upto = λ i. ground (
      arith,
      portion.member-union x.valid
          (portion.closedopen off (off + length (piece content remain off))) i,
      portion.member-closedopen off (off + length (piece content remain off)) i,
      p.upto i,
    );
  }

  complete_equal :
      (off : ℕ) (x : Transfer portion.Interval)
      → InProgress off x
      → length content ≤ off
      → portion.equal x.valid x.total_valid ≡ true
  complete_equal off x p h =
      filled_equal portion content x.total_valid x.valid x.octets p.agrees.filled
        (λ i lt. p.upto i ∙ lt→ltb i off (omega arith))

  incomplete_equal :
      (off : ℕ) (x : Transfer portion.Interval)
      → InProgress off x
      → off < length content
      → portion.equal x.valid x.total_valid ≡ false
  incomplete_equal off x p h = elim (Bool-cases (portion.equal x.valid x.total_valid)) [
    | inl e ↦ absurd (
        ground (
          arith,
          portion.equal→member x.valid x.total_valid e off,
          p.upto off,
          p.agrees.filled.total,
          portion.member-closedopen 0 (length content) off,
        ))
    | inr e ↦ e
  ]

  module _ (s : Agent portion.Interval) where
    -- The agent with the transfer in progress
    abbrev pub with_transfer : Transfer portion.Interval → Agent portion.Interval
    with_transfer x = record s { rx_fragments = key_set key x s.rx_fragments }

    -- `t` is `s`, but for the transfer, which is `x`, or is still to begin.
    pub record Holds (x : Transfer portion.Interval) (t : Agent portion.Interval) : Type 0 where
      found :
          (off : ℕ) (xs : List ℕ)
          → recv_fragment portion key (length content) off xs t
            ≡ done tt (settle_transfer portion (add_fragment portion off xs x) t)
      deleted : record t { rx_fragments = key_del key t.rx_fragments } ≡ s
      replaced :
          (y : Transfer portion.Interval)
          → record t { rx_fragments = key_set key y t.rx_fragments } ≡ with_transfer y
      pub same_config : t.config ≡ s.config

    pub start-Holds :
        key_get key s.rx_fragments ≡ none → Holds (new_transfer portion key (length content)) s
    unfolding recv_fragment
    start-Holds e = record {
      found = λ off xs. rw (e, recv_fragment) refl;
      deleted = ap (λ m. record s { rx_fragments = m }) (del_absent key s.rx_fragments e);
      replaced = λ y. refl;
      same_config = refl;
    }

    pub with-Holds :
        (x : Transfer portion.Interval)
        → key_get key s.rx_fragments ≡ none
        → Agrees portion key content x
        → Holds x (with_transfer x)
    unfolding recv_fragment
    with-Holds x e a = record {
      found = λ off xs.
          rw
            (
              get-set key x s.rx_fragments,
              recv_fragment,
              eq→eqb x.total_length (length content) a.total,
            )
            refl;
      deleted = ap (λ m. record s { rx_fragments = m }) (del-set key x s.rx_fragments e);
      replaced = λ y. ap (λ m. record s { rx_fragments = m }) (set-set key x y s.rx_fragments);
      same_config = refl;
    }

    -- A fragment that ends the transfer, and one that does not
    pub last_piece :
        (off off' : ℕ) (xs : List ℕ) (x : Transfer portion.Interval) (t : Agent portion.Interval)
        → Holds x t
        → InProgress off' (add_fragment portion off xs x)
        → length content ≤ off'
        → recv_fragment portion key (length content) off xs t
          ≡ done tt (add_rx_item (whole portion key content) s)
    last_piece off off' xs x t h p le =
        h.found off xs
        ∙ ap (λ u. done tt u)
            (settle_whole portion key content _ t p.agrees (complete_equal off' _ p le)
              ∙ ap (λ u. add_rx_item (whole portion key content) u) h.deleted)

    pub inner_piece :
        (off off' : ℕ) (xs : List ℕ) (x : Transfer portion.Interval) (t : Agent portion.Interval)
        → Holds x t
        → InProgress off' (add_fragment portion off xs x)
        → off' < length content
        → recv_fragment portion key (length content) off xs t
          ≡ done tt (with_transfer (add_fragment portion off xs x))
    inner_piece off off' xs x t h p lt =
        h.found off xs
        ∙ ap (λ u. done tt u)
            (settle_part portion key content _ t p.agrees (incomplete_equal off' _ p lt)
              ∙ h.replaced _)
