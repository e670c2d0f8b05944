-- ===== src/Tcpcl/Session/Queue/Invariant.antt =====
-- The transfers of src/tcpcl/session.py, over every step that a session can make.
use dtn_demo_agent.Common.{
  ℕ, suc, ◌+◌, ◌≤◌, ◌≡◌, refl, subst, true, false, Option, none, some, List, [], ◌∷◌, ◌++◌, arith,
  Bool-cases, eqb→eq, inl, inr, ◌==◌, contains, remove, if◌then◌else◌,
}
use dtn_demo_agent.Tcpcl.Session.Queue.{Queue}

abbrev pub count : ℕ → List ℕ → ℕ
count k [] = 0
count k (x ∷ xs) = (if x == k then 1 else 0) + count k xs

abbrev pub count_current : ℕ → Option ℕ → ℕ
count_current k none = 0
count_current k (some x) = if x == k then 1 else 0

-- How often a transfer is in the queue
abbrev pub places : ℕ → Queue → ℕ
places k q = count k q.waiting + count_current k q.current + count k q.unacked

-- Every transfer of the queue is known, it is in one place of the queue at most, and the IDs that are
-- still to be given are not known.
pub record IsConsistent (q : Queue) : Type 0 where
  pub final_ack : q.final_ack ≡ true
  pub known : (k : ℕ) → places k q ≤ count k q.known
  pub once : (k : ℕ) → count k q.known ≤ 1
  pub fresh : (k : ℕ) → q.next_id ≤ k → count k q.known ≡ 0

count-append : (k : ℕ) (xs ys : List ℕ) → count k (xs ++ ys) ≡ count k xs + count k ys
count-append k [] ys = omega arith
count-append k (x ∷ xs) ys = omega (arith, count-append k xs ys)

count-remove_one :
    (k : ℕ) (xs : List ℕ) → contains k xs ≡ true → suc (count k (remove k xs)) ≡ count k xs
count-remove_one k [] e = absurd cc
count-remove_one k (x ∷ xs) e = ground (arith, count-remove_one k xs)

count-remove_other : (k x : ℕ) (xs : List ℕ) → (x == k) ≡ false → count k (remove x xs) ≡ count k xs
count-remove_other k x [] e = refl
count-remove_other k x (y ∷ ys) e = ground (arith, count-remove_other k x ys)

pub count-absent : (k : ℕ) (xs : List ℕ) → contains k xs ≡ false → count k xs ≡ 0
count-absent k [] e = refl
count-absent k (x ∷ xs) e = ground (arith, count-absent k xs)

pub count-present : (k : ℕ) (xs : List ℕ) → contains k xs ≡ true → 1 ≤ count k xs
count-present k [] e = absurd cc
count-present k (x ∷ xs) e = ground (arith, count-present k xs)

count-remove_le : (k x : ℕ) (xs : List ℕ) → count k (remove x xs) ≤ count k xs
count-remove_le k x [] = omega arith
count-remove_le k x (y ∷ ys) = ground (arith, count-remove_le k x ys)

-- What the queue becomes: a new transfer waits.
abbrev added : Queue → Queue
added q = record q {
  next_id = q.next_id + 1;
  waiting = q.waiting ++ q.next_id ∷ [];
  known = q.known ++ q.next_id ∷ [];
}

pub added-IsConsistent : (q : Queue) → IsConsistent q → IsConsistent (added q)
added-IsConsistent q h = record {
  final_ack = h.final_ack;
  known = λ k. grind (
    arith,
    count-append k q.waiting (q.next_id ∷ []),
    count-append k q.known (q.next_id ∷ []),
    h.known k,
  );
  once = λ k. grind (arith, count-append k q.known (q.next_id ∷ []), h.once k, h.fresh k);
  fresh = λ k le. grind (arith, count-append k q.known (q.next_id ∷ []), h.fresh k);
}

-- The first one that waits is the one in progress.
pub begun-IsConsistent :
    (q : Queue) (bid : ℕ) (rest : List ℕ)
    → q.current ≡ none
    → q.waiting ≡ bid ∷ rest
    → IsConsistent q
    → IsConsistent (record q { waiting = rest; current = some bid })
begun-IsConsistent q bid rest c w h = record {
  final_ack = h.final_ack;
  known = λ k. ground (arith, h.known k);
  once = h.once;
  fresh = h.fresh;
}

-- The one in progress waits for its acknowledgement.
pub ended-IsConsistent :
    (q : Queue) (bid : ℕ)
    → q.current ≡ some bid
    → IsConsistent q
    → IsConsistent (record q {
      current = none;
      unacked = if contains bid q.unacked then q.unacked else q.unacked ++ bid ∷ [];
    })
ended-IsConsistent q bid c h = record {
  final_ack = h.final_ack;
  known = λ k. ground (arith, count-append k q.unacked (bid ∷ []), h.known k);
  once = h.once;
  fresh = h.fresh;
}

acked_same :
    (q : Queue) (bid : ℕ)
    → contains bid q.unacked ≡ true
    → IsConsistent q
    → places bid (record q { unacked = remove bid q.unacked; known = remove bid q.known })
      ≤ count bid (remove bid q.known)
acked_same q bid c h = elim (Bool-cases (contains bid q.known)) [
  | inl e ↦
      omega (arith, count-remove_one bid q.unacked c, count-remove_one bid q.known e, h.known bid)
  | inr e ↦ omega (arith, count-present bid q.unacked c, count-absent bid q.known e, h.known bid)
]

-- A transfer is acknowledged.
pub acked-IsConsistent :
    (q : Queue) (bid : ℕ)
    → contains bid q.unacked ≡ true
    → IsConsistent q
    → IsConsistent (record q { unacked = remove bid q.unacked; known = remove bid q.known })
acked-IsConsistent q bid c h = record {
  final_ack = h.final_ack;
  known = λ k. elim (Bool-cases (bid == k)) [
    | inl e ↦
        subst
          (λ j.
            places j (record q { unacked = remove bid q.unacked; known = remove bid q.known })
            ≤ count j (remove bid q.known))
          (eqb→eq bid k e) (acked_same q bid c h)
    | inr e ↦
        omega (
          arith,
          count-remove_other k bid q.unacked e,
          count-remove_other k bid q.known e,
          h.known k,
        )
  ];
  once = λ k. omega (arith, count-remove_le k bid q.known, h.once k);
  fresh = λ k le. omega (arith, count-remove_le k bid q.known, h.fresh k le);
}

-- The first one that waits is dropped.
pub dropped-IsConsistent :
    (q : Queue) (bid : ℕ) (rest : List ℕ)
    → q.waiting ≡ bid ∷ rest
    → IsConsistent q
    → IsConsistent (record q { waiting = rest })
dropped-IsConsistent q bid rest w h = record {
  final_ack = h.final_ack;
  known = λ k. ground (arith, h.known k);
  once = h.once;
  fresh = h.fresh;
}
