-- ===== src/Transactions/Balance.antt =====
-- The invariant of the server: references are counted, pointers to instructions are good, and what
-- is freed is not referred to.
use scrollfx.Prelude.{
  ℕ, zero, suc, ◌+◌, ◌≤◌, ◌≡◌, ◌≢◌, refl, sym, ap, ap₂, ◌∙◌, subst, List, [], ◌∷◌, none, some, Bool,
  true, false, ◌==◌, ◌&&◌, arith, inl, inr, ◌⊎◌,
}
use scrollfx.Tree.Count.{one}
use scrollfx.Containers.{Node, eq_node, Store}
use scrollfx.Containers.Dirty.{occurrences, IsTracked}
use scrollfx.Transactions.{
  Instruction, Transaction, Server, instructions_of, apply, transaction_destroy, end_transaction,
}
use scrollfx.Transactions.Tally.{tally, refs, state_for}
use scrollfx.Transactions.Finish.{Applied, apply-Applied, Destroyed, destroy-Destroyed, or_old}

-- How many instructions have an address and are for a node.
abbrev pub held : ℕ → Node → List Instruction → ℕ
held k m is = tally (λ i. (i.id == k) && eq_node i.node m) is

pub record IsBalanced (s : Server) : Type 0 where
  pub counted :
      (m : Node)
      → s.ntxnrefs m
        ≡ refs m (instructions_of s.queued_transaction)
          + refs m (instructions_of s.pending_transaction)
  -- A transaction has one instruction for a node at most.
  pub once_queued : (m : Node) → refs m (instructions_of s.queued_transaction) ≤ 1
  pub once_pending : (m : Node) → refs m (instructions_of s.pending_transaction) ≤ 1
  -- A node's pointer to an instruction is null, or one of the queued transaction's for that node.
  pub linked :
      (m : Node)
      → s.instruction m ≢ 0
      → held (s.instruction m) m (instructions_of s.queued_transaction) ≢ 0
  -- A node that has been freed is not in a transaction, and not dirty.
  pub gone :
      (m : Node)
      → occurrences m s.freed ≢ 0
      → (s.ntxnrefs m ≡ 0) × (s.store.dirty m ≡ false) × (s.store.destroying m ≡ true)
  pub freed_once : (m : Node) → occurrences m s.freed ≤ 1
  pub tracked : IsTracked s.store

-- No dirty node is being destroyed.
abbrev pub IsSettled : Store → Type 0
IsSettled st = (m : Node) → st.destroying m ≡ true → st.dirty m ≡ false

-- What the end of the transaction `t` leaves.
pub record Finished (t : Transaction) (s s' : Server) : Type 0 where
  pub balanced : IsBalanced s'
  pub no_queued : s'.queued_transaction ≡ none
  pub same_pending : s'.pending_transaction ≡ s.pending_transaction
  pub same_store : s'.store ≡ s.store
  pub currents : (m : Node) → s'.current m ≡ or_old (state_for m t.instructions) (s.current m)
  pub ends :
      (m : Node)
      → refs m t.instructions ≢ 0
      → s.store.destroying m ≡ true
      → refs m (instructions_of s.pending_transaction) ≡ 0
      → occurrences m s'.freed ≡ 1
  pub stays : (m : Node) → occurrences m s.freed ≤ occurrences m s'.freed

pub held-refs : (k : ℕ) (m : Node) (is : List Instruction) → held k m is ≤ refs m is
held-refs k m [] = omega arith
held-refs k m (i ∷ is) = grind (arith, held-refs k m is)

zero_or : (k : ℕ) → (k ≡ 0) ⊎ (k ≢ 0)
zero_or zero = inl refl
zero_or (suc k) = inr (λ e. omega (arith, e))

module _ (t : Transaction) (s : Server) (balanced : IsBalanced s)
    (queued : s.queued_transaction ≡ some t) where
  abbrev is : List Instruction
  is = t.instructions

  in_queue : (m : Node) → refs m (instructions_of s.queued_transaction) ≡ refs m is
  in_queue m = ap (λ q. refs m (instructions_of q)) queued

  finish_once : (m : Node) → refs m is ≤ 1
  finish_once m = omega (arith, balanced.once_queued m, in_queue m)

  abbrev s1 : Server
  s1 = apply is s

  abbrev s2 : Server
  s2 = transaction_destroy is s1

  applied : Applied is s s1
  applied = apply-Applied is s finish_once

  refs_same : (m : Node) → s1.ntxnrefs m ≡ s.ntxnrefs m
  refs_same m = ap (λ x. x.ntxnrefs m) applied.rest

  destroyed : Destroyed is s1 s2
  destroyed =
      destroy-Destroyed is s1 (λ m. omega (arith, refs_same m, balanced.counted m, in_queue m))
        finish_once

  null_after : (m : Node) → s1.instruction m ≡ 0
  null_after m = elim (zero_or (refs m is)) [
    | inr there ↦ applied.cleared m there
    | inl absent ↦ elim (zero_or (s.instruction m)) [
      | inl null ↦ applied.kept m absent ∙ null
      | inr linked ↦ absurd (
          balanced.linked m linked (
            omega (
              arith,
              held-refs (s.instruction m) m (instructions_of s.queued_transaction),
              in_queue m,
              absent,
            )))
    ]
  ]

  left : (m : Node) → s2.ntxnrefs m ≡ refs m (instructions_of s.pending_transaction)
  left m = omega (arith, destroyed.less m, refs_same m, balanced.counted m, in_queue m)

  store_same : s2.store ≡ s.store
  store_same = ap (λ x. x.store) destroyed.rest ∙ ap (λ x. x.store) applied.rest

  freed_before : (m : Node) → occurrences m s1.freed ≡ occurrences m s.freed
  freed_before m = ap (λ x. occurrences m x.freed) applied.rest

  marks : (m : Node) → s1.store.destroying m ≡ s.store.destroying m
  marks m = ap (λ x. x.store.destroying m) applied.rest

  -- A node of the transaction was not freed before.
  not_yet : (m : Node) → refs m is ≢ 0 → occurrences m s.freed ≡ 0
  not_yet m there = elim (zero_or (occurrences m s.freed)) [
    | inl z ↦ z
    | inr h ↦ absurd (there (omega (arith, (balanced.gone m h).0, balanced.counted m, in_queue m)))
  ]

  freed_now :
      (m : Node)
      → refs m is ≢ 0
      → occurrences m s2.freed ≡ one (s.store.destroying m && (s2.ntxnrefs m == 0))
  freed_now m there =
      destroyed.freed_once m there
      ∙ ap₂ (λ k b. k + one (b && (s2.ntxnrefs m == 0))) (freed_before m ∙ not_yet m there)
          (marks m)
      ∙ omega arith

  freed_else : (m : Node) → refs m is ≡ 0 → occurrences m s2.freed ≡ occurrences m s.freed
  freed_else m absent = destroyed.not_freed m absent ∙ freed_before m

  finish_gone :
      IsSettled s.store
      → (m : Node) → occurrences m s2.freed ≢ 0
      → (s2.ntxnrefs m ≡ 0) × (s.store.dirty m ≡ false) × (s.store.destroying m ≡ true)
  finish_gone settled m h = elim (zero_or (refs m is)) [
    | inl absent ↦
        let (none_left, clean, mark) = balanced.gone m (λ z. h (freed_else m absent ∙ z)) in
        (omega (arith, left m, balanced.counted m, none_left), clean, mark)
    | inr there ↦
        let e = freed_now m there in
        let mark = both_true (s.store.destroying m) (s2.ntxnrefs m) (λ z. h (e ∙ z)) in
        (mark.1, settled m mark.0, mark.0)
  ]
    where
      both_true : (b : Bool) (k : ℕ) → one (b && (k == 0)) ≢ 0 → (b ≡ true) × (k ≡ 0)
      both_true b k n = ground (arith, n)

  finish_stays : (m : Node) → occurrences m s.freed ≤ occurrences m s2.freed
  finish_stays m = elim (zero_or (refs m is)) [
    | inl absent ↦ omega (arith, freed_else m absent)
    | inr there ↦ omega (arith, not_yet m there)
  ]

  finish_freed_once : (m : Node) → occurrences m s2.freed ≤ 1
  finish_freed_once m = elim (zero_or (refs m is)) [
    | inl absent ↦ omega (arith, freed_else m absent, balanced.freed_once m)
    | inr there ↦ one_le (s.store.destroying m && (s2.ntxnrefs m == 0)) (freed_now m there)
  ]
    where
      one_le : (b : Bool) {k : ℕ} → k ≡ one b → k ≤ 1
      one_le b e = ground (arith, e)

  -- A node that is being destroyed is freed, dirty or not.
  pub finish_ends :
      (m : Node)
      → refs m is ≢ 0
      → s.store.destroying m ≡ true
      → refs m (instructions_of s.pending_transaction) ≡ 0
      → occurrences m (end_transaction t s).freed ≡ 1
  unfolding end_transaction
  finish_ends m there mark none_left =
      freed_now m there ∙ ap₂ (λ b k. one (b && (k == 0))) mark (left m ∙ none_left)

  pub finish-same_pending : (end_transaction t s).pending_transaction ≡ s.pending_transaction
  unfolding end_transaction
  finish-same_pending =
      ap (λ x. x.pending_transaction) destroyed.rest ∙ ap (λ x. x.pending_transaction) applied.rest

  pub finish-same_store : (end_transaction t s).store ≡ s.store
  unfolding end_transaction
  finish-same_store = store_same

  pub finish-Finished : IsSettled s.store → Finished t s (end_transaction t s)
  unfolding end_transaction
  finish-Finished settled = record {
    balanced = record {
      counted =
          λ m. omega (arith, left m, ap (λ p. refs m (instructions_of p)) finish-same_pending);
      once_queued = λ m. omega arith;
      once_pending = λ m.
          subst (λ p. refs m (instructions_of p) ≤ 1) (sym finish-same_pending)
            (balanced.once_pending m);
      linked = λ m h. absurd (h (destroyed.nulls null_after m));
      gone = λ m h.
          let (a, b, c) = finish_gone settled m h in
          (a, ap (λ x. x.dirty m) store_same ∙ b, ap (λ x. x.destroying m) store_same ∙ c);
      freed_once = finish_freed_once;
      tracked = subst IsTracked (sym store_same) balanced.tracked;
    };
    no_queued = refl;
    same_pending = finish-same_pending;
    same_store = store_same;
    currents = λ m. ap (λ x. x.current m) destroyed.rest ∙ applied.currents m;
    ends = finish_ends;
    stays = finish_stays;
  }
