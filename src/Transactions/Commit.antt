-- ===== src/Transactions/Commit.antt =====
-- `_transaction_commit_dirty`: the dirty nodes go into the pending transaction, which is committed
-- when nothing is queued.
use scrollfx.Prelude.{
  ℕ, suc, ◌≤◌, ◌≡◌, ◌≢◌, refl, sym, ap, ap₂, ◌∙◌, subst, List, [], ◌∷◌, Option, none, some, Bool,
  true, false, if◌then◌else◌, arith, Bool-cases, Option-cases, inl, inr,
}
use mathlib.Core.Option.{some-injective, none-ne-some}
use mathlib.Core.Bool.{true≢false}
use scrollfx.Tree.Count.{one}
use scrollfx.Containers.{Node, Store}
use scrollfx.Containers.Dirty.{occurrences, IsTracked}
use scrollfx.Transactions.{
  Transaction, Server, Env, instructions_of, or_empty, copy_state, collect, commit_with,
  commit_nodes, transaction_commit, transaction_commit_pending, transaction_commit_dirty,
}
use scrollfx.Transactions.Tally.{refs, state_for}
use scrollfx.Transactions.Finish.{or_old}
use scrollfx.Transactions.Add.{Collected, add_dirty-Collected}
use scrollfx.Transactions.Balance.{IsBalanced, IsSettled, held}
use scrollfx.Transactions.Start.{commit-Started}
use scrollfx.Transactions.Progress.{IsResting, progress-Progressed, Progressed-IsResting}
use scrollfx.Transactions.Eventual.{eventual, owed, Moved, Started-Moved, Progressed-Moved}

-- No node is dirty.
abbrev pub IsClean : Store → Type 0
IsClean st = (m : Node) → st.dirty m ≡ false

pub IsClean-IsSettled : (st : Store) → IsClean st → IsSettled st
IsClean-IsSettled st clean m h = clean m

-- The dirty nodes get their states of now, and what is destroyed is in a transaction or freed.
pub record Taken (s s' : Server) : Type 0 where
  pub states :
      (m : Node) → eventual m s' ≡ (if s.store.dirty m then copy_state m s else eventual m s)
  pub taken : (m : Node) → s.store.destroying m ≡ true → s.store.dirty m ≡ true → owed m s' ≢ 0
  pub same_owed : (m : Node) → s.store.destroying m ≡ true → owed m s ≢ 0 → owed m s' ≢ 0
  pub same_destroying : s'.store.destroying ≡ s.store.destroying
  pub clean : IsClean s'.store

-- What `collect` leaves.
pub record Pooled (s s' : Server) : Type 0 where
  pub balanced : IsBalanced s'
  pub took : Taken s s'
  pub pending : (p : Transaction) × (s'.pending_transaction ≡ some p)
  pub same_queued : s'.queued_transaction ≡ s.queued_transaction

occurs : (m : Node) (st : Store) → IsTracked st → occurrences m st.dirty_nodes ≡ one (st.dirty m)
unfolding IsTracked
occurs m st h = h m

no_nodes : (st : Store) → IsClean st → IsTracked (record st { dirty_nodes = [] })
unfolding IsTracked
no_nodes st clean m = sym (ap one (clean m))

or_empty-refs :
    (m : Node) (p : Option Transaction)
    → refs m (or_empty p).instructions ≡ refs m (instructions_of p)
or_empty-refs m none = refl
or_empty-refs m (some t) = refl

or_empty-state :
    (m : Node) (p : Option Transaction)
    → state_for m (or_empty p).instructions ≡ state_for m (instructions_of p)
or_empty-state m none = refl
or_empty-state m (some t) = refl

module _ (request : Bool) (s : Server) (balanced : IsBalanced s) where
  abbrev queue : Node → ℕ
  queue m = refs m (instructions_of s.queued_transaction)

  abbrev ns : List Node
  ns = s.store.dirty_nodes

  module _ (t : Transaction) (s1 : Server)
      (c : Collected queue ns (or_empty s.pending_transaction) t s s1) where
    abbrev pool : Server
    pool = record s1 { store = record s1.store { dirty_nodes = [] }; pending_transaction = some t }

    dirty_occurs : (m : Node) → s.store.dirty m ≡ true → occurrences m ns ≢ 0
    dirty_occurs m h z = omega (arith, z, occurs m s.store balanced.tracked, ap one h)

    clean_absent : (m : Node) → s.store.dirty m ≡ false → occurrences m ns ≡ 0
    clean_absent m h = occurs m s.store balanced.tracked ∙ ap one h

    pool-IsClean : IsClean s1.store
    pool-IsClean m = elim (Bool-cases (s.store.dirty m)) [
      | inl dirty ↦ (c.taken m (dirty_occurs m dirty)).2
      | inr clean ↦ (c.left m (clean_absent m clean)).2 ∙ clean
    ]

    pool_current : (m : Node) → s1.current m ≡ s.current m
    pool_current m = ap (λ x. x.current m) c.rest

    pool_queued : s1.queued_transaction ≡ s.queued_transaction
    pool_queued = ap (λ x. x.queued_transaction) c.rest

    pool_freed : s1.freed ≡ s.freed
    pool_freed = ap (λ x. x.freed) c.rest

    pool_queue : (m : Node) → refs m (instructions_of s1.queued_transaction) ≡ queue m
    pool_queue m = ap (λ q. refs m (instructions_of q)) pool_queued

    pool_destroying : s1.store.destroying ≡ s.store.destroying
    pool_destroying = ap (λ x. x.store.destroying) c.rest

    pool_gone :
        (m : Node)
        → occurrences m s1.freed ≢ 0
        → (s1.ntxnrefs m ≡ 0) × (s1.store.dirty m ≡ false) × (s1.store.destroying m ≡ true)
    pool_gone m h =
        let (none_left, clean, mark) =
          balanced.gone m (λ z. h (ap (occurrences m) pool_freed ∙ z)) in
        (
          omega (
            arith,
            c.counted m,
            (c.left m (clean_absent m clean)).0,
            balanced.counted m,
            none_left,
            or_empty-refs m s.pending_transaction,
          ),
          pool-IsClean m,
          ap (λ x. x m) pool_destroying ∙ mark,
        )

    pool-IsBalanced : IsBalanced pool
    pool-IsBalanced = record {
      counted = λ m. omega (arith, c.counted m, pool_queue m);
      once_queued = λ m. omega (arith, pool_queue m, balanced.once_queued m);
      once_pending = c.once;
      linked =
          subst
            (λ (x : Server).
              (m : Node)
              → x.instruction m ≢ 0
              → held (x.instruction m) m (instructions_of x.queued_transaction) ≢ 0)
            (sym c.rest) balanced.linked;
      gone = pool_gone;
      freed_once = λ m. subst (λ x. occurrences m x ≤ 1) (sym pool_freed) (balanced.freed_once m);
      tracked = no_nodes s1.store pool-IsClean;
    }

    pool_states :
        (m : Node) → eventual m pool ≡ (if s.store.dirty m then copy_state m s else eventual m s)
    pool_states m = elim (Bool-cases (s.store.dirty m)) [
      | inl dirty ↦
          ap₂ or_old ((c.taken m (dirty_occurs m dirty)).1) refl
          ∙ ap (λ b. if b then copy_state m s else eventual m s) (sym dirty)
      | inr clean ↦
          ap₂ or_old ((c.left m (clean_absent m clean)).1 ∙ or_empty-state m s.pending_transaction)
            (ap₂ or_old (ap (λ q. state_for m (instructions_of q)) pool_queued) (pool_current m))
          ∙ ap (λ b. if b then copy_state m s else eventual m s) (sym clean)
    ]

    pool_taken : (m : Node) → s.store.dirty m ≡ true → owed m pool ≢ 0
    pool_taken m dirty z = omega (arith, z, (c.taken m (dirty_occurs m dirty)).0)

    pool_owes : (m : Node) → owed m s ≢ 0 → owed m pool ≢ 0
    pool_owes m h = elim (Bool-cases (s.store.dirty m)) [
      | inl dirty ↦ pool_taken m dirty
      | inr clean ↦ λ z. h (
          omega (
            arith,
            z,
            (c.left m (clean_absent m clean)).0,
            or_empty-refs m s.pending_transaction,
            pool_queue m,
            ap (occurrences m) pool_freed,
          ))
    ]

    pool-Pooled : Pooled s pool
    pool-Pooled = record {
      balanced = pool-IsBalanced;
      took = record {
        states = pool_states;
        taken = λ m d. pool_taken m;
        same_owed = λ m d. pool_owes m;
        same_destroying = pool_destroying;
        clean = pool-IsClean;
      };
      pending = (t, refl);
      same_queued = pool_queued;
    }

  pub collect-Pooled : Pooled s (collect request s)
  unfolding collect
  collect-Pooled =
      let (t, s1, run, c) =
        add_dirty-Collected queue ns request (or_empty s.pending_transaction) s
          (λ m. omega (arith, balanced.counted m, or_empty-refs m s.pending_transaction))
          (λ m. omega (arith, balanced.once_pending m, or_empty-refs m s.pending_transaction)) in
      rw run (pool-Pooled t s1 c)

-- What holds between two calls: `IsResting`, and no dirty node is being destroyed.
pub record Committed (s s' : Server) : Type 0 where
  pub resting : IsResting s'
  pub took : Taken s s'

Taken-Moved : (a b c : Server) → Taken a b → Moved b c → Taken a c
Taken-Moved a b c f g = record {
  states = λ m. g.same_eventual m ∙ f.states m;
  taken = λ m d h. g.same_owed m (ap (λ x. x m) f.same_destroying ∙ d) (f.taken m d h);
  same_owed = λ m d h. g.same_owed m (ap (λ x. x m) f.same_destroying ∙ d) (f.same_owed m d h);
  same_destroying = ap (λ x. x.destroying) g.same_store ∙ f.same_destroying;
  clean = λ m. ap (λ x. x.dirty m) g.same_store ∙ f.clean m;
}

module _ (e : Env) where
  -- The commit of a pending transaction returns, and what is left is in order.
  pending-Committed :
      (fuel : ℕ) (s : Server)
      → IsResting s
      → (s1 : Server) → Pooled s s1
      → (s' : Server) × (transaction_commit_pending e (suc (suc fuel)) s1 ≡ some s')
        × Committed s s'
  unfolding transaction_commit_pending commit_with
  pending-Committed fuel s resting s1 p =
      let (t, pending) = p.pending in
      elim (Option-cases s1.queued_transaction) [
        | inr (u, queued) ↦
            let before = sym p.same_queued in
            (
              s1,
              ap (λ o. commit_with e (suc (suc fuel)) o s1.pending_transaction s1) queued,
              record {
                resting = record {
                  balanced = p.balanced;
                  waits = λ v h. resting.waits v (before ∙ h);
                  timed = λ v h. resting.timed v (before ∙ h);
                  idle = λ h. absurd (none-ne-some u (sym h ∙ queued));
                };
                took = p.took;
              },
            )
        | inl idle ↦
            let m = transaction_commit e t s1 in
            let b = commit-Started e t s1 p.balanced idle pending in
            let settled =
              subst IsSettled (sym b.same_store) (IsClean-IsSettled s1.store p.took.clean) in
            let (s', run, q) = progress-Progressed e fuel m b.balanced settled in
            (
              s',
              ap₂ (λ o r. commit_with e (suc (suc fuel)) o r s1) idle pending ∙ run,
              record {
                resting =
                    Progressed-IsResting e m s' b.balanced
                      (λ v h n. timer_of m b.transaction v b.queued h b.timed n) (λ h. b.no_pending)
                      q;
                took =
                    Taken-Moved s m s'
                      (Taken-Moved s s1 m p.took (Started-Moved e t s1 m idle pending b))
                      (Progressed-Moved e m s' q);
              },
            )
      ]
    where
      timer_of :
          (m : Server) (t u : Transaction)
          → m.queued_transaction ≡ some t
          → m.queued_transaction ≡ some u
          → (t.num_waiting ≢ 0 → t.timer ≡ true)
          → u.num_waiting ≢ 0
          → u.timer ≡ true
      timer_of m t u h k timed =
          subst (λ (x : Transaction). x.num_waiting ≢ 0 → x.timer ≡ true)
            (some-injective t u (sym h ∙ k)) timed

  nothing_dirty : (s : Server) → IsTracked s.store → s.store.dirty_nodes ≡ [] → IsClean s.store
  nothing_dirty s tracked h m =
      one_zero (s.store.dirty m) (sym (occurs m s.store tracked) ∙ ap (occurrences m) h)
    where
      one_zero : (b : Bool) → one b ≡ 0 → b ≡ false
      one_zero b z = ground (arith, z)

  -- When nothing is dirty, nothing is done.
  clean-Committed : (s : Server) → IsResting s → IsClean s.store → Committed s s
  clean-Committed s resting clean = record {
    resting = resting;
    took = record {
      states = λ m. ap (λ b. if b then copy_state m s else eventual m s) (sym (clean m));
      taken = λ m d h. absurd (true≢false (sym h ∙ clean m));
      same_owed = λ m d h. h;
      same_destroying = refl;
      clean = clean;
    };
  }

  pub commit_dirty-Committed :
      (fuel : ℕ) (request : Bool) (s : Server)
      → IsResting s
      → (s' : Server) × (transaction_commit_dirty e (suc (suc fuel)) request s ≡ some s')
        × Committed s s'
  unfolding transaction_commit_dirty commit_nodes
  commit_dirty-Committed fuel request s resting = by_nodes s.store.dirty_nodes refl
    where
      by_nodes :
          (l : List Node)
          → s.store.dirty_nodes ≡ l
          → (s' : Server) × (commit_nodes e (suc (suc fuel)) request l s ≡ some s') × Committed s s'
      by_nodes [] h =
          (s, refl, clean-Committed s resting (nothing_dirty s resting.balanced.tracked h))
      by_nodes (n ∷ more) h =
          pending-Committed fuel s resting (collect request s)
            (collect-Pooled request s resting.balanced)
