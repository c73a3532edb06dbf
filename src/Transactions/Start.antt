-- ===== src/Transactions/Start.antt =====
-- The commit of the pending transaction: `transaction_commit`.
use scrollfx.Prelude.{
  ℕ, zero, suc, ◌+◌, ◌≤◌, ◌≡◌, ◌≢◌, refl, sym, ap, ap₂, ◌∙◌, subst, List, [], ◌∷◌, none, some, true,
  ◌&&◌, if◌then◌else◌, arith, Bool-cases, inl, inr, ◌⊎◌, ==_iff,
}
use scrollfx.Tree.Count.{one}
use scrollfx.Containers.{Node, eq_node}
use scrollfx.Containers.Dirty.{occurrences, IsTracked}
use scrollfx.Transactions.{
  Instruction, Transaction, Server, Env, instructions_of, update_node, ask, wait_count,
  should_configure, commit_from, wait_for, transaction_commit,
}
use scrollfx.Transactions.Tally.{refs, state_for}
use scrollfx.Transactions.Balance.{IsBalanced, held}

module _ (e : Env) where
  ask-parts :
      (i : Instruction) (s : Server)
      → ((ask e i s).id ≡ i.id) × ((ask e i s).node ≡ i.node) × ((ask e i s).state ≡ i.state)
  unfolding ask
  ask-parts i s = elim (Bool-cases (should_configure e i s)) [
    | inl yes_ask ↦ (rw yes_ask refl, rw yes_ask refl, rw yes_ask refl)
    | inr no_ask ↦ (rw no_ask refl, rw no_ask refl, rw no_ask refl)
  ]

  -- What the loop over the instructions leaves.
  record Asked (is js : List Instruction) (s s' : Server) : Type 0 where
    counts : (m : Node) → refs m js ≡ refs m is
    states : (m : Node) → state_for m js ≡ state_for m is
    links : (m : Node) → refs m is ≢ 0 → held (s'.instruction m) m js ≢ 0
    kept : (m : Node) → refs m is ≡ 0 → s'.instruction m ≡ s.instruction m
    rest : s' ≡ record s { instruction = s'.instruction }

  commit_from-Asked :
      (is : List Instruction) (s : Server)
      → (js : List Instruction) × (n : ℕ) × (s' : Server) × (commit_from e is s ≡ (js, n, s'))
        × Asked is js s s'
  unfolding commit_from
  commit_from-Asked [] s = (
    [],
    0,
    s,
    refl,
    record {
      counts = λ m. refl;
      states = λ m. refl;
      links = λ m h. absurd (h refl);
      kept = λ m h. refl;
      rest = refl;
    },
  )
  commit_from-Asked (i ∷ is) s =
      let s1 = record s { instruction = update_node s.instruction i.node i.id } in
      let (js, n, s2, run, a) = commit_from-Asked is s1 in
      let (same_id, same_node, same_state) = ask-parts i s in
      (
        ask e i s ∷ js,
        wait_count e i s + n,
        s2,
        rw run refl,
        record {
          counts = λ m. ap₂ (λ x k. one (eq_node x m) + k) same_node (a.counts m);
          states = λ m.
              ap₂ (λ x v. if eq_node x m then some v else state_for m js) same_node same_state
              ∙ ap (λ o. if eq_node i.node m then some i.state else o) (a.states m);
          links = λ m h. elim (zero_or (refs m is)) [
            | inr later ↦ λ z. a.links m later (omega (arith, z))
            | inl never ↦ elim (Bool-cases (eq_node i.node m)) [
              | inr miss ↦ absurd (h (omega (arith, never, ap one miss)))
              | inl hit ↦
                  let pointer =
                    a.kept m never ∙ ap (λ b. if b then i.id else s.instruction m) hit in
                  λ z. omega (
                    arith,
                    z,
                    ap₂ (λ b c. one (b && c))
                        ((==_iff (ask e i s).id (s2.instruction m)).1 (same_id ∙ sym pointer))
                        (ap (λ x. eq_node x m) same_node ∙ hit),
                  )
            ]
          ];
          kept = λ m h. elim (Bool-cases (eq_node i.node m)) [
            | inl hit ↦ absurd (omega (arith, h, ap one hit))
            | inr miss ↦
                a.kept m (omega (arith, h)) ∙ ap (λ b. if b then i.id else s.instruction m) miss
          ];
          rest = a.rest;
        },
      )
    where
      zero_or : (k : ℕ) → (k ≡ 0) ⊎ (k ≢ 0)
      zero_or zero = inl refl
      zero_or (suc k) = inr (λ z. omega (arith, z))

  -- What the commit of `p` leaves.
  pub record Started (p : Transaction) (s s' : Server) : Type 0 where
    pub balanced : IsBalanced s'
    pub transaction : Transaction
    pub queued : s'.queued_transaction ≡ some transaction
    pub counts : (m : Node) → refs m transaction.instructions ≡ refs m p.instructions
    pub states : (m : Node) → state_for m transaction.instructions ≡ state_for m p.instructions
    pub timed : transaction.num_waiting ≢ 0 → transaction.timer ≡ true
    pub no_pending : s'.pending_transaction ≡ none
    pub same_store : s'.store ≡ s.store
    pub same_current : s'.current ≡ s.current
    pub same_freed : s'.freed ≡ s.freed

  wait_timed :
      (n : ℕ) (is : List Instruction) → (wait_for e n is).0 ≢ 0 → (wait_for e n is).1 ≡ true
  unfolding wait_for
  wait_timed n is h = ground (arith, h)

  pub commit-Started :
      (p : Transaction) (s : Server)
      → IsBalanced s
      → s.queued_transaction ≡ none
      → s.pending_transaction ≡ some p
      → Started p s (transaction_commit e p s)
  unfolding transaction_commit
  commit-Started p s b idle pending =
      let (js, n, s1, run, a) = commit_from-Asked p.instructions s in
      let s2 = record s1 {
        queued_transaction = some (record {
          instructions = js;
          num_waiting = (wait_for e n js).0;
          timer = (wait_for e n js).1;
        });
        pending_transaction = none;
      } in
      rw run (record {
        balanced = record {
          counted = λ m.
              ap (λ x. x.ntxnrefs m) a.rest
              ∙ omega (
                arith,
                b.counted m,
                ap (λ q. refs m (instructions_of q)) idle,
                ap (λ q. refs m (instructions_of q)) pending,
                a.counts m,
              );
          once_queued = λ m.
              omega
                (arith, a.counts m, b.once_pending m, ap (λ q. refs m (instructions_of q)) pending);
          once_pending = λ m. omega arith;
          linked = λ m h. elim (zero_or (refs m p.instructions)) [
            | inr there ↦ a.links m there
            | inl absent ↦ absurd (
                b.linked m (λ z. h (a.kept m absent ∙ z))
                  (ap (λ q. held (s.instruction m) m (instructions_of q)) idle))
          ];
          gone = λ m h.
              let (x, y, z) = b.gone m (λ k. h (ap (λ x. occurrences m x.freed) a.rest ∙ k)) in
              (
                ap (λ x. x.ntxnrefs m) a.rest ∙ x,
                ap (λ x. x.store.dirty m) a.rest ∙ y,
                ap (λ x. x.store.destroying m) a.rest ∙ z,
              );
          freed_once = λ m. subst (λ x. occurrences m x.freed ≤ 1) (sym a.rest) (b.freed_once m);
          tracked = subst (λ x. IsTracked x.store) (sym a.rest) b.tracked;
        };
        transaction = record {
          instructions = js;
          num_waiting = (wait_for e n js).0;
          timer = (wait_for e n js).1;
        };
        queued = refl;
        counts = a.counts;
        states = a.states;
        timed = wait_timed n js;
        no_pending = refl;
        same_store = ap (λ x. x.store) a.rest;
        same_current = ap (λ x. x.current) a.rest;
        same_freed = ap (λ x. x.freed) a.rest;
      })
    where
      zero_or : (k : ℕ) → (k ≡ 0) ⊎ (k ≢ 0)
      zero_or zero = inl refl
      zero_or (suc k) = inr (λ z. omega (arith, z))
